-- ===== src/Lifetime/Balance.antt =====
-- About what the functions of tools/ubpf/vm allocate and free from `ubpf_create` to `ubpf_destroy`
-- (ubpf_vm.c, ubpf_jit_x86_64.c).
use ve_bpf.Base.{
  ℕ, ◌≡◌, refl, ap, sym, ◌∙◌, Bool, true, false, Option, none, some, List, [], ◌∷◌, ◌++◌, arith,
  length,
}
use mathlib.Core.Path.{subst}
use mathlib.Core.List.{append_assoc}
use ve_bpf.Base.Held.{acquire, Event, release, held_after}
use ve_bpf.Ebpf.{Inst}
use ve_bpf.Vm.State.{Vm, create}
use ve_bpf.Vm.Load.{load}
use ve_bpf.Jit.State.{Jit, Emitted, emitted, unknown_instruction, aborted}
use ve_bpf.Jit.Translate.{Host, translate}
use ve_bpf.Jit.Resolve.{resolve_jumps}
use ve_bpf.Jit.Compile.{Compiled, install, finish, compile_insts, compile_jitted, compile, initial}
use ve_bpf.Jit.Layout.Fields.{length-resolve_from}
use ve_bpf.Lifetime.{
  message_memory, free_message, compile_failed, Block, vm_memory, funcs_memory, names_memory,
  buf_memory, pc_locs_memory, jumps_memory, mapping, destroy_fields, jitted_block, is_set, destroy,
  create_events, translated_events, compile_events, Call, call_load, call_compile, after_compile,
  call, resume, calls,
}
use ve_bpf.Lifetime.Owned.{
  same, owned, destroy-owned, IsOrdered, Moves, Moves-owned, owned-compile, unchanged, load-Moves,
}

abbrev state_blocks : List Block → List Block
state_blocks held = jumps_memory ∷ pc_locs_memory ∷ buf_memory ∷ held

release-mapping :
    (n : ℕ) (held : List Block) (more : List (Event Block))
    → held_after same (message_memory ∷ mapping n ∷ held) (release (mapping n) ∷ more)
      ≡ held_after same (message_memory ∷ held) more
release-mapping n held more = ground arith

length-resolve_jumps : (s : Jit) → length (resolve_jumps s) ≡ length s.buf
unfolding resolve_jumps
length-resolve_jumps s = length-resolve_from s s.jumps s.buf

finish-Moves :
    (vm vm' : Vm) (insts : List Inst) (mapped protected : Bool) (s : Emitted)
    → vm.jitted ≡ none
    → vm.insts ≡ some insts
    → after_compile vm (finish vm mapped protected s) ≡ some vm'
    → IsOrdered vm'
      × ((more : List (Event Block))
          → held_after same (state_blocks (owned vm)) (
              (translated_events mapped protected s
                ++ free_message (compile_failed (finish vm mapped protected s)))
              ++ more)
            ≡ held_after same (owned vm') more)
unfolding finish install translated_events
finish-Moves vm vm' insts mapped protected (unknown_instruction i) j h e =
    unchanged vm vm' (λ n. j) (cc)
finish-Moves vm vm' insts mapped protected aborted j h e = absurd (cc)
finish-Moves vm vm' insts false protected (emitted s) j h e = unchanged vm vm' (λ n. j) (cc)
finish-Moves vm vm' insts true false (emitted s) j h e =
    let (ordered, moves) = unchanged vm vm' (λ n. j) (cc) in
    (
      ordered,
      λ more.
          release-mapping (length s.buf) (owned vm) (release message_memory ∷ more) ∙ moves more,
    )
finish-Moves vm vm' insts true true (emitted s) j h e =
    let code = resolve_jumps s in
    let here : record vm { jitted = some code; jitted_size = length code } ≡ vm' = cc in
    let size = ap (λ (v : Vm). v.jitted_size) (sym here) ∙ length-resolve_jumps s in
    let now : vm'.jitted ≡ some code = ap (λ (v : Vm). v.jitted) (sym here) in
    let kept : vm'.insts ≡ vm.insts = ap (λ (v : Vm). v.insts) (sym here) in
    (
      λ n. absurd (cc),
      λ more.
          Moves-owned vm vm' (mapping (length s.buf) ∷ owned vm)
            (owned-compile vm vm' insts code (length s.buf) j h now size kept) more,
    )

compile-Moves :
    (host : Host) (vm vm' : Vm) (mapped protected : Bool) (jitted : Option (List ℕ))
    (insts : Option (List Inst))
    → IsOrdered vm
    → vm.jitted ≡ jitted
    → vm.insts ≡ insts
    → after_compile vm (compile host vm mapped protected) ≡ some vm'
    → IsOrdered vm'
      × Moves vm vm' (
          compile_events host vm mapped protected jitted insts
          ++ free_message (compile_failed (compile host vm mapped protected)))
unfolding compile compile_jitted compile_insts compile_events
compile-Moves host vm vm' mapped protected (some code) insts o j h e =
    let same_call = sym (ap (compile_jitted host vm mapped protected) j) in
    let after : some vm ≡ some vm' = ap (after_compile vm) same_call ∙ e in
    subst (λ (r : Compiled). IsOrdered vm' × Moves vm vm' (free_message (compile_failed r)))
      same_call (unchanged vm vm' o (cc))
compile-Moves host vm vm' mapped protected none none o j h e =
    let same_call = sym (
      ap (compile_jitted host vm mapped protected) j
      ∙ ap (compile_insts host vm mapped protected) h) in
    let after : some vm ≡ some vm' = ap (after_compile vm) same_call ∙ e in
    subst
      (λ (r : Compiled).
        IsOrdered vm' × Moves vm vm' (acquire message_memory ∷ free_message (compile_failed r)))
      same_call (unchanged vm vm' o (cc))
compile-Moves host vm vm' mapped protected none (some insts) o j h e =
    let code = translate host vm insts initial in
    let same_call = sym (
      ap (compile_jitted host vm mapped protected) j
      ∙ ap (compile_insts host vm mapped protected) h) in
    subst
      (λ (r : Compiled).
        IsOrdered vm'
        × Moves vm vm' (
            compile_events host vm mapped protected none (some insts)
            ++ free_message (compile_failed r)))
      same_call
      (finish-Moves vm vm' insts mapped protected code j h (ap (after_compile vm) same_call ∙ e))

call-Moves :
    (c : Call) (vm vm' : Vm) (events : List (Event Block))
    → IsOrdered vm
    → call c vm ≡ (some vm', events)
    → IsOrdered vm' × Moves vm vm' events
unfolding call
call-Moves (call_load code allocated) vm vm' events o e =
    let (ordered, moves) =
      load-Moves vm vm' code allocated (load vm code allocated) o refl
        (ap (λ (r : Option Vm × List (Event Block)). r.0) e) in
    subst (λ (es : List (Event Block)). IsOrdered vm' × Moves vm vm' es)
      (ap (λ (r : Option Vm × List (Event Block)). r.1) e) (ordered, moves)
call-Moves (call_compile host mapped protected) vm vm' events o e =
    let (ordered, moves) =
      compile-Moves host vm vm' mapped protected vm.jitted vm.insts o refl refl
        (ap (λ (r : Option Vm × List (Event Block)). r.0) e) in
    subst (λ (es : List (Event Block)). IsOrdered vm' × Moves vm vm' es)
      (ap (λ (r : Option Vm × List (Event Block)). r.1) e) (ordered, moves)

resume-some :
    (rest : Vm → Option Vm × List (Event Block)) (first : Option Vm × List (Event Block)) (vm' : Vm)
    (events : List (Event Block))
    → resume rest first ≡ (some vm', events)
    → (w : Vm) × (es : List (Event Block)) × (fs : List (Event Block)) × (first ≡ (some w, es))
      × (rest w ≡ (some vm', fs))
      × (events ≡ es ++ fs)
resume-some rest (none, es) vm' events h = absurd (cc)
resume-some rest (some w, es) vm' events h = (
  w,
  es,
  (rest w).1,
  refl,
  ap (λ (o : Option Vm). (o, (rest w).1)) (ap (λ (r : Option Vm × List (Event Block)). r.0) h),
  sym (ap (λ (r : Option Vm × List (Event Block)). r.1) h),
)

calls-Moves :
    (cs : List Call) (vm vm' : Vm) (events : List (Event Block))
    → IsOrdered vm
    → calls cs vm ≡ (some vm', events)
    → IsOrdered vm' × Moves vm vm' events
unfolding calls
calls-Moves [] vm vm' events o h =
    let here : vm ≡ vm' = cc in
    let empty : [] ≡ events = ap (λ (r : Option Vm × List (Event Block)). r.1) h in
    subst (λ (es : List (Event Block)). IsOrdered vm' × Moves vm vm' es) empty
      (unchanged vm vm' o here)
calls-Moves (c ∷ cs) vm vm' events o h =
    let (w, es, fs, first, second, e) = resume-some (calls cs) (call c vm) vm' events h in
    let (ordered, moves) = call-Moves c vm w es o first in
    let (ordered', moves') = calls-Moves cs w vm' fs ordered second in
    subst (λ (all : List (Event Block)). IsOrdered vm' × Moves vm vm' all) (sym e)
      (
        ordered',
        λ more.
            ap (held_after same (owned vm)) (append_assoc es fs more)
            ∙ moves (fs ++ more)
            ∙ moves' more,
      )

create-owned :
    (a b c : Bool) (vm : Vm)
    → create a b c ≡ some vm
    → IsOrdered vm
      × ((more : List (Event Block))
          → held_after same [] (create_events a b c ++ more) ≡ held_after same (owned vm) more)
unfolding create create_events
create-owned false b c vm h = absurd (cc)
create-owned true false c vm h = absurd (cc)
create-owned true true false vm h = absurd (cc)
create-owned true true true vm h =
    let empty : vm.insts ≡ none =
      ap (λ (o : Option Vm). elim o [ none ↦ none | some v ↦ v.insts ]) (sym h) in
    let free : vm.jitted ≡ none =
      ap (λ (o : Option Vm). elim o [ none ↦ none | some v ↦ v.jitted ]) (sym h) in
    (
      λ n. free,
      λ more. Moves-owned vm vm (names_memory ∷ funcs_memory ∷ vm_memory ∷ []) (ground arith) more,
    )

-- Where `ubpf_create` fails, it has freed what it had allocated.
create-freed :
    (a b c : Bool) → create a b c ≡ none → held_after same [] (create_events a b c) ≡ some []
unfolding create create_events destroy_fields
create-freed false b c h = refl
create-freed true false c h = refl
create-freed true true false h = refl
create-freed true true true h = absurd (cc)

-- From `ubpf_create`, where it succeeds, over any calls of `ubpf_load` and `ubpf_compile`,
-- successful or not, that do not end the process by a failed `assert`, to `ubpf_destroy`: all
-- that has been allocated and mapped is released, once and with its size, and nothing else is,
-- if the caller frees the message of each call that fails. The messages and the state of the
-- compiler are taken to be allocated.
pub calls-destroy :
    (a b c : Bool) (cs : List Call) (vm vm' : Vm) (events : List (Event Block))
    → create a b c ≡ some vm
    → calls cs vm ≡ (some vm', events)
    → held_after same [] (create_events a b c ++ (events ++ destroy vm')) ≡ some []
unfolding destroy
calls-destroy a b c cs vm vm' events made h =
    let (ordered, created) = create-owned a b c vm made in
    let (_, moves) = calls-Moves cs vm vm' events ordered h in
    created (events ++ destroy vm')
    ∙ moves (destroy vm')
    ∙ destroy-owned (jitted_block vm'.jitted vm'.jitted_size) (is_set vm'.insts)
