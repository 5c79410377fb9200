-- ===== src/X86/Jumps.antt =====
-- The conditional jumps of `translate` (tools/ubpf/vm/ubpf_jit_x86_64.c) against the conditions of
-- `ubpf_exec` (tools/ubpf/vm/ubpf_vm.c).

use mathlib.Core.Path.{subst}
use native.Mathlib.Nat.{mod-eq_of_lt}
use ve_bpf.Base.{
  ℕ, ◌/◌, ◌%◌, ◌^◌, ◌<◌, ◌≡◌, refl, sym, ◌∙◌, ap, Bool, true, false, ltb, arith, List, ◌∷◌, ◌++◌,
  some,
}
use ve_bpf.Base.Word.{sext32}
use ve_bpf.Ebpf.{Inst}
use ve_bpf.Ebpf.Encoding.{to_bytes}
use ve_bpf.Ebpf.Opcode.{Source, src_imm, src_reg, Cond, jgt, jge, jset, jlt, jle, jump}
use ve_bpf.Vm.Exec.{condition, jump_operand}
use ve_bpf.Jit.Emit.{emit_alu64, emit_alu64_imm32, emit_cmp, emit_cmp_imm32, emit_jcc}
use ve_bpf.Jit.State.{Jit, Emit, ◌>>◌, emit_jump_offset}
use ve_bpf.Jit.Keeps.{emit_jump_offset-emitted}
use ve_bpf.Jit.Translate.{translate_opcode, emit_compare, jcc_code}
use ve_bpf.Jit.Writes.{Writes, Writes->>, Writes-emit1, Writes-alu, Writes-alu_imm32}
use ve_bpf.X86.Format.{w64, Instr, test, test_imm, cmp, jump_if, opcode, read, unary}
use ve_bpf.X86.Machine.{
  Flags, Machine, execute, taken, test_flags, binary_flags, Runs, then_run, stop,
}
use ve_bpf.X86.Reads.{rex_of, imm32-to_bytes, Encodes, Encodes-alu, Encodes-imm32}
use ve_bpf.Vm.State.{Vm}
use ve_bpf.X86.Computes.{IsMap, Holds}
use ve_bpf.X86.Alu.{sext32-lt}
use ve_bpf.X86.Instructions.{Encodes-binary, Encodes-binary_imm}
use ve_bpf.X86.Conditions.{compared, condition_number, taken-condition}

-- The code compares, and jumps if `b`.
pub record Decides (e : Emit) (m : Machine) (code : ℕ) (b : Bool) : Type 0 where
  pub bytes : List ℕ
  pub written : Writes e (bytes ++ 0x0f ∷ code ∷ to_bytes 4 0)
  pub flags : Flags
  pub runs : (rest : List ℕ) → Runs (bytes ++ rest) m rest (record m { flags = some flags })
  pub jumps :
      (rel : ℕ) (rest : List ℕ)
      → rel < 2 ^ 32
      → read (0x0f ∷ code ∷ to_bytes 4 rel ++ rest) ≡ some (jump_if (code % 16) rel, rest)
  pub decides : taken (code % 16) flags ≡ b

-- The unsigned comparisons with an immediate are with its 32 bits in the interpreter, and with its sign
-- extended in the code.
abbrev pub same_immediate : Cond → Source → Inst → Bool
same_immediate jgt src_imm inst = ltb inst.imm (2 ^ 31)
same_immediate jge src_imm inst = ltb inst.imm (2 ^ 31)
same_immediate jlt src_imm inst = ltb inst.imm (2 ^ 31)
same_immediate jle src_imm inst = ltb inst.imm (2 ^ 31)
same_immediate _ _ _ = true

Writes-jump_offset : (target_pc : ℕ) → Writes (emit_jump_offset target_pc) (to_bytes 4 0)
Writes-jump_offset target_pc = record {
  writes = λ s s' e. ap (λ (x : Jit). x.buf) (sym (emit_jump_offset-emitted target_pc s s' e).0);
}

is_byte : (k : Cond) → jcc_code k % 256 ≡ jcc_code k
unfolding jcc_code
is_byte k = ground arith

code_group : (k : Cond) → jcc_code k / 16 ≡ 8
unfolding jcc_code
code_group k = ground arith

Writes-jcc :
    (k : Cond) (target_pc : ℕ)
    → Writes (emit_jcc (jcc_code k) target_pc) (0x0f ∷ jcc_code k ∷ to_bytes 4 0)
unfolding emit_jcc
Writes-jcc k target_pc =
    let byte : jcc_code k % 256 ≡ jcc_code k = is_byte k in
    subst (λ (x : ℕ). Writes (emit_jcc (jcc_code k) target_pc) (0x0f ∷ x ∷ to_bytes 4 0)) byte
      (Writes->> (Writes-emit1 0x0f)
        (Writes->> (Writes-emit1 (jcc_code k)) (Writes-jump_offset target_pc)))

read-jump_if :
    (k : Cond) (rel : ℕ) (rest : List ℕ)
    → rel < 2 ^ 32
    → read (0x0f ∷ jcc_code k ∷ to_bytes 4 rel ++ rest) ≡ some (jump_if (jcc_code k % 16) rel, rest)
unfolding read opcode jcc_code
read-jump_if k rel rest h =
    let high : jcc_code k / 16 ≡ 8 = code_group k in
    let same : rel % 2 ^ 32 ≡ rel = mod-eq_of_lt h in
    rw high (imm32-to_bytes rel rest (jump_if (jcc_code k % 16)) ∙ rw same refl)

Decides-one :
    (k : Cond) (target_pc : ℕ) (m : Machine) (flags : Flags) (b : Bool) {e : Emit} {bytes : List ℕ}
    {i : Instr}
    → Writes e bytes
    → Encodes bytes i
    → execute i m ≡ some (record m { flags = some flags })
    → taken (condition_number k) flags ≡ b
    → Decides (e >> emit_jcc (jcc_code k) target_pc) m (jcc_code k) b
Decides-one k target_pc m flags b {e} {bytes} {i} written encodes run decides = record {
  bytes = bytes;
  written = Writes->> written (Writes-jcc k target_pc);
  flags = flags;
  runs = λ rest. then_run (encodes.reads rest) run stop;
  jumps = read-jump_if k;
  decides = decides;
}

abbrev unlike_jset : Cond → Bool
unlike_jset jset = false
unlike_jset _ = true

compared_lem :
    (k : Cond) (a b : ℕ) → unlike_jset k ≡ true → some (compared k a b) ≡ binary_flags w64 cmp a b
unfolding binary_flags
compared_lem jset a b h = absurd cc
compared_lem k a b h = refl

immediate_lem :
    (k : Cond) (inst : Inst) (reg : ℕ → ℕ)
    → inst.imm < 2 ^ 32
    → same_immediate k src_imm inst ≡ true
    → sext32 inst.imm ≡ jump_operand k src_imm inst reg
immediate_lem k inst reg p h = ground arith

module _ (inst : Inst) (src dst : ℕ) (m : Machine) (reg : ℕ → ℕ) (a : src < 16) (b : dst < 16)
    (imm : inst.imm < 2 ^ 32) (at_dst : m.reg dst ≡ reg inst.dst)
    (at_src : m.reg src ≡ reg inst.src) (words : (r : ℕ) → reg r < 2 ^ 64) (target_pc : ℕ) where
  by_cmp :
      (k : Cond)
      → unlike_jset k ≡ true
      → Decides
          (emit_cmp src dst >> emit_jcc (jcc_code k) target_pc)
          m
          (jcc_code k)
          (condition k (reg inst.dst) (reg inst.src))
  unfolding emit_cmp execute
  by_cmp k h =
      let whole_dst : reg inst.dst % 2 ^ 64 ≡ reg inst.dst = mod-eq_of_lt (words inst.dst) in
      let whole_src : reg inst.src % 2 ^ 64 ≡ reg inst.src = mod-eq_of_lt (words inst.src) in
      Decides-one k target_pc m (compared k (reg inst.dst) (reg inst.src)) _
        (Writes-alu 0x39 src dst a b true) (Encodes-binary true src dst a b cmp)
        (rw (at_dst, at_src, whole_dst, whole_src, compared_lem k (reg inst.dst) (reg inst.src) h)
          refl)
        (taken-condition k (reg inst.dst) (reg inst.src) (words inst.dst) (words inst.src))

  by_cmp_imm :
      (k : Cond)
      → unlike_jset k ≡ true
      → same_immediate k src_imm inst ≡ true
      → Decides
          (emit_cmp_imm32 dst inst.imm >> emit_jcc (jcc_code k) target_pc)
          m
          (jcc_code k)
          (condition k (reg inst.dst) (jump_operand k src_imm inst reg))
  unfolding emit_cmp_imm32 execute
  by_cmp_imm k h agrees =
      let whole_dst : reg inst.dst % 2 ^ 64 ≡ reg inst.dst = mod-eq_of_lt (words inst.dst) in
      let whole : inst.imm % 2 ^ 32 ≡ inst.imm = mod-eq_of_lt imm in
      let same = immediate_lem k inst reg imm agrees in
      let value = jump_operand k src_imm inst reg in
      Decides-one k target_pc m (compared k (reg inst.dst) value) _
        (Writes-alu_imm32 0x81 7 dst (omega arith) b true inst.imm)
        (Encodes-binary_imm true dst b cmp inst.imm)
        (rw (at_dst, whole_dst, whole, same, compared_lem k (reg inst.dst) value h) refl)
        (taken-condition k (reg inst.dst) value (words inst.dst)
          (subst (λ (x : ℕ). x < 2 ^ 64) same (sext32-lt inst.imm imm)))

  by_test :
      Decides
        (emit_alu64 0x85 src dst >> emit_jcc (jcc_code jset) target_pc)
        m
        (jcc_code jset)
        (condition jset (reg inst.dst) (reg inst.src))
  unfolding execute opcode test_flags
  by_test =
      let whole_dst : reg inst.dst % 2 ^ 64 ≡ reg inst.dst = mod-eq_of_lt (words inst.dst) in
      let whole_src : reg inst.src % 2 ^ 64 ≡ reg inst.src = mod-eq_of_lt (words inst.src) in
      Decides-one jset target_pc m (compared jset (reg inst.dst) (reg inst.src)) _
        (Writes-alu 0x85 src dst a b true)
        (Encodes-alu true src dst a b 0x85 refl (λ r rm. test w64 rm r) (λ n rest. refl))
        (rw (at_dst, at_src, whole_dst, whole_src) refl)
        (taken-condition jset (reg inst.dst) (reg inst.src) (words inst.dst) (words inst.src))

  by_test_imm :
      Decides
        (emit_alu64_imm32 0xf7 0 dst inst.imm >> emit_jcc (jcc_code jset) target_pc)
        m
        (jcc_code jset)
        (condition jset (reg inst.dst) (sext32 inst.imm))
  unfolding execute opcode test_flags
  by_test_imm =
      let whole_dst : reg inst.dst % 2 ^ 64 ≡ reg inst.dst = mod-eq_of_lt (words inst.dst) in
      let whole : inst.imm % 2 ^ 32 ≡ inst.imm = mod-eq_of_lt imm in
      Decides-one jset target_pc m (compared jset (reg inst.dst) (sext32 inst.imm)) _
        (Writes-alu_imm32 0xf7 0 dst (omega arith) b true inst.imm)
        (Encodes-imm32 true 0 dst (omega arith) b 0xf7 inst.imm (unary (rex_of true 0 dst))
          (test_imm w64 dst) refl (λ n rest. refl) (λ more. refl))
        (rw (at_dst, whole_dst, whole) refl)
        (taken-condition jset (reg inst.dst) (sext32 inst.imm) (words inst.dst)
          (sext32-lt inst.imm imm))

  decided_reg :
      (k : Cond)
      → Decides
          (emit_compare k src_reg inst src dst >> emit_jcc (jcc_code k) target_pc)
          m
          (jcc_code k)
          (condition k (reg inst.dst) (reg inst.src))
  unfolding emit_compare
  decided_reg jset = by_test
  decided_reg k = by_cmp k refl

  decided_imm :
      (k : Cond)
      → same_immediate k src_imm inst ≡ true
      → Decides
          (emit_compare k src_imm inst src dst >> emit_jcc (jcc_code k) target_pc)
          m
          (jcc_code k)
          (condition k (reg inst.dst) (jump_operand k src_imm inst reg))
  unfolding emit_compare
  decided_imm jset h = by_test_imm
  decided_imm k h = by_cmp_imm k refl h

-- Let the processor hold the registers, 64-bit words, under a map to distinct registers of it,
-- none of them rcx. The code that `translate` writes for a conditional jump is that of a
-- comparison and of a jump on a number that is filled in later; the comparison runs to the jump,
-- changes flags only, and the jump is then taken exactly if the condition of `ubpf_exec` holds.
-- For the unsigned comparisons with an immediate, the immediate must be below 2 ^ 31.
pub jump-Decides :
    (vm : Vm) (insts : List Inst) (i : ℕ) (inst : Inst) (map reg : ℕ → ℕ) (m : Machine)
    → IsMap map
    → Holds map reg m
    → ((r : ℕ) → reg r < 2 ^ 64)
    → inst.imm < 2 ^ 32
    → inst.src < 11
    → inst.dst < 11
    → (k : Cond) (s : Source) → same_immediate k s inst ≡ true
    → Decides
        (translate_opcode vm insts i inst (map inst.src) (map inst.dst) (some (jump k s)))
        m
        (jcc_code k)
        (condition k (reg inst.dst) (jump_operand k s inst reg))
unfolding translate_opcode
jump-Decides vm insts i inst map reg m is_map same words imm ps pd k src_imm h =
    decided_imm inst (map inst.src) (map inst.dst) m reg (is_map.within inst.src ps)
      (is_map.within inst.dst pd) imm (same.holds inst.dst pd) (same.holds inst.src ps) words _ k h
jump-Decides vm insts i inst map reg m is_map same words imm ps pd k src_reg h =
    decided_reg inst (map inst.src) (map inst.dst) m reg (is_map.within inst.src ps)
      (is_map.within inst.dst pd) imm (same.holds inst.dst pd) (same.holds inst.src ps) words _ k
