-- ===== src/Jit/Resolve.antt =====
-- `resolve_jumps` (tools/ubpf/vm/ubpf_jit_x86_64.c).
use ve_bpf.Base.{ℕ, ◌+◌, ◌-◌, ◌^◌, List, [], ◌∷◌, ◌==◌, if◌then◌else◌, set}
use ve_bpf.Base.Word.{u32}
use ve_bpf.Ebpf.Encoding.{to_bytes}
use ve_bpf.Jit.State.{Jump, Jit}
use ve_bpf.Jit.Translate.{target_pc_exit, target_pc_div_by_zero}

-- `memcpy(buf + at, bytes, …)`.
unfoldable pub write : List ℕ → ℕ → List ℕ → List ℕ
write buf at [] = buf
write buf at (b ∷ bs) = write (set buf at b) (at + 1) bs

unfoldable pub target_loc : Jit → Jump → ℕ
target_loc st jump =
    if jump.target_pc == target_pc_exit
    then st.exit_loc
    else (if jump.target_pc == target_pc_div_by_zero
        then st.div_by_zero_loc
        else st.pc_locs jump.target_pc)

-- `target_loc - (jump.offset_loc + sizeof(uint32_t))` on `uint32_t`.
unfoldable pub relative : Jit → Jump → ℕ
unfolding target_loc
relative st jump = u32 (target_loc st jump + 2 ^ 32 - u32 (jump.offset_loc + 4))

-- The loop over the jumps, on the buffer.
unfoldable pub resolve_from : Jit → List Jump → List ℕ → List ℕ
resolve_from st [] buf = buf
resolve_from st (jump ∷ jumps) buf =
    resolve_from st jumps (write buf jump.offset_loc (to_bytes 4 (relative st jump)))

unfoldable pub resolve_jumps : Jit → List ℕ
unfolding resolve_from relative write to_bytes
resolve_jumps st = resolve_from st st.jumps st.buf
