-- ===== src/Vm/Tests/Parts.antt =====
-- The parts of tools/ubpf/vm/ubpf_vm.c at single inputs.

use ve_bpf.Base.{ℕ, ◌-◌, ◌^◌, ◌<◌, ◌≤◌, ◌≡◌, refl, some, [], ◌∷◌, arith}
use ve_bpf.Base.Word.{signed64}
use ve_bpf.Ebpf.Opcode.{src_imm, arsh}
use ve_bpf.Vm.State.{lookup_registered_function, register}
use ve_bpf.Vm.State.Laws.{lookup_registered_function_lem, register-lookup, IsLookup}
use ve_bpf.Vm.Alu.Width.{alu32-lt}
use ve_bpf.Vm.Alu.Meaning.{floor_div, arsh64-floor}
use ve_bpf.Vm.Alu
use ve_bpf.Vm.Alu.{value, AluResult}
use ve_bpf.Vm.Tests.{fresh, sum_of_two}

lookup_registered_function_lem_example :
    IsLookup fresh (0x73 ∷ []) (lookup_registered_function fresh (0x73 ∷ []))
lookup_registered_function_lem_example = lookup_registered_function_lem fresh (0x73 ∷ [])

register-lookup_example :
    (j : ℕ) × (lookup_registered_function
        (register fresh 3 (some (0x74 ∷ [])) (some sum_of_two)).0
        (0x74 ∷ [])
      ≡ some j)
    × (j ≤ 3)
register-lookup_example = register-lookup fresh 3 (0x74 ∷ []) (some sum_of_two) (omega arith)

shift64 : Alu.alu64 arsh src_imm (2 ^ 64 - 16) 2 ≡ value (2 ^ 64 - 4)
unfolding Alu.alu64
shift64 = refl

shift32 : Alu.alu32 arsh src_imm (2 ^ 32 - 16) 2 ≡ value (2 ^ 32 - 4)
unfolding Alu.alu32
shift32 = refl

arsh64-floor_example : signed64 (2 ^ 64 - 4) ≡ floor_div (signed64 (2 ^ 64 - 16)) (2 ^ 2)
arsh64-floor_example = arsh64-floor src_imm (2 ^ 64 - 16) 2 (2 ^ 64 - 4) (omega arith) shift64

alu32-lt_example : 2 ^ 32 - 4 < 2 ^ 32
alu32-lt_example = alu32-lt arsh src_imm (2 ^ 32 - 16) 2 (2 ^ 32 - 4) shift32
