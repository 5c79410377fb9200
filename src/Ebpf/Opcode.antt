-- ===== src/Ebpf/Opcode.antt =====
-- The opcodes of tools/ubpf/vm/ebpf.h. A constructor stands for a family of `EBPF_OP_…` macros
-- whose members differ in the operation, the source or the size; `opcode_value` is their value.
use ve_bpf.Base.{ℕ, bit_or, Option, none, some, List, [], ◌∷◌, ◌++◌, map, ◌==◌, if◌then◌else◌}

-- `EBPF_SRC_IMM` and `EBPF_SRC_REG`.
pub data Source : Type 0 where
  src_imm src_reg : Source

-- `EBPF_SIZE_W`, `_H`, `_B`, `_DW`.
pub data Size : Type 0 where
  size_w size_h size_b size_dw : Size

-- The operations that `EBPF_CLS_ALU` and `EBPF_CLS_ALU64` share.
pub data AluOp : Type 0 where
  add sub mul div or and lsh rsh modulo xor mov arsh : AluOp

-- The conditions of the conditional jumps.
pub data Cond : Type 0 where
  jeq jgt jge jset jne jsgt jsge jlt jle jslt jsle : Cond

pub data Opcode : Type 0 where
  alu alu64 : AluOp → Source → Opcode
  neg neg64 le be lddw ja call exit : Opcode
  ldx st stx : Size → Opcode
  jump : Cond → Source → Opcode

abbrev pub cls_ld : ℕ
cls_ld = 0x00

abbrev pub cls_ldx : ℕ
cls_ldx = 0x01

abbrev pub cls_st : ℕ
cls_st = 0x02

abbrev pub cls_stx : ℕ
cls_stx = 0x03

abbrev pub cls_alu : ℕ
cls_alu = 0x04

abbrev pub cls_jmp : ℕ
cls_jmp = 0x05

abbrev pub cls_alu64 : ℕ
cls_alu64 = 0x07

abbrev pub mode_mem : ℕ
mode_mem = 0x60

pub source_bits : Source → ℕ
source_bits src_imm = 0x00
source_bits src_reg = 0x08

pub size_bits : Size → ℕ
size_bits size_w = 0x00
size_bits size_h = 0x08
size_bits size_b = 0x10
size_bits size_dw = 0x18

pub alu_bits : AluOp → ℕ
alu_bits add = 0x00
alu_bits sub = 0x10
alu_bits mul = 0x20
alu_bits div = 0x30
alu_bits or = 0x40
alu_bits and = 0x50
alu_bits lsh = 0x60
alu_bits rsh = 0x70
alu_bits modulo = 0x90
alu_bits xor = 0xa0
alu_bits mov = 0xb0
alu_bits arsh = 0xc0

pub cond_bits : Cond → ℕ
cond_bits jeq = 0x10
cond_bits jgt = 0x20
cond_bits jge = 0x30
cond_bits jset = 0x40
cond_bits jne = 0x50
cond_bits jsgt = 0x60
cond_bits jsge = 0x70
cond_bits jlt = 0xa0
cond_bits jle = 0xb0
cond_bits jslt = 0xc0
cond_bits jsle = 0xd0

-- The value of the macro, put together from its class, mode, source, size and operation.
unfoldable pub opcode_value : Opcode → ℕ
unfolding source_bits size_bits alu_bits cond_bits
opcode_value (alu op s) = bit_or (bit_or cls_alu (source_bits s)) (alu_bits op)
opcode_value neg = bit_or cls_alu 0x80
opcode_value le = bit_or (bit_or cls_alu (source_bits src_imm)) 0xd0
opcode_value be = bit_or (bit_or cls_alu (source_bits src_reg)) 0xd0
opcode_value (alu64 op s) = bit_or (bit_or cls_alu64 (source_bits s)) (alu_bits op)
opcode_value neg64 = bit_or cls_alu64 0x80
opcode_value (ldx z) = bit_or (bit_or cls_ldx mode_mem) (size_bits z)
opcode_value (st z) = bit_or (bit_or cls_st mode_mem) (size_bits z)
opcode_value (stx z) = bit_or (bit_or cls_stx mode_mem) (size_bits z)
opcode_value lddw = bit_or cls_ld (size_bits size_dw)
opcode_value ja = cls_jmp
opcode_value (jump c s) = bit_or (bit_or cls_jmp (source_bits s)) (cond_bits c)
opcode_value call = bit_or cls_jmp 0x80
opcode_value exit = bit_or cls_jmp 0x90

abbrev alu_ops : List AluOp
alu_ops = add ∷ sub ∷ mul ∷ div ∷ or ∷ and ∷ lsh ∷ rsh ∷ modulo ∷ xor ∷ mov ∷ arsh ∷ []

abbrev conds : List Cond
conds = jeq ∷ jgt ∷ jge ∷ jset ∷ jne ∷ jsgt ∷ jsge ∷ jlt ∷ jle ∷ jslt ∷ jsle ∷ []

abbrev sizes : List Size
sizes = size_w ∷ size_h ∷ size_b ∷ size_dw ∷ []

-- Every `case` label of the `switch` statements over `inst.opcode`.
pub opcodes : List Opcode
opcodes =
    map (λ op. alu op src_imm) alu_ops
    ++ (map (λ op. alu op src_reg) alu_ops
        ++ (map (λ op. alu64 op src_imm) alu_ops
            ++ (map (λ op. alu64 op src_reg) alu_ops
                ++ (neg ∷ neg64 ∷ le ∷ be ∷ lddw ∷ ja ∷ call ∷ exit ∷ []
                    ++ (map ldx sizes
                        ++ (map st sizes
                            ++ (map stx sizes
                                ++ (map (λ c. jump c src_imm) conds
                                    ++ map (λ c. jump c src_reg) conds))))))))

-- The first label with the given value.
pub find_label : List Opcode → ℕ → Option Opcode
find_label [] n = none
find_label (op ∷ ops) n = if opcode_value op == n then some op else find_label ops n

-- The `case` that `switch (inst.opcode)` enters, or `none` for its `default`.
unfoldable pub decode : ℕ → Option Opcode
unfolding find_label opcodes opcode_value
decode n = find_label opcodes n
