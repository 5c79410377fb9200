-- ===== src/Ebpf.antt =====
-- tools/ubpf/vm/ebpf.h: the instruction format and the opcodes.
pub mod Opcode
pub mod Encoding
use ve_bpf.Base.{ℕ, ◌<◌, ◌^◌}

-- `struct ebpf_inst`. `offset` and `imm` are the bit patterns of the signed fields.
pub record Inst : Type 0 where
  pub opcode : ℕ  -- uint8_t
  pub dst : ℕ  -- 4 bits
  pub src : ℕ  -- 4 bits
  pub offset : ℕ  -- int16_t
  pub imm : ℕ  -- int32_t

-- The fields fit their widths, as the type of the source makes them.
pub record IsInst (inst : Inst) : Type 0 where
  pub opcode_fits : inst.opcode < 2 ^ 8
  pub dst_fits : inst.dst < 16
  pub src_fits : inst.src < 16
  pub offset_fits : inst.offset < 2 ^ 16
  pub imm_fits : inst.imm < 2 ^ 32
