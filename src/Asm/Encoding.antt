-- ===== src/Asm/Encoding.antt =====
-- The encoding of each instruction, for asm.c.
use amq_os.Asm.{bytes_of, low_bits, high_bit}
use amq_os.Asm.Decode.{
  RegOp, UnaryOp, ImmOp, StackOp, PlainOp, Instruction, reg_to_reg, unary, with_imm8, mov_imm32,
  mov_imm64, stack, call_rel, plain,
}
use amq_os.Prelude.{ℕ, ◌+◌, ◌*◌, ◌^◌, ◌<◌, ◌≡◌, List, [], ◌∷◌, leb, if◌then◌else◌}

abbrev pub reg_code : RegOp → ℕ
reg_code RegOp.mov = 0x89
reg_code RegOp.add = 0x01
reg_code RegOp.sub = 0x29
reg_code RegOp.xor = 0x31
reg_code RegOp.or = 0x09
reg_code RegOp.and = 0x21
reg_code RegOp.cmp = 0x39

abbrev pub one_reg_bytes : ℕ → ℕ → ℕ → List ℕ → List ℕ
one_reg_bytes op ext reg imm = (0x48 + high_bit reg) ∷ op ∷ (ext + low_bits reg) ∷ imm

abbrev pub short_bytes : ℕ → ℕ → List ℕ
short_bytes op reg = if leb 8 reg then 0x41 ∷ (op + low_bits reg) ∷ [] else (op + low_bits reg) ∷ []

abbrev pub encoding : Instruction → List ℕ
encoding (reg_to_reg o dst src) =
    (0x48 + high_bit src * 4 + high_bit dst)
    ∷ reg_code o
    ∷ (0xC0 + low_bits src * 8 + low_bits dst)
    ∷ []
encoding (unary UnaryOp.inc reg) = one_reg_bytes 0xFF 0xC0 reg []
encoding (unary UnaryOp.dec reg) = one_reg_bytes 0xFF 0xC8 reg []
encoding (unary UnaryOp.neg reg) = one_reg_bytes 0xF7 0xD8 reg []
encoding (unary UnaryOp.complement reg) = one_reg_bytes 0xF7 0xD0 reg []
encoding (unary UnaryOp.call reg) = one_reg_bytes 0xFF 0xD0 reg []
encoding (with_imm8 ImmOp.add reg imm) = one_reg_bytes 0x83 0xC0 reg (bytes_of 1 imm)
encoding (with_imm8 ImmOp.sub reg imm) = one_reg_bytes 0x83 0xE8 reg (bytes_of 1 imm)
encoding (with_imm8 ImmOp.cmp reg imm) = one_reg_bytes 0x83 0xF8 reg (bytes_of 1 imm)
encoding (with_imm8 ImmOp.shl reg imm) = one_reg_bytes 0xC1 0xE0 reg (bytes_of 1 imm)
encoding (with_imm8 ImmOp.shr reg imm) = one_reg_bytes 0xC1 0xE8 reg (bytes_of 1 imm)
encoding (mov_imm32 reg imm) = one_reg_bytes 0xC7 0xC0 reg (bytes_of 4 imm)
encoding (mov_imm64 reg imm) = 0x48 ∷ 0xB8 ∷ bytes_of 8 imm
encoding (stack StackOp.push reg) = short_bytes 0x50 reg
encoding (stack StackOp.pop reg) = short_bytes 0x58 reg
encoding (call_rel imm) = 0xE8 ∷ bytes_of 4 imm
encoding (plain PlainOp.syscall) = 0x0F ∷ 0x05 ∷ []
encoding (plain PlainOp.ret) = 0xC3 ∷ []
encoding (plain PlainOp.nop) = 0x90 ∷ []

-- The registers are registers, and the immediates have the bits that there is room for. Only rax takes
-- 64 bits.
abbrev pub IsInstruction : Instruction → Type 0
IsInstruction (reg_to_reg o dst src) = (dst < 16) × (src < 16)
IsInstruction (unary u reg) = reg < 16
IsInstruction (with_imm8 o reg imm) = (reg < 16) × (imm < 256)
IsInstruction (mov_imm32 reg imm) = (reg < 16) × (imm < 2 ^ 32)
IsInstruction (mov_imm64 reg imm) = (reg ≡ 0) × (imm < 2 ^ 64)
IsInstruction (stack o reg) = reg < 16
IsInstruction (call_rel imm) = imm < 2 ^ 32
IsInstruction (plain o) = Unit {0}
