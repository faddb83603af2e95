-- ===== src/Asm/Emitting.antt =====
-- What the encoders of asm.c emit is the encoding of the instruction.
use amq_os.Asm
use mathlib.Core.List.{append_assoc, append-nil}
use amq_os.Asm.{
  max_asm_size, asm_emit_bytes, reg_reg, one_reg, short_reg, bytes_of, low_bits, high_bit, Asm,
}
use amq_os.Asm.Decode.{
  RegOp, UnaryOp, ImmOp, StackOp, PlainOp, Instruction, reg_to_reg, unary, with_imm8, mov_imm32,
  mov_imm64, stack, call_rel, plain,
}
use amq_os.Prelude.{
  ℕ, ◌+◌, ◌≤◌, ◌≡◌, refl, sym, ap, ◌∙◌, false, List, [], ◌∷◌, ◌++◌, arith, leb, if◌then◌else◌,
  length, length-append, codes,
}
use amq_os.Asm.Encoding.{encoding}

-- The call of the encoder for an instruction.
abbrev pub assemble : Asm → Instruction → Asm
assemble c (reg_to_reg RegOp.mov dst src) = Asm.asm_mov_reg_reg c dst src
assemble c (reg_to_reg RegOp.add dst src) = Asm.asm_add_reg_reg c dst src
assemble c (reg_to_reg RegOp.sub dst src) = Asm.asm_sub_reg_reg c dst src
assemble c (reg_to_reg RegOp.xor dst src) = Asm.asm_xor_reg_reg c dst src
assemble c (reg_to_reg RegOp.or dst src) = Asm.asm_or_reg_reg c dst src
assemble c (reg_to_reg RegOp.and dst src) = Asm.asm_and_reg_reg c dst src
assemble c (reg_to_reg RegOp.cmp dst src) = Asm.asm_cmp_reg_reg c dst src
assemble c (unary UnaryOp.inc reg) = Asm.asm_inc_reg c reg
assemble c (unary UnaryOp.dec reg) = Asm.asm_dec_reg c reg
assemble c (unary UnaryOp.neg reg) = Asm.asm_neg_reg c reg
assemble c (unary UnaryOp.complement reg) = Asm.asm_not_reg c reg
assemble c (unary UnaryOp.call reg) = Asm.asm_call_reg c reg
assemble c (with_imm8 ImmOp.add reg imm) = Asm.asm_add_reg_imm8 c reg imm
assemble c (with_imm8 ImmOp.sub reg imm) = Asm.asm_sub_reg_imm8 c reg imm
assemble c (with_imm8 ImmOp.cmp reg imm) = Asm.asm_cmp_reg_imm8 c reg imm
assemble c (with_imm8 ImmOp.shl reg imm) = Asm.asm_shl_reg_imm8 c reg imm
assemble c (with_imm8 ImmOp.shr reg imm) = Asm.asm_shr_reg_imm8 c reg imm
assemble c (mov_imm32 reg imm) = Asm.asm_mov_reg_imm32 c reg imm
assemble c (mov_imm64 reg imm) = Asm.asm_mov_rax_imm64 c imm
assemble c (stack StackOp.push reg) = Asm.asm_push_reg c reg
assemble c (stack StackOp.pop reg) = Asm.asm_pop_reg c reg
assemble c (call_rel imm) = Asm.asm_call_rel32 c imm
assemble c (plain PlainOp.syscall) = Asm.asm_syscall c
assemble c (plain PlainOp.ret) = Asm.asm_ret c
assemble c (plain PlainOp.nop) = Asm.asm_nop c

pub assemble-encoding : (c : Asm) (i : Instruction) → assemble c i ≡ asm_emit_bytes c (encoding i)
unfolding reg_reg one_reg short_reg
assemble-encoding c (reg_to_reg RegOp.mov dst src) = refl
assemble-encoding c (reg_to_reg RegOp.add dst src) = refl
assemble-encoding c (reg_to_reg RegOp.sub dst src) = refl
assemble-encoding c (reg_to_reg RegOp.xor dst src) = refl
assemble-encoding c (reg_to_reg RegOp.or dst src) = refl
assemble-encoding c (reg_to_reg RegOp.and dst src) = refl
assemble-encoding c (reg_to_reg RegOp.cmp dst src) = refl
assemble-encoding c (unary UnaryOp.inc reg) = refl
assemble-encoding c (unary UnaryOp.dec reg) = refl
assemble-encoding c (unary UnaryOp.neg reg) = refl
assemble-encoding c (unary UnaryOp.complement reg) = refl
assemble-encoding c (unary UnaryOp.call reg) = refl
assemble-encoding c (with_imm8 ImmOp.add reg imm) = refl
assemble-encoding c (with_imm8 ImmOp.sub reg imm) = refl
assemble-encoding c (with_imm8 ImmOp.cmp reg imm) = refl
assemble-encoding c (with_imm8 ImmOp.shl reg imm) = refl
assemble-encoding c (with_imm8 ImmOp.shr reg imm) = refl
assemble-encoding c (mov_imm32 reg imm) = refl
assemble-encoding c (mov_imm64 reg imm) = refl
assemble-encoding c (stack StackOp.push reg) = refl
assemble-encoding c (stack StackOp.pop reg) = refl
assemble-encoding c (call_rel imm) = refl
assemble-encoding c (plain PlainOp.syscall) = refl
assemble-encoding c (plain PlainOp.ret) = refl
assemble-encoding c (plain PlainOp.nop) = refl

-- Bytes that there is room for are appended.
pub asm_emit_bytes-room :
    (c : Asm) (bytes : List ℕ)
    → length c.code + length bytes ≤ max_asm_size
    → asm_emit_bytes c bytes ≡ record c { code = c.code ++ bytes }
unfolding asm_emit_bytes
asm_emit_bytes-room c [] h = ap (λ x. record c { code = x }) (sym (append-nil c.code))
asm_emit_bytes-room c (b ∷ bytes) h =
    ap (λ t. asm_emit_bytes (if t then full else more) bytes) room
    ∙ asm_emit_bytes-room more bytes (omega (arith, length-append c.code (b ∷ [])))
    ∙ ap (λ x. record c { code = x }) (append_assoc c.code (b ∷ []) bytes)
  where
    full : Asm
    full = Asm.asm_error c (codes "Code size exceeded")

    more : Asm
    more = record c { code = c.code ++ b ∷ [] }

    room : leb max_asm_size (length c.code) ≡ false
    room = ground arith
