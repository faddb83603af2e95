-- ===== src/Asm/Decoding.antt =====
-- The encodings of asm.c are decoded as the instructions that they are for.
use amq_os.Asm.{bytes_of, low_bits, high_bit}
use amq_os.Asm.Decode.{
  RegOp, UnaryOp, ImmOp, StackOp, PlainOp, Instruction, reg_to_reg, unary, with_imm8, mov_imm32,
  mov_imm64, stack, call_rel, plain, read_le, register, then_imm, decode, decode_wide,
  decode_narrow, decode_fields, decode_group, decode_stack,
}
use amq_os.Prelude.{
  ℕ, zero, suc, ◌+◌, ◌-◌, ◌*◌, ◌/◌, ◌%◌, ◌<◌, ◌≡◌, refl, sym, ap, ◌∙◌, inl, inr, true, false, ◌&&◌,
  Option, some, List, [], ◌∷◌, ◌++◌, arith, ltb, leb, if◌then◌else◌, Bool-cases,
}
use amq_os.Asm.Encoding.{reg_code, short_bytes, encoding, IsInstruction}

abbrev low : ℕ → ℕ → ℕ
low zero x = 0
low (suc n) x = x % 256 + low n (x / 256) * 256

read_le-bytes_of :
    (n x : ℕ) (rest : List ℕ) → read_le n (bytes_of n x ++ rest) ≡ some (low n x, rest)
unfolding read_le
read_le-bytes_of zero x rest = refl
read_le-bytes_of (suc n) x rest = rw (read_le-bytes_of n (x / 256) rest) refl

imm-bytes_of :
    (f : ℕ → Instruction) (n x : ℕ) (rest : List ℕ)
    → low n x ≡ x
    → then_imm f (read_le n (bytes_of n x ++ rest)) ≡ some (f x, rest)
imm-bytes_of f n x rest e =
    ap (then_imm f) (read_le-bytes_of n x rest) ∙ ap (λ y. some (f y, rest)) e

-- The prefix and the byte behind the opcode give back their fields.
decode-fields :
    (r b op mode reg rm : ℕ) (rest : List ℕ)
    → r < 2
    → b < 2
    → reg < 8
    → rm < 8
    → mode < 4
    → (leb 0xB8 op && ltb op 0xC0) ≡ false
    → decode ((0x48 + r * 4 + b) ∷ op ∷ (mode * 64 + reg * 8 + rm) ∷ rest)
      ≡ decode_fields r b op mode reg rm rest
unfolding decode decode_wide
decode-fields r b op mode reg rm rest hr hb hreg hrm hm small =
    ap (λ t. if t then decode_wide (p / 4 % 2) (p % 2) bytes else decode_narrow p bytes) wide
    ∙ ap (λ x. decode_wide x (p % 2) bytes) (omega arith)
    ∙ ap (λ x. decode_wide r x bytes) (omega arith)
    ∙ ap (λ t. if t then long else decode_fields r b op (m / 64) (m / 8 % 8) (m % 8) rest) small
    ∙ ap (λ x. decode_fields r b op x (m / 8 % 8) (m % 8) rest) (omega arith)
    ∙ ap (λ x. decode_fields r b op mode x (m % 8) rest) (omega arith)
    ∙ ap (λ x. decode_fields r b op mode reg x rest) (omega arith)
  where
    p : ℕ
    p = 0x48 + r * 4 + b

    m : ℕ
    m = mode * 64 + reg * 8 + rm

    bytes : List ℕ
    bytes = op ∷ m ∷ rest

    long : Option (Instruction × List ℕ)
    long = then_imm (mov_imm64 (register b (op - 0xB8))) (read_le 8 (m ∷ rest))

    wide : (leb 0x48 p && ltb p 0x50) ≡ true
    wide = ground arith

register-bits : (reg : ℕ) → reg < 16 → register (high_bit reg) (low_bits reg) ≡ reg
register-bits reg h = ground arith

low_bits-small : (reg : ℕ) → reg < 16 → low_bits reg < 8
low_bits-small reg h = ground arith

high_bit-small : (reg : ℕ) → high_bit reg < 2
high_bit-small reg = ground arith

decode-reg_reg :
    (o : RegOp) (dst src : ℕ) (rest : List ℕ)
    → dst < 16
    → src < 16
    → (leb 0xB8 (reg_code o) && ltb (reg_code o) 0xC0) ≡ false
    → decode_fields (high_bit src) (high_bit dst) (reg_code o) 3 (low_bits src) (low_bits dst) rest
      ≡ some (
        reg_to_reg o
            (register (high_bit dst) (low_bits dst))
            (register (high_bit src) (low_bits src)),
        rest,
      )
    → decode (encoding (reg_to_reg o dst src) ++ rest) ≡ some (reg_to_reg o dst src, rest)
decode-reg_reg o dst src rest d s small fields =
    decode-fields (high_bit src) (high_bit dst) (reg_code o) 3 (low_bits src) (low_bits dst) rest
      (high_bit-small src) (high_bit-small dst) (low_bits-small src s) (low_bits-small dst d)
      (omega arith) small
    ∙ fields
    ∙ ap (λ x. some (reg_to_reg o x (register (high_bit src) (low_bits src)), rest))
        (register-bits dst d)
    ∙ ap (λ x. some (reg_to_reg o dst x, rest)) (register-bits src s)

-- One register: the operation is known by its byte and by the field `ext`.
decode-one_reg :
    (op ext reg : ℕ) (i : ℕ → Option (Instruction × List ℕ)) (bytes : List ℕ)
    → reg < 16
    → ext < 8
    → (leb 0xB8 op && ltb op 0xC0) ≡ false
    → ((b rm : ℕ) → decode_fields 0 b op 3 ext rm bytes ≡ i (register b rm))
    → decode ((0x48 + 0 * 4 + high_bit reg) ∷ op ∷ (3 * 64 + ext * 8 + low_bits reg) ∷ bytes)
      ≡ i reg
decode-one_reg op ext reg i bytes h he small fields =
    decode-fields 0 (high_bit reg) op 3 ext (low_bits reg) bytes (omega arith) (high_bit-small reg)
      he (low_bits-small reg h) (omega arith) small
    ∙ fields (high_bit reg) (low_bits reg)
    ∙ ap i (register-bits reg h)

decode-short :
    (op : ℕ) (i : ℕ → Instruction) (reg : ℕ) (rest : List ℕ)
    → reg < 16
    → ((b l : ℕ) → l < 8 → decode_stack b (op + l) rest ≡ some (i (register b l), rest))
    → ((l : ℕ) → l < 8 → decode ((op + l) ∷ rest) ≡ decode_stack 0 (op + l) rest)
    → decode (short_bytes op reg ++ rest) ≡ some (i reg, rest)
unfolding decode decode_narrow
decode-short op i reg rest h fields narrow = elim (Bool-cases (leb 8 reg)) [
  | inl high ↦
      ap
        (λ t.
          decode
            ((if t then 0x41 ∷ (op + low_bits reg) ∷ [] else (op + low_bits reg) ∷ []) ++ rest))
        high
      ∙ fields 1 (low_bits reg) (low_bits-small reg h)
      ∙ ap (λ x. some (i x, rest)) (ground arith)
  | inr low ↦
      ap
        (λ t.
          decode
            ((if t then 0x41 ∷ (op + low_bits reg) ∷ [] else (op + low_bits reg) ∷ []) ++ rest))
        low
      ∙ narrow (low_bits reg) (low_bits-small reg h)
      ∙ fields 0 (low_bits reg) (low_bits-small reg h)
      ∙ ap (λ x. some (i x, rest)) (ground arith)
]

decode-push :
    (reg : ℕ) (rest : List ℕ)
    → reg < 16
    → decode (encoding (stack StackOp.push reg) ++ rest) ≡ some (stack StackOp.push reg, rest)
unfolding decode decode_narrow
decode-push reg rest h =
    decode-short 0x50 (stack StackOp.push) reg rest h (λ b l s. ground arith) (λ l s. ground arith)

decode-pop :
    (reg : ℕ) (rest : List ℕ)
    → reg < 16
    → decode (encoding (stack StackOp.pop reg) ++ rest) ≡ some (stack StackOp.pop reg, rest)
unfolding decode decode_narrow
decode-pop reg rest h =
    decode-short 0x58 (stack StackOp.pop) reg rest h (λ b l s. ground arith) (λ l s. ground arith)

decode-imm8 :
    (op ext : ℕ) (o : ImmOp) (reg imm : ℕ) (rest : List ℕ)
    → (reg < 16) × (imm < 256)
    → ext < 8
    → (leb 0xB8 op && ltb op 0xC0) ≡ false
    → ((b rm : ℕ)
        → decode_fields 0 b op 3 ext rm (bytes_of 1 imm ++ rest)
          ≡ then_imm (with_imm8 o (register b rm)) (read_le 1 (bytes_of 1 imm ++ rest)))
    → decode (
        (0x48 + 0 * 4 + high_bit reg)
        ∷ op
        ∷ (3 * 64 + ext * 8 + low_bits reg)
        ∷ (bytes_of 1 imm ++ rest))
      ≡ some (with_imm8 o reg imm, rest)
decode-imm8 op ext o reg imm rest h he small fields =
    decode-one_reg op ext reg (λ r. some (with_imm8 o r imm, rest)) (bytes_of 1 imm ++ rest) h.0 he
      small
      (λ b rm.
        fields b rm ∙ imm-bytes_of (with_imm8 o (register b rm)) 1 imm rest (omega (arith, h.1)))

-- The decoder reads the instruction off its bytes, and leaves what follows.
pub decode-encoding :
    (i : Instruction) (rest : List ℕ)
    → IsInstruction i
    → decode (encoding i ++ rest) ≡ some (i, rest)
unfolding decode decode_wide decode_narrow decode_fields decode_group
decode-encoding (reg_to_reg RegOp.mov dst src) rest h =
    decode-reg_reg RegOp.mov dst src rest h.0 h.1 refl refl
decode-encoding (reg_to_reg RegOp.add dst src) rest h =
    decode-reg_reg RegOp.add dst src rest h.0 h.1 refl refl
decode-encoding (reg_to_reg RegOp.sub dst src) rest h =
    decode-reg_reg RegOp.sub dst src rest h.0 h.1 refl refl
decode-encoding (reg_to_reg RegOp.xor dst src) rest h =
    decode-reg_reg RegOp.xor dst src rest h.0 h.1 refl refl
decode-encoding (reg_to_reg RegOp.or dst src) rest h =
    decode-reg_reg RegOp.or dst src rest h.0 h.1 refl refl
decode-encoding (reg_to_reg RegOp.and dst src) rest h =
    decode-reg_reg RegOp.and dst src rest h.0 h.1 refl refl
decode-encoding (reg_to_reg RegOp.cmp dst src) rest h =
    decode-reg_reg RegOp.cmp dst src rest h.0 h.1 refl refl
decode-encoding (unary UnaryOp.inc reg) rest h =
    decode-one_reg 0xFF 0 reg (λ r. some (unary UnaryOp.inc r, rest)) rest h (omega arith) refl
      (λ b rm. refl)
decode-encoding (unary UnaryOp.dec reg) rest h =
    decode-one_reg 0xFF 1 reg (λ r. some (unary UnaryOp.dec r, rest)) rest h (omega arith) refl
      (λ b rm. refl)
decode-encoding (unary UnaryOp.neg reg) rest h =
    decode-one_reg 0xF7 3 reg (λ r. some (unary UnaryOp.neg r, rest)) rest h (omega arith) refl
      (λ b rm. refl)
decode-encoding (unary UnaryOp.complement reg) rest h =
    decode-one_reg 0xF7 2 reg (λ r. some (unary UnaryOp.complement r, rest)) rest h (omega arith)
      refl (λ b rm. refl)
decode-encoding (unary UnaryOp.call reg) rest h =
    decode-one_reg 0xFF 2 reg (λ r. some (unary UnaryOp.call r, rest)) rest h (omega arith) refl
      (λ b rm. refl)
decode-encoding (with_imm8 ImmOp.add reg imm) rest h =
    decode-imm8 0x83 0 ImmOp.add reg imm rest h (omega arith) refl (λ b rm. refl)
decode-encoding (with_imm8 ImmOp.sub reg imm) rest h =
    decode-imm8 0x83 5 ImmOp.sub reg imm rest h (omega arith) refl (λ b rm. refl)
decode-encoding (with_imm8 ImmOp.cmp reg imm) rest h =
    decode-imm8 0x83 7 ImmOp.cmp reg imm rest h (omega arith) refl (λ b rm. refl)
decode-encoding (with_imm8 ImmOp.shl reg imm) rest h =
    decode-imm8 0xC1 4 ImmOp.shl reg imm rest h (omega arith) refl (λ b rm. refl)
decode-encoding (with_imm8 ImmOp.shr reg imm) rest h =
    decode-imm8 0xC1 5 ImmOp.shr reg imm rest h (omega arith) refl (λ b rm. refl)
decode-encoding (mov_imm32 reg imm) rest h =
    decode-one_reg 0xC7 0 reg (λ r. some (mov_imm32 r imm, rest)) (bytes_of 4 imm ++ rest) h.0
      (omega arith) refl
      (λ b rm. imm-bytes_of (mov_imm32 (register b rm)) 4 imm rest (omega (arith, h.1)))
decode-encoding (mov_imm64 reg imm) rest h =
    imm-bytes_of (mov_imm64 0) 8 imm rest (omega (arith, h.1))
    ∙ ap (λ r. some (mov_imm64 r imm, rest)) (sym h.0)
decode-encoding (stack StackOp.push reg) rest h = decode-push reg rest h
decode-encoding (stack StackOp.pop reg) rest h = decode-pop reg rest h
decode-encoding (call_rel imm) rest h = imm-bytes_of call_rel 4 imm rest (omega arith)
decode-encoding (plain PlainOp.syscall) rest h = refl
decode-encoding (plain PlainOp.ret) rest h = refl
decode-encoding (plain PlainOp.nop) rest h = refl
