-- ===== src/Asm/Programs.antt =====
-- A line of asm.c that shows an instruction is assembled as that instruction, and a program of such
-- lines as their instructions, one after the other.
use amq_os.Asm
use amq_os.Asm.{Asm, bytes_of, asm_emit_bytes, one_reg}
use amq_os.Asm.Lines.{
  asm_line, dispatch, line_mov, line_imm8, line_regs, line_reg, line_shift, fits_8, fits_32,
}
use amq_os.Asm.Decode.{
  RegOp, UnaryOp, ImmOp, StackOp, PlainOp, Instruction, reg_to_reg, unary, with_imm8, mov_imm32,
  mov_imm64, stack, call_rel, plain,
}
use amq_os.Asm.Encoding.{IsInstruction}
use amq_os.Asm.Emitting.{assemble}
use amq_os.Asm.Texts.{
  reg_name, literal, literal-is_arg, parse_immediate-literal, parse_register-literal,
}
use amq_os.Asm.Shown.{word_8, word_32, two, one, text, IsAccepted}
use amq_os.Asm.Reading.{IsMnemonic, asm_line-one}
use amq_os.Asm.Parsing.{
  regs-text, imm-text, reg-text, line_imm8-reg, line_imm8-imm, line_regs-reg, line_mov-reg,
  line_shift-imm, line_mov-imm, line_reg-reg, line_call-reg, line_call-imm,
}
use amq_os.Prelude.{
  ℕ, ◌/◌, ◌%◌, ◌^◌, ◌<◌, ◌≡◌, refl, ap, ◌∙◌, Bool, true, false, not, ◌&&◌, List, [], ◌∷◌, arith,
  ◌==◌, if◌then◌else◌, codes,
}

-- Words with the same low bits have the same low bytes.
bytes_of-same_8 : (x y : ℕ) → x % 256 ≡ y % 256 → bytes_of 1 x ≡ bytes_of 1 y
bytes_of-same_8 x y e = ap (λ b. b ∷ []) e

bytes_of-same_32 : (x y : ℕ) → x % 2 ^ 32 ≡ y % 2 ^ 32 → bytes_of 4 x ≡ bytes_of 4 y
bytes_of-same_32 x y e =
    let a : x % 256 ≡ y % 256 = omega arith in
    let b : x / 256 % 256 ≡ y / 256 % 256 = omega arith in
    let c : x / 256 / 256 % 256 ≡ y / 256 / 256 % 256 = omega arith in
    let d : x / 256 / 256 / 256 % 256 ≡ y / 256 / 256 / 256 % 256 = omega arith in cc

word_8_lem :
    (b : ℕ)
    → b < 256
    → (word_8 b < 2 ^ 64) × (word_8 b % 256 ≡ b % 256) × (fits_8 (word_8 b) ≡ true)
word_8_lem b h = ground arith

word_32_lem :
    (x : ℕ)
    → x < 2 ^ 32
    → (word_32 x < 2 ^ 64) × (word_32 x % 2 ^ 32 ≡ x % 2 ^ 32) × (fits_32 (word_32 x) ≡ true)
word_32_lem x h = ground arith

-- The encoders of immediates look at the low byte only.
one_reg-same :
    (op ext reg x y : ℕ) (c : Asm)
    → x % 256 ≡ y % 256
    → one_reg op ext (bytes_of 1 x) c reg ≡ one_reg op ext (bytes_of 1 y) c reg
one_reg-same op ext reg x y c e = ap (λ i. one_reg op ext i c reg) (bytes_of-same_8 x y e)

reg-line :
    (name : List ℕ) (f : Asm → ℕ → Asm) (c : Asm) (reg : ℕ)
    → c.error ≡ false
    → IsMnemonic name
    → ((a b : List ℕ) → dispatch c name a b ≡ line_reg f c a)
    → reg < 16
    → asm_line c (one name (reg_name reg)) ≡ (true, f c reg)
reg-line name f c reg e h goes r =
    reg-text name f c reg e h (λ a b k. goes a b ∙ line_reg-reg f c a reg k) r

imm8-line :
    (name m : List ℕ) (f g : Asm → ℕ → ℕ → Asm) (c : Asm) (reg imm : ℕ)
    → c.error ≡ false
    → IsMnemonic name
    → ((a b : List ℕ) → dispatch c name a b ≡ line_imm8 m f g c a b)
    → (reg < 16) × (imm < 256)
    → asm_line c (two name (reg_name reg) (literal (word_8 imm))) ≡ (true, g c reg (word_8 imm))
imm8-line name m f g c reg imm e h goes small =
    let (word, same, fits) = word_8_lem imm small.1 in
    imm-text name (line_imm8 m f g) g c reg (word_8 imm) e h goes
      (λ a b k n i. line_imm8-imm m f g c a b reg (word_8 imm) fits k n i) small.0 word

shift-line :
    (name : List ℕ) (f : Asm → ℕ → ℕ → Asm) (c : Asm) (reg imm : ℕ)
    → c.error ≡ false
    → IsMnemonic name
    → ((a b : List ℕ) → dispatch c name a b ≡ line_shift f c a b)
    → reg < 16
    → imm < 64
    → asm_line c (two name (reg_name reg) (literal (word_8 imm))) ≡ (true, f c reg (word_8 imm))
shift-line name f c reg imm e h goes small few =
    imm-text name (line_shift f) f c reg (word_8 imm) e h goes
      (λ a b k n i. line_shift-imm f c a b reg (word_8 imm) (ground arith) k n i) small
      (ground arith)

-- A line that shows an instruction calls its encoder.
pub asm_line-text :
    (c : Asm) (i : Instruction)
    → c.error ≡ false
    → IsInstruction i
    → IsAccepted i
    → asm_line c (text i) ≡ (true, assemble c i)
unfolding text asm_line dispatch
asm_line-text c (reg_to_reg RegOp.mov dst src) e h k =
    regs-text (codes "mov") line_mov Asm.asm_mov_reg_reg c dst src e
      (refl, refl, refl, omega arith, refl) (λ a b. refl) (line_mov-reg c) h.0 h.1
asm_line-text c (reg_to_reg RegOp.add dst src) e h k =
    regs-text (codes "add")
      (line_imm8 (codes "Invalid destination register") Asm.asm_add_reg_reg Asm.asm_add_reg_imm8)
      Asm.asm_add_reg_reg c dst src e (refl, refl, refl, omega arith, refl) (λ a b. refl)
      (line_imm8-reg (codes "Invalid destination register") Asm.asm_add_reg_reg Asm.asm_add_reg_imm8
        c)
      h.0 h.1
asm_line-text c (reg_to_reg RegOp.sub dst src) e h k =
    regs-text (codes "sub")
      (line_imm8 (codes "Invalid destination register") Asm.asm_sub_reg_reg Asm.asm_sub_reg_imm8)
      Asm.asm_sub_reg_reg c dst src e (refl, refl, refl, omega arith, refl) (λ a b. refl)
      (line_imm8-reg (codes "Invalid destination register") Asm.asm_sub_reg_reg Asm.asm_sub_reg_imm8
        c)
      h.0 h.1
asm_line-text c (reg_to_reg RegOp.cmp dst src) e h k =
    regs-text (codes "cmp")
      (line_imm8 (codes "Invalid register") Asm.asm_cmp_reg_reg Asm.asm_cmp_reg_imm8)
      Asm.asm_cmp_reg_reg c dst src e (refl, refl, refl, omega arith, refl) (λ a b. refl)
      (line_imm8-reg (codes "Invalid register") Asm.asm_cmp_reg_reg Asm.asm_cmp_reg_imm8 c) h.0 h.1
asm_line-text c (reg_to_reg RegOp.xor dst src) e h k =
    regs-text (codes "xor") (line_regs Asm.asm_xor_reg_reg) Asm.asm_xor_reg_reg c dst src e
      (refl, refl, refl, omega arith, refl) (λ a b. refl) (line_regs-reg Asm.asm_xor_reg_reg c) h.0
      h.1
asm_line-text c (reg_to_reg RegOp.or dst src) e h k =
    regs-text (codes "or") (line_regs Asm.asm_or_reg_reg) Asm.asm_or_reg_reg c dst src e
      (refl, refl, refl, omega arith, refl) (λ a b. refl) (line_regs-reg Asm.asm_or_reg_reg c) h.0
      h.1
asm_line-text c (reg_to_reg RegOp.and dst src) e h k =
    regs-text (codes "and") (line_regs Asm.asm_and_reg_reg) Asm.asm_and_reg_reg c dst src e
      (refl, refl, refl, omega arith, refl) (λ a b. refl) (line_regs-reg Asm.asm_and_reg_reg c) h.0
      h.1
asm_line-text c (unary UnaryOp.inc reg) e h k =
    reg-line (codes "inc") Asm.asm_inc_reg c reg e (refl, refl, refl, omega arith, refl)
      (λ a b. refl) h
asm_line-text c (unary UnaryOp.dec reg) e h k =
    reg-line (codes "dec") Asm.asm_dec_reg c reg e (refl, refl, refl, omega arith, refl)
      (λ a b. refl) h
asm_line-text c (unary UnaryOp.neg reg) e h k =
    reg-line (codes "neg") Asm.asm_neg_reg c reg e (refl, refl, refl, omega arith, refl)
      (λ a b. refl) h
asm_line-text c (unary UnaryOp.complement reg) e h k =
    reg-line (codes "not") Asm.asm_not_reg c reg e (refl, refl, refl, omega arith, refl)
      (λ a b. refl) h
asm_line-text c (unary UnaryOp.call reg) e h k =
    reg-text (codes "call") Asm.asm_call_reg c reg e (refl, refl, refl, omega arith, refl)
      (λ a b known. line_call-reg c a reg known) h
asm_line-text c (with_imm8 ImmOp.add reg imm) e h k =
    imm8-line (codes "add") (codes "Invalid destination register") Asm.asm_add_reg_reg
      Asm.asm_add_reg_imm8 c reg imm e (refl, refl, refl, omega arith, refl) (λ a b. refl) h
    ∙ ap (λ x. (true, x)) (one_reg-same 0x83 0xC0 reg (word_8 imm) imm c (word_8_lem imm h.1).1)
asm_line-text c (with_imm8 ImmOp.sub reg imm) e h k =
    imm8-line (codes "sub") (codes "Invalid destination register") Asm.asm_sub_reg_reg
      Asm.asm_sub_reg_imm8 c reg imm e (refl, refl, refl, omega arith, refl) (λ a b. refl) h
    ∙ ap (λ x. (true, x)) (one_reg-same 0x83 0xE8 reg (word_8 imm) imm c (word_8_lem imm h.1).1)
asm_line-text c (with_imm8 ImmOp.cmp reg imm) e h k =
    imm8-line (codes "cmp") (codes "Invalid register") Asm.asm_cmp_reg_reg Asm.asm_cmp_reg_imm8 c
      reg imm e (refl, refl, refl, omega arith, refl) (λ a b. refl) h
    ∙ ap (λ x. (true, x)) (one_reg-same 0x83 0xF8 reg (word_8 imm) imm c (word_8_lem imm h.1).1)
asm_line-text c (with_imm8 ImmOp.shl reg imm) e h k =
    shift-line (codes "shl") Asm.asm_shl_reg_imm8 c reg imm e (refl, refl, refl, omega arith, refl)
      (λ a b. refl) h.0 k
    ∙ ap (λ x. (true, x)) (one_reg-same 0xC1 0xE0 reg (word_8 imm) imm c (word_8_lem imm h.1).1)
asm_line-text c (with_imm8 ImmOp.shr reg imm) e h k =
    shift-line (codes "shr") Asm.asm_shr_reg_imm8 c reg imm e (refl, refl, refl, omega arith, refl)
      (λ a b. refl) h.0 k
    ∙ ap (λ x. (true, x)) (one_reg-same 0xC1 0xE8 reg (word_8 imm) imm c (word_8_lem imm h.1).1)
asm_line-text c (mov_imm32 reg imm) e h k =
    imm-text (codes "mov") line_mov with_imm c reg (word_32 imm) e
      (refl, refl, refl, omega arith, refl) (λ a b. refl)
      (λ a b known n i. line_mov-imm c a b reg (word_32 imm) known n i) h.0 (word_32_lem imm h.1).0
    ∙ ap (λ t. (true, if reg == 0 && not t then wide else narrow)) (word_32_lem imm h.1).2
    ∙ ap (λ x. (true, x)) (never (reg == 0))
    ∙ ap (λ x. (true, one_reg 0xC7 0xC0 x c reg))
        (bytes_of-same_32 (word_32 imm) imm (word_32_lem imm h.1).1)
  where
    wide : Asm
    wide = Asm.asm_mov_rax_imm64 c (word_32 imm)

    narrow : Asm
    narrow = Asm.asm_mov_reg_imm32 c reg (word_32 imm)

    with_imm : Asm → ℕ → ℕ → Asm
    with_imm c d x =
        if d == 0 && not (fits_32 x) then Asm.asm_mov_rax_imm64 c x else Asm.asm_mov_reg_imm32 c d x

    never : (b : Bool) → (if b && false then wide else narrow) ≡ narrow
    never true = refl
    never false = refl
asm_line-text c (mov_imm64 reg imm) e h k =
    imm-text (codes "mov") line_mov with_imm c 0 imm e (refl, refl, refl, omega arith, refl)
      (λ a b. refl) (λ a b known n i. line_mov-imm c a b 0 imm known n i) (omega arith) h.1
    ∙ ap (λ t. (true, if not t then Asm.asm_mov_rax_imm64 c imm else Asm.asm_mov_reg_imm32 c 0 imm))
        k
  where
    with_imm : Asm → ℕ → ℕ → Asm
    with_imm c d x =
        if d == 0 && not (fits_32 x) then Asm.asm_mov_rax_imm64 c x else Asm.asm_mov_reg_imm32 c d x
asm_line-text c (stack StackOp.push reg) e h k =
    reg-line (codes "push") Asm.asm_push_reg c reg e (refl, refl, refl, omega arith, refl)
      (λ a b. refl) h
asm_line-text c (stack StackOp.pop reg) e h k =
    reg-line (codes "pop") Asm.asm_pop_reg c reg e (refl, refl, refl, omega arith, refl)
      (λ a b. refl) h
asm_line-text c (call_rel imm) e h k =
    asm_line-one c (codes "call") (literal (word_32 imm)) e (refl, refl, refl, omega arith, refl)
      (literal-is_arg (word_32 imm))
    ∙ line_call-imm c (literal (word_32 imm)) (word_32 imm) (parse_register-literal (word_32 imm))
        (parse_immediate-literal (word_32 imm) (word_32_lem imm h).0)
    ∙ ap (λ x. (true, asm_emit_bytes c (0xE8 ∷ x)))
        (bytes_of-same_32 (word_32 imm) imm (word_32_lem imm h).1)
asm_line-text c (plain PlainOp.syscall) e h k =
    ap (λ t. if t then (false, c) else (true, Asm.asm_syscall c)) e
asm_line-text c (plain PlainOp.ret) e h k =
    ap (λ t. if t then (false, c) else (true, Asm.asm_ret c)) e
asm_line-text c (plain PlainOp.nop) e h k =
    ap (λ t. if t then (false, c) else (true, Asm.asm_nop c)) e
