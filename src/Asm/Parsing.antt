-- ===== src/Asm/Parsing.antt =====
-- What the lines of asm.c do with registers and immediates.
use amq_os.Asm
use amq_os.Asm.{Asm}
use amq_os.Asm.Words.{parse_register, parse_immediate}
use amq_os.Asm.Lines.{
  asm_line, dispatch, fits_32, line_call, line_imm8, line_mov, line_reg, line_regs, line_shift,
  fits_8,
}
use amq_os.Asm.Texts.{
  reg_name, reg_name_lem, literal, literal-is_arg, parse_immediate-literal, parse_register-literal,
}
use amq_os.Prelude.{
  ℕ, ◌^◌, ◌<◌, ◌≡◌, refl, ◌∙◌, Bool, true, false, not, ◌&&◌, none, some, List, [], leb, ◌==◌,
  if◌then◌else◌,
}
use amq_os.Asm.Shown.{two, one}
use amq_os.Asm.Reading.{IsMnemonic, asm_line-two, asm_line-one}

pub regs-text :
    (name : List ℕ) (line : Asm → List ℕ → List ℕ → Bool × Asm) (with_reg : Asm → ℕ → ℕ → Asm)
    (c : Asm) (dst src : ℕ)
    → c.error ≡ false
    → IsMnemonic name
    → ((a b : List ℕ) → dispatch c name a b ≡ line c a b)
    → ((a b : List ℕ) (d s : ℕ)
        → parse_register a ≡ some d
        → parse_register b ≡ some s
        → line c a b ≡ (true, with_reg c d s))
    → dst < 16
    → src < 16
    → asm_line c (two name (reg_name dst) (reg_name src)) ≡ (true, with_reg c dst src)
regs-text name line with_reg c dst src e h goes reads d s =
    let (arg1, known1) = reg_name_lem dst d in
    let (arg2, known2) = reg_name_lem src s in
    asm_line-two c name (reg_name dst) (reg_name src) e h arg1 arg2
    ∙ goes (reg_name dst) (reg_name src)
    ∙ reads (reg_name dst) (reg_name src) dst src known1 known2

pub imm-text :
    (name : List ℕ) (line : Asm → List ℕ → List ℕ → Bool × Asm) (with_imm : Asm → ℕ → ℕ → Asm)
    (c : Asm) (reg x : ℕ)
    → c.error ≡ false
    → IsMnemonic name
    → ((a b : List ℕ) → dispatch c name a b ≡ line c a b)
    → ((a b : List ℕ)
        → parse_register a ≡ some reg
        → parse_register b ≡ none
        → parse_immediate b ≡ x
        → line c a b ≡ (true, with_imm c reg x))
    → reg < 16
    → x < 2 ^ 64
    → asm_line c (two name (reg_name reg) (literal x)) ≡ (true, with_imm c reg x)
imm-text name line with_imm c reg x e h goes reads r small =
    let (arg1, known) = reg_name_lem reg r in
    asm_line-two c name (reg_name reg) (literal x) e h arg1 (literal-is_arg x)
    ∙ goes (reg_name reg) (literal x)
    ∙ reads (reg_name reg) (literal x) known (parse_register-literal x)
        (parse_immediate-literal x small)

pub reg-text :
    (name : List ℕ) (with_reg : Asm → ℕ → Asm) (c : Asm) (reg : ℕ)
    → c.error ≡ false
    → IsMnemonic name
    → ((a b : List ℕ) → parse_register a ≡ some reg → dispatch c name a b ≡ (true, with_reg c reg))
    → reg < 16
    → asm_line c (one name (reg_name reg)) ≡ (true, with_reg c reg)
reg-text name with_reg c reg e h reads r =
    let (arg1, known) = reg_name_lem reg r in
    asm_line-one c name (reg_name reg) e h arg1 ∙ reads (reg_name reg) [] known

-- Each kind of line, once its arguments are known.
pub line_imm8-reg :
    (m : List ℕ) (f g : Asm → ℕ → ℕ → Asm) (c : Asm) (a b : List ℕ) (d s : ℕ)
    → parse_register a ≡ some d
    → parse_register b ≡ some s
    → line_imm8 m f g c a b ≡ (true, f c d s)
unfolding line_imm8
line_imm8-reg m f g c a b d s h k = rw (line_imm8, h, k) refl

pub line_imm8-imm :
    (m : List ℕ) (f g : Asm → ℕ → ℕ → Asm) (c : Asm) (a b : List ℕ) (d x : ℕ)
    → fits_8 x ≡ true
    → parse_register a ≡ some d
    → parse_register b ≡ none
    → parse_immediate b ≡ x
    → line_imm8 m f g c a b ≡ (true, g c d x)
unfolding line_imm8
line_imm8-imm m f g c a b d x fits h k i = rw (line_imm8, h, k, i, fits) refl

pub line_regs-reg :
    (f : Asm → ℕ → ℕ → Asm) (c : Asm) (a b : List ℕ) (d s : ℕ)
    → parse_register a ≡ some d
    → parse_register b ≡ some s
    → line_regs f c a b ≡ (true, f c d s)
unfolding line_regs
line_regs-reg f c a b d s h k = rw (line_regs, h, k) refl

pub line_mov-reg :
    (c : Asm) (a b : List ℕ) (d s : ℕ)
    → parse_register a ≡ some d
    → parse_register b ≡ some s
    → line_mov c a b ≡ (true, Asm.asm_mov_reg_reg c d s)
unfolding line_mov
line_mov-reg c a b d s h k = rw (line_mov, h, k) refl

pub line_shift-imm :
    (f : Asm → ℕ → ℕ → Asm) (c : Asm) (a b : List ℕ) (d x : ℕ)
    → leb x 63 ≡ true
    → parse_register a ≡ some d
    → parse_register b ≡ none
    → parse_immediate b ≡ x
    → line_shift f c a b ≡ (true, f c d x)
unfolding line_shift
line_shift-imm f c a b d x fits h k i = rw (line_shift, h, i, fits) refl

pub line_mov-imm :
    (c : Asm) (a b : List ℕ) (d x : ℕ)
    → parse_register a ≡ some d
    → parse_register b ≡ none
    → parse_immediate b ≡ x
    → line_mov c a b ≡ (
      true,
      if d == 0 && not (fits_32 x) then Asm.asm_mov_rax_imm64 c x else Asm.asm_mov_reg_imm32 c d x,
    )
unfolding line_mov
line_mov-imm c a b d x h k i = rw (line_mov, h, k, i) refl

pub line_reg-reg :
    (f : Asm → ℕ → Asm) (c : Asm) (a : List ℕ) (d : ℕ)
    → parse_register a ≡ some d
    → line_reg f c a ≡ (true, f c d)
unfolding line_reg
line_reg-reg f c a d h = rw (line_reg, h) refl

pub line_call-reg :
    (c : Asm) (a : List ℕ) (d : ℕ)
    → parse_register a ≡ some d
    → line_call c a ≡ (true, Asm.asm_call_reg c d)
unfolding line_call
line_call-reg c a d h = rw (line_call, h) refl

pub line_call-imm :
    (c : Asm) (a : List ℕ) (x : ℕ)
    → parse_register a ≡ none
    → parse_immediate a ≡ x
    → line_call c a ≡ (true, Asm.asm_call_rel32 c x)
unfolding line_call
line_call-imm c a x h i = rw (line_call, h, i) refl
