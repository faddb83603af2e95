-- ===== src/Asm/Bounded.antt =====
-- The calls for one line of a program in asm.c keep the code within its bound.
use amq_os.Asm
use amq_os.Asm.{
  Asm, max_asm_size, asm_emit, asm_emit_bytes, reg_reg, one_reg, short_reg, bytes_of, high_bit,
  low_bits,
}
use amq_os.Asm.Words.{parse_register, parse_immediate}
use amq_os.Asm.Lines.{
  failed, line_mov, line_imm8, line_regs, line_call, line_reg, line_shift, fits_8, fits_32,
}
use amq_os.Prelude.{
  ℕ, ◌+◌, ◌*◌, ◌≤◌, ◌≡◌, refl, sym, subst, ◌⊎◌, inl, inr, Bool, true, false, not, ◌&&◌, Option,
  none, some, List, [], ◌∷◌, ◌++◌, arith, leb, ◌==◌, if◌then◌else◌, Bool-cases, length,
  length-append, codes,
}

abbrev pub IsBounded : Asm → Type 0
IsBounded c = length c.code ≤ max_asm_size

-- The code fits, and a call that fails has set the error.
pub record IsResult (r : Bool × Asm) : Type 0 where
  pub bounded : IsBounded r.1
  pub done : (r.0 ≡ true) ⊎ (r.1.error ≡ true)

pub if-IsResult :
    (b : Bool) (x y : Bool × Asm) → IsResult x → IsResult y → IsResult (if b then x else y)
if-IsResult true x y h k = h
if-IsResult false x y h k = k

asm_emit-IsBounded : (c : Asm) (b : ℕ) → IsBounded c → IsBounded (asm_emit c b)
asm_emit-IsBounded c b h = elim (Bool-cases (leb max_asm_size (length c.code))) [
  | inl full ↦ subst (λ t. IsBounded (if t then stop else more)) (sym full) h
  | inr room ↦
      subst (λ t. IsBounded (if t then stop else more)) (sym room)
        (ground (arith, length-append c.code (b ∷ [])))
]
  where
    stop : Asm
    stop = Asm.asm_error c (codes "Code size exceeded")

    more : Asm
    more = record c { code = c.code ++ b ∷ [] }

asm_emit_bytes-IsBounded :
    (c : Asm) (bytes : List ℕ) → IsBounded c → IsBounded (asm_emit_bytes c bytes)
unfolding asm_emit_bytes
asm_emit_bytes-IsBounded c [] h = h
asm_emit_bytes-IsBounded c (b ∷ bytes) h =
    asm_emit_bytes-IsBounded (asm_emit c b) bytes (asm_emit-IsBounded c b h)

pub emitted : (c : Asm) (bytes : List ℕ) → IsBounded c → IsResult (true, asm_emit_bytes c bytes)
emitted c bytes h = record { bounded = asm_emit_bytes-IsBounded c bytes h; done = inl refl }

-- An encoder of two arguments or of one keeps the bound.
abbrev KeepsPair : (Asm → ℕ → ℕ → Asm) → Type 0
KeepsPair f = (c : Asm) (a b : ℕ) → IsBounded c → IsResult (true, f c a b)

abbrev KeepsOne : (Asm → ℕ → Asm) → Type 0
KeepsOne f = (c : Asm) (a : ℕ) → IsBounded c → IsResult (true, f c a)

pub reg_reg-Keeps : (op : ℕ) → KeepsPair (reg_reg op)
unfolding reg_reg
reg_reg-Keeps op c a b h =
    emitted c ((72 + high_bit b * 4 + high_bit a) ∷ op ∷ (192 + low_bits b * 8 + low_bits a) ∷ []) h

pub one_reg-Keeps :
    (op ext : ℕ) (imm : List ℕ) (c : Asm) (reg : ℕ)
    → IsBounded c
    → IsResult (true, one_reg op ext imm c reg)
unfolding one_reg
one_reg-Keeps op ext imm c reg h =
    emitted c ((72 + high_bit reg) ∷ op ∷ (ext + low_bits reg) ∷ imm) h

pub short_reg-Keeps : (op : ℕ) → KeepsOne (short_reg op)
unfolding short_reg
short_reg-Keeps op c reg h =
    emitted c (if leb 8 reg then 65 ∷ (op + low_bits reg) ∷ [] else (op + low_bits reg) ∷ []) h

pub stopped : (c : Asm) (msg : List ℕ) → IsBounded c → IsResult (failed c msg)
stopped c msg h = record { bounded = h; done = inr refl }

pub line_mov-IsResult : (c : Asm) (a b : List ℕ) → IsBounded c → IsResult (line_mov c a b)
unfolding line_mov
line_mov-IsResult c a b h = elim (parse_register a) as (λ o. IsResult (with_first o)) [
  | none ↦ stopped c (codes "Invalid destination register") h
  | some d ↦ elim (parse_register b) as (λ o. IsResult (with_second d o)) [
    | some s ↦ reg_reg-Keeps 0x89 c d s h
    | none ↦ wide_or_narrow d (d == 0 && not (fits_32 (parse_immediate b)))
  ]
]
  where
    with_second : ℕ → Option ℕ → Bool × Asm
    with_second d o = elim o [
      | some s ↦ (true, Asm.asm_mov_reg_reg c d s)
      | none ↦ (
        true,
        if d == 0 && not (fits_32 (parse_immediate b))
            then Asm.asm_mov_rax_imm64 c (parse_immediate b)
            else Asm.asm_mov_reg_imm32 c d (parse_immediate b),
      )
    ]

    with_first : Option ℕ → Bool × Asm
    with_first o = elim o [
      | none ↦ failed c (codes "Invalid destination register")
      | some d ↦ with_second d (parse_register b)
    ]

    wide_or_narrow :
        (d : ℕ) (t : Bool)
        → IsResult (
          true,
          if t
              then Asm.asm_mov_rax_imm64 c (parse_immediate b)
              else Asm.asm_mov_reg_imm32 c d (parse_immediate b),
        )
    wide_or_narrow d true = emitted c (0x48 ∷ 0xB8 ∷ bytes_of 8 (parse_immediate b)) h
    wide_or_narrow d false = one_reg-Keeps 0xC7 0xC0 (bytes_of 4 (parse_immediate b)) c d h

pub line_imm8-IsResult :
    (m : List ℕ) (f g : Asm → ℕ → ℕ → Asm) (c : Asm) (a b : List ℕ)
    → KeepsPair f
    → KeepsPair g
    → IsBounded c
    → IsResult (line_imm8 m f g c a b)
unfolding line_imm8
line_imm8-IsResult m f g c a b kf kg h = elim (parse_register a) as (λ o. IsResult (with_first o)) [
  | none ↦ stopped c m h
  | some d ↦ elim (parse_register b) as (λ o. IsResult (with_second d o)) [
    | some s ↦ kf c d s h
    | none ↦
        if-IsResult (fits_8 (parse_immediate b)) (true, g c d (parse_immediate b))
          (failed c (codes "Immediate out of range (-128 to 127)")) (kg c d (parse_immediate b) h)
          (stopped c (codes "Immediate out of range (-128 to 127)") h)
  ]
]
  where
    with_second : ℕ → Option ℕ → Bool × Asm
    with_second d o = elim o [
      | some s ↦ (true, f c d s)
      | none ↦
          if fits_8 (parse_immediate b)
          then (true, g c d (parse_immediate b))
          else failed c (codes "Immediate out of range (-128 to 127)")
    ]

    with_first : Option ℕ → Bool × Asm
    with_first o = elim o [ none ↦ failed c m | some d ↦ with_second d (parse_register b) ]

pub line_regs-IsResult :
    (f : Asm → ℕ → ℕ → Asm) (c : Asm) (a b : List ℕ)
    → KeepsPair f
    → IsBounded c
    → IsResult (line_regs f c a b)
unfolding line_regs
line_regs-IsResult f c a b k h = elim (parse_register a) as (λ o. IsResult (with_first o)) [
  | none ↦ stopped c (codes "Invalid register") h
  | some d ↦ elim (parse_register b) as (λ o. IsResult (with_second d o)) [
    | none ↦ stopped c (codes "Invalid register") h
    | some s ↦ k c d s h
  ]
]
  where
    with_second : ℕ → Option ℕ → Bool × Asm
    with_second d o = elim o [
      | none ↦ failed c (codes "Invalid register")
      | some s ↦ (true, f c d s)
    ]

    with_first : Option ℕ → Bool × Asm
    with_first o = elim o [
      | none ↦ failed c (codes "Invalid register")
      | some d ↦ with_second d (parse_register b)
    ]

pub line_call-IsResult : (c : Asm) (a : List ℕ) → IsBounded c → IsResult (line_call c a)
unfolding line_call
line_call-IsResult c a h = elim (parse_register a) as (λ o. IsResult (with_first o)) [
  | some d ↦ one_reg-Keeps 0xFF 0xD0 [] c d h
  | none ↦ emitted c (0xE8 ∷ bytes_of 4 (parse_immediate a)) h
]
  where
    with_first : Option ℕ → Bool × Asm
    with_first o = elim o [
      | some d ↦ (true, Asm.asm_call_reg c d)
      | none ↦ (true, Asm.asm_call_rel32 c (parse_immediate a))
    ]

pub line_reg-IsResult :
    (f : Asm → ℕ → Asm) (c : Asm) (a : List ℕ)
    → KeepsOne f
    → IsBounded c
    → IsResult (line_reg f c a)
unfolding line_reg
line_reg-IsResult f c a k h = elim (parse_register a) as (λ o. IsResult (with_first o)) [
  | none ↦ stopped c (codes "Invalid register") h
  | some d ↦ k c d h
]
  where
    with_first : Option ℕ → Bool × Asm
    with_first o = elim o [ none ↦ failed c (codes "Invalid register") | some d ↦ (true, f c d) ]

pub line_shift-IsResult :
    (f : Asm → ℕ → ℕ → Asm) (c : Asm) (a b : List ℕ)
    → KeepsPair f
    → IsBounded c
    → IsResult (line_shift f c a b)
unfolding line_shift
line_shift-IsResult f c a b k h = elim (parse_register a) as (λ o. IsResult (with_first o)) [
  | none ↦ stopped c (codes "Invalid register") h
  | some d ↦
      if-IsResult (leb (parse_immediate b) 63) (true, f c d (parse_immediate b))
        (failed c (codes "Shift count out of range (0-63)")) (k c d (parse_immediate b) h)
        (stopped c (codes "Shift count out of range (0-63)") h)
]
  where
    with_first : Option ℕ → Bool × Asm
    with_first o = elim o [
      | none ↦ failed c (codes "Invalid register")
      | some d ↦
          if leb (parse_immediate b) 63
          then (true, f c d (parse_immediate b))
          else failed c (codes "Shift count out of range (0-63)")
    ]
