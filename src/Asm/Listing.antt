-- ===== src/Asm/Listing.antt =====
-- Programs that show lists of instructions for asm.c, and what their code is decoded as.
use amq_os.Asm.Decode.{Instruction, decode}
use amq_os.Asm.Encoding.{IsInstruction, encoding}
use amq_os.Asm.Decoding.{decode-encoding}
use amq_os.Asm.Shown.{text, IsAccepted}
use amq_os.Prelude.{
  ℕ, zero, suc, ◌≡◌, refl, ap, ◌∙◌, Option, none, some, List, [], ◌∷◌, ◌++◌, length,
}

-- The lines of a program.
unfoldable pub program : List Instruction → List ℕ
program [] = []
program (i ∷ is) = text i ++ 10 ∷ program is

abbrev pub encodings : List Instruction → List ℕ
encodings [] = []
encodings (i ∷ is) = encoding i ++ encodings is

abbrev pub AreAccepted : List Instruction → Type 0
AreAccepted [] = Unit {0}
AreAccepted (i ∷ is) = (IsInstruction i × IsAccepted i) × AreAccepted is

-- All of the code, as `n` instructions at most.
unfoldable pub decode_all : ℕ → List ℕ → Option (List Instruction)
unfolding decode
decode_all n [] = some []
decode_all zero (b ∷ bytes) = none
decode_all (suc n) (b ∷ bytes) = elim (decode (b ∷ bytes)) [
  | none ↦ none
  | some r ↦ elim (decode_all n r.1) [ none ↦ none | some is ↦ some (r.0 ∷ is) ]
]

decode_all-first :
    (n : ℕ) (bytes rest : List ℕ) (i : Instruction) (is : List Instruction)
    → decode bytes ≡ some (i, rest)
    → decode_all n rest ≡ some is
    → decode_all (suc n) bytes ≡ some (i ∷ is)
unfolding decode_all decode
decode_all-first n [] rest i is d h = cc
decode_all-first n (b ∷ bytes) rest i is d h = ap step d ∙ ap (then_rest i) h
  where
    then_rest : Instruction → Option (List Instruction) → Option (List Instruction)
    then_rest i o = elim o [ none ↦ none | some is ↦ some (i ∷ is) ]

    step : Option (Instruction × List ℕ) → Option (List Instruction)
    step o = elim o [ none ↦ none | some r ↦ then_rest r.0 (decode_all n r.1) ]

pub decode_all-encodings :
    (is : List Instruction) → AreAccepted is → decode_all (length is) (encodings is) ≡ some is
unfolding decode_all
decode_all-encodings [] h = refl
decode_all-encodings (i ∷ is) h =
    decode_all-first (length is) (encodings (i ∷ is)) (encodings is) i is
      (decode-encoding i (encodings is) h.0.0) (decode_all-encodings is h.1)
