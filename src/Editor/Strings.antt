-- ===== src/Editor/Strings.antt =====
-- The loops of text_editor.c over characters, as what they do to strings.
use amq_os.Editor.{Chars, strlen_from, strlen, copy_from, strcpy, strcat, editor_max_line_length}
use amq_os.Prelude.{
  ℕ, zero, suc, ◌+◌, ◌-◌, ◌≤◌, ◌<◌, ◌≡◌, refl, sym, ap, ◌∙◌, subst, ◌≢◌, inl, inr, List, [], ◌∷◌,
  ◌++◌, arith, ltb, ◌==◌, if◌then◌else◌, Bool-cases, ==_iff, length, update, update_self, update_ne,
  length-append, get_or,
}

-- The array has the string at its start, and a NUL behind it.
pub record Holds (a : Chars) (s : List ℕ) : Type 0 where
  pub short : length s < editor_max_line_length
  pub at : (j : ℕ) → j ≤ length s → a j ≡ get_or s j 0
  pub nonzero : (j : ℕ) → j < length s → get_or s j 0 ≢ 0

get_or-end : (s : List ℕ) (j : ℕ) → length s ≤ j → get_or s j 0 ≡ 0
get_or-end [] j h = refl
get_or-end (x ∷ s) zero h = absurd (omega arith)
get_or-end (x ∷ s) (suc j) h = get_or-end s j (omega arith)

pub Holds-end : (a : Chars) (s : List ℕ) → Holds a s → a (length s) ≡ 0
Holds-end a s h = h.at (length s) (omega arith) ∙ get_or-end s (length s) (omega arith)

pub Holds-inside : (a : Chars) (s : List ℕ) (j : ℕ) → Holds a s → j < length s → a j ≢ 0
Holds-inside a s j h lt e = h.nonzero j lt (sym (h.at j (omega arith)) ∙ e)

strlen_from-Holds :
    (fuel : ℕ) (a : Chars) (s : List ℕ) (i : ℕ)
    → Holds a s
    → i ≤ length s
    → length s ≤ i + fuel
    → strlen_from fuel a i ≡ length s
unfolding strlen_from
strlen_from-Holds zero a s i h le enough = omega arith
strlen_from-Holds (suc fuel) a s i h le enough = elim (Bool-cases (i == length s)) [
  | inl last ↦ ground (arith, Holds-end a s h)
  | inr more ↦ ground (arith, Holds-inside a s i h, strlen_from-Holds fuel a s (i + 1) h)
]

pub strlen-Holds : (a : Chars) (s : List ℕ) → Holds a s → strlen a ≡ length s
strlen-Holds a s h =
    strlen_from-Holds editor_max_line_length a s 0 h (omega arith) (omega (arith, h.short))

-- The array has the string from `i` on at its index `at`, and is the other one before.
abbrev Copied : Chars → Chars → ℕ → Chars → List ℕ → ℕ → Type 0
Copied c dest at src s i =
    ((k : ℕ) → i + k ≤ length s → c (at + k) ≡ src (i + k)) × ((j : ℕ) → j < at → c j ≡ dest j)

copy_from-Copied :
    (fuel : ℕ) (dest : Chars) (at : ℕ) (src : Chars) (s : List ℕ) (i : ℕ)
    → Holds src s
    → i ≤ length s
    → length s < i + fuel
    → Copied (copy_from fuel dest at src i) dest at src s i
unfolding copy_from
copy_from-Copied zero dest at src s i h le enough = absurd (omega arith)
copy_from-Copied (suc fuel) dest at src s i h le enough = elim (Bool-cases (src i == 0)) [
  | inl done ↦
      let last : i ≡ length s = elim (Bool-cases (i == length s)) [
        | inl e ↦ ground arith
        | inr e ↦ absurd (Holds-inside src s i h (ground arith) (ground arith))
      ] in
      subst (λ t. Copied (if t then first else rest) dest at src s i) (sym done)
        (
          λ k le.
              let none : k ≡ 0 = omega arith in
              ap first (omega arith) ∙ update_self dest at (src i) ∙ ap src (omega arith),
          λ j lt. update_ne dest at (src i) j (λ e. omega arith),
        )
  | inr more ↦
      let inside : i < length s = elim (Bool-cases (i == length s)) [
        | inl e ↦ absurd (ground (arith, Holds-end src s h, ap src ((==_iff i (length s)).0 e)))
        | inr e ↦ ground arith
      ] in
      let (later, before) =
        copy_from-Copied fuel first (at + 1) src s (i + 1) h (omega arith) (omega arith) in
      subst (λ t. Copied (if t then first else rest) dest at src s i) (sym more)
        (
          λ k le. elim (Bool-cases (k == 0)) [
            | inl e ↦
                let none : k ≡ 0 = ground arith in
                ap rest (omega arith)
                ∙ before at (omega arith)
                ∙ update_self dest at (src i)
                ∙ ap src (omega arith)
            | inr e ↦
                let some_left : 0 < k = ground arith in
                ap rest (omega arith) ∙ later (k - 1) (omega arith) ∙ ap src (omega arith)
          ],
          λ j lt. before j (omega arith) ∙ update_ne dest at (src i) j (λ e. omega arith),
        )
]
  where
    first : Chars
    first = update dest at (src i)

    rest : Chars
    rest = copy_from fuel first (at + 1) src (i + 1)

pub strcpy-Holds : (dest src : Chars) (s : List ℕ) → Holds src s → Holds (strcpy dest src) s
strcpy-Holds dest src s h =
    let (same, before) =
      copy_from-Copied editor_max_line_length dest 0 src s 0 h (omega arith)
        (omega (arith, h.short)) in
    record {
      short = h.short;
      at = λ j le.
          ap (strcpy dest src) (omega arith)
          ∙ same j (omega arith)
          ∙ ap src (omega arith)
          ∙ h.at j le;
      nonzero = h.nonzero;
    }

-- The characters of two strings, one behind the other.
get_or-append :
    (s t : List ℕ) (j : ℕ)
    → ((j < length s) → get_or (s ++ t) j 0 ≡ get_or s j 0)
      × ((length s ≤ j) → get_or (s ++ t) j 0 ≡ get_or t (j - length s) 0)
get_or-append [] t j = (λ h. absurd (omega arith), λ h. ap (λ n. get_or t n 0) (omega arith))
get_or-append (x ∷ s) t zero = (λ h. refl, λ h. absurd (omega arith))
get_or-append (x ∷ s) t (suc j) =
    let (before, behind) = get_or-append s t j in
    (λ h. before (omega arith), λ h. behind (omega arith) ∙ ap (λ n. get_or t n 0) (omega arith))

pub strcat-Holds :
    (dest src : Chars) (s t : List ℕ)
    → Holds dest s
    → Holds src t
    → length s + length t < editor_max_line_length
    → Holds (strcat dest src) (s ++ t)
strcat-Holds dest src s t hs ht small =
    let long = length-append s t in
    let start = strlen-Holds dest s hs in
    let (same, before) =
      copy_from-Copied editor_max_line_length dest (strlen dest) src t 0 ht (omega arith)
        (omega (arith, ht.short)) in
    record {
      short = omega arith;
      at = λ j le. elim (Bool-cases (ltb j (length s))) [
        | inl e ↦
            let lt : j < length s = ground arith in
            before j (omega arith) ∙ hs.at j (omega arith) ∙ sym ((get_or-append s t j).0 lt)
        | inr e ↦
            let ge : length s ≤ j = ground arith in
            ap (strcat dest src) (omega arith)
            ∙ same (j - length s) (omega arith)
            ∙ ap src (omega arith)
            ∙ ht.at (j - length s) (omega arith)
            ∙ sym ((get_or-append s t j).1 ge)
      ];
      nonzero = λ j lt e. elim (Bool-cases (ltb j (length s))) [
        | inl b ↦ hs.nonzero j (ground arith) (sym ((get_or-append s t j).0 (ground arith)) ∙ e)
        | inr b ↦
            ht.nonzero (j - length s) (ground arith)
              (sym ((get_or-append s t j).1 (ground arith)) ∙ e)
      ];
    }
