-- ===== src/Editor/Lines.antt =====
-- The loops of text_editor.c over the lines.
use amq_os.Editor.{Chars, strcpy, lines_up, lines_down}
use amq_os.Editor.Strings.{Holds, strcpy-Holds}
use amq_os.Editor.Page.{join, length-join, get_or-join-behind, get_or-join-before}
use amq_os.Prelude.{
  ℕ, zero, suc, ◌+◌, ◌-◌, ◌≤◌, ◌<◌, ◌≡◌, refl, sym, ap, ◌∙◌, subst, ◌⊎◌, inl, inr, List, [], ◌∷◌,
  arith, ltb, ◌==◌, Bool-cases, length, update, update_self, update_ne, get_or,
}

lines_up-outside :
    (rounds : ℕ) (t : ℕ → Chars) (i j : ℕ)
    → (j < i) ⊎ (i + rounds ≤ j)
    → lines_up rounds t i j ≡ t j
unfolding lines_up
lines_up-outside zero t i j h = refl
lines_up-outside (suc rounds) t i j h =
    lines_up-outside rounds (update t i (strcpy (t i) (t (i + 1)))) (i + 1) j (omega arith)
    ∙ update_ne t i (strcpy (t i) (t (i + 1))) j (λ e. omega arith)

lines_up-inside :
    (rounds : ℕ) (t : ℕ → Chars) (i j : ℕ) (s : List ℕ)
    → i ≤ j
    → j < i + rounds
    → Holds (t (j + 1)) s
    → Holds (lines_up rounds t i j) s
unfolding lines_up
lines_up-inside zero t i j s lo hi h = absurd (omega arith)
lines_up-inside (suc rounds) t i j s lo hi h = elim (Bool-cases (i == j)) [
  | inl e ↦
      let here : i ≡ j = ground arith in
      subst (λ x. Holds x s)
        (sym (
          lines_up-outside rounds t1 (i + 1) j (omega arith)
          ∙ ap t1 (sym here)
          ∙ update_self t i copied))
        (strcpy-Holds (t i) (t (i + 1)) s (subst (λ n. Holds (t (n + 1)) s) (sym here) h))
  | inr e ↦
      lines_up-inside rounds t1 (i + 1) j s (ground arith) (omega arith)
        (subst (λ x. Holds x s) (sym (update_ne t i copied (j + 1) (λ e. omega arith))) h)
]
  where
    copied : Chars
    copied = strcpy (t i) (t (i + 1))

    t1 : ℕ → Chars
    t1 = update t i copied

lines_down-outside :
    (rounds : ℕ) (t : ℕ → Chars) (i j : ℕ)
    → rounds ≤ i
    → (j ≤ i - rounds) ⊎ (i < j)
    → lines_down rounds t i j ≡ t j
unfolding lines_down
lines_down-outside zero t i j le h = refl
lines_down-outside (suc rounds) t i j le h =
    lines_down-outside rounds (update t i (strcpy (t i) (t (i - 1)))) (i - 1) j (omega arith)
      (omega arith)
    ∙ update_ne t i (strcpy (t i) (t (i - 1))) j (λ e. omega arith)

lines_down-inside :
    (rounds : ℕ) (t : ℕ → Chars) (i j : ℕ) (s : List ℕ)
    → rounds ≤ i
    → i - rounds < j
    → j ≤ i
    → Holds (t (j - 1)) s
    → Holds (lines_down rounds t i j) s
unfolding lines_down
lines_down-inside zero t i j s le lo hi h = absurd (omega arith)
lines_down-inside (suc rounds) t i j s le lo hi h = elim (Bool-cases (i == j)) [
  | inl e ↦
      let here : i ≡ j = ground arith in
      subst (λ x. Holds x s)
        (sym (
          lines_down-outside rounds t1 (i - 1) j (omega arith) (omega arith)
          ∙ ap t1 (sym here)
          ∙ update_self t i copied))
        (strcpy-Holds (t i) (t (i - 1)) s (subst (λ n. Holds (t (n - 1)) s) (sym here) h))
  | inr e ↦
      lines_down-inside rounds t1 (i - 1) j s (omega arith) (omega arith) (ground arith)
        (subst (λ x. Holds x s) (sym (update_ne t i copied (j - 1) (λ e. omega arith))) h)
]
  where
    copied : Chars
    copied = strcpy (t i) (t (i - 1))

    t1 : ℕ → Chars
    t1 = update t i copied

-- The table has the lines at its start.
abbrev pub HoldsLines : (ℕ → Chars) → List (List ℕ) → Type 0
HoldsLines t ls = (i : ℕ) → i < length ls → Holds (t i) (get_or ls i [])

-- The line at the cursor is there, and is replaced.
pub HoldsLines-current :
    (t : ℕ → Chars) (above below : List (List ℕ)) (s : List ℕ)
    → HoldsLines t (join above (s ∷ below))
    → Holds (t (length above)) s
HoldsLines-current t above below s h =
    subst (Holds (t (length above)))
      (ap (λ n. get_or (join above (s ∷ below)) n []) (omega arith)
        ∙ get_or-join-behind above (s ∷ below) 0 [])
      (h (length above) (omega (arith, length-join above (s ∷ below))))

-- Each line of a page: before the cursor, at it and behind it.
HoldsLines-join :
    (t : ℕ → Chars) (above below : List (List ℕ)) (s : List ℕ)
    → ((i : ℕ) → i < length above → Holds (t i) (get_or (join above (s ∷ below)) i []))
    → Holds (t (length above)) s
    → ((k : ℕ) → k < length below → Holds (t (length above + suc k)) (get_or below k []))
    → HoldsLines t (join above (s ∷ below))
HoldsLines-join t above below s before here behind i lt = elim (Bool-cases (ltb i (length above))) [
  | inl e ↦ before i (ground arith)
  | inr e ↦ elim (Bool-cases (i == length above)) [
    | inl f ↦
        let place : i ≡ length above + 0 = ground arith in
        subst (λ n. Holds (t n) (get_or (join above (s ∷ below)) n [])) (sym place)
          (subst (λ n. Holds (t n) (get_or (join above (s ∷ below)) (length above + 0) []))
            (omega arith)
            (subst (Holds (t (length above))) (sym (get_or-join-behind above (s ∷ below) 0 []))
              here))
    | inr f ↦
        let k = i - length above - 1 in
        let place : i ≡ length above + suc k = ground arith in
        subst (λ n. Holds (t n) (get_or (join above (s ∷ below)) n [])) (sym place)
          (subst (Holds (t (length above + suc k)))
            (sym (get_or-join-behind above (s ∷ below) (suc k) []))
            (behind k (omega (arith, length-join above (s ∷ below)))))
  ]
]

-- The lines before the cursor and behind it, read off the table.
HoldsLines-before :
    (t : ℕ → Chars) (above : List (List ℕ)) (r r' : List (List ℕ)) (i : ℕ)
    → HoldsLines t (join above r)
    → i < length above
    → Holds (t i) (get_or (join above r') i [])
HoldsLines-before t above r r' i h lt =
    subst (Holds (t i)) (get_or-join-before above r r' i [] lt)
      (h i (omega (arith, length-join above r)))

HoldsLines-behind :
    (t : ℕ → Chars) (above r : List (List ℕ)) (k : ℕ)
    → HoldsLines t (join above r)
    → k < length r
    → Holds (t (length above + k)) (get_or r k [])
HoldsLines-behind t above r k h lt =
    subst (Holds (t (length above + k))) (get_or-join-behind above r k [])
      (h (length above + k) (omega (arith, length-join above r)))

pub HoldsLines-replace :
    (t : ℕ → Chars) (above below : List (List ℕ)) (s s' : List ℕ) (a : Chars)
    → HoldsLines t (join above (s ∷ below))
    → Holds a s'
    → HoldsLines (update t (length above) a) (join above (s' ∷ below))
HoldsLines-replace t above below s s' a h k =
    HoldsLines-join (update t (length above) a) above below s'
      (λ i lt.
        subst (λ x. Holds x (get_or (join above (s' ∷ below)) i []))
          (sym (update_ne t (length above) a i (λ e. omega arith)))
          (HoldsLines-before t above (s ∷ below) (s' ∷ below) i h lt))
      (subst (λ x. Holds x s') (sym (update_self t (length above) a)) k)
      (λ k lt.
        subst (λ x. Holds x (get_or below k []))
          (sym (update_ne t (length above) a (length above + suc k) (λ e. omega arith)))
          (HoldsLines-behind t above (s ∷ below) (suc k) h (omega arith)))

-- A line behind all lines does not matter.
pub HoldsLines-beyond :
    (t : ℕ → Chars) (ls : List (List ℕ)) (n : ℕ) (a : Chars)
    → length ls ≤ n
    → HoldsLines t ls
    → HoldsLines (update t n a) ls
HoldsLines-beyond t ls n a le h i lt =
    subst (λ x. Holds x (get_or ls i [])) (sym (update_ne t n a i (λ e. omega arith))) (h i lt)

-- The line behind the cursor goes.
pub lines_up-HoldsLines :
    (t : ℕ → Chars) (above below : List (List ℕ)) (s gone : List ℕ)
    → HoldsLines t (join above (s ∷ gone ∷ below))
    → HoldsLines (lines_up (length below) t (length above + 1)) (join above (s ∷ below))
lines_up-HoldsLines t above below s gone h =
    HoldsLines-join (lines_up (length below) t (length above + 1)) above below s
      (λ i lt.
        subst (λ x. Holds x (get_or (join above (s ∷ below)) i []))
          (sym (lines_up-outside (length below) t (length above + 1) i (omega arith)))
          (HoldsLines-before t above (s ∷ gone ∷ below) (s ∷ below) i h lt))
      (subst (λ x. Holds x s)
        (sym (lines_up-outside (length below) t (length above + 1) (length above) (omega arith)))
        (HoldsLines-current t above (gone ∷ below) s h))
      (λ k lt.
        lines_up-inside (length below) t (length above + 1) (length above + suc k)
          (get_or below k []) (omega arith) (omega arith)
          (subst (λ n. Holds (t n) (get_or below k [])) (omega arith)
            (HoldsLines-behind t above (s ∷ gone ∷ below) (suc (suc k)) h (omega arith))))

-- The line at the cursor is doubled.
pub lines_down-HoldsLines :
    (t : ℕ → Chars) (above below : List (List ℕ)) (s : List ℕ)
    → HoldsLines t (join above (s ∷ below))
    → HoldsLines
        (lines_down (suc (length below)) t (length above + suc (length below)))
        (join above (s ∷ s ∷ below))
lines_down-HoldsLines t above below s h =
    HoldsLines-join t' above (s ∷ below) s
      (λ i lt.
        subst (λ x. Holds x (get_or (join above (s ∷ s ∷ below)) i []))
          (sym (lines_down-outside rounds t last i (omega arith) (omega arith)))
          (HoldsLines-before t above (s ∷ below) (s ∷ s ∷ below) i h lt))
      (subst (λ x. Holds x s)
        (sym (lines_down-outside rounds t last (length above) (omega arith) (omega arith)))
        (HoldsLines-current t above below s h))
      (λ k lt.
        lines_down-inside rounds t last (length above + suc k) (get_or (s ∷ below) k [])
          (omega arith) (omega arith) (omega arith)
          (subst (λ n. Holds (t n) (get_or (s ∷ below) k [])) (omega arith)
            (HoldsLines-behind t above (s ∷ below) k h lt)))
  where
    rounds : ℕ
    rounds = suc (length below)

    last : ℕ
    last = length above + suc (length below)

    t' : ℕ → Chars
    t' = lines_down rounds t last
