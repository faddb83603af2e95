-- ===== src/Editor/Edits.antt =====
-- What the keys do to the line with the cursor in text_editor.c.
use amq_os.Editor.{Chars, make_room, close_gap, copy_tail, editor_max_line_length}
use amq_os.Editor.{editor_max_line_length}
use amq_os.Editor.Strings.{Holds}
use amq_os.Editor.Page.{join, length-join, get_or-join-behind, get_or-join-before}
use amq_os.Prelude.{
  ℕ, zero, suc, ◌+◌, ◌-◌, ◌≤◌, ◌<◌, ◌≡◌, sym, ap, ◌∙◌, ◌≢◌, inl, inr, ◌&&◌, List, [], ◌∷◌, arith,
  ltb, leb, if◌then◌else◌, Bool-cases, length, update, get_or,
}

make_room-at :
    (rounds : ℕ) (s : Chars) (i j : ℕ)
    → rounds ≤ i + 1
    → make_room rounds s i j ≡ (if ltb (i + 1 - rounds) j && leb j (i + 1) then s (j - 1) else s j)
unfolding make_room
make_room-at zero s i j h = ground arith
make_room-at (suc zero) s i j h = ground (arith)
make_room-at (suc (suc rounds)) s i j h =
    make_room-at (suc rounds) (update s (i + 1) (s i)) (i - 1) j (omega arith) ∙ ground (arith)

close_gap-at :
    (rounds : ℕ) (s : Chars) (i j : ℕ)
    → close_gap rounds s i j ≡ (if leb i j && ltb j (i + rounds) then s (j + 1) else s j)
unfolding close_gap
close_gap-at zero s i j = ground arith
close_gap-at (suc rounds) s i j =
    close_gap-at rounds (update s i (s (i + 1))) (i + 1) j ∙ ground (arith)

copy_tail-at :
    (rounds : ℕ) (below line : Chars) (col i j : ℕ)
    → copy_tail rounds below line col i j
      ≡ (if leb i j && ltb j (i + rounds) then line (col + j) else below j)
unfolding copy_tail
copy_tail-at zero below line col i j = ground arith
copy_tail-at (suc rounds) below line col i j =
    copy_tail-at rounds (update below i (line (col + i))) line col (i + 1) j ∙ ground (arith)

-- A string around the cursor is read in two halves.
module _ (a : Chars) (l r : List ℕ) (h : Holds a (join l r)) where
  before-cursor : (r' : List ℕ) (j : ℕ) → j < length l → a j ≡ get_or (join l r') j 0
  before-cursor r' j lt = h.at j (omega (arith, length-join l r)) ∙ get_or-join-before l r r' j 0 lt

  behind-cursor : (k : ℕ) → k ≤ length r → a (length l + k) ≡ get_or r k 0
  behind-cursor k le =
      h.at (length l + k) (omega (arith, length-join l r)) ∙ get_or-join-behind l r k 0

  before-nonzero : (r' : List ℕ) (j : ℕ) → j < length l → get_or (join l r') j 0 ≢ 0
  before-nonzero r' j lt e =
      h.nonzero j (omega (arith, length-join l r)) (get_or-join-before l r r' j 0 lt ∙ e)

  behind-nonzero : (k : ℕ) → k < length r → get_or r k 0 ≢ 0
  behind-nonzero k lt e =
      h.nonzero (length l + k) (omega (arith, length-join l r)) (get_or-join-behind l r k 0 ∙ e)

-- An array holds a string around the cursor if it holds both halves.
join-Holds :
    (b : Chars) (l r : List ℕ)
    → length l + length r < editor_max_line_length
    → ((j : ℕ) → j < length l → b j ≡ get_or (join l r) j 0)
    → ((k : ℕ) → k ≤ length r → b (length l + k) ≡ get_or r k 0)
    → ((j : ℕ) → j < length l → get_or (join l r) j 0 ≢ 0)
    → ((k : ℕ) → k < length r → get_or r k 0 ≢ 0)
    → Holds b (join l r)
join-Holds b l r small before behind nonzero nonzero' =
    let long = length-join l r in
    record {
      short = omega arith;
      at = λ j le. elim (Bool-cases (ltb j (length l))) [
        | inl e ↦ before j (ground arith)
        | inr e ↦
            let ge : length l ≤ j = ground arith in
            ap b (omega arith)
            ∙ behind (j - length l) (omega arith)
            ∙ sym (get_or-join-behind l r (j - length l) 0)
            ∙ ap (λ n. get_or (join l r) n 0) (omega arith)
      ];
      nonzero = λ j lt e. elim (Bool-cases (ltb j (length l))) [
        | inl b ↦ nonzero j (ground arith) e
        | inr b ↦
            let ge : length l ≤ j = ground arith in
            nonzero' (j - length l) (omega arith) (
              sym (get_or-join-behind l r (j - length l) 0)
              ∙ ap (λ n. get_or (join l r) n 0) (omega arith)
              ∙ e)
      ];
    }

pub insert-Holds :
    (a : Chars) (l r : List ℕ) (ch : ℕ)
    → Holds a (join l r)
    → length (join l r) < editor_max_line_length - 1
    → ch ≢ 0
    → Holds
        (update (make_room (length (join l r) + 1 - length l) a (length (join l r))) (length l) ch)
        (join l (ch ∷ r))
insert-Holds a l r ch h room nz =
    join-Holds _ l (ch ∷ r) (omega (arith, long))
      (λ j lt. ground (arith, moved j, before-cursor a l r h (ch ∷ r) j)) behind
      (before-nonzero a l r h (ch ∷ r)) nonzero
  where
    long : length (join l r) ≡ length l + length r
    long = length-join l r

    len : ℕ
    len = length (join l r)

    moved :
        (j : ℕ)
        → make_room (len + 1 - length l) a len j
          ≡ (if ltb (len + 1 - (len + 1 - length l)) j && leb j (len + 1) then a (j - 1) else a j)
    moved j = make_room-at (len + 1 - length l) a len j (omega arith)

    behind :
        (k : ℕ)
        → k ≤ length (ch ∷ r)
        → update (make_room (len + 1 - length l) a len) (length l) ch (length l + k)
          ≡ get_or (ch ∷ r) k 0
    behind zero le = ground arith
    behind (suc k) le =
        let place : length l + suc k - 1 ≡ length l + k = omega arith in
        ground (arith, moved (length l + suc k), behind-cursor a l r h k, ap a place, long)

    nonzero : (k : ℕ) → k < length (ch ∷ r) → get_or (ch ∷ r) k 0 ≢ 0
    nonzero zero lt = nz
    nonzero (suc k) lt = behind-nonzero a l r h k (omega arith)

pub erase-Holds :
    (a : Chars) (l r : List ℕ) (c : ℕ)
    → Holds a (join l (c ∷ r))
    → Holds (close_gap (length (join l (c ∷ r)) - length l) a (length l)) (join l r)
erase-Holds a l r c h =
    join-Holds _ l r (omega (arith, long, h.short))
      (λ j lt. ground (arith, moved j, before-cursor a l (c ∷ r) h r j)) behind
      (before-nonzero a l (c ∷ r) h r) (λ k lt. behind-nonzero a l (c ∷ r) h (suc k) (omega arith))
  where
    len : ℕ
    len = length (join l (c ∷ r))

    long : len ≡ length l + suc (length r)
    long = length-join l (c ∷ r)

    moved :
        (j : ℕ)
        → close_gap (len - length l) a (length l) j
          ≡ (if leb (length l) j && ltb j (length l + (len - length l)) then a (j + 1) else a j)
    moved j = close_gap-at (len - length l) a (length l) j

    behind :
        (k : ℕ)
        → k ≤ length r
        → close_gap (len - length l) a (length l) (length l + k) ≡ get_or r k 0
    behind k le =
        let place : length l + k + 1 ≡ length l + suc k = omega arith in
        ground (arith, moved (length l + k), behind-cursor a l (c ∷ r) h (suc k), ap a place, long)

pub cut-Holds :
    (a : Chars) (l r : List ℕ) → Holds a (join l r) → Holds (update a (length l) 0) (join l [])
cut-Holds a l r h =
    join-Holds _ l [] (omega (arith, length-join l r, h.short))
      (λ j lt. ground (arith, before-cursor a l r h [] j)) (λ k le. ground arith)
      (before-nonzero a l r h []) (λ k lt. absurd (omega arith))

pub tail-Holds :
    (a below : Chars) (l r : List ℕ)
    → Holds a (join l r)
    → Holds (copy_tail (length (join l r) + 1 - length l) below a (length l) 0) r
tail-Holds a below l r h = record {
  short = omega (arith, length-join l r, h.short);
  at = λ j le. ground (
    arith,
    copy_tail-at (length (join l r) + 1 - length l) below a (length l) 0 j,
    behind-cursor a l r h j,
    length-join l r,
  );
  nonzero = behind-nonzero a l r h;
}
