-- ===== src/Editor/Page.antt =====
-- A text with a cursor: what stands before it, nearest first, and what stands behind it, for the
-- characters of a line and for the lines; and what the keys of text_editor.c are for on such a text.
use amq_os.Editor.{editor_max_lines, editor_max_line_length}
use amq_os.Editor.Scancodes.{key_table, key_char}
use amq_os.Prelude.{
  ℕ, suc, ◌+◌, ◌-◌, ◌<◌, ◌≡◌, refl, sym, ap, ◌∙◌, inl, inr, none, some, List, [], ◌∷◌, ◌++◌, arith,
  ltb, leb, ◌==◌, if◌then◌else◌, Bool-cases, length, take, drop, get_or,
}

module _ {ℓ} {A : Type ℓ} where
  -- The whole of what stands before and behind.
  abbrev pub join : List A → List A → List A
  join [] r = r
  join (x ∷ l) r = join l (x ∷ r)

  pub length-join : (l r : List A) → length (join l r) ≡ length l + length r
  length-join [] r = omega arith
  length-join (x ∷ l) r = omega (arith, length-join l (x ∷ r))

  -- What stands at a place behind the cursor, and that what stands before it is the same.
  pub get_or-join-behind :
      (l r : List A) (k : ℕ) (d : A) → get_or (join l r) (length l + k) d ≡ get_or r k d
  get_or-join-behind [] r k d = ap (λ n. get_or r n d) (omega arith)
  get_or-join-behind (x ∷ l) r k d =
      ap (λ n. get_or (join l (x ∷ r)) n d) (omega arith) ∙ get_or-join-behind l (x ∷ r) (suc k) d

  pub get_or-join-before :
      (l r r' : List A) (j : ℕ) (d : A)
      → j < length l
      → get_or (join l r) j d ≡ get_or (join l r') j d
  get_or-join-before [] r r' j d h = absurd (omega arith)
  get_or-join-before (x ∷ l) r r' j d h = elim (Bool-cases (j == length l)) [
    | inl e ↦
        let last : j ≡ length l + 0 = ground arith in
        ap (λ n. get_or (join l (x ∷ r)) n d) last
        ∙ get_or-join-behind l (x ∷ r) 0 d
        ∙ sym (get_or-join-behind l (x ∷ r') 0 d)
        ∙ ap (λ n. get_or (join l (x ∷ r')) n d) (sym last)
    | inr e ↦ get_or-join-before l (x ∷ r) (x ∷ r') j d (ground arith)
  ]

  join-join : (p q r : List A) → join (join p q) r ≡ join q (p ++ r)
  join-join [] q r = refl
  join-join (x ∷ p) q r = join-join p (x ∷ q) r

  -- A list put before the cursor.
  pub join-reversed : (p r : List A) → join (join p []) r ≡ p ++ r
  join-reversed p r = join-join p [] r

pub record Page : Type 0 where
  pub above : List (List ℕ)
  pub left : List ℕ
  pub right : List ℕ
  pub below : List (List ℕ)

abbrev pub current : Page → List ℕ
current p = join p.left p.right

abbrev pub all_lines : Page → List (List ℕ)
all_lines p = join p.above (current p ∷ p.below)

abbrev pub blank_page : Page
blank_page = record { above = []; left = []; right = []; below = [] }

-- A character at the cursor, if the line has room.
abbrev pub type_char : Page → ℕ → Page
type_char p ch =
    if leb (editor_max_line_length - 1) (length (current p))
    then p
    else record p { left = ch ∷ p.left }

-- The character before the cursor goes, or the break before the line, if the two lines fit into one.
abbrev pub erase_at : Page → List ℕ → List (List ℕ) → Page
erase_at p (c ∷ left) above = record p { left = left }
erase_at p [] [] = p
erase_at p [] (line ∷ above) =
    if ltb (length line + length p.right) (editor_max_line_length - 1)
    then record p { above = above; left = join line [] }
    else p

abbrev pub erase : Page → Page
erase p = erase_at p p.left p.above

abbrev pub break_line : Page → Page
break_line p =
    if leb editor_max_lines (length (all_lines p))
    then p
    else record p { above = join p.left [] ∷ p.above; left = [] }

-- The cursor in a line, at a column that is cut to its end.
abbrev pub stand : List (List ℕ) → List ℕ → ℕ → List (List ℕ) → Page
stand above line col below = record {
  above = above;
  left = join (take col line) [];
  right = drop col line;
  below = below;
}

abbrev pub go_up : Page → List (List ℕ) → Page
go_up p [] = p
go_up p (line ∷ above) = stand above line (length p.left) (current p ∷ p.below)

abbrev pub go_down : Page → List (List ℕ) → Page
go_down p [] = p
go_down p (line ∷ below) = stand (current p ∷ p.above) line (length p.left) below

abbrev pub go_left : Page → List ℕ → Page
go_left p [] = p
go_left p (c ∷ left) = record p { left = left; right = c ∷ p.right }

abbrev pub go_right : Page → List ℕ → Page
go_right p [] = p
go_right p (c ∷ right) = record p { left = c ∷ p.left; right = right }

unfoldable pub press : Page → ℕ → Page
press p scancode =
    if scancode == 0x1C
    then break_line p
    else if scancode == 0x0E
    then erase p
    else if scancode == 0x48
    then go_up p p.above
    else if scancode == 0x50
    then go_down p p.below
    else if scancode == 0x4B
    then go_left p p.left
    else if scancode == 0x4D
    then go_right p p.right
    else elim (key_char key_table scancode) [ none ↦ p | some ch ↦ type_char p ch ]
