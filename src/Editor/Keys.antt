-- ===== src/Editor/Keys.antt =====
-- The text editor of text_editor.c against a text with a cursor.
use amq_os.Editor.{Buffer, text_editor_init, text_editor_insert_char, editor_max_lines}
use amq_os.Editor.Scancodes.{text_editor_handle_key, key_table, key_char}
use amq_os.Editor.Strings.{Holds}
use amq_os.Editor.Lines.{HoldsLines}
use amq_os.Editor.Page.{Page, all_lines, blank_page, type_char, press}
use amq_os.Editor.Represents.{
  Represents, placed, placed_self, placed-Represents, if-Represents, insert-placed,
}
use amq_os.Editor.Merges.{backspace-Represents}
use amq_os.Editor.Breaks.{newline-Represents}
use amq_os.Editor.Moves.{up-Represents, down-Represents, left-Represents, right-Represents}
use amq_os.Prelude.{
  ℕ, ◌≤◌, ◌≡◌, refl, subst, ◌≢◌, Bool, true, ◌&&◌, Option, none, some, List, [], ◌∷◌, arith, ltb,
  ◌==◌, length, update, get_or,
}

unfoldable nonzero_chars : List (ℕ × ℕ) → Bool
nonzero_chars [] = true
nonzero_chars ((key, ch) ∷ table) = ltb 0 ch && nonzero_chars table

key_char-nonzero :
    (table : List (ℕ × ℕ)) (scancode ch : ℕ)
    → nonzero_chars table ≡ true
    → key_char table scancode ≡ some ch
    → ch ≢ 0
unfolding key_char nonzero_chars
key_char-nonzero [] scancode ch all e = absurd (ground arith)
key_char-nonzero ((key, c) ∷ table) scancode ch all e =
    let later = key_char-nonzero table scancode ch in ground arith

key_table-nonzero : nonzero_chars key_table ≡ true
unfolding nonzero_chars
key_table-nonzero = refl

typed-Represents :
    (b : Buffer) (p : Page) (o : Option ℕ)
    → length (all_lines p) ≤ editor_max_lines
    → HoldsLines b.lines (all_lines p)
    → ((ch : ℕ) → o ≡ some ch → ch ≢ 0)
    → Represents
        (elim o [ none ↦ placed b p | some ch ↦ text_editor_insert_char (placed b p) ch ])
        (elim o [ none ↦ p | some ch ↦ type_char p ch ])
typed-Represents b p none few h nz = placed_self b p few h
typed-Represents b p (some ch) few h nz = insert-placed b p few h ch (nz ch refl)

key-placed :
    (b : Buffer) (p : Page) (scancode : ℕ)
    → length (all_lines p) ≤ editor_max_lines
    → HoldsLines b.lines (all_lines p)
    → Represents (text_editor_handle_key (placed b p) scancode) (press p scancode)
unfolding text_editor_handle_key press
key-placed b p scancode few h =
    if-Represents (scancode == 0x1C) _ _ _ _ (λ e. newline-Represents b p few h)
      (λ e.
        if-Represents (scancode == 0x0E) _ _ _ _
          (λ e. backspace-Represents b p.above p.left p.right p.below few h)
          (λ e.
            if-Represents (scancode == 0x48) _ _ _ _
              (λ e. up-Represents b p.above p.left p.right p.below few h)
              (λ e.
                if-Represents (scancode == 0x50) _ _ _ _
                  (λ e. down-Represents b p.above p.left p.right p.below few h)
                  (λ e.
                    if-Represents (scancode == 0x4B) _ _ _ _
                      (λ e. left-Represents b p.above p.left p.right p.below few h)
                      (λ e.
                        if-Represents (scancode == 0x4D) _ _ _ _
                          (λ e. right-Represents b p.above p.left p.right p.below few h)
                          (λ e. typed-Represents b p (key_char key_table scancode) few h (λ ch f.
                            key_char-nonzero key_table scancode ch key_table-nonzero f)))))))

-- A key does to the buffer what it does to the text.
pub handle_key-Represents :
    (b : Buffer) (p : Page) (scancode : ℕ)
    → Represents b p
    → Represents (text_editor_handle_key b scancode) (press p scancode)
handle_key-Represents b p scancode r =
    subst (λ c. Represents (text_editor_handle_key c scancode) (press p scancode))
      (placed-Represents b p r) (key-placed b p scancode r.few r.holds)

pub init-Represents : (b : Buffer) → Represents (text_editor_init b) blank_page
unfolding text_editor_init
init-Represents b = record {
  count = refl;
  row = refl;
  col = refl;
  few = omega arith;
  holds = λ i lt.
      let first : 0 ≡ i = omega arith in
      subst (λ n. Holds ((text_editor_init b).lines n) (get_or ([] ∷ []) n [])) first empty;
}
  where
    empty : Holds (update (b.lines 0) 0 0) []
    empty = record {
      short = omega arith;
      at = λ j le. ground arith;
      nonzero = λ j lt. absurd (omega arith);
    }

-- The keys one after the other.
unfoldable pub handle_keys : Buffer → List ℕ → Buffer
handle_keys b [] = b
handle_keys b (scancode ∷ keys) = handle_keys (text_editor_handle_key b scancode) keys

unfoldable pub press_keys : Page → List ℕ → Page
press_keys p [] = p
press_keys p (scancode ∷ keys) = press_keys (press p scancode) keys

pub handle_keys-Represents :
    (b : Buffer) (p : Page) (keys : List ℕ)
    → Represents b p
    → Represents (handle_keys b keys) (press_keys p keys)
unfolding handle_keys press_keys
handle_keys-Represents b p [] r = r
handle_keys-Represents b p (scancode ∷ keys) r =
    handle_keys-Represents (text_editor_handle_key b scancode) (press p scancode) keys
      (handle_key-Represents b p scancode r)

-- After any keys in a new editor, the buffer stands for the text that the keys make of the blank one:
-- its lines are the strings of the first rows of the table, its count is theirs and at most 1000, and
-- the cursor is at the same row and column.
pub handle_keys-refines :
    (b : Buffer) (keys : List ℕ)
    → Represents (handle_keys (text_editor_init b) keys) (press_keys blank_page keys)
handle_keys-refines b keys =
    handle_keys-Represents (text_editor_init b) blank_page keys (init-Represents b)
