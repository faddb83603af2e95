-- ===== src/Tests/Editing.antt =====
-- Keys typed into src/kernel/GUI/text_editor.c.
use amq_os.Editor.{Buffer, text_editor_init}
use amq_os.Editor.Scancodes.{key_char}
use amq_os.Editor.Page.{Page, press}
use amq_os.Editor.Represents.{Represents}
use amq_os.Editor.Keys.{handle_keys, press_keys, handle_keys-refines}
use amq_os.Prelude.{ℕ, ◌+◌, true, List, [], ◌∷◌, codes}

-- A buffer with remains of something else.
abbrev old_buffer : Buffer
old_buffer = record {
  lines = λ i j. 65 + j;
  line_count = 7;
  cursor_line = 3;
  cursor_col = 2;
  scroll_offset = 1;
  modified = true;
}

-- h i, Enter, x, Left, Backspace, Backspace, Left, y, Enter, Up, Down, Right.
abbrev keys : List ℕ
keys = 0x23 ∷ 0x17 ∷ 0x1C ∷ 0x2D ∷ 0x4B ∷ 0x0E ∷ 0x0E ∷ 0x4B ∷ 0x15 ∷ 0x1C ∷ 0x48 ∷ 0x50 ∷ 0x4D ∷ []

abbrev text : Page
text = record { above = codes "y" ∷ []; left = codes "h"; right = codes "x"; below = [] }

handle_keys_example : Represents (handle_keys (text_editor_init old_buffer) keys) text
unfolding press_keys press key_char
handle_keys_example = handle_keys-refines old_buffer keys
