-- ===== src/Editor/Scancodes.antt =====
-- src/kernel/GUI/text_editor.c: what a key does.
use amq_os.Editor.{Buffer, text_editor_newline, text_editor_backspace, text_editor_insert_char}
use amq_os.Editor.Cursor.{back, forth, text_editor_move_cursor}
use amq_os.Prelude.{ℕ, Option, none, some, List, [], ◌∷◌, ◌==◌, if◌then◌else◌}

-- The characters of the keys; none for the keys that do nothing.
abbrev pub key_table : List (ℕ × ℕ)
key_table =
    (0x02, b'1')
    ∷ (0x03, b'2')
    ∷ (0x04, b'3')
    ∷ (0x05, b'4')
    ∷ (0x06, b'5')
    ∷ (0x07, b'6')
    ∷ (0x08, b'7')
    ∷ (0x09, b'8')
    ∷ (0x0A, b'9')
    ∷ (0x0B, b'0')
    ∷ (0x0C, b'-')
    ∷ (0x0D, b'=')
    ∷ (0x10, b'q')
    ∷ (0x11, b'w')
    ∷ (0x12, b'e')
    ∷ (0x13, b'r')
    ∷ (0x14, b't')
    ∷ (0x15, b'y')
    ∷ (0x16, b'u')
    ∷ (0x17, b'i')
    ∷ (0x18, b'o')
    ∷ (0x19, b'p')
    ∷ (0x1E, b'a')
    ∷ (0x1F, b's')
    ∷ (0x20, b'd')
    ∷ (0x21, b'f')
    ∷ (0x22, b'g')
    ∷ (0x23, b'h')
    ∷ (0x24, b'j')
    ∷ (0x25, b'k')
    ∷ (0x26, b'l')
    ∷ (0x27, b';')
    ∷ (0x28, 39)
    ∷ (0x2C, b'z')
    ∷ (0x2D, b'x')
    ∷ (0x2E, b'c')
    ∷ (0x2F, b'v')
    ∷ (0x30, b'b')
    ∷ (0x31, b'n')
    ∷ (0x32, b'm')
    ∷ (0x33, b',')
    ∷ (0x34, b'.')
    ∷ (0x35, b'/')
    ∷ (0x39, b' ')
    ∷ (0x1A, b'[')
    ∷ (0x1B, b']')
    ∷ (0x2B, 92)
    ∷ []

unfoldable pub key_char : List (ℕ × ℕ) → ℕ → Option ℕ
key_char [] scancode = none
key_char ((key, ch) ∷ table) scancode = if key == scancode then some ch else key_char table scancode

unfoldable pub text_editor_handle_key : Buffer → ℕ → Buffer
unfolding key_char
text_editor_handle_key b scancode =
    if scancode == 0x1C
    then text_editor_newline b
    else if scancode == 0x0E
    then text_editor_backspace b
    else if scancode == 0x48
    then text_editor_move_cursor b (forth 0) (back 1)
    else if scancode == 0x50
    then text_editor_move_cursor b (forth 0) (forth 1)
    else if scancode == 0x4B
    then text_editor_move_cursor b (back 1) (forth 0)
    else if scancode == 0x4D
    then text_editor_move_cursor b (forth 1) (forth 0)
    else elim (key_char key_table scancode) [ none ↦ b | some ch ↦ text_editor_insert_char b ch ]
