-- ===== src/Editor/Cursor.antt =====
-- src/kernel/GUI/text_editor.c: the moves of the cursor.
use amq_os.Editor.{Buffer, strlen, strlen_from, visible_lines}
use amq_os.Prelude.{ℕ, ◌+◌, ◌-◌, Bool, Option, none, some, ltb, leb, ◌==◌, if◌then◌else◌}

-- A step of the cursor, of no length too.
pub data Move : Type 0 where
  back forth : ℕ → Move

abbrev pub stays : Move → Bool
stays (back n) = n == 0
stays (forth n) = n == 0

-- Where a step leads, unless that is negative.
abbrev pub target : ℕ → Move → Option ℕ
target x (back n) = if leb n x then some (x - n) else none
target x (forth n) = some (x + n)

abbrev pub scroll_to_cursor : Buffer → Buffer
scroll_to_cursor b =
    if ltb b.cursor_line b.scroll_offset
    then record b { scroll_offset = b.cursor_line }
    else if leb (b.scroll_offset + visible_lines) b.cursor_line
    then record b { scroll_offset = b.cursor_line + 1 - visible_lines }
    else b

abbrev pub to_line : Buffer → ℕ → Buffer
to_line b line =
    let len = strlen (b.lines line) in
    if ltb line b.line_count
    then scroll_to_cursor (record b {
      cursor_line = line;
      cursor_col = if ltb len b.cursor_col then len else b.cursor_col;
    })
    else b

abbrev pub to_col : Buffer → ℕ → Buffer
to_col b col = if leb col (strlen (b.lines b.cursor_line)) then record b { cursor_col = col } else b

abbrev pub move_vertically : Buffer → Move → Buffer
move_vertically b dy =
    if stays dy then b else elim (target b.cursor_line dy) [ none ↦ b | some line ↦ to_line b line ]

abbrev pub move_horizontally : Buffer → Move → Buffer
move_horizontally b dx =
    if stays dx then b else elim (target b.cursor_col dx) [ none ↦ b | some col ↦ to_col b col ]

unfoldable pub text_editor_move_cursor : Buffer → Move → Move → Buffer
unfolding strlen_from
text_editor_move_cursor b dx dy = move_horizontally (move_vertically b dy) dx
