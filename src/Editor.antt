-- ===== src/Editor.antt =====
-- src/kernel/GUI/text_editor.c and includes/text_editor.h: the buffer of the text editor. The arrays
-- of characters are functions from the index. `modified` and the scrolling are part of the state; what
-- is drawn is not.
use amq_os.Prelude.{
  ℕ, zero, suc, ◌+◌, ◌-◌, ◌*◌, ◌/◌, ◌%◌, ◌^◌, ◌≤◌, ◌<◌, ◌≡◌, refl, sym, ap, ◌∙◌, subst, ◌≢◌, ◌↔◌,
  ◌⊎◌, inl, inr, Bool, true, false, not, ◌&&◌, ◌||◌, Option, none, some, List, [], ◌∷◌, ◌++◌, map,
  arith, ltb, leb, ◌==◌, if◌then◌else◌, u8, u16, u32, u64, sub16, sub32, sub64, Bool-cases,
  Option-cases, ==_iff, length, take, drop, update, update_self, update_ne, scan, scan-some,
  scan-first, scan-ne-none, contains, Distinct, without, AllBelow, contains-ne, without-absent,
  contains-without, without-Distinct, contains-append, append-Distinct, length-le_bound, replicate,
  length-append, length-take, length-drop, length-replicate, take-append-drop, get_elem?, get_or,
  if_both, contains-join, scan_is, Distinct-split, codes, check_below, check_below_lem,
}
pub mod Cursor
pub mod Scancodes
pub mod Strings
pub mod Page
pub mod Edits
pub mod Lines
pub mod Represents
pub mod Merges
pub mod Breaks
pub mod Moves
pub mod Keys

abbrev pub editor_max_lines : ℕ
editor_max_lines = 1000

abbrev pub editor_max_line_length : ℕ
editor_max_line_length = 256

-- `(height - EDITOR_TITLE_HEIGHT - EDITOR_TOOLBAR_HEIGHT - 10) / 16` with the height of
-- `text_editor_init`, which does not change.
abbrev pub visible_lines : ℕ
visible_lines = (500 - 30 - 35 - 10) / 16

abbrev pub Chars : Type 0
Chars = ℕ → ℕ

pub record Buffer : Type 0 where
  pub lines : ℕ → Chars
  pub line_count : ℕ
  pub cursor_line : ℕ
  pub cursor_col : ℕ
  pub scroll_offset : ℕ
  pub modified : Bool

-- `STRLEN` from index `i` on; a line has a NUL among its 256 characters.
unfoldable pub strlen_from : ℕ → Chars → ℕ → ℕ
strlen_from zero s i = i
strlen_from (suc fuel) s i = let rest = strlen_from fuel s (i + 1) in if s i == 0 then i else rest

abbrev pub strlen : Chars → ℕ
strlen s = strlen_from editor_max_line_length s 0

-- `while ((*_d++ = *_s++));`, from the indices `at` and `i` on.
unfoldable pub copy_from : ℕ → Chars → ℕ → Chars → ℕ → Chars
copy_from zero dest at src i = dest
copy_from (suc fuel) dest at src i =
    let rest = copy_from fuel (update dest at (src i)) (at + 1) src (i + 1) in
    if src i == 0 then update dest at (src i) else rest

abbrev pub strcpy : Chars → Chars → Chars
strcpy dest src = copy_from editor_max_line_length dest 0 src 0

abbrev pub strcat : Chars → Chars → Chars
strcat dest src = copy_from editor_max_line_length dest (strlen dest) src 0

abbrev pub set_line : Buffer → ℕ → Chars → Buffer
set_line b i s = record b { lines = update b.lines i s }

-- The buffer of `text_editor_init` without a file.
unfoldable pub text_editor_init : Buffer → Buffer
text_editor_init b = record b {
  lines = λ i. if ltb i editor_max_lines then update (b.lines i) 0 0 else b.lines i;
  line_count = 1;
  cursor_line = 0;
  cursor_col = 0;
  scroll_offset = 0;
  modified = false;
}

-- `for (int i = len; i >= cursor_col; i--) line[i + 1] = line[i];`
unfoldable pub make_room : ℕ → Chars → ℕ → Chars
make_room zero s i = s
make_room (suc rounds) s i = make_room rounds (update s (i + 1) (s i)) (i - 1)

unfoldable pub text_editor_insert_char : Buffer → ℕ → Buffer
unfolding make_room strlen_from
text_editor_insert_char b ch =
    let line = b.lines b.cursor_line in
    let len = strlen line in
    let moved = make_room (len + 1 - b.cursor_col) line len in
    if leb editor_max_lines b.cursor_line
    then b
    else if leb (editor_max_line_length - 1) len
    then b
    else record (set_line b b.cursor_line (update moved b.cursor_col ch)) {
      cursor_col = b.cursor_col + 1;
      modified = true;
    }

-- `for (int i = cursor_col - 1; i < len; i++) line[i] = line[i + 1];`
unfoldable pub close_gap : ℕ → Chars → ℕ → Chars
close_gap zero s i = s
close_gap (suc rounds) s i = close_gap rounds (update s i (s (i + 1))) (i + 1)

-- `for (int i = cursor_line; i < line_count - 1; i++) STRCPY(lines[i], lines[i + 1]);`
unfoldable pub lines_up : ℕ → (ℕ → Chars) → ℕ → ℕ → Chars
unfolding copy_from
lines_up zero t i = t
lines_up (suc rounds) t i = lines_up rounds (update t i (strcpy (t i) (t (i + 1)))) (i + 1)

abbrev pub erase_char : Buffer → Buffer
erase_char b =
    let line = b.lines b.cursor_line in
    record (set_line b b.cursor_line
      (close_gap (strlen line - (b.cursor_col - 1)) line (b.cursor_col - 1))) {
        cursor_col = b.cursor_col - 1;
        modified = true;
      }

abbrev pub merge_lines : Buffer → Buffer
merge_lines b =
    let above = b.cursor_line - 1 in
    let last = b.line_count - 1 in
    let joined = update b.lines above (strcat (b.lines above) (b.lines b.cursor_line)) in
    let moved = lines_up (last - b.cursor_line) joined b.cursor_line in
    record b {
      lines = update moved last (update (moved last) 0 0);
      line_count = last;
      cursor_line = above;
      cursor_col = strlen (b.lines above);
      modified = true;
    }

abbrev pub merge_fitting : Buffer → Buffer
merge_fitting b =
    if ltb (strlen (b.lines (b.cursor_line - 1)) + strlen (b.lines b.cursor_line))
      (editor_max_line_length - 1)
    then merge_lines b
    else b

unfoldable pub text_editor_backspace : Buffer → Buffer
unfolding close_gap lines_up strlen_from copy_from
text_editor_backspace b =
    if ltb 0 b.cursor_col then erase_char b else if ltb 0 b.cursor_line then merge_fitting b else b

-- `for (int i = line_count; i > cursor_line; i--) STRCPY(lines[i], lines[i - 1]);`
unfoldable pub lines_down : ℕ → (ℕ → Chars) → ℕ → ℕ → Chars
unfolding copy_from
lines_down zero t i = t
lines_down (suc rounds) t i = lines_down rounds (update t i (strcpy (t i) (t (i - 1)))) (i - 1)

-- `for (int i = cursor_col; i <= len; i++) below[i - cursor_col] = line[i];`, with `i - cursor_col`
-- for `i`.
unfoldable pub copy_tail : ℕ → Chars → Chars → ℕ → ℕ → Chars
copy_tail zero below line col i = below
copy_tail (suc rounds) below line col i =
    copy_tail rounds (update below i (line (col + i))) line col (i + 1)

abbrev pub scroll_down : Buffer → Buffer
scroll_down b =
    if leb (b.scroll_offset + visible_lines) b.cursor_line
    then record b { scroll_offset = b.scroll_offset + 1 }
    else b

abbrev pub split_line : Buffer → Buffer
split_line b =
    let c = b.cursor_line in
    let moved = lines_down (b.line_count - c) b.lines b.line_count in
    let len = strlen (moved c) in
    let below =
      update moved (c + 1)
        (copy_tail (len + 1 - b.cursor_col) (moved (c + 1)) (moved c) b.cursor_col 0) in
    record b {
      lines = update below c (update (below c) b.cursor_col 0);
      line_count = b.line_count + 1;
      cursor_line = c + 1;
      cursor_col = 0;
      modified = true;
    }

unfoldable pub text_editor_newline : Buffer → Buffer
unfolding lines_down copy_tail strlen_from
text_editor_newline b = if leb editor_max_lines b.line_count then b else scroll_down (split_line b)
