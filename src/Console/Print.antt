-- ===== src/Console/Print.antt =====
-- Printing, scrolling and the start of a session (console.c).
use open_recovery.Base.{
  ℕ, ◌+◌, ◌-◌, ◌*◌, true, false, [], ◌∷◌, Option, some, Bytes, ltb, ◌==◌, if◌then◌else◌, ℤ, pos,
  negsuc, sub_ℕ,
}
use open_recovery.Console.{
  Console, no_color, Matrix, total_rows, total_columns, and_then, console_put_char,
}
use open_recovery.Console.Escape.{Palette, console_put_escape_sequence}

-- one character of a text, 27 is CONSOLE_ESC
unfoldable pub print_char : Palette → ℕ → Console → Option Console
unfolding console_put_char console_put_escape_sequence
print_char colors c s =
    if c == 27
    then some (record s { escaped_state = true; escaped_buffer = [] })
    else if s.escaped_state
    then console_put_escape_sequence colors c s
    else console_put_char c s

unfoldable pub print_chars : Palette → Bytes → Console → Option Console
unfolding print_char
print_chars colors [] s = some s
print_chars colors (c ∷ cs) s = and_then (print_char colors c s) (print_chars colors cs)

abbrev pub take_reserve : ℤ → Console → Console
take_reserve (pos n) s = record s {
  force_top_row_on_text = s.force_top_row_on_text + n;
  force_top_row_reserve = pos 0;
  top_row = s.force_top_row_on_text + n;
}
take_reserve (negsuc n) s = record s { top_row = s.force_top_row_on_text }

-- ui_console_print
unfoldable pub ui_console_print : Palette → Bytes → Console → Option Console
unfolding print_chars
ui_console_print colors text s =
    and_then (print_chars colors text s) (λ s'. some (take_reserve s'.force_top_row_reserve s'))

-- ui_console_scroll_up
unfoldable pub ui_console_scroll_up : ℕ → Console → Console
ui_console_scroll_up num_rows s = record s { top_row = s.top_row - num_rows }

abbrev pub max_row_top : Console → ℕ
max_row_top s =
    if ltb (s.cur_row + 1 - s.screen_rows) s.force_top_row_on_text
    then s.force_top_row_on_text
    else s.cur_row + 1 - s.screen_rows

-- ui_console_scroll_down
unfoldable pub ui_console_scroll_down : ℕ → Console → Console
ui_console_scroll_down num_rows s = record s {
  top_row =
      if ltb (max_row_top s) (s.top_row + num_rows) then max_row_top s else s.top_row + num_rows;
}

-- ui_console_begin: the matrices are filled as if their rows had the length of the screen's.
abbrev pub fill_flat {ℓ} : {A : Type ℓ} → ℕ → A → Matrix A → Matrix A
fill_flat columns v m i j = if ltb (i * total_columns + j) (total_rows * columns) then v else m i j

unfoldable pub ui_console_begin : Palette → ℕ → ℕ → Console → Console
ui_console_begin colors rows columns s = record s {
  text_matrix = λ i j. if j == columns - 1 then 0 else fill_flat columns b' ' s.text_matrix i j;
  color_matrix = fill_flat columns no_color s.color_matrix;
  screen_rows = rows;
  screen_columns = columns;
  current_color = colors.front_color;
  top_row = 0;
  force_top_row_on_text = 0;
  force_top_row_reserve = sub_ℕ 1 rows;
  cur_row = 0;
  cur_column = 0;
  escaped_state = false;
}
