-- ===== src/Console/Escape.antt =====
-- Escape sequences (console.c).
use open_recovery.Base.{
  ℕ, zero, suc, ◌+◌, ◌-◌, ◌*◌, ◌^◌, Bool, false, ◌&&◌, ◌||◌, [], ◌∷◌, ◌++◌, Option, none, some,
  Bytes, length, ltb, leb, ◌==◌, if◌then◌else◌, sub_ℕ,
}
use open_recovery.Console.{
  Console, Color, no_color, Matrix, total_rows, total_columns, fill_cells, and_then,
  console_put_char,
}

-- the colours that are set elsewhere: the header, the background, the front, and those of the terminal
pub record Palette : Type 0 where
  pub header_color : Color
  pub background_color : Color
  pub front_color : Color
  pub term_colors : ℕ → Color

-- what the loop of console_unescape has found; `parameters` is the array
pub record Parsed : Type 0 where
  pub square : ℕ
  pub left : ℕ
  pub right : ℕ
  pub question : ℕ
  pub parameters : ℕ → ℕ
  pub no_parameters : ℕ
  pub argument : ℕ

abbrev pub is_digit : ℕ → Bool
is_digit c = leb b'0' c && leb c b'9'

abbrev pub max_parameters : ℕ
max_parameters = 32

-- a digit; no result stands for a write outside of the array or an overflow of an int
abbrev pub add_digit : ℕ → Parsed → Option Parsed
add_digit d p =
    if ltb p.no_parameters max_parameters && ltb (p.parameters p.no_parameters * 10 + d) (2 ^ 31)
    then some (record p {
      parameters = λ i. if i == p.no_parameters then p.parameters i * 10 + d else p.parameters i;
    })
    else none

-- the loop of console_unescape
unfoldable pub parse_escape : Bytes → Parsed → Option Parsed
parse_escape [] p = some p
parse_escape (c ∷ cs) p =
    let on = parse_escape cs in
    if c == b'['
    then on (record p { square = p.square + 1 })
    else if c == b'('
    then on (record p { left = p.left + 1 })
    else if c == b')'
    then on (record p { right = p.right + 1 })
    else if c == b'?'
    then on (record p { question = p.question + 1 })
    else if c == b';'
    then on (record p { no_parameters = p.no_parameters + 1 })
    else if is_digit c
    then and_then (add_digit (c - b'0') p) on
    else some (record p { argument = c })

abbrev pub nothing_parsed : Parsed
nothing_parsed = record {
  square = 0;
  left = 0;
  right = 0;
  question = 0;
  parameters = λ i. 0;
  no_parameters = 0;
  argument = 0;
}

abbrev pub to_row : ℕ → Console → Console
to_row row s = record s {
  cur_row = row;
  force_top_row_reserve = sub_ℕ (1 + row) (s.force_top_row_on_text + s.screen_rows);
}

-- `cur_row - n` stops at 0, which is not below force_top_row_on_text.
abbrev pub move_up : ℕ → Console → Console
move_up n s =
    to_row
      (if ltb (s.cur_row - n) s.force_top_row_on_text
        then s.force_top_row_on_text
        else s.cur_row - n)
      s

-- no result stands for an overflow of an int
abbrev pub move_down : ℕ → Console → Option Console
move_down n s =
    let bottom = s.force_top_row_on_text + s.screen_rows in
    if ltb (s.cur_row + n) (2 ^ 31)
    then some (to_row (if leb bottom (s.cur_row + n) then bottom - 1 else s.cur_row + n) s)
    else none

abbrev pub move_right : ℕ → Console → Option Console
move_right n s =
    if ltb (s.cur_column + n) (2 ^ 31)
    then some (record s {
      cur_column =
          if leb (s.screen_columns - 1) (s.cur_column + n)
          then s.screen_columns - 2
          else s.cur_column + n;
    })
    else none

abbrev pub move_to : ℕ → ℕ → Console → Console
move_to row column s =
    to_row (s.top_row + (if leb s.screen_rows row then s.screen_rows - 1 else row)) (record s {
      cur_column = if leb (s.screen_columns - 1) column then s.screen_columns - 2 else column;
      force_top_row_on_text = s.top_row;
    })

-- red, green and blue are set to 0 from a column to before another
abbrev pub darken : ℕ → ℕ → ℕ → Matrix Color → Matrix Color
darken row from to m i j =
    if (i == row) && (leb from j && ltb j to) then record no_color { a = (m i j).a } else m i j

-- no result stands for a write outside of the matrix
abbrev pub clear_columns : ℕ → ℕ → Console → Option Console
clear_columns from to s =
    if leb to from
    then some s
    else if ltb s.cur_row total_rows && leb to total_columns
    then some (record s {
      text_matrix = fill_cells s.cur_row from to b' ' s.text_matrix;
      color_matrix = darken s.cur_row from to s.color_matrix;
    })
    else none

abbrev pub clear_rows {ℓ} : {A : Type ℓ} → ℕ → ℕ → A → A → Matrix A → Matrix A
clear_rows above columns blank last m i j =
    if ltb above i && ltb j columns then (if j == columns - 1 then last else blank) else m i j

abbrev pub clear_below : Console → Option Console
clear_below s = and_then (clear_columns s.cur_column (s.screen_columns - 1) s) (λ s'.
    some (record s' {
      text_matrix = clear_rows s.cur_row s.screen_columns b' ' 0 s'.text_matrix;
      color_matrix = clear_rows s.cur_row s.screen_columns no_color no_color s'.color_matrix;
    }))

abbrev pub clear_line : ℕ → Console → Option Console
clear_line zero s = clear_columns s.cur_column (s.screen_columns - 1) s
clear_line (suc zero) s = clear_columns 0 (s.cur_column + 1) s
clear_line (suc (suc zero)) s = clear_columns 0 (s.screen_columns - 1) s
clear_line _ s = some s

-- ui_console_set_front_color
abbrev pub ui_console_set_front_color : Color → Console → Console
ui_console_set_front_color c s = record s {
  current_color = record s.current_color { r = c.r; g = c.g; b = c.b };
}

-- console_set_front_term_color
unfoldable pub console_set_front_term_color : Palette → ℕ → Console → Console
console_set_front_term_color colors code s =
    if leb 30 code && ltb code 37
    then ui_console_set_front_color (colors.term_colors (code - 30)) s
    else if leb 90 code && ltb code 97
    then ui_console_set_front_color (colors.term_colors (code - 90 + 8)) s
    else s

-- ui_console_set_system_front_color(CONSOLE_DEFAULT_FRONT_COLOR)
abbrev pub set_default_color : Palette → Console → Console
set_default_color colors s = record s { current_color = colors.front_color }

abbrev pub select_color : Palette → ℕ → Console → Console
select_color colors code s =
    if (code == 0) || (code == 39)
    then set_default_color colors s
    else if (leb 30 code && leb code 37) || (leb 90 code && leb code 97)
    then console_set_front_term_color colors code s
    else s

-- the parameters from 0 to before n
unfoldable pub select_colors : Palette → (ℕ → ℕ) → ℕ → Console → Console
unfolding console_set_front_term_color
select_colors colors parameters zero s = s
select_colors colors parameters (suc n) s =
    select_color colors (parameters n) (select_colors colors parameters n s)

unfoldable pub put_chars : Bytes → Console → Option Console
unfolding console_put_char
put_chars [] s = some s
put_chars (c ∷ cs) s = and_then (console_put_char c s) (put_chars cs)

-- the commands, if the sequence is one; `text` is what is done else
unfoldable pub run_command : Palette → Parsed → Option Console → Console → Option Console
unfolding select_colors
run_command colors p text s =
    let first = p.parameters 0 in
    if p.argument == b'A'
    then some (move_up first s)
    else if p.argument == b'B'
    then move_down first s
    else if p.argument == b'C'
    then move_right first s
    else if p.argument == b'D'
    then some (record s { cur_column = s.cur_column - first })
    else if p.argument == b'H'
    then some (move_to first (p.parameters 1) s)
    else if p.argument == b'J'
    then clear_below s
    else if p.argument == b'K'
    then clear_line first s
    else if p.argument == b'm'
    then some (select_colors colors p.parameters (p.no_parameters + 1) s)
    else text

abbrev pub has_form : Parsed → Bool
has_form p = (p.square == 1) && ((p.left == 0) && ((p.right == 0) && (p.question == 0)))

-- console_unescape. All parameters are printed, so that more than 32 are read outside of the array.
unfoldable pub console_unescape : Palette → Console → Option Console
unfolding parse_escape run_command put_chars
console_unescape colors s = and_then (parse_escape s.escaped_buffer nothing_parsed) (λ p.
    let text = put_chars (b'^' ∷ s.escaped_buffer) s in
    if ltb p.no_parameters max_parameters
    then (if has_form p then run_command colors p text s else text)
    else none)

-- characters that do not end a sequence
abbrev pub is_inner : ℕ → Bool
is_inner c =
    (c == b'[') || ((c == b'(') || ((c == b'?') || ((c == b')') || ((c == b';') || is_digit c))))

abbrev pub max_escaped : ℕ
max_escaped = 64

-- console_put_escape_sequence; no result stands for a write outside of the buffer
unfoldable pub console_put_escape_sequence : Palette → ℕ → Console → Option Console
unfolding console_unescape
console_put_escape_sequence colors c s =
    let s' = record s { escaped_buffer = s.escaped_buffer ++ (c ∷ []) } in
    if leb max_escaped (length s.escaped_buffer)
    then none
    else if is_inner c
    then some s'
    else if leb max_escaped (length s'.escaped_buffer)
    then none
    else and_then (console_unescape colors s') (λ s''. some (record s'' { escaped_state = false }))
