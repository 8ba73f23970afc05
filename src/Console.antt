-- ===== src/Console.antt =====
-- The screen of the console (console.c): the matrices of characters and colours, the cursor, and what
-- a character does that is no part of an escape sequence.
pub mod Escape
pub mod Print
pub mod Scrollback
pub mod Steps
pub mod Bounds
pub mod Session
pub mod Overflow
mod Tests
use open_recovery.Base.{
  ℕ, ◌+◌, ◌-◌, ◌*◌, ◌%◌, ◌≤◌, ◌<◌, Bool, true, false, ◌&&◌, Option, none, some, Bytes, ltb, leb,
  ◌==◌, if◌then◌else◌, ℤ, pos, ◌+ℤ◌, sub_ℕ,
}

-- CONSOLE_MATRIX_TOTAL_ROWS, CONSOLE_MATRIX_BUFFER_ROWS and CONSOLE_MATRIX_TOTAL_COLUMNS
abbrev pub total_rows : ℕ
total_rows = 1024

abbrev pub buffer_rows : ℕ
buffer_rows = 64

abbrev pub total_columns : ℕ
total_columns = 128

pub record Color : Type 0 where
  pub r : ℕ
  pub g : ℕ
  pub b : ℕ
  pub a : ℕ

abbrev pub no_color : Color
no_color = record { r = 0; g = 0; b = 0; a = 0 }

-- by row and column
abbrev pub Matrix {ℓ} : Type ℓ → Type ℓ
Matrix A = ℕ → ℕ → A

-- The static variables, without the prefix `console_`. The escape sequence that is being read is
-- `escaped_buffer` up to the pointer `escaped_sequence`.
pub record Console : Type 0 where
  pub text_matrix : Matrix ℕ
  pub color_matrix : Matrix Color
  pub screen_rows : ℕ
  pub screen_columns : ℕ
  pub current_color : Color
  pub top_row : ℕ
  pub force_top_row_on_text : ℕ
  pub force_top_row_reserve : ℤ
  pub cur_row : ℕ
  pub cur_column : ℕ
  pub escaped_state : Bool
  pub escaped_buffer : Bytes

-- the columns from `from` to before `to` of a row
unfoldable pub fill_cells {ℓ} : {A : Type ℓ} → ℕ → ℕ → ℕ → A → Matrix A → Matrix A
fill_cells row from to v m i j = if (i == row) && (leb from j && ltb j to) then v else m i j

-- The rows move up, in the columns of the screen, and the rows below are cleared, with `last` in the
-- last of these columns.
unfoldable pub shift_rows {ℓ} : {A : Type ℓ} → ℕ → A → A → Matrix A → Matrix A
shift_rows columns blank last m i j =
    if ltb j columns
    then (if ltb i (total_rows - buffer_rows)
        then m (i + buffer_rows) j
        else if j == columns - 1
        then last
        else blank)
    else m i j

abbrev pub and_then {ℓ} : {A B : Type ℓ} → Option A → (A → Option B) → Option B
and_then none f = none
and_then (some a) f = f a

-- a loop over columns of the row of the cursor; no result stands for a write outside of the matrix
unfoldable pub blank_columns : ℕ → ℕ → Console → Option Console
unfolding fill_cells
blank_columns from to s =
    if leb to from
    then some s
    else if ltb s.cur_row total_rows && leb to total_columns
    then some (record s { text_matrix = fill_cells s.cur_row from to b' ' s.text_matrix })
    else none

abbrev pub next_row : Console → Console
next_row s = record s {
  cur_row = s.cur_row + 1;
  force_top_row_reserve = s.force_top_row_reserve +ℤ pos 1;
}

-- a column may be past the last one of the screen
abbrev pub wrap_column : Console → Console
wrap_column s =
    if ltb (s.screen_columns - 2) s.cur_column then next_row (record s { cur_column = 0 }) else s

abbrev pub tab_end : ℕ → ℕ
tab_end column = column + (5 - column % 5)

abbrev pub tab : Console → Option Console
tab s =
    if leb (s.screen_columns - 2) (tab_end s.cur_column)
    then and_then (blank_columns s.cur_column (s.screen_columns - 1) s)
        (λ s'. some (next_row (record s' { cur_column = 0 })))
    else and_then (blank_columns s.cur_column (tab_end s.cur_column) s)
        (λ s'. some (record s' { cur_column = tab_end s.cur_column }))

abbrev pub backspace : Console → Console
backspace s =
    if s.cur_column == 0
    then (if s.cur_row == 0
        then s
        else record s { cur_column = s.screen_columns - 2; cur_row = s.cur_row - 1 })
    else record s { cur_column = s.cur_column - 1 }

abbrev pub put_cell : ℕ → Console → Option Console
put_cell c s =
    if ltb s.cur_row total_rows && ltb s.cur_column total_columns
    then some (
        wrap_column (record s {
          text_matrix = fill_cells s.cur_row s.cur_column (s.cur_column + 1) c s.text_matrix;
          color_matrix =
              fill_cells s.cur_row s.cur_column (s.cur_column + 1) s.current_color s.color_matrix;
          cur_column = s.cur_column + 1;
        }))
    else none

-- the switch of console_put_char; the bell only blinks
unfoldable pub put_one : ℕ → Console → Option Console
unfolding blank_columns
put_one c s =
    if c == 10
    then some (next_row s)
    else if c == 13
    then some (record s { cur_column = 0 })
    else if c == 9
    then tab s
    else if c == 8
    then some (backspace s)
    else if c == 7
    then some s
    else put_cell c s

-- what console_put_char does where the cursor has left the matrix
unfoldable pub scroll : Console → Option Console
unfolding shift_rows
scroll s =
    if s.cur_row == total_rows
    then (if leb s.screen_columns total_columns
        then some (record s {
          text_matrix = shift_rows s.screen_columns b' ' 0 s.text_matrix;
          color_matrix = shift_rows s.screen_columns no_color no_color s.color_matrix;
          cur_row = s.cur_row - buffer_rows;
          force_top_row_on_text = s.force_top_row_on_text - buffer_rows;
        })
        else none)
    else some s

-- console_put_char
unfoldable pub console_put_char : ℕ → Console → Option Console
unfolding put_one scroll
console_put_char c s = and_then (put_one c s) scroll
