-- ===== src/Console/Tests.antt =====
-- The console at a screen of 24 rows and 80 columns.
use open_recovery.Base.{
  List, ℕ, zero, suc, ◌≡◌, ◌≢◌, refl, false, [], ◌∷◌, ◌++◌, Option, none, some, Bytes, codes,
  replicate, pos, ◌+ℤ◌, ◌==◌, ==_iff, arith,
}
use open_recovery.Console.{Console, Color, no_color, total_rows}
use open_recovery.Console.Escape.{Palette}
use open_recovery.Console.Print.{ui_console_begin, ui_console_print}
use open_recovery.Console.Scrollback.{Fits}
use open_recovery.Console.Steps.{Puts}
use open_recovery.Console.Bounds.{
  Shown, put_all, terminal_of, IsPlain, Stays, ui_console_print-Shown,
}
use open_recovery.Console.Session.{
  Event, prints, scrolls_up, scrolls_down, session, ui_console_begin-session,
}
use open_recovery.Console.Overflow.{AllInner, ui_console_print-overflow}

abbrev gray : Color
gray = record { r = 229; g = 229; b = 229; a = 0 }

abbrev palette : Palette
palette = record {
  header_color = record { r = 255; g = 255; b = 0; a = 0 };
  background_color = no_color;
  front_color = gray;
  term_colors = λ i. record { r = i; g = 205; b = 0; a = 0 };
}

-- the static variables at the start of the program
abbrev zeroed : Console
zeroed = record {
  text_matrix = λ i j. 0;
  color_matrix = λ i j. no_color;
  screen_rows = 0;
  screen_columns = 0;
  current_color = no_color;
  top_row = 0;
  force_top_row_on_text = 0;
  force_top_row_reserve = pos 0;
  cur_row = 0;
  cur_column = 0;
  escaped_state = false;
  escaped_buffer = [];
}

abbrev start : Console
start = ui_console_begin palette 24 81 zeroed

start-Fits : Fits total_rows start
unfolding ui_console_begin
start-Fits = record {
  wide = omega arith;
  narrow = omega arith;
  row = omega arith;
  column = omega arith;
}

start_state : start.escaped_state ≡ false
unfolding ui_console_begin
start_state = refl

abbrev cell : ℕ → ℕ → Option Console → Option ℕ
cell i j none = none
cell i j (some s) = some (s.text_matrix i j)

abbrev rows_of : Option Console → ℕ × ℕ
rows_of none = (0, 0)
rows_of (some s) = (s.cur_row, s.top_row)

-- two lines with a tab; ESC[3C moves to the right
printed :
    (cell 0 0 (ui_console_print palette (codes "a" ++ 9 ∷ codes "b") start) ≡ some b'a')
    × (cell 0 5 (ui_console_print palette (codes "a" ++ 9 ∷ codes "b") start) ≡ some b'b')
    × (cell 1 3 (ui_console_print palette (10 ∷ 27 ∷ codes "[3Cx") start) ≡ some b'x')
unfolding ui_console_print ui_console_begin ◌+ℤ◌
printed = (refl, refl, refl)

-- a text of 1024 lines at once leaves the top of the screen below the cursor
many_lines : rows_of (ui_console_print palette (replicate 1024 10) start) ≡ (960, 1001)
unfolding ui_console_print ui_console_begin ◌+ℤ◌
many_lines = refl

-- the lower rows of a screen of 80 columns are not cleared
uncleared : start.text_matrix 1000 0 ≡ 0
unfolding ui_console_begin
uncleared = refl

abbrev text : Bytes
text = codes "ab" ++ 9 ∷ 10 ∷ 13 ∷ codes "c"

differs : (a b : ℕ) → (a == b) ≡ false → a ≢ b
differs a b h e = cc (h, (==_iff a b).1 e)

text-IsPlain : IsPlain text
text-IsPlain = (
  differs _ _ refl,
  differs _ _ refl,
  (
    differs _ _ refl,
    differs _ _ refl,
    (
      differs _ _ refl,
      differs _ _ refl,
      (
        differs _ _ refl,
        differs _ _ refl,
        (differs _ _ refl, differs _ _ refl, (differs _ _ refl, differs _ _ refl, tt)),
      ),
    ),
  ),
)

ui_console_print-Shown_example :
    Puts
      (Shown (put_all start.screen_columns start.current_color text (terminal_of start)))
      (ui_console_print palette text start)
ui_console_print-Shown_example =
    ui_console_print-Shown palette text start start-Fits start_state text-IsPlain

abbrev events : List Event
events = prints (8 ∷ 97 ∷ 8 ∷ []) ∷ scrolls_down 3 ∷ prints (10 ∷ []) ∷ scrolls_up 1 ∷ []

ui_console_begin-session_example :
    Puts Stays (session palette events (ui_console_begin palette 24 81 zeroed))
ui_console_begin-session_example =
    ui_console_begin-session palette 24 81 events zeroed (omega arith) (omega arith)
      ((differs _ _ refl, (differs _ _ refl, (differs _ _ refl, tt))), ((differs _ _ refl, tt), tt))

semicolons-AllInner : (n : ℕ) → AllInner (replicate n b';')
semicolons-AllInner zero = tt
semicolons-AllInner (suc n) = (refl, semicolons-AllInner n)

ui_console_print-overflow_example :
    ui_console_print palette (27 ∷ replicate 65 b';' ++ codes "m") start ≡ none
ui_console_print-overflow_example =
    ui_console_print-overflow palette (replicate 65 b';') (codes "m") start (semicolons-AllInner 65)
      (omega arith)

abbrev color_of : Option Console → Color
color_of none = no_color
color_of (some s) = s.current_color

-- ESC[32m selects a colour, ESC[37m none
selected :
    (color_of (ui_console_print palette (27 ∷ codes "[32m") start) ≡ palette.term_colors 2)
    × (color_of (ui_console_print palette (27 ∷ codes "[37m") start) ≡ gray)
unfolding ui_console_print ui_console_begin
selected = (refl, refl)
