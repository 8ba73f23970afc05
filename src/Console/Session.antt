-- ===== src/Console/Session.antt =====
-- Sessions of the console (console.c): texts and scrolling, in any order, after ui_console_begin.
use open_recovery.Base.{ℕ, ◌≤◌, refl, List, [], ◌∷◌, Option, some, Bytes, arith}
use open_recovery.Console.{Console, and_then, total_columns}
use open_recovery.Console.Escape.{Palette}
use open_recovery.Console.Print.{
  ui_console_print, ui_console_scroll_up, ui_console_scroll_down, ui_console_begin,
}
use open_recovery.Console.Steps.{Puts}
use open_recovery.Console.Bounds.{and_then-Puts, Stays, NoEscape, ui_console_print-Stays}

pub data Event : Type 0 where
  prints : Bytes → Event
  scrolls_up scrolls_down : ℕ → Event

abbrev pub happen : Palette → Event → Console → Option Console
happen colors (prints text) s = ui_console_print colors text s
happen colors (scrolls_up n) s = some (ui_console_scroll_up n s)
happen colors (scrolls_down n) s = some (ui_console_scroll_down n s)

unfoldable pub session : Palette → List Event → Console → Option Console
session colors [] s = some s
session colors (e ∷ es) s = and_then (happen colors e s) (session colors es)

abbrev pub HasNoEscape : List Event → Type 0
HasNoEscape [] = Unit
HasNoEscape (prints text ∷ es) = NoEscape text × HasNoEscape es
HasNoEscape (scrolls_up n ∷ es) = HasNoEscape es
HasNoEscape (scrolls_down n ∷ es) = HasNoEscape es

scroll_up-Stays : (n : ℕ) (s : Console) → Stays s → Stays (ui_console_scroll_up n s)
unfolding ui_console_scroll_up
scroll_up-Stays n s (f, e) =
    (record { wide = f.wide; narrow = f.narrow; row = f.row; column = f.column }, e)

scroll_down-Stays : (n : ℕ) (s : Console) → Stays s → Stays (ui_console_scroll_down n s)
unfolding ui_console_scroll_down
scroll_down-Stays n s (f, e) =
    (record { wide = f.wide; narrow = f.narrow; row = f.row; column = f.column }, e)

session-Stays :
    (colors : Palette) (events : List Event) (s : Console)
    → HasNoEscape events
    → Stays s
    → Puts Stays (session colors events s)
unfolding session
session-Stays colors [] s h k = k
session-Stays colors (prints text ∷ es) s h k =
    and_then-Puts Stays Stays (ui_console_print colors text s) (session colors es)
      (ui_console_print-Stays colors text s k.0 k.1 h.0)
      (λ s' k'. session-Stays colors es s' h.1 k')
session-Stays colors (scrolls_up n ∷ es) s h k =
    session-Stays colors es (ui_console_scroll_up n s) h (scroll_up-Stays n s k)
session-Stays colors (scrolls_down n ∷ es) s h k =
    session-Stays colors es (ui_console_scroll_down n s) h (scroll_down-Stays n s k)

begin-Stays :
    (colors : Palette) (rows columns : ℕ) (s : Console)
    → 2 ≤ columns
    → columns ≤ total_columns
    → Stays (ui_console_begin colors rows columns s)
unfolding ui_console_begin
begin-Stays colors rows columns s wide narrow =
    (record { wide = wide; narrow = narrow; row = omega arith; column = omega (arith, wide) }, refl)

-- A session on a screen of 2 to 128 columns, the last for the terminator, is begun in any state; then
-- texts without escape sequences, backspaces included, are printed and the rows are scrolled, in any
-- order. There is no write outside of the matrix, and in the end the cursor stands in it and on the
-- screen.
pub ui_console_begin-session :
    (colors : Palette) (rows columns : ℕ) (events : List Event) (s : Console)
    → 2 ≤ columns
    → columns ≤ total_columns
    → HasNoEscape events
    → Puts Stays (session colors events (ui_console_begin colors rows columns s))
ui_console_begin-session colors rows columns events s wide narrow h =
    session-Stays colors events (ui_console_begin colors rows columns s) h
      (begin-Stays colors rows columns s wide narrow)
