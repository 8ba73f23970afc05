-- ===== src/Console/Bounds.antt =====
-- Texts without escape sequences on the console (console.c).
use open_recovery.Base.{
  ℕ, suc, ◌+◌, ◌≡◌, ◌≢◌, inl, inr, refl, false, [], ◌∷◌, Option, none, some, Bytes, ltb, lt→ltb,
  ltb-eq-false, ◌==◌, ==_iff, Bool-cases, if◌then◌else◌, ℤ, pos, negsuc, ◌∙◌, subst, arith,
}
use open_recovery.Console.{
  Console, Color, no_color, Matrix, total_rows, and_then, backspace, put_one, scroll,
  console_put_char,
}
use open_recovery.Console.Escape.{Palette}
use open_recovery.Console.Print.{print_char, print_chars, take_reserve, ui_console_print}
use open_recovery.Console.Scrollback.{Terminal, put, Mirrors, Shows, Fits, ==_false}
use open_recovery.Console.Steps.{Puts, Next, put_one-Next, scroll-Next}

-- the matrix, with blank rows below
abbrev pub extended {ℓ} : {A : Type ℓ} → A → Matrix A → Matrix A
extended blank m i j = if ltb i total_rows then m i j else blank

abbrev pub terminal_of : Console → Terminal
terminal_of s = record {
  text = extended b' ' s.text_matrix;
  colors = extended no_color s.color_matrix;
  row = s.cur_row;
  column = s.cur_column;
}

unfoldable pub put_all : ℕ → Color → Bytes → Terminal → Terminal
unfolding put
put_all columns color [] u = u
put_all columns color (c ∷ cs) u = put_all columns color cs (put columns color c u)

pub and_then-Puts :
    (P Q : Console → Type 0) (o : Option Console) (f : Console → Option Console)
    → Puts P o
    → ((s : Console) → P s → Puts Q (f s))
    → Puts Q (and_then o f)
and_then-Puts P Q none f h g = absurd h
and_then-Puts P Q (some s) f h g = g s h

console_put_char-Next :
    (off c : ℕ) (s : Console) (u : Terminal)
    → Fits total_rows s
    → Shows off s u
    → c ≢ 8
    → Puts
        (λ s'. (off' : ℕ) × Next total_rows off' s s' (put s.screen_columns s.current_color c u))
        (console_put_char c s)
unfolding console_put_char
console_put_char-Next off c s u f k h =
    let u' = put s.screen_columns s.current_color c u in
    and_then-Puts (λ s'. Next (suc total_rows) off s s' u')
      (λ s'. (off' : ℕ) × Next total_rows off' s s' u') (put_one c s) scroll
      (put_one-Next off c s u f k h) (λ s' n. scroll-Next off s s' u' n)

extended-Mirrors :
    {A : Type 0} (columns : ℕ) (blank : A) (m : Matrix A)
    → Mirrors 0 columns blank m (extended blank m)
extended-Mirrors columns blank m = record {
  at = λ i j p q. rw (zero_add i, lt→ltb i total_rows p) refl;
  below = λ i j p q. rw (ltb-eq-false i total_rows (omega (arith, p))) refl;
}
  where
    zero_add : (i : ℕ) → 0 + i ≡ i
    zero_add i = omega arith

terminal_of-Shows : (s : Console) → Shows 0 s (terminal_of s)
terminal_of-Shows s = record {
  row = omega arith;
  column = refl;
  text = extended-Mirrors s.screen_columns b' ' s.text_matrix;
  colors = extended-Mirrors s.screen_columns no_color s.color_matrix;
}

abbrev pub IsPlain : Bytes → Type 0
IsPlain [] = Unit
IsPlain (c ∷ cs) = (c ≢ 8) × (c ≢ 27) × IsPlain cs

abbrev pub Shown : Terminal → Console → Type 0
Shown u s = Fits total_rows s × ((off : ℕ) × Shows off s u)

print_char_plain :
    (colors : Palette) (c : ℕ) (s : Console)
    → (c == 27) ≡ false
    → s.escaped_state ≡ false
    → print_char colors c s ≡ console_put_char c s
unfolding print_char
print_char_plain colors c s h e = rw (h, e) refl

print_chars-Shown :
    (colors : Palette) (text : Bytes) (off : ℕ) (s : Console) (u : Terminal)
    → Fits total_rows s
    → s.escaped_state ≡ false
    → Shows off s u
    → IsPlain text
    → Puts (Shown (put_all s.screen_columns s.current_color text u)) (print_chars colors text s)
unfolding print_chars put_all
print_chars-Shown colors [] off s u f e k h = (f, (off, k))
print_chars-Shown colors (c ∷ cs) off s u f e k h =
    rw (print_char_plain colors c s (==_false c 27 h.1) e) (
      and_then-Puts
        (λ s'. (off' : ℕ) × Next total_rows off' s s' (put s.screen_columns s.current_color c u))
        (Shown (put_all s.screen_columns s.current_color (c ∷ cs) u)) (console_put_char c s)
        (print_chars colors cs) (console_put_char-Next off c s u f k h.0)
        (λ s' (off', n).
          subst
            (λ (x : ℕ × Color).
              Puts (Shown (put_all x.0 x.1 cs (put s.screen_columns s.current_color c u)))
                (print_chars colors cs s'))
            (pair n.columns_kept n.color_kept)
            (print_chars-Shown colors cs off' s' (put s.screen_columns s.current_color c u) n.fits
              (n.state_kept ∙ e) n.shows h.2)))
  where
    pair : {a b : ℕ} {x y : Color} → a ≡ b → x ≡ y → ◌≡◌ {A = ℕ × Color} (a, x) (b, y)
    pair e e' = rw (e, e') refl

take_reserve-Shown : (r : ℤ) (u : Terminal) (s : Console) → Shown u s → Shown u (take_reserve r s)
take_reserve-Shown (pos n) u s (f, (off, k)) = (
  record { wide = f.wide; narrow = f.narrow; row = f.row; column = f.column },
  (off, record { row = k.row; column = k.column; text = k.text; colors = k.colors }),
)
take_reserve-Shown (negsuc n) u s (f, (off, k)) = (
  record { wide = f.wide; narrow = f.narrow; row = f.row; column = f.column },
  (off, record { row = k.row; column = k.column; text = k.text; colors = k.colors }),
)

-- Let the cursor stand in the matrix and on the screen, and let the text have no escape sequence and no
-- backspace. It is printed with no write outside of the matrix, and with the cursor in it again. The
-- matrix shows, from some row on, what the text makes of an endless terminal that began with it.
pub ui_console_print-Shown :
    (colors : Palette) (text : Bytes) (s : Console)
    → Fits total_rows s
    → s.escaped_state ≡ false
    → IsPlain text
    → Puts
        (Shown (put_all s.screen_columns s.current_color text (terminal_of s)))
        (ui_console_print colors text s)
unfolding ui_console_print
ui_console_print-Shown colors text s f e h =
    let P = Shown (put_all s.screen_columns s.current_color text (terminal_of s)) in
    and_then-Puts P P (print_chars colors text s)
      (λ s'. some (take_reserve s'.force_top_row_reserve s'))
      (print_chars-Shown colors text 0 s (terminal_of s) f e (terminal_of-Shows s) h)
      (λ s' k. take_reserve-Shown s'.force_top_row_reserve _ s' k)

backspace-Fits : (s : Console) → Fits total_rows s → Fits total_rows (backspace s)
backspace-Fits s f = elim (Bool-cases (s.cur_column == 0)) [
  | inl e ↦ elim (Bool-cases (s.cur_row == 0)) [
    | inl e' ↦ rw (e, e') f
    | inr e' ↦
        rw (e, e')
          (record {
            wide = f.wide;
            narrow = f.narrow;
            row = omega (arith, f.row);
            column = omega (arith, f.wide);
          })
  ]
  | inr e ↦
      rw (e)
        (record { wide = f.wide; narrow = f.narrow; row = f.row; column = omega (arith, f.column) })
]

-- what a character that is no escape keeps
abbrev pub Stays : Console → Type 0
Stays s = Fits total_rows s × (s.escaped_state ≡ false)

scroll-Stays : (s : Console) → Stays s → Puts Stays (scroll s)
unfolding scroll
scroll-Stays s (f, e) = rw (==_false s.cur_row total_rows (λ x. omega (arith, x, f.row))) (f, e)

put_one_back : (s : Console) → put_one 8 s ≡ some (backspace s)
unfolding put_one
put_one_back s = refl

backspace_state : (s : Console) → (backspace s).escaped_state ≡ s.escaped_state
backspace_state s = elim (Bool-cases (s.cur_column == 0)) [
  | inl e ↦ elim (Bool-cases (s.cur_row == 0)) [
    | inl e' ↦ rw (e, e') refl
    | inr e' ↦ rw (e, e') refl
  ]
  | inr e ↦ rw (e) refl
]

backspace-Stays : (s : Console) → Stays s → Puts Stays (console_put_char 8 s)
unfolding console_put_char
backspace-Stays s (f, e) =
    rw (put_one_back s) (scroll-Stays (backspace s) (backspace-Fits s f, backspace_state s ∙ e))

console_put_char-Stays : (c : ℕ) (s : Console) → Stays s → Puts Stays (console_put_char c s)
console_put_char-Stays c s (f, e) = elim (Bool-cases (c == 8)) [
  | inl h ↦ rw ((==_iff c 8).0 h) (backspace-Stays s (f, e))
  | inr h ↦ weaken (console_put_char c s) (
      console_put_char-Next 0 c s (terminal_of s) f (terminal_of-Shows s)
        (λ x. cc (h, (==_iff c 8).1 x)))
]
  where
    weaken :
        (o : Option Console)
        → Puts
            (λ s'.
              (off : ℕ) × Next total_rows off s s'
                (put s.screen_columns s.current_color c (terminal_of s)))
            o
        → Puts Stays o
    weaken none p = p
    weaken (some s') (off, n) = (n.fits, n.state_kept ∙ e)

abbrev pub NoEscape : Bytes → Type 0
NoEscape [] = Unit
NoEscape (c ∷ cs) = (c ≢ 27) × NoEscape cs

print_chars-Stays :
    (colors : Palette) (text : Bytes) (s : Console)
    → Stays s
    → NoEscape text
    → Puts Stays (print_chars colors text s)
unfolding print_chars
print_chars-Stays colors [] s k h = k
print_chars-Stays colors (c ∷ cs) s k h = rw (print_char_plain colors c s (==_false c 27 h.0) k.1) (
    and_then-Puts Stays Stays (console_put_char c s) (print_chars colors cs)
      (console_put_char-Stays c s k) (λ s' k'. print_chars-Stays colors cs s' k' h.1))

take_reserve-Stays : (r : ℤ) (s : Console) → Stays s → Stays (take_reserve r s)
take_reserve-Stays (pos n) s (f, e) =
    (record { wide = f.wide; narrow = f.narrow; row = f.row; column = f.column }, e)
take_reserve-Stays (negsuc n) s (f, e) =
    (record { wide = f.wide; narrow = f.narrow; row = f.row; column = f.column }, e)

-- Whatever text without escape sequences is printed, backspaces included, while the cursor stands in
-- the matrix and on the screen, there is no write outside of the matrix and the cursor stands there
-- afterwards.
pub ui_console_print-Stays :
    (colors : Palette) (text : Bytes) (s : Console)
    → Fits total_rows s
    → s.escaped_state ≡ false
    → NoEscape text
    → Puts Stays (ui_console_print colors text s)
unfolding ui_console_print
ui_console_print-Stays colors text s f e h =
    and_then-Puts Stays Stays (print_chars colors text s)
      (λ s'. some (take_reserve s'.force_top_row_reserve s'))
      (print_chars-Stays colors text s (f, e) h)
      (λ s' k. take_reserve-Stays s'.force_top_row_reserve s' k)
