-- ===== src/Console/Overflow.antt =====
-- Escape sequences that are longer than their buffer (console.c).
use open_recovery.Base.{
  ℕ, suc, ◌+◌, ◌≤◌, ◌<◌, ◌≡◌, inl, inr, refl, true, false, [], ◌∷◌, ◌++◌, none, some, Bytes, length,
  length-append, leb, ◌==◌, Bool-cases, arith,
}
use open_recovery.Console.{Console}
use open_recovery.Console.Scrollback.{not_le}
use open_recovery.Console.Escape.{Palette, is_inner, max_escaped, console_put_escape_sequence}
use open_recovery.Console.Print.{print_char, print_chars, ui_console_print}

abbrev pub AllInner : Bytes → Type 0
AllInner [] = Unit
AllInner (c ∷ cs) = (is_inner c ≡ true) × AllInner cs

inner_no_escape : (c : ℕ) → is_inner c ≡ true → (c == 27) ≡ false
inner_no_escape c h = ground arith

print_char_full :
    (colors : Palette) (c : ℕ) (s : Console)
    → s.escaped_state ≡ true
    → is_inner c ≡ true
    → leb max_escaped (length s.escaped_buffer) ≡ true
    → print_char colors c s ≡ none
unfolding print_char console_put_escape_sequence
print_char_full colors c s e h full = rw (inner_no_escape c h, e, full) refl

print_char_inner :
    (colors : Palette) (c : ℕ) (s : Console)
    → s.escaped_state ≡ true
    → is_inner c ≡ true
    → leb max_escaped (length s.escaped_buffer) ≡ false
    → print_char colors c s ≡ some (record s { escaped_buffer = s.escaped_buffer ++ (c ∷ []) })
unfolding print_char console_put_escape_sequence
print_char_inner colors c s e h room = rw (inner_no_escape c h, e, room, h) refl

print_chars-full :
    (colors : Palette) (text rest : Bytes) (s : Console)
    → s.escaped_state ≡ true
    → AllInner text
    → suc max_escaped ≤ length s.escaped_buffer + length text
    → length s.escaped_buffer ≤ max_escaped
    → print_chars colors (text ++ rest) s ≡ none
unfolding print_chars
print_chars-full colors [] rest s e h n m = absurd (omega arith)
print_chars-full colors (c ∷ cs) rest s e h n m =
    elim (Bool-cases (leb max_escaped (length s.escaped_buffer))) [
      | inl full ↦ rw (print_char_full colors c s e h.0 full) refl
      | inr room ↦
          let s' = record s { escaped_buffer = s.escaped_buffer ++ (c ∷ []) } in
          let longer = length-append s.escaped_buffer (c ∷ []) in
          rw (print_char_inner colors c s e h.0 room) (
            print_chars-full colors cs rest s' e h.1 (omega (arith, longer, n))
              (omega (arith, longer, not_le max_escaped (length s.escaped_buffer) room)))
    ]

-- An escape character that 65 or more brackets, question marks, semicolons and digits follow makes
-- ui_console_print write past the end of console_escaped_buffer, whatever stands behind them.
pub ui_console_print-overflow :
    (colors : Palette) (text rest : Bytes) (s : Console)
    → AllInner text
    → max_escaped < length text
    → ui_console_print colors (27 ∷ text ++ rest) s ≡ none
unfolding ui_console_print print_chars print_char
ui_console_print-overflow colors text rest s h n =
    rw
      (print_chars-full colors text rest (record s { escaped_state = true; escaped_buffer = [] })
        refl h (omega (arith, n)) (omega arith))
      refl
