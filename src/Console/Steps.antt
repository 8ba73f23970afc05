-- ===== src/Console/Steps.antt =====
-- What a character does to the console (console.c), beside the terminal that it shows.
use open_recovery.Base.{
  ℕ, suc, ◌+◌, ◌-◌, ◌≤◌, ◌<◌, ◌≡◌, ◌≢◌, inl, inr, refl, sym, ap, ◌∙◌, true, false, Option, none,
  some, ltb, leb, ◌==◌, ==_iff, Bool-cases, lt→ltb, if◌then◌else◌, ℤ, arith,
}
use open_recovery.Console.{
  Console, Color, no_color, Matrix, total_rows, buffer_rows, total_columns, fill_cells,
  blank_columns, tab_end, tab, put_cell, put_one, scroll,
}
use open_recovery.Console.Scrollback.{
  Terminal, put, Mirrors, Shows, Fits, ==_false, not_less, le→leb, lt→leb-false, not_le,
  fill_at-Mirrors, shift-Mirrors,
}

-- `P` of the result, which there is
abbrev pub Puts : (Console → Type 0) → Option Console → Type 0
Puts P none = ⊥
Puts P (some s) = P s

-- after a character: the terminal is shown from the row `off` on, and the rest is as it was
pub record Next (rows off : ℕ) (s s' : Console) (u : Terminal) : Type 0 where
  pub fits : Fits rows s'
  pub shows : Shows off s' u
  pub columns_kept : s'.screen_columns ≡ s.screen_columns
  pub color_kept : s'.current_color ≡ s.current_color
  pub state_kept : s'.escaped_state ≡ s.escaped_state

-- the cursor and the matrices are what can change
cursor-Next :
    (off : ℕ) (s : Console) (t : Matrix ℕ) (cs : Matrix Color) (row column : ℕ) (reserve : ℤ)
    (u : Terminal)
    → Fits total_rows s
    → row < suc total_rows
    → column + 1 < s.screen_columns
    → off + row ≡ u.row
    → column ≡ u.column
    → Mirrors off s.screen_columns b' ' t u.text
    → Mirrors off s.screen_columns no_color cs u.colors
    → Next
        (suc total_rows)
        off
        s
        (record s {
          text_matrix = t;
          color_matrix = cs;
          cur_row = row;
          cur_column = column;
          force_top_row_reserve = reserve;
        })
        u
cursor-Next off s t cs row column reserve u f row_fits column_fits row_shown column_shown text
      colors =
    record {
      fits = record { wide = f.wide; narrow = f.narrow; row = row_fits; column = column_fits };
      shows = record { row = row_shown; column = column_shown; text = text; colors = colors };
      columns_kept = refl;
      color_kept = refl;
      state_kept = refl;
    }

module _ (off : ℕ) (s : Console) (u : Terminal) (f : Fits total_rows s) (k : Shows off s u) where
  abbrev here_row : ltb s.cur_row total_rows ≡ true
  here_row = lt→ltb s.cur_row total_rows f.row

  blank_columns-fill :
      (to : ℕ)
      → to ≤ total_columns
      → s.cur_column < to
      → blank_columns s.cur_column to s
        ≡ some (record s { text_matrix = fill_cells s.cur_row s.cur_column to b' ' s.text_matrix })
  unfolding blank_columns
  blank_columns-fill to n l =
      rw (lt→leb-false to s.cur_column l, here_row, le→leb to total_columns n) refl

  tab-Next :
      Puts
        (λ s'. Next (suc total_rows) off s s' (
          if leb (s.screen_columns - 2) (tab_end u.column)
          then record u {
            text = fill_cells u.row u.column (s.screen_columns - 1) b' ' u.text;
            row = u.row + 1;
            column = 0;
          }
          else record u {
            text = fill_cells u.row u.column (tab_end u.column) b' ' u.text;
            column = tab_end u.column;
          }))
        (tab s)
  tab-Next =
      let text : (to to' : ℕ)
          → to ≡ to'
          → Mirrors off s.screen_columns b' '
              (fill_cells s.cur_row s.cur_column to b' ' s.text_matrix)
              (fill_cells u.row u.column to' b' ' u.text) =
        λ to to' e.
          fill_at-Mirrors s.screen_columns b' ' off s.cur_row u.row s.cur_column u.column to to'
            b' ' s.text_matrix u.text f.row k.row k.column e k.text in
      let same : tab_end s.cur_column ≡ tab_end u.column = ap (λ (x : ℕ). tab_end x) k.column in
      elim (Bool-cases (leb (s.screen_columns - 2) (tab_end s.cur_column))) [
        | inl e ↦
            rw
              (
                e,
                ap (λ (x : ℕ). leb (s.screen_columns - 2) x) (sym same) ∙ e,
                blank_columns-fill (s.screen_columns - 1) (omega (arith, f.narrow))
                    (omega (arith, f.column)),
              )
              (cursor-Next off s _ _ (s.cur_row + 1) 0 _ _ f (omega (arith, f.row))
                (omega (arith, f.wide)) (omega (arith, k.row)) refl
                (text (s.screen_columns - 1) (s.screen_columns - 1) refl) k.colors)
        | inr e ↦
            rw
              (
                e,
                ap (λ (x : ℕ). leb (s.screen_columns - 2) x) (sym same) ∙ e,
                blank_columns-fill (tab_end s.cur_column) (omega (arith, f.narrow, not_le _ _ e))
                    (omega arith),
              )
              (cursor-Next off s _ _ s.cur_row (tab_end s.cur_column) _ _ f (omega (arith, f.row))
                (omega (arith, not_le _ _ e)) k.row same (text _ _ same) k.colors)
      ]

  put_cell-Next :
      (c : ℕ)
      → Puts
          (λ s'. Next (suc total_rows) off s s' (
            let text = fill_cells u.row u.column (u.column + 1) c u.text in
            let colors = fill_cells u.row u.column (u.column + 1) s.current_color u.colors in
            if ltb (s.screen_columns - 2) (u.column + 1)
            then record u { text = text; colors = colors; row = u.row + 1; column = 0 }
            else record u { text = text; colors = colors; column = u.column + 1 }))
          (put_cell c s)
  put_cell-Next c =
      let text =
        fill_at-Mirrors s.screen_columns b' ' off s.cur_row u.row s.cur_column u.column
          (s.cur_column + 1) (u.column + 1) c s.text_matrix u.text f.row k.row k.column
          (ap (λ (x : ℕ). x + 1) k.column) k.text in
      let colors =
        fill_at-Mirrors s.screen_columns no_color off s.cur_row u.row s.cur_column u.column
          (s.cur_column + 1) (u.column + 1) s.current_color s.color_matrix u.colors f.row k.row
          k.column (ap (λ (x : ℕ). x + 1) k.column) k.colors in
      rw (here_row, lt→ltb s.cur_column total_columns (omega (arith, f.column, f.narrow)))
        (elim (Bool-cases (ltb (s.screen_columns - 2) (s.cur_column + 1))) [
          | inl e ↦
              rw (e, ap (λ (x : ℕ). ltb (s.screen_columns - 2) (x + 1)) (sym k.column) ∙ e)
                (cursor-Next off s _ _ (s.cur_row + 1) 0 _ _ f (omega (arith, f.row))
                  (omega (arith, f.wide)) (omega (arith, k.row)) refl text colors)
          | inr e ↦
              rw (e, ap (λ (x : ℕ). ltb (s.screen_columns - 2) (x + 1)) (sym k.column) ∙ e)
                (cursor-Next off s _ _ s.cur_row (s.cur_column + 1) _ _ f (omega (arith, f.row))
                  (omega (arith, f.wide, not_less _ _ e)) k.row (omega (arith, k.column)) text
                  colors)
        ])

-- one character, before the rows are moved
pub put_one-Next :
    (off c : ℕ) (s : Console) (u : Terminal)
    → Fits total_rows s
    → Shows off s u
    → c ≢ 8
    → Puts
        (λ s'. Next (suc total_rows) off s s' (put s.screen_columns s.current_color c u))
        (put_one c s)
unfolding put_one put
put_one-Next off c s u f k h = elim (Bool-cases (c == 10)) [
  | inl e ↦ rw (e) (
      cursor-Next off s _ _ (s.cur_row + 1) s.cur_column _ _ f (omega (arith, f.row)) f.column
        (omega (arith, k.row)) k.column k.text k.colors)
  | inr e ↦ elim (Bool-cases (c == 13)) [
    | inl e' ↦
        rw (e, e')
          (cursor-Next off s _ _ s.cur_row 0 _ _ f (omega (arith, f.row)) (omega (arith, f.wide))
            k.row refl k.text k.colors)
    | inr e' ↦ elim (Bool-cases (c == 9)) [
      | inl tabbed ↦ rw (e, e', tabbed) (tab-Next off s u f k)
      | inr e'' ↦ elim (Bool-cases (c == 7)) [
        | inl bell ↦
            rw (e, e', e'', ==_false c 8 h, bell)
              (cursor-Next off s _ _ s.cur_row s.cur_column _ _ f (omega (arith, f.row)) f.column
                k.row k.column k.text k.colors)
        | inr other ↦ rw (e, e', e'', ==_false c 8 h, other) (put_cell-Next off s u f k c)
      ]
    ]
  ]
]

-- the rows are moved where the cursor has left the matrix
pub scroll-Next :
    (off : ℕ) (s s' : Console) (u : Terminal)
    → Next (suc total_rows) off s s' u
    → Puts (λ s''. (off' : ℕ) × Next total_rows off' s s'' u) (scroll s')
unfolding scroll
scroll-Next off s s' u n = elim (Bool-cases (s'.cur_row == total_rows)) [
  | inl e ↦
      rw (e, le→leb s'.screen_columns total_columns n.fits.narrow)
        (
          off + buffer_rows,
          record {
            fits = record {
              wide = n.fits.wide;
              narrow = n.fits.narrow;
              row = omega (arith, n.fits.row);
              column = n.fits.column;
            };
            shows = record {
              row = omega (arith, n.shows.row, (==_iff s'.cur_row total_rows).0 e);
              column = n.shows.column;
              text = shift-Mirrors s'.screen_columns b' ' off 0 s'.text_matrix u.text n.shows.text;
              colors =
                  shift-Mirrors s'.screen_columns no_color off no_color s'.color_matrix u.colors
                    n.shows.colors;
            };
            columns_kept = n.columns_kept;
            color_kept = n.color_kept;
            state_kept = n.state_kept;
          },
        )
  | inr e ↦ rw (e) (
    off,
    record {
      fits = record {
        wide = n.fits.wide;
        narrow = n.fits.narrow;
        row = omega (arith, n.fits.row, not_full s'.cur_row e);
        column = n.fits.column;
      };
      shows = n.shows;
      columns_kept = n.columns_kept;
      color_kept = n.color_kept;
      state_kept = n.state_kept;
    },
  )
]
  where
    not_full : (r : ℕ) → (r == total_rows) ≡ false → r ≢ total_rows
    not_full r e f = cc (e, (==_iff r total_rows).1 f)
