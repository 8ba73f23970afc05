-- ===== src/Console/Scrollback.antt =====
-- The console (console.c) as a terminal whose rows never end: what the matrices show of it.
use open_recovery.Base.{
  ℕ, ◌+◌, ◌-◌, ◌≤◌, ◌<◌, ◌≡◌, ◌≢◌, inl, inr, refl, sym, ap, ◌∙◌, true, false, ltb, leb, ◌==◌,
  ==_iff, Bool-cases, lt→ltb, ltb→lt, if◌then◌else◌, arith,
}
use open_recovery.Console.{
  Console, Color, no_color, Matrix, total_rows, buffer_rows, total_columns, fill_cells, shift_rows,
  tab_end,
}

-- the terminal: every row that there has been, and the cursor
pub record Terminal : Type 0 where
  pub text : Matrix ℕ
  pub colors : Matrix Color
  pub row : ℕ
  pub column : ℕ

-- a character of a terminal with so many columns, the last of which is not used, in a colour
unfoldable pub put : ℕ → Color → ℕ → Terminal → Terminal
unfolding fill_cells
put columns color c u =
    if c == 10
    then record u { row = u.row + 1 }
    else if c == 13
    then record u { column = 0 }
    else if c == 9
    then (if leb (columns - 2) (tab_end u.column)
        then record u {
          text = fill_cells u.row u.column (columns - 1) b' ' u.text;
          row = u.row + 1;
          column = 0;
        }
        else record u {
          text = fill_cells u.row u.column (tab_end u.column) b' ' u.text;
          column = tab_end u.column;
        })
    else if c == 7
    then u
    else (let text = fill_cells u.row u.column (u.column + 1) c u.text in
        let colors = fill_cells u.row u.column (u.column + 1) color u.colors in
        if ltb (columns - 2) (u.column + 1)
        then record u { text = text; colors = colors; row = u.row + 1; column = 0 }
        else record u { text = text; colors = colors; column = u.column + 1 })

-- A matrix is the rows of another from `off` on, and below these all is blank.
pub record Mirrors {ℓ} {A : Type ℓ} (off columns : ℕ) (blank : A) (m u : Matrix A) : Type ℓ where
  pub at : (i j : ℕ) → i < total_rows → j + 1 < columns → m i j ≡ u (off + i) j
  pub below : (i j : ℕ) → off + total_rows ≤ i → j + 1 < columns → u i j ≡ blank

pub record Shows (off : ℕ) (s : Console) (u : Terminal) : Type 0 where
  pub row : off + s.cur_row ≡ u.row
  pub column : s.cur_column ≡ u.column
  pub text : Mirrors off s.screen_columns b' ' s.text_matrix u.text
  pub colors : Mirrors off s.screen_columns no_color s.color_matrix u.colors

-- the cursor is in the first `rows` rows and not in the last column of the screen
pub record Fits (rows : ℕ) (s : Console) : Type 0 where
  pub wide : 2 ≤ s.screen_columns
  pub narrow : s.screen_columns ≤ total_columns
  pub row : s.cur_row < rows
  pub column : s.cur_column + 1 < s.screen_columns

pub ==_false : (a b : ℕ) → a ≢ b → (a == b) ≡ false
==_false a b h = elim (Bool-cases (a == b)) [ inl e ↦ absurd (h ((==_iff a b).0 e)) | inr e ↦ e ]

pub ==_shift : (off a b : ℕ) → (off + a == off + b) ≡ (a == b)
==_shift off a b = elim (Bool-cases (a == b)) [
  | inl e ↦ (==_iff (off + a) (off + b)).1 (ap (λ (x : ℕ). off + x) ((==_iff a b).0 e)) ∙ sym e
  | inr e ↦ ==_false (off + a) (off + b) (λ f. cc (e, (==_iff a b).1 (omega (arith, f)))) ∙ sym e
]

pub not_less : (a b : ℕ) → ltb a b ≡ false → b ≤ a
not_less a b h = ground arith

pub le→leb : (a b : ℕ) → a ≤ b → leb a b ≡ true
le→leb a b h = ground arith

pub lt→leb-false : (a b : ℕ) → b < a → leb a b ≡ false
lt→leb-false a b h = ground arith

pub not_le : (a b : ℕ) → leb a b ≡ false → b < a
not_le a b h = ground arith

module _ {ℓ} {A : Type ℓ} (columns : ℕ) (blank : A) where
  fill-Mirrors :
      (off row from to : ℕ) (v : A) (m u : Matrix A)
      → row < total_rows
      → Mirrors off columns blank m u
      → Mirrors off columns blank (fill_cells row from to v m) (fill_cells (off + row) from to v u)
  unfolding fill_cells
  fill-Mirrors off row from to v m u h k = record {
    at = λ i j p q. rw (==_shift off i row, k.at i j p q) refl;
    below =
        λ i j p q. rw (==_false i (off + row) (λ e. omega (arith, e, p, h)), k.below i j p q) refl;
  }

  pub fill_at-Mirrors :
      (off row row' from from' to to' : ℕ) (v : A) (m u : Matrix A)
      → row < total_rows
      → off + row ≡ row'
      → from ≡ from'
      → to ≡ to'
      → Mirrors off columns blank m u
      → Mirrors off columns blank (fill_cells row from to v m) (fill_cells row' from' to' v u)
  fill_at-Mirrors off row row' from from' to to' v m u h e e' e'' k =
      rw (← e, ← e', ← e'') (fill-Mirrors off row from to v m u h k)

  pub shift-Mirrors :
      (off : ℕ) (last : A) (m u : Matrix A)
      → Mirrors off columns blank m u
      → Mirrors (off + buffer_rows) columns blank (shift_rows columns blank last m) u
  unfolding shift_rows
  shift-Mirrors off last m u k = record {
    at = λ i j p q.
        rw (lt→ltb j columns (omega arith)) (elim (Bool-cases (ltb i (total_rows - buffer_rows))) [
          | inl e ↦ rw (e) (
              k.at (i + buffer_rows) j (omega (arith, ltb→lt i (total_rows - buffer_rows) e)) q
              ∙ ap (λ (r : ℕ). u r j) (omega arith))
          | inr e ↦
              rw (e, ==_false j (columns - 1) (λ f. omega (arith, f, q)))
                (sym (
                  k.below (off + buffer_rows + i) j
                    (omega (arith, not_less i (total_rows - buffer_rows) e)) q))
        ]);
    below = λ i j p q. k.below i j (omega (arith, p)) q;
  }
