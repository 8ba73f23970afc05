-- ===== src/Minzip/Contents/Feed.antt =====
-- Pieces that are passed on one after another (minzip/Zip.c), while there is room and beyond it.
use mathlib.Core.List.{append-nil, append_assoc}
use open_recovery.Base.{
  ℕ, zero, suc, ◌+◌, ◌≤◌, ◌<◌, ◌≡◌, refl, ap, ◌∙◌, subst, Bool, true, false, [], ◌∷◌, ◌++◌, Bytes,
  length-take, length-drop, length-append, length, take, drop, ◌==◌, arith,
}
use native.Mathlib.Decide.{dec_le}
use open_recovery.Minzip.Contents.{Run, finished, ◌>>=◌, Process, buf_size, min}
use open_recovery.Minzip.Contents.Stored.{feed, min_le, min_pos, take-append-drop}

min_top : (a b : ℕ) → min a b ≤ b
min_top a b = ground arith

not_empty : (n : ℕ) → (suc n == 0) ≡ false
not_empty n = ground arith

module _ {S : Type 0} (process : Process S) (P : Bytes → S → Type 0) (limit : ℕ)
    (step : (seen piece : Bytes) (s : S)
      → 0 < length piece
      → length piece ≤ buf_size
      → length seen + length piece ≤ limit
      → P seen s
      → (s' : S) × (process piece s ≡ finished (true, s')) × P (seen ++ piece) s') where
  -- the pieces are taken as long as there is room for them
  pub feed-all :
      (rounds : ℕ) (bytes seen : Bytes) (s : S)
      → length bytes ≤ rounds
      → length seen + length bytes ≤ limit
      → P seen s
      → (s' : S) × (feed process rounds bytes s ≡ finished (true, s')) × P (seen ++ bytes) s'
  unfolding feed
  feed-all zero [] seen s l h p = (s, refl, rw (append-nil seen) p)
  feed-all (suc rounds) [] seen s l h p = (s, refl, rw (append-nil seen) p)
  feed-all zero (b ∷ bs) seen s l h p = absurd (omega arith)
  feed-all (suc rounds) (b ∷ bs) seen s l h p =
      let m = min (length (b ∷ bs)) buf_size in
      let size = length-take m (b ∷ bs) (min_le (length (b ∷ bs)) buf_size) in
      let pos = min_pos (length (b ∷ bs)) (omega arith) in
      let left = length-drop m (b ∷ bs) in
      let (s₁, run₁, p₁) =
        step seen (take m (b ∷ bs)) s (omega (arith, size, pos))
          (omega (arith, size, min_top (length (b ∷ bs)) buf_size))
          (omega (arith, size, min_le (length (b ∷ bs)) buf_size, h)) p in
      let (s₂, run₂, p₂) =
        feed-all rounds (drop m (b ∷ bs)) (seen ++ take m (b ∷ bs)) s₁ (omega (arith, left, pos, l))
          (omega (
            arith,
            length-append seen (take m (b ∷ bs)),
            size,
            left,
            h,
            min_le (length (b ∷ bs)) buf_size,
          ))
          p₁ in
      (
        s₂,
        rw (not_empty (length bs), run₁) run₂,
        subst (λ xs. P xs s₂)
            (append_assoc seen (take m (b ∷ bs)) (drop m (b ∷ bs))
              ∙ ap (λ xs. seen ++ xs) (take-append-drop m (b ∷ bs)))
            p₂,
      )

  -- the piece for which there is no room is where it ends
  module _ (Over : Run (Bool × S) → Type 0)
      (over : (x : Run (Bool × S)) (more : S → Run (Bool × S))
        → Over x
        → Over (x >>= λ r. elim r.0 [ false ↦ finished (false, r.1) | true ↦ more r.1 ]))
      (beyond : (seen piece : Bytes) (s : S)
        → limit < length seen + length piece
        → P seen s
        → Over (process piece s)) where
    pub feed-over :
        (rounds : ℕ) (bytes seen : Bytes) (s : S)
        → length bytes ≤ rounds
        → length seen ≤ limit
        → limit < length seen + length bytes
        → P seen s
        → Over (feed process rounds bytes s)
    unfolding feed
    feed-over rounds [] seen s l i h p = absurd (omega arith)
    feed-over zero (b ∷ bs) seen s l i h p = absurd (omega arith)
    feed-over (suc rounds) (b ∷ bs) seen s l i h p =
        let m = min (length (b ∷ bs)) buf_size in
        let size = length-take m (b ∷ bs) (min_le (length (b ∷ bs)) buf_size) in
        let pos = min_pos (length (b ∷ bs)) (omega arith) in
        let left = length-drop m (b ∷ bs) in
        elim (dec_le (length seen + m) limit) [
          | no full ↦ rw (not_empty (length bs)) (
              over (process (take m (b ∷ bs)) s) (λ s₁. feed process rounds (drop m (b ∷ bs)) s₁)
                (beyond seen (take m (b ∷ bs)) s (omega (arith, full, size)) p))
          | yes room ↦
              let (s₁, run₁, p₁) =
                step seen (take m (b ∷ bs)) s (omega (arith, size, pos))
                  (omega (arith, size, min_top (length (b ∷ bs)) buf_size))
                  (omega (arith, size, room)) p in
              rw (not_empty (length bs), run₁)
                (feed-over rounds (drop m (b ∷ bs)) (seen ++ take m (b ∷ bs)) s₁
                  (omega (arith, left, pos, l))
                  (omega (arith, length-append seen (take m (b ∷ bs)), size, room))
                  (omega (
                    arith,
                    length-append seen (take m (b ∷ bs)),
                    size,
                    left,
                    h,
                    min_le (length (b ∷ bs)) buf_size,
                  ))
                  p₁)
        ]
