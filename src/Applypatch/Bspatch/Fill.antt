-- ===== src/Applypatch/Bspatch/Fill.antt =====
-- FillBuffer of applypatch/bspatch.c.
use open_recovery.Base.{
  ℕ, zero, suc, ◌+◌, ◌-◌, ◌≤◌, ◌<◌, ◌≡◌, ◌≢◌, refl, ap, sym, ◌∙◌, [], ◌∷◌, ◌++◌, Bytes, length,
  length-append, take, drop, arith,
}
use open_recovery.Applypatch.Bspatch.{Decompressor, produced, filled, prepend, fill_buffer}

take-append :
    (n : ℕ) (xs ys : Bytes) → length xs ≤ n → take n (xs ++ ys) ≡ xs ++ take (n - length xs) ys
take-append n [] ys h = ap (λ m. take m ys) (omega arith)
take-append zero (x ∷ xs) ys h = absurd (omega arith)
take-append (suc n) (x ∷ xs) ys h =
    ap (λ t. x ∷ t) (take-append n xs ys (omega arith) ∙ ap (λ m. xs ++ take m ys) (omega arith))

drop-append : (n : ℕ) (xs ys : Bytes) → length xs ≤ n → drop n (xs ++ ys) ≡ drop (n - length xs) ys
drop-append n [] ys h = ap (λ m. drop m ys) (omega arith)
drop-append zero (x ∷ xs) ys h = absurd (omega arith)
drop-append (suc n) (x ∷ xs) ys h =
    drop-append n xs ys (omega arith) ∙ ap (λ m. drop m ys) (omega arith)

pub pos_length : (xs : Bytes) → xs ≢ [] → 0 < length xs
pos_length [] h = absurd (h refl)
pos_length (x ∷ xs) h = omega arith

pub nonempty : (xs : Bytes) → 0 < length xs → xs ≢ []
nonempty [] h e = absurd (omega arith)
nonempty (x ∷ xs) h e = cc

module _ (bz : Decompressor) where
  open bz use {Stream, decompress, content, gives}

  fill_round :
      (fuel n : ℕ) (s s' : Stream) (chunk : Bytes)
      → decompress s (suc n) ≡ produced chunk s'
      → fill_buffer bz (suc fuel) s (suc n)
        ≡ prepend chunk (fill_buffer bz fuel s' (suc n - length chunk))
  unfolding fill_buffer
  fill_round fuel n s s' chunk e = ground arith

  -- With as many rounds as bytes, the buffer is filled with the next bytes of the stream.
  pub fill_buffer-content :
      (fuel : ℕ) (s : Stream) (size : ℕ)
      → size ≤ fuel
      → size ≤ length (content s)
      → (s' : Stream) × (fill_buffer bz fuel s size ≡ filled (take size (content s)) s')
        × (content s' ≡ drop size (content s))
  unfolding fill_buffer
  fill_buffer-content zero s zero h k = (s, refl, refl)
  fill_buffer-content zero s (suc n) h k = absurd (omega arith)
  fill_buffer-content (suc fuel) s zero h k = (s, refl, refl)
  fill_buffer-content (suc fuel) s (suc n) h k =
      let (chunk, s₁, run, some_bytes, room, split) =
        gives s (suc n) (omega arith) (nonempty (content s) (omega arith)) in
      let long : length (content s) ≡ length chunk + length (content s₁) =
        ap (λ (b : Bytes). length b) split ∙ length-append chunk (content s₁) in
      let more = pos_length chunk some_bytes in
      let (s₂, fills, rest) =
        fill_buffer-content fuel s₁ (suc n - length chunk) (omega arith) (omega arith) in
      (
        s₂,
        fill_round fuel n s s₁ chunk run
            ∙ ap (prepend chunk) fills
            ∙ ap (λ b. filled b s₂)
                (sym (take-append (suc n) chunk (content s₁) room) ∙ ap (take (suc n)) (sym split)),
        rest ∙ sym (drop-append (suc n) chunk (content s₁) room) ∙ ap (drop (suc n)) (sym split),
      )
