-- ===== src/Minzip/Contents/Stored.antt =====
-- processStoredEntry (minzip/Zip.c): a stored entry is passed on piece by piece.
use open_recovery.Base.{
  ℕ, zero, suc, ◌+◌, ◌-◌, ◌^◌, ◌≤◌, ◌<◌, ◌≡◌, inl, inr, refl, sym, ap, ◌∙◌, Bool, true, false, [],
  ◌∷◌, ◌++◌, some, Bytes, length-take, length-drop, length, take, drop, ◌==◌, ==_iff, Bool-cases,
  if◌then◌else◌, arith,
}
use open_recovery.Minzip.Zip.{ZipEntry}
use open_recovery.Minzip.Contents.{
  Run, finished, outside, endless, ◌>>=◌, Descriptor, Zlib, Process, buf_size, min,
  process_stored_entry, mz_process_zip_entry_contents,
}

drop_nil : (n : ℕ) → drop {A = ℕ} n [] ≡ []
drop_nil zero = refl
drop_nil (suc n) = refl

take_nil : (n : ℕ) → take {A = ℕ} n [] ≡ []
take_nil zero = refl
take_nil (suc n) = refl

drop_zero : (xs : Bytes) → drop 0 xs ≡ xs
drop_zero [] = refl
drop_zero (x ∷ xs) = refl

pub drop-drop : (m n k : ℕ) (xs : Bytes) → n + m ≡ k → drop m (drop n xs) ≡ drop k xs
drop-drop m zero k xs e = let one : m ≡ k = omega (arith, e) in rw (drop_zero xs, one) refl
drop-drop m (suc n) k [] e = rw (drop_nil m, drop_nil k) refl
drop-drop m (suc n) zero (x ∷ xs) e = absurd (omega arith)
drop-drop m (suc n) (suc k) (x ∷ xs) e = drop-drop m n k xs (omega (arith, e))

pub drop-take : (m n k : ℕ) (xs : Bytes) → n ≡ m + k → drop m (take n xs) ≡ take k (drop m xs)
drop-take zero n k xs e =
    let one : n ≡ k = omega (arith, e) in rw (drop_zero (take n xs), drop_zero xs, one) refl
drop-take (suc m) zero k xs e = absurd (omega (arith, e))
drop-take (suc m) (suc n) k [] e = sym (take_nil k)
drop-take (suc m) (suc n) k (x ∷ xs) e = drop-take m n k xs (omega (arith, e))

pub take-take : (m n : ℕ) (xs : Bytes) → m ≤ n → take m (take n xs) ≡ take m xs
take-take zero n xs h = refl
take-take (suc m) zero xs h = absurd (omega arith)
take-take (suc m) (suc n) [] h = refl
take-take (suc m) (suc n) (x ∷ xs) h = ap (λ t. x ∷ t) (take-take m n xs (omega arith))

pub take-append-drop : (n : ℕ) (xs : Bytes) → take n xs ++ drop n xs ≡ xs
take-append-drop zero xs = drop_zero xs
take-append-drop (suc n) [] = refl
take-append-drop (suc n) (x ∷ xs) = ap (λ t. x ∷ t) (take-append-drop n xs)

pub min_le : (a b : ℕ) → min a b ≤ a
min_le a b = ground arith

pub min_pos : (a : ℕ) → 0 < a → 0 < min a buf_size
min_pos a h = ground arith

-- The descriptor of a file that holds the bytes: read returns what is left, as far as it was asked for,
-- and lseek goes where a long says.
pub record Holds (d : Descriptor) (file : Bytes) : Type 0 where
  pub reads : (n : ℕ) (w : d.World) → (d.read n w).0 ≡ some (take n (drop (d.tell w) file))
  pub moves :
      (n : ℕ) (w : d.World)
      → d.tell (d.read n w).1 ≡ d.tell w + length (take n (drop (d.tell w) file))
  pub seeks : (n : ℕ) (w : d.World) → n < 2 ^ 31 → d.tell (d.seek n w) ≡ n

-- a stored entry whose bytes are all in the file
pub record StoredIn (file : Bytes) (e : ZipEntry) : Type 0 where
  pub is_stored : e.compression ≡ 0
  pub offset_low : e.offset < 2 ^ 31
  pub inside : e.offset + e.comp_len ≤ length file

-- the pieces of the bytes one after another
unfoldable pub feed : {S : Type 0} → Process S → ℕ → Bytes → S → Run (Bool × S)
feed process zero bytes s = if length bytes == 0 then finished (true, s) else endless
feed process (suc rounds) bytes s =
    if length bytes == 0
    then finished (true, s)
    else (process (take (min (length bytes) buf_size) bytes) s >>= λ r. elim r.0 [
      | false ↦ finished (false, r.1)
      | true ↦ feed process rounds (drop (min (length bytes) buf_size) bytes) r.1
    ])

-- what is returned and the cookie
abbrev pub forget : {W S : Type 0} → Run (Bool × (W × S)) → Run (Bool × S)
forget (finished r) = finished (r.0, r.1.1)
forget outside = outside
forget endless = endless

forget_bind :
    {W S : Type 0} (x : Run (Bool × S)) (f : Bool × S → Run (Bool × (W × S)))
    (g : Bool × S → Run (Bool × S))
    → ((r : Bool × S) → forget (f r) ≡ g r)
    → forget (x >>= f) ≡ (x >>= g)
forget_bind (finished r) f g h = h r
forget_bind outside f g h = refl
forget_bind endless f g h = refl

module _ (d : Descriptor) (zlib : Zlib) {S : Type 0} (process : Process S) (file : Bytes)
    (holds : Holds d file) where
  process_stored_entry-feed :
      (rounds : ℕ) (bytes : Bytes) (w : d.World) (s : S)
      → take (length bytes) (drop (d.tell w) file) ≡ bytes
      → forget (process_stored_entry d zlib process rounds (length bytes) w s)
        ≡ feed process rounds bytes s
  unfolding process_stored_entry feed
  process_stored_entry-feed zero bytes w s e = elim (Bool-cases (length bytes == 0)) [
    | inl none_left ↦ rw (none_left) refl
    | inr some_left ↦ rw (some_left) refl
  ]
  process_stored_entry-feed (suc rounds) bytes w s e = elim (Bool-cases (length bytes == 0)) [
    | inl none_left ↦ rw (none_left) refl
    | inr some_left ↦
        let m = min (length bytes) buf_size in
        let l = min_le (length bytes) buf_size in
        let piece : take m (drop (d.tell w) file) ≡ take m bytes =
          sym (take-take m (length bytes) (drop (d.tell w) file) l) ∙ ap (take m) e in
        let size = length-take m bytes l in
        let same : (length (take m bytes) == m) ≡ true =
          (==_iff (length (take m bytes)) m).1 size in
        let there = holds.reads m w ∙ ap some piece in
        let moved : d.tell (d.read m w).1 ≡ d.tell w + m =
          holds.moves m w ∙ ap (λ b. d.tell w + length b) piece ∙ ap (λ n. d.tell w + n) size in
        let rest : take (length (drop m bytes)) (drop (d.tell (d.read m w).1) file) ≡ drop m bytes =
          rest_there m (d.tell w) (d.tell (d.read m w).1) bytes l moved e in
        rw (some_left, there, same)
          (forget_bind (process (take m bytes) s)
            (λ r. elim r.0 [
              | false ↦ finished (false, ((d.read m w).1, r.1))
              | true ↦
                  process_stored_entry d zlib process rounds (length bytes - m) (d.read m w).1 r.1
            ])
            (λ r. elim r.0 [
              | false ↦ finished (false, r.1)
              | true ↦ feed process rounds (drop m bytes) r.1
            ])
            (λ r. elim (Bool-cases r.0) [
              | inr stop ↦ rw (stop) refl
              | inl ok ↦ rw (ok) (
                  rw (length-drop m bytes) at
                    (process_stored_entry-feed rounds (drop m bytes) (d.read m w).1 r.1 rest))
            ]))
  ]
    where
      rest_there :
          (m t t' : ℕ) (bytes : Bytes)
          → m ≤ length bytes
          → t' ≡ t + m
          → take (length bytes) (drop t file) ≡ bytes
          → take (length (drop m bytes)) (drop t' file) ≡ drop m bytes
      rest_there m t t' bytes l moved e =
          ap (λ xs. take (length (drop m bytes)) xs) (sym (drop-drop m t t' file (sym moved)))
          ∙ sym (
              drop-take m (length bytes) (length (drop m bytes)) (drop t file)
                (omega (arith, l, length-drop m bytes)))
          ∙ ap (drop m) e

  pub mz_process_zip_entry_contents-feed :
      (rounds : ℕ) (e : ZipEntry) (w : d.World) (s : S)
      → StoredIn file e
      → forget (mz_process_zip_entry_contents d zlib process rounds e w s)
        ≡ feed process rounds (take e.comp_len (drop e.offset file)) s
  unfolding mz_process_zip_entry_contents
  mz_process_zip_entry_contents-feed rounds e w s h =
      let bytes = take e.comp_len (drop e.offset file) in
      let size : length bytes ≡ e.comp_len =
        length-take e.comp_len (drop e.offset file)
          (omega (arith, h.inside, length-drop e.offset file)) in
      let there : take (length bytes) (drop (d.tell (d.seek e.offset w)) file) ≡ bytes =
        ap (λ n. take n (drop (d.tell (d.seek e.offset w)) file)) size
        ∙ ap (λ n. take e.comp_len (drop n file)) (holds.seeks e.offset w h.offset_low) in
      rw (h.is_stored) (
        forget_end (process_stored_entry d zlib process rounds e.comp_len (d.seek e.offset w) s)
          (d.seek (d.tell w))
        ∙ ap (λ n. forget (process_stored_entry d zlib process rounds n (d.seek e.offset w) s))
            (sym size)
        ∙ process_stored_entry-feed rounds bytes (d.seek e.offset w) s there)
    where
      forget_end :
          {W : Type 0} (x : Run (Bool × (W × S))) (f : W → W)
          → forget (x >>= λ r. finished (r.0, (f r.1.0, r.1.1))) ≡ forget x
      forget_end (finished r) f = refl
      forget_end outside f = refl
      forget_end endless f = refl
