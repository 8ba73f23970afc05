-- ===== src/Retouch/Safe.antt =====
-- retouch_mask_data (minelf/Retouch.c) on files of any contents.
use open_recovery.Base.{
  ℕ, zero, suc, ◌+◌, ◌-◌, ◌*◌, ◌/◌, ◌%◌, ◌^◌, ◌≤◌, ◌<◌, ◌≡◌, ◌⊎◌, inl, inr, refl, ◌∙◌, Bool, true,
  false, [], ◌∷◌, ◌++◌, Option, none, some, Bytes, length, take, drop, length-append, length-take,
  length-drop, ltb, leb, ltb→lt, ltb-eq-false, subst, Bool-cases, Option-cases, arith,
}
use open_recovery.Retouch.{Decoder, init_compression_state, by_size, decode_in_memory}
use open_recovery.Retouch.Mask.{
  Masking, ended, fault, never, word_at, word_bytes, set_word, has_tags, retouch_at, after_loop,
  place_of, mask_loop, untouched, retouch_mask_data,
}

-- the function returns, and the object has `n` bytes
abbrev pub Ends : ℕ → Masking → Type 0
Ends n (ended kind offset object) = length object ≡ n
Ends n fault = ⊥
Ends n never = ⊥

le→leb : (a b : ℕ) → a ≤ b → leb a b ≡ true
le→leb a b h = ground arith

not_less : (a b : ℕ) → ltb a b ≡ false → b ≤ a
not_less a b h = ground arith

word_there :
    (bs : Bytes) (offset : ℕ) → offset + 4 ≤ length bs → (v : ℕ) × (word_at bs offset ≡ some v)
unfolding word_at
word_there bs offset h = four (drop offset bs) (omega (arith, h, length-drop offset bs))
  where
    four :
        (xs : Bytes)
        → 4 ≤ length xs
        → (v : ℕ) × ((elim xs [
          | [] ↦ none
          | b0 ∷ [] ↦ none
          | b0 ∷ b1 ∷ [] ↦ none
          | b0 ∷ b1 ∷ b2 ∷ [] ↦ none
          | b0 ∷ b1 ∷ b2 ∷ b3 ∷ r ↦ some (b0 + b1 * 2 ^ 8 + b2 * 2 ^ 16 + b3 * 2 ^ 24)
        ])
            ≡ some v)
    four [] l = absurd (omega arith)
    four (b0 ∷ []) l = absurd (omega arith)
    four (b0 ∷ b1 ∷ []) l = absurd (omega arith)
    four (b0 ∷ b1 ∷ b2 ∷ []) l = absurd (omega arith)
    four (b0 ∷ b1 ∷ b2 ∷ b3 ∷ r) l = (_, refl)

-- an entry is there where eight bytes are, and takes two to eight of them
by_size-takes :
    (d : Decoder) (short long : Bool) (b0 b1 b2 b3 b4 b5 b6 b7 : ℕ) (bs : Bytes)
    → (rest : Bytes) × (d' : Decoder) × (by_size d short long b0
          (b1 ∷ b2 ∷ b3 ∷ b4 ∷ b5 ∷ b6 ∷ b7 ∷ bs)
        ≡ some (rest, d'))
      × (suc (length rest) ≤ suc (suc (suc (suc (suc (suc (suc (length bs))))))))
by_size-takes d true long b0 b1 b2 b3 b4 b5 b6 b7 bs = (_, _, refl, omega arith)
by_size-takes d false true b0 b1 b2 b3 b4 b5 b6 b7 bs = (_, _, refl, omega arith)
by_size-takes d false false b0 b1 b2 b3 b4 b5 b6 b7 bs = (_, _, refl, omega arith)

decode_in_memory-takes :
    (d : Decoder) (bs : Bytes)
    → 8 ≤ length bs
    → (rest : Bytes) × (d' : Decoder) × (decode_in_memory d bs ≡ some (rest, d'))
      × (length rest < length bs)
unfolding decode_in_memory
decode_in_memory-takes d (b0 ∷ b1 ∷ b2 ∷ b3 ∷ b4 ∷ b5 ∷ b6 ∷ b7 ∷ bs) h =
    let (rest, d', e, l) =
      by_size-takes d (leb 1 (b0 / 128 % 2)) (leb 1 (b0 / 64 % 2)) b0 b1 b2 b3 b4 b5 b6 b7 bs in
    (rest, d', e, omega (arith, l))
decode_in_memory-takes d _ h = absurd (omega arith)

set_word-some :
    (bs : Bytes) (offset v : ℕ)
    → offset + 4 ≤ length bs
    → (bs' : Bytes) × (set_word bs offset v ≡ some bs') × (length bs' ≡ length bs)
unfolding set_word
set_word-some bs offset v h = (
  take offset bs ++ word_bytes v ++ drop (offset + 4) bs,
  rw (le→leb (offset + 4) (length bs) h) refl,
  omega (
    arith,
    h,
    length-append (take offset bs ++ word_bytes v) (drop (offset + 4) bs),
    length-append (take offset bs) (word_bytes v),
    length-take offset bs (omega (arith, h)),
    length-drop (offset + 4) bs,
  ),
)

retouch_at-some :
    (desired : Option ℕ) (bs : Bytes) (place contents : ℕ)
    → place + 4 ≤ length bs
    → (bs' : Bytes) × (retouch_at desired bs place contents ≡ some bs') × (length bs' ≡ length bs)
retouch_at-some none bs place contents h = (bs, refl, refl)
retouch_at-some (some target) bs place contents h = set_word-some bs place _ h

after_loop-Ends :
    (desired : Option ℕ) (p r b : ℕ) (object : Bytes) (b_ptr : ℕ) (candidate : Option ℕ)
    (mismatch : Bool)
    → Ends (length object) (after_loop desired p r b object b_ptr candidate mismatch)
after_loop-Ends desired p r b object b_ptr candidate mismatch = elim (Bool-cases (ltb r b_ptr)) [
  | inl e ↦ rw (e) refl
  | inr e ↦ elim (Bool-cases mismatch) [ inl e' ↦ rw (e, e') refl | inr e' ↦ rw (e, e') refl ]
]

-- an entry that is not refused lies in the object
place_of-fits :
    (desired : Option ℕ) (p r b offset place : ℕ)
    → place_of desired p r b offset ≡ some place
    → (place ≡ p) ⊎ (place < b)
place_of-fits desired p r b offset place h = ground arith

module _ (desired : Option ℕ) (r b : ℕ) where
  mask_loop-Ends :
      (fuel : ℕ) (object : Bytes) (b_ptr : ℕ) (d : Decoder) (candidate : Option ℕ) (mismatch : Bool)
      → length object ≡ r + 20
      → b ≤ b_ptr
      → r ≤ b_ptr + fuel
      → Ends (r + 20) (mask_loop desired (r + 12) r b fuel object b_ptr d candidate mismatch)
  unfolding mask_loop
  mask_loop-Ends zero object b_ptr d candidate mismatch size low enough =
      rw (ltb-eq-false b_ptr r (omega (arith, enough))) (
        subst (λ n. Ends n (after_loop desired (r + 12) r b object b_ptr candidate mismatch)) size
          (after_loop-Ends desired (r + 12) r b object b_ptr candidate mismatch))
  mask_loop-Ends (suc fuel) object b_ptr d candidate mismatch size low enough =
      elim (Bool-cases (ltb b_ptr r)) [
        | inr e ↦ rw (e) (
            subst (λ n. Ends n (after_loop desired (r + 12) r b object b_ptr candidate mismatch))
              size (after_loop-Ends desired (r + 12) r b object b_ptr candidate mismatch))
        | inl e ↦
            let l = ltb→lt b_ptr r e in
            let (rest, d', dec, taken) =
              decode_in_memory-takes d (drop b_ptr object)
                (omega (arith, size, l, length-drop b_ptr object)) in
            elim (Option-cases (place_of desired (r + 12) r b d'.offs_prev)) [
              | inl refused ↦ rw (e, dec, refused) size
              | inr (place, known) ↦
                  let inside : place + 4 ≤ length object =
                    elim (place_of-fits desired (r + 12) r b d'.offs_prev place known) [
                      | inl at ↦ omega (arith, at, size)
                      | inr below ↦ omega (arith, below, low, l, size)
                    ] in
                  let (object', put, same) =
                    retouch_at-some desired object place d'.cont_prev inside in
                  let (value, read) = word_there object' place (omega (arith, same, inside)) in
                  let moved : b_ptr < length object - length rest =
                    omega (arith, taken, length-drop b_ptr object, size, l) in
                  rw (e, dec, known, put, read)
                    (mask_loop-Ends fuel object' (length object - length rest) d' _ _ (same ∙ size)
                      (omega (arith, low, moved)) (omega (arith, enough, moved)))
            ]
      ]

untouched-Ends :
    (desired : Option ℕ) (object : Bytes) → Ends (length object) (untouched desired object)
untouched-Ends none object = refl
untouched-Ends (some target) object = refl

pub retouch_mask_data-Ends :
    (desired : Option ℕ) (object : Bytes) → Ends (length object) (retouch_mask_data desired object)
unfolding retouch_mask_data
retouch_mask_data-Ends desired object = elim (Bool-cases (ltb (length object) 20)) [
  | inl e ↦ rw (e) (untouched-Ends desired object)
  | inr e ↦
      let n = length object in
      let r = n - 8 - 12 in
      let large = not_less n 20 e in
      elim (Bool-cases (has_tags object (n - 8) r)) [
        | inr untagged ↦ rw (e, untagged) (untouched-Ends desired object)
        | inl tagged ↦
            let (blob_size, read) = word_there object (r + 8) (omega (arith, large)) in
            let b = (r + 2 ^ 32 - blob_size) % 2 ^ 32 in
            elim (Bool-cases (leb (2 ^ 31) b)) [
              | inl negative ↦ rw (e, tagged, read, negative) refl
              | inr positive ↦
                  rw (e, tagged, read, positive)
                    (subst
                      (λ (x : ℕ × ℕ).
                        Ends x.0
                          (mask_loop desired x.1 r b n object b init_compression_state none false))
                      (sizes n large)
                      (mask_loop-Ends desired r b n object b init_compression_state none false
                        (omega (arith, large)) (omega arith) (omega arith)))
            ]
      ]
]
  where
    sizes : (n : ℕ) → 20 ≤ n → ◌≡◌ {A = ℕ × ℕ} (n - 8 - 12 + 20, n - 8 - 12 + 12) (n, n - 8)
    sizes n h =
        let whole : n - 8 - 12 + 20 ≡ n = omega (arith, h) in
        let part : n - 8 - 12 + 12 ≡ n - 8 = omega (arith, h) in rw (whole, part) refl
