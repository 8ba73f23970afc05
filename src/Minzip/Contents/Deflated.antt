-- ===== src/Minzip/Contents/Deflated.antt =====
-- processDeflatedEntry (minzip/Zip.c): its loop ends, and what it passed on has the entry's length.
use open_recovery.Base.{
  ℕ, zero, suc, ◌+◌, ◌*◌, ◌-◌, ◌%◌, ◌^◌, ◌<◌, ◌≡◌, ◌≢◌, refl, subst, Bool, true, false, [], Option,
  none, some, leb, ◌==◌, ==_iff, arith,
}
use open_recovery.Minzip.Zip.{ZipEntry}
use open_recovery.Minzip.Contents.{
  Run, finished, outside, endless, ◌>>=◌, Descriptor, Code, ok, stream_end, other, Zlib, Process,
  Deflating, Ended, refill, inflate_round, inflate_rounds, after_init, process_deflated_entry,
}
use open_recovery.Minzip.Contents.Inflate.{
  Progresses, Counts, Agrees, measure, Goes, inflate_step, inflate_step-Goes, Refilled,
  refill-Refilled,
}

module _ (d : Descriptor) (zlib : Zlib) (comp_len : ℕ) (z : Progresses zlib) {S : Type 0}
    (process : Process S) (c : Counts process) (begin : ℕ) where
  inflate_round-Goes :
      (s : Deflating d zlib process)
      → Agrees d zlib comp_len z process c begin s
      → Goes d zlib comp_len z process c begin
          (measure d zlib comp_len z process c begin s)
          (inflate_round d zlib process s)
  inflate_round-Goes s a =
      by_refill (refill d zlib process s) (refill-Refilled d zlib comp_len z process c begin s a)
    where
      by_refill :
          (p : Bool × (Deflating d zlib process))
          → Refilled d zlib comp_len z process c begin
              (measure d zlib comp_len z process c begin s)
              p
          → Goes d zlib comp_len z process c begin
              (measure d zlib comp_len z process c begin s)
              (elim p.0 [
                | false ↦ finished (none, p.1)
                | true ↦ inflate_step d zlib comp_len z process c begin p.1
              ])
      by_refill (false, s₁) r = tt
      by_refill (true, s₁) (a₁, e) =
          subst
            (λ m.
              Goes d zlib comp_len z process c begin m
                (inflate_step d zlib comp_len z process c begin s₁))
            e (inflate_step-Goes d zlib comp_len z process c begin s₁ a₁)

  -- the loop has ended, and if it succeeded, then total_out bytes were passed on
  abbrev Ends : Run (Ended d zlib process) → Type 0
  Ends (finished (none, r)) = Unit
  Ends (finished (some total, r)) = c.count r.1 ≡ begin + total
  Ends outside = ⊥
  Ends endless = ⊥

  inflate_rounds-Ends :
      (rounds : ℕ) (s : Deflating d zlib process)
      → Agrees d zlib comp_len z process c begin s
      → measure d zlib comp_len z process c begin s < rounds
      → Ends (inflate_rounds d zlib process rounds s)
  unfolding inflate_rounds
  inflate_rounds-Ends zero s a l = absurd (omega arith)
  inflate_rounds-Ends (suc rounds) s a l =
      by_round (inflate_round d zlib process s) (λ s₁ a₁ l₁. inflate_rounds-Ends rounds s₁ a₁ l₁) l
        (inflate_round-Goes s a)
    where
      by_round :
          (x : Run (Option Code × (Deflating d zlib process)))
          → ((s₁ : Deflating d zlib process)
              → Agrees d zlib comp_len z process c begin s₁
              → measure d zlib comp_len z process c begin s₁ < rounds
              → Ends (inflate_rounds d zlib process rounds s₁))
          → measure d zlib comp_len z process c begin s < suc rounds
          → Goes d zlib comp_len z process c begin (measure d zlib comp_len z process c begin s) x
          → Ends (
              x >>= λ r. elim r.0 [
                | none ↦ finished (none, (r.1.world, r.1.cookie))
                | some code ↦ elim code [
                  | ok ↦ inflate_rounds d zlib process rounds r.1
                  | stream_end ↦ finished (some r.1.total_out, (r.1.world, r.1.cookie))
                  | other ↦ finished (none, (r.1.world, r.1.cookie))
                ]
              ])
      by_round (finished (none, s₁)) more l g = tt
      by_round (finished (some ok, s₁)) more l (a₁, less) = more s₁ a₁ (omega (arith, l, less))
      by_round (finished (some stream_end, s₁)) more l g = g
      by_round (finished (some other, s₁)) more l g = tt
      by_round outside more l g = g
      by_round endless more l g = g

-- For a deflated entry whose compressed length n is not negative, a zlib that makes progress and
-- writes at most 1032 bytes for each that it takes and as many besides, and a function that counts
-- the bytes it takes: with more than n + 1032 * (n + 1) rounds processDeflatedEntry returns; and
-- where it returns true, and the uncompressed length is not -1, the function was given as many
-- bytes as that length says, modulo 2 ^ 32.
pub process_deflated_entry-length :
    (d : Descriptor) (zlib : Zlib)
    → Progresses zlib
    → {S : Type 0} (process : Process S) (c : Counts process) (rounds : ℕ) (e : ZipEntry)
      (w : d.World) (s : S)
    → e.comp_len < 2 ^ 31
    → e.comp_len + 1032 * (e.comp_len + 1) < rounds
    → (b : Bool) × (w' : d.World) × (s' : S) × (process_deflated_entry d zlib process rounds e w s
        ≡ finished (b, (w', s')))
      × (b ≡ true
          → e.uncomp_len ≢ 2 ^ 32 - 1
          → (total : ℕ) × (c.count s' ≡ c.count s + total) × (total % 2 ^ 32 ≡ e.uncomp_len))
unfolding process_deflated_entry after_init
process_deflated_entry-length d zlib z {S} process c rounds e w s small enough =
    by_stream zlib.init z.starts
  where
    not_negative : (n : ℕ) → n < 2 ^ 31 → leb (2 ^ 31) n ≡ false
    not_negative n h = ground arith

    answer :
        (x : Run (Ended d zlib process))
        → Ends d zlib e.comp_len z process c (c.count s) x
        → (b : Bool) × (w' : d.World) × (s' : S) × (◌>>=◌ {B = Bool × (d.World × S)} x (λ r.
              elim r.0 [
                | none ↦ finished (e.uncomp_len == 2 ^ 32 - 1, r.1)
                | some total ↦ finished (total % 2 ^ 32 == e.uncomp_len, r.1)
              ])
            ≡ finished (b, (w', s')))
          × (b ≡ true
              → e.uncomp_len ≢ 2 ^ 32 - 1
              → (total : ℕ) × (c.count s' ≡ c.count s + total) × (total % 2 ^ 32 ≡ e.uncomp_len))
    answer (finished (none, (w', s'))) h =
        (_, w', s', refl, (λ b other. absurd (other ((==_iff e.uncomp_len (2 ^ 32 - 1)).0 b))))
    answer (finished (some total, (w', s'))) h =
        (_, w', s', refl, (λ b other. (total, h, (==_iff (total % 2 ^ 32) e.uncomp_len).0 b)))
    answer outside h = absurd h
    answer endless h = absurd h

    by_stream :
        (o : Option zlib.Stream)
        → ((stream : zlib.Stream)
            → o ≡ some stream
            → (z.total_in stream ≡ 0) × (z.total_out stream ≡ 0))
        → (b : Bool) × (w' : d.World) × (s' : S) × (after_init d zlib process rounds e w s o
            ≡ finished (b, (w', s')))
          × (b ≡ true
              → e.uncomp_len ≢ 2 ^ 32 - 1
              → (total : ℕ) × (c.count s' ≡ c.count s + total) × (total % 2 ^ 32 ≡ e.uncomp_len))
    by_stream none starts =
        (_, w, s, refl, (λ b other. absurd (other ((==_iff e.uncomp_len (2 ^ 32 - 1)).0 b))))
    by_stream (some stream) starts =
        let start : Deflating d zlib process = record {
          stream = stream;
          next_in = [];
          proc_buf = [];
          total_out = 0;
          comp_remaining = e.comp_len;
          world = w;
          cookie = s;
        } in
        rw (after_init, not_negative e.comp_len small)
          (answer (inflate_rounds d zlib process rounds start) (
            inflate_rounds-Ends d zlib e.comp_len z process c (c.count s) rounds start
              (record {
                passed = omega arith;
                total = (starts stream refl).1;
                taken = omega (arith, (starts stream refl).0);
              })
              (omega (arith, enough))))
