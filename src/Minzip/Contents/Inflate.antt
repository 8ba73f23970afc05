-- ===== src/Minzip/Contents/Inflate.antt =====
-- A round of the loop of processDeflatedEntry (minzip/Zip.c).
use open_recovery.Base.{
  ℕ, ◌+◌, ◌*◌, ◌-◌, ◌≤◌, ◌<◌, ◌≡◌, ◌⊎◌, inl, inr, refl, Bool, true, false, [], ◌++◌, Option, none,
  some, Bytes, length-append, length, ltb, ◌==◌, ==_iff, Bool-cases, if◌then◌else◌, arith,
}
use open_recovery.Minzip.Contents.{
  Run, finished, outside, endless, ◌>>=◌, Descriptor, Code, ok, stream_end, other, Zlib, Process,
  buf_size, min, Deflating, read_in, refill, after_inflate, is_due, pass_on,
}
use open_recovery.Minzip.Contents.Stored.{min_le}

-- What zlib says of inflate: it takes from the input, counts what it took and wrote, makes progress
-- whenever it returns Z_OK, and has never written more than 1032 bytes for each byte that it took and
-- as many besides.
pub record Progresses (zlib : Zlib) : Type 0 where
  pub total_in : zlib.Stream → ℕ
  pub total_out : zlib.Stream → ℕ
  pub starts : (z : zlib.Stream) → zlib.init ≡ some z → (total_in z ≡ 0) × (total_out z ≡ 0)
  pub takes :
      (z : zlib.Stream) (next_in : Bytes) (room : ℕ)
      → total_in (zlib.inflate z next_in room).stream + length (zlib.inflate z next_in room).left
        ≡ total_in z + length next_in
  pub shrinks :
      (z : zlib.Stream) (next_in : Bytes) (room : ℕ)
      → length (zlib.inflate z next_in room).left ≤ length next_in
  pub counts :
      (z : zlib.Stream) (next_in : Bytes) (room : ℕ)
      → total_out (zlib.inflate z next_in room).stream
        ≡ total_out z + length (zlib.inflate z next_in room).out
  pub expands : (z : zlib.Stream) → total_out z ≤ 1032 * (total_in z + 1)
  pub advances :
      (z : zlib.Stream) (next_in : Bytes) (room : ℕ)
      → (zlib.inflate z next_in room).code ≡ ok
      → (length (zlib.inflate z next_in room).left < length next_in)
        ⊎ (0 < length (zlib.inflate z next_in room).out)

-- a function that counts the bytes it takes
pub record Counts {S : Type 0} (process : Process S) : Type 0 where
  pub count : S → ℕ
  pub takes :
      (bytes : Bytes) (s : S)
      → (b : Bool) × (s' : S) × (process bytes s ≡ finished (b, s'))
        × (b ≡ true → count s' ≡ count s + length bytes)

Code-cases : (c : Code) → (c ≡ ok) ⊎ ((c ≡ stream_end) ⊎ (c ≡ other))
Code-cases ok = inl refl
Code-cases stream_end = inr (inl refl)
Code-cases other = inr (inr refl)

module _ (d : Descriptor) (zlib : Zlib) (comp_len : ℕ) (z : Progresses zlib) {S : Type 0}
    (process : Process S) (c : Counts process) (begin : ℕ) where
  abbrev pub Inflating : Type 0
  Inflating = Deflating d zlib process

  -- what was passed on and what is in procBuf is what inflate wrote
  pub record Agrees (s : Inflating) : Type 0 where
    pub passed : c.count s.cookie + length s.proc_buf ≡ begin + s.total_out
    pub total : z.total_out s.stream ≡ s.total_out
    pub taken : z.total_in s.stream + length s.next_in + s.comp_remaining ≡ comp_len

  abbrev pub measure : Inflating → ℕ
  measure s = s.comp_remaining + length s.next_in + (1032 * (comp_len + 1) - s.total_out)

  -- a round that goes on, is the last, or fails
  abbrev pub Goes : ℕ → Run (Option Code × Inflating) → Type 0
  Goes m (finished (none, s)) = Unit
  Goes m (finished (some ok, s)) = Agrees s × (measure s < m)
  Goes m (finished (some stream_end, s)) = c.count s.cookie ≡ begin + s.total_out
  Goes m (finished (some other, s)) = Unit
  Goes m outside = ⊥
  Goes m endless = ⊥

  abbrev pub Refilled : ℕ → Bool × Inflating → Type 0
  Refilled m (false, s) = Unit
  Refilled m (true, s) = Agrees s × (measure s ≡ m)

  read_in-Refilled :
      (s : Inflating) (r : Option Bytes) (w : d.World) (n : ℕ)
      → Agrees s
      → length s.next_in ≡ 0
      → n ≤ s.comp_remaining
      → Refilled (measure s) (read_in d zlib process s r w n)
  read_in-Refilled s none w n a e l = tt
  read_in-Refilled s (some bytes) w n a e l = elim (Bool-cases (length bytes == n)) [
    | inr short ↦ rw (short) tt
    | inl all ↦
        let size = (==_iff (length bytes) n).0 all in
        rw (all) (
          record { passed = a.passed; total = a.total; taken = omega (arith, a.taken, size, e, l) },
          omega (arith, size, e, l),
        )
  ]

  pub refill-Refilled : (s : Inflating) → Agrees s → Refilled (measure s) (refill d zlib process s)
  refill-Refilled s a = elim (Bool-cases (length s.next_in == 0)) [
    | inr some_in ↦ rw (some_in) (a, refl)
    | inl none_in ↦
        let n = min s.comp_remaining buf_size in
        rw (none_in) (
          read_in-Refilled s (d.read n s.world).0 (d.read n s.world).1 n a
            ((==_iff (length s.next_in) 0).0 none_in) (min_le s.comp_remaining buf_size))
  ]

  -- what pass_on leaves
  abbrev Passed : ℕ → ℕ → ℕ → Run (Bool × Inflating) → Type 0
  Passed m total kept (finished (true, s)) =
      Agrees s × (measure s ≡ m) × (s.total_out ≡ total) × (length s.proc_buf ≡ kept)
  Passed m total kept (finished (false, s)) = Unit
  Passed m total kept outside = ⊥
  Passed m total kept endless = ⊥

  pass_on-kept :
      (s : Inflating)
      → Agrees s
      → Passed (measure s) s.total_out (length s.proc_buf) (pass_on d zlib process false s)
  pass_on-kept s a = (a, refl, refl, refl)

  pass_on-emptied :
      (s : Inflating) → Agrees s → Passed (measure s) s.total_out 0 (pass_on d zlib process true s)
  pass_on-emptied s a =
      let (b, s', run, more) = c.takes s.proc_buf s.cookie in rw (run) (by_result b s' more)
    where
      by_result :
          (b : Bool) (s' : S)
          → (b ≡ true → c.count s' ≡ c.count s.cookie + length s.proc_buf)
          → Passed (measure s) s.total_out 0 (finished (b, record s { cookie = s'; proc_buf = [] }))
      by_result false s' more = tt
      by_result true s' more = (
        record { passed = omega (arith, more refl, a.passed); total = a.total; taken = a.taken },
        refl,
        refl,
        refl,
      )

  after_inflate-Agrees :
      (s : Inflating) (room : ℕ)
      → Agrees s
      → Agrees (after_inflate d zlib process s (zlib.inflate s.stream s.next_in room))
  after_inflate-Agrees s room a =
      let i = zlib.inflate s.stream s.next_in room in
      record {
        passed = omega (arith, a.passed, length-append s.proc_buf i.out);
        total = omega (arith, a.total, z.counts s.stream s.next_in room);
        taken = omega (arith, a.taken, z.takes s.stream s.next_in room);
      }

  after_inflate-measure :
      (s : Inflating) (room : ℕ)
      → Agrees s
      → (zlib.inflate s.stream s.next_in room).code ≡ ok
      → measure (after_inflate d zlib process s (zlib.inflate s.stream s.next_in room)) < measure s
  after_inflate-measure s room a e =
      let i = zlib.inflate s.stream s.next_in room in
      elim (z.advances s.stream s.next_in room e) [
        | inl less ↦ omega (
          arith,
          less,
          a.total,
          z.counts s.stream s.next_in room,
          z.expands i.stream,
          z.takes s.stream s.next_in room,
          a.taken,
        )
        | inr more ↦ omega (
          arith,
          more,
          z.shrinks s.stream s.next_in room,
          a.total,
          z.counts s.stream s.next_in room,
          z.expands i.stream,
          z.takes s.stream s.next_in room,
          a.taken,
        )
      ]

  abbrev noted : Code → Run (Bool × Inflating) → Run (Option Code × Inflating)
  noted code x = x >>= λ r. finished ((if r.0 then some code else none), r.1)

  ok-Goes :
      (m n total kept : ℕ) (x : Run (Bool × Inflating))
      → n < m
      → Passed n total kept x
      → Goes m (noted ok x)
  ok-Goes m n total kept (finished (true, s)) l (a, e, f, g) = (a, omega (arith, l, e))
  ok-Goes m n total kept (finished (false, s)) l p = tt
  ok-Goes m n total kept outside l p = p
  ok-Goes m n total kept endless l p = p

  end-Goes :
      (m n total : ℕ) (x : Run (Bool × Inflating))
      → Passed n total 0 x
      → Goes m (noted stream_end x)
  end-Goes m n total (finished (true, s)) (a, e, f, g) = omega (arith, a.passed, g)
  end-Goes m n total (finished (false, s)) p = tt
  end-Goes m n total outside p = p
  end-Goes m n total endless p = p

  -- a round after the input was read
  abbrev pub inflate_step : Inflating → Run (Option Code × Inflating)
  inflate_step s =
      let i = zlib.inflate s.stream s.next_in (buf_size - length s.proc_buf) in
      elim i.code [
        | other ↦ finished (none, after_inflate d zlib process s i)
        | ok ↦ noted ok (
            pass_on d zlib process (is_due d zlib process ok (s.proc_buf ++ i.out))
              (after_inflate d zlib process s i))
        | stream_end ↦ noted stream_end (
            pass_on d zlib process (is_due d zlib process stream_end (s.proc_buf ++ i.out))
              (after_inflate d zlib process s i))
      ]

  pub inflate_step-Goes : (s : Inflating) → Agrees s → Goes (measure s) (inflate_step s)
  inflate_step-Goes s a =
      let room = buf_size - length s.proc_buf in
      let i = zlib.inflate s.stream s.next_in room in
      let s₁ = after_inflate d zlib process s i in
      let a₁ : Agrees s₁ = after_inflate-Agrees s room a in
      elim (Code-cases i.code) [
        | inl e ↦
            let l = after_inflate-measure s room a e in
            elim (Bool-cases (length (s.proc_buf ++ i.out) == buf_size)) [
              | inl full ↦
                  rw (inflate_step, e, full)
                    (ok-Goes (measure s) (measure s₁) s₁.total_out 0
                      (pass_on d zlib process true s₁) l (pass_on-emptied s₁ a₁))
              | inr part ↦
                  rw (inflate_step, e, part)
                    (ok-Goes (measure s) (measure s₁) s₁.total_out (length s₁.proc_buf)
                      (pass_on d zlib process false s₁) l (pass_on-kept s₁ a₁))
            ]
        | inr (inr e) ↦ rw (inflate_step, e) tt
        | inr (inl e) ↦ elim (Bool-cases (ltb 0 (length (s.proc_buf ++ i.out)))) [
          | inl some_bytes ↦
              rw (inflate_step, e, some_bytes)
                (end-Goes (measure s) (measure s₁) s₁.total_out (pass_on d zlib process true s₁)
                  (pass_on-emptied s₁ a₁))
          | inr empty ↦
              rw (inflate_step, e, empty)
                (end-Goes (measure s) (measure s₁) s₁.total_out (pass_on d zlib process false s₁)
                  (a₁, refl, refl, none_left (length (s.proc_buf ++ i.out)) empty))
        ]
      ]
    where
      none_left : (n : ℕ) → ltb 0 n ≡ false → n ≡ 0
      none_left n h = ground arith
