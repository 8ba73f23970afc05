-- ===== src/Applypatch/Bspatch/Correct.antt =====
-- ApplyBSDiffPatchMem of applypatch/bspatch.c against the description of the patch format in its
-- comment.
use open_recovery.Base.{
  ◌-◌, leb, true, ltb_ℤ, false, ℕ, zero, suc, ◌+◌, ◌^◌, ◌≤◌, ◌<◌, ◌≡◌, refl, ap, sym, subst, ◌∙◌,
  List, [], ◌∷◌, ◌++◌, some, Bytes, length, length-append, length-take, length-drop, take, drop, ℤ,
  pos, pos_part, neg_part, ◌+ℤ◌, arith,
}
use mathlib.Core.List.{append-nil, append_assoc}
use open_recovery.Applypatch.Utils.{Eight, to_long, to_long-same, offtout, offtin-offtout}
use open_recovery.Applypatch.Bspatch.{
  fill_ℤ, Decompressor, Patched, ok, Streams, filled, control, eight_at, add_old, fill_buffer,
  extra_part, diff_part, one_round, patch_loop,
}
use open_recovery.Applypatch.Bspatch.Fill.{fill_buffer-content}

-- "add x bytes from oldfile to x bytes from the diff block; copy y bytes from the extra block; seek
-- forwards in oldfile by z bytes"
pub record Triple : Type 0 where
  pub add : ℕ
  pub copy : ℕ
  pub seek : ℤ

pub record InRange (t : Triple) : Type 0 where
  pub add : t.add < 2 ^ 31
  pub copy : t.copy < 2 ^ 31
  pub ahead : pos_part t.seek < 2 ^ 31
  pub back : neg_part t.seek < 2 ^ 31

abbrev pub AllInRange : List Triple → Type 0
AllInRange [] = Unit
AllInRange (t ∷ ts) = InRange t × AllInRange ts

abbrev pub bytes_of : Eight → Bytes
bytes_of e = e.b0 ∷ e.b1 ∷ e.b2 ∷ e.b3 ∷ e.b4 ∷ e.b5 ∷ e.b6 ∷ e.b7 ∷ []

-- a triple that adds or copies something: the loop stops when the new file is complete, and would
-- not read a last triple that does neither.
abbrev pub AllMove : List Triple → Type 0
AllMove [] = Unit
AllMove (t ∷ ts) = (0 < t.add + t.copy) × AllMove ts

-- the control block of the triples
unfoldable pub encode : List Triple → Bytes
encode [] = []
encode (t ∷ ts) =
    (bytes_of (offtout (pos t.add)) ++ bytes_of (offtout (pos t.copy)) ++ bytes_of (offtout t.seek))
    ++ encode ts

unfoldable pub added : List Triple → ℕ
added [] = 0
added (t ∷ ts) = t.add + added ts

unfoldable pub copied : List Triple → ℕ
copied [] = 0
copied (t ∷ ts) = t.copy + copied ts

-- the new file that the triples describe
unfoldable pub rebuild : Bytes → List Triple → ℤ → Bytes → Bytes → Bytes
rebuild old [] oldpos diff extra = []
rebuild old (t ∷ ts) oldpos diff extra =
    add_old old oldpos (take t.add diff)
    ++ (take t.copy extra
        ++ rebuild old ts (oldpos +ℤ pos t.add +ℤ t.seek) (drop t.add diff) (drop t.copy extra))

length-add_old :
    (old : Bytes) (oldpos : ℤ) (bs : Bytes) → length (add_old old oldpos bs) ≡ length bs
unfolding add_old
length-add_old old oldpos [] = refl
length-add_old old oldpos (b ∷ bs) = ap suc (length-add_old old (oldpos +ℤ pos 1) bs)

length_grown :
    (old out : Bytes) (oldpos : ℤ) (t : Triple) (diff extra : Bytes)
    → t.add ≤ length diff
    → t.copy ≤ length extra
    → length ((out ++ add_old old oldpos (take t.add diff)) ++ take t.copy extra)
      ≡ length out + t.add + t.copy
length_grown old out oldpos t diff extra h k = omega (
  arith,
  length-append (out ++ add_old old oldpos (take t.add diff)) (take t.copy extra),
  length-append out (add_old old oldpos (take t.add diff)),
  length-add_old old oldpos (take t.add diff),
  length-take t.add diff h,
  length-take t.copy extra k,
)

-- the position in the old file is one that an off_t takes
abbrev pub Placed : ℤ → List Triple → Type 0
Placed oldpos [] = Unit
Placed oldpos (t ∷ ts) =
    (pos_part (oldpos +ℤ pos t.add +ℤ t.seek) < 2 ^ 31)
    × (neg_part (oldpos +ℤ pos t.add +ℤ t.seek) ≤ 2 ^ 31)
    × Placed (oldpos +ℤ pos t.add +ℤ t.seek) ts

sum_pos : (a b : ℕ) → pos a +ℤ pos b ≡ pos (a + b)
unfolding ◌+ℤ◌
sum_pos a b = ground arith

to_long-sum : (a b : ℕ) → a + b < 2 ^ 31 → to_long (pos a +ℤ pos b) ≡ pos (a + b)
to_long-sum a b h = ap to_long (sum_pos a b) ∙ to_long-same (pos (a + b)) h (omega arith)

module _ (bz : Decompressor) where
  open bz use {Stream, content}

  control-encode :
      (t : Triple) (ts : List Triple) (rest : Bytes)
      → InRange t
      → control bz (take 24 (encode (t ∷ ts) ++ rest)) ≡ some (pos t.add, pos t.copy, t.seek)
  unfolding encode eight_at
  control-encode t ts rest r = λ i. some (
    offtin-offtout (pos t.add) r.add (omega arith) i,
    offtin-offtout (pos t.copy) r.copy (omega arith) i,
    offtin-offtout t.seek r.ahead r.back i,
  )

  drop-encode :
      (t : Triple) (ts : List Triple) (rest : Bytes)
      → drop 24 (encode (t ∷ ts) ++ rest) ≡ encode ts ++ rest
  unfolding encode
  drop-encode t ts rest = refl

  length-encode :
      (t : Triple) (ts : List Triple) (rest : Bytes) → 24 ≤ length (encode (t ∷ ts) ++ rest)
  unfolding encode
  length-encode t ts rest = omega arith

  not_over : (n m : ℕ) → m ≤ n → ltb_ℤ (pos n) (pos m) ≡ false
  not_over n m h = ground arith

  enough : (n room : ℕ) → n ≤ room → leb n room ≡ true
  enough n room h = ground arith

  fill_fits :
      (fuel : ℕ) (s : Stream) (n room : ℕ) (bytes : Bytes) (s' : Stream)
      → n ≤ room
      → fill_buffer bz fuel s n ≡ filled bytes s'
      → fill_ℤ bz fuel s (pos n) room ≡ some (filled bytes s')
  unfolding fill_ℤ
  fill_fits fuel s n room bytes s' h run = rw (enough n room h, run) refl

  extra_round :
      (fuel new_size : ℕ) (old : Bytes) (oldpos : ℤ) (copy : ℕ) (st : Streams bz)
      (out extra : Bytes) (e : Stream) (next : Streams bz → Bytes → ℤ → Patched)
      → new_size < 2 ^ 31
      → length out + copy ≤ new_size
      → fill_buffer bz fuel st.estream copy ≡ filled extra e
      → extra_part bz fuel new_size old oldpos (pos copy) st out next
        ≡ next (record st { estream = e }) (out ++ extra) oldpos
  unfolding extra_part
  extra_round fuel new_size old oldpos copy st out extra e next low h run =
      rw
        (
          extra_part,
          to_long-sum (length out) copy (omega (arith, low, h)),
          not_over new_size (length out + copy) h,
          fill_fits fuel st.estream copy (new_size - length out) extra e (omega (arith, h)) run,
        )
        refl

  diff_round :
      (fuel new_size : ℕ) (old : Bytes) (oldpos : ℤ) (add : ℕ) (ctrl1 ctrl2 : ℤ) (st : Streams bz)
      (out diff : Bytes) (d : Stream) (next : Streams bz → Bytes → ℤ → Patched)
      → new_size < 2 ^ 31
      → length out + add ≤ new_size
      → fill_buffer bz fuel st.dstream add ≡ filled diff d
      → diff_part bz fuel new_size old oldpos (pos add) ctrl1 ctrl2 st out next
        ≡ extra_part bz fuel new_size old
            (to_long (oldpos +ℤ pos add +ℤ ctrl2))
            ctrl1
            (record st { dstream = d })
            (out ++ add_old old oldpos diff)
            next
  unfolding diff_part
  diff_round fuel new_size old oldpos add ctrl1 ctrl2 st out diff d next low h run =
      rw
        (
          diff_part,
          to_long-sum (length out) add (omega (arith, low, h)),
          not_over new_size (length out + add) h,
          fill_fits fuel st.dstream add (new_size - length out) diff d (omega (arith, h)) run,
        )
        refl

  pub first_round :
      (fuel new_size : ℕ) (old : Bytes) (st : Streams bz) (out : Bytes) (oldpos : ℤ) (buf : Bytes)
      (c : Stream) (ctrl0 ctrl1 ctrl2 : ℤ) (next : Streams bz → Bytes → ℤ → Patched)
      → fill_buffer bz fuel st.cstream 24 ≡ filled buf c
      → control bz buf ≡ some (ctrl0, ctrl1, ctrl2)
      → one_round bz fuel new_size old st out oldpos next
        ≡ diff_part bz fuel new_size old oldpos ctrl0 ctrl1 ctrl2
            (record st { cstream = c })
            out
            next
  unfolding one_round
  first_round fuel new_size old st out oldpos buf c ctrl0 ctrl1 ctrl2 next run k =
      simp (one_round, run, k)

  -- what the streams still hold
  pub record Holds (st : Streams bz) (ctrl diff extra : Bytes) : Type 0 where
    pub c : content st.cstream ≡ ctrl
    pub d : content st.dstream ≡ diff
    pub e : content st.estream ≡ extra

  fill_from :
      (fuel : ℕ) (s : Stream) (size : ℕ) (b : Bytes)
      → content s ≡ b
      → size ≤ fuel
      → size ≤ length b
      → (s' : Stream) × (fill_buffer bz fuel s size ≡ filled (take size b) s')
        × (content s' ≡ drop size b)
  fill_from fuel s size b e h k =
      subst
        (λ b'.
          (s' : Stream) × (fill_buffer bz fuel s size ≡ filled (take size b') s')
          × (content s' ≡ drop size b'))
        e (fill_buffer-content bz fuel s size h (rw e k))

  round-Holds :
      (fuel new_size : ℕ) (old : Bytes) (st : Streams bz) (out : Bytes) (oldpos : ℤ)
      (next : Streams bz → Bytes → ℤ → Patched) (t : Triple) (ts : List Triple)
      (rest diff extra : Bytes)
      → InRange t
      → new_size < 2 ^ 31
      → pos_part (oldpos +ℤ pos t.add +ℤ t.seek) < 2 ^ 31
      → neg_part (oldpos +ℤ pos t.add +ℤ t.seek) ≤ 2 ^ 31
      → new_size + 24 ≤ fuel
      → length out + t.add + t.copy ≤ new_size
      → t.add ≤ length diff
      → t.copy ≤ length extra
      → Holds st (encode (t ∷ ts) ++ rest) diff extra
      → (st' : Streams bz) × (one_round bz fuel new_size old st out oldpos next
          ≡ next st'
              ((out ++ add_old old oldpos (take t.add diff)) ++ take t.copy extra)
              (oldpos +ℤ pos t.add +ℤ t.seek))
        × Holds st' (encode ts ++ rest) (drop t.add diff) (drop t.copy extra)
  round-Holds fuel new_size old st out oldpos next t ts rest diff extra r low ahead back f room hd
        he h =
      let (c, cfill, crest) =
        fill_from fuel st.cstream 24 (encode (t ∷ ts) ++ rest) h.c (omega arith)
          (length-encode t ts rest) in
      let (d, dfill, drest) = fill_from fuel st.dstream t.add diff h.d (omega arith) hd in
      let (e, efill, erest) = fill_from fuel st.estream t.copy extra h.e (omega arith) he in
      let long : length (out ++ add_old old oldpos (take t.add diff)) ≡ length out + t.add = omega (
        arith,
        length-append out (add_old old oldpos (take t.add diff)),
        length-add_old old oldpos (take t.add diff),
        length-take t.add diff hd,
      ) in
      (
        record { cstream = c; dstream = d; estream = e },
        first_round fuel new_size old st out oldpos (take 24 (encode (t ∷ ts) ++ rest)) c
              (pos t.add) (pos t.copy) t.seek next cfill (control-encode t ts rest r)
            ∙ diff_round fuel new_size old oldpos t.add (pos t.copy) t.seek
                (record st { cstream = c }) out (take t.add diff) d next low (omega (arith, room))
                dfill
            ∙ ap
                (λ p.
                  extra_part bz fuel new_size old p (pos t.copy)
                    (record st { cstream = c; dstream = d })
                    (out ++ add_old old oldpos (take t.add diff)) next)
                (to_long-same (oldpos +ℤ pos t.add +ℤ t.seek) ahead back)
            ∙ extra_round fuel new_size old (oldpos +ℤ pos t.add +ℤ t.seek) t.copy
                (record st { cstream = c; dstream = d })
                (out ++ add_old old oldpos (take t.add diff)) (take t.copy extra) e next low
                (omega (arith, long, room)) efill,
        record { c = crest ∙ drop-encode t ts rest; d = drest; e = erest },
      )

  pub patch_round :
      (rounds fuel new_size : ℕ) (old : Bytes) (st : Streams bz) (out : Bytes) (oldpos : ℤ)
      → length out < new_size
      → patch_loop bz (suc rounds) fuel new_size old st out oldpos
        ≡ one_round bz fuel new_size old st out oldpos (patch_loop bz rounds fuel new_size old)
  unfolding patch_loop
  patch_round rounds fuel new_size old st out oldpos h = ground arith

  patch_end :
      (rounds fuel new_size : ℕ) (old : Bytes) (st : Streams bz) (out : Bytes) (oldpos : ℤ)
      → length out ≡ new_size
      → patch_loop bz rounds fuel new_size old st out oldpos ≡ ok out
  unfolding patch_loop
  patch_end zero fuel new_size old st out oldpos h = ground arith
  patch_end (suc rounds) fuel new_size old st out oldpos h = ground arith

  -- The streams hold a control block of triples that describe what is left of the new file, and no
  -- triple describes nothing.
  pub record Describes (new_size : ℕ) (st : Streams bz) (out : Bytes) (ts : List Triple)
      (rest diff extra : Bytes) : Type 0 where
    pub range : AllInRange ts
    pub moves : AllMove ts
    pub whole : length out + added ts + copied ts ≡ new_size
    pub diffs : added ts ≤ length diff
    pub extras : copied ts ≤ length extra
    pub holds : Holds st (encode ts ++ rest) diff extra

  pub patch_loop-rebuild :
      (rounds fuel new_size : ℕ) (old : Bytes) (st : Streams bz) (out : Bytes) (oldpos : ℤ)
      (ts : List Triple) (rest diff extra : Bytes)
      → Describes new_size st out ts rest diff extra
      → new_size < 2 ^ 31
      → Placed oldpos ts
      → length ts ≤ rounds
      → new_size + 24 ≤ fuel
      → patch_loop bz rounds fuel new_size old st out oldpos
        ≡ ok (out ++ rebuild old ts oldpos diff extra)
  unfolding rebuild added copied encode
  patch_loop-rebuild rounds fuel new_size old st out oldpos [] rest diff extra d low placed r f =
      patch_end rounds fuel new_size old st out oldpos (omega (arith, d.whole))
      ∙ ap ok (sym (append-nil out))
  patch_loop-rebuild zero fuel new_size old st out oldpos (t ∷ ts) rest diff extra d low placed r
        f =
      absurd (omega arith)
  patch_loop-rebuild (suc rounds) fuel new_size old st out oldpos (t ∷ ts) rest diff extra d low
        placed r f =
      let has_add : t.add ≤ length diff = omega (arith, d.diffs) in
      let has_copy : t.copy ≤ length extra = omega (arith, d.extras) in
      let out' = (out ++ add_old old oldpos (take t.add diff)) ++ take t.copy extra in
      let (st', run, left) =
        round-Holds fuel new_size old st out oldpos (patch_loop bz rounds fuel new_size old) t ts
          rest diff extra d.range.0 low placed.0 placed.1 f (omega (arith, d.whole)) has_add
          has_copy d.holds in
      let d' : Describes new_size st' out' ts rest (drop t.add diff) (drop t.copy extra) = record {
        range = d.range.1;
        moves = d.moves.1;
        whole = omega (arith, d.whole, length_grown old out oldpos t diff extra has_add has_copy);
        diffs = omega (arith, d.diffs, length-drop t.add diff);
        extras = omega (arith, d.extras, length-drop t.copy extra);
        holds = left;
      } in
      patch_round rounds fuel new_size old st out oldpos (omega (arith, d.whole, d.moves.0))
      ∙ run
      ∙ patch_loop-rebuild rounds fuel new_size old st' out' (oldpos +ℤ pos t.add +ℤ t.seek) ts rest
          (drop t.add diff) (drop t.copy extra) d' low placed.2 (omega arith) f
      ∙ ap ok (
          append_assoc (out ++ add_old old oldpos (take t.add diff)) (take t.copy extra) _
          ∙ append_assoc out (add_old old oldpos (take t.add diff)) _)
