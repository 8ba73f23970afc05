-- ===== src/Minzip/Hash/Probe.antt =====
-- The walk over the slots of minzip/Hash.c.
use native.Mathlib.Decide.{dec_lt, ℕ_discrete}
use open_recovery.Base.{
  ℕ, zero, suc, ◌+◌, ◌-◌, ◌≤◌, ◌<◌, ◌≡◌, ◌≢◌, inl, inr, refl, ap, sym, subst, ◌∙◌, Bool, true,
  false, List, some, length, get_elem?, get_elem?-lt, ltb, leb, if◌then◌else◌, Bool-cases, arith,
}
use open_recovery.Minzip.Hash.{
  Ptr, empty, tombstone, item, Slot, Walk, vacant, hit, past, off_end, endless, next_slot, probe,
}
use open_recovery.Minzip.Hash.Contents.{Cell-cases, HasCell, sum, one_empty, empty_slot}

-- round to the start of the array, for a number below twice its size
abbrev pub wrap : ℕ → ℕ → ℕ
wrap size n = if ltb n size then n else n - size

pub next_slot-wrap :
    (size n : ℕ)
    → 1 < size
    → n < size + size
    → next_slot size (wrap size n) ≡ some (wrap size (wrap size n + 1))
unfolding next_slot
next_slot-wrap size n h k = ground arith

wrap_step :
    (size home d : ℕ)
    → home < size
    → suc d < size
    → wrap size (wrap size (home + d) + 1) ≡ wrap size (home + suc d)
wrap_step size home d h k = ground arith

pub wrap-lt : (size home d : ℕ) → home < size → d < size → wrap size (home + d) < size
wrap-lt size home d h k = ground arith

module _ (test : Ptr → ℕ → Bool) (slots : List Slot) (size home : ℕ) where
  -- the slot `d` steps on is not empty and holds no item that passes
  pub record Passed (d : ℕ) : Type 0 where
    pub slot : Slot
    pub at : get_elem? slots (wrap size (home + d)) ≡ some slot
    pub filled : slot.cell ≢ empty
    pub fails : (x : Ptr) → slot.cell ≡ item x → test x slot.hash_value ≡ false

  pub record Vacant (i : ℕ) : Type 0 where
    pub steps : ℕ
    pub within : steps < size
    pub place : i ≡ wrap size (home + steps)
    pub free : HasCell slots i empty
    pub before : (d : ℕ) → d < steps → Passed d

  pub record Hit (i : ℕ) (x : Ptr) : Type 0 where
    pub slot : Slot
    pub at : get_elem? slots i ≡ some slot
    pub holds : slot.cell ≡ item x
    pub passes : test x slot.hash_value ≡ true

  -- how the walk can end
  abbrev pub Ends : Walk → Type 0
  Ends (vacant i) = Vacant i
  Ends (hit i x) = Hit i x
  Ends past = ⊥
  Ends off_end = ⊥
  Ends endless = ⊥

  probe-empty :
      (fuel i : ℕ) (s : Slot)
      → get_elem? slots i ≡ some s
      → s.cell ≡ empty
      → probe test slots size (suc fuel) i ≡ vacant i
  unfolding probe
  probe-empty fuel i s p e = ground arith

  probe-tombstone :
      (fuel i j : ℕ) (s : Slot)
      → get_elem? slots i ≡ some s
      → s.cell ≡ tombstone
      → next_slot size i ≡ some j
      → probe test slots size (suc fuel) i ≡ probe test slots size fuel j
  unfolding probe
  probe-tombstone fuel i j s p e n = ground arith

  probe-item :
      (fuel i j : ℕ) (s : Slot) (x : Ptr)
      → get_elem? slots i ≡ some s
      → s.cell ≡ item x
      → next_slot size i ≡ some j
      → probe test slots size (suc fuel) i
        ≡ (if test x s.hash_value then hit i x else probe test slots size fuel j)
  unfolding probe
  probe-item fuel i j s x p e n = ground arith

  module _ (at_home : home < size) (full : length slots ≡ size) where
    extend : (d : ℕ) → ((n : ℕ) → n < d → Passed n) → Passed d → (n : ℕ) → n < suc d → Passed n
    extend d before here n h = elim (dec_lt n d) [
      | yes less ↦ before n less
      | no not_less ↦ subst Passed (omega arith) here
    ]

    -- with a slot empty at `k` steps, a walk that has come `d` steps ends in `fuel` rounds
    probe-Ends_from :
        (fuel d k : ℕ)
        → d ≤ k
        → k < size
        → k < d + fuel
        → HasCell slots (wrap size (home + k)) empty
        → ((n : ℕ) → n < d → Passed n)
        → Ends (probe test slots size fuel (wrap size (home + d)))
    probe-Ends_from zero d k a b c free before = absurd (omega arith)
    probe-Ends_from (suc fuel) d k a b c free before =
        let (s, at) =
          get_elem?-lt slots (wrap size (home + d))
            (rw full (wrap-lt size home d at_home (omega arith))) in
        elim (Cell-cases s.cell) [
          | inl e ↦ rw (probe-empty fuel (wrap size (home + d)) s at e) (record {
            steps = d;
            within = omega arith;
            place = refl;
            free = (s, at, e);
            before = before;
          })
          | inr (inl e) ↦
              let far : suc d ≤ k = farther s at (λ q. cc) in
              let ih = probe-Ends_from fuel (suc d) k far b (omega arith) free (
                extend d before
                  (record { slot = s; at = at; filled = λ q. cc; fails = λ x q. cc })) in
              rw
                (probe-tombstone fuel (wrap size (home + d)) (wrap size (home + suc d)) s at e
                  (next far))
                ih
          | inr (inr (x, e)) ↦
              let far : suc d ≤ k = farther s at (λ q. cc) in
              elim (Bool-cases (test x s.hash_value)) [
                | inl passes ↦
                    rw
                      (
                        probe-item fuel (wrap size (home + d)) (wrap size (home + suc d)) s x at e
                            (next far),
                        passes,
                      )
                      (record { slot = s; at = at; holds = e; passes = passes })
                | inr fails ↦
                    let ih = probe-Ends_from fuel (suc d) k far b (omega arith) free (
                      extend d before (record {
                        slot = s;
                        at = at;
                        filled = λ q. cc;
                        fails = λ y q. same_item x y s e q fails;
                      })) in
                    rw
                      (
                        probe-item fuel (wrap size (home + d)) (wrap size (home + suc d)) s x at e
                            (next far),
                        fails,
                      )
                      ih
              ]
        ]
      where
        farther :
            (s : Slot)
            → get_elem? slots (wrap size (home + d)) ≡ some s
            → s.cell ≢ empty
            → suc d ≤ k
        farther s at filled = elim (ℕ_discrete d k) [
          | yes same ↦
              let (t, p, e) =
                subst (λ n. HasCell slots (wrap size (home + n)) empty) (sym same) free in
              let one : s ≡ t = cc (at, p) in absurd (filled (rw one e))
          | no other ↦ omega arith
        ]

        next : suc d ≤ k → next_slot size (wrap size (home + d)) ≡ some (wrap size (home + suc d))
        next h =
            next_slot-wrap size (home + d) (omega arith) (omega arith)
            ∙ ap some (wrap_step size home d at_home (omega arith))

        same_item :
            (x y : Ptr) (s : Slot)
            → s.cell ≡ item x
            → s.cell ≡ item y
            → test x s.hash_value ≡ false
            → test y s.hash_value ≡ false
        same_item x y s e q f = let same : x ≡ y = cc in rw (← same) f

    -- The walk from the home of a hash ends at an empty slot or at an item that passes, if any slot
    -- is empty.
    pub probe-Ends : 0 < sum one_empty slots → Ends (probe test slots size size home)
    probe-Ends some_empty =
        let (i, inside, free) = empty_slot slots some_empty in
        let k : ℕ = if leb home i then i - home else i + size - home in
        let near : k < size = ground arith in
        let there : wrap size (home + k) ≡ i = ground arith in
        let start : wrap size (home + 0) ≡ home = ground arith in
        rw start at (
          probe-Ends_from size 0 k (omega arith) near (omega arith) (rw there free)
            (λ n h. absurd (omega arith)))
