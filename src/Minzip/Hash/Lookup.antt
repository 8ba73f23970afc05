-- ===== src/Minzip/Hash/Lookup.antt =====
-- mzHashTableLookup of minzip/Hash.c, with and without adding.
use native.Mathlib.Decide.{dec_lt, ℕ_discrete}
use open_recovery.Base.{
  ℕ, ◌+◌, ◌*◌, ◌<◌, ◌≡◌, inl, inr, refl, ap, sym, subst, ◌∙◌, Bool, true, false, Option, none, some,
  length, get_elem?, set, length-set, ltb, Bool-cases, arith,
}
use open_recovery.Minzip.Hash.{
  Ptr, empty, item, Slot, HashTable, Walk, vacant, hit, past, off_end, endless, walk, matches,
  add_at, lookup, load_numer, load_denom,
}
use open_recovery.Minzip.Hash.Contents.{sum-set, weight, total, one, one_dead}
use open_recovery.Minzip.Hash.Probe.{wrap, Vacant, Ends, probe-Ends}
use open_recovery.Minzip.Hash.Valid.{
  home, home-lt, some_empty, Reached, AllReached-set, Vacant-Reached, IsValid,
}
use open_recovery.Minzip.Hash.Resize.{resize_hash-IsValid}

-- item `x` stands in the table under hash `h`
pub record Stored (t : HashTable) (h : ℕ) (x : Ptr) : Type 0 where
  pub index : ℕ
  pub slot : Slot
  pub at : get_elem? t.entries index ≡ some slot
  pub holds : slot.cell ≡ item x
  pub hashed : slot.hash_value ≡ h

-- `t'` has what `t` has, and `x` under hash `h` once more
pub record Added (t : HashTable) (h : ℕ) (x : Ptr) (t' : HashTable) : Type 0 where
  pub valid : IsValid t'
  pub counted : t'.num_entries ≡ t.num_entries + 1
  pub holds : (w : ℕ → Ptr → ℕ) → total w t'.entries ≡ total w t.entries + w h x

module _ {t : HashTable} (valid : IsValid t) (h : ℕ) where
  -- the walk from the home of `h` ends
  pub walk-Ends :
      (test : Ptr → ℕ → Bool)
      → Ends test t.entries t.table_size (home t.table_size h) (walk test t h)
  walk-Ends test =
      probe-Ends test t.entries t.table_size (home t.table_size h)
        (home-lt valid.log_size h valid.power) valid.full (some_empty valid)

  -- a walk that ended at an empty slot has seen every item that is stored under the hash
  pub Vacant-fails :
      (test : Ptr → ℕ → Bool) (i : ℕ) (y : Ptr)
      → Vacant test t.entries t.table_size (home t.table_size h) i
      → Stored t h y
      → test y h ≡ false
  Vacant-fails test i y v s =
      let r = valid.reached s.index s.slot y s.at s.holds in
      let size = t.table_size in
      let place : wrap size (home size h + r.steps) ≡ s.index =
        subst (λ n. wrap size (home size n + r.steps) ≡ s.index) s.hashed r.place in
      elim (dec_lt r.steps v.steps) [
        | yes seen ↦
            let p = v.before r.steps seen in
            let at : get_elem? t.entries s.index ≡ some p.slot =
              subst (λ n. get_elem? t.entries n ≡ some p.slot) place p.at in
            let same : p.slot ≡ s.slot = cc (at, s.at) in
            let fails = p.fails y (rw same s.holds) in cc (fails, same, s.hashed)
        | no beyond ↦ absurd (not_beyond r place beyond)
      ]
    where
      not_beyond :
          (r : Reached t.entries t.table_size s.slot.hash_value s.index)
          → wrap t.table_size (home t.table_size h + r.steps) ≡ s.index
          → ¬ (r.steps < v.steps)
          → ⊥
      not_beyond r place beyond =
          let (free, at, is_empty) = v.free in
          elim (ℕ_discrete r.steps v.steps) [
            | yes same ↦
                let here : i ≡ s.index =
                  v.place
                  ∙ ap (λ n. wrap t.table_size (home t.table_size h + n)) (sym same)
                  ∙ place in
                let one_slot : free ≡ s.slot = cc (at, s.at, here) in
                let clash : s.slot.cell ≡ empty = rw (← one_slot) is_empty in cc (clash, s.holds)
            | no other ↦
                let (full_slot, there, filled) = r.filled v.steps (omega arith) in
                let home_eq : wrap t.table_size (home t.table_size s.slot.hash_value + v.steps)
                    ≡ i =
                  subst (λ n. wrap t.table_size (home t.table_size n + v.steps) ≡ i) (sym s.hashed)
                    (sym v.place) in
                let one_slot : free ≡ full_slot = cc (at, there, home_eq) in
                filled (rw (← one_slot) is_empty)
          ]

  -- Adding at the slot where a walk ended keeps the table valid, also where it has to grow.
  pub add_at-Added :
      (test : Ptr → ℕ → Bool) (i : ℕ) (x : Ptr)
      → Vacant test t.entries t.table_size (home t.table_size h) i
      → (t' : HashTable) × (add_at t i h x ≡ some t') × Added t h x t'
  unfolding add_at
  add_at-Added test i x v =
      let (old, at, free) = v.free in
      let s : Slot = record { hash_value = h; cell = item x } in
      let slots = set t.entries i s in
      let t₁ : HashTable = record t { entries = slots; num_entries = t.num_entries + 1 } in
      let full : length slots ≡ t.table_size = length-set t.entries i s ∙ valid.full in
      let holds : (w : ℕ → Ptr → ℕ) → total w slots ≡ total w t.entries + w h x =
        λ w. ground (arith, sum-set (weight w) t.entries i s old at) in
      let counted : t.num_entries + 1 ≡ total one slots = omega (arith, holds one, valid.counted) in
      elim (Bool-cases
        (ltb (t.table_size * load_numer) ((t.num_entries + 1 + t.num_dead_entries) * load_denom))) [
          | inl heavy ↦
              let (t', run, good, same, kept) =
                resize_hash-IsValid t₁ valid.log_size valid.power full counted in
              (
                t',
                rw heavy run,
                record { valid = good; counted = same; holds = λ w. kept w ∙ holds w },
              )
          | inr light ↦ (
            t₁,
            rw light,
            record {
              valid = record {
                log_size = valid.log_size;
                power = valid.power;
                full = full;
                counted = counted;
                dead = ground (arith, valid.dead, sum-set one_dead t.entries i s old at);
                load = ground arith;
                reached =
                    AllReached-set t.entries i old s at (λ q. cc) t.table_size
                      (λ y q. Vacant-Reached test t.entries t.table_size h i v) valid.reached;
              };
              counted = refl;
              holds = holds;
            },
          )
        ]

-- what a lookup for `x` under hash `h` found, where `cmp` says which stored items it accepts
pub data Looked (t : HashTable) (h : ℕ) (x : Ptr) (cmp : Ptr → Ptr → Bool)
    : Bool → Option Ptr → HashTable → Type 0 where
  found :
      {do_add : Bool} {t' : HashTable} (y : Ptr)
      → Stored t h y
      → cmp y x ≡ true
      → t' ≡ t
      → Looked t h x cmp do_add (some y) t'
  absent :
      {t' : HashTable}
      → ((y : Ptr) → Stored t h y → cmp y x ≡ false)
      → t' ≡ t
      → Looked t h x cmp false none t'
  added :
      {t' : HashTable}
      → ((y : Ptr) → Stored t h y → cmp y x ≡ false)
      → Added t h x t'
      → Looked t h x cmp true (some x) t'

matches-false :
    (cmp : Ptr → Ptr → Bool) (h : ℕ) (x y : Ptr) → matches cmp h x y h ≡ false → cmp y x ≡ false
matches-false cmp h x y e = ground arith

-- In a valid hash table the lookup ends and makes no access out of bounds. It returns a stored,
-- accepted item if there is one; otherwise it returns nothing, or with adding the new item, and
-- then the table is valid, counts one more and has what it had and the item, also where it had to
-- grow.
pub lookup-Looked :
    (t : HashTable) (h : ℕ) (x : Ptr) (cmp : Ptr → Ptr → Bool) (do_add : Bool)
    → IsValid t
    → (r : Option Ptr) × (t' : HashTable) × (lookup t h x cmp do_add ≡ some (r, t'))
      × Looked t h x cmp do_add r t'
unfolding lookup
lookup-Looked t h x cmp do_add valid =
    by_walk (walk (matches cmp h x) t h) refl (walk-Ends valid h (matches cmp h x))
  where
    none_accepted :
        (i : ℕ)
        → Vacant (matches cmp h x) t.entries t.table_size (home t.table_size h) i
        → (y : Ptr) → Stored t h y
        → cmp y x ≡ false
    none_accepted i v y s = matches-false cmp h x y (Vacant-fails valid h (matches cmp h x) i y v s)

    by_adding :
        (add : Bool) (i : ℕ)
        → walk (matches cmp h x) t h ≡ vacant i
        → Vacant (matches cmp h x) t.entries t.table_size (home t.table_size h) i
        → (r : Option Ptr) × (t' : HashTable) × (lookup t h x cmp add ≡ some (r, t'))
          × Looked t h x cmp add r t'
    by_adding false i run v = (none, t, rw run, absent (none_accepted i v) refl)
    by_adding true i run v =
        let (t', adds, a) = add_at-Added valid h (matches cmp h x) i x v in
        (some x, t', rw (run, adds), added (none_accepted i v) a)

    by_walk :
        (w : Walk)
        → walk (matches cmp h x) t h ≡ w
        → Ends (matches cmp h x) t.entries t.table_size (home t.table_size h) w
        → (r : Option Ptr) × (t' : HashTable) × (lookup t h x cmp do_add ≡ some (r, t'))
          × Looked t h x cmp do_add r t'
    by_walk (vacant i) run v = by_adding do_add i run v
    by_walk (hit i y) run e = (
      some y,
      t,
      rw run,
      found y
          (record {
            index = i;
            slot = e.slot;
            at = e.at;
            holds = e.holds;
            hashed = ground (arith, e.passes);
          })
          (ground (arith, e.passes)) refl,
    )
    by_walk past run e = absurd e
    by_walk off_end run e = absurd e
    by_walk endless run e = absurd e
