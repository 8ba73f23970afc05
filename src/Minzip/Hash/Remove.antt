-- ===== src/Minzip/Hash/Remove.antt =====
-- mzHashTableRemove and mzHashTableClear of minzip/Hash.c.
use open_recovery.Base.{
  ℕ, zero, suc, ◌+◌, ◌-◌, ◌≡◌, inl, inr, refl, ap, sym, ◌∙◌, Bool, true, false, List, [], ◌∷◌, some,
  length, get_elem?, set, length-set, ◌==◌, ==_iff, arith,
}
use open_recovery.Minzip.Hash.{
  Ptr, empty, item, Slot, HashTable, Walk, vacant, hit, past, off_end, endless, walk, remove, clear,
  clear_slots, dead_slot, hash_at,
}
use open_recovery.Minzip.Hash.Contents.{Cell-cases, sum, sum-set, weight, total, one, one_dead}
use open_recovery.Minzip.Hash.Probe.{Ends}
use open_recovery.Minzip.Hash.Valid.{home, AllReached-set, IsValid}
use open_recovery.Minzip.Hash.Lookup.{Stored, walk-Ends, Vacant-fails}

abbrev same_address : Ptr → Ptr → ℕ → Bool
same_address x y h = y == x

-- what removing the address `x` from under hash `h` did
pub data Removed (t : HashTable) (h : ℕ) (x : Ptr) : Bool → HashTable → Type 0 where
  gone :
      {t' : HashTable} (stored_hash : ℕ)
      → Stored t stored_hash x
      → ((w : ℕ → Ptr → ℕ) → total w t'.entries + w stored_hash x ≡ total w t.entries)
      → Removed t h x true t'
  missing : {t' : HashTable} → ¬ Stored t h x → t' ≡ t → Removed t h x false t'

-- In a valid hash table the removal ends, makes no access out of bounds and keeps the table valid.
-- It takes out one item at the address and keeps all others, or returns false and changes nothing,
-- which happens only where the address is not stored under the hash.
pub remove-Removed :
    (t : HashTable) (h : ℕ) (x : Ptr)
    → IsValid t
    → (b : Bool) × (t' : HashTable) × (remove t h x ≡ some (b, t'))
      × IsValid t'
      × Removed t h x b t'
unfolding remove
remove-Removed t h x valid =
    by_walk (walk (same_address x) t h) refl (walk-Ends valid h (same_address x))
  where
    by_walk :
        (w : Walk)
        → walk (same_address x) t h ≡ w
        → Ends (same_address x) t.entries t.table_size (home t.table_size h) w
        → (b : Bool) × (t' : HashTable) × (remove t h x ≡ some (b, t'))
          × IsValid t'
          × Removed t h x b t'
    by_walk (vacant i) run v = (
      false,
      t,
      rw run,
      valid,
      missing (λ s. ground (arith, Vacant-fails valid h (same_address x) i x v s)) refl,
    )
    by_walk (hit i y) run e =
        let same : y ≡ x = (==_iff y x).0 e.passes in
        let dead : Slot = dead_slot (hash_at t.entries i) in
        let change = λ (f : Slot → ℕ). sum-set f t.entries i dead e.slot e.at in
        let counts : total one (set t.entries i dead) + 1 ≡ total one t.entries =
          ground (arith, change (weight one), e.holds) in
        let deads : sum one_dead (set t.entries i dead) ≡ sum one_dead t.entries + 1 =
          ground (arith, change one_dead, e.holds) in
        (
          true,
          record t {
            entries = set t.entries i dead;
            num_entries = t.num_entries - 1;
            num_dead_entries = t.num_dead_entries + 1;
          },
          rw run,
          record {
            log_size = valid.log_size;
            power = valid.power;
            full = length-set t.entries i dead ∙ valid.full;
            counted = omega (arith, valid.counted, counts);
            dead = omega (arith, valid.dead, deads);
            load = omega (arith, valid.load, valid.counted, counts);
            reached =
                AllReached-set t.entries i e.slot dead e.at (λ q. cc) t.table_size (λ y' q. cc)
                  valid.reached;
          },
          gone e.slot.hash_value
              (record {
                index = i;
                slot = e.slot;
                at = e.at;
                holds = e.holds ∙ ap item same;
                hashed = refl;
              })
              (λ w. ground (arith, change (weight w), e.holds, same)),
        )
    by_walk past run e = absurd e
    by_walk off_end run e = absurd e
    by_walk endless run e = absurd e

abbrev pub sum_of : (Ptr → ℕ) → List Ptr → ℕ
sum_of f [] = 0
sum_of f (x ∷ xs) = f x + sum_of f xs

-- slots that are all empty
abbrev AllEmpty : List Slot → Type 0
AllEmpty [] = Unit
AllEmpty (s ∷ ss) = (s.cell ≡ empty) × AllEmpty ss

clear_slots-AllEmpty : (ss : List Slot) → AllEmpty (clear_slots ss).0
unfolding clear_slots
clear_slots-AllEmpty [] = tt
clear_slots-AllEmpty (s ∷ ss) = elim (Cell-cases s.cell) [
  | inl e ↦ rw e (refl, clear_slots-AllEmpty ss)
  | inr (inl e) ↦ rw e (refl, clear_slots-AllEmpty ss)
  | inr (inr (x, e)) ↦ rw e (refl, clear_slots-AllEmpty ss)
]

length-clear_slots : (ss : List Slot) → length (clear_slots ss).0 ≡ length ss
unfolding clear_slots
length-clear_slots [] = refl
length-clear_slots (s ∷ ss) = ground (arith, length-clear_slots ss)

freed-clear_slots :
    (f : Ptr → ℕ) (ss : List Slot) → sum_of f (clear_slots ss).1 ≡ total (λ h x. f x) ss
unfolding clear_slots sum
freed-clear_slots f [] = refl
freed-clear_slots f (s ∷ ss) = ground (arith, freed-clear_slots f ss)

sum-AllEmpty :
    (f : Slot → ℕ) (ss : List Slot)
    → ((s : Slot) → s.cell ≡ empty → f s ≡ 0)
    → AllEmpty ss
    → sum f ss ≡ 0
unfolding sum
sum-AllEmpty f [] zero_at h = refl
sum-AllEmpty f (s ∷ ss) zero_at h = omega (arith, zero_at s h.0, sum-AllEmpty f ss zero_at h.1)

get-AllEmpty :
    (ss : List Slot) (i : ℕ) (s : Slot) → AllEmpty ss → get_elem? ss i ≡ some s → s.cell ≡ empty
get-AllEmpty [] i s h e = absurd (ground arith)
get-AllEmpty (x ∷ ss) zero s h e = let same : x ≡ s = cc in rw (← same) h.0
get-AllEmpty (x ∷ ss) (suc i) s h e = get-AllEmpty ss i s h.1 e

-- Clearing a valid table leaves a valid table of the same size with no item, and hands to freeFunc
-- the items of the table, each as often as it stood there.
pub clear-IsValid :
    (t : HashTable)
    → IsValid t
    → IsValid (clear t).0
      × ((w : ℕ → Ptr → ℕ) → total w (clear t).0.entries ≡ 0)
      × ((f : Ptr → ℕ) → sum_of f (clear t).1 ≡ total (λ h x. f x) t.entries)
unfolding clear
clear-IsValid t valid =
    let none_left = clear_slots-AllEmpty t.entries in
    let at_zero = λ (f : Slot → ℕ) (z : (s : Slot) → s.cell ≡ empty → f s ≡ 0).
      sum-AllEmpty f (clear_slots t.entries).0 z none_left in
    (
      record {
        log_size = valid.log_size;
        power = valid.power;
        full = length-clear_slots t.entries ∙ valid.full;
        counted = sym (at_zero (weight one) (λ s e. rw e));
        dead = sym (at_zero one_dead (λ s e. rw e));
        load = omega arith;
        reached = λ i s x at e. absurd (ground (arith, get-AllEmpty _ i s none_left at));
      },
      λ w. at_zero (weight w) (λ s e. rw e),
      λ f. freed-clear_slots f t.entries,
    )
