-- ===== src/Minzip/Hash/Contents.antt =====
-- What the slots of the table of minzip/Hash.c hold, counted.
use open_recovery.Base.{
  ℕ, zero, suc, ◌+◌, ◌*◌, ◌<◌, ◌≡◌, ◌⊎◌, inl, inr, refl, ap, List, [], ◌∷◌, some, length, get_elem?,
  set, replicate, arith,
}
use open_recovery.Minzip.Hash.{Ptr, Cell, empty, tombstone, item, Slot, fresh}

pub Cell-cases : (c : Cell) → (c ≡ empty) ⊎ ((c ≡ tombstone) ⊎ ((x : Ptr) × (c ≡ item x)))
Cell-cases empty = inl refl
Cell-cases tombstone = inr (inl refl)
Cell-cases (item x) = inr (inr (x, refl))

-- a weight of each item, by its hash and its address
abbrev pub weight : (ℕ → Ptr → ℕ) → Slot → ℕ
weight w s = elim s.cell [ item x ↦ w s.hash_value x | _ ↦ 0 ]

abbrev pub one_dead : Slot → ℕ
one_dead s = elim s.cell [ tombstone ↦ 1 | _ ↦ 0 ]

abbrev pub one_empty : Slot → ℕ
one_empty s = elim s.cell [ empty ↦ 1 | _ ↦ 0 ]

abbrev pub one : ℕ → Ptr → ℕ
one h x = 1

unfoldable pub sum : (Slot → ℕ) → List Slot → ℕ
sum f [] = 0
sum f (s ∷ ss) = f s + sum f ss

-- Two lists of slots hold the same items, each as often, when every weight has the same total.
abbrev pub total : (ℕ → Ptr → ℕ) → List Slot → ℕ
total w = sum (weight w)

pub sum-set :
    (f : Slot → ℕ) (ss : List Slot) (i : ℕ) (s old : Slot)
    → get_elem? ss i ≡ some old
    → sum f (set ss i s) + f old ≡ sum f ss + f s
unfolding sum
sum-set f [] i s old h = absurd (ground arith)
sum-set f (x ∷ ss) zero s old h = let same : x ≡ old = cc in omega (arith, ap f same)
sum-set f (x ∷ ss) (suc i) s old h = omega (arith, sum-set f ss i s old h)

pub sum-fresh : (f : Slot → ℕ) (n : ℕ) → sum f (replicate n fresh) ≡ n * f fresh
unfolding sum
sum-fresh f zero = omega arith
sum-fresh f (suc n) = grind (arith, sum-fresh f n)

pub slots_counted : (ss : List Slot) → total one ss + sum one_dead ss + sum one_empty ss ≡ length ss
unfolding sum
slots_counted [] = omega arith
slots_counted (s ∷ ss) = elim (Cell-cases s.cell) [
  | inl e ↦ rw e (omega (arith, slots_counted ss))
  | inr (inl e) ↦ rw e (omega (arith, slots_counted ss))
  | inr (inr (x, e)) ↦ rw e (omega (arith, slots_counted ss))
]

-- a slot in which `c` stands
abbrev pub HasCell : List Slot → ℕ → Cell → Type 0
HasCell ss i c = (s : Slot) × (get_elem? ss i ≡ some s) × (s.cell ≡ c)

pub empty_slot :
    (ss : List Slot) → 0 < sum one_empty ss → (i : ℕ) × (i < length ss) × HasCell ss i empty
unfolding sum
empty_slot [] h = absurd (omega arith)
empty_slot (s ∷ ss) h = elim (Cell-cases s.cell) [
  | inl e ↦ (0, omega arith, (s, refl, e))
  | inr other ↦ let (i, p, q) = empty_slot ss (ground arith) in (suc i, omega arith, q)
]
