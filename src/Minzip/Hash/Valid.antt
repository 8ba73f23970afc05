-- ===== src/Minzip/Hash/Valid.antt =====
-- The invariant of the table of minzip/Hash.c, and a write into a slot that is empty.
use Prim.Native.Nat.{bit_and}
use native.Mathlib.Decide.{ℕ_discrete}
use native.Mathlib.Nat.{mod-lt}
use open_recovery.Base.{
  ℕ, ◌+◌, ◌-◌, ◌*◌, ◌^◌, ◌≤◌, ◌<◌, ◌≡◌, ◌≢◌, sym, subst, ◌∙◌, Bool, List, some, length, get_elem?,
  get_elem?-set_self, get_elem?-set_ne, lt-get_elem?, set, arith,
}
use open_recovery.Minzip.Bits.{bit_and-mask, pow2-pos}
use open_recovery.Minzip.Hash.{Ptr, empty, item, Slot, HashTable, load_numer, load_denom}
use open_recovery.Minzip.Hash.Contents.{sum, total, one, one_dead, one_empty, slots_counted}
use open_recovery.Minzip.Hash.Probe.{wrap, Vacant}

abbrev pub home : ℕ → ℕ → ℕ
home size h = bit_and h (size - 1)

-- a slot that a walk goes on from
abbrev pub IsFilled : List Slot → ℕ → Type 0
IsFilled slots i = (s : Slot) × (get_elem? slots i ≡ some s) × (s.cell ≢ empty)

-- No slot between the home of the item's hash and the item is empty.
pub record Reached (slots : List Slot) (size h i : ℕ) : Type 0 where
  pub steps : ℕ
  pub within : steps < size
  pub place : wrap size (home size h + steps) ≡ i
  pub filled : (d : ℕ) → d < steps → IsFilled slots (wrap size (home size h + d))

abbrev pub AllReached : List Slot → ℕ → Type 0
AllReached slots size =
    (i : ℕ) (s : Slot) (x : Ptr)
    → get_elem? slots i ≡ some s
    → s.cell ≡ item x
    → Reached slots size s.hash_value i

pub record IsValid (t : HashTable) : Type 0 where
  pub log_size : ℕ
  pub power : t.table_size ≡ 2 ^ log_size
  pub full : length t.entries ≡ t.table_size
  pub counted : t.num_entries ≡ total one t.entries
  pub dead : t.num_dead_entries ≡ sum one_dead t.entries
  pub load : (t.num_entries + t.num_dead_entries) * load_denom ≤ t.table_size * load_numer
  pub reached : AllReached t.entries t.table_size

pub home-lt : (k h : ℕ) {size : ℕ} → size ≡ 2 ^ k → home size h < size
home-lt k h e = rw (e, bit_and-mask) (mod-lt h (pow2-pos k))

-- a valid table always has an empty slot
pub some_empty : {t : HashTable} → IsValid t → 0 < sum one_empty t.entries
some_empty {t} v = omega (arith, slots_counted t.entries, pow2-pos v.log_size)

module _ (slots : List Slot) (i : ℕ) (old s : Slot) (there : get_elem? slots i ≡ some old)
    (is : s.cell ≢ empty) where
  written : get_elem? (set slots i s) i ≡ some s
  written = get_elem?-set_self slots i s (lt-get_elem? slots i there)

  -- a slot stays filled when an item or a tombstone is written somewhere
  pub IsFilled-set : (j : ℕ) → IsFilled slots j → IsFilled (set slots i s) j
  IsFilled-set j (t, at, e) = elim (ℕ_discrete i j) [
    | yes same ↦ (s, subst (λ n. get_elem? (set slots i s) n ≡ some s) same written, is)
    | no other ↦ (t, get_elem?-set_ne slots i j s other ∙ at, e)
  ]

  Reached-set : (size h j : ℕ) → Reached slots size h j → Reached (set slots i s) size h j
  Reached-set size h j r = record {
    steps = r.steps;
    within = r.within;
    place = r.place;
    filled = λ d k. IsFilled-set _ (r.filled d k);
  }

  -- If the new slot holds no item, or one that its home reaches, every item stays reached.
  pub AllReached-set :
      (size : ℕ)
      → ((y : Ptr) → s.cell ≡ item y → Reached slots size s.hash_value i)
      → AllReached slots size
      → AllReached (set slots i s) size
  AllReached-set size new all j t y at e = elim (ℕ_discrete i j) [
    | yes same ↦
        let at' : get_elem? (set slots i s) i ≡ some t =
          subst (λ n. get_elem? (set slots i s) n ≡ some t) (sym same) at in
        let here : s ≡ t = cc (at', written) in
        subst (λ n. Reached (set slots i s) size t.hash_value n) same
          (subst {A = Slot} (λ u. Reached (set slots i s) size u.hash_value i) {x = s} {y = t} here
            (Reached-set size s.hash_value i (new y (rw here e))))
    | no other ↦
        Reached-set size t.hash_value j
          (all j t y (sym (get_elem?-set_ne slots i j s other) ∙ at) e)
  ]

-- A walk that ended at an empty slot has passed only slots that are filled.
pub Vacant-Reached :
    (test : Ptr → ℕ → Bool) (slots : List Slot) (size h i : ℕ)
    → Vacant test slots size (home size h) i
    → Reached slots size h i
Vacant-Reached test slots size h i v = record {
  steps = v.steps;
  within = v.within;
  place = sym v.place;
  filled = λ d k. let p = v.before d k in (p.slot, p.at, p.filled);
}
