-- ===== src/Minzip/Hash/Resize.antt =====
-- resizeHash of minzip/Hash.c.
use Prim.Native.Nat.{bit_and}
use mathlib.Core.Bool.{false≢true}
use native.Mathlib.Decide.{ℕ_discrete}
use native.Mathlib.Nat.{mod-eq_of_lt, mod_self, pow-suc}
use open_recovery.Base.{
  ℕ, zero, suc, ◌+◌, ◌-◌, ◌*◌, ◌^◌, ◌%◌, ◌<◌, ◌≡◌, inl, inr, refl, sym, ◌∙◌, Bool, false, List, [],
  ◌∷◌, some, length, get_elem?, set, length-set, length-replicate, replicate, ◌==◌, if◌then◌else◌,
  arith,
}
use open_recovery.Minzip.Bits.{bit_and-mask, pow2-pos}
use open_recovery.Minzip.Hash.{
  Ptr, empty, item, Slot, fresh, HashTable, Walk, vacant, hit, past, off_end, endless, next_slot,
  probe, find_room, move_slot, move_slots, resize_hash,
}
use open_recovery.Minzip.Hash.Contents.{
  Cell-cases, sum, sum-set, sum-fresh, weight, total, one, one_dead, slots_counted,
}
use open_recovery.Minzip.Hash.Probe.{Vacant, Ends, probe-Ends}
use open_recovery.Minzip.Hash.Valid.{
  home, home-lt, AllReached, AllReached-set, Vacant-Reached, IsValid,
}

abbrev never : Ptr → ℕ → Bool
never x h = false

next_mod : (i size : ℕ) → i < size → (i + 1) % size ≡ (if suc i == size then 0 else suc i)
next_mod i size b = elim (ℕ_discrete (suc i) size) [
  | yes same ↦ let last : i + 1 ≡ size = omega arith in rw (last, same, mod_self) (ground arith)
  | no other ↦ let near : i + 1 < size = omega arith in rw (mod-eq_of_lt near) (ground arith)
]

mask_step :
    (k size i : ℕ)
    → size ≡ 2 ^ k
    → 1 < size
    → i < size
    → next_slot size i ≡ some (bit_and (i + 1) (size - 1))
unfolding next_slot
mask_step k size i e h b =
    let masked : bit_and (i + 1) (size - 1) ≡ (i + 1) % size = rw (e, bit_and-mask) in
    rw (masked, next_mod i size b) (ground arith)

-- Going round by the mask is going round by the end of the array.
find_room-probe :
    (slots : List Slot) (k size : ℕ)
    → size ≡ 2 ^ k
    → 1 < size
    → (fuel i : ℕ) → i < size
    → find_room slots size fuel i ≡ probe never slots size fuel i
unfolding find_room probe
find_room-probe slots k size e h zero i b = refl
find_room-probe slots k size e h (suc fuel) i b =
    let on = mask_step k size i e h b in
    let ih =
      find_room-probe slots k size e h fuel (bit_and (i + 1) (size - 1)) (home-lt k (i + 1) e) in
    ground arith

-- slots that are being filled: no tombstone, and every item in reach of its home
record Growing (size : ℕ) (slots : List Slot) : Type 0 where
  full : length slots ≡ size
  clean : sum one_dead slots ≡ 0
  reached : AllReached slots size

-- `slots'` has what `slots` has and the item of `s`
record Moved (size : ℕ) (slots : List Slot) (more : (ℕ → Ptr → ℕ) → ℕ) (slots' : List Slot)
    : Type 0 where
  grows : Growing size slots'
  holds : (w : ℕ → Ptr → ℕ) → total w slots' ≡ total w slots + more w

module _ (k size : ℕ) (power : size ≡ 2 ^ k) (wide : 1 < size) where
  put_item :
      (slots : List Slot) (s : Slot) (x : Ptr) (i : ℕ)
      → Growing size slots
      → s.cell ≡ item x
      → Vacant never slots size (home size s.hash_value) i
      → Moved size slots (λ w. weight w s) (set slots i s)
  put_item slots s x i g e v =
      let (old, at, free) = v.free in
      record {
        grows = record {
          full = length-set slots i s ∙ g.full;
          clean = ground (arith, sum-set one_dead slots i s old at, g.clean);
          reached =
              AllReached-set slots i old s at (λ q. cc) size
                (λ y q. Vacant-Reached never slots size s.hash_value i v) g.reached;
        };
        holds = λ w. ground (arith, sum-set (weight w) slots i s old at);
      }

  move_slot-Moved :
      (slots : List Slot) (s : Slot)
      → Growing size slots
      → total one slots < size
      → (slots' : List Slot) × (move_slot size s slots ≡ some slots')
        × Moved size slots (λ w. weight w s) slots'
  unfolding move_slot
  move_slot-Moved slots s g room = elim (Cell-cases s.cell) [
    | inl e ↦ (slots, ground arith, record { grows = g; holds = λ w. ground arith })
    | inr (inl e) ↦ (slots, ground arith, record { grows = g; holds = λ w. ground arith })
    | inr (inr (x, e)) ↦
        let h = home size s.hash_value in
        let ends =
          probe-Ends never slots size h (home-lt k s.hash_value power) g.full
            (omega (arith, slots_counted slots, g.clean, g.full)) in
        by_walk x e (probe never slots size size h)
          (find_room-probe slots k size power wide size h (home-lt k s.hash_value power)) ends
  ]
    where
      by_walk :
          (x : Ptr)
          → s.cell ≡ item x
          → (walk : Walk) → find_room slots size size (home size s.hash_value) ≡ walk
          → Ends never slots size (home size s.hash_value) walk
          → (slots' : List Slot) × (move_slot size s slots ≡ some slots')
            × Moved size slots (λ w. weight w s) slots'
      by_walk x e (vacant i) run v = (set slots i s, ground arith, put_item slots s x i g e v)
      by_walk x e (hit i y) run v = absurd (false≢true v.passes)
      by_walk x e past run v = absurd v
      by_walk x e off_end run v = absurd v
      by_walk x e endless run v = absurd v

  move_slots-Moved :
      (ss slots : List Slot)
      → Growing size slots
      → total one slots + total one ss < size
      → (slots' : List Slot) × (move_slots size ss slots ≡ some slots')
        × Moved size slots (λ w. total w ss) slots'
  unfolding move_slots sum
  move_slots-Moved [] slots g room = (slots, refl, record { grows = g; holds = λ w. omega arith })
  move_slots-Moved (s ∷ ss) slots g room =
      let (one_more, run, m) = move_slot-Moved slots s g (omega arith) in
      let (done, runs, ms) = move_slots-Moved ss one_more m.grows (omega (arith, m.holds one)) in
      (
        done,
        rw (run, move_slots) runs,
        record { grows = ms.grows; holds = λ w. omega (arith, m.holds w, ms.holds w) },
      )

pub fresh_only : (n i : ℕ) (s : Slot) → get_elem? (replicate n fresh) i ≡ some s → s.cell ≡ empty
fresh_only zero i s h = absurd (ground arith)
fresh_only (suc n) zero s h = let same : fresh ≡ s = cc in rw (← same)
fresh_only (suc n) (suc i) s h = fresh_only n i s h

replicate-Growing : (size : ℕ) → Growing size (replicate size fresh)
replicate-Growing size = record {
  full = length-replicate size fresh;
  clean = sum-fresh one_dead size ∙ omega arith;
  reached = λ i s x at e. absurd (ground (arith, fresh_only size i s at));
}

-- Doubling a hash table whose size is a power of two and that counts its items gives a valid table
-- with the same items under the same hashes.
pub resize_hash-IsValid :
    (t : HashTable) (k : ℕ)
    → t.table_size ≡ 2 ^ k
    → length t.entries ≡ t.table_size
    → t.num_entries ≡ total one t.entries
    → (t' : HashTable) × (resize_hash t (t.table_size * 2) ≡ some t')
      × IsValid t'
      × (t'.num_entries ≡ t.num_entries)
      × ((w : ℕ → Ptr → ℕ) → total w t'.entries ≡ total w t.entries)
unfolding resize_hash
resize_hash-IsValid t k power full counted =
    let size = t.table_size * 2 in
    let double : size ≡ 2 ^ suc k = rw (pow-suc, power) in
    let start = replicate-Growing size in
    let none_yet = λ (w : ℕ → Ptr → ℕ). sum-fresh (weight w) size in
    let (slots, run, m) =
      move_slots-Moved (suc k) size double (omega (arith, power, pow2-pos k)) t.entries
        (replicate size fresh) start
        (omega (arith, none_yet one, slots_counted t.entries, pow2-pos k)) in
    (
      record t { table_size = size; entries = slots; num_dead_entries = 0 },
      rw (run, resize_hash),
      record {
        log_size = suc k;
        power = double;
        full = m.grows.full;
        counted = omega (arith, counted, m.holds one, none_yet one);
        dead = sym m.grows.clean;
        load = omega (arith, counted, slots_counted t.entries);
        reached = m.grows.reached;
      },
      refl,
      λ w. omega (arith, m.holds w, none_yet w),
    )
