-- ===== src/Minzip/Hash.antt =====
-- The probing hash table (minzip/Hash.c). An item is a pointer: `data` is NULL in an empty slot, the
-- address HASH_TOMBSTONE in a dead one, and otherwise an item.
pub mod Contents
pub mod Probe
pub mod Valid
pub mod Resize
pub mod Create
pub mod Lookup
pub mod Remove
mod Tests
use Prim.Native.Nat.{bit_and, bit_or}
use open_recovery.Base.{
  ℕ, zero, suc, ◌+◌, ◌-◌, ◌*◌, ◌/◌, ◌%◌, ◌^◌, Bool, true, false, ◌&&◌, List, [], ◌∷◌, Option, none,
  some, length, get_elem?, set, replicate, ltb, leb, ◌==◌, if◌then◌else◌,
}

abbrev pub Ptr : Type 0
Ptr = ℕ

pub data Cell : Type 0 where
  empty tombstone : Cell
  item : Ptr → Cell

-- HashEntry
pub record Slot : Type 0 where
  pub hash_value : ℕ
  pub cell : Cell

-- HashTable; freeFunc is an argument of the operation that calls it.
pub record HashTable : Type 0 where
  pub table_size : ℕ
  pub entries : List Slot
  pub num_entries : ℕ
  pub num_dead_entries : ℕ

abbrev pub load_numer : ℕ
load_numer = 5

abbrev pub load_denom : ℕ
load_denom = 8

-- mzHashSize
unfoldable pub hash_size : ℕ → ℕ
hash_size size = size * load_denom / load_numer + 1

-- `val |= val >> k` for k = 1, 2, 4, 8, 16
unfoldable pub smears : ℕ → ℕ
smears v =
    let x1 = bit_or v (v / 2 ^ 1) in
    let x2 = bit_or x1 (x1 / 2 ^ 2) in
    let x4 = bit_or x2 (x2 / 2 ^ 4) in let x8 = bit_or x4 (x4 / 2 ^ 8) in bit_or x8 (x8 / 2 ^ 16)

-- roundUpPower2, over 32-bit words
unfoldable pub round_up_power2 : ℕ → ℕ
round_up_power2 val = (smears ((val + 2 ^ 32 - 1) % 2 ^ 32) + 1) % 2 ^ 32

abbrev pub fresh : Slot
fresh = record { hash_value = 0; cell = empty }

-- mzHashTableCreate, where memory is found; tableSize is an int, for a size of up to 2 ^ 30
unfoldable pub create : ℕ → HashTable
create initial_size =
    let size = round_up_power2 initial_size in
    record {
      table_size = size;
      entries = replicate size fresh;
      num_entries = 0;
      num_dead_entries = 0;
    }

-- How a walk over the slots ends: at an empty slot, at one that passes the test, past the only slot of
-- a table of one, at an index that is none, or not at all in the rounds that it was given.
pub data Walk : Type 0 where
  vacant : ℕ → Walk
  hit : ℕ → Ptr → Walk
  past off_end : Walk
  endless : Walk

-- `pEntry++`, and round to the start of the array; a table of one slot is left.
unfoldable pub next_slot : ℕ → ℕ → Option ℕ
next_slot size i = if suc i == size then (if size == 1 then none else some 0) else some (suc i)

-- The loops of mzHashTableLookup and mzHashTableRemove, over the test that ends them.
unfoldable pub probe : (Ptr → ℕ → Bool) → List Slot → ℕ → ℕ → ℕ → Walk
unfolding next_slot
probe test slots size zero i = endless
probe test slots size (suc fuel) i =
    let on : Walk = elim (next_slot size i) [
      | none ↦ past
      | some j ↦ probe test slots size fuel j
    ] in
    elim (get_elem? slots i) [
      | none ↦ off_end
      | some slot ↦ elim slot.cell [
        | empty ↦ vacant i
        | tombstone ↦ on
        | item x ↦ if test x slot.hash_value then hit i x else on
      ]
    ]

-- The loop of resizeHash, which goes round by the mask.
unfoldable pub find_room : List Slot → ℕ → ℕ → ℕ → Walk
find_room slots size zero i = endless
find_room slots size (suc fuel) i = elim (get_elem? slots i) [
  | none ↦ off_end
  | some slot ↦ elim slot.cell [
    | empty ↦ vacant i
    | _ ↦ find_room slots size fuel (bit_and (i + 1) (size - 1))
  ]
]

abbrev pub at_vacant : Walk → List Slot → Slot → Option (List Slot)
at_vacant (vacant i) slots s = some (set slots i s)
at_vacant (hit i x) slots s = none
at_vacant past slots s = none
at_vacant off_end slots s = none
at_vacant endless slots s = none

-- one round of the loop of resizeHash
unfoldable pub move_slot : ℕ → Slot → List Slot → Option (List Slot)
unfolding find_room
move_slot new_size slot slots = elim slot.cell [
  | empty ↦ some slots
  | tombstone ↦ some slots
  | item x ↦
      at_vacant (find_room slots new_size new_size (bit_and slot.hash_value (new_size - 1))) slots
        slot
]

unfoldable pub move_slots : ℕ → List Slot → List Slot → Option (List Slot)
unfolding move_slot
move_slots new_size [] slots = some slots
move_slots new_size (s ∷ ss) slots = elim (move_slot new_size s slots) [
  | none ↦ none
  | some slots' ↦ move_slots new_size ss slots'
]

-- resizeHash, where memory is found
unfoldable pub resize_hash : HashTable → ℕ → Option HashTable
unfolding move_slots
resize_hash t new_size = elim (move_slots new_size t.entries (replicate new_size fresh)) [
  | none ↦ none
  | some slots ↦ some (record t { table_size = new_size; entries = slots; num_dead_entries = 0 })
]

-- the new item at slot `i`, and a larger table if this brings it too close to full
unfoldable pub add_at : HashTable → ℕ → ℕ → Ptr → Option HashTable
unfolding resize_hash
add_at t i item_hash x =
    let t' : HashTable = record t {
      entries = set t.entries i (record { hash_value = item_hash; cell = item x });
      num_entries = t.num_entries + 1;
    } in
    if ltb (t'.table_size * load_numer) ((t'.num_entries + t'.num_dead_entries) * load_denom)
    then resize_hash t' (t'.table_size * 2)
    else some t'

-- `pEntry->hashValue == itemHash && (*cmpFunc)(pEntry->data, item) == 0`
abbrev pub matches : (Ptr → Ptr → Bool) → ℕ → Ptr → Ptr → ℕ → Bool
matches cmp item_hash x y hash_value = (hash_value == item_hash) && cmp y x

-- The walk from the slot of a hash; `table_size` rounds are enough while a slot is empty.
abbrev pub walk : (Ptr → ℕ → Bool) → HashTable → ℕ → Walk
walk test t item_hash =
    probe test t.entries t.table_size t.table_size (bit_and item_hash (t.table_size - 1))

abbrev finish_lookup : HashTable → ℕ → Ptr → Bool → Walk → Option (Option Ptr × HashTable)
finish_lookup t item_hash x do_add (vacant i) =
    if do_add
    then elim (add_at t i item_hash x) [ none ↦ none | some t' ↦ some (some x, t') ]
    else some (none, t)
finish_lookup t item_hash x do_add (hit i y) = some (some y, t)
finish_lookup t item_hash x do_add past = none
finish_lookup t item_hash x do_add off_end = none
finish_lookup t item_hash x do_add endless = none

-- mzHashTableLookup reads the slot that it stopped at, which `past` is none; `cmp` says where cmpFunc returns 0. No result: an access out of bounds, or a
-- loop that does not end.
unfoldable pub lookup :
    HashTable → ℕ → Ptr → (Ptr → Ptr → Bool) → Bool → Option (Option Ptr × HashTable)
unfolding probe add_at
lookup t item_hash x cmp do_add =
    finish_lookup t item_hash x do_add (walk (matches cmp item_hash x) t item_hash)

abbrev dead_slot : ℕ → Slot
dead_slot hash_value = record { hash_value = hash_value; cell = tombstone }

abbrev hash_at : List Slot → ℕ → ℕ
hash_at slots i = elim (get_elem? slots i) [ none ↦ 0 | some s ↦ s.hash_value ]

abbrev finish_remove : HashTable → Walk → Option (Bool × HashTable)
finish_remove t (hit i y) = some (
  true,
  record t {
    entries = set t.entries i (dead_slot (hash_at t.entries i));
    num_entries = t.num_entries - 1;
    num_dead_entries = t.num_dead_entries + 1;
  },
)
finish_remove t (vacant i) = some (false, t)
finish_remove t past = some (false, t)
finish_remove t off_end = none
finish_remove t endless = none

-- mzHashTableRemove, which compares addresses
unfoldable pub remove : HashTable → ℕ → Ptr → Option (Bool × HashTable)
unfolding probe
remove t item_hash x = finish_remove t (walk (λ y _. y == x) t item_hash)

-- what mzHashTableClear leaves in each slot, and the items that it hands to freeFunc
unfoldable pub clear_slots : List Slot → List Slot × List Ptr
clear_slots [] = ([], [])
clear_slots (s ∷ ss) =
    let (slots, freed) = clear_slots ss in
    elim s.cell [
      | empty ↦ (s ∷ slots, freed)
      | tombstone ↦ (record s { cell = empty } ∷ slots, freed)
      | item x ↦ (record s { cell = empty } ∷ slots, x ∷ freed)
    ]

-- mzHashTableClear
unfoldable pub clear : HashTable → HashTable × List Ptr
unfolding clear_slots
clear t =
    let (slots, freed) = clear_slots t.entries in
    (record t { entries = slots; num_entries = 0; num_dead_entries = 0 }, freed)

-- mzHashForeach: stops at the first nonzero value of `func`
unfoldable pub foreach {ℓ} : {W : Type ℓ} → (Ptr → W → ℕ × W) → List Slot → W → ℕ × W
foreach func [] w = (0, w)
foreach func (s ∷ ss) w = elim s.cell [
  | item x ↦
      let (val, w') = func x w in
      let rest = foreach func ss w' in if val == 0 then rest else (val, w')
  | _ ↦ foreach func ss w
]
