-- ===== src/Minzip/Hash/Tests.antt =====
-- The theorems about the hash table at small tables, and runs of its operations.
use open_recovery.Base.{
  ℕ, ◌*◌, ◌≤◌, ◌<◌, ◌≡◌, refl, Bool, true, false, Option, none, some, ◌==◌, arith,
}
use open_recovery.Minzip.Hash.{
  Ptr, HashTable, hash_size, load_numer, load_denom, round_up_power2, create, lookup, remove,
  resize_hash, clear,
}
use open_recovery.Minzip.Hash.Contents.{total}
use open_recovery.Minzip.Hash.Valid.{IsValid}
use open_recovery.Minzip.Hash.Create.{create-IsValid}
use open_recovery.Minzip.Hash.Resize.{resize_hash-IsValid}
use open_recovery.Minzip.Hash.Lookup.{Looked, lookup-Looked}
use open_recovery.Minzip.Hash.Remove.{Removed, remove-Removed}

create-IsValid_example :
    IsValid (create 3)
    × ((w : ℕ → Ptr → ℕ) → total w (create 3).entries ≡ 0)
    × (3 ≤ (create 3).table_size)
    × ((create 3).table_size < 2 * 3)
create-IsValid_example = create-IsValid 3 (omega arith) (omega arith)

empty_table-IsValid : IsValid (create 3)
empty_table-IsValid = (create-IsValid 3 (omega arith) (omega arith)).0

abbrev same : Ptr → Ptr → Bool
same a b = a == b

lookup-Looked_example :
    (r : Option Ptr) × (t : HashTable) × (lookup (create 3) 7 100 same true ≡ some (r, t))
    × Looked (create 3) 7 100 same true r t
lookup-Looked_example = lookup-Looked (create 3) 7 100 same true empty_table-IsValid

remove-Removed_example :
    (b : Bool) × (t : HashTable) × (remove (create 3) 7 100 ≡ some (b, t))
    × IsValid t
    × Removed (create 3) 7 100 b t
remove-Removed_example = remove-Removed (create 3) 7 100 empty_table-IsValid

-- Three items with one hash, the second removed, the third still found.
abbrev three : Option (Option Ptr × HashTable)
three = elim (lookup (create 4) 5 100 same true) [
  | none ↦ none
  | some (r, t) ↦ elim (lookup t 5 200 same true) [
    | none ↦ none
    | some (r, t) ↦ elim (remove t 5 100) [ none ↦ none | some (b, t) ↦ lookup t 5 200 same false ]
  ]
]

abbrev first : Option (Option Ptr × HashTable) → Option Ptr
first none = none
first (some (r, t)) = r

found_past_tombstone : first three ≡ some 200
unfolding create round_up_power2 open_recovery.Minzip.Hash.smears lookup remove
found_past_tombstone = refl

resize_hash-IsValid_example :
    (t : HashTable) × (resize_hash (create 3) ((create 3).table_size * 2) ≡ some t)
    × IsValid t
    × (t.num_entries ≡ (create 3).num_entries)
    × ((w : ℕ → Ptr → ℕ) → total w t.entries ≡ total w (create 3).entries)
resize_hash-IsValid_example =
    resize_hash-IsValid (create 3) empty_table-IsValid.log_size empty_table-IsValid.power
      empty_table-IsValid.full empty_table-IsValid.counted
