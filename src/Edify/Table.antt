-- ===== src/Edify/Table.antt =====
-- The function table (edify/expr.c): an array that RegisterFunction fills, qsort orders by name and
-- bsearch searches.
use Prim.Native.Nat.{compare, Ordering}
use open_recovery.Base.{
  ℕ, zero, suc, ◌+◌, ◌*◌, ◌/◌, List, [], ◌∷◌, ◌++◌, Option, none, some, Bytes, codes, length,
  get_elem?, leb, if◌then◌else◌,
}
use open_recovery.Edify.Eval.{Function}
use open_recovery.Edify.Builtins.{
  if_else_fn, abort_fn, assert_fn, concat_fn, substring_fn, stdout_fn, sleep_fn, less_than_int_fn,
  greater_than_int_fn,
}

pub record NamedFunction : Type 0 where
  pub name : Bytes
  pub fn : Function

-- fn_size, and the fn_entries used places of fn_table
pub record FunctionTable : Type 0 where
  pub size : ℕ
  pub entries : List NamedFunction

abbrev pub empty_table : FunctionTable
empty_table = record { size = 0; entries = [] }

-- RegisterFunction: the array grows to twice its size and one more when it is full.
unfoldable pub register_function : Bytes → Function → FunctionTable → FunctionTable
register_function name fn table = record {
  size = if leb table.size (length table.entries) then table.size * 2 + 1 else table.size;
  entries = table.entries ++ record { name = name; fn = fn } ∷ [];
}

-- the sign of strcmp, over unsigned characters
unfoldable pub strcmp : Bytes → Bytes → Ordering
strcmp [] [] = Ordering.eq
strcmp [] (y ∷ ys) = Ordering.lt
strcmp (x ∷ xs) [] = Ordering.gt
strcmp (x ∷ xs) (y ∷ ys) = elim (compare x y) [
  | Ordering.lt ↦ Ordering.lt
  | Ordering.gt ↦ Ordering.gt
  | Ordering.eq ↦ strcmp xs ys
]

-- fn_entry_compare
abbrev pub fn_entry_compare : NamedFunction → NamedFunction → Ordering
fn_entry_compare a b = strcmp a.name b.name

unfoldable pub insert_entry : NamedFunction → List NamedFunction → List NamedFunction
insert_entry a [] = a ∷ []
insert_entry a (b ∷ es) = elim (fn_entry_compare a b) [
  | Ordering.gt ↦ b ∷ insert_entry a es
  | _ ↦ a ∷ b ∷ es
]

-- `qsort(…, fn_entry_compare)`: the C library promises no more than a sorted array.
unfoldable pub sort_entries : List NamedFunction → List NamedFunction
unfolding insert_entry
sort_entries [] = []
sort_entries (a ∷ es) = insert_entry a (sort_entries es)

-- FinishRegistration
unfoldable pub finish_registration : FunctionTable → FunctionTable
unfolding sort_entries
finish_registration table = record table { entries = sort_entries table.entries }

-- `bsearch`: the interval from `lo` halves in each of at most `fuel` rounds.
unfoldable pub bsearch : ℕ → Bytes → List NamedFunction → ℕ → ℕ → Option NamedFunction
unfolding strcmp
bsearch zero key es lo hi = none
bsearch (suc fuel) key es lo hi =
    let left = bsearch fuel key es lo ((lo + hi) / 2) in
    let right = bsearch fuel key es (suc ((lo + hi) / 2)) hi in
    if leb hi lo then none else elim (get_elem? es ((lo + hi) / 2)) [
      | none ↦ none
      | some e ↦ elim (strcmp key e.name) [
        | Ordering.lt ↦ left
        | Ordering.gt ↦ right
        | Ordering.eq ↦ some e
      ]
    ]

unfoldable pub entry_fn : Option NamedFunction → Option Function
entry_fn none = none
entry_fn (some e) = some e.fn

-- FindFunction
unfoldable pub find_function : FunctionTable → Bytes → Option Function
unfolding bsearch entry_fn
find_function table name =
    let n = length table.entries in entry_fn (bsearch (suc n) name table.entries 0 n)

-- RegisterBuiltins
unfoldable pub register_builtins : FunctionTable → FunctionTable
unfolding register_function
register_builtins table =
    let t1 = register_function (codes "ifelse") if_else_fn table in
    let t2 = register_function (codes "abort") abort_fn t1 in
    let t3 = register_function (codes "assert") assert_fn t2 in
    let t4 = register_function (codes "concat") concat_fn t3 in
    let t5 = register_function (codes "is_substring") substring_fn t4 in
    let t6 = register_function (codes "stdout") stdout_fn t5 in
    let t7 = register_function (codes "sleep") sleep_fn t6 in
    let t8 = register_function (codes "less_than_int") less_than_int_fn t7 in
    register_function (codes "greater_than_int") greater_than_int_fn t8
