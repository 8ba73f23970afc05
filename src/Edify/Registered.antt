-- ===== src/Edify/Registered.antt =====
-- The table that RegisterBuiltins and FinishRegistration build (edify/expr.c).
use open_recovery.Base.{
  ℕ, ◌≤◌, ◌≡◌, refl, sym, ◌∙◌, subst, inl, inr, List, [], ◌∷◌, Option, some, Bool-cases, Bytes,
  codes, if◌then◌else◌, arith, bytes_eq, bytes_eq_iff,
}
use open_recovery.Edify.Eval.{Function}
use open_recovery.Edify.Table.{
  NamedFunction, empty_table, register_builtins, finish_registration, find_function, entry_fn,
}
use open_recovery.Edify.Sorted.{lookup_name, AllDistinct}
use open_recovery.Edify.Lookup.{find_function-finish_registration}
use open_recovery.Edify.Suits.{
  Suits, abort_fn-Suits, assert_fn-Suits, concat_fn-Suits, greater_than_int_fn-Suits,
  if_else_fn-Suits, less_than_int_fn-Suits, sleep_fn-Suits, stdout_fn-Suits, substring_fn-Suits,
}
use open_recovery.Edify.Safety.{AllSuit}

-- the least number of arguments: SubstringFn and SleepFn read theirs without a test of `argc`
unfoldable pub builtin_minimum : Bytes → ℕ
unfolding bytes_eq
builtin_minimum name =
    if bytes_eq name (codes "is_substring")
    then 2
    else if bytes_eq name (codes "sleep")
    then 1
    else 0

-- the program of edify/main.c before it parses
unfoldable pub builtin_find : Bytes → Option Function
builtin_find = find_function (finish_registration (register_builtins empty_table))

abbrev EntriesSuit : Bytes → (Bytes → ℕ) → List NamedFunction → Type 0
EntriesSuit script minimum [] = Unit
EntriesSuit script minimum (e ∷ es) =
    ((n : ℕ) → minimum e.name ≤ n → Suits script e.fn n) × EntriesSuit script minimum es

lookup-Suits :
    (script : Bytes) (minimum : Bytes → ℕ) (es : List NamedFunction) (name : Bytes) (fn : Function)
    (n : ℕ)
    → EntriesSuit script minimum es
    → entry_fn (lookup_name name es) ≡ some fn
    → minimum name ≤ n
    → Suits script fn n
unfolding lookup_name entry_fn
lookup-Suits script minimum [] name fn n all h k = absurd (ground arith)
lookup-Suits script minimum (e ∷ es) name fn n all h k = elim (Bool-cases (bytes_eq e.name name)) [
  | inl same ↦
      let named : e.name ≡ name = (bytes_eq_iff e.name name).0 same in
      let is : e.fn ≡ fn = ground arith in subst (λ f. Suits script f n) is (all.0 n (rw named k))
  | inr other ↦ lookup-Suits script minimum es name fn n all.1 (ground arith) k
]

pub builtins-AllDistinct : AllDistinct (register_builtins empty_table).entries
unfolding register_builtins lookup_name bytes_eq
builtins-AllDistinct = (refl, (refl, (refl, (refl, (refl, (refl, (refl, (refl, (refl, tt)))))))))

builtins-EntriesSuit :
    (script : Bytes) → EntriesSuit script builtin_minimum (register_builtins empty_table).entries
unfolding register_builtins builtin_minimum
builtins-EntriesSuit script = (
  (λ n _. if_else_fn-Suits n),
  (
    (λ n _. abort_fn-Suits n),
    (
      (λ n _. assert_fn-Suits n),
      (
        (λ n _. concat_fn-Suits n),
        (
          substring_fn-Suits,
          (
            (λ n _. stdout_fn-Suits n),
            (
              sleep_fn-Suits,
              ((λ n _. less_than_int_fn-Suits n), ((λ n _. greater_than_int_fn-Suits n), tt)),
            ),
          ),
        ),
      ),
    ),
  ),
)

-- Whatever FindFunction returns for a name among the built-in functions suits every number of
-- arguments that is at least two for is_substring, one for sleep, and none otherwise.
pub builtin_find-AllSuit : (script : Bytes) → AllSuit script builtin_minimum builtin_find
unfolding builtin_find
builtin_find-AllSuit script name fn n h k =
    lookup-Suits script builtin_minimum (register_builtins empty_table).entries name fn n
      (builtins-EntriesSuit script)
      (sym (
          find_function-finish_registration (register_builtins empty_table) name
            builtins-AllDistinct)
        ∙ h)
      k
