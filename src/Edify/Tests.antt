-- ===== src/Edify/Tests.antt =====
-- The theorems about edify at concrete scripts, and evaluations that edify/main.c expects.
use open_recovery.Base.{ℕ, ◌≡◌, refl, [], ◌∷◌, none, some, Bytes, codes, arith}
use open_recovery.Edify.State.{State, done, fault, ◌>>=◌}
use open_recovery.Edify.Eval.{Arg, Expr, evaluate_value, evaluate, return_string}
use open_recovery.Edify.Grammar.{Loc, Syntax, string, call, empty, argument, elaborate, arg_count}
use open_recovery.Edify.Keeps.{Fine, IsSized}
use open_recovery.Edify.Safety.{Fits, AllSuit, evaluate_value-elaborate}
use open_recovery.Edify.Table.{
  register_builtins, empty_table, finish_registration, find_function, entry_fn,
}
use open_recovery.Edify.Sorted.{lookup_name}
use open_recovery.Edify.Lookup.{find_function-finish_registration}
use open_recovery.Edify.Registered.{
  builtin_find, builtin_minimum, builtin_find-AllSuit, builtins-AllDistinct,
}
use open_recovery.Edify.Laws.{lone, concat_fn_assoc, substring_fn_one_argument}
use open_recovery.Edify.Builtins.{concat_fn, substring_fn}

abbrev at_place : ℕ → ℕ → Loc
at_place a b = record { start = a; end = b }

abbrev over : Bytes → State
over text = record { script = text; errmsg = none; stdout = []; not_ints = []; naps = [] }

abbrev substring_script : Bytes
substring_script = codes "is_substring(cad, abracadabra)"

abbrev substring_syntax : Syntax
substring_syntax =
    call (codes "is_substring")
      (argument (string (codes "cad") (at_place 13 16))
        (argument (string (codes "abracadabra") (at_place 18 29)) empty))
      (at_place 0 30)

substring-Fits : Fits substring_script builtin_minimum substring_syntax
unfolding Fits builtin_minimum arg_count
substring-Fits = omega arith

substring_expr : (e : Expr) × (elaborate builtin_find substring_syntax ≡ some e)
unfolding elaborate builtin_find find_function finish_registration register_builtins
substring_expr = (_, refl)

evaluate_value-elaborate_example :
    Fine IsSized substring_script (evaluate_value substring_expr.0 (over substring_script))
evaluate_value-elaborate_example =
    evaluate_value-elaborate {script = substring_script} builtin_minimum builtin_find
      (builtin_find-AllSuit substring_script) substring_syntax substring_expr.0
      (over substring_script) substring-Fits substring_expr.1 refl

find_function-finish_registration_example :
    find_function (finish_registration (register_builtins empty_table)) (codes "sleep")
    ≡ entry_fn (lookup_name (codes "sleep") (register_builtins empty_table).entries)
find_function-finish_registration_example =
    find_function-finish_registration (register_builtins empty_table) (codes "sleep")
      builtins-AllDistinct

-- arguments that print, and one that aborts
abbrev saying : Bytes → Arg
saying text = record { value = return_string text; start = 0; end = 0 }

concat_fn_assoc_example :
    (concat_fn [] (
        lone (concat_fn [] (saying (codes "a") ∷ saying (codes "b") ∷ []))
        ∷ saying (codes "c")
        ∷ [])
      ≡ concat_fn [] (
          saying (codes "a")
          ∷ lone (concat_fn [] (saying (codes "b") ∷ saying (codes "c") ∷ []))
          ∷ []))
    × (concat_fn [] (
          lone (concat_fn [] (saying (codes "a") ∷ saying (codes "b") ∷ []))
          ∷ saying (codes "c")
          ∷ [])
        ≡ concat_fn [] (saying (codes "a") ∷ saying (codes "b") ∷ saying (codes "c") ∷ []))
concat_fn_assoc_example =
    concat_fn_assoc [] (saying (codes "a")) (saying (codes "b")) (saying (codes "c"))

one_string : evaluate (return_string (codes "a")) (over []) ≡ done (codes "a") (over [])
unfolding evaluate return_string ◌>>=◌
one_string = refl

substring_fn_one_argument_example : substring_fn [] (saying (codes "a") ∷ []) (over []) ≡ fault
substring_fn_one_argument_example =
    substring_fn_one_argument [] (saying (codes "a")) (over []) (over []) (codes "a") one_string

builtin_find-AllSuit_example : AllSuit substring_script builtin_minimum builtin_find
builtin_find-AllSuit_example = builtin_find-AllSuit substring_script
