-- ===== src/Edify/Eval.antt =====
-- Values, expressions and their evaluation (edify/expr.h, edify/expr.c).
use open_recovery.Base.{
  ℕ, zero, suc, Bool, true, false, List, [], ◌∷◌, none, some, Bytes, codes, length, get_elem?,
}
use open_recovery.Edify.State.{M, pure, crash, error_abort, ◌>>=◌}

-- `type`: VAL_STRING is 1 and VAL_BLOB is 2.
pub data Kind : Type 0 where
  val_string val_blob : Kind

-- `data` is a reserved word: the field is `bytes`, without the terminator of a string.
pub record Value : Type 0 where
  pub kind : Kind
  pub size : ℕ
  pub bytes : Bytes

-- An argument as a Function sees it: what its evaluation does, and its place in the script.
pub record Arg : Type 0 where
  pub value : M Value
  pub start : ℕ
  pub end : ℕ

abbrev pub Function : Type 0
Function = Bytes → List Arg → M Value

mutual
  pub data Expr : Type 0 where
    node : Function → Bytes → Exprs → ℕ → ℕ → Expr

  pub data Exprs : Type 0 where
    nil : Exprs
    cons : Expr → Exprs → Exprs

abbrev pub start_of : Expr → ℕ
start_of (node fn name argv start end) = start

abbrev pub end_of : Expr → ℕ
end_of (node fn name argv start end) = end

-- EvaluateValue: `expr->fn(expr->name, state, expr->argc, expr->argv)`
unfoldable mutual
  pub evaluate_value : Expr → M Value
  evaluate_value (node fn name argv start end) = fn name (args_of argv)

  pub args_of : Exprs → List Arg
  args_of nil = []
  args_of (cons e es) =
      record { value = evaluate_value e; start = start_of e; end = end_of e } ∷ args_of es

-- `argv[i]`
unfoldable pub arg : List Arg → ℕ → M Value
arg argv i = elim (get_elem? argv i) [ none ↦ crash | some a ↦ a.value ]

abbrev expecting_string : Bytes
expecting_string = codes "expecting string, got value type 2"

unfoldable pub text_of : Value → M Bytes
text_of v = elim v.kind [ val_string ↦ pure v.bytes | val_blob ↦ error_abort expecting_string ]

-- Evaluate
unfoldable pub evaluate : M Value → M Bytes
unfolding text_of
evaluate value = value >>= text_of

-- StringValue, at a pointer that is not NULL
unfoldable pub string_value : Bytes → Value
string_value str = record { kind = val_string; size = length str; bytes = str }

unfoldable pub return_string : Bytes → M Value
unfolding string_value
return_string str = pure (string_value str)

-- BooleanString
unfoldable pub boolean_string : Bytes → Bool
boolean_string [] = false
boolean_string (c ∷ cs) = true

-- ReadArgs, with `count` places
unfoldable pub read_args : List Arg → ℕ → M (List Bytes)
unfolding evaluate
read_args argv zero = pure []
read_args [] (suc count) = crash
read_args (a ∷ argv) (suc count) = do v ← evaluate a.value; vs ← read_args argv count; pure (v ∷ vs)

-- ReadValueArgs
unfoldable pub read_value_args : List Arg → ℕ → M (List Value)
read_value_args argv zero = pure []
read_value_args [] (suc count) = crash
read_value_args (a ∷ argv) (suc count) = do
  v ← a.value
  vs ← read_value_args argv count
  pure (v ∷ vs)

-- ReadVarArgs
unfoldable pub read_var_args : List Arg → M (List Bytes)
unfolding read_args
read_var_args argv = read_args argv (length argv)

-- ReadValueVarArgs
unfoldable pub read_value_var_args : List Arg → M (List Value)
unfolding read_value_args
read_value_var_args argv = read_value_args argv (length argv)
