-- ===== src/Edify/Grammar.antt =====
-- The actions of the grammar of edify (edify/parser.y), on the derivations that the generated
-- parser finds. A call of an unknown function is an error: the script is then not evaluated.
use open_recovery.Base.{ℕ, suc, Option, none, some, Bytes, codes}
use open_recovery.Edify.Eval.{Function, Expr, node, Exprs, nil, cons}
use open_recovery.Edify.Builtins.{
  concat_fn, if_else_fn, logical_and_fn, logical_or_fn, logical_not_fn, equality_fn, inequality_fn,
  sequence_fn, literal,
}

-- YYLTYPE
pub record Loc : Type 0 where
  pub start : ℕ
  pub end : ℕ

-- the binary operators of the grammar
pub data Operator : Type 0 where
  semicolon plus eq ne and or : Operator

mutual
  pub data Syntax : Type 0 where
    string : Bytes → Loc → Syntax
    parens : Syntax → Loc → Syntax
    trailing : Syntax → Loc → Syntax
    binary : Operator → Syntax → Syntax → Loc → Syntax
    negation : Syntax → Loc → Syntax
    if_then : Syntax → Syntax → Loc → Syntax
    if_then_else : Syntax → Syntax → Syntax → Loc → Syntax
    call : Bytes → ArgList → Loc → Syntax

  pub data ArgList : Type 0 where
    empty : ArgList
    argument : Syntax → ArgList → ArgList

unfoldable pub function_of : Operator → Function
function_of semicolon = sequence_fn
function_of plus = concat_fn
function_of eq = equality_fn
function_of ne = inequality_fn
function_of and = logical_and_fn
function_of or = logical_or_fn

abbrev operator_name : Bytes
operator_name = codes "(operator)"

-- Build
unfoldable pub build : Function → Loc → Exprs → Expr
build fn loc argv = node fn operator_name argv loc.start loc.end

-- `$$->start = …; $$->end = …`
unfoldable pub relocate : Loc → Expr → Expr
relocate loc (node fn name argv start end) = node fn name argv loc.start loc.end

infixl 5 ◌>>=◌
abbrev pub ◌>>=◌ : {A B : Type 0} → Option A → (A → Option B) → Option B
none >>= f = none
some a >>= f = f a

-- The lookup is FindFunction, over the table that the program has registered.
module _ (find : Bytes → Option Function) where
  unfoldable mutual
    unfolding function_of build relocate

    pub elaborate : Syntax → Option Expr
    elaborate (string text loc) = some (node literal text nil loc.start loc.end)
    elaborate (parens a loc) = do e ← elaborate a; some (relocate loc e)
    elaborate (trailing a loc) = do e ← elaborate a; some (relocate loc e)
    elaborate (binary op a b loc) = do
      e ← elaborate a
      f ← elaborate b
      some (build (function_of op) loc (cons e (cons f nil)))
    elaborate (negation a loc) = do e ← elaborate a; some (build logical_not_fn loc (cons e nil))
    elaborate (if_then a b loc) = do
      e ← elaborate a
      f ← elaborate b
      some (build if_else_fn loc (cons e (cons f nil)))
    elaborate (if_then_else a b c loc) = do
      e ← elaborate a
      f ← elaborate b
      g ← elaborate c
      some (build if_else_fn loc (cons e (cons f (cons g nil))))
    elaborate (call name args loc) = do
      argv ← elaborate_args args
      fn ← find name
      some (node fn name argv loc.start loc.end)

    pub elaborate_args : ArgList → Option Exprs
    elaborate_args empty = some nil
    elaborate_args (argument a rest) = do
      e ← elaborate a
      es ← elaborate_args rest
      some (cons e es)

unfoldable pub arg_count : ArgList → ℕ
arg_count empty = 0
arg_count (argument a rest) = suc (arg_count rest)
