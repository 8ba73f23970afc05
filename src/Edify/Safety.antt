-- ===== src/Edify/Safety.antt =====
-- Scripts and their calls: edify/parser.y and edify/expr.c together.
use open_recovery.Base.{
  ℕ, suc, subst, inl, inr, Option-cases, ◌≤◌, ◌+◌, ◌≡◌, refl, Option, none, some, Bytes, length,
  arith,
}
use open_recovery.Edify.State.{State}
use open_recovery.Edify.Eval.{
  Function, Expr, node, Exprs, nil, cons, evaluate_value, args_of, start_of, end_of,
}
use open_recovery.Edify.Grammar.{
  Loc, Operator, semicolon, plus, eq, ne, and, or, Syntax, string, parens, trailing, binary,
  negation, if_then, if_then_else, call, ArgList, empty, argument, elaborate, elaborate_args,
  arg_count, build, function_of, relocate, ◌>>=◌,
}
use open_recovery.Edify.Builtins.{literal, logical_not_fn, if_else_fn}
use open_recovery.Edify.Keeps.{Fine, IsSized, IsSound, AllSound}
use open_recovery.Edify.Suits.{
  Suits, literal-Suits, concat_fn-Suits, equality_fn-Suits, inequality_fn-Suits,
  logical_and_fn-Suits, logical_or_fn-Suits, logical_not_fn-Suits, if_else_fn-Suits,
  sequence_fn-Suits,
}

-- The places that the parser records lie in the script, whose terminator may be read.
pub record InScript (script : Bytes) (loc : Loc) : Type 0 where
  pub ordered : loc.start ≤ loc.end
  pub within : loc.end ≤ length script + 1

-- The derivation lies in the script, and a call of `name` has at least `minimum name` arguments.
module _ (script : Bytes) (minimum : Bytes → ℕ) where
  unfoldable mutual
    pub Fits : Syntax → Type 0
    Fits (string text loc) = InScript script loc
    Fits (parens a loc) = Fits a × InScript script loc
    Fits (trailing a loc) = Fits a × InScript script loc
    Fits (binary op a b loc) = Fits a × Fits b × InScript script loc
    Fits (negation a loc) = Fits a × InScript script loc
    Fits (if_then a b loc) = Fits a × Fits b × InScript script loc
    Fits (if_then_else a b c loc) = Fits a × Fits b × Fits c × InScript script loc
    Fits (call name args loc) =
        FitsArgs args × (minimum name ≤ arg_count args) × InScript script loc

    pub FitsArgs : ArgList → Type 0
    FitsArgs empty = Unit
    FitsArgs (argument a rest) = Fits a × FitsArgs rest

-- Every function that is found suits the least number of arguments of its name.
abbrev pub AllSuit : Bytes → (Bytes → ℕ) → (Bytes → Option Function) → Type 0
AllSuit script minimum find =
    (name : Bytes) (fn : Function) (n : ℕ)
    → find name ≡ some fn
    → minimum name ≤ n
    → Suits script fn n

data IfSome {A : Type 0} (P : A → Type 0) : Option A → Type 0 where
  nothing : IfSome P none
  just : {a : A} → P a → IfSome P (some a)

abbrev SoundExpr : Bytes → Expr → Type 0
SoundExpr script e =
    IsSound script (record { value = evaluate_value e; start = start_of e; end = end_of e })

abbrev SoundArgs : Bytes → ℕ → Exprs → Type 0
SoundArgs script n es = AllSound script (args_of es) × (length (args_of es) ≡ n)

IfSome-bind :
    {A B : Type 0} {P : A → Type 0} {Q : B → Type 0} (m : Option A) (f : A → Option B)
    → IfSome P m
    → ((a : A) → P a → IfSome Q (f a))
    → IfSome Q (m >>= f)
IfSome-bind none f h k = nothing
IfSome-bind (some a) f (just h) k = k a h

nil-Sound : (script : Bytes) → SoundArgs script 0 nil
unfolding evaluate_value
nil-Sound script = (tt, refl)

module _ {script : Bytes} where
  node-Sound :
      (fn : Function) (name : Bytes) (es : Exprs) (loc : Loc) (n : ℕ)
      → Suits script fn n
      → SoundArgs script n es
      → InScript script loc
      → SoundExpr script (node fn name es loc.start loc.end)
  unfolding evaluate_value
  node-Sound fn name es loc n suits sound place = record {
    value = suits name (args_of es) sound.1 sound.0;
    ordered = place.ordered;
    within = place.within;
  }

  relocate-Sound :
      (e : Expr) (loc : Loc)
      → SoundExpr script e
      → InScript script loc
      → SoundExpr script (relocate loc e)
  unfolding evaluate_value relocate
  relocate-Sound (node fn name argv start end) loc sound place = record {
    value = sound.value;
    ordered = place.ordered;
    within = place.within;
  }

  cons-Sound :
      (e : Expr) (es : Exprs) (n : ℕ)
      → SoundExpr script e
      → SoundArgs script n es
      → SoundArgs script (suc n) (cons e es)
  unfolding evaluate_value
  cons-Sound e es n se ses = ((se, ses.0), omega (arith, ses.1))

  function_of-Suits : (op : Operator) → Suits script (function_of op) 2
  unfolding function_of
  function_of-Suits semicolon = sequence_fn-Suits 2 (omega arith)
  function_of-Suits plus = concat_fn-Suits 2
  function_of-Suits eq = equality_fn-Suits 2 (omega arith)
  function_of-Suits ne = inequality_fn-Suits 2 (omega arith)
  function_of-Suits and = logical_and_fn-Suits 2 (omega arith)
  function_of-Suits or = logical_or_fn-Suits 2 (omega arith)

  build-Sound :
      (fn : Function) (loc : Loc) (es : Exprs) (n : ℕ)
      → Suits script fn n
      → SoundArgs script n es
      → InScript script loc
      → SoundExpr script (build fn loc es)
  unfolding build
  build-Sound fn loc es n = node-Sound fn _ es loc n

  module _ (minimum : Bytes → ℕ) (find : Bytes → Option Function)
      (suits : AllSuit script minimum find) where
    call-Sound :
        (name : Bytes) (es : Exprs) (loc : Loc) (n : ℕ)
        → SoundArgs script n es
        → minimum name ≤ n
        → InScript script loc
        → IfSome (SoundExpr script) (find name >>= λ fn. some (node fn name es loc.start loc.end))
    call-Sound name es loc n sound h place = elim (Option-cases (find name)) [
      | inl e ↦ rw e nothing
      | inr (fn, e) ↦ rw e (just (node-Sound fn name es loc n (suits name fn n e h) sound place))
    ]

    mutual
      unfolding elaborate Fits arg_count

      elaborate-Sound :
          (t : Syntax) → Fits script minimum t → IfSome (SoundExpr script) (elaborate find t)
      elaborate-Sound (string text loc) h =
          just (node-Sound literal text nil loc 0 (literal-Suits 0) (nil-Sound script) h)
      elaborate-Sound (parens a loc) h =
          IfSome-bind (elaborate find a) _ (elaborate-Sound a h.0)
            (λ e s. just (relocate-Sound e loc s h.1))
      elaborate-Sound (trailing a loc) h =
          IfSome-bind (elaborate find a) _ (elaborate-Sound a h.0)
            (λ e s. just (relocate-Sound e loc s h.1))
      elaborate-Sound (binary op a b loc) h =
          IfSome-bind (elaborate find a) _ (elaborate-Sound a h.0) λ e s.
            IfSome-bind (elaborate find b) _ (elaborate-Sound b h.1) λ f t. just (
              build-Sound (function_of op) loc _ 2 (function_of-Suits op)
                (cons-Sound e _ 1 s (cons-Sound f nil 0 t (nil-Sound script))) h.2)
      elaborate-Sound (negation a loc) h =
          IfSome-bind (elaborate find a) _ (elaborate-Sound a h.0) λ e s. just (
            build-Sound logical_not_fn loc _ 1 (logical_not_fn-Suits 1 (omega arith))
              (cons-Sound e nil 0 s (nil-Sound script)) h.1)
      elaborate-Sound (if_then a b loc) h =
          IfSome-bind (elaborate find a) _ (elaborate-Sound a h.0) λ e s.
            IfSome-bind (elaborate find b) _ (elaborate-Sound b h.1) λ f t. just (
              build-Sound if_else_fn loc _ 2 (if_else_fn-Suits 2)
                (cons-Sound e _ 1 s (cons-Sound f nil 0 t (nil-Sound script))) h.2)
      elaborate-Sound (if_then_else a b c loc) h =
          IfSome-bind (elaborate find a) _ (elaborate-Sound a h.0) λ e s.
            IfSome-bind (elaborate find b) _ (elaborate-Sound b h.1) λ f t.
              IfSome-bind (elaborate find c) _ (elaborate-Sound c h.2) λ g u. just (
                build-Sound if_else_fn loc _ 3 (if_else_fn-Suits 3)
                  (cons-Sound e _ 2 s
                    (cons-Sound f _ 1 t (cons-Sound g nil 0 u (nil-Sound script))))
                  h.3)
      elaborate-Sound (call name args loc) h =
          IfSome-bind (elaborate_args find args) _ (elaborate_args-Sound args h.0)
            λ es s. call-Sound name es loc (arg_count args) s h.1 h.2

      elaborate_args-Sound :
          (args : ArgList)
          → FitsArgs script minimum args
          → IfSome (SoundArgs script (arg_count args)) (elaborate_args find args)
      elaborate_args-Sound empty h = just (nil-Sound script)
      elaborate_args-Sound (argument a rest) h =
          IfSome-bind (elaborate find a) _ (elaborate-Sound a h.0) λ e s.
            IfSome-bind (elaborate_args find rest) _ (elaborate_args-Sound rest h.1)
              λ es t. just (cons-Sound e es (arg_count rest) s t)

    -- Let every function that is found keep the script when it has the arguments of its name, and
    -- let a derivation lie in the script with enough arguments at each call. Its expression is
    -- evaluated with no access out of bounds and the script is left as it was; the outcome is a
    -- value whose size is the length of its data, or NULL with an error message.
    pub evaluate_value-elaborate :
        (t : Syntax) (e : Expr) (s : State)
        → Fits script minimum t
        → elaborate find t ≡ some e
        → s.script ≡ script
        → Fine IsSized script (evaluate_value e s)
    evaluate_value-elaborate t e s h built same =
        (from_some (elaborate find t) (elaborate-Sound t h) built).value.at s same
      where
        from_some :
            (o : Option Expr) → IfSome (SoundExpr script) o → o ≡ some e → SoundExpr script e
        from_some none p q = absurd (ground arith)
        from_some (some e') (just p) q = subst (SoundExpr script) (cc) p
