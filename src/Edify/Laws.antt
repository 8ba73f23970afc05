-- ===== src/Edify/Laws.antt =====
-- Equations between the functions of edify/expr.c: what the operators promise a script's author.
use open_recovery.Base.{
  ◌≡◌, refl, fun_ext, Bool, true, false, not, List, [], ◌∷◌, ◌++◌, Bytes, arith,
}
use mathlib.Core.List.{append_assoc, append-nil}
use open_recovery.Edify.State.{State, Run, done, null, fault, M, pure, continue, ◌>>=◌}
use open_recovery.Edify.Eval.{
  Value, Arg, arg, evaluate, text_of, return_string, string_value, boolean_string, read_args,
  read_var_args,
}
use open_recovery.Edify.Builtins.{
  concat, concat_fn, ifelse_branch, if_else_fn, logical_and_fn, logical_not_fn, equality_fn,
  inequality_fn, substring_fn, sequence_fn, true_text,
}

module _ {A B C : Type 0} where
  continue-bind :
      (r : Run A) (f : A → M B) (g : B → M C)
      → continue (continue r f) g ≡ continue r (λ a. f a >>= g)
  unfolding ◌>>=◌
  continue-bind (done a s) f g = refl
  continue-bind (null s) f g = refl
  continue-bind fault f g = refl

  pub bind_assoc : (m : M A) (f : A → M B) (g : B → M C) → (m >>= f >>= g) ≡ (m >>= λ a. f a >>= g)
  unfolding ◌>>=◌
  bind_assoc m f g = fun_ext λ s. continue-bind (m s) f g

pub pure-bind : {A B : Type 0} (a : A) (f : A → M B) → (pure a >>= f) ≡ f a
unfolding ◌>>=◌
pure-bind a f = refl

-- a string that was just made is read back
text_of-string_value : (v : Bytes) → text_of (string_value v) ≡ pure v
unfolding text_of string_value
text_of-string_value v = refl

not-true_text : (b : Bool) → true_text (not (boolean_string (true_text b))) ≡ true_text (not b)
unfolding boolean_string
not-true_text true = refl
not-true_text false = refl

ruleset bind_laws = (bind_assoc, pure-bind, text_of-string_value)

-- `a` as the argument of a function
abbrev pub lone : M Value → Arg
lone m = record { value = m; start = 0; end = 0 }

-- `a != b` is `!(a == b)`: the same outcome from every state, whatever the arguments print or abort.
pub inequality_fn-eq-not :
    (name : Bytes) (argv : List Arg)
    → inequality_fn name argv ≡ logical_not_fn name (lone (equality_fn name argv) ∷ [])
unfolding inequality_fn logical_not_fn equality_fn arg evaluate return_string
inequality_fn-eq-not name argv = simp (bind_laws, not-true_text)

-- `if a then b endif` is `a && b`.
pub if_else_fn-eq-and :
    (name : Bytes) (a b : Arg) → if_else_fn name (a ∷ b ∷ []) ≡ logical_and_fn name (a ∷ b ∷ [])
unfolding if_else_fn ifelse_branch logical_and_fn
if_else_fn-eq-and name a b = refl

concat-append : (xs ys : List Bytes) → concat (xs ++ ys) ≡ concat xs ++ concat ys
unfolding concat
concat-append [] ys = refl
concat-append (x ∷ xs) ys = simp (concat-append xs ys, append_assoc)

-- a + b + c, a + (b + c) and concat(a, b, c) have the same outcome from every state.
pub concat_fn_assoc :
    (name : Bytes) (a b c : Arg)
    → (concat_fn name (lone (concat_fn name (a ∷ b ∷ [])) ∷ c ∷ [])
        ≡ concat_fn name (a ∷ lone (concat_fn name (b ∷ c ∷ [])) ∷ []))
      × (concat_fn name (lone (concat_fn name (a ∷ b ∷ [])) ∷ c ∷ [])
          ≡ concat_fn name (a ∷ b ∷ c ∷ []))
unfolding concat_fn concat read_var_args read_args evaluate return_string
concat_fn_assoc name a b c =
    (simp (bind_laws, append_assoc, append-nil), simp (bind_laws, append_assoc, append-nil))

-- `a; (b; c)` is `(a; b); c`.
pub sequence_fn_assoc :
    (name : Bytes) (a b c : Arg)
    → sequence_fn name (lone (sequence_fn name (a ∷ b ∷ [])) ∷ c ∷ [])
      ≡ sequence_fn name (a ∷ lone (sequence_fn name (b ∷ c ∷ [])) ∷ [])
unfolding sequence_fn arg
sequence_fn_assoc name a b c = simp bind_laws

-- is_substring with one argument, whose evaluation gives a string, reads past the array of its
-- arguments.
pub substring_fn_one_argument :
    (name : Bytes) (a : Arg) (s s' : State) (needle : Bytes)
    → evaluate a.value s ≡ done needle s'
    → substring_fn name (a ∷ []) s ≡ fault
unfolding substring_fn arg evaluate ◌>>=◌
substring_fn_one_argument name a s s' needle e = ground arith
