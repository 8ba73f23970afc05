-- ===== src/Edify/Keeps.antt =====
-- The predicate on evaluations over a given script, and its rules for the parts of edify/expr.c.
use open_recovery.Base.{
  ℕ, zero, suc, ◌≤◌, ◌<◌, ◌+◌, ◌≡◌, ◌≢◌, refl, Bool, true, false, List, [], ◌∷◌, none, Bytes,
  length, arith, if◌then◌else◌, ℤ,
}
use open_recovery.Edify.State.{
  State, Run, done, null, fault, M, pure, fail, error_abort, or_null, print, report_not_int, sleep,
  ◌>>=◌,
}
use open_recovery.Edify.Eval.{
  val_string, val_blob, Value, Arg, return_string, text_of, evaluate, arg, read_args, read_var_args,
}

-- The outcome of a run over `script`, with `Q` for its result.
abbrev pub Fine : {A : Type 0} → (A → Type 0) → Bytes → Run A → Type 0
Fine Q script (done a s) = Q a × (s.script ≡ script)
Fine Q script (null s) = (s.script ≡ script) × (s.errmsg ≢ none)
Fine Q script fault = ⊥

pub record Keeps {A : Type 0} (Q : A → Type 0) (script : Bytes) (m : M A) : Type 0 where
  pub at : (s : State) → s.script ≡ script → Fine Q script (m s)

-- `size` is the length of the data.
abbrev pub IsSized : Value → Type 0
IsSized v = v.size ≡ length v.bytes

abbrev pub Anything : {A : Type 0} → A → Type 0
Anything a = Unit

-- An argument whose evaluation is fine and whose place lies in the script.
pub record IsSound (script : Bytes) (a : Arg) : Type 0 where
  pub value : Keeps IsSized script a.value
  pub ordered : a.start ≤ a.end
  pub within : a.end ≤ length script + 1

abbrev pub AllSound : Bytes → List Arg → Type 0
AllSound script [] = Unit
AllSound script (a ∷ argv) = IsSound script a × AllSound script argv

module _ {script : Bytes} where
  pub Keeps-pure : {A : Type 0} {Q : A → Type 0} (a : A) → Q a → Keeps Q script (pure a)
  unfolding pure
  Keeps-pure a q = record { at = λ s h. (q, h) }

  pub Keeps-fail : {A : Type 0} {Q : A → Type 0} (msg : Bytes) → Keeps Q script (fail msg)
  unfolding fail
  Keeps-fail msg = record { at = λ s h. (h, λ e. cc) }

  pub Keeps-error_abort :
      {A : Type 0} {Q : A → Type 0} (msg : Bytes) → Keeps Q script (error_abort msg)
  unfolding error_abort
  Keeps-error_abort msg = Keeps-fail _

  pub Keeps-continue :
      {A B : Type 0} {P : A → Type 0} {Q : B → Type 0} (r : Run A) (f : A → M B)
      → Fine P script r
      → ((a : A) → P a → Keeps Q script (f a))
      → Fine Q script (open_recovery.Edify.State.continue r f)
  Keeps-continue (done a s) f h k = (k a h.0).at s h.1
  Keeps-continue (null s) f h k = h
  Keeps-continue fault f h k = h

  pub Keeps-bind :
      {A B : Type 0} {P : A → Type 0} {Q : B → Type 0} (m : M A) (f : A → M B)
      → Keeps P script m
      → ((a : A) → P a → Keeps Q script (f a))
      → Keeps Q script (m >>= f)
  unfolding ◌>>=◌
  Keeps-bind m f km kf = record { at = λ s h. Keeps-continue (m s) f (km.at s h) kf }

  Keeps-recover :
      {A B : Type 0} {P : A → Type 0} {Q : B → Type 0} (r : Run A) (f : A → M B) (other : M B)
      → Fine P script r
      → ((a : A) → P a → Keeps Q script (f a))
      → Keeps Q script other
      → Fine Q script (open_recovery.Edify.State.recover r f other)
  Keeps-recover (done a s) f other h k ko = (k a h.0).at s h.1
  Keeps-recover (null s) f other h k ko = ko.at s h.0
  Keeps-recover fault f other h k ko = h

  pub Keeps-or_null :
      {A B : Type 0} {P : A → Type 0} {Q : B → Type 0} (m : M A) (f : A → M B) (other : M B)
      → Keeps P script m
      → ((a : A) → P a → Keeps Q script (f a))
      → Keeps Q script other
      → Keeps Q script (or_null m f other)
  unfolding or_null
  Keeps-or_null m f other km kf ko = record {
    at = λ s h. Keeps-recover (m s) f other (km.at s h) kf ko;
  }

  pub Keeps-if :
      {A : Type 0} {Q : A → Type 0} (b : Bool) (m n : M A)
      → (b ≡ true → Keeps Q script m)
      → (b ≡ false → Keeps Q script n)
      → Keeps Q script (if b then m else n)
  Keeps-if true m n km kn = km refl
  Keeps-if false m n km kn = kn refl

  pub Keeps-print : (v : Bytes) → Keeps Anything script (print v)
  unfolding print
  Keeps-print v = record { at = λ s h. (tt, h) }

  pub Keeps-report_not_int : (v : Bytes) → Keeps Anything script (report_not_int v)
  unfolding report_not_int
  Keeps-report_not_int v = record { at = λ s h. (tt, h) }

  pub Keeps-sleep : (v : ℤ) → Keeps Anything script (sleep v)
  unfolding sleep
  Keeps-sleep v = record { at = λ s h. (tt, h) }

  pub Keeps-return_string : (v : Bytes) → Keeps IsSized script (return_string v)
  unfolding return_string
  Keeps-return_string v = Keeps-pure _ refl

  text_of-Keeps : (v : Value) → Keeps Anything script (text_of v)
  unfolding text_of
  text_of-Keeps v =
      elim v.kind
        as (λ k.
          Keeps Anything script (elim k [ val_string ↦ pure v.bytes | val_blob ↦ error_abort _ ])) [
            | val_string ↦ Keeps-pure _ tt
            | val_blob ↦ Keeps-error_abort _
          ]

  pub Keeps-evaluate : (m : M Value) → Keeps IsSized script m → Keeps Anything script (evaluate m)
  unfolding evaluate
  Keeps-evaluate m k = Keeps-bind m text_of k (λ v _. text_of-Keeps v)

  pub Keeps-arg :
      (argv : List Arg) (i : ℕ)
      → AllSound script argv
      → i < length argv
      → Keeps IsSized script (arg argv i)
  unfolding arg
  Keeps-arg [] i sound h = absurd (omega arith)
  Keeps-arg (a ∷ argv) zero sound h = sound.0.value
  Keeps-arg (a ∷ argv) (suc i) sound h = Keeps-arg argv i sound.1 (omega arith)

  -- the strings that ReadArgs fills in are as many as it was asked for
  pub Keeps-read_args :
      (argv : List Arg) (count : ℕ)
      → AllSound script argv
      → count ≤ length argv
      → Keeps (λ vs. length vs ≡ count) script (read_args argv count)
  unfolding read_args
  Keeps-read_args argv zero sound h = Keeps-pure [] refl
  Keeps-read_args [] (suc count) sound h = absurd (omega arith)
  Keeps-read_args (a ∷ argv) (suc count) sound h =
      Keeps-bind (evaluate a.value) _ (Keeps-evaluate a.value sound.0.value) λ v _.
        Keeps-bind (read_args argv count) _ (Keeps-read_args argv count sound.1 (omega arith))
          λ vs e. Keeps-pure (v ∷ vs) (omega arith)

  pub Keeps-read_var_args :
      (argv : List Arg)
      → AllSound script argv
      → Keeps (λ vs. length vs ≡ length argv) script (read_var_args argv)
  unfolding read_var_args
  Keeps-read_var_args argv sound = Keeps-read_args argv (length argv) sound (omega arith)
