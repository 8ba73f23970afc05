-- ===== src/Edify/Suits.antt =====
-- The functions of edify/expr.c and the numbers of arguments that they read.
use open_recovery.Base.{
  ℕ, ◌+◌, ◌≤◌, ◌<◌, ◌≡◌, refl, ap, false, not, ◌&&◌, List, [], ◌∷◌, Bytes, length, leb, ◌==◌, arith,
}
use open_recovery.Edify.State.{M, fail, script, print, report_not_int, ◌>>=◌}
use open_recovery.Edify.Text.{strtol}
use open_recovery.Edify.Eval.{
  Arg, Function, arg, evaluate, return_string, boolean_string, read_args,
}
use open_recovery.Edify.Builtins.{
  concat_fn, ifelse_branch, if_else_fn, abort_fn, source_text, assert_fn, sleep_fn, stdout_fn,
  logical_and_fn, logical_or_fn, logical_not_fn, substring_fn, equality_fn, inequality_fn,
  sequence_fn, not_an_int, less_than_texts, less_than_read, less_than_int_fn, greater_than_int_fn,
  literal,
}
use open_recovery.Edify.Keeps.{
  Keeps, IsSized, Anything, AllSound, Keeps-pure, Keeps-fail, Keeps-bind, Keeps-or_null, Keeps-if,
  Keeps-print, Keeps-report_not_int, Keeps-sleep, Keeps-return_string, Keeps-evaluate, Keeps-arg,
  Keeps-read_args, Keeps-read_var_args,
}

-- `fn`, called with `n` arguments that are sound, keeps the script.
abbrev pub Suits : Bytes → Function → ℕ → Type 0
Suits script fn n =
    (name : Bytes) (argv : List Arg)
    → length argv ≡ n
    → AllSound script argv
    → Keeps IsSized script (fn name argv)

module _ {text : Bytes} where
  -- the first step of most functions: argument `i` as a string
  Keeps-string_arg :
      {B : Type 0} {Q : B → Type 0} (argv : List Arg) (i : ℕ) (f : Bytes → M B)
      → AllSound text argv
      → i < length argv
      → ((v : Bytes) → Keeps Q text (f v))
      → Keeps Q text (evaluate (arg argv i) >>= f)
  Keeps-string_arg argv i f sound h k =
      Keeps-bind (evaluate (arg argv i)) f (Keeps-evaluate _ (Keeps-arg argv i sound h))
        (λ v _. k v)

  pub literal-Suits : (n : ℕ) → Suits text literal n
  unfolding literal
  literal-Suits n name argv e sound = Keeps-return_string name

  pub concat_fn-Suits : (n : ℕ) → Suits text concat_fn n
  unfolding concat_fn
  concat_fn-Suits n name argv e sound =
      Keeps-bind _ _ (Keeps-read_var_args argv sound) (λ vs _. Keeps-return_string _)

  ifelse_branch-Keeps :
      (argv : List Arg) (cond : Bytes)
      → AllSound text argv
      → 2 ≤ length argv
      → Keeps IsSized text (ifelse_branch argv cond)
  unfolding ifelse_branch
  ifelse_branch-Keeps argv cond sound h =
      Keeps-if (boolean_string cond) _ _ (λ _. Keeps-arg argv 1 sound h)
        λ _.
          Keeps-if (length argv == 3) _ _ (λ e. Keeps-arg argv 2 sound (ground arith))
            (λ _. Keeps-return_string cond)

  pub if_else_fn-Suits : (n : ℕ) → Suits text if_else_fn n
  unfolding if_else_fn
  if_else_fn-Suits n name argv e sound =
      Keeps-if (not (length argv == 2) && not (length argv == 3)) _ _ (λ _. Keeps-fail _)
        λ h.
          Keeps-string_arg argv 0 _ sound (ground arith)
            (λ cond. ifelse_branch-Keeps argv cond sound (ground arith))

  pub abort_fn-Suits : (n : ℕ) → Suits text abort_fn n
  unfolding abort_fn
  abort_fn-Suits n name [] e sound = Keeps-fail _
  abort_fn-Suits n name (a ∷ argv) e sound =
      Keeps-or_null (evaluate a.value) fail _ (Keeps-evaluate a.value sound.0.value)
        (λ msg _. Keeps-fail msg) (Keeps-fail _)

  Keeps-script : Keeps (λ v. v ≡ text) text script
  unfolding script
  Keeps-script = record { at = λ s h. (h, h) }

  source_text-Keeps :
      (start end : ℕ)
      → start ≤ end
      → end ≤ length text + 1
      → Keeps Anything text (source_text start end)
  unfolding source_text
  source_text-Keeps start end p q = Keeps-bind script _ Keeps-script λ v e.
      Keeps-if (leb start end && leb end (length v + 1)) _ _ (λ _. Keeps-pure _ tt)
        (λ out. absurd (inside v e out))
    where
      inside : (v : Bytes) → v ≡ text → (leb start end && leb end (length v + 1)) ≡ false → ⊥
      inside v e out = ground (arith, ap length e)

  pub assert_fn-Suits : (n : ℕ) → Suits text assert_fn n
  unfolding assert_fn
  assert_fn-Suits n name [] e sound = Keeps-return_string []
  assert_fn-Suits n name (a ∷ argv) e sound =
      Keeps-bind (evaluate a.value) _ (Keeps-evaluate a.value sound.0.value) λ v _.
        Keeps-if (boolean_string v) _ _ (λ _. assert_fn-Suits (length argv) name argv refl sound.1)
          λ _.
            Keeps-bind (source_text a.start a.end) _
              (source_text-Keeps a.start a.end sound.0.ordered sound.0.within)
              (λ source _. Keeps-fail _)

  pub sleep_fn-Suits : (n : ℕ) → 1 ≤ n → Suits text sleep_fn n
  unfolding sleep_fn
  sleep_fn-Suits n h name argv e sound =
      Keeps-string_arg argv 0 _ sound (omega arith)
        λ val. Keeps-bind _ _ (Keeps-sleep (strtol val).0) (λ _ _. Keeps-return_string val)

  pub stdout_fn-Suits : (n : ℕ) → Suits text stdout_fn n
  unfolding stdout_fn
  stdout_fn-Suits n name [] e sound = Keeps-return_string []
  stdout_fn-Suits n name (a ∷ argv) e sound =
      Keeps-bind (evaluate a.value) _ (Keeps-evaluate a.value sound.0.value) λ v _.
        Keeps-bind (print v) _ (Keeps-print v)
          (λ _ _. stdout_fn-Suits (length argv) name argv refl sound.1)

  pub logical_and_fn-Suits : (n : ℕ) → 2 ≤ n → Suits text logical_and_fn n
  unfolding logical_and_fn
  logical_and_fn-Suits n h name argv e sound = Keeps-string_arg argv 0 _ sound (omega arith) λ left.
      Keeps-if (boolean_string left) _ _ (λ _. Keeps-arg argv 1 sound (omega arith))
        (λ _. Keeps-return_string left)

  pub logical_or_fn-Suits : (n : ℕ) → 2 ≤ n → Suits text logical_or_fn n
  unfolding logical_or_fn
  logical_or_fn-Suits n h name argv e sound = Keeps-string_arg argv 0 _ sound (omega arith) λ left.
      Keeps-if (boolean_string left) _ _ (λ _. Keeps-return_string left)
        (λ _. Keeps-arg argv 1 sound (omega arith))

  pub logical_not_fn-Suits : (n : ℕ) → 1 ≤ n → Suits text logical_not_fn n
  unfolding logical_not_fn
  logical_not_fn-Suits n h name argv e sound =
      Keeps-string_arg argv 0 _ sound (omega arith) (λ val. Keeps-return_string _)

  two_strings :
      (f : Bytes → Bytes → Bytes) (argv : List Arg)
      → AllSound text argv
      → 2 ≤ length argv
      → Keeps IsSized text
          (evaluate (arg argv 0) >>= λ a. evaluate (arg argv 1) >>= λ b. return_string (f a b))
  two_strings f argv sound h =
      Keeps-string_arg argv 0 _ sound (omega arith)
        λ a. Keeps-string_arg argv 1 _ sound (omega arith) (λ b. Keeps-return_string (f a b))

  pub substring_fn-Suits : (n : ℕ) → 2 ≤ n → Suits text substring_fn n
  unfolding substring_fn
  substring_fn-Suits n h name argv e sound = two_strings _ argv sound (omega arith)

  pub equality_fn-Suits : (n : ℕ) → 2 ≤ n → Suits text equality_fn n
  unfolding equality_fn
  equality_fn-Suits n h name argv e sound = two_strings _ argv sound (omega arith)

  pub inequality_fn-Suits : (n : ℕ) → 2 ≤ n → Suits text inequality_fn n
  unfolding inequality_fn
  inequality_fn-Suits n h name argv e sound = two_strings _ argv sound (omega arith)

  pub sequence_fn-Suits : (n : ℕ) → 2 ≤ n → Suits text sequence_fn n
  unfolding sequence_fn
  sequence_fn-Suits n h name argv e sound =
      Keeps-bind (arg argv 0) _ (Keeps-arg argv 0 sound (omega arith))
        (λ _ _. Keeps-arg argv 1 sound (omega arith))

  not_int-Keeps : (v : Bytes) → Keeps IsSized text (report_not_int v >>= λ _. return_string [])
  not_int-Keeps v = Keeps-bind _ _ (Keeps-report_not_int v) (λ _ _. Keeps-return_string [])

  less_than_texts-Keeps : (a b : Bytes) → Keeps IsSized text (less_than_texts a b)
  unfolding less_than_texts
  less_than_texts-Keeps a b =
      Keeps-if (not_an_int a) _ _ (λ _. not_int-Keeps a)
        λ _. Keeps-if (not_an_int b) _ _ (λ _. not_int-Keeps b) (λ _. Keeps-return_string _)

  less_than_read-Keeps : (vs : List Bytes) → length vs ≡ 2 → Keeps IsSized text (less_than_read vs)
  unfolding less_than_read
  less_than_read-Keeps (a ∷ b ∷ []) e = less_than_texts-Keeps a b
  less_than_read-Keeps [] e = absurd (omega arith)
  less_than_read-Keeps (a ∷ []) e = absurd (omega arith)
  less_than_read-Keeps (a ∷ b ∷ c ∷ vs) e = absurd (omega arith)

  pub less_than_int_fn-Suits : (n : ℕ) → Suits text less_than_int_fn n
  unfolding less_than_int_fn
  less_than_int_fn-Suits n name argv e sound =
      Keeps-if (length argv == 2) _ _
        (λ h.
          Keeps-bind (read_args argv 2) less_than_read (Keeps-read_args argv 2 sound (ground arith))
            less_than_read-Keeps)
        (λ _. Keeps-fail _)

  pub greater_than_int_fn-Suits : (n : ℕ) → Suits text greater_than_int_fn n
  unfolding greater_than_int_fn
  greater_than_int_fn-Suits n name (a ∷ b ∷ []) e sound =
      less_than_int_fn-Suits 2 name (b ∷ a ∷ []) refl (sound.1.0, (sound.0, tt))
  greater_than_int_fn-Suits n name [] e sound = Keeps-fail _
  greater_than_int_fn-Suits n name (a ∷ []) e sound = Keeps-fail _
  greater_than_int_fn-Suits n name (a ∷ b ∷ c ∷ argv) e sound = Keeps-fail _
