-- ===== src/Edify/Builtins.antt =====
-- The functions of edify/expr.c: those of the operators and those of RegisterBuiltins.
use open_recovery.Base.{
  ℕ, ◌+◌, ◌-◌, Bool, true, false, ◌&&◌, ◌||◌, not, List, [], ◌∷◌, ◌++◌, Bytes, codes, length, take,
  drop, leb, ◌==◌, if◌then◌else◌, bytes_eq, ltb_ℤ,
}
use open_recovery.Edify.State.{
  M, pure, crash, fail, or_null, print, report_not_int, sleep, script, ◌>>=◌, ◌>>◌,
}
use open_recovery.Edify.Text.{strtol, strstr}
use open_recovery.Edify.Eval.{
  Value, Arg, Function, arg, evaluate, return_string, boolean_string, read_args, read_var_args,
}

abbrev pub true_text : Bool → Bytes
true_text true = b't' ∷ []
true_text false = []

unfoldable pub concat : List Bytes → Bytes
concat [] = []
concat (s ∷ ss) = s ++ concat ss

-- ConcatFn: on NULL the strings read so far are freed and NULL is returned, as ReadVarArgs does.
unfoldable pub concat_fn : Function
unfolding concat
concat_fn name argv = do strings ← read_var_args argv; return_string (concat strings)

abbrev ifelse_expects : Bytes
ifelse_expects = codes "ifelse expects 2 or 3 arguments"

unfoldable pub ifelse_branch : List Arg → Bytes → M Value
ifelse_branch argv cond =
    if boolean_string cond
    then arg argv 1
    else if length argv == 3
    then arg argv 2
    else return_string cond

-- IfElseFn
unfoldable pub if_else_fn : Function
unfolding ifelse_branch
if_else_fn name argv =
    if not (length argv == 2) && not (length argv == 3)
    then fail ifelse_expects
    else evaluate (arg argv 0) >>= ifelse_branch argv

abbrev called_abort : Bytes
called_abort = codes "called abort()"

-- AbortFn: a message whose evaluation fails is replaced by the default one.
unfoldable pub abort_fn : Function
abort_fn name [] = fail called_abort
abort_fn name (a ∷ argv) = or_null (evaluate a.value) fail (fail called_abort)

abbrev assert_failed : Bytes
assert_failed = codes "assert failed: "

-- `memcpy(…, state->script + start, end - start)`, which may read up to the terminator
unfoldable pub source_text : ℕ → ℕ → M Bytes
source_text start end = do
  text ← script
  if leb start end && leb end (length text + 1)
      then pure (take (end - start) (drop start text))
      else crash

unfoldable pub assert_fn : Function
unfolding source_text
assert_fn name [] = return_string []
assert_fn name (a ∷ argv) =
    let rest = assert_fn name argv in
    do
      v ← evaluate a.value
      if boolean_string v
          then rest
          else do source ← source_text a.start a.end; fail (assert_failed ++ source)

-- SleepFn; an `int` has the 32 bits of a `long`
unfoldable pub sleep_fn : Function
sleep_fn name argv = do val ← evaluate (arg argv 0); sleep (strtol val).0; return_string val

-- StdoutFn
unfoldable pub stdout_fn : Function
stdout_fn name [] = return_string []
stdout_fn name (a ∷ argv) = let rest = stdout_fn name argv in do v ← evaluate a.value; print v; rest

-- LogicalAndFn
unfoldable pub logical_and_fn : Function
logical_and_fn name argv = do
  left ← evaluate (arg argv 0)
  if boolean_string left then arg argv 1 else return_string left

-- LogicalOrFn
unfoldable pub logical_or_fn : Function
logical_or_fn name argv = do
  left ← evaluate (arg argv 0)
  if boolean_string left then return_string left else arg argv 1

-- LogicalNotFn
unfoldable pub logical_not_fn : Function
logical_not_fn name argv = do
  val ← evaluate (arg argv 0)
  return_string (true_text (not (boolean_string val)))

-- SubstringFn, EqualityFn and InequalityFn evaluate both arguments and compare the texts.
unfoldable pub substring_fn : Function
substring_fn name argv = do
  needle ← evaluate (arg argv 0)
  haystack ← evaluate (arg argv 1)
  return_string (true_text (strstr haystack needle))

unfoldable pub equality_fn : Function
equality_fn name argv = do
  left ← evaluate (arg argv 0)
  right ← evaluate (arg argv 1)
  return_string (true_text (bytes_eq left right))

unfoldable pub inequality_fn : Function
inequality_fn name argv = do
  left ← evaluate (arg argv 0)
  right ← evaluate (arg argv 1)
  return_string (true_text (not (bytes_eq left right)))

-- SequenceFn
unfoldable pub sequence_fn : Function
sequence_fn name argv = do left ← arg argv 0; arg argv 1

-- `left[0] == '\0' || *end != '\0'`
unfoldable pub not_an_int : Bytes → Bool
not_an_int text = not (boolean_string text) || boolean_string (strtol text).1

unfoldable pub less_than_texts : Bytes → Bytes → M Value
unfolding not_an_int
less_than_texts left right =
    if not_an_int left
    then (do report_not_int left; return_string [])
    else if not_an_int right
    then (do report_not_int right; return_string [])
    else return_string (true_text (ltb_ℤ (strtol left).0 (strtol right).0))

-- the two strings that ReadArgs has filled in
unfoldable pub less_than_read : List Bytes → M Value
unfolding less_than_texts
less_than_read (left ∷ right ∷ []) = less_than_texts left right
less_than_read _ = crash

abbrev less_than_int_expects : Bytes
less_than_int_expects = codes "less_than_int expects 2 arguments"

abbrev greater_than_int_expects : Bytes
greater_than_int_expects = codes "greater_than_int expects 2 arguments"

-- LessThanIntFn
unfoldable pub less_than_int_fn : Function
unfolding less_than_read
less_than_int_fn name argv =
    if length argv == 2 then read_args argv 2 >>= less_than_read else fail less_than_int_expects

-- GreaterThanIntFn hands its arguments over in the other order.
unfoldable pub greater_than_int_fn : Function
unfolding less_than_int_fn
greater_than_int_fn name (a ∷ b ∷ []) = less_than_int_fn name (b ∷ a ∷ [])
greater_than_int_fn name _ = fail greater_than_int_expects

-- Literal
unfoldable pub literal : Function
literal name argv = return_string name
