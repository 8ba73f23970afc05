-- ===== src/Edify/State.antt =====
-- The state of an evaluation and the monad of the functions of edify/expr.c.
-- A `Function` of the C code takes the State and returns a Value* or NULL. Here that is a `Run`:
-- `done` is a result, `null` is the NULL result, and `fault` is an access out of bounds.
use open_recovery.Base.{List, [], ◌∷◌, ◌++◌, Option, some, Bytes, take, ℤ}

-- State of expr.h, with what the process has printed and slept. `cookie` belongs to the
-- application and no code of edify reads it.
pub record State : Type 0 where
  pub script : Bytes
  pub errmsg : Option Bytes
  pub stdout : Bytes
  pub not_ints : List Bytes
  pub naps : List ℤ

pub data Run {ℓ} (A : Type ℓ) : Type ℓ where
  done : A → State → Run A
  null : State → Run A
  fault : Run A

abbrev pub M {ℓ} : Type ℓ → Type ℓ
M A = State → Run A

module _ {ℓ} {A : Type ℓ} where
  unfoldable pub pure : A → M A
  pure a s = done a s

  -- an access that the C code makes out of bounds
  unfoldable pub crash : M A
  crash s = fault

  -- `state->errmsg = msg; return NULL`
  unfoldable pub fail : Bytes → M A
  fail msg s = null (record s { errmsg = some msg })

  -- ErrorAbort: the message goes through a buffer of 4096 bytes, the terminator included.
  unfoldable pub error_abort : Bytes → M A
  unfolding fail
  error_abort msg = fail (take 4095 msg)

abbrev pub continue {ℓ κ} : {A : Type ℓ} {B : Type κ} → Run A → (A → M B) → Run B
continue (done a s) f = f a s
continue (null s) f = null s
continue fault f = fault

-- Most callers return NULL at once where a callee did: this is the bind of the monad.
infixl 5 ◌>>=◌ ◌>>◌
unfoldable pub ◌>>=◌ {ℓ κ} : {A : Type ℓ} {B : Type κ} → M A → (A → M B) → M B
unfolding pure crash fail error_abort
◌>>=◌ m f s = continue (m s) f

abbrev pub ◌>>◌ {ℓ κ} : {A : Type ℓ} {B : Type κ} → M A → M B → M B
m >> n = m >>= λ _. n

-- A caller that goes on after NULL is given `other`.
abbrev pub recover {ℓ κ} : {A : Type ℓ} {B : Type κ} → Run A → (A → M B) → M B → Run B
recover (done a s) f other = f a s
recover (null s) f other = other s
recover fault f other = fault

unfoldable pub or_null {ℓ κ} : {A : Type ℓ} {B : Type κ} → M A → (A → M B) → M B → M B
or_null m f other s = recover (m s) f other

-- `fputs(v, stdout)`
unfoldable pub print : Bytes → M (Unit {0})
print v s = done tt (record s { stdout = s.stdout ++ v })

-- `fprintf(stderr, "[%s] is not an int\n", v)`
unfoldable pub report_not_int : Bytes → M (Unit {0})
report_not_int v s = done tt (record s { not_ints = s.not_ints ++ v ∷ [] })

-- `sleep(v)`
unfoldable pub sleep : ℤ → M (Unit {0})
sleep v s = done tt (record s { naps = s.naps ++ v ∷ [] })

-- `state->script`
unfoldable pub script : M Bytes
script s = done s.script s
