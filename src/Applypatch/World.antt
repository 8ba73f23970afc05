-- ===== src/Applypatch/World.antt =====
-- What the operating system does for applypatch/applypatch.c: the file system, the answers of its
-- calls, and programs over it that can exit or touch memory that is not theirs.
use open_recovery.Base.{
  ℕ, ◌+◌, Bool, true, false, List, ◌∷◌, Option, none, Bytes, bytes_eq, if◌then◌else◌,
}
use open_recovery.Applypatch.FreeCache.{Process, Os}

-- files and devices by name
abbrev pub Disk : Type 0
Disk = Bytes → Option Bytes

abbrev pub put : Disk → Bytes → Option Bytes → Disk
put disk name content = λ n. if bytes_eq n name then content else disk n

-- `past` are the earlier contents of the disk, the latest first. Two calls of one kind are told apart
-- by the clock.
pub record World : Type 0 where
  pub disk : Disk
  pub past : List Disk
  pub clock : ℕ

abbrev pub change : World → Disk → World
change w disk = record { disk = disk; past = w.disk ∷ w.past; clock = w.clock + 1 }

abbrev pub tick : World → World
tick w = record w { clock = w.clock + 1 }

-- What a call answers in a state, beside the contents of the disk: whether stat, fopen and fread
-- succeed, whether a file can be created, what each `write` of some bytes returns, how many bytes
-- fwrite takes and whether fclose succeeds; chmod, chown and rename; and the calls of FreeCache.
pub record Kernel : Type 0 where
  pub stat : World → Bytes → Bool
  pub readable : World → Bytes → Bool
  pub creatable : World → Bytes → Bool
  pub writes : World → Bytes → List ℕ
  pub closes : World → Bytes → Bool
  pub chmod : World → Bytes → Bool
  pub chown : World → Bytes → Bool
  pub renames : World → Bytes → Bool
  pub entries : World → Bytes → Option (List Bytes)
  pub is_regular : World → Bytes → Bool
  pub processes : World → Option (List Process)
  pub statfs : World → Bytes → Option (ℕ × ℕ)

abbrev pub unlink : World → Bytes → World
unlink w name = change w (put w.disk name none)

abbrev pub os_of : Kernel → Os
os_of k = record {
  World = World;
  entries = k.entries;
  is_regular = k.is_regular;
  processes = k.processes;
  unlink = unlink;
  statfs = k.statfs;
}

-- `exit` is a return from the function, with its value; `fault` an access of memory that is not there
-- or has been freed.
pub data Outcome (A : Type 0) : Type 0 where
  next : A → Outcome A
  exit : ℕ → Outcome A
  fault : Outcome A

abbrev pub M : Type 0 → Type 0
M A = World → Outcome A × World

abbrev pub bind : {A B : Type 0} → Outcome A × World → (A → M B) → Outcome B × World
bind (next a, w) f = f a w
bind (exit n, w) f = (exit n, w)
bind (fault, w) f = (fault, w)

infixl 5 ◌>>=◌ ◌>>◌
abbrev pub ◌>>=◌ : {A B : Type 0} → M A → (A → M B) → M B
◌>>=◌ m f w = bind (m w) f

abbrev pub ◌>>◌ : {B : Type 0} → M (Unit {0}) → M B → M B
m >> k = m >>= λ _. k

abbrev pub return : {A : Type 0} → A → M A
return a w = (next a, w)

abbrev pub leave : {A : Type 0} → ℕ → M A
leave n w = (exit n, w)

-- `if (!b) return 1;`
abbrev pub or_fail : Bool → M (Unit {0})
or_fail true = return tt
or_fail false = leave 1
