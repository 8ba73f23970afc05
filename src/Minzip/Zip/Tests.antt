-- ===== src/Minzip/Zip/Tests.antt =====
-- The theorems about the reader of archives at a small archive, and runs of its operations.
use open_recovery.Base.{
  ℕ, ◌+◌, ◌-◌, ◌^◌, ◌<◌, ◌≡◌, inl, inr, refl, Bool, true, false, ◌&&◌, List, [], ◌∷◌, ◌++◌, Option,
  none, some, Bytes, bytes_eq, AllBytes, codes, replicate, ltb, ltb→lt, Bool-cases, if◌then◌else◌,
  arith,
}
use open_recovery.Minzip.Hash.{round_up_power2, smears, hash_size}
use open_recovery.Minzip.Zip.{
  compute_hash, data_offset, Result, done, bail, fault, ◌>>=◌, ZipEntry, ZipArchive, SafeAdd,
  mz_open_zip_archive, mz_find_zip_entry,
}
use open_recovery.Minzip.Zip.Parsed.{data_offset-wraps, AddsWell}
use open_recovery.Minzip.Zip.Opened.{Opened}

abbrev pub adder : SafeAdd
adder = record {
  addresses = λ a b. if ltb (a + b) (2 ^ 32) then some (a + b) else none;
  longs = λ a b. true;
}

pub adder-AddsWell : AddsWell adder
adder-AddsWell a b c h = elim (Bool-cases (ltb (a + b) (2 ^ 32))) [
  | inl l ↦ by_sum (rw (l) at h) (ltb→lt (a + b) (2 ^ 32) l)
  | inr g ↦ absurd (no_sum (rw (g) at h))
]
  where
    by_sum : some (a + b) ≡ some c → a + b < 2 ^ 32 → (c ≡ a + b) × (c < 2 ^ 32)
    by_sum e l = let one : c ≡ a + b = cc in (one, omega (arith, l, one))

    no_sum : ◌≡◌ {A = Option ℕ} none (some c) → ⊥
    no_sum e = absurd (cc)

-- the bytes of a 16 or a 32 bit number below 256
abbrev short : ℕ → Bytes
short n = n ∷ 0 ∷ []

abbrev long : ℕ → Bytes
long n = n ∷ 0 ∷ 0 ∷ 0 ∷ []

-- a stored file of one byte
abbrev local : ℕ → Bytes
local name =
    codes "PK"
    ++ (3 ∷ 4 ∷ [])
    ++ replicate 14 0
    ++ long 1
    ++ long 1
    ++ short 1
    ++ short 0
    ++ (name ∷ 120 ∷ [])

abbrev central : ℕ → ℕ → Bytes
central name offset =
    codes "PK"
    ++ (1 ∷ 2 ∷ [])
    ++ replicate 16 0
    ++ long 1
    ++ long 1
    ++ short 1
    ++ replicate 12 0
    ++ long offset
    ++ (name ∷ [])

abbrev last : ℕ → ℕ → Bytes
last number offset =
    codes "PK"
    ++ (5 ∷ 6 ∷ [])
    ++ replicate 4 0
    ++ short number
    ++ short number
    ++ long 0
    ++ long offset
    ++ short 0

-- the files b and a
abbrev pub two_files : Bytes
two_files = local b'b' ++ local b'a' ++ central b'b' 0 ++ central b'a' 32 ++ last 2 64

-- the names of the archive, and where the two are found
abbrev names : Result ZipArchive → List Bytes
names (done a) = names_of a.entries
  where
    names_of : List ZipEntry → List Bytes
    names_of [] = []
    names_of (e ∷ es) = e.file_name ∷ names_of es
names bail = []
names fault = []

names_run : names (mz_open_zip_archive adder 4096 (some two_files)) ≡ (codes "a" ∷ codes "b" ∷ [])
unfolding mz_open_zip_archive round_up_power2 smears hash_size compute_hash
names_run = refl

found_run :
    (mz_open_zip_archive adder 4096 (some two_files) >>= λ a. mz_find_zip_entry a (codes "b"))
    ≡ done (some 1)
unfolding mz_open_zip_archive mz_find_zip_entry round_up_power2 smears hash_size compute_hash
    bytes_eq
found_run = refl

absent_run :
    (mz_open_zip_archive adder 4096 (some two_files) >>= λ a. mz_find_zip_entry a (codes "c"))
    ≡ done none
unfolding mz_open_zip_archive mz_find_zip_entry round_up_power2 smears hash_size compute_hash
    bytes_eq
absent_run = refl

-- cut short, it is refused
cut_run : mz_open_zip_archive adder 4096 (some (local b'b' ++ last 1 32)) ≡ bail
unfolding mz_open_zip_archive
cut_run = refl

abbrev pub all_bytes : Bytes → Bool
all_bytes [] = true
all_bytes (b ∷ bs) = ltb b 256 && all_bytes bs

pub all_bytes-AllBytes : (bs : Bytes) → all_bytes bs ≡ true → AllBytes bs
all_bytes-AllBytes [] h = tt
all_bytes-AllBytes (b ∷ bs) h = elim (Bool-cases (ltb b 256)) [
  | inl l ↦ (ltb→lt b 256 l, all_bytes-AllBytes bs (rw (l) at h))
  | inr g ↦ absurd (no_bytes (rw (g) at h))
]
  where
    no_bytes : false ≡ true → ⊥
    no_bytes e = absurd (cc)

data_offset-wraps_example :
    ◌≡◌ {A = Result ℕ} (data_offset adder 4096 two_files (2 ^ 32 - 4100) 0) fault
data_offset-wraps_example =
    data_offset-wraps adder 4096 two_files (2 ^ 32 - 4100) 0 refl (omega arith) (omega arith)
      (omega arith) (omega arith)
