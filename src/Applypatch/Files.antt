-- ===== src/Applypatch/Files.antt =====
-- Loading and saving (applypatch/applypatch.c): LoadFileContents, LoadPartitionContents,
-- SaveFileContents and WriteToPartition.
use open_recovery.Base.{
  ℕ, zero, suc, ◌+◌, ◌-◌, ◌/◌, ◌^◌, Bool, true, false, ◌&&◌, List, [], ◌∷◌, ◌++◌, Option, none,
  some, Bytes, codes, bytes_eq, length, take, drop, ltb, ◌==◌, if◌then◌else◌, ℤ, pos, negsuc,
}
use open_recovery.Edify.Text.{strtol}
use open_recovery.Applypatch.Sha1.{parse_sha1}
use open_recovery.Applypatch.Sink.{file_sink}
use open_recovery.Applypatch.World.{
  put, World, change, tick, Kernel, Outcome, next, fault, M, ◌>>=◌, return,
}

-- the pointer `data`: NULL, a buffer, or a buffer that has been freed
pub data Buffer : Type 0 where
  null freed : Buffer
  live : Bytes → Buffer

-- FileContents; the mode and the owner are not kept
pub record FileContents : Type 0 where
  pub buffer : Buffer
  pub size : ℕ
  pub sha1 : Bytes

abbrev pub is_partition : Bytes → Bool
is_partition name = bytes_eq (take 5 name) (codes "EMMC:")

-- `strtok` with ":", over the whole text: `run` is the token that has begun
unfoldable pub tokens : Bytes → Bytes → List Bytes
tokens [] [] = []
tokens (r ∷ run) [] = (r ∷ run) ∷ []
tokens [] (c ∷ cs) = if c == b':' then tokens [] cs else tokens (c ∷ []) cs
tokens (r ∷ run) (c ∷ cs) =
    if c == b':' then (r ∷ run) ∷ tokens [] cs else tokens ((r ∷ run) ++ (c ∷ [])) cs

unfoldable pub colons : Bytes → ℕ
colons [] = 0
colons (c ∷ cs) = (if c == b':' then 1 else 0) + colons cs

-- what the loop over the pairs makes of the tokens: a size of 0, or a size that is no token at all.
-- A hash that is no token is NULL.
pub data Pairs : Type 0 where
  pairs : List (ℕ × Option Bytes) → Pairs
  bad_size missing : Pairs

abbrev pub add_pair : ℕ × Option Bytes → Pairs → Pairs
add_pair p (pairs ps) = pairs (p ∷ ps)
add_pair p bad_size = bad_size
add_pair p missing = missing

-- a `long` as a `size_t`
abbrev pub size_of : ℤ → ℕ
size_of (pos n) = n
size_of (negsuc n) = 2 ^ 32 - 1 - n

abbrev pub head : List Bytes → Option Bytes
head [] = none
head (t ∷ ts) = some t

unfoldable pub read_pairs : ℕ → List Bytes → Pairs
read_pairs zero ts = pairs []
read_pairs (suc n) [] = missing
read_pairs (suc n) (size ∷ ts) =
    let rest = add_pair (size_of (strtol size).0, head ts) (read_pairs n (drop 1 ts)) in
    if size_of (strtol size).0 == 0 then bad_size else rest

-- qsort by size; pairs of one size keep their order
unfoldable pub insert_pair : ℕ × Option Bytes → List (ℕ × Option Bytes) → List (ℕ × Option Bytes)
insert_pair p [] = p ∷ []
insert_pair p (q ∷ qs) = if ltb q.0 p.0 then q ∷ insert_pair p qs else p ∷ q ∷ qs

unfoldable pub sort_pairs : List (ℕ × Option Bytes) → List (ℕ × Option Bytes)
unfolding insert_pair
sort_pairs [] = []
sort_pairs (p ∷ ps) = insert_pair p (sort_pairs ps)

-- a hash that the first bytes have, or none, and how many bytes have been read
pub data Matching : Type 0 where
  matched unmatched : ℕ → Matching
  crash : Matching

-- `mask` is retouch_mask_data with the offset 0, `sha` is SHA_hash.
module _ (k : Kernel) (sha : Bytes → Bytes) (mask : Bytes → Option Bytes) where
  -- The loop of LoadPartitionContents over what the device holds; `size` bytes have been read.
  unfoldable pub match_pairs : Bytes → ℕ → List (ℕ × Option Bytes) → Matching
  match_pairs content size [] = unmatched size
  match_pairs content size ((want, none) ∷ ps) =
      if ltb (length content) want then unmatched size else crash
  match_pairs content size ((want, some sum) ∷ ps) =
      let rest = match_pairs content want ps in
      if ltb (length content) want then unmatched size else elim (parse_sha1 sum) [
        | none ↦ unmatched want
        | some digest ↦ if bytes_eq (sha (take want content)) digest then matched want else rest
      ]

  abbrev pub not_loaded : FileContents → Outcome (Bool × FileContents)
  not_loaded file = next (false, record file { buffer = null })

  -- the end of LoadPartitionContents, with what the loop has found
  abbrev pub loaded_part : FileContents → Bytes → Matching → Outcome (Bool × FileContents)
  loaded_part file content (matched size) = next (
    true,
    record { buffer = live (take size content); size = size; sha1 = sha (take size content) },
  )
  loaded_part file content (unmatched size) = not_loaded (record file { size = size })
  loaded_part file content crash = fault

  -- The device is opened and the largest size is looked up, index[pairs-1], before it is read.
  abbrev pub read_device :
      World → FileContents → Option Bytes → List (ℕ × Option Bytes) → Outcome (Bool × FileContents)
  read_device w file none ps = fault
  read_device w file (some device) [] = if k.readable w device then fault else not_loaded file
  read_device w file (some device) (p ∷ ps) =
      if k.readable w device
      then (elim (w.disk device) [
        | none ↦ not_loaded file
        | some content ↦ loaded_part file content (match_pairs content 0 (sort_pairs (p ∷ ps)))
      ])
      else not_loaded file

  -- LoadPartitionContents. The number of colons is only complained about.
  unfoldable pub load_partition_contents :
      World → Bytes → FileContents → Outcome (Bool × FileContents)
  unfolding tokens colons read_pairs sort_pairs match_pairs
  load_partition_contents w filename file = elim (tokens [] filename) [
    | [] ↦ fault
    | magic ∷ ts ↦
        if bytes_eq magic (codes "EMMC")
        then (elim (read_pairs ((colons filename - 1) / 2) (drop 1 ts)) [
          | missing ↦ fault
          | bad_size ↦ not_loaded file
          | pairs ps ↦ read_device w file (head ts) ps
        ])
        else not_loaded file
  ]

  abbrev pub as_masked : FileContents → Bytes → Option Bytes → Bool × FileContents
  as_masked file content none = (false, record file { buffer = null; size = length content })
  as_masked file content (some masked) =
      (true, record { buffer = live masked; size = length content; sha1 = sha masked })

  -- by what is there, and whether stat, and fopen and fread, succeed
  abbrev pub as_read : FileContents → Option Bytes → Bool → Bool → Bool × FileContents
  as_read file none stat_ok read_ok = (false, record file { buffer = null })
  as_read file (some content) false read_ok = (false, record file { buffer = null })
  as_read file (some content) true false =
      (false, record file { buffer = null; size = length content })
  as_read file (some content) true true = as_masked file content (mask content)

  -- LoadFileContents with RETOUCH_DO_MASK. Where stat fails, `size` keeps what it was.
  unfoldable pub load_from_disk : World → Bytes → FileContents → Bool × FileContents
  load_from_disk w filename file =
      as_read file (w.disk filename) (k.stat w filename) (k.readable w filename)

  unfoldable pub load_file_contents : Bytes → FileContents → M (Bool × FileContents)
  unfolding load_partition_contents load_from_disk
  load_file_contents filename file w =
      if is_partition filename
      then (load_partition_contents w filename file, tick w)
      else (next (load_from_disk w filename file), tick w)

-- the writing of `n` bytes to an empty file: the disk is seen after each byte
unfoldable pub writing : World → Bytes → Bytes → ℕ → World
writing w name bytes zero = w
writing w name bytes (suc n) =
    let w' = writing w name bytes n in change w' (put w'.disk name (some (take (suc n) bytes)))

-- the same for a device, which keeps what lies behind
unfoldable pub overwriting : World → Bytes → Bytes → Bytes → ℕ → World
overwriting w name old bytes zero = tick w
overwriting w name old bytes (suc n) =
    let w' = overwriting w name old bytes n in
    change w' (put w'.disk name (some (take (suc n) bytes ++ drop (suc n) old)))

abbrev pub held : Option Bytes → Bytes
held none = []
held (some bytes) = bytes

module _ (k : Kernel) where
  -- FileSink on a file that has just been made empty: how much was written
  unfoldable pub write_all : Bytes → Bytes → World → ℕ × World
  unfolding file_sink writing
  write_all name bytes w =
      let (total, file) = file_sink (k.writes w name) bytes 0 in
      (total, writing w name bytes (length file))

  abbrev pub saved : Bytes → ℕ → M ℕ → M Bool
  saved name size m = do
    total ← m
    (λ w. (next ((total == size) && (k.chmod w name && k.chown w name)), tick w))

  -- `write` from NULL takes nothing.
  abbrev pub fill : Bytes → ℕ → Buffer → M Bool
  fill name size freed w = (fault, w)
  fill name size null w = saved name size (return 0) w
  fill name size (live bytes) w =
      saved name size (λ w'. let (n, u) = write_all name bytes w' in (next n, u)) w

  -- SaveFileContents: whether it returns 0
  unfoldable pub save_file_contents : Bytes → FileContents → M Bool
  unfolding write_all
  save_file_contents name file w =
      if k.creatable w name
      then fill name file.size file.buffer (change w (put w.disk name (some [])))
      else (next false, tick w)

  -- WriteToPartition: -1 is `false`. The file that fopen gives is not compared with NULL.
  unfoldable pub write_to_partition : Bytes → Bytes → M Bool
  unfolding tokens file_sink overwriting
  write_to_partition bytes target w = elim (tokens [] target) [
    | [] ↦ (fault, w)
    | magic ∷ [] ↦ (next false, w)
    | magic ∷ partition ∷ ts ↦
        if bytes_eq magic (codes "EMMC")
        then (if k.creatable w partition
            then (let (total, file) = file_sink (k.writes w partition) bytes 0 in
                let w' = overwriting w partition (held (w.disk partition)) bytes (length file) in
                (next ((total == length bytes) && k.closes w' partition), w'))
            else (fault, w))
        else (next false, w)
  ]
