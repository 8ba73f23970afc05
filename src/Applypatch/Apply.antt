-- ===== src/Applypatch/Apply.antt =====
-- applypatch and applypatch_check (applypatch/applypatch.c).
pub mod Holds
pub mod Safe
pub mod Choose
pub mod Backup
pub mod Rounds
pub mod Resume
pub mod Complete
pub mod Partition
mod Tests
use open_recovery.Base.{
  ℕ, zero, suc, ◌+◌, ◌-◌, ◌*◌, ◌/◌, ◌%◌, ◌^◌, Bool, true, false, ◌&&◌, ◌||◌, not, List, [], ◌∷◌,
  ◌++◌, Option, none, some, Bytes, codes, bytes_eq, length, get_elem?, take, ltb, leb, ◌==◌,
  if◌then◌else◌, map,
}
use open_recovery.Retouch.Mask.{Masking, matched, ended, retouch_mask_data}
use open_recovery.Applypatch.Bspatch.{Decompressor, Patched, apply_bsdiff_patch_mem}
use open_recovery.Applypatch.Sha1.{parse_sha1, find_matching_patch}
use open_recovery.Applypatch.Sink.{memory_sink}
use open_recovery.Applypatch.FreeCache.{
  cache_temp_source, free_space_for_file, make_free_space_on_cache,
}
use open_recovery.Applypatch.World.{
  World, change, put, tick, Kernel, unlink, os_of, Outcome, next, exit, fault, M, bind, ◌>>=◌, ◌>>◌,
  return, leave, or_fail,
}
use open_recovery.Applypatch.Files.{
  Buffer, null, freed, live, FileContents, is_partition, load_file_contents, save_file_contents,
  write_all, write_to_partition,
}

-- a hash in hex digits and the Value that comes with it
pub record Patch : Type 0 where
  pub sha1_str : Bytes
  pub is_blob : Bool
  pub bytes : Bytes

pub data Format : Type 0 where
  bsdiff imgdiff : Format

-- What the function has at hand: SHA_hash; bzip2, and how many rounds the loops of ApplyBSDiffPatch
-- are followed for; and what ApplyImagePatch makes of a patch and a source, with a sink that takes
-- everything: the bytes that reach it, and whether the patch could be read to its end; nothing where
-- memory is touched that is not there.
pub record Tools : Type 1 where
  pub sha : Bytes → Bytes
  pub bz : Decompressor
  pub rounds : ℕ
  pub image : Bytes → Bytes → Option (Bytes × Bool)

abbrev pub as_matched : Masking → Option Bytes
as_matched (ended matched offset object) = some object
as_matched (ended _ offset object) = none
as_matched Masking.fault = none
as_matched Masking.never = none

-- retouch_mask_data with the offset 0; nothing where the answer is not RETOUCH_DATA_MATCHED
unfoldable pub masked_data : Bytes → Option Bytes
unfolding retouch_mask_data
masked_data object = as_matched (retouch_mask_data (some 0) object)

abbrev pub as_patched : Patched → Option (Bytes × Bool)
as_patched (Patched.ok new_data) = some (new_data, true)
as_patched Patched.corrupt = some ([], false)
as_patched Patched.fault = none
as_patched Patched.never = none

-- what ApplyBSDiffPatch or ApplyImagePatch gives to the sink
unfoldable pub run_patch : Tools → Format → Bytes → Bytes → Option (Bytes × Bool)
unfolding apply_bsdiff_patch_mem
run_patch t bsdiff patch object =
    as_patched (apply_bsdiff_patch_mem t.bz t.rounds t.rounds object patch 0)
run_patch t imgdiff patch object = t.image patch object

-- the source that is used, its number in the list, and its contents
pub data Choice : Type 0 where
  from_source : FileContents → Patch → Choice
  from_copy : FileContents → FileContents → Patch → Choice

-- where the output of a round went
pub data Output : Type 0 where
  to_file : Bytes → Output
  to_memory : Output

-- the end of a round: the patch was applied, with these bytes, or there is to be another round
pub data Round : Type 0 where
  applied : Bool → Output → Bytes → Round
  again : Round

abbrev pub free : Buffer → Buffer
free null = null
free _ = freed

abbrev pub is_some : Option ℕ → Bool
is_some none = false
is_some (some i) = true

-- up to the first "/" that is not at the start
unfoldable pub until_slash : Bytes → Bytes
until_slash [] = []
until_slash (c ∷ cs) = let rest = until_slash cs in if c == b'/' then [] else c ∷ rest

unfoldable pub target_fs : Bytes → Bytes
unfolding until_slash
target_fs [] = []
target_fs (c ∷ cs) = c ∷ until_slash cs

abbrev pub strs : List Patch → List Bytes
strs = map (λ (p : Patch). p.sha1_str)

abbrev pub source_file_of : Choice → FileContents
source_file_of (from_source file p) = file
source_file_of (from_copy file copy p) = file

abbrev pub used : Choice → FileContents
used (from_source file p) = file
used (from_copy file copy p) = copy

abbrev pub chosen : Choice → Patch
chosen (from_source file p) = p
chosen (from_copy file copy p) = p

abbrev pub format_of : Bytes → Option Format
format_of patch =
    if leb 8 (length patch) && bytes_eq (take 8 patch) (codes "BSDIFF40")
    then some bsdiff
    else if leb 8 (length patch) && bytes_eq (take 8 patch) (codes "IMGDIFF2")
    then some imgdiff
    else none

abbrev pub outname_of : Bytes → Bytes
outname_of target = target ++ codes ".patch"

abbrev pub sink_memory : ℕ → Bytes → Bool
sink_memory target_size out = elim (memory_sink target_size [] out) [ none ↦ false | some b ↦ true ]

abbrev pub with_bytes : {A : Type 0} → Buffer → (Bytes → M A) → M A
with_bytes null f w = (fault, w)
with_bytes freed f w = (fault, w)
with_bytes (live b) f w = f b w

abbrev pub discard : Bytes → M (Unit {0})
discard name w = (next tt, unlink w name)

-- "-" means the same as the source
abbrev pub target_of : Bytes → Bytes → Bytes
target_of source_filename target_filename =
    if bytes_eq target_filename (codes "-") then source_filename else target_filename

module _ (k : Kernel) (t : Tools) where
  abbrev pub load : Bytes → FileContents → M (Bool × FileContents)
  load name file = load_file_contents k t.sha masked_data name file

  abbrev pub nth_patch : List Patch → Option ℕ → Option Patch
  nth_patch patches none = none
  nth_patch patches (some i) = get_elem? patches i

  abbrev pub patch_for : List Patch → FileContents → Option Patch
  patch_for patches file = nth_patch patches (find_matching_patch file.sha1 (strs patches))

  -- the patch for a file, where `data` is not NULL
  abbrev pub patch_of : List Patch → FileContents → Buffer → Option Patch
  patch_of patches file null = none
  patch_of patches file freed = none
  patch_of patches file (live b) = patch_for patches file

  abbrev pub take_copy : FileContents → FileContents → Option Patch → M Choice
  take_copy source_file copy none = leave 1
  take_copy source_file copy (some p) =
      return (from_copy (record source_file { buffer = free source_file.buffer }) copy p)

  -- the copy is tried
  unfoldable pub choose_copy : List Patch → FileContents → FileContents → M Choice
  unfolding load_file_contents find_matching_patch
  choose_copy patches source_file copy_file = do
    (ok, copy) ← load cache_temp_source copy_file
    or_fail ok
    take_copy source_file copy (patch_for patches copy)

  abbrev pub take_source : List Patch → FileContents → FileContents → Option Patch → M Choice
  take_source patches uninit file none = choose_copy patches file uninit
  take_source patches uninit file (some p) = return (from_source file p)

  -- the source is loaded, unless it is the target and that has been loaded
  abbrev pub load_source : Bool → Bytes → Bool × FileContents → Buffer → M (Bool × FileContents)
  load_source same source (ok, file) null = load source file
  load_source true source (ok, file) _ = return (ok, file)
  load_source false source (ok, file) _ = load source (record file { buffer = freed })

  abbrev pub unless_done : Bool → M Choice → M Choice
  unless_done true m = leave 0
  unless_done false m = m

  -- from the loading of the target to the choice of a source; `uninit` is what the two structures
  -- hold before they are set
  unfoldable pub choose : Bytes → Bytes → Bytes → List Patch → FileContents → M Choice
  unfolding choose_copy
  choose source target target_sha1 patches uninit = do
    (ok, file) ← load target uninit
    unless_done (ok && bytes_eq file.sha1 target_sha1) (do
      (ok, file) ← load_source (bytes_eq target source) source (ok, file) file.buffer
      take_source patches uninit file (patch_of patches file file.buffer))

  abbrev pub make_room : ℕ → M Bool
  make_room needed w =
      let (made, end, deleted) = make_free_space_on_cache (os_of k) w needed in (next made, end)

  abbrev pub save_copy : FileContents → M (Unit {0})
  save_copy file = do ok ← save_file_contents k cache_temp_source file; or_fail ok

  -- SaveFileContents to CACHE_TEMP_SOURCE after room has been made for it
  unfoldable pub back_up : FileContents → M (Unit {0})
  unfolding save_file_contents make_free_space_on_cache
  back_up file = do room ← make_room file.size; or_fail room; save_copy file

  -- whether the target's file system has room, where there is to be another round
  unfoldable pub enough_space : Bool → Bytes → ℕ → World → Bool
  unfolding target_fs free_space_for_file
  enough_space retry target target_size w =
      let free_space = free_space_for_file (os_of k) w (target_fs target) in
      retry && (ltb (256 * 1024) free_space && ltb (target_size * 3 % 2 ^ 32 / 2) free_space)

  -- the backup of a round, where the target is a file: only of a source that is used
  abbrev pub spare_source : Bool → Bytes → Choice → M Bool
  spare_source true source c = return false
  spare_source false source (from_copy file copy p) = return false
  spare_source false source (from_source file p) = do
    or_fail (not (is_partition source))
    back_up file
    discard source
    return true

  -- whether a copy was made, and whether there is to be another round
  unfoldable pub prepare : Bool → Bytes → Bytes → ℕ → Choice → M (Bool × Bool)
  unfolding back_up enough_space
  prepare retry source target target_size c w =
      if is_partition target
      then (back_up (source_file_of c) >>= λ _. return (true, false)) w
      else (let enough = enough_space retry target target_size w in
          (spare_source enough source c >>= λ made. return (made, enough)) (tick w))

  -- the sink of a file: whether it has taken all bytes
  abbrev pub sink_file : Bytes → Bytes → M Bool
  sink_file outname out w =
      let (total, w') = write_all k outname out w in (next (total == length out), w')

  abbrev pub open_output : Bytes → M Bool
  open_output name w =
      if k.creatable w name
      then (next true, change w (put w.disk name (some [])))
      else (next false, tick w)

  -- the format is known before the patch is read
  abbrev pub as_decoded : Option (Bytes × Bool) → M (Bytes × Bool)
  as_decoded none w = (fault, w)
  as_decoded (some r) w = (next r, w)

  abbrev pub decode : Patch → Option Format → Bytes → M (Bytes × Bool)
  decode p none bytes = leave 1
  decode p (some f) bytes = as_decoded (run_patch t f p.bytes bytes)

  -- the end of a round
  abbrev pub conclude : Bool → Bool → Bool → Output → Bytes → M Round
  conclude true retry made output out = return (applied made output out)
  conclude false false made output out = leave 1
  conclude false true made (to_file outname) out = do discard outname; return again
  conclude false true made to_memory out = return again

  -- a round of the loop, after its backup
  unfoldable pub apply_round : Bool × Bool → Bytes → ℕ → Choice → M Round
  unfolding write_all memory_sink
  apply_round (made, retry) target target_size c =
      let outname = outname_of target in
      if is_partition target
      then (do
        or_fail (chosen c).is_blob
        (out, ok) ← with_bytes (used c).buffer (decode (chosen c) (format_of (chosen c).bytes))
        conclude (ok && sink_memory target_size out) retry made to_memory out)
      else (do
        or_fail (chosen c).is_blob
        opened ← open_output outname
        or_fail opened
        (out, ok) ← with_bytes (used c).buffer (decode (chosen c) (format_of (chosen c).bytes))
        took ← sink_file outname out
        conclude (ok && took) retry made (to_file outname) out)

  abbrev pub once_more : Round → M Round → M Round
  once_more (applied made output out) m = return (applied made output out)
  once_more again m = m

  -- the loop: a second round at most
  unfoldable pub rounds : Bytes → Bytes → ℕ → Choice → M Round
  unfolding prepare apply_round
  rounds source target target_size c = do
    first ← prepare true source target target_size c
    r ← apply_round first target target_size c
    once_more r (do
      second ← prepare false source target target_size c
      apply_round second target target_size c)

  abbrev pub rename : Bytes → Bytes → M Bool
  rename from to w =
      if k.renames w from
      then (next true, change w (put (put w.disk to (w.disk from)) from none))
      else (next false, tick w)

  abbrev pub drop_copy : Bool → M (Unit {0})
  drop_copy made = if made then discard cache_temp_source else return tt

  -- what follows the loop
  unfoldable pub finish : Bytes → Bytes → Round → M (Unit {0})
  unfolding write_to_partition
  finish target target_sha1 again = leave 1
  finish target target_sha1 (applied made to_memory out) = do
    or_fail (bytes_eq (t.sha out) target_sha1)
    written ← write_to_partition k out target
    or_fail written
    drop_copy made
    leave 0
  finish target target_sha1 (applied made (to_file outname) out) = do
    or_fail (bytes_eq (t.sha out) target_sha1)
    changed ← (λ w. (next (k.chmod w outname && k.chown w outname), tick w))
    or_fail changed
    renamed ← rename outname target
    or_fail renamed
    drop_copy made
    leave 0

  -- applypatch, with a parsed hash and the name of the target
  unfoldable pub apply_to : Bytes → Bytes → Bytes → ℕ → List Patch → FileContents → M (Unit {0})
  unfolding choose rounds finish
  apply_to source target target_sha1 target_size patches uninit = do
    c ← choose source target target_sha1 patches uninit
    r ← rounds source target target_size c
    finish target target_sha1 r

  abbrev pub with_hash : Bytes → Bytes → ℕ → List Patch → FileContents → Option Bytes → M (Unit {0})
  with_hash source target target_size patches uninit none = leave 1
  with_hash source target target_size patches uninit (some target_sha1) =
      apply_to source target target_sha1 target_size patches uninit

  -- applypatch
  unfoldable pub applypatch : Bytes → Bytes → Bytes → ℕ → List Patch → FileContents → M (Unit {0})
  unfolding apply_to parse_sha1
  applypatch source_filename target_filename target_sha1_str target_size patches uninit =
      with_hash source_filename (target_of source_filename target_filename) target_size patches
        uninit (parse_sha1 target_sha1_str)

  -- applypatch_check: 0 or 1 is what it exits with
  unfoldable pub applypatch_check : Bytes → List Bytes → FileContents → M (Unit {0})
  unfolding load_file_contents find_matching_patch
  applypatch_check filename sums uninit = do
    (ok, file) ← load filename uninit
    elim (ok && (leb (length sums) 0 || is_some (find_matching_patch file.sha1 sums))) [
      | true ↦ leave 0
      | false ↦ do
        (ok, file) ← load cache_temp_source file
        or_fail (ok && is_some (find_matching_patch file.sha1 sums))
        leave 0
    ]
