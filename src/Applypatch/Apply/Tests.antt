-- ===== src/Applypatch/Apply/Tests.antt =====
-- The theorems about applypatch on a small disk.
use open_recovery.Base.{
  subst, bytes_eq→eq, pos, ◌++◌, ◌+ℤ◌, AllBytes, ℕ, zero, suc, ◌+◌, ◌≤◌, ◌^◌, ◌≡◌, ◌≢◌, inl, inr,
  refl, ap, sym, ◌∙◌, Bool, true, false, [], ◌∷◌, none, some, Bytes, codes, bytes_eq, bytes_eq_refl,
  length, take, drop, replicate, get_elem?, Bool-cases, if◌then◌else◌, arith,
}
use open_recovery.Applypatch.Sha1.{
  parse_sha1, print_sha1, parse_sha1-print_sha1, find_matching_patch,
}
use open_recovery.Applypatch.Utils.{to_long, offtin, offtout}
use open_recovery.Applypatch.Bspatch.{eight_at, fill_buffer}
use open_recovery.Applypatch.Bspatch.Correct.{encode}
use open_recovery.Applypatch.Bspatch.Whole.{header}
use open_recovery.Applypatch.Tests.{stored}
use open_recovery.Applypatch.Sink.{file_sink}
use open_recovery.Applypatch.FreeCache.{cache_temp_source, free_space_for_file}
use open_recovery.Applypatch.World.{put, World, Kernel, Outcome, exit}
use open_recovery.Applypatch.Files.{null, FileContents, load_partition_contents}
use open_recovery.Applypatch.Apply.{
  Patch, Format, bsdiff, imgdiff, Tools, masked_data, run_patch, format_of, applypatch,
  enough_space,
}
use open_recovery.Applypatch.Apply.Safe.{Sound, Apart, Recoverable}
use open_recovery.Applypatch.Apply.Resume.{IsFair, Makes, AllMake}
use open_recovery.Applypatch.Apply.Rounds.{EndsSafely, applypatch-EndsSafely}
use open_recovery.Edify.Text.{strtol}
use open_recovery.Applypatch.Apply.Partition.{OnlyCopy, applypatch-loses_copy}
use open_recovery.Applypatch.Apply.Complete.{Completes, applypatch-Completes}

abbrev old_file : Bytes
old_file = codes "old"

abbrev new_file : Bytes
new_file = codes "new"

abbrev new_sha1 : Bytes
new_sha1 = replicate 20 1

abbrev old_sha1 : Bytes
old_sha1 = replicate 20 2

abbrev other_sha1 : Bytes
other_sha1 = replicate 20 3

-- three digests, and a decompressor of stored bytes
abbrev tools : Tools
tools = record {
  sha = λ m.
      if bytes_eq m new_file
      then new_sha1
      else if bytes_eq m old_file
      then old_sha1
      else other_sha1;
  bz = stored;
  rounds = 27;
  image = λ p m. some ([], false);
}

-- every call succeeds, and a write takes up to 2 ^ 32 bytes
abbrev kernel : Kernel
kernel = record {
  stat = λ w n. true;
  readable = λ w n. true;
  creatable = λ w n. true;
  writes = λ w b. (2 ^ 32) ∷ [];
  closes = λ w n. true;
  chmod = λ w n. true;
  chown = λ w n. true;
  renames = λ w n. true;
  entries = λ w n. none;
  is_regular = λ w n. false;
  processes = λ w. none;
  statfs = λ w n. some (4096, 1000);
}

-- the same without room on any file system but /cache
abbrev crowded : Kernel
crowded = record kernel {
  statfs = λ w n. if bytes_eq n (codes "/cache") then some (4096, 1000) else some (4096, 0);
}

abbrev patch : Patch
patch = record {
  sha1_str = print_sha1 old_sha1;
  is_blob = true;
  bytes = header 24 0 3 ++ (encode (record { add = 0; copy = 3; seek = pos 0 } ∷ []) ++ new_file);
}

abbrev source : Bytes
source = codes "/system/a"

abbrev uninit : FileContents
uninit = record { buffer = null; size = 0; sha1 = [] }

abbrev world : World
world = record { disk = put (λ n. none) source (some old_file); past = []; clock = 0 }

abbrev run : (k : Kernel) → Outcome (Unit {0}) × World
run k = applypatch k tools source (codes "-") (print_sha1 new_sha1) 3 (patch ∷ []) uninit world

-- with and without room for the new file beside the old one
runs :
    ((run kernel).0 ≡ exit 0)
    × ((run kernel).1.disk source ≡ some new_file)
    × ((run crowded).0 ≡ exit 0)
    × ((run crowded).1.disk source ≡ some new_file)
    × ((run crowded).1.disk cache_temp_source ≡ none)
unfolding applypatch print_sha1 bytes_eq masked_data encode run_patch offtout ◌+ℤ◌
runs = (refl, refl, refl, refl, refl)

differ : (a b : Bytes) → bytes_eq a b ≡ false → a ≢ b
differ a b h e = cc (h, ap (bytes_eq a) (sym e), bytes_eq_refl a)

apart : Apart source source
unfolding bytes_eq
apart = record {
  source_file = refl;
  target_file = refl;
  source_place = refl;
  target_place = refl;
  source_output = differ _ _ refl;
  copy_output = differ _ _ refl;
}

found_old : find_matching_patch old_sha1 (print_sha1 old_sha1 ∷ []) ≡ some 0
unfolding find_matching_patch print_sha1 bytes_eq
found_old = refl

found_new : find_matching_patch new_sha1 (print_sha1 old_sha1 ∷ []) ≡ none
unfolding find_matching_patch print_sha1 bytes_eq
found_new = refl

world-Recoverable : Recoverable tools (patch ∷ []) source source new_sha1 world.disk
unfolding bytes_eq masked_data
world-Recoverable = inr (inl (old_file, old_file, 0, refl, refl, found_old))

sink_end : (bytes : Bytes) (written : ℕ) → (file_sink [] bytes written).0 ≡ written
unfolding file_sink
sink_end [] written = refl
sink_end (b ∷ bytes) written = refl

length-take_all : (n : ℕ) (bytes : Bytes) → length bytes ≤ n → length (take n bytes) ≡ length bytes
length-take_all zero [] h = refl
length-take_all zero (b ∷ bytes) h = absurd (omega arith)
length-take_all (suc n) [] h = refl
length-take_all (suc n) (b ∷ bytes) h = ap suc (length-take_all n bytes (omega arith))

takes_all :
    (n : ℕ) (bytes : Bytes)
    → length bytes ≤ suc n
    → (file_sink (suc n ∷ []) bytes 0).0 ≡ length bytes
unfolding file_sink
takes_all n [] h = refl
takes_all n (b ∷ bytes) h = omega (
  arith,
  h,
  length-take_all (suc n) (b ∷ bytes) h,
  sink_end (drop (suc n) (b ∷ bytes)) (0 + length (take (suc n) (b ∷ bytes))),
)

kernel-IsFair : IsFair kernel tools source 3
unfolding enough_space
kernel-IsFair = record {
  stat = λ w n. refl;
  readable = λ w n. refl;
  creatable = λ w n. refl;
  chmod = λ w n. refl;
  chown = λ w n. refl;
  renames = λ w n. refl;
  writes = λ w n bytes h. takes_all 4294967295 bytes (omega arith);
  room = λ w. refl;
}

first :
    (i : ℕ)
    → find_matching_patch old_sha1 (print_sha1 old_sha1 ∷ []) ≡ some i
    → get_elem? (patch ∷ []) i ≡ some patch
first zero e = refl
first (suc i) e = cc (e, found_old)

digest-AllBytes : (n : ℕ) → AllBytes (replicate n 1)
digest-AllBytes zero = tt
digest-AllBytes (suc n) = (omega arith, digest-AllBytes n)

found_other : find_matching_patch other_sha1 (print_sha1 old_sha1 ∷ []) ≡ none
unfolding find_matching_patch print_sha1 bytes_eq
found_other = refl

-- the patch is for the old file only
only_old :
    (m : Bytes) (i : ℕ)
    → find_matching_patch (tools.sha m) (print_sha1 old_sha1 ∷ []) ≡ some i
    → (m ≡ old_file) × (get_elem? (patch ∷ []) i ≡ some patch)
only_old m i e = elim (Bool-cases (bytes_eq m new_file)) [
  | inl new ↦ absurd (some_none (sym e ∙ by_tests true (bytes_eq m old_file) new refl ∙ found_new))
  | inr not_new ↦ elim (Bool-cases (bytes_eq m old_file)) [
    | inl old ↦ (bytes_eq→eq m old_file old, first i (sym (by_tests false true not_new old) ∙ e))
    | inr not_old ↦ absurd (some_none (sym e ∙ by_tests false false not_new not_old ∙ found_other))
  ]
]
  where
    some_none : {n : ℕ} → some n ≢ none
    some_none x = cc

    by_tests :
        (a b : Bool)
        → bytes_eq m new_file ≡ a
        → bytes_eq m old_file ≡ b
        → find_matching_patch (tools.sha m) (print_sha1 old_sha1 ∷ [])
          ≡ find_matching_patch
              (if a then new_sha1 else if b then old_sha1 else other_sha1)
              (print_sha1 old_sha1 ∷ [])
    by_tests a b h k = λ j.
        find_matching_patch (if h j then new_sha1 else if k j then old_sha1 else other_sha1)
          (print_sha1 old_sha1 ∷ [])

masked_old : masked_data old_file ≡ some old_file
unfolding masked_data bytes_eq
masked_old = refl

masked_new : masked_data new_file ≡ some new_file
unfolding masked_data bytes_eq
masked_new = refl

only_new : (c : Bytes) → tools.sha c ≡ new_sha1 → c ≡ new_file
unfolding bytes_eq
only_new c e = elim (Bool-cases (bytes_eq c new_file)) [
  | inl new ↦ bytes_eq→eq c new_file new
  | inr not_new ↦ absurd (
      by_old (bytes_eq c old_file) (
        sym (
          ap
            (λ (a : Bool).
              if a then new_sha1 else if bytes_eq c old_file then old_sha1 else other_sha1)
            not_new)
        ∙ e))
]
  where
    by_old : (b : Bool) → (if b then old_sha1 else other_sha1) ≢ new_sha1
    by_old true h = cc (ap (bytes_eq new_sha1) h)
    by_old false h = cc (ap (bytes_eq new_sha1) h)

patched : run_patch tools bsdiff patch.bytes old_file ≡ some (new_file, true)
unfolding run_patch encode offtout offtin to_long eight_at fill_buffer bytes_eq ◌+ℤ◌
patched = refl

known_patch : format_of patch.bytes ≡ some bsdiff
unfolding bytes_eq encode
known_patch = refl

tools-Sound : Sound tools (patch ∷ []) new_sha1
unfolding run_patch
tools-Sound = record {
  mask_again = λ c m i e found.
      subst (λ (x : Bytes). masked_data x ≡ some x) (sym (only_old m i found).0) masked_old;
  mask_target =
      λ c e. subst (λ (x : Bytes). masked_data x ≡ some x) (sym (only_new c e)) masked_new;
  decodes = λ m p f (i, found, at) known. by_format i m p f (only_old m i found) at known;
}
  where
    some_none : {r : Bytes × Bool} → some r ≢ none
    some_none x = cc

    by_format :
        (i : ℕ) (m : Bytes) (p : Patch) (f : Format)
        → (m ≡ old_file) × (get_elem? (patch ∷ []) i ≡ some patch)
        → get_elem? (patch ∷ []) i ≡ some p
        → format_of p.bytes ≡ some f
        → run_patch tools f p.bytes m ≢ none
    by_format i m p imgdiff (old, at) at' known e = some_none e
    by_format i m p bsdiff (old, at) at' known e =
        let same : p ≡ patch = cc (at, at') in
        some_none (sym patched ∙ (λ j. run_patch tools bsdiff ((sym same) j).bytes (sym old j)) ∙ e)

made : Makes tools new_sha1 patch old_file
unfolding bytes_eq
made = record {
  format = bsdiff;
  out = new_file;
  blob = refl;
  known = known_patch;
  result = patched;
  hash = refl;
  short = omega arith;
}

patches-AllMake : AllMake tools (patch ∷ []) new_sha1
patches-AllMake m i e =
    let (old, at) = only_old m i e in
    (patch, at, subst (λ (x : Bytes). Makes tools new_sha1 patch x) (sym old) made)

applypatch-EndsSafely_example :
    EndsSafely tools (patch ∷ []) source source new_sha1 (
      applypatch crowded tools source (codes "-") (print_sha1 new_sha1) 3 (patch ∷ []) uninit world)
unfolding bytes_eq
applypatch-EndsSafely_example =
    applypatch-EndsSafely crowded tools (patch ∷ []) source (codes "-") (print_sha1 new_sha1)
      new_sha1 3 uninit world (parse_sha1-print_sha1 new_sha1 refl (digest-AllBytes 20)) tools-Sound
      apart (world-Recoverable, tt)

applypatch-Completes_example :
    Completes tools
      (patch ∷ [])
      source
      new_sha1
      (applypatch kernel tools source (codes "-") (print_sha1 new_sha1) 3 (patch ∷ []) uninit world)
unfolding bytes_eq
applypatch-Completes_example =
    applypatch-Completes kernel tools (patch ∷ []) source (codes "-") (print_sha1 new_sha1) new_sha1
      3 uninit world (parse_sha1-print_sha1 new_sha1 refl (digest-AllBytes 20)) tools-Sound apart
      kernel-IsFair patches-AllMake (world-Recoverable, tt)

-- a partition that should have the new file and does not
abbrev device : Bytes
device = codes "EMMC:dev:3:0101010101010101010101010101010101010101"

abbrev torn : World
torn = record {
  disk = put (put (λ n. none) (codes "dev") (some old_file)) cache_temp_source (some old_file);
  past = [];
  clock = 0;
}

torn-OnlyCopy : OnlyCopy kernel tools (patch ∷ []) device uninit torn
unfolding load_partition_contents bytes_eq strtol parse_sha1 masked_data
torn-OnlyCopy = record {
  once = 3;
  size = 2;
  first = refl;
  second = refl;
  content = old_file;
  masked = old_file;
  copied = refl;
  stat = refl;
  readable = refl;
  mask = refl;
  index = 0;
  patch = patch;
  found = found_old;
  at = refl;
}

applypatch-loses_copy_example :
    ((applypatch kernel tools device (codes "-") (print_sha1 new_sha1) 3 (patch ∷ []) uninit torn).0
      ≡ exit 1)
    × ((applypatch kernel tools device
            (codes "-")
            (print_sha1 new_sha1)
            3
            (patch ∷ [])
            uninit
            torn).1.disk
          cache_temp_source
        ≡ some [])
unfolding bytes_eq free_space_for_file torn-OnlyCopy
applypatch-loses_copy_example =
    applypatch-loses_copy kernel tools (patch ∷ []) device (print_sha1 new_sha1) new_sha1 3 uninit
      torn (parse_sha1-print_sha1 new_sha1 refl (digest-AllBytes 20)) refl torn-OnlyCopy refl refl
