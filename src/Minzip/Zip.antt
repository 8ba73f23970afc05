-- ===== src/Minzip/Zip.antt =====
-- The reader of archives (minzip/Zip.c): the central directory, its sorting and the look-up by name. The
-- mapping is the list of its bytes, and a pointer into it the number of a byte; `base` is where it lies.
pub mod Sorting
pub mod Parsed
pub mod Filled
pub mod Opened
pub mod Tests
use open_recovery.Base.{
  ℕ, zero, suc, ◌+◌, ◌-◌, ◌*◌, ◌/◌, ◌%◌, ◌^◌, Bool, true, false, ◌&&◌, ◌||◌, not, List, [], ◌∷◌,
  ◌++◌, Option, none, some, Bytes, length, get_elem?, take, drop, ltb, leb, ◌==◌, bytes_eq,
  if◌then◌else◌,
}
use open_recovery.Minzip.Hash.{HashTable, hash_size, create, lookup}

-- `goto bail`, or an access outside of the mapping or of an array
pub data Result (A : Type 0) : Type 0 where
  done : A → Result A
  bail fault : Result A

infixl 5 ◌>>=◌
abbrev pub ◌>>=◌ : {A B : Type 0} → Result A → (A → Result B) → Result B
done a >>= f = f a
bail >>= f = bail
fault >>= f = fault

infixl 5 ◌>>◌
abbrev pub ◌>>◌ : {B : Type 0} → Result (Unit {0}) → Result B → Result B
m >> r = m >>= λ _. r

abbrev pub check : Bool → Result (Unit {0})
check true = done tt
check false = bail

-- an assertion
abbrev pub or_fault : Bool → Result (Unit {0})
or_fault true = done tt
or_fault false = fault

-- ZipEntry; what is a long is kept as its pattern of 32 bits
pub record ZipEntry : Type 0 where
  pub file_name : Bytes
  pub offset : ℕ
  pub comp_len : ℕ
  pub uncomp_len : ℕ
  pub compression : ℕ
  pub mod_time : ℕ
  pub crc32 : ℕ
  pub version_made_by : ℕ
  pub external_file_attributes : ℕ

-- ZipArchive; an item of the hash table is the number of an entry
pub record ZipArchive : Type 0 where
  pub entries : List ZipEntry
  pub hash : HashTable

-- CENSIG, ENDSIG and LOCSIG; CENHDR, ENDHDR and LOCHDR; CENVEM_UNIX
abbrev pub cen_sig : ℕ
cen_sig = 33639248

abbrev pub end_sig : ℕ
end_sig = 101010256

abbrev pub loc_sig : ℕ
loc_sig = 67324752

abbrev pub cen_hdr : ℕ
cen_hdr = 46

abbrev pub end_hdr : ℕ
end_hdr = 22

abbrev pub loc_hdr : ℕ
loc_hdr = 30

abbrev pub cenvem_unix : ℕ
cenvem_unix = 768

abbrev pub path_max : ℕ
path_max = 4096

-- get2LE and get4LE
abbrev pub two_of : Bytes → Result ℕ
two_of (b0 ∷ b1 ∷ bs) = done (b0 + b1 * 2 ^ 8)
two_of _ = fault

abbrev pub four_of : Bytes → Result ℕ
four_of (b0 ∷ b1 ∷ b2 ∷ b3 ∷ bs) = done (b0 + b1 * 2 ^ 8 + b2 * 2 ^ 16 + b3 * 2 ^ 24)
four_of _ = fault

unfoldable pub get2_le : Bytes → ℕ → Result ℕ
get2_le map p = two_of (drop p map)

unfoldable pub get4_le : Bytes → ℕ → Result ℕ
get4_le map p = four_of (drop p map)

-- memcmp or strncmp over the shorter length, and then the lengths; names have no NUL
pub data Order : Type 0 where
  before same after : Order

unfoldable pub compare_names : Bytes → Bytes → Order
compare_names [] [] = same
compare_names [] (b ∷ bs) = before
compare_names (a ∷ bs) [] = after
compare_names (a ∷ as') (b ∷ bs) =
    let rest = compare_names as' bs in if ltb a b then before else if ltb b a then after else rest

-- computeHash, over words; the loop has hashed what stands before
unfoldable pub compute_hash : ℕ → Bytes → ℕ
compute_hash hash [] = hash
compute_hash hash (c ∷ name) = compute_hash ((hash * 31 + c) % 2 ^ 32) name

abbrev pub name_hash : Bytes → ℕ
name_hash name = compute_hash 2 name

abbrev pub all_printable : Bytes → Bool
all_printable [] = true
all_printable (c ∷ name) = (leb 32 c && ltb c 127) && all_printable name

-- validFilename
unfoldable pub valid_filename : Bytes → Bool
valid_filename name = ltb (length name) path_max && all_printable name

-- the end of the central directory, from byte `p` down
unfoldable pub find_end : Bytes → ℕ → Result ℕ
unfolding get4_le
find_end map zero = get4_le map 0 >>= λ v. if v == end_sig then done 0 else bail
find_end map (suc p) =
    let rest = find_end map p in
    get4_le map (suc p) >>= λ v. if v == end_sig then done (suc p) else rest

abbrev pub name_at : List ZipEntry → ℕ → Option Bytes
name_at entries i = elim (get_elem? entries i) [ none ↦ none | some e ↦ some e.file_name ]

-- The binary search: `low` and `high + 1` of the C code, and high + 1 in the end. Each round halves the
-- range, and as many rounds as entries are enough.
unfoldable pub find_target : List ZipEntry → Bytes → ℕ → ℕ → ℕ → Result ℕ
unfolding compare_names
find_target entries name zero low high = if ltb low high then fault else done high
find_target entries name (suc fuel) low high =
    let mid = low + (high - 1 - low) / 2 in
    let right = find_target entries name fuel (mid + 1) high in
    let left = find_target entries name fuel low mid in
    if ltb low high
    then (elim (get_elem? entries mid) [
      | none ↦ fault
      | some e ↦ elim (compare_names e.file_name name) [
        | before ↦ right
        | same ↦ done (mid + 1)
        | after ↦ left
      ]
    ])
    else done high

-- the entry at its place, with room made for it
abbrev pub insert_at : List ZipEntry → ℕ → ZipEntry → List ZipEntry
insert_at entries target e = take target entries ++ (e ∷ drop target entries)

unfoldable pub insert_sorted : List ZipEntry → ZipEntry → Result (List ZipEntry)
unfolding find_target
insert_sorted entries e = do
  target ← find_target entries e.file_name (length entries) 0 (length entries)
  or_fault (leb target (length entries))
  done (insert_at entries target e)

-- `version made by` is of a system that is known
abbrev pub is_known : ℕ → Bool
is_known version = (version / 256 % 256 == 0) || (version / 256 % 256 * 256 == cenvem_unix)

-- What safe_add makes of two addresses, and whether it takes two longs.
pub record SafeAdd : Type 0 where
  pub addresses : ℕ → ℕ → Option ℕ
  pub longs : ℕ → ℕ → Bool

abbrev pub or_bail : {A : Type 0} → Option A → Result A
or_bail none = bail
or_bail (some a) = done a

module _ (safe_add : SafeAdd) (base : ℕ) (map : Bytes) where
  -- the checks of the local header, whose offset is not trusted, and where the data begins
  unfoldable pub data_offset : ℕ → ℕ → Result ℕ
  unfolding get4_le get2_le
  data_offset local_hdr_offset comp_len = do
    local_hdr ← or_bail (safe_add.addresses base local_hdr_offset)
    check (leb ((local_hdr + loc_hdr) % 2 ^ 32) (base + length map))
    sig ← get4_le map (local_hdr - base)
    check (sig == loc_sig)
    name_len ← get2_le map (local_hdr - base + 26)
    extra_len ← get2_le map (local_hdr - base + 28)
    check (safe_add.longs ((local_hdr_offset + loc_hdr + name_len + extra_len) % 2 ^ 32) comp_len)
    check (
        leb (((local_hdr_offset + loc_hdr + name_len + extra_len) % 2 ^ 32 + comp_len) % 2 ^ 32)
          (length map))
    done ((local_hdr_offset + loc_hdr + name_len + extra_len) % 2 ^ 32)

  -- one round of the loop over the central directory: the entry, and where the next header begins
  unfoldable pub parse_entry : ℕ → Result (ZipEntry × ℕ)
  unfolding get4_le get2_le valid_filename data_offset
  parse_entry ptr = do
    check (leb (ptr + cen_hdr) (length map))
    sig ← get4_le map ptr
    check (sig == cen_sig)
    local_hdr_offset ← get4_le map (ptr + 42)
    name_len ← get2_le map (ptr + 28)
    extra_len ← get2_le map (ptr + 30)
    comment_len ← get2_le map (ptr + 32)
    check (leb (ptr + cen_hdr + name_len) (length map))
    check (valid_filename (take name_len (drop (ptr + cen_hdr) map)))
    comp_len ← get4_le map (ptr + 20)
    uncomp_len ← get4_le map (ptr + 24)
    compression ← get2_le map (ptr + 10)
    mod_time ← get4_le map (ptr + 12)
    crc32 ← get4_le map (ptr + 16)
    version ← get2_le map (ptr + 4)
    check (is_known version)
    attributes ← get4_le map (ptr + 38)
    offset ← data_offset local_hdr_offset comp_len
    done (
      record {
        file_name = take name_len (drop (ptr + cen_hdr) map);
        offset = offset;
        comp_len = comp_len;
        uncomp_len = uncomp_len;
        compression = compression;
        mod_time = mod_time;
        crc32 = crc32;
        version_made_by = version;
        external_file_attributes = attributes;
      },
      ptr + (cen_hdr + name_len + extra_len + comment_len),
    )

  -- the loop, for so many entries
  unfoldable pub parse_entries : ℕ → ℕ → List ZipEntry → Result (List ZipEntry)
  unfolding parse_entry insert_sorted
  parse_entries zero ptr entries = done entries
  parse_entries (suc n) ptr entries = do
    (e, next) ← parse_entry ptr
    entries' ← insert_sorted entries e
    parse_entries n next entries'

-- hashcmpZipEntry and hashcmpZipName: whether 0 is returned
abbrev pub has_name : List ZipEntry → Bytes → ℕ → Bool
has_name entries name i = elim (name_at entries i) [ none ↦ false | some n ↦ bytes_eq n name ]

abbrev pub hashcmp_zip_entry : List ZipEntry → ℕ → ℕ → Bool
hashcmp_zip_entry entries i j = elim (name_at entries j) [
  | none ↦ false
  | some n ↦ has_name entries n i
]

-- addEntryToHashTable; a duplicate is only complained about
unfoldable pub add_entry_to_hash_table : List ZipEntry → HashTable → ℕ → Result HashTable
unfolding lookup
add_entry_to_hash_table entries hash i = elim (name_at entries i) [
  | none ↦ fault
  | some name ↦ elim (lookup hash (name_hash name) i (hashcmp_zip_entry entries) true) [
    | none ↦ fault
    | some (found, hash') ↦ done hash'
  ]
]

-- the entries from 0 to before n
unfoldable pub fill_hash : List ZipEntry → HashTable → ℕ → Result HashTable
unfolding add_entry_to_hash_table
fill_hash entries hash zero = done hash
fill_hash entries hash (suc n) = do
  hash' ← fill_hash entries hash n
  add_entry_to_hash_table entries hash' n

-- parseZipArchive, where memory is found
unfoldable pub parse_zip_archive : SafeAdd → ℕ → Bytes → Result ZipArchive
unfolding find_end parse_entries fill_hash create
parse_zip_archive safe_add base map = do
  val ← get4_le map 0
  check (val == loc_sig)
  ptr ← find_end map (length map - end_hdr)
  num_entries ← get2_le map (ptr + 8)
  cd_offset ← get4_le map (ptr + 16)
  check (not (num_entries == 0) && ltb cd_offset (length map))
  entries ← parse_entries safe_add base map num_entries cd_offset []
  hash ← fill_hash entries (create (hash_size num_entries)) num_entries
  done (record { entries = entries; hash = hash })

-- mzOpenZipArchive on the bytes that were mapped, if the file opens and can be mapped
unfoldable pub mz_open_zip_archive : SafeAdd → ℕ → Option Bytes → Result ZipArchive
unfolding parse_zip_archive
mz_open_zip_archive safe_add base none = bail
mz_open_zip_archive safe_add base (some map) =
    if ltb (length map) end_hdr then bail else parse_zip_archive safe_add base map

-- mzFindZipEntry: the number of an entry; the table is not changed
unfoldable pub mz_find_zip_entry : ZipArchive → Bytes → Result (Option ℕ)
unfolding lookup
mz_find_zip_entry archive name =
    elim (lookup archive.hash (name_hash name) 0 (λ i _. has_name archive.entries name i) false) [
      | none ↦ fault
      | some (found, hash') ↦ done found
    ]
