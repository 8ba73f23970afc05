-- ===== src/Minzip/Zip/Opened.antt =====
-- mzOpenZipArchive and mzFindZipEntry (minzip/Zip.c) together.
use open_recovery.Base.{
  ℕ, zero, suc, ◌+◌, ◌-◌, ◌*◌, ◌^◌, ◌≤◌, ◌<◌, ◌≡◌, inl, inr, refl, sym, subst, true, ◌&&◌, not,
  List, [], ◌∷◌, some, Bytes, AllBytes, drop-AllBytes, length, drop, ltb, ◌==◌, Bool-cases, arith,
}
use open_recovery.Minzip.Hash.{hash_size, create}
use open_recovery.Minzip.Zip.{
  Result, done, bail, fault, ◌>>=◌, ◌>>◌, check, two_of, get2_le, get4_le, ZipEntry, ZipArchive,
  SafeAdd, loc_sig, end_sig, end_hdr, find_end, parse_entries, fill_hash, parse_zip_archive,
  mz_open_zip_archive, mz_find_zip_entry,
}
use open_recovery.Minzip.Zip.Sorting.{IsSorted, AllIn, not_less}
use open_recovery.Minzip.Zip.Parsed.{
  Safely, bind-Safely, get2_there, get4_there, AddsWell, Wraps, Placed, ParsedEntries,
  parse_entries-Safely,
}
use open_recovery.Minzip.Zip.Filled.{
  FoundEntry, Filled, fill_hash-Filled, create-Filled, mz_find_zip_entry-FoundEntry,
}

two_of_small : (bs : Bytes) (v : ℕ) → AllBytes bs → two_of bs ≡ done v → v < 65536
two_of_small [] v h e = absurd (cc)
two_of_small (b0 ∷ []) v h e = absurd (cc)
two_of_small (b0 ∷ b1 ∷ bs) v h e =
    let sum : b0 + b1 * 2 ^ 8 ≡ v = cc in omega (arith, sum, h.0, h.1.0)

get2_small : (map : Bytes) (p v : ℕ) → AllBytes map → get2_le map p ≡ done v → v < 65536
unfolding get2_le
get2_small map p v h e = two_of_small (drop p map) v (drop-AllBytes p map h) e

find_end-Safely :
    (F : Type 0) (map : Bytes) (p : ℕ) → p + 4 ≤ length map → Safely F (λ q. q ≤ p) (find_end map p)
unfolding find_end
find_end-Safely F map zero h =
    let (v, e) = get4_there map 0 (omega (arith, h)) in
    elim (Bool-cases (v == end_sig)) [
      | inl is ↦ rw (e, is) (omega arith)
      | inr other ↦ rw (e, other) tt
    ]
find_end-Safely F map (suc p) h =
    let (v, e) = get4_there map (suc p) h in
    elim (Bool-cases (v == end_sig)) [
      | inl is ↦ rw (e, is) (omega arith)
      | inr other ↦
          rw (e, other) (weaken (find_end map p) (find_end-Safely F map p (omega (arith, h))))
    ]
  where
    weaken : (r : Result ℕ) → Safely F (λ q. q ≤ p) r → Safely F (λ q. q ≤ suc p) r
    weaken (done q) h = omega (arith, h)
    weaken bail h = tt
    weaken fault h = h

module _ (safe_add : SafeAdd) (adds : AddsWell safe_add) (base : ℕ) (map : Bytes)
    (top : base + length map + 2 ^ 18 ≤ 2 ^ 32) where
  -- an archive that was opened
  pub record Opened (archive : ZipArchive) : Type 0 where
    pub sorted : IsSorted archive.entries
    pub placed : AllIn (Placed safe_add adds base map top) archive.entries
    pub finds : (name : Bytes) → FoundEntry archive.entries name (mz_find_zip_entry archive name)

  entries-Opened :
      (n : ℕ) (entries : List ZipEntry)
      → 0 < n
      → n < 65536
      → ParsedEntries safe_add adds base map top n entries
      → Safely (Wraps safe_add adds base map top) Opened (
          fill_hash entries (create (hash_size n)) n >>= λ hash.
          done (record { entries = entries; hash = hash }))
  unfolding hash_size
  entries-Opened n entries some_entry few p =
      let (hash, run, f) =
        fill_hash-Filled entries n (create (hash_size n)) (omega (arith, p.count))
          (create-Filled entries (hash_size n) (omega arith) (omega arith)) in
      rw (run) (record {
        sorted = p.sorted;
        placed = p.placed;
        finds = λ name.
            mz_find_zip_entry-FoundEntry (record { entries = entries; hash = hash }) name
              (subst (λ m. Filled entries m hash) (sym p.count) f);
      })

  parse_zip_archive-Opened :
      AllBytes map
      → end_hdr ≤ length map
      → Safely (Wraps safe_add adds base map top) Opened (parse_zip_archive safe_add base map)
  unfolding parse_zip_archive
  parse_zip_archive-Opened bytes large =
      let (val, e) = get4_there map 0 (omega (arith, large)) in
      elim (Bool-cases (val == loc_sig)) [
        | inr other ↦ rw (e, other) tt
        | inl is ↦
            rw (e, is)
              (bind-Safely (Wraps safe_add adds base map top) (λ q. q ≤ length map - end_hdr) Opened
                (find_end map (length map - end_hdr))
                (λ ptr. do
                  num_entries ← get2_le map (ptr + 8)
                  cd_offset ← get4_le map (ptr + 16)
                  check (not (num_entries == 0) && ltb cd_offset (length map))
                  entries ← parse_entries safe_add base map num_entries cd_offset []
                  hash ← fill_hash entries (create (hash_size num_entries)) num_entries
                  done (record { entries = entries; hash = hash }))
                (find_end-Safely (Wraps safe_add adds base map top) map (length map - end_hdr)
                  (omega (arith, large)))
                (λ ptr q.
                  let (n, e₁) = get2_there map (ptr + 8) (omega (arith, q, large)) in
                  let (cd, e₂) = get4_there map (ptr + 16) (omega (arith, q, large)) in
                  elim (Bool-cases (not (n == 0) && ltb cd (length map))) [
                    | inr bad ↦ rw (e₁, e₂, bad) tt
                    | inl good ↦
                        rw (e₁, e₂, good)
                          (bind-Safely (Wraps safe_add adds base map top)
                            (ParsedEntries safe_add adds base map top (0 + n)) Opened
                            (parse_entries safe_add base map n cd [])
                            (λ entries. fill_hash entries (create (hash_size n)) n >>= λ hash.
                              done (record { entries = entries; hash = hash }))
                            (parse_entries-Safely safe_add adds base map top n cd 0 []
                              (record { sorted = tt; count = refl; placed = λ x h. elim h [ ] }))
                            (λ entries p.
                              entries-Opened n entries (nonzero n (length map) cd good)
                                (get2_small map (ptr + 8) n bytes e₁)
                                (record {
                                  sorted = p.sorted;
                                  count = omega (arith, p.count);
                                  placed = p.placed;
                                })))
                  ]))
      ]
    where
      nonzero : (n l cd : ℕ) → (not (n == 0) && ltb cd l) ≡ true → 0 < n
      nonzero n l cd h = ground arith

pub mz_open_zip_archive-Opened :
    (safe_add : SafeAdd) (adds : AddsWell safe_add) (base : ℕ) (map : Bytes)
    (top : base + length map + 2 ^ 18 ≤ 2 ^ 32)
    → AllBytes map
    → Safely
        (Wraps safe_add adds base map top)
        (Opened safe_add adds base map top)
        (mz_open_zip_archive safe_add base (some map))
unfolding mz_open_zip_archive
mz_open_zip_archive-Opened safe_add adds base map top bytes =
    elim (Bool-cases (ltb (length map) end_hdr)) [
      | inl small ↦ rw (small) tt
      | inr e ↦ rw (e) (
          parse_zip_archive-Opened safe_add adds base map top bytes
            (not_less (length map) end_hdr e))
    ]
