-- ===== src/Minzip/Zip/Parsed.antt =====
-- parseZipArchive (minzip/Zip.c): what it makes of the bytes of a file, whatever they are.
use open_recovery.Base.{
  ==_iff, ap, ◌∙◌, ℕ, zero, suc, ◌+◌, ◌-◌, ◌%◌, ◌^◌, ◌≤◌, ◌<◌, ◌≡◌, inl, inr, refl, subst, true,
  List, [], ◌∷◌, some, Bytes, length, length-drop, take, drop, ltb, leb, ◌==◌, leb→le, ltb→lt,
  Bool-cases, Option-cases, arith,
}
use open_recovery.Minzip.Zip.{
  Result, done, bail, fault, ◌>>=◌, ZipEntry, SafeAdd, two_of, four_of, get2_le, get4_le, loc_sig,
  cen_sig, loc_hdr, cen_hdr, valid_filename, data_offset, parse_entry, parse_entries, insert_sorted,
  is_known,
}
use open_recovery.Minzip.Zip.Sorting.{IsSorted, AllIn, insert_sorted-Inserted, not_less, le→leb}

-- What holds of a result that there is, and of a fault; the checks may fail.
abbrev pub Safely : {A : Type 0} → Type 0 → (A → Type 0) → Result A → Type 0
Safely F P (done a) = P a
Safely F P bail = Unit
Safely F P fault = F

pub bind-Safely :
    {A B : Type 0} (F : Type 0) (P : A → Type 0) (Q : B → Type 0) (r : Result A) (f : A → Result B)
    → Safely F P r
    → ((a : A) → P a → Safely F Q (f a))
    → Safely F Q (r >>= f)
bind-Safely F P Q (done a) f h g = g a h
bind-Safely F P Q bail f h g = tt
bind-Safely F P Q fault f h g = h

two_there : (bs : Bytes) → 2 ≤ length bs → (v : ℕ) × (two_of bs ≡ done v)
two_there [] h = absurd (omega arith)
two_there (b0 ∷ []) h = absurd (omega arith)
two_there (b0 ∷ b1 ∷ bs) h = (_, refl)

four_there : (bs : Bytes) → 4 ≤ length bs → (v : ℕ) × (four_of bs ≡ done v)
four_there [] h = absurd (omega arith)
four_there (b0 ∷ []) h = absurd (omega arith)
four_there (b0 ∷ b1 ∷ []) h = absurd (omega arith)
four_there (b0 ∷ b1 ∷ b2 ∷ []) h = absurd (omega arith)
four_there (b0 ∷ b1 ∷ b2 ∷ b3 ∷ bs) h = (_, refl)

pub get2_there : (map : Bytes) (p : ℕ) → p + 2 ≤ length map → (v : ℕ) × (get2_le map p ≡ done v)
unfolding get2_le
get2_there map p h = two_there (drop p map) (omega (arith, h, length-drop p map))

pub get4_there : (map : Bytes) (p : ℕ) → p + 4 ≤ length map → (v : ℕ) × (get4_le map p ≡ done v)
unfolding get4_le
get4_there map p h = four_there (drop p map) (omega (arith, h, length-drop p map))

past_end : (map : Bytes) (p : ℕ) → length map ≤ p → get4_le map p ≡ fault
unfolding get4_le
past_end map p h = by_rest (drop p map) (omega (arith, h, length-drop p map))
  where
    by_rest : (bs : Bytes) → length bs ≡ 0 → four_of bs ≡ fault
    by_rest [] e = refl
    by_rest (b ∷ bs) e = absurd (omega arith)

-- A sum that safe_add returns is the sum, and an address.
abbrev pub AddsWell : SafeAdd → Type 0
AddsWell safe_add = (a b c : ℕ) → safe_add.addresses a b ≡ some c → (c ≡ a + b) × (c < 2 ^ 32)

module _ (safe_add : SafeAdd) (adds : AddsWell safe_add) (base : ℕ) (map : Bytes)
    (top : base + length map + 2 ^ 18 ≤ 2 ^ 32) where
  -- a central header whose local header begins in the last bytes of the address space
  pub record Wraps : Type 0 where
    pub ptr : ℕ
    pub inside : ptr + cen_hdr ≤ length map
    pub header : get4_le map ptr ≡ done cen_sig
    pub local_hdr_offset : ℕ
    pub read : get4_le map (ptr + 42) ≡ done local_hdr_offset
    pub low : base + local_hdr_offset < 2 ^ 32
    pub high : 2 ^ 32 ≤ base + local_hdr_offset + loc_hdr

  data_offset-Safely :
      (ptr local_hdr_offset comp_len : ℕ)
      → ptr + cen_hdr ≤ length map
      → get4_le map ptr ≡ done cen_sig
      → get4_le map (ptr + 42) ≡ done local_hdr_offset
      → Safely Wraps
          (λ offset. (offset + comp_len) % 2 ^ 32 ≤ length map)
          (data_offset safe_add base map local_hdr_offset comp_len)
  unfolding data_offset
  data_offset-Safely ptr lho comp_len room header read =
      elim (Option-cases (safe_add.addresses base lho)) [
        | inl e ↦ rw (e) tt
        | inr (c, e) ↦
            let sum = adds base lho c e in
            elim (Bool-cases (leb ((c + loc_hdr) % 2 ^ 32) (base + length map))) [
              | inr beyond ↦ rw (e, beyond) tt
              | inl b ↦ elim (Bool-cases (ltb (c + loc_hdr) (2 ^ 32))) [
                | inr wrapped ↦
                    let high = not_less (c + loc_hdr) (2 ^ 32) wrapped in
                    rw (e, b, past_end map (c - base) (omega (arith, high, top, sum.0)))
                      (record {
                        ptr = ptr;
                        inside = room;
                        header = header;
                        local_hdr_offset = lho;
                        read = read;
                        low = omega (arith, sum.0, sum.1);
                        high = omega (arith, sum.0, high);
                      })
                | inl fits ↦
                    let inside : c - base + loc_hdr ≤ length map =
                      omega (arith, ltb→lt _ _ fits, leb→le _ _ b, sum.0) in
                    let (sig, e₁) = get4_there map (c - base) (omega (arith, inside)) in
                    let (name_len, e₂) = get2_there map (c - base + 26) (omega (arith, inside)) in
                    let (extra_len, e₃) = get2_there map (c - base + 28) (omega (arith, inside)) in
                    let offset = (lho + loc_hdr + name_len + extra_len) % 2 ^ 32 in
                    elim (Bool-cases (sig == loc_sig)) [
                      | inr bad ↦ rw (e, b, e₁, bad) tt
                      | inl good ↦ elim (Bool-cases (safe_add.longs offset comp_len)) [
                        | inr overflow ↦ rw (e, b, e₁, good, e₂, e₃, overflow) tt
                        | inl sums ↦
                            elim (Bool-cases (leb ((offset + comp_len) % 2 ^ 32) (length map))) [
                              | inr off ↦ rw (e, b, e₁, good, e₂, e₃, sums, off) tt
                              | inl ends ↦ rw (e, b, e₁, good, e₂, e₃, sums, ends) (leb→le _ _ ends)
                            ]
                      ]
                    ]
              ]
            ]
      ]

  -- a header of the central directory
  pub record Placed (e : ZipEntry) : Type 0 where
    pub valid : valid_filename e.file_name ≡ true
    pub ends : (e.offset + e.comp_len) % 2 ^ 32 ≤ length map

  parse_entry-Safely :
      (ptr : ℕ)
      → Safely Wraps (λ (r : ZipEntry × ℕ). Placed r.0) (parse_entry safe_add base map ptr)
  unfolding parse_entry
  parse_entry-Safely ptr = elim (Bool-cases (leb (ptr + cen_hdr) (length map))) [
    | inr beyond ↦ rw (beyond) tt
    | inl b ↦
        let inside = leb→le (ptr + cen_hdr) (length map) b in
        let (sig, e₀) = get4_there map ptr (omega (arith, inside)) in
        let (lho, e₁) = get4_there map (ptr + 42) (omega (arith, inside)) in
        let (name_len, e₂) = get2_there map (ptr + 28) (omega (arith, inside)) in
        let (extra_len, e₃) = get2_there map (ptr + 30) (omega (arith, inside)) in
        let (comment_len, e₄) = get2_there map (ptr + 32) (omega (arith, inside)) in
        let (comp_len, e₅) = get4_there map (ptr + 20) (omega (arith, inside)) in
        let (uncomp_len, e₆) = get4_there map (ptr + 24) (omega (arith, inside)) in
        let (how, e₇) = get2_there map (ptr + 10) (omega (arith, inside)) in
        let (time, e₈) = get4_there map (ptr + 12) (omega (arith, inside)) in
        let (crc, e₉) = get4_there map (ptr + 16) (omega (arith, inside)) in
        let (version, f₀) = get2_there map (ptr + 4) (omega (arith, inside)) in
        let (attributes, f₁) = get4_there map (ptr + 38) (omega (arith, inside)) in
        let name = take name_len (drop (ptr + cen_hdr) map) in
        elim (Bool-cases (sig == cen_sig)) [
          | inr bad ↦ rw (b, e₀, bad) tt
          | inl good ↦ elim (Bool-cases (leb (ptr + cen_hdr + name_len) (length map))) [
            | inr off ↦ rw (b, e₀, good, e₁, e₂, e₃, e₄, off) tt
            | inl on ↦ elim (Bool-cases (valid_filename name)) [
              | inr invalid ↦ rw (b, e₀, good, e₁, e₂, e₃, e₄, on, invalid) tt
              | inl valid ↦ elim (Bool-cases (is_known version)) [
                | inr unknown ↦
                    rw (b, e₀, good, e₁, e₂, e₃, e₄, on, valid, e₅, e₆, e₇, e₈, e₉, f₀, unknown) tt
                | inl known ↦
                    rw (b, e₀, good, e₁, e₂, e₃, e₄, on, valid, e₅, e₆, e₇, e₈, e₉, f₀, known, f₁)
                      (bind-Safely Wraps (λ offset. (offset + comp_len) % 2 ^ 32 ≤ length map)
                        (λ (r : ZipEntry × ℕ). Placed r.0)
                        (data_offset safe_add base map lho comp_len)
                        (λ offset. done (
                          record {
                            file_name = name;
                            offset = offset;
                            comp_len = comp_len;
                            uncomp_len = uncomp_len;
                            compression = how;
                            mod_time = time;
                            crc32 = crc;
                            version_made_by = version;
                            external_file_attributes = attributes;
                          },
                          ptr + (cen_hdr + name_len + extra_len + comment_len),
                        ))
                        (data_offset-Safely ptr lho comp_len inside
                          (e₀ ∙ ap done ((==_iff sig cen_sig).0 good)) e₁)
                        (λ offset ends. record { valid = valid; ends = ends }))
              ]
            ]
          ]
        ]
  ]

  -- sorted entries, each of which was parsed
  pub record ParsedEntries (n : ℕ) (entries : List ZipEntry) : Type 0 where
    pub sorted : IsSorted entries
    pub count : length entries ≡ n
    pub placed : AllIn Placed entries

  pub parse_entries-Safely :
      (n ptr k : ℕ) (entries : List ZipEntry)
      → ParsedEntries k entries
      → Safely Wraps (ParsedEntries (k + n)) (parse_entries safe_add base map n ptr entries)
  unfolding parse_entries
  parse_entries-Safely zero ptr k entries p = record {
    sorted = p.sorted;
    count = omega (arith, p.count);
    placed = p.placed;
  }
  parse_entries-Safely (suc n) ptr k entries p =
      bind-Safely Wraps (λ (r : ZipEntry × ℕ). Placed r.0) (ParsedEntries (k + suc n))
        (parse_entry safe_add base map ptr)
        (λ r. insert_sorted entries r.0 >>= λ ys. parse_entries safe_add base map n r.1 ys)
        (parse_entry-Safely ptr)
        (λ r placed.
          let (ys, run, i) = insert_sorted-Inserted entries r.0 p.sorted in
          rw (run) (
            subst (λ m. Safely Wraps (ParsedEntries m) (parse_entries safe_add base map n r.1 ys))
              (moved k n)
              (parse_entries-Safely n r.1 (k + 1) ys (record {
                sorted = i.sorted;
                count = omega (arith, i.size, p.count);
                placed =
                    λ x h. elim (i.only x h) [ inl e ↦ rw (e) placed | inr old ↦ p.placed x old ];
              }))))
    where
      moved : (k n : ℕ) → k + 1 + n ≡ k + suc n
      moved k n = omega arith

-- A local header that begins in the last 30 bytes of the address space is read, outside of the
-- mapping: where safe_add gives its address and the mapping ends at address 30 or above and 2 ^ 18
-- bytes or more below the top, the sum with the header's length wraps around and passes the check.
pub data_offset-wraps :
    (safe_add : SafeAdd) (base : ℕ) (map : Bytes) (local_hdr_offset comp_len : ℕ)
    → safe_add.addresses base local_hdr_offset ≡ some (base + local_hdr_offset)
    → base + length map + 2 ^ 18 ≤ 2 ^ 32
    → loc_hdr ≤ base + length map
    → base + local_hdr_offset < 2 ^ 32
    → 2 ^ 32 ≤ base + local_hdr_offset + loc_hdr
    → data_offset safe_add base map local_hdr_offset comp_len ≡ fault
unfolding data_offset
data_offset-wraps safe_add base map lho comp_len sum top some_room low high =
    let passes : leb ((base + lho + loc_hdr) % 2 ^ 32) (base + length map) ≡ true =
      le→leb ((base + lho + loc_hdr) % 2 ^ 32) (base + length map)
        (omega (arith, low, high, some_room)) in
    rw (sum, passes, past_end map (base + lho - base) (omega (arith, high, top))) refl
