-- ===== src/Applypatch/Sha1.antt =====
-- ParseSha1 and FindMatchingPatch (applypatch/applypatch.c).
use Prim.Native.Nat.{bit_or}
use mathlib.Core.List.{append-nil}
use open_recovery.Base.{
  AllBytes, ℕ, zero, suc, ◌+◌, ◌-◌, ◌*◌, ◌/◌, ◌%◌, ◌<◌, ◌≡◌, ◌≢◌, ◌↔◌, ◌⊎◌, refl, ap, Bool, true,
  false, ◌&&◌, List, [], ◌∷◌, ◌++◌, Option, none, some, Bytes, bytes_eq, bytes_eq_iff, length,
  get_elem?, ltb, leb, ◌==◌, if◌then◌else◌, ==_iff, check_below, check_below_at, inl, inr, arith,
}

-- SHA_DIGEST_SIZE
abbrev pub sha_digest_size : ℕ
sha_digest_size = 20

unfoldable pub hex_digit : ℕ → Option ℕ
hex_digit c =
    if leb b'0' c && leb c b'9'
    then some (c - b'0')
    else if leb b'a' c && leb c b'f'
    then some (c - b'a' + 10)
    else if leb b'A' c && leb c b'F'
    then some (c - b'A' + 10)
    else none

abbrev pub pair_up : Option ℕ → Option ℕ → Option ℕ
pair_up none low = none
pair_up (some high) none = none
pair_up (some high) (some low) = some (bit_or (high * 16 % 256) low)

abbrev pub put_byte : Option ℕ → Option (Bytes × Bytes) → Option (Bytes × Bytes)
put_byte none rest = none
put_byte (some b) none = none
put_byte (some b) (some (digest, tail)) = some (b ∷ digest, tail)

-- The loop of ParseSha1 over `n` bytes, two digits a byte; the text that is left comes with them. The
-- terminator is no digit.
unfoldable pub parse_bytes : ℕ → Bytes → Option (Bytes × Bytes)
unfolding hex_digit
parse_bytes zero str = some ([], str)
parse_bytes (suc n) [] = none
parse_bytes (suc n) (c ∷ []) = none
parse_bytes (suc n) (c ∷ d ∷ str) =
    put_byte (pair_up (hex_digit c) (hex_digit d)) (parse_bytes n str)

abbrev pub at_end : Option (Bytes × Bytes) → Option Bytes
at_end none = none
at_end (some (digest, [])) = some digest
at_end (some (digest, c ∷ tail)) = none

-- ParseSha1: -1 is `none`
unfoldable pub parse_sha1 : Bytes → Option Bytes
unfolding parse_bytes
parse_sha1 str = at_end (parse_bytes sha_digest_size str)

abbrev pub is_digest : Bytes → Option Bytes → Bool
is_digest sha1 none = false
is_digest sha1 (some digest) = bytes_eq digest sha1

-- FindMatchingPatch: -1 is `none`
unfoldable pub find_matching_patch : Bytes → List Bytes → Option ℕ
unfolding parse_sha1
find_matching_patch sha1 [] = none
find_matching_patch sha1 (str ∷ strs) =
    let rest = find_matching_patch sha1 strs in
    if is_digest sha1 (parse_sha1 str)
    then some 0
    else elim rest [ none ↦ none | some i ↦ some (suc i) ]

-- the digits of a byte, as sha1sum prints them
abbrev hex_char : ℕ → ℕ
hex_char d = if ltb d 10 then b'0' + d else b'a' + (d - 10)

unfoldable pub print_sha1 : Bytes → Bytes
print_sha1 [] = []
print_sha1 (b ∷ bs) = hex_char (b / 16) ∷ hex_char (b % 16) ∷ print_sha1 bs

hex_digit-hex_char : (d : ℕ) → d < 16 → hex_digit (hex_char d) ≡ some d
unfolding hex_digit
hex_digit-hex_char d h = ground arith

bytes_joined : check_below 256 (λ x. bit_or (x / 16 * 16 % 256) (x % 16) == x) ≡ true
unfolding check_below
bytes_joined = refl

join_digits : (b : ℕ) → b < 256 → bit_or (b / 16 * 16 % 256) (b % 16) ≡ b
join_digits b h = (==_iff _ b).0 (check_below_at 256 _ b bytes_joined h)

parse_bytes-print_sha1 :
    (bs rest : Bytes)
    → AllBytes bs
    → parse_bytes (length bs) (print_sha1 bs ++ rest) ≡ some (bs, rest)
unfolding parse_bytes print_sha1
parse_bytes-print_sha1 [] rest h = refl
parse_bytes-print_sha1 (b ∷ bs) rest h = rw (
  hex_digit-hex_char (b / 16) (omega (arith, h.0)),
  hex_digit-hex_char (b % 16) (omega arith),
  parse_bytes-print_sha1 bs rest h.1,
  join_digits b h.0,
)

-- A digest of 20 bytes, printed as 40 hex digits, is parsed back.
pub parse_sha1-print_sha1 :
    (digest : Bytes)
    → length digest ≡ sha_digest_size
    → AllBytes digest
    → parse_sha1 (print_sha1 digest) ≡ some digest
unfolding parse_sha1
parse_sha1-print_sha1 digest size all =
    ap at_end (rw (size, append-nil) at (parse_bytes-print_sha1 digest [] all))

-- A digest that anything follows, a colon or another text, is refused.
pub parse_sha1-suffix :
    (digest rest : Bytes)
    → length digest ≡ sha_digest_size
    → AllBytes digest
    → rest ≢ []
    → parse_sha1 (print_sha1 digest ++ rest) ≡ none
unfolding parse_sha1
parse_sha1-suffix digest [] size all h = absurd (h refl)
parse_sha1-suffix digest (c ∷ rest) size all h =
    rw (← size, parse_bytes-print_sha1 digest (c ∷ rest) all)

-- index `i` is the first whose text is the hash
pub record IsFirstMatch (sha1 : Bytes) (strs : List Bytes) (i : ℕ) : Type 0 where
  pub text : Bytes
  pub at : get_elem? strs i ≡ some text
  pub matches : parse_sha1 text ≡ some sha1
  pub before :
      (j : ℕ) (other : Bytes) → j < i → get_elem? strs j ≡ some other → parse_sha1 other ≢ some sha1

abbrev pub FoundFirst : Bytes → List Bytes → Option ℕ → Type 0
FoundFirst sha1 strs (some i) = IsFirstMatch sha1 strs i
FoundFirst sha1 strs none =
    (j : ℕ) (other : Bytes) → get_elem? strs j ≡ some other → parse_sha1 other ≢ some sha1

is_digest_iff : (sha1 : Bytes) (o : Option Bytes) → (is_digest sha1 o ≡ true) ↔ (o ≡ some sha1)
is_digest_iff sha1 none = (λ e. cc, λ e. cc)
is_digest_iff sha1 (some d) =
    (λ e. ap some ((bytes_eq_iff d sha1).0 e), λ e. (bytes_eq_iff d sha1).1 (cc))

-- an index into a list is the head or an index into the tail
at_cons :
    (str : Bytes) (strs : List Bytes) (j : ℕ) {other : Bytes}
    → get_elem? (str ∷ strs) j ≡ some other
    → (str ≡ other) ⊎ ((k : ℕ) × (j ≡ suc k) × (get_elem? strs k ≡ some other))
at_cons str strs zero h = inl (cc)
at_cons str strs (suc k) h = inr (k, refl, h)

-- FindMatchingPatch returns the first index whose text is the hash in hex digits, and -1 only where
-- there is none; texts that are no hash are passed over.
pub find_matching_patch-FoundFirst :
    (sha1 : Bytes) (strs : List Bytes) → FoundFirst sha1 strs (find_matching_patch sha1 strs)
unfolding find_matching_patch
find_matching_patch-FoundFirst sha1 [] = λ j other at. absurd (ground arith)
find_matching_patch-FoundFirst sha1 (str ∷ strs) =
    from_head (is_digest sha1 (parse_sha1 str)) refl (find_matching_patch sha1 strs)
      (find_matching_patch-FoundFirst sha1 strs)
  where
    here_or_on : Bool → Option ℕ → Option ℕ
    here_or_on b rest = if b then some 0 else elim rest [ none ↦ none | some i ↦ some (suc i) ]

    not_here : is_digest sha1 (parse_sha1 str) ≡ false → parse_sha1 str ≢ some sha1
    not_here no_match e = cc (no_match, (is_digest_iff sha1 (parse_sha1 str)).1 e)

    from_head :
        (b : Bool)
        → is_digest sha1 (parse_sha1 str) ≡ b
        → (rest : Option ℕ) → FoundFirst sha1 strs rest
        → FoundFirst sha1 (str ∷ strs) (here_or_on b rest)
    from_head true e rest f = record {
      text = str;
      at = refl;
      matches = (is_digest_iff sha1 (parse_sha1 str)).0 e;
      before = λ j other h at. absurd (omega arith);
    }
    from_head false e none f = λ j other at. elim (at_cons str strs j at) [
      | inl same ↦ rw (← same) (not_here e)
      | inr (k, p, q) ↦ f k other q
    ]
    from_head false e (some i) f = record {
      text = f.text;
      at = f.at;
      matches = f.matches;
      before = λ j other h at. elim (at_cons str strs j at) [
        | inl same ↦ rw (← same) (not_here e)
        | inr (k, p, q) ↦ f.before k other (omega arith) q
      ];
    }
