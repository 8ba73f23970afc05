-- ===== src/Bootloader.antt =====
-- The messages between the bootloader and recovery (bootloader.c). The volume of /misc, stat, fopen,
-- fread, fwrite and fclose are parameters.
mod Tests
use open_recovery.Base.{
  ℕ, zero, suc, ◌+◌, ◌≤◌, ◌<◌, ◌≡◌, ◌⊎◌, refl, sym, ◌∙◌, ap, Bool, true, false, List, [], ◌∷◌, ◌++◌,
  Option, none, some, Bytes, bytes_eq, codes, length, length-append, take, drop, if◌then◌else◌,
  Bool-cases, inl, inr, arith,
}

-- struct bootloader_message: a buffer is its bytes.
pub record Message : Type 0 where
  pub command : Bytes
  pub status : Bytes
  pub recovery : Bytes

abbrev pub IsMessage : Message → Type 0
IsMessage m = (length m.command ≡ 32) × (length m.status ≡ 32) × (length m.recovery ≡ 1024)

-- the bytes of the structure: arrays of characters, without padding
abbrev pub to_bytes : Message → Bytes
to_bytes m = m.command ++ (m.status ++ m.recovery)

unfoldable pub of_bytes : Bytes → Message
of_bytes b = record {
  command = take 32 b;
  status = take 32 (drop 32 b);
  recovery = drop 32 (drop 32 b);
}

-- Volume, with the fields that are used
pub record Volume : Type 0 where
  pub fs_type : Bytes
  pub device : Bytes

-- A device in a state of the world: the opening for reading and for writing, fread of a number of bytes, fwrite, and fclose in either mode. Where fwrite has taken all
-- bytes and fclose has closed the file, fread finds these bytes, whatever was there before.
pub record Device : Type 1 where
  pub World : Type 0
  pub open_read : World → Bytes → Bool
  pub open_write : World → Bytes → Bool
  pub fread : World → Bytes → ℕ → Option Bytes
  pub fwrite : World → Bytes → Bytes → Bool × World
  pub close_read : World → Bytes → Bool
  pub close_write : World → Bytes → Bool
  pub written :
      (w w' : World) (device bytes : Bytes)
      → fwrite w device bytes ≡ (true, w')
      → close_write w' device ≡ true
      → fread w' device (length bytes) ≡ some bytes

-- `there` says at which try stat finds the device.
-- The rounds that are left of wait_for_device, at try `tries`: the number of tries.
unfoldable pub wait : (ℕ → Bool) → ℕ → ℕ → ℕ
wait there zero tries = tries
wait there (suc left) tries =
    let rest = wait there left (suc tries) in if there (suc tries) then suc tries else rest

-- wait_for_device
unfoldable pub wait_for_device : (ℕ → Bool) → ℕ
unfolding wait
wait_for_device there = wait there 10 0

false-true : false ≡ true → ⊥
false-true e = ground arith

take_front : (n : ℕ) (xs ys : Bytes) → length xs ≡ n → take n (xs ++ ys) ≡ xs
take_front zero [] ys h = refl
take_front zero (x ∷ xs) ys h = absurd (omega arith)
take_front (suc n) [] ys h = absurd (omega arith)
take_front (suc n) (x ∷ xs) ys h = ap (λ t. x ∷ t) (take_front n xs ys (omega arith))

drop_front : (n : ℕ) (xs ys : Bytes) → length xs ≡ n → drop n (xs ++ ys) ≡ ys
drop_front zero [] ys h = refl
drop_front zero (x ∷ xs) ys h = absurd (omega arith)
drop_front (suc n) [] ys h = absurd (omega arith)
drop_front (suc n) (x ∷ xs) ys h = drop_front n xs ys (omega arith)

of_bytes-to_bytes : (m : Message) → IsMessage m → of_bytes (to_bytes m) ≡ m
unfolding of_bytes
of_bytes-to_bytes m h =
    let rest = drop_front 32 m.command (m.status ++ m.recovery) h.0 in
    λ i. record {
      command = take_front 32 m.command (m.status ++ m.recovery) h.0 i;
      status = (ap (take 32) rest ∙ take_front 32 m.status m.recovery h.1) i;
      recovery = (ap (drop 32) rest ∙ drop_front 32 m.status m.recovery h.1) i;
    }

length-to_bytes : (m : Message) → IsMessage m → length (to_bytes m) ≡ 1088
length-to_bytes m h = omega (
  arith,
  length-append m.command (m.status ++ m.recovery),
  length-append m.status m.recovery,
  h.0,
  h.1,
  h.2,
)

module _ (d : Device) where
  open d use {World, open_read, open_write, fread, fwrite, close_read, close_write, written}

  -- get_bootloader_message_block after the wait for the device, whose outcome it does not use: -1 is
  -- `none`.
  unfoldable pub get_bootloader_message_block : World → Volume → Option Message
  unfolding of_bytes
  get_bootloader_message_block w v =
      if open_read w v.device
      then (elim (fread w v.device 1088) [
        | none ↦ none
        | some temp ↦ if close_read w v.device then some (of_bytes temp) else none
      ])
      else none

  -- set_bootloader_message_block after the same wait: whether it returns 0
  unfoldable pub set_bootloader_message_block : World → Message → Volume → Bool × World
  set_bootloader_message_block w message v =
      if open_write w v.device
      then (let (count, w') = fwrite w v.device (to_bytes message) in
          (if count then close_write w' v.device else false, w'))
      else (false, w)

  -- get_bootloader_message, with the volume of /misc
  unfoldable pub get_bootloader_message : World → Option Volume → Option Message
  unfolding get_bootloader_message_block
  get_bootloader_message w none = none
  get_bootloader_message w (some v) =
      if bytes_eq v.fs_type (codes "emmc") then get_bootloader_message_block w v else none

  -- set_bootloader_message, with the volume of /misc
  unfoldable pub set_bootloader_message : World → Message → Option Volume → Bool × World
  unfolding set_bootloader_message_block
  set_bootloader_message w message none = (false, w)
  set_bootloader_message w message (some v) =
      if bytes_eq v.fs_type (codes "emmc")
      then set_bootloader_message_block w message v
      else (false, w)

  block_written :
      (w w' : World) (message : Message) (v : Volume)
      → set_bootloader_message_block w message v ≡ (true, w')
      → (fwrite w v.device (to_bytes message) ≡ (true, w')) × (close_write w' v.device ≡ true)
  unfolding set_bootloader_message_block
  block_written w w' message v e = by_open (open_write w v.device) e
    where
      r : Bool × World
      r = fwrite w v.device (to_bytes message)

      by_count :
          (b : Bool) (u : World)
          → ◌≡◌ {A = Bool × World} (if b then close_write u v.device else false, u) (true, w')
          → ◌≡◌ {A = Bool × World} (b, u) (true, w') × (close_write w' v.device ≡ true)
      by_count true u k =
          let same : u ≡ w' = ap (λ (p : Bool × World). p.1) k in
          let closed : close_write u v.device ≡ true = ap (λ (p : Bool × World). p.0) k in
          (λ i. (true, same i), ap (λ x. close_write x v.device) (sym same) ∙ closed)
      by_count false u k = absurd (false-true (ap (λ (p : Bool × World). p.0) k))

      by_open :
          (b : Bool)
          → ◌≡◌ {A = Bool × World}
              (if b then (if r.0 then close_write r.1 v.device else false, r.1) else (false, w))
              (true, w')
          → (r ≡ (true, w')) × (close_write w' v.device ≡ true)
      by_open true k = by_count r.0 r.1 k
      by_open false k = absurd (false-true (ap (λ (p : Bool × World). p.0) k))

  -- A message that was set is the message that is got, where the device opens and closes for reading.
  pub get_bootloader_message-set :
      (w w' : World) (message : Message) (v : Volume)
      → IsMessage message
      → set_bootloader_message w message (some v) ≡ (true, w')
      → open_read w' v.device ≡ true
      → close_read w' v.device ≡ true
      → get_bootloader_message w' (some v) ≡ some message
  unfolding get_bootloader_message set_bootloader_message get_bootloader_message_block
  get_bootloader_message-set w w' message v h e opens closes =
      by_type (bytes_eq v.fs_type (codes "emmc")) e
    where
      by_type :
          (b : Bool)
          → ◌≡◌ {A = Bool × World}
              (if b then set_bootloader_message_block w message v else (false, w))
              (true, w')
          → (if b then get_bootloader_message_block w' v else none) ≡ some message
      by_type true k =
          let (wrote, closed) = block_written w w' message v k in
          let found = written w w' v.device (to_bytes message) wrote closed in
          simp (
            opens,
            ap (λ n. fread w' v.device n) (sym (length-to_bytes message h)) ∙ found,
            closes,
            of_bytes-to_bytes message h,
          )
      by_type false k = absurd (false-true (ap (λ (p : Bool × World). p.0) k))

abbrev Tries : (ℕ → Bool) → ℕ → ℕ → ℕ → Type 0
Tries there left tries r =
    (tries ≤ r)
    × (r ≤ tries + left)
    × ((n : ℕ) → tries < n → n < r → there n ≡ false)
    × ((there r ≡ true) ⊎ (r ≡ tries + left))

wait-Tries : (there : ℕ → Bool) (left tries : ℕ) → Tries there left tries (wait there left tries)
unfolding wait
wait-Tries there zero tries =
    (omega arith, omega arith, λ n h k. absurd (omega arith), inr (omega arith))
wait-Tries there (suc left) tries =
    by_try (there (suc tries)) refl (wait there left (suc tries))
      (wait-Tries there left (suc tries))
  where
    first : (n : ℕ) → tries < n → (suc tries ≡ n) ⊎ (suc tries < n)
    first n h = ground arith

    by_try :
        (b : Bool)
        → there (suc tries) ≡ b
        → (r : ℕ) → Tries there left (suc tries) r
        → Tries there (suc left) tries (if b then suc tries else r)
    by_try true t r w = (omega arith, omega arith, λ n h k. absurd (omega arith), inl t)
    by_try false t r (low, high, none_before, last) = (
      omega arith,
      omega arith,
      λ n h k. elim (first n h) [
        | inl e ↦ ap there (sym e) ∙ t
        | inr later ↦ none_before n later k
      ],
      elim last [ inl found ↦ inl found | inr e ↦ inr (omega arith) ],
    )

-- The wait ends after at most ten tries: at the first that finds the device, or at the tenth.
pub wait_for_device-tries :
    (there : ℕ → Bool)
    → (wait_for_device there ≤ 10)
      × ((n : ℕ) → 0 < n → n < wait_for_device there → there n ≡ false)
      × ((there (wait_for_device there) ≡ true) ⊎ (wait_for_device there ≡ 10))
unfolding wait_for_device
wait_for_device-tries there =
    let (low, high, none_before, last) = wait-Tries there 10 0 in (high, none_before, last)
