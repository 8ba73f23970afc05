-- ===== src/Bootloader/Tests.antt =====
-- The theorems about bootloader messages on a device that keeps one block.
use open_recovery.Base.{
  ℕ, ◌≡◌, refl, ap, ◌∙◌, sym, Bool, true, [], some, Bytes, codes, bytes_eq, replicate, take,
  take-length, length, ◌==◌,
}
use open_recovery.Bootloader.{
  Message, Volume, Device, get_bootloader_message, set_bootloader_message,
  get_bootloader_message-set, to_bytes,
}

abbrev block : Device
block = record {
  World = Bytes;
  open_read = λ w device. true;
  open_write = λ w device. true;
  fread = λ w device n. some (take n w);
  fwrite = λ w device bytes. (true, bytes);
  close_read = λ w device. true;
  close_write = λ w device. true;
  written = λ w w' device bytes e c.
      ap (λ (r : Bool × Bytes). some (take (length bytes) r.1)) (sym e)
      ∙ ap some (take-length bytes);
}

abbrev message : Message
message = record {
  command = replicate 32 b'c';
  status = replicate 32 0;
  recovery = replicate 1024 b'r';
}

abbrev misc : Volume
misc = record { fs_type = codes "emmc"; device = codes "/dev/block/misc" }

get_bootloader_message-set_example :
    get_bootloader_message block (to_bytes message) (some misc) ≡ some message
unfolding set_bootloader_message bytes_eq
get_bootloader_message-set_example =
    get_bootloader_message-set block [] (to_bytes message) message misc (refl, refl, refl) refl refl
      refl

-- a device that appears at the third try
abbrev third : ℕ → Bool
third n = n == 3
