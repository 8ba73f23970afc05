-- ===== src/Minzip/Contents/Written.antt =====
-- writeProcessFunction and mzExtractZipEntryToFile (minzip/Zip.c) on a stored entry.
use mathlib.Core.List.{append_assoc, append-nil}
use native.Mathlib.Decide.{ℕ_discrete}
use open_recovery.Base.{
  ℕ, zero, suc, ◌≤◌, ◌<◌, ◌≡◌, ◌≢◌, refl, sym, ap, ◌∙◌, true, false, [], ◌++◌, Bytes, length-take,
  length-drop, take-length, length, take, drop, ◌==◌, ==_iff, arith, ltb-eq-false,
}
use open_recovery.Minzip.Zip.{ZipEntry}
use open_recovery.Minzip.Contents.{finished, Descriptor, Zlib, buf_size}
use open_recovery.Minzip.Contents.Taken.{wrote, Sink, write_process, mz_extract_zip_entry_to_file}
use open_recovery.Minzip.Contents.Stored.{
  forget, Holds, StoredIn, mz_process_zip_entry_contents-feed, take-append-drop,
}
use open_recovery.Minzip.Contents.Feed.{feed-all}

-- A file to which each call of write appends some of the bytes, at least one and not always all.
pub record Appends (sink : Sink) : Type 0 where
  pub contents : sink.File → Bytes
  pub writes :
      (bytes : Bytes) (f : sink.File)
      → 0 < length bytes
      → (n : ℕ) × ((sink.write bytes f).0 ≡ wrote n)
        × (0 < n)
        × (n ≤ length bytes)
        × (contents (sink.write bytes f).1 ≡ contents f ++ take n bytes)

ne→==-false : (a b : ℕ) → a ≢ b → (a == b) ≡ false
ne→==-false a b h = ground arith

module _ (sink : Sink) (a : Appends sink) where
  write_process-all :
      (calls : ℕ) (bytes : Bytes) (f : sink.File)
      → 0 < length bytes
      → length bytes ≤ calls
      → (f' : sink.File) × (write_process sink calls bytes f ≡ finished (true, f'))
        × (a.contents f' ≡ a.contents f ++ bytes)
  unfolding write_process
  write_process-all zero bytes f pos l = absurd (omega (arith, pos, l))
  write_process-all (suc calls) bytes f pos l =
      let (n, run, some_bytes, most, after) = a.writes bytes f pos in
      let f₁ = (sink.write bytes f).1 in
      elim (ℕ_discrete n (length bytes)) [
        | yes whole ↦ (
          f₁,
          rw (write_process, run, (==_iff n (length bytes)).1 whole) refl,
          after
              ∙ ap (λ k. a.contents f ++ take k bytes) whole
              ∙ ap (λ xs. a.contents f ++ xs) (take-length bytes),
        )
        | no part ↦
            let left = length-drop n bytes in
            let (f₂, run₂, after₂) =
              write_process-all calls (drop n bytes) f₁ (omega (arith, left, most, part))
                (omega (arith, left, some_bytes, l)) in
            (
              f₂,
              rw
                  (
                    write_process,
                    run,
                    ne→==-false n (length bytes) part,
                    ltb-eq-false (length bytes) n most,
                  )
                  run₂,
              after₂
                  ∙ ap (λ xs. xs ++ drop n bytes) after
                  ∙ append_assoc (a.contents f) (take n bytes) (drop n bytes)
                  ∙ ap (λ xs. a.contents f ++ xs) (take-append-drop n bytes),
            )
      ]

-- For a stored entry whose bytes are in the file that the descriptor reads, from an offset below 2
-- ^ 31, and a file to which each call of write appends some bytes or all: with as many rounds as
-- bytes and as many calls for a piece as the buffer is long, mzExtractZipEntryToFile returns true
-- and has appended exactly the bytes of the entry.
pub mz_extract_zip_entry_to_file-stored :
    (d : Descriptor) (zlib : Zlib) (file : Bytes)
    → Holds d file
    → (sink : Sink) (a : Appends sink) (rounds calls : ℕ) (e : ZipEntry) (w : d.World)
      (f : sink.File)
    → StoredIn file e
    → e.comp_len ≤ rounds
    → buf_size ≤ calls
    → (f' : sink.File) × (forget (mz_extract_zip_entry_to_file d zlib rounds e w sink calls f)
        ≡ finished (true, f'))
      × (a.contents f' ≡ a.contents f ++ take e.comp_len (drop e.offset file))
unfolding mz_extract_zip_entry_to_file
mz_extract_zip_entry_to_file-stored d zlib file holds sink a rounds calls e w f stored enough
      large =
    let content = take e.comp_len (drop e.offset file) in
    let size =
      length-take e.comp_len (drop e.offset file)
        (omega (arith, stored.inside, length-drop e.offset file)) in
    let (f', run, after) =
      feed-all (write_process sink calls) (λ seen g. a.contents g ≡ a.contents f ++ seen) e.comp_len
        (λ seen piece g pos small room p.
          let (g', step, more) =
            write_process-all sink a calls piece g pos (omega (arith, small, large)) in
          (g', step, more ∙ ap (λ xs. xs ++ piece) p ∙ append_assoc (a.contents f) seen piece))
        rounds content [] f (omega (arith, size, enough)) (omega (arith, size))
        (sym (append-nil (a.contents f))) in
    (
      f',
      mz_process_zip_entry_contents-feed d zlib (write_process sink calls) file holds rounds e w f
            stored
          ∙ run,
      after,
    )
