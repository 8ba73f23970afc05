-- ===== src/Applypatch/Sink.antt =====
-- FileSink and MemorySink (applypatch/applypatch.c).
use mathlib.Core.List.{append_assoc}
use open_recovery.Base.{
  ℕ, zero, suc, ◌+◌, ◌≡◌, refl, sym, ◌∙◌, ap, List, [], ◌∷◌, ◌++◌, Option, none, some, Bytes,
  length, take, drop, length-append, ltb, if◌then◌else◌, arith,
}

-- FileSink: the file takes as many bytes of each write as the list of answers says, and an answer of
-- 0 stands for a result of `write` that is 0 or negative. The number that was written is returned.
unfoldable pub file_sink : List ℕ → Bytes → ℕ → ℕ × Bytes
file_sink answers [] written = (written, [])
file_sink [] (b ∷ bytes) written = (written, [])
file_sink (zero ∷ answers) (b ∷ bytes) written = (written, [])
file_sink (suc wrote ∷ answers) (b ∷ bytes) written =
    let n = length (take (suc wrote) (b ∷ bytes)) in
    let (total, file) = file_sink answers (drop (suc wrote) (b ∷ bytes)) (written + n) in
    (total, take (suc wrote) (b ∷ bytes) ++ file)

-- MemorySink on a buffer of `size` bytes that holds those of `buffer`: the new contents, or -1.
unfoldable pub memory_sink : ℕ → Bytes → Bytes → Option Bytes
memory_sink size buffer bytes =
    if ltb size (length buffer + length bytes) then none else some (buffer ++ bytes)

take-drop : (n : ℕ) (bs : Bytes) → bs ≡ take n bs ++ drop n bs
take-drop zero bs = refl
take-drop (suc n) [] = refl
take-drop (suc n) (b ∷ bs) = ap (λ t. b ∷ t) (take-drop n bs)

-- Whatever the writes answer, the file gets a prefix of the bytes, and the number that is returned has
-- grown by the length of this prefix.
pub file_sink-prefix :
    (answers : List ℕ) (bytes : Bytes) (written : ℕ)
    → (rest : Bytes) × (bytes ≡ (file_sink answers bytes written).1 ++ rest)
      × ((file_sink answers bytes written).0 ≡ written + length (file_sink answers bytes written).1)
unfolding file_sink
file_sink-prefix answers [] written = ([], refl, omega arith)
file_sink-prefix [] (b ∷ bytes) written = (b ∷ bytes, refl, omega arith)
file_sink-prefix (zero ∷ answers) (b ∷ bytes) written = (b ∷ bytes, refl, omega arith)
file_sink-prefix (suc wrote ∷ answers) (b ∷ bytes) written =
    let n = length (take (suc wrote) (b ∷ bytes)) in
    let (rest, same, count) = file_sink-prefix answers (drop wrote bytes) (written + n) in
    let file = (file_sink answers (drop wrote bytes) (written + n)).1 in
    (
      rest,
      take-drop (suc wrote) (b ∷ bytes)
          ∙ ap (λ (t : Bytes). take (suc wrote) (b ∷ bytes) ++ t) same
          ∙ sym (append_assoc (take (suc wrote) (b ∷ bytes)) file rest),
      omega (arith, count, length-append (take (suc wrote) (b ∷ bytes)) file),
    )
