-- ===== src/BinaryStore/Storage/Upload.antt =====
-- A file that is uploaded in pieces is read back whole.
use Prim.Native.String.{len}
use text.Mathlib.TextPositions.{len-append}
use observable_cafev.Base.{
  ℕ, ◌+◌, ◌-◌, ◌%◌, ◌^◌, ◌≤◌, ◌<◌, String, ◌≡◌, refl, sym, ap, ◌∙◌, Bool, true, false, not, none,
  some, List, [], ◌∷◌, ◌++◌, ◌&&◌, ltb, leb, length, arith, ◌==◌, eq_iff, eq_refl, append-nil,
  append_assoc, length-append, Bool-cases, inl, inr,
}
use observable_cafev.Map.{get, insert, remove, contains_key, get-insert, get-remove}
use observable_cafev.Codec.{take}
use observable_cafev.BinaryStore.Storage.{
  Fs, ok, err, ◌>>=◌, chunk_path, marker, located, start_write, append, append_all, write_at,
  finalize, read, least, contents, conflict,
}

abbrev pub concat : List (List ℕ) → List ℕ
concat [] = []
concat (piece ∷ pieces) = piece ++ concat pieces

-- a marker is no chunk's own file
path-marker : (path : String) → (path == marker path) ≡ false
path-marker path = elim (Bool-cases (path == marker path)) [
  | inr other ↦ other
  | inl same ↦
      let e : len path ≡ len (marker path) = ap len ((eq_iff path (marker path)).0 same) in
      let l : len (marker path) ≡ len path + 8 = len-append path ".writing" in absurd (omega arith)
]

marker-path : (path : String) → (marker path == path) ≡ false
marker-path path = elim (Bool-cases (marker path == path)) [
  | inr other ↦ other
  | inl same ↦
      let e = (eq_iff (marker path) path).0 same in
      let both : true ≡ false = sym ((eq_iff path (marker path)).1 (sym e)) ∙ path-marker path in
      absurd (cc both)
]

and_true : (b : Bool) → (b && true) ≡ b
and_true true = refl
and_true false = refl

write_at-end : (old piece : List ℕ) → write_at (length old) piece old ≡ old ++ piece
unfolding write_at
write_at-end [] [] = refl
write_at-end (o ∷ old) [] = sym (append-nil (o ∷ old))
write_at-end [] (b ∷ piece) = append-nil (b ∷ piece)
write_at-end (o ∷ old) (b ∷ piece) = ap (λ xs. o ∷ xs) (write_at-end old (b ∷ piece))

take-length : (xs : List ℕ) → take (length xs) xs ≡ xs
take-length [] = refl
take-length (x ∷ xs) = ap (λ ys. x ∷ ys) (take-length xs)

module _ (id path : String) (at : chunk_path id ≡ some path) where
  located-ok : located id ≡ ok path
  unfolding located
  located-ok = rw (at, located) refl

  append-end :
      (max_bytes : ℕ) (fs : Fs) (old piece : List ℕ)
      → get fs path ≡ some old
      → length old + length piece ≤ max_bytes
      → max_bytes < 2 ^ 64
      → append id (length old) piece max_bytes fs ≡ ok (insert fs path (old ++ piece))
  unfolding append
  append-end max_bytes fs old piece there fits bound =
      let total = length old + length piece in
      let m : total % 2 ^ 64 ≡ total = omega arith in
      let t : ltb max_bytes total ≡ false = ground arith in
      rw (located-ok, ◌>>=◌, contents, there, m, t, write_at-end old piece) refl

  append_all-end :
      (max_bytes : ℕ) (pieces : List (List ℕ)) (fs : Fs) (old : List ℕ)
      → get fs path ≡ some old
      → length old + length (concat pieces) ≤ max_bytes
      → max_bytes < 2 ^ 64
      → (last : Fs) × (append_all id (length old) pieces max_bytes fs ≡ ok last)
        × (get last path ≡ some (old ++ concat pieces))
        × (get last (marker path) ≡ get fs (marker path))
  unfolding append_all
  append_all-end max_bytes [] fs old there fits bound =
      (fs, refl, there ∙ ap some (sym (append-nil old)), refl)
  append_all-end max_bytes (piece ∷ pieces) fs old there fits bound =
      let l = length-append piece (concat pieces) in
      let here = append-end max_bytes fs old piece there (omega (arith, l)) bound in
      let next = insert fs path (old ++ piece) in
      let grown : get next path ≡ some (old ++ piece) =
        get-insert fs path (old ++ piece) path ∙ rw (eq_refl path) refl in
      let kept : get next (marker path) ≡ get fs (marker path) =
        get-insert fs path (old ++ piece) (marker path) ∙ rw (path-marker path) refl in
      let n = length-append old piece in
      let (last, ran, held, marked) =
        append_all-end max_bytes pieces next (old ++ piece) grown (omega (arith, l, n)) bound in
      (
        last,
        rw (here) (ap (λ k. append_all id k pieces max_bytes next) (sym n) ∙ ran),
        held ∙ ap some (append_assoc old piece (concat pieces)),
        marked ∙ kept,
      )

  -- reading a whole file from its start
  read_whole :
      (fs : Fs) (file : List ℕ) (max_len : ℕ)
      → get fs path ≡ some file
      → length file ≤ max_len
      → read id 0 max_len fs
        ≡ ok (record {
          bytes = file;
          file_size = length file;
          done = not (contains_key fs (marker path));
        })
  unfolding read
  read_whole fs file max_len there enough =
      let start : least 0 (length file) ≡ 0 = ground arith in
      let size : length file - 0 ≡ length file = omega arith in
      let all : least max_len (length file) ≡ length file = ground arith in
      let end : leb (length file) (0 + length file) ≡ true = ground arith in
      rw (located-ok, ◌>>=◌, contents, there, start, size, all, end, take-length file, and_true)
        refl

  -- An upload in pieces that together stay within the limit, of a chunk that is not being written:
  -- every piece is taken at its offset, a second upload of the chunk is refused meanwhile, and a reader
  -- gets the pieces put together, told that they are not yet final; once the upload is finalized, a reader
  -- gets the same bytes, told that this is all.
  pub upload_roundtrip :
      (fs : Fs) (pieces : List (List ℕ)) (max_bytes max_len : ℕ)
      → get fs (marker path) ≡ none
      → length (concat pieces) ≤ max_bytes
      → max_bytes < 2 ^ 64
      → length (concat pieces) ≤ max_len
      → (last final : Fs) × ((start_write id fs >>= append_all id 0 pieces max_bytes) ≡ ok last)
        × (start_write id last ≡ err conflict)
        × (read id 0 max_len last
            ≡ ok (record {
              bytes = concat pieces;
              file_size = length (concat pieces);
              done = false;
            }))
        × (finalize id last ≡ ok final)
        × (read id 0 max_len final
            ≡ ok
                (record { bytes = concat pieces; file_size = length (concat pieces); done = true }))
  unfolding start_write finalize
  upload_roundtrip fs pieces max_bytes max_len free fits bound enough =
      let begun = insert (insert fs path []) (marker path) (49 ∷ []) in
      let empty : get begun path ≡ some [] =
        get-insert (insert fs path []) (marker path) (49 ∷ []) path
        ∙ rw (marker-path path) (get-insert fs path [] path ∙ rw (eq_refl path) refl) in
      let marked : get begun (marker path) ≡ some (49 ∷ []) =
        get-insert (insert fs path []) (marker path) (49 ∷ []) (marker path)
        ∙ rw (eq_refl (marker path)) refl in
      let (last, ran, held, kept) =
        append_all-end max_bytes pieces begun [] empty (omega arith) bound in
      let final = remove last (marker path) in
      let gone : get final (marker path) ≡ none =
        get-remove last (marker path) (marker path) ∙ rw (eq_refl (marker path)) refl in
      (
        last,
        final,
        rw (located-ok) (rw (free) ran),
        rw (located-ok) (rw (kept ∙ marked) refl),
        read_whole last (concat pieces) max_len held enough ∙ rw (kept ∙ marked) refl,
        rw (located-ok) refl,
        read_whole final (concat pieces) max_len
              (get-remove last (marker path) path ∙ rw (marker-path path) held) enough
            ∙ rw (gone) refl,
      )
