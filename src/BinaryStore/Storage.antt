-- ===== src/BinaryStore/Storage.antt =====
-- cafe-binary-store/src/storage.rs: a chunk's file, and the marker beside it while it is being written.
--
-- The file system is a map from paths below the data directory to contents; its own faults are left
-- out. An id is a file name.
pub mod Upload
use Prim.Native.String.{len}
use text.Mathlib.Text.{get?}
use observable_cafev.Base.{
  ℕ, zero, suc, ◌+◌, ◌-◌, ◌%◌, ◌^◌, String, Bool, true, false, not, Option, none, some, List, [],
  ◌∷◌, ◌++◌, ◌&&◌, ltb, leb, length, drop, if◌then◌else◌, push_str, is_some,
}
use observable_cafev.Map.{Map, get, insert, remove, contains_key}
use observable_cafev.Codec.{take}

abbrev pub Fs : Type 0
Fs = Map (List ℕ)

pub data StoreError : Type 0 where
  conflict not_found missing : StoreError
  invalid_offset : (size requested : ℕ) → StoreError
  too_large : (max would : ℕ) → StoreError

pub data Result (A : Type 0) : Type 0 where
  ok : A → Result A
  err : StoreError → Result A
  panicked : Result A

infixl 5 ◌>>=◌
abbrev pub ◌>>=◌ : {A B : Type 0} → Result A → (A → Result B) → Result B
ok a >>= k = k a
err e >>= k = err e
panicked >>= k = panicked

abbrev pub least : ℕ → ℕ → ℕ
least a b = if ltb a b then a else b

-- `binary/<shard>/<id>`; `none` where the slice of the id panics, inside a character
unfoldable pub chunk_path : String → Option String
chunk_path id = elim (get? id 0 (least 2 (len id))) [
  | none ↦ none
  | some shard ↦ some (push_str "binary/" (push_str shard (push_str "/" id)))
]

-- `writing_path`, of the chunk's path
abbrev pub marker : String → String
marker path = push_str path ".writing"

unfoldable pub located : String → Result String
unfolding chunk_path
located id = elim (chunk_path id) [ none ↦ panicked | some path ↦ ok path ]

unfoldable pub start_write : String → Fs → Result Fs
unfolding located
start_write id fs = do
  path ← located id
  (if contains_key fs (marker path)
      then err conflict
      else ok (insert (insert fs path []) (marker path) (49 ∷ [])))

-- `fs::metadata` and the reading of a file
abbrev pub contents : Fs → String → Result (List ℕ)
contents fs path = elim (get fs path) [ none ↦ err missing | some bytes ↦ ok bytes ]

unfoldable pub resume_write : String → ℕ → Fs → Result Unit
unfolding located
resume_write id offset fs = do
  path ← located id
  present ← (if not (contains_key fs (marker path)) then err not_found else ok tt)
  bytes ← contents fs path
  (if ltb (length bytes) offset then err (invalid_offset (length bytes) offset) else ok tt)

-- the content after a seek and a write: a gap is filled with zeros
unfoldable pub write_at : ℕ → List ℕ → List ℕ → List ℕ
write_at offset [] old = old
write_at zero (b ∷ bytes) old = (b ∷ bytes) ++ drop (length (b ∷ bytes)) old
write_at (suc n) (b ∷ bytes) [] = 0 ∷ write_at n (b ∷ bytes) []
write_at (suc n) (b ∷ bytes) (o ∷ old) = o ∷ write_at n (b ∷ bytes) old

-- The sum is of 64 bits, and wraps around in a release build.
unfoldable pub append : String → ℕ → List ℕ → ℕ → Fs → Result Fs
unfolding located write_at
append id offset bytes max_bytes fs = do
  path ← located id
  old ← contents fs path
  let new_len = (offset + length bytes) % 2 ^ 64
  (if ltb max_bytes new_len
      then err (too_large max_bytes new_len)
      else ok (insert fs path (write_at offset bytes old)))

unfoldable pub finalize : String → Fs → Result Fs
unfolding located
finalize id fs = do path ← located id; ok (remove fs (marker path))

-- what a read answers: bytes, the size of the file, and whether this is the end of a finished file
pub record Reading : Type 0 where
  pub bytes : List ℕ
  pub file_size : ℕ
  pub done : Bool

unfoldable pub read : String → ℕ → ℕ → Fs → Result Reading
unfolding located
read id offset max_len fs = do
  path ← located id
  file ← contents fs path
  let actual_offset = least offset (length file)
  let to_read = least max_len (length file - actual_offset)
  ok (record {
    bytes = take to_read (drop actual_offset file);
    file_size = length file;
    done = not (contains_key fs (marker path)) && leb (length file) (actual_offset + to_read);
  })

unfoldable pub delete : String → Fs → Result Fs
unfolding located
delete id fs = do path ← located id; ok (remove (remove fs path) (marker path))

-- a client's pieces, one after the other
unfoldable pub append_all : String → ℕ → List (List ℕ) → ℕ → Fs → Result Fs
unfolding append
append_all id offset [] max_bytes fs = ok fs
append_all id offset (piece ∷ pieces) max_bytes fs = do
  next ← append id offset piece max_bytes fs
  append_all id (offset + length piece) pieces max_bytes next
