-- ===== src/Codec.antt =====
-- cafe-types/src/codec.rs: the two wire formats, and the reader `Frames` of cafe-bus/src/client.rs.
--
-- Bytes are numbers below 256. `serde_json` and `bincode` are parameters. A read yields some bytes;
-- no bytes, or no read, is the end of the stream.
pub mod Line
pub mod Prefix
pub mod Stream
use observable_cafev.Base.{
  ℕ, suc, zero, ◌+◌, ◌*◌, ◌%◌, ◌/◌, ◌^◌, ◌<◌, ◌≡◌, Bool, true, false, Option, none, some, List, [],
  ◌∷◌, ◌++◌, ltb, eqb, length, All, drop, if◌then◌else◌,
}

-- The result of `decode`: `Ok(None)`, `Ok(Some((msg, consumed)))` or `Err(_)`.
pub data Decoded (M : Type 0) : Type 0 where
  incomplete : Decoded M
  frame : M → ℕ → Decoded M
  malformed : Decoded M

-- `BusCodec`
pub record BusCodec (M : Type 0) : Type 0 where
  pub encode : M → List ℕ
  pub decode : List ℕ → Decoded M

-- `serde_json`, by what is documented: it reads back what it writes, and its compact output is not
-- empty and has no raw newline.
pub record Json (M : Type 0) : Type 0 where
  pub to_json : M → List ℕ
  pub from_json : List ℕ → Option M
  pub from_json-to_json : (m : M) → from_json (to_json m) ≡ some m
  pub one_line : (m : M) → All (λ b. eqb b 10 ≡ false) (to_json m)
  pub some_text : (m : M) → ¬ (to_json m ≡ [])

-- `bincode::encode_to_vec` and `bincode::decode_from_slice` at byte vectors.
pub record Bincode : Type 0 where
  pub pack : List ℕ → List ℕ
  pub unpack : List ℕ → Option (List ℕ)
  pub unpack-pack : (bs : List ℕ) → unpack (pack bs) ≡ some bs

abbrev pub take : ℕ → List ℕ → List ℕ
take zero bs = []
take (suc n) [] = []
take (suc n) (b ∷ bs) = b ∷ take n bs

abbrev pub succ_of : Option ℕ → Option ℕ
succ_of none = none
succ_of (some n) = some (suc n)

-- `buf.iter().position(|&b| b == b'\n')`
unfoldable pub newline_at : List ℕ → Option ℕ
newline_at [] = none
newline_at (b ∷ bs) = if eqb b 10 then some 0 else succ_of (newline_at bs)

module _ {M : Type 0} (J : Json M) where
  abbrev pub parsed : Option M → ℕ → Decoded M
  parsed none n = malformed
  parsed (some m) n = frame m n

  abbrev parse_line : List ℕ → ℕ → Decoded M
  parse_line [] n = malformed
  parse_line (b ∷ line) n = parsed (J.from_json (b ∷ line)) n

  unfoldable pub decode_line : List ℕ → Decoded M
  unfolding newline_at
  decode_line buf = elim (newline_at buf) [
    | none ↦ incomplete
    | some at ↦ parse_line (take at buf) (at + 1)
  ]

  unfoldable pub encode_line : M → List ℕ
  encode_line m = J.to_json m ++ 10 ∷ []

  abbrev pub json_line : BusCodec M
  json_line = record { encode = encode_line; decode = decode_line }

-- `(n as u32).to_le_bytes()`
unfoldable pub to_le_bytes : ℕ → List ℕ
to_le_bytes n = n % 256 ∷ n / 256 % 256 ∷ n / (256 * 256) % 256 ∷ n / (256 * 256 * 256) % 256 ∷ []

-- `u32::from_le_bytes([a, b, c, d])`
unfoldable pub from_le_bytes : ℕ → ℕ → ℕ → ℕ → ℕ
from_le_bytes a b c d = a + b * 256 + c * (256 * 256) + d * (256 * 256 * 256)

module _ {M : Type 0} (J : Json M) (B : Bincode) where
  unfoldable pub encode_prefixed : M → List ℕ
  unfolding to_le_bytes
  encode_prefixed m = let payload = B.pack (J.to_json m) in to_le_bytes (length payload) ++ payload

  abbrev unpacked : Option (List ℕ) → ℕ → Decoded M
  unpacked none total = malformed
  unpacked (some bytes) total = parsed J (J.from_json bytes) total

  unfoldable pub decode_prefixed : List ℕ → Decoded M
  unfolding from_le_bytes
  decode_prefixed (a ∷ b ∷ c ∷ d ∷ rest) =
      let len = from_le_bytes a b c d in
      if ltb (length rest) len then incomplete else unpacked (B.unpack (take len rest)) (4 + len)
  decode_prefixed _ = incomplete

  abbrev pub length_prefixed : BusCodec M
  length_prefixed = record { encode = encode_prefixed; decode = decode_prefixed }

-- What `next_msg` returns: a message with the buffer and the reads that are left, the end of the
-- stream, or an error.
pub data Next (M : Type 0) : Type 0 where
  message : M → List ℕ → List (List ℕ) → Next M
  ended : Next M
  broken : Next M

module _ {M : Type 0} (C : BusCodec M) where
  abbrev pub at_end : Decoded M → List ℕ → Next M
  at_end incomplete buf = ended
  at_end (frame m n) buf = message m (drop n buf) []
  at_end malformed buf = broken

  unfoldable pub next_msg : List ℕ → List (List ℕ) → Next M
  next_msg buf [] = elim (C.decode buf) [
    | malformed ↦ broken
    | frame m n ↦ message m (drop n buf) []
    | incomplete ↦ at_end (C.decode buf) buf
  ]
  next_msg buf (r ∷ reads) =
      let later = next_msg (buf ++ r) reads in
      elim (C.decode buf) [
        | malformed ↦ broken
        | frame m n ↦ message m (drop n buf) (r ∷ reads)
        | incomplete ↦ elim r [ [] ↦ at_end (C.decode buf) buf | b ∷ bs ↦ later ]
      ]

  -- The loop over a stream, until its end or an error: the messages, and whether it ended well. The
  -- fuel is the number of calls of `next_msg`.
  unfoldable pub messages : ℕ → List ℕ → List (List ℕ) → List M × Bool
  unfolding next_msg
  messages zero buf reads = ([], false)
  messages (suc fuel) buf reads = elim (next_msg buf reads) [
    | message m rest more ↦ let (ms, well) = messages fuel rest more in (m ∷ ms, well)
    | ended ↦ ([], true)
    | broken ↦ ([], false)
  ]
