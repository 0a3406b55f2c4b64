-- ===== src/Codec/Prefix.antt =====
-- Reading the length-prefixed format.
use observable_cafev.Base.{◌^◌, ◌<◌, length}
use observable_cafev.Codec.{Json, Bincode}

module _ {M : Type 0} (J : Json M) (B : Bincode) where
  -- The payload's length fits the four bytes.
  abbrev pub IsShort : M → Type 0
  IsShort m = length (B.pack (J.to_json m)) < 2 ^ 32
