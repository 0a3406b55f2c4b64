-- ===== src/BinaryStore.antt =====
-- cafe-binary-store: storage.rs, the files that clients upload in pieces, and jwt.rs, the tokens that let
-- them do so.
pub mod Storage
pub mod Tokens
