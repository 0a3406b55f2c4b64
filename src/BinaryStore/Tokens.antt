-- ===== src/BinaryStore/Tokens.antt =====
-- cafe-binary-store/src/jwt.rs: the tokens for reading and for writing a chunk. `encode` and `decode` of
-- the crate `jsonwebtoken` are parameters.
use observable_cafev.Base.{
  ℕ, ◌+◌, ◌≤◌, ◌<◌, String, ◌≡◌, ◌∙◌, refl, Option, none, some, List, arith, leb, if◌then◌else◌,
}

pub record Claims : Type 0 where
  pub chunk_id : String
  pub purpose : String
  pub iat : ℕ
  pub exp : Option ℕ

-- `jsonwebtoken`, with the default header and without validation of its own: a token that was signed with
-- a key is read back with that key.
pub record Jwt : Type 0 where
  pub encode : Claims → List ℕ → String
  pub decode : String → List ℕ → Option Claims
  pub decode-encode : (c : Claims) (key : List ℕ) → decode (encode c key) key ≡ some c

pub data Verified : Type 0 where
  claims : Claims → Verified
  invalid expired : Verified

module _ (J : Jwt) where
  unfoldable pub sign_write : (now : ℕ) → String → (ttl_secs : ℕ) → List ℕ → String
  sign_write now chunk_id ttl_secs key =
      J.encode
        (record { chunk_id = chunk_id; purpose = "write"; iat = now; exp = some (now + ttl_secs) })
        key

  unfoldable pub sign_read : (now : ℕ) → String → List ℕ → String
  sign_read now chunk_id key =
      J.encode (record { chunk_id = chunk_id; purpose = "read"; iat = now; exp = none }) key

  -- the check of the expiry
  unfoldable pub check_exp : ℕ → Claims → Verified
  check_exp now c = elim c.exp [
    | none ↦ claims c
    | some exp ↦ if leb exp now then expired else claims c
  ]

  unfoldable pub verify : (now : ℕ) → String → List ℕ → Verified
  unfolding check_exp
  verify now token key = elim (J.decode token key) [ none ↦ invalid | some c ↦ check_exp now c ]

  verify-encode :
      (now : ℕ) (c : Claims) (key : List ℕ) → verify now (J.encode c key) key ≡ check_exp now c
  unfolding verify
  verify-encode now c key = rw (J.decode-encode c key, verify) refl

  -- A token for reading a chunk is good for that chunk and for reading, at any time. A token for writing
  -- is good for that chunk and for writing up to its lifetime, and has expired from then on.
  pub verify-sign :
      (signed now ttl_secs : ℕ) (chunk_id : String) (key : List ℕ)
      → (verify now (sign_read signed chunk_id key) key
          ≡ claims (record { chunk_id = chunk_id; purpose = "read"; iat = signed; exp = none }))
        × (now < signed + ttl_secs
            → verify now (sign_write signed chunk_id ttl_secs key) key
              ≡ claims (record {
                chunk_id = chunk_id;
                purpose = "write";
                iat = signed;
                exp = some (signed + ttl_secs);
              }))
        × (signed + ttl_secs ≤ now
            → verify now (sign_write signed chunk_id ttl_secs key) key ≡ expired)
  unfolding sign_read sign_write check_exp
  verify-sign signed now ttl_secs chunk_id key = (
    verify-encode now _ key,
    λ early. verify-encode now _ key ∙ ground arith,
    λ late. verify-encode now _ key ∙ ground arith,
  )
