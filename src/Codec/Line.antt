-- ===== src/Codec/Line.antt =====
-- The newline-delimited format is a framing.
use observable_cafev.Base.{
  ℕ, ◌+◌, ◌≡◌, refl, ap, false, none, some, List, [], ◌∷◌, ◌++◌, arith, length, length-append, All,
  eqb, append_assoc,
}
use observable_cafev.Codec.{
  Json, incomplete, frame, newline_at, take, decode_line, encode_line, json_line,
}
use observable_cafev.Codec.Stream.{Framing, Filled, cons_inj}

newline_at-append :
    (line rest : List ℕ)
    → All (λ b. eqb b 10 ≡ false) line
    → newline_at (line ++ 10 ∷ rest) ≡ some (length line)
unfolding newline_at
newline_at-append [] rest h = refl
newline_at-append (b ∷ line) rest h = ground (arith, newline_at-append line rest h.1)

newline_at-part :
    (line buf tail : List ℕ)
    → All (λ b. eqb b 10 ≡ false) line
    → buf ++ tail ≡ line ++ 10 ∷ []
    → Filled tail
    → newline_at buf ≡ none
unfolding newline_at
newline_at-part line [] tail h e filled = refl
newline_at-part [] (x ∷ []) tail h e filled = absurd (filled (cons_inj e).1)
newline_at-part [] (x ∷ y ∷ buf) tail h e filled = absurd (cc (cons_inj e).1)
newline_at-part (b ∷ line) (x ∷ buf) tail h e filled =
    let (front, back) = cons_inj e in
    let later : newline_at buf ≡ none = newline_at-part line buf tail h.1 back filled in
    ground arith

take-append : (line rest : List ℕ) → take (length line) (line ++ rest) ≡ line
take-append [] rest = refl
take-append (b ∷ line) rest = ap (λ (l : List ℕ). b ∷ l) (take-append line rest)

module _ {M : Type 0} (J : Json M) where
  abbrev pub AnyMessage : M → Type 0
  AnyMessage m = Unit

  decode_line-append :
      (line rest : List ℕ) (m : M)
      → All (λ b. eqb b 10 ≡ false) line
      → ¬ (line ≡ [])
      → J.from_json line ≡ some m
      → decode_line J (line ++ 10 ∷ rest) ≡ frame m (length line + 1)
  unfolding decode_line
  decode_line-append [] rest m h filled read = absurd (filled refl)
  decode_line-append (b ∷ line) rest m h filled read =
      rw
        (newline_at-append (b ∷ line) rest h, decode_line, take-append (b ∷ line) (10 ∷ rest), read)

  decode_line-part : (buf : List ℕ) → newline_at buf ≡ none → decode_line J buf ≡ incomplete
  unfolding decode_line
  decode_line-part buf h = rw (h, decode_line)

  decode_line-encode_line :
      (m : M) (rest : List ℕ)
      → decode_line J (encode_line J m ++ rest) ≡ frame m (length (encode_line J m))
  unfolding encode_line
  decode_line-encode_line m rest =
      rw (append_assoc (J.to_json m) (10 ∷ []) rest, length-append (J.to_json m) (10 ∷ []))
        (decode_line-append (J.to_json m) rest m (J.one_line m) (J.some_text m)
          (J.from_json-to_json m))

  -- The newline-delimited format is a framing, for any JSON library that writes a value on one line.
  pub json_line-Framing : Framing (json_line J) AnyMessage
  unfolding encode_line
  json_line-Framing = record {
    whole = λ m rest good. decode_line-encode_line m rest;
    part = λ m buf tail good e filled.
        decode_line-part buf (newline_at-part (J.to_json m) buf tail (J.one_line m) e filled);
    nothing = decode_line-part [] (unfold newline_at in refl);
  }
