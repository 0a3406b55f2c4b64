-- ===== src/Examples/Frames.antt =====
-- The wire formats at concrete inputs. The JSON library writes a Boolean as one letter.
use observable_cafev.Base.{
  zero, suc, ap, ℕ, ◌≡◌, refl, Bool, true, false, Option, none, some, List, [], ◌∷◌, length, All,
  eqb, if◌then◌else◌,
}
use observable_cafev.Codec.{Json, Bincode}

abbrev letter : Bool → List ℕ
letter true = 116 ∷ []
letter false = 102 ∷ []

abbrev of_letter : List ℕ → Option Bool
of_letter (b ∷ []) = if eqb b 116 then some true else if eqb b 102 then some false else none
of_letter _ = none

of_letter-letter : (b : Bool) → of_letter (letter b) ≡ some b
of_letter-letter true = refl
of_letter-letter false = refl

letter_line : (b : Bool) → All (λ x. eqb x 10 ≡ false) (letter b)
letter_line true = (refl, tt)
letter_line false = (refl, tt)

letter_text : (b : Bool) → ¬ (letter b ≡ [])
letter_text true h = absurd (cc h)
letter_text false h = absurd (cc h)

abbrev json : Json Bool
json = record {
  to_json = letter;
  from_json = of_letter;
  from_json-to_json = of_letter-letter;
  one_line = letter_line;
  some_text = letter_text;
}

abbrev bincode : Bincode
bincode = record { pack = λ bs. bs; unpack = λ bs. some bs; unpack-pack = λ bs. refl }

-- A library whose texts have no bound: a number is so many digits, and one more.
abbrev digits : ℕ → List ℕ
digits zero = 49 ∷ []
digits (suc n) = 49 ∷ digits n

abbrev count : List ℕ → Option ℕ
count [] = none
count (b ∷ bs) = some (length bs)

length-digits : (n : ℕ) → length (digits n) ≡ suc n
length-digits zero = refl
length-digits (suc n) = ap (λ k. suc k) (length-digits n)

count-digits : (n : ℕ) → count (digits n) ≡ some n
count-digits zero = refl
count-digits (suc n) = ap (λ k. some k) (length-digits n)

digits_line : (n : ℕ) → All (λ x. eqb x 10 ≡ false) (digits n)
digits_line zero = (refl, tt)
digits_line (suc n) = (refl, digits_line n)

digits_text : (n : ℕ) → ¬ (digits n ≡ [])
digits_text zero h = absurd (cc h)
digits_text (suc n) h = absurd (cc h)

abbrev unary : Json ℕ
unary = record {
  to_json = digits;
  from_json = count;
  from_json-to_json = count-digits;
  one_line = digits_line;
  some_text = digits_text;
}
