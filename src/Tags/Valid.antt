-- ===== src/Tags/Valid.antt =====
-- Which tags the validator lets through, independently of the order of its tests.
use Prim.Native.Char.{code}
use Prim.Native.String
use observable_cafev.Base.{
  ℕ, ◌≤◌, String, ◌≡◌, ◌≢◌, ◌↔◌, refl, Bool, false, none, some, List, [], ◌∷◌, arith, eq_iff, All,
}
use observable_cafev.Tags.{
  CafeError, is_whitespace, is_control, any_char, max_tag_len, validate_tag, validate_tags,
  error_code,
}

-- No character of the text passes the test.
abbrev pub NoChar : (ℕ → Bool) → String → Type 0
NoChar p String.[] = Unit
NoChar p (String.◌∷◌ c s) = (p (code c) ≡ false) × NoChar p s

pub record IsTag (tag : String) : Type 0 where
  pub some_char : tag ≢ ""
  pub no_whitespace : NoChar is_whitespace tag
  pub no_control : NoChar is_control tag
  pub short : String.count tag ≤ max_tag_len

any_char-NoChar : (p : ℕ → Bool) (s : String) → any_char p s ≡ false → NoChar p s
unfolding any_char
any_char-NoChar p String.[] h = tt
any_char-NoChar p (String.◌∷◌ c s) h = ground (arith, any_char-NoChar p s)

NoChar-any_char : (p : ℕ → Bool) (s : String) → NoChar p s → any_char p s ≡ false
unfolding any_char
NoChar-any_char p String.[] h = refl
NoChar-any_char p (String.◌∷◌ c s) h = ground (arith, NoChar-any_char p s h.1)

validate_tag-IsTag : (d : String → String) (t : String) → validate_tag d t ≡ none → IsTag t
validate_tag-IsTag d t h = record {
  some_char = unfold validate_tag in ground (arith, eq_iff t "");
  no_whitespace = any_char-NoChar is_whitespace t (unfold validate_tag in ground arith);
  no_control = any_char-NoChar is_control t (unfold validate_tag in ground arith);
  short = unfold validate_tag in ground arith;
}

IsTag-validate_tag : (d : String → String) (t : String) → IsTag t → validate_tag d t ≡ none
unfolding validate_tag
IsTag-validate_tag d t v = ground (
  arith,
  eq_iff t "",
  NoChar-any_char is_whitespace t v.no_whitespace,
  NoChar-any_char is_control t v.no_control,
)

validate_tags-cons :
    (d : String → String) (t : String) (tags : List String)
    → (validate_tags d (t ∷ tags) ≡ none)
      ↔ ((validate_tag d t ≡ none) × (validate_tags d tags ≡ none))
unfolding validate_tags
validate_tags-cons d t tags = ground arith

-- A list of tags passes exactly when every tag in it is a valid tag: non-empty, without whitespace
-- or control characters, and of at most 64 characters.
pub validate_tags_iff :
    (d : String → String) (tags : List String) → (validate_tags d tags ≡ none) ↔ All IsTag tags
validate_tags_iff d [] = (λ _. tt, λ _. unfold validate_tags in refl)
validate_tags_iff d (t ∷ tags) =
    let rest = validate_tags_iff d tags in
    let split = validate_tags-cons d t tags in
    (
      λ h. (validate_tag-IsTag d t (split.0 h).0, rest.0 (split.0 h).1),
      λ v. split.1 (IsTag-validate_tag d t v.0, rest.1 v.1),
    )

-- Whatever list of tags is refused, the error's code is that of invalid tags.
pub validate_tags_code :
    (d : String → String) (tags : List String) (e : CafeError)
    → validate_tags d tags ≡ some e
    → error_code e ≡ "INVALID_TAGS"
unfolding validate_tags validate_tag error_code
validate_tags_code d [] e h = cc
validate_tags_code d (t ∷ tags) e h = ground (arith, validate_tags_code d tags e)
