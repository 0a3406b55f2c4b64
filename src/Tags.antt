-- ===== src/Tags.antt =====
-- cafe-types/src/tags.rs and cafe-types/src/error.rs: the rule for a session tag, and its error.
pub mod Valid
use Prim.Native.Char.{code}
use Prim.Native.String
use observable_cafev.Base.{
  ℕ, String, Bool, true, false, Option, none, some, List, [], ◌∷◌, ◌||◌, ◌&&◌, ltb, leb, eqb, ◌==◌,
  if◌then◌else◌, push_str,
}

-- The variants of `CafeError` that carry a text; `serialization` and `io` wrap other libraries'
-- errors by their text.
pub data CafeError : Type 0 where
  serialization io session_not_found session_exists agent_not_found : String → CafeError
  invalid_message invalid_tags : String → CafeError
  payload_too_large : CafeError
  other : String → CafeError

unfoldable pub error_code : CafeError → String
error_code (session_not_found s) = "SESSION_NOT_FOUND"
error_code (session_exists s) = "SESSION_EXISTS"
error_code (agent_not_found s) = "AGENT_NOT_FOUND"
error_code (invalid_message s) = "INVALID_MESSAGE"
error_code (invalid_tags s) = "INVALID_TAGS"
error_code payload_too_large = "PAYLOAD_TOO_LARGE"
error_code _ = "INTERNAL_ERROR"

-- `Display`, which `thiserror` derives from the `#[error]` attributes.
unfoldable pub to_string : CafeError → String
to_string (serialization s) = push_str "serialization error: " s
to_string (io s) = push_str "I/O error: " s
to_string (session_not_found s) = push_str "session not found: " s
to_string (session_exists s) = push_str "session already exists: " s
to_string (agent_not_found s) = push_str "agent not found: " s
to_string (invalid_message s) = push_str "invalid message: " s
to_string (invalid_tags s) = push_str "invalid tags: " s
to_string payload_too_large = "payload too large"
to_string (other s) = s

-- `char::is_whitespace`: the White_Space property of Unicode.
unfoldable pub is_whitespace : ℕ → Bool
is_whitespace c =
    (leb 0x9 c && leb c 0xd)
    || eqb c 0x20
    || eqb c 0x85
    || eqb c 0xa0
    || eqb c 0x1680
    || (leb 0x2000 c && leb c 0x200a)
    || eqb c 0x2028
    || eqb c 0x2029
    || eqb c 0x202f
    || eqb c 0x205f
    || eqb c 0x3000

-- `char::is_control`: the general category Cc.
unfoldable pub is_control : ℕ → Bool
is_control c = leb c 0x1f || (leb 0x7f c && leb c 0x9f)

-- `tag.chars().any(p)`
unfoldable pub any_char : (ℕ → Bool) → String → Bool
any_char p String.[] = false
any_char p (String.◌∷◌ c s) = p (code c) || any_char p s

abbrev pub max_tag_len : ℕ
max_tag_len = 64

-- `none` is `Ok(())`.
unfoldable pub validate_tag : (String → String) → String → Option CafeError
unfolding is_whitespace is_control any_char
validate_tag debug tag =
    if tag == ""
    then some (invalid_tags "tag must not be empty")
    else if any_char is_whitespace tag
    then some (invalid_tags (push_str "tag must not contain whitespace: " (debug tag)))
    else if any_char is_control tag
    then some (invalid_tags (push_str "tag must not contain control characters: " (debug tag)))
    else if ltb max_tag_len (String.count tag)
    then some (invalid_tags (push_str "tag must be at most 64 characters: " (debug tag)))
    else none

abbrev pub or_else {ℓ} : {A : Type ℓ} → Option A → Option A → Option A
or_else none rest = rest
or_else (some e) rest = some e

unfoldable pub validate_tags : (String → String) → List String → Option CafeError
validate_tags debug [] = none
validate_tags debug (tag ∷ tags) = or_else (validate_tag debug tag) (validate_tags debug tags)
