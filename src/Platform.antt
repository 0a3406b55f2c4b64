-- ===== src/Platform.antt =====
-- What the program takes from outside its repository: the values of `serde_json`, by the methods
-- that it calls and with their documented behaviour, and `Debug` of a text. Floats are opaque.
use observable_cafev.Base.{
  ℕ, ◌<◌, ◌^◌, String, ◌≡◌, ◌↔◌, Bool, true, false, Option, none, some, List,
}

pub record Platform : Type 1 where
  pub Value : Type 0
  pub Float : Type 0
  pub null : Value
  pub bool : Bool → Value
  pub number : ℕ → Value
  pub float : Float → Value
  pub string : String → Value
  pub array : List Value → Value
  pub as_bool : Value → Option Bool
  pub as_u64 : Value → Option ℕ
  pub as_str : Value → Option String
  pub eq : Value → Value → Bool
  pub is_finite : Float → Bool
  -- `value["key"]`: `Null` where there is no such member
  pub index : Value → String → Value
  -- `as_f64` and `str::parse`, both rounded to `f32`; `str::parse` to `u32`
  pub as_float : Value → Option Float
  pub parse_float : String → Option Float
  pub parse_u32 : String → Option ℕ
  -- `{:?}` of a text
  pub debug : String → String
  pub as_bool-bool : (b : Bool) → as_bool (bool b) ≡ some b
  pub as_u64-number : (n : ℕ) → n < 2 ^ 64 → as_u64 (number n) ≡ some n
  pub as_float-float : (x : Float) → is_finite x ≡ true → as_float (float x) ≡ some x
  -- a float that is infinite or no number is written as `Null`
  pub float-null : (x : Float) → is_finite x ≡ false → float x ≡ null
  pub as_float-null : as_float null ≡ none
  pub as_str-null : as_str null ≡ none
  pub as_str-string : (s : String) → as_str (string s) ≡ some s
  pub eq_value_iff : (v w : Value) → (eq v w ≡ true) ↔ (v ≡ w)
