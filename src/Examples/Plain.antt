-- ===== src/Examples/Plain.antt =====
-- A concrete platform. An array keeps the texts of its items, and JSON-RPC messages are values of their
-- own.
use observable_cafev.Base.{
  ℕ, ◌≡◌, ◌↔◌, refl, String, Bool, true, false, Option, none, some, List, [], ◌∷◌, ◌==◌, eq_iff,
  eqb, is_some, arith, ◌&&◌, ℤ,
}
use observable_cafev.Platform.{Platform}
use observable_cafev.Chunk.{Stamp}

pub data Value : Type 0 where
  null : Value
  bool : Bool → Value
  number : ℕ → Value
  float : ℕ → Value
  string : String → Value
  array : List String → Value
  request : (jsonrpc id method : String) (params : Value) → Value
  response : (jsonrpc id : String) (result : Value) → Value
  failure :
      (jsonrpc id : String) (result : Value) (code : ℤ) (message : String) (details : Value) → Value

abbrev texts : List Value → List String
texts [] = []
texts (string s ∷ vs) = s ∷ texts vs
texts (_ ∷ vs) = texts vs

abbrev as_bool : Value → Option Bool
as_bool (bool b) = some b
as_bool _ = none

abbrev as_u64 : Value → Option ℕ
as_u64 (number n) = some n
as_u64 _ = none

abbrev as_str : Value → Option String
as_str (string s) = some s
as_str _ = none

abbrev as_float : Value → Option (Option ℕ)
as_float (float x) = some (some x)
as_float _ = none

-- A float is `none` if it is infinite.
abbrev of_float : Option ℕ → Value
of_float none = null
of_float (some x) = float x

abbrev same_bool : Bool → Bool → Bool
same_bool true b = b
same_bool false true = false
same_bool false false = true

abbrev same_texts : List String → List String → Bool
same_texts [] [] = true
same_texts (s ∷ ss) (t ∷ ts) = s == t && same_texts ss ts
same_texts _ _ = false

abbrev same_code : ℤ → ℤ → Bool
same_code (ℤ.pos a) (ℤ.pos b) = eqb a b
same_code (ℤ.negsuc a) (ℤ.negsuc b) = eqb a b
same_code _ _ = false

abbrev eq : Value → Value → Bool
eq null null = true
eq (bool a) (bool b) = same_bool a b
eq (number a) (number b) = eqb a b
eq (float a) (float b) = eqb a b
eq (string a) (string b) = a == b
eq (array a) (array b) = same_texts a b
eq (request a b c v) (request i j k w) = a == i && b == j && c == k && eq v w
eq (response a b v) (response i j w) = a == i && b == j && eq v w
eq (failure a b v c m d) (failure i j w k n e) =
    a == i && b == j && eq v w && same_code c k && m == n && eq d e
eq _ _ = false

same_texts_iff : (a b : List String) → (same_texts a b ≡ true) ↔ (a ≡ b)
same_texts_iff [] [] = ground arith
same_texts_iff (s ∷ ss) (t ∷ ts) = ground (arith, eq_iff s t, same_texts_iff ss ts)
same_texts_iff _ _ = ground arith

same_code_iff : (a b : ℤ) → (same_code a b ≡ true) ↔ (a ≡ b)
same_code_iff (ℤ.pos a) (ℤ.pos b) = ground arith
same_code_iff (ℤ.negsuc a) (ℤ.negsuc b) = ground arith
same_code_iff _ _ = ground arith

pub eq_value_iff : (v w : Value) → (eq v w ≡ true) ↔ (v ≡ w)
eq_value_iff null null = ground arith
eq_value_iff (bool a) (bool b) = ground arith
eq_value_iff (string a) (string b) = ground (arith, eq_iff a b)
eq_value_iff (array a) (array b) = ground (arith, same_texts_iff a b)
eq_value_iff (request a b c v) (request i j k w) =
    ground (arith, eq_iff a i, eq_iff b j, eq_iff c k, eq_value_iff v w)
eq_value_iff (response a b v) (response i j w) =
    ground (arith, eq_iff a i, eq_iff b j, eq_value_iff v w)
eq_value_iff (failure a b v c m d) (failure i j w k n e) = ground (
  arith,
  eq_iff a i,
  eq_iff b j,
  eq_value_iff v w,
  same_code_iff c k,
  eq_iff m n,
  eq_value_iff d e,
)
eq_value_iff _ _ = ground arith

pub finite_read : (x : Option ℕ) → is_some x ≡ true → as_float (of_float x) ≡ some x
finite_read none h = absurd (cc h)
finite_read (some x) h = refl

pub infinite_null : (x : Option ℕ) → is_some x ≡ false → of_float x ≡ null
infinite_null none h = refl
infinite_null (some x) h = absurd (cc h)

instance abbrev pub plain : Platform
plain = record {
  Value = Value;
  Float = Option ℕ;
  null = null;
  bool = bool;
  number = number;
  float = of_float;
  is_finite = is_some;
  string = string;
  array = λ vs. array (texts vs);
  as_bool = as_bool;
  as_u64 = as_u64;
  as_str = as_str;
  eq = eq;
  index = λ v key. null;
  as_float = as_float;
  parse_float = λ s. none;
  parse_u32 = λ s. none;
  debug = λ s. s;
  as_bool-bool = λ b. refl;
  as_u64-number = λ n h. refl;
  as_float-float = finite_read;
  float-null = infinite_null;
  as_float-null = refl;
  as_str-null = refl;
  as_str-string = λ s. refl;
  eq_value_iff = eq_value_iff;
}

abbrev pub stamp : Stamp
stamp = record { uuid = "u-1"; now_ms = ℤ.pos 1000 }
