-- ===== src/Outside/Json.antt =====
-- nlohmann::json, as far as task_json.cc uses it. `member` is `contains` and `at` in one: `none`
-- where `contains` is false, and otherwise the value that `at` returns.
use crunchytask.Common.{
  ◌≡◌, String, Bool, true, ℤ, IsInt32, IsInt64, Option, some, Dict, lookup, ◌==◌, if◌then◌else◌,
}
use crunchytask.ParseResult.{ParseResult, ok}

pub record JsonLib (Double : Type 0) : Type 1 where
  pub Json : Type 0
  -- the value of an initialiser list of pairs, as `json{{"a", x}, {"b", y}}`
  pub object : Dict Json → Json
  -- `json[key] = value` on an object
  pub set_member : String → Json → Json → Json
  pub member : Json → String → Option Json
  pub of_int : ℤ → Json
  pub of_double : Double → Json
  pub of_string : String → Json
  pub of_bool : Bool → Json
  pub is_object : Json → Bool
  pub is_number_integer : Json → Bool
  pub is_number : Json → Bool
  pub is_string : Json → Bool
  pub is_boolean : Json → Bool
  -- `get<std::int64_t>()`, `get<int>()`, `get<double>()`, `get<std::string>()`, `get<bool>()`
  pub get_int64 : Json → ℤ
  pub get_int : Json → ℤ
  pub get_double : Json → Double
  pub get_string : Json → String
  pub get_bool : Json → Bool
  -- A JSON document as text. The program stores and moves it, and never looks inside.
  pub Text : Type 0
  pub dump : Json → Text
  -- `parse`, with the message of its `parse_error`
  pub parse : Text → ParseResult Json
  -- Values of which `dump` writes a document that `parse` reads back: valid UTF-8, finite
  -- numbers, nested at most 1000 deep.
  pub HasText : Json → Type 0
  -- whether `dump` ends without an exception; it does where there is a text
  pub can_dump : Json → Bool
  pub can_dump-HasText : (j : Json) → HasText j → can_dump j ≡ true
  pub parse-dump : (j : Json) → HasText j → parse (dump j) ≡ ok j
  pub is_object-object : (fields : Dict Json) → is_object (object fields) ≡ true
  pub member-object :
      (fields : Dict Json) (key : String) → member (object fields) key ≡ lookup key fields
  pub is_object-set_member :
      (key : String) (v j : Json) → is_object j ≡ true → is_object (set_member key v j) ≡ true
  pub member-set_member :
      (key other : String) (v j : Json)
      → is_object j ≡ true
      → member (set_member key v j) other ≡ (if key == other then some v else member j other)
  pub is_number_integer-of_int : (n : ℤ) → is_number_integer (of_int n) ≡ true
  pub get_int64-of_int : (n : ℤ) → IsInt64 n → get_int64 (of_int n) ≡ n
  pub get_int-of_int : (n : ℤ) → IsInt32 n → get_int (of_int n) ≡ n
  pub is_number-of_double : (d : Double) → is_number (of_double d) ≡ true
  pub get_double-of_double : (d : Double) → get_double (of_double d) ≡ d
  pub is_string-of_string : (s : String) → is_string (of_string s) ≡ true
  pub get_string-of_string : (s : String) → get_string (of_string s) ≡ s
  pub is_boolean-of_bool : (b : Bool) → is_boolean (of_bool b) ≡ true
  pub get_bool-of_bool : (b : Bool) → get_bool (of_bool b) ≡ b
