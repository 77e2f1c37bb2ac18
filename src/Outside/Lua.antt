-- ===== src/Outside/Lua.antt =====
-- The Lua values and the cjson library that the scripts of the store use. A document is `Text`,
-- a number is `Double`, as in Lua.
use crunchytask.Common.{ℤ, ◌≡◌, String, Bool, true, false, ◌==◌, Option, some, if◌then◌else◌}

pub record Lua (Double Text : Type 0) : Type 1 where
  pub Value : Type 0
  -- `pcall(cjson.decode, text)`: `none` where the first result is false
  pub decode : Text → Option Value
  -- whether `cjson.encode(v)` ends with a text: not where `v` holds a number that is infinite or not
  -- a number, or is nested deeper than the limit of cjson, where it raises an error
  pub encodable : Value → Bool
  -- that text
  pub encode : Value → Text
  -- `type(v) == 'table'`
  pub is_table : Value → Bool
  -- `v[key]` of a table
  pub index : Value → String → Value
  -- whether `not v` is false
  pub truthy : Value → Bool
  -- the value of a text
  pub of_text : String → Value
  -- `v == text`
  pub equals : Value → String → Bool
  -- `v[key] = text`, `v[key] = tonumber(decimal)` of an integer, `v[key] = nil`
  pub set_text : String → String → Value → Value
  pub set_number : String → ℤ → Value → Value
  pub clear : String → Value → Value
  -- the text that `redis.call` takes for an argument; `none` where it raises an error
  pub argument : Value → Option String
  -- `tonumber(v)`; `none` for nil
  pub tonumber : Value → Option Double
  pub truthy-of_text : (s : String) → truthy (of_text s) ≡ true
  pub argument-of_text : (s : String) → argument (of_text s) ≡ some s
  pub equals-of_text : (s : String) → equals (of_text s) s ≡ true
  pub eq_of_equals : (v : Value) (s : String) → equals v s ≡ true → v ≡ of_text s
  pub is_table-set_text :
      (key s : String) (v : Value) → is_table v ≡ true → is_table (set_text key s v) ≡ true
  pub is_table-set_number :
      (key : String) (n : ℤ) (v : Value) → is_table v ≡ true → is_table (set_number key n v) ≡ true
  pub is_table-clear :
      (key : String) (v : Value) → is_table v ≡ true → is_table (clear key v) ≡ true
  pub index-set_text :
      (key other s : String) (v : Value)
      → is_table v ≡ true
      → index (set_text key s v) other ≡ (if key == other then of_text s else index v other)
  -- An assignment leaves the other keys alone.
  pub index-set_number :
      (key other : String) (n : ℤ) (v : Value)
      → is_table v ≡ true
      → (key == other) ≡ false
      → index (set_number key n v) other ≡ index v other
  pub index-clear :
      (key other : String) (v : Value)
      → is_table v ≡ true
      → (key == other) ≡ false
      → index (clear key v) other ≡ index v other
  -- A text, a decimal integer or nil in a table at hand does not stop the encoding.
  pub encodable-set_text :
      (key s : String) (v : Value)
      → is_table v ≡ true
      → encodable v ≡ true
      → encodable (set_text key s v) ≡ true
  pub encodable-set_number :
      (key : String) (n : ℤ) (v : Value)
      → is_table v ≡ true
      → encodable v ≡ true
      → encodable (set_number key n v) ≡ true
  pub encodable-clear :
      (key : String) (v : Value)
      → is_table v ≡ true
      → encodable v ≡ true
      → encodable (clear key v) ≡ true
  -- What is encoded is decoded to a table with the same texts. Numbers may lose digits.
  pub decode-encode :
      (v : Value)
      → is_table v ≡ true
      → encodable v ≡ true
      → (w : Value) × (decode (encode v) ≡ some w)
        × (is_table w ≡ true)
        × (encodable w ≡ true)
        × ((key s : String) → index v key ≡ of_text s → index w key ≡ of_text s)
