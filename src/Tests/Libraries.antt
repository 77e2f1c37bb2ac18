-- ===== src/Tests/Libraries.antt =====
-- The floats, nlohmann::json and cjson of the tests.
use crunchytask.Common.{
  ◌^◌, ◌*◌, ℤ, pos, ◌-ℤ◌, ltb_ℤ, leb_ℤ, pos_part, String, ◌==◌, ◌≡◌, Bool, true, false, [], ◌∷◌,
  Option, none, some, if◌then◌else◌, Dict, lookup, refl, ap, arith, eq_refl, eq_iff,
}
use crunchytask.ParseResult.{ok}
use crunchytask.Outside.Floats.{Floats}
use crunchytask.Outside.Json.{JsonLib}
use crunchytask.Outside.Lua.{Lua}
use crunchytask.Outside.Bridge.{Bridge}
use crunchytask.Tests.Json.{Json, null, empty_object, whole, real, string, boolean, field}

abbrev pub floats : Floats
floats = record {
  Double = ℤ;
  of_int = λ n. n;
  mul = λ a b. pos (pos_part a * pos_part b);
  sub = ◌-ℤ◌;
  pow = λ a b. pos (pos_part a ^ pos_part b);
  ltb = ltb_ℤ;
  leb = leb_ℤ;
  to_int64 = λ n. n;
  ltb-of_int = λ a b h k. refl;
  leb-of_int = λ a b h k. refl;
  sub-of_int = λ a b h k l. refl;
  to_int64-of_int = λ n h. refl;
  mul-of_int = λ a b h. refl;
  pow-of_int = λ m n h. refl;
}

abbrev to_object : Dict Json → Json
to_object [] = empty_object
to_object ((k, v) ∷ m) = field k v (to_object m)

unfoldable pub member : Json → String → Option Json
member (field k v j) key = let rest = member j key in if k == key then some v else rest
member _ key = none

abbrev is_object : Json → Bool
is_object empty_object = true
is_object (field k v j) = true
is_object _ = false

abbrev whole_of : Json → ℤ
whole_of (whole n) = n
whole_of _ = pos 0

abbrev real_of : Json → ℤ
real_of (real n) = n
real_of _ = pos 0

abbrev string_of : Json → String
string_of (string s) = s
string_of _ = ""

abbrev boolean_of : Json → Bool
boolean_of (boolean b) = b
boolean_of _ = false

abbrev is_whole : Json → Bool
is_whole (whole n) = true
is_whole _ = false

abbrev is_number : Json → Bool
is_number (whole n) = true
is_number (real n) = true
is_number _ = false

abbrev is_string : Json → Bool
is_string (string s) = true
is_string _ = false

abbrev is_boolean : Json → Bool
is_boolean (boolean b) = true
is_boolean _ = false

pub to_object-is_object : (m : Dict Json) → is_object (to_object m) ≡ true
to_object-is_object [] = refl
to_object-is_object ((k, v) ∷ m) = refl

pub member-to_object : (m : Dict Json) (key : String) → member (to_object m) key ≡ lookup key m
unfolding member lookup
member-to_object [] key = refl
member-to_object ((k, v) ∷ m) key = rw (member-to_object m key) refl

pub member-field :
    (key other : String) (v j : Json)
    → member (field key v j) other ≡ (if key == other then some v else member j other)
unfolding member
member-field key other v j = refl

abbrev pub json_lib : JsonLib ℤ
json_lib = record {
  Json = Json;
  object = to_object;
  set_member = field;
  member = member;
  of_int = whole;
  of_double = real;
  of_string = string;
  of_bool = boolean;
  is_object = is_object;
  is_number_integer = is_whole;
  is_number = is_number;
  is_string = is_string;
  is_boolean = is_boolean;
  get_int64 = whole_of;
  get_int = whole_of;
  get_double = real_of;
  get_string = string_of;
  get_bool = boolean_of;
  Text = Json;
  dump = λ j. j;
  parse = ok;
  HasText = λ j. Unit;
  can_dump = λ j. true;
  can_dump-HasText = λ j h. refl;
  parse-dump = λ j h. refl;
  is_object-object = to_object-is_object;
  member-object = member-to_object;
  is_object-set_member = λ key v j h. refl;
  member-set_member = λ key other v j h. member-field key other v j;
  is_number_integer-of_int = λ n. refl;
  get_int64-of_int = λ n h. refl;
  get_int-of_int = λ n h. refl;
  is_number-of_double = λ d. refl;
  get_double-of_double = λ d. refl;
  is_string-of_string = λ s. refl;
  get_string-of_string = λ s. refl;
  is_boolean-of_bool = λ b. refl;
  get_bool-of_bool = λ b. refl;
}

-- Lua: the value of a missing field is nil, which is `null`.
abbrev or_nil : Option Json → Json
or_nil none = null
or_nil (some v) = v

abbrev truthy : Json → Bool
truthy null = false
truthy (boolean b) = b
truthy _ = true

abbrev equals : Json → String → Bool
equals (string t) s = t == s
equals _ s = false

abbrev argument : Json → Option String
argument (string s) = some s
argument _ = none

abbrev to_number : Json → Option ℤ
to_number (whole n) = some n
to_number (real n) = some n
to_number _ = none

unfoldable pub index : Json → String → Json
index v key = or_nil (member v key)

pub eq_of_equals : (v : Json) (s : String) → equals v s ≡ true → v ≡ string s
eq_of_equals null s e = absurd (cc)
eq_of_equals empty_object s e = absurd (cc)
eq_of_equals (whole n) s e = absurd (cc)
eq_of_equals (real n) s e = absurd (cc)
eq_of_equals (string t) s e = ap string ((eq_iff t s).0 e)
eq_of_equals (boolean b) s e = absurd (cc)
eq_of_equals (field k v j) s e = absurd (cc)

pub index-field :
    (key other : String) (w v : Json)
    → index (field key w v) other ≡ (if key == other then w else index v other)
unfolding index member
index-field key other w v = ground arith

pub index_other :
    (key other : String) (w v : Json)
    → (key == other) ≡ false
    → index (field key w v) other ≡ index v other
index_other key other w v e = rw (index-field key other w v, e) refl

abbrev pub lua : Lua ℤ Json
lua = record {
  Value = Json;
  decode = some;
  encodable = λ v. true;
  encode = λ v. v;
  is_table = is_object;
  index = index;
  truthy = truthy;
  of_text = string;
  equals = equals;
  set_text = λ key s v. field key (string s) v;
  set_number = λ key n v. field key (whole n) v;
  clear = λ key v. field key null v;
  argument = argument;
  tonumber = to_number;
  truthy-of_text = λ s. refl;
  argument-of_text = λ s. refl;
  equals-of_text = eq_refl;
  eq_of_equals = eq_of_equals;
  is_table-set_text = λ key s v h. refl;
  is_table-set_number = λ key n v h. refl;
  is_table-clear = λ key v h. refl;
  index-set_text = λ key other s v h. index-field key other (string s) v;
  index-set_number = λ key other n v h e. index_other key other (whole n) v e;
  index-clear = λ key other v h e. index_other key other null v e;
  encodable-set_text = λ key s v h e. refl;
  encodable-set_number = λ key n v h e. refl;
  encodable-clear = λ key v h e. refl;
  decode-encode = λ v h c. (v, refl, h, refl, (λ key s e. e));
}

pub text_of_member :
    (j : Json) (key s : String) → member j key ≡ some (string s) → index j key ≡ string s
unfolding index
text_of_member j key s e = rw e refl

abbrev pub bridge : Bridge floats json_lib lua
bridge = record { decode-dump = λ j h o. (j, refl, o, refl, (λ key s e. text_of_member j key s e)) }
