-- ===== src/Task/Id.antt =====
-- include/taskqueue/task_id.h and src/task_id.cc. The bytes that the random generator draws are an
-- argument of `generate`. A text is walked by its characters: the source walks bytes, and every
-- byte of a character outside ASCII fails both of its tests, as the character does here.
pub mod Laws
use Prim.Native.Nat.{bit_and, bit_or}
use Prim.Native.Char.{Char, code}
use crunchytask.Common.{
  ℕ, suc, ◌+◌, ◌/◌, ◌%◌, String, Bool, true, false, ◌&&◌, ◌||◌, List, [], ◌∷◌, ◌==◌, ◌<>◌, leb,
  nat_eq, if◌then◌else◌, length, get_or,
}
use crunchytask.ParseResult.{ParseResult, ok, fail}

pub record TaskId : Type 0 where
  pub value : String

-- A default-constructed identifier.
abbrev pub empty_id : TaskId
empty_id = record { value = "" }

abbrev pub id_eq : TaskId → TaskId → Bool
id_eq a b = a.value == b.value

abbrev pub codes : String → List ℕ
codes String.[] = []
codes (String.◌∷◌ c s) = code c ∷ codes s

unfoldable pub is_hex_digit : ℕ → Bool
is_hex_digit c =
    (leb b'0' c && leb c b'9') || (leb b'a' c && leb c b'f') || (leb b'A' c && leb c b'F')

abbrev pub is_dash_position : ℕ → Bool
is_dash_position i = nat_eq i 8 || nat_eq i 13 || nat_eq i 18 || nat_eq i 23

-- The loop of `IsValidUuidFormat` from position `i`.
unfoldable pub uuid_chars_from : ℕ → List ℕ → Bool
uuid_chars_from i [] = true
uuid_chars_from i (c ∷ rest) =
    let others = uuid_chars_from (suc i) rest in
    if is_dash_position i
    then (if nat_eq c b'-' then others else false)
    else if is_hex_digit c
    then others
    else false

unfoldable pub is_valid_uuid_format : String → Bool
unfolding uuid_chars_from
is_valid_uuid_format value =
    if nat_eq (length (codes value)) 36 then uuid_chars_from 0 (codes value) else false

unfoldable pub parse_id : String → ParseResult TaskId
parse_id value =
    if value == ""
    then fail "task id must not be empty"
    else if is_valid_uuid_format value
    then ok (record { value = value })
    else fail "task id must be a UUID string"

abbrev hex_digits : List String
hex_digits =
    "0" ∷ "1" ∷ "2" ∷ "3" ∷ "4" ∷ "5" ∷ "6" ∷ "7" ∷ "8" ∷ "9" ∷ "a" ∷ "b" ∷ "c" ∷ "d" ∷ "e" ∷ "f"
    ∷ []

-- One digit of `%02x`, for a number below 16.
unfoldable pub hex_digit : ℕ → String
hex_digit d = get_or hex_digits d "f"

-- `%02x` of a byte.
unfoldable pub hex_byte : ℕ → String
hex_byte b = hex_digit (b / 16) <> hex_digit (b % 16)

-- The bytes after `bytes[6] = ...` and `bytes[8] = ...`.
unfoldable pub stamped : (ℕ → ℕ) → ℕ → ℕ
stamped drawn i =
    if nat_eq i 6
    then bit_or (bit_and (drawn 6) 0x0F) 0x40
    else if nat_eq i 8
    then bit_or (bit_and (drawn 8) 0x3F) 0x80
    else drawn i

-- The format string of `snprintf`, over the sixteen bytes.
unfoldable pub format_uuid : (ℕ → ℕ) → String
format_uuid b =
    hex_byte (b 0)
    <> hex_byte (b 1)
    <> hex_byte (b 2)
    <> hex_byte (b 3)
    <> "-"
    <> hex_byte (b 4)
    <> hex_byte (b 5)
    <> "-"
    <> hex_byte (b 6)
    <> hex_byte (b 7)
    <> "-"
    <> hex_byte (b 8)
    <> hex_byte (b 9)
    <> "-"
    <> hex_byte (b 10)
    <> hex_byte (b 11)
    <> hex_byte (b 12)
    <> hex_byte (b 13)
    <> hex_byte (b 14)
    <> hex_byte (b 15)

-- `drawn i` is the i-th number that `distribution(generator)` returns, between 0 and 255.
unfoldable pub generate : (ℕ → ℕ) → TaskId
unfolding stamped
generate drawn = record { value = format_uuid (stamped drawn) }
