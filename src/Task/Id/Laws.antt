-- ===== src/Task/Id/Laws.antt =====
-- What `generate` makes, `parse_id` accepts.
use text.Mathlib.TextLemmas.{cons-append, nil-append}
use Prim.Native.Char.{code}
use Prim.Native.Nat.{bit_and, bit_or}
use crunchytask.Common.{
  ℕ, zero, suc, ◌<◌, nat_eq, get_or, arith, Bool, ◌&&◌, ◌/◌, ◌%◌, ◌≡◌, refl, ap, ◌∙◌, true, false,
  String, ◌<>◌, List, ◌++◌, ◌∷◌, [], ◌==◌, All-get_or, Bool-cases, eq_iff, inl, inr,
}
use mathlib.Core.Bool.{false≢true}
use mathlib.Core.Path.{subst}
use crunchytask.ParseResult.{ok}
use crunchytask.Task.Id.{
  codes, is_hex_digit, uuid_chars_from, is_valid_uuid_format, parse_id, hex_digits, hex_digit,
  hex_byte, stamped, format_uuid, generate,
}

codes-append : (s t : String) → codes (s <> t) ≡ codes s ++ codes t
codes-append String.[] t = ap codes (nil-append t)
codes-append (String.◌∷◌ c s) t =
    ap codes (cons-append c s t) ∙ ap (◌∷◌ (code c)) (codes-append s t)

first : List ℕ → ℕ
first [] = 0
first (c ∷ cs) = c

-- The character of a digit.
digit : ℕ → ℕ
unfolding first
digit d = first (codes (hex_digit d))

abbrev IsHexText : String → Type 0
IsHexText s = (codes s ≡ first (codes s) ∷ []) × (is_hex_digit (first (codes s)) ≡ true)

hex_digit-IsHexText : (d : ℕ) → IsHexText (hex_digit d)
unfolding hex_digit first is_hex_digit
hex_digit-IsHexText d =
    All-get_or IsHexText hex_digits d "f"
      (
        (refl, refl),
        (
          (refl, refl),
          (
            (refl, refl),
            (
              (refl, refl),
              (
                (refl, refl),
                (
                  (refl, refl),
                  (
                    (refl, refl),
                    (
                      (refl, refl),
                      (
                        (refl, refl),
                        (
                          (refl, refl),
                          (
                            (refl, refl),
                            (
                              (refl, refl),
                              ((refl, refl), ((refl, refl), ((refl, refl), ((refl, refl), tt)))),
                            ),
                          ),
                        ),
                      ),
                    ),
                  ),
                ),
              ),
            ),
          ),
        ),
      )
      (refl, refl)

codes-hex_digit : (d : ℕ) → codes (hex_digit d) ≡ digit d ∷ []
unfolding digit
codes-hex_digit d = (hex_digit-IsHexText d).0

digit-is_hex_digit : (d : ℕ) → is_hex_digit (digit d) ≡ true
unfolding digit
digit-is_hex_digit d = (hex_digit-IsHexText d).1

codes-hex_byte : (b : ℕ) → codes (hex_byte b) ≡ digit (b / 16) ∷ digit (b % 16) ∷ []
unfolding hex_byte
codes-hex_byte b = simp (codes-append, codes-hex_digit)

format_uuid-is_valid : (b : ℕ → ℕ) → is_valid_uuid_format (format_uuid b) ≡ true
unfolding is_valid_uuid_format format_uuid uuid_chars_from
format_uuid-is_valid b = simp (codes-append, codes-hex_byte, digit-is_hex_digit)

is_valid-ne-empty : (s : String) → is_valid_uuid_format s ≡ true → (s == "") ≡ false
unfolding is_valid_uuid_format
is_valid-ne-empty s h = elim (Bool-cases (s == "")) [
  | inl e ↦ absurd (false≢true (subst (λ t. is_valid_uuid_format t ≡ true) ((eq_iff s "").0 e) h))
  | inr e ↦ e
]

-- A text of the format is read as the identifier of that text.
pub parse_id-eq-ok :
    (s : String) → is_valid_uuid_format s ≡ true → parse_id s ≡ ok (record { value = s })
unfolding parse_id
parse_id-eq-ok s h = rw (is_valid-ne-empty s h, h)

-- A generated identifier is read back from its text, whatever bytes are drawn.
pub parse_id-generate : (drawn : ℕ → ℕ) → parse_id (generate drawn).value ≡ ok (generate drawn)
unfolding generate
parse_id-generate drawn = parse_id-eq-ok _ (format_uuid-is_valid (stamped drawn))

-- Facts about the bits of a byte, by evaluation at every byte.
every : (ℕ → Bool) → ℕ → Bool
every test zero = true
every test (suc bound) = every test bound && test bound

every-below :
    (test : ℕ → Bool) (bound byte : ℕ) → byte < bound → every test bound ≡ true → test byte ≡ true
unfolding every
every-below test zero byte small passed = absurd (omega arith)
every-below test (suc bound) byte small passed = ground (arith, every-below test bound byte)

version_nibble : (x : ℕ) → x < 256 → bit_or (bit_and x 0x0F) 0x40 / 16 ≡ 4
unfolding every
version_nibble x h =
    ground (arith, every-below (λ y. nat_eq (bit_or (bit_and y 0x0F) 0x40 / 16) 4) 256 x h refl)

-- Character 14 of a generated identifier, the version of the UUID, is `4`, where the seventh of
-- the drawn numbers is a byte.
pub version-generate :
    (drawn : ℕ → ℕ) → drawn 6 < 256 → get_or (codes (generate drawn).value) 14 0 ≡ b'4'
unfolding generate format_uuid digit first hex_digit
version-generate drawn h = simp (codes-append, codes-hex_byte) (rw (version_nibble (drawn 6) h))
