-- ===== src/Outside/Floats.antt =====
-- `double`, as far as the program computes with it: conversions, a product, a power, a comparison.
use crunchytask.Common.{◌≡◌, Bool, ℕ, ℤ, pos, ltb_ℤ, leb_ℤ, ◌-ℤ◌, ◌≤ℤ◌, ◌≤◌, negsuc, ◌^◌, ◌-◌, ◌*◌}

-- Integers that a double holds exactly: those of at most 53 bits.
abbrev pub IsExact : ℤ → Type 0
IsExact n = (negsuc (2 ^ 53 - 1) ≤ℤ n) × (n ≤ℤ pos (2 ^ 53))

pub record Floats : Type 1 where
  pub Double : Type 0
  -- `static_cast<double>(n)`
  pub of_int : ℤ → Double
  pub mul : Double → Double → Double
  -- `a - b` of the scripts' numbers, which are doubles
  pub sub : Double → Double → Double
  -- `std::pow`
  pub pow : Double → Double → Double
  -- `a < b` and `a <= b`
  pub ltb : Double → Double → Bool
  pub leb : Double → Double → Bool
  -- `static_cast<std::int64_t>(d)`; unspecified where the integer part does not fit
  pub to_int64 : Double → ℤ
  pub ltb-of_int : (a b : ℤ) → IsExact a → IsExact b → ltb (of_int a) (of_int b) ≡ ltb_ℤ a b
  pub leb-of_int : (a b : ℤ) → IsExact a → IsExact b → leb (of_int a) (of_int b) ≡ leb_ℤ a b
  pub sub-of_int :
      (a b : ℤ)
      → IsExact a
      → IsExact b
      → IsExact (a -ℤ b)
      → sub (of_int a) (of_int b) ≡ of_int (a -ℤ b)
  pub to_int64-of_int : (n : ℤ) → IsExact n → to_int64 (of_int n) ≡ n
  -- Products and powers of whole numbers are exact where the result is.
  pub mul-of_int :
      (a b : ℕ) → a * b ≤ 2 ^ 53 → mul (of_int (pos a)) (of_int (pos b)) ≡ of_int (pos (a * b))
  pub pow-of_int :
      (m n : ℕ) → m ^ n ≤ 2 ^ 53 → pow (of_int (pos m)) (of_int (pos n)) ≡ of_int (pos (m ^ n))
