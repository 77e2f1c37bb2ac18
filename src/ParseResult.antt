-- ===== src/ParseResult.antt =====
-- include/taskqueue/parse_result.h: a value or an error message. `Ok` and `Fail` of the source are
-- the constructors. The source tells them apart by an empty message; no `Fail` of the program has
-- an empty one, since each begins with a literal or passes on the message of another failure.
use crunchytask.Common.{String, Bool, true, false}

pub data ParseResult {ℓ} (A : Type ℓ) : Type ℓ where
  ok : A → ParseResult A
  fail : String → ParseResult A

-- `if (!r.Ok()) return Fail(r.Error());` and then the rest with `r.Value()`.
infixl 5 ◌>>=◌
abbrev pub ◌>>=◌ {ℓ κ} :
    {A : Type ℓ} {B : Type κ} → ParseResult A → (A → ParseResult B) → ParseResult B
ok a >>= f = f a
fail e >>= f = fail e

abbrev pub is_ok {ℓ} : {A : Type ℓ} → ParseResult A → Bool
is_ok (ok a) = true
is_ok (fail e) = false
