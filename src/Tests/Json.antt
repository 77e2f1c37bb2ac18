-- ===== src/Tests/Json.antt =====
-- A small JSON library, whose texts are its values: what the tests take for nlohmann::json, cjson
-- and the documents in the store. A double is a whole number in it.
use crunchytask.Common.{
  ℤ, String, ◌==◌, ◌≡◌, Bool, true, false, refl, eq_iff, Bool-cases, inl, inr, ◌↔◌,
}
use mathlib.Core.Bool.{Bool-discrete}
use native.Mathlib.Decide.{ℕ_discrete}

pub data Json : Type 0 where
  null empty_object : Json
  whole real : ℤ → Json
  string : String → Json
  boolean : Bool → Json
  -- an object with one more field
  field : String → Json → Json → Json

String-discrete : Discrete String
String-discrete s t = elim (Bool-cases (s == t)) [
  | inl e ↦ yes ((eq_iff s t).0 e)
  | inr e ↦ no (λ q. absurd (cc (e, (eq_iff s t).1 q)))
]

ℤ-discrete : Discrete ℤ
ℤ-discrete = hlevel ℕ_discrete

pub Json-discrete : Discrete Json
Json-discrete = hlevel (String-discrete, ℤ-discrete, Bool-discrete)

abbrev decided : {A : Type 0} → Dec A → Bool
decided (yes a) = true
decided (no n) = false

unfoldable pub same : Json → Json → Bool
same a b = decided (Json-discrete a b)

decided_iff : {A : Type 0} (d : Dec A) → (decided d ≡ true) ↔ A
decided_iff (yes a) = ((λ e. a), (λ x. refl))
decided_iff (no n) = ((λ e. absurd (cc)), (λ x. absurd (n x)))

pub same_iff : (a b : Json) → (same a b ≡ true) ↔ (a ≡ b)
unfolding same
same_iff a b = decided_iff (Json-discrete a b)
