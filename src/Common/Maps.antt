-- ===== src/Common/Maps.antt =====
-- Maps with text keys as association lists: `std::unordered_map` and the hashes of the store.
-- A key stands once; the order of the entries is the model's own.
use Prim.Native.String.{String}
use mathlib.Core.Path.{◌≡◌, refl}
use mathlib.Core.List.{List, [], ◌∷◌}
use mathlib.Core.Option.{Option, none, some}
use mathlib.Core.Logic.{◌⊎◌}
use native.Mathlib.Omega.{arith}
use text.Mathlib.TextEquality.{eq_iff}
use crunchytask.Common.Tests.{◌==◌, if◌then◌else◌}

abbrev pub Dict {ℓ} : Type ℓ → Type ℓ
Dict V = List (String × V)

module _ {ℓ} {V : Type ℓ} where
  unfoldable pub lookup : String → Dict V → Option V
  lookup k [] = none
  lookup k ((j, v) ∷ m) = if j == k then some v else lookup k m

  unfoldable pub insert : String → V → Dict V → Dict V
  insert k v [] = (k, v) ∷ []
  insert k v ((j, w) ∷ m) = let rest = insert k v m in if j == k then (k, v) ∷ m else (j, w) ∷ rest

  unfoldable pub remove : String → Dict V → Dict V
  remove k [] = []
  remove k ((j, v) ∷ m) = let rest = remove k m in if j == k then rest else (j, v) ∷ rest

  -- A map at a key, after the key `k` is given the value `v`.
  pub lookup-insert :
      (k asked : String) (v : V) (entries : Dict V)
      → lookup asked (insert k v entries) ≡ (if k == asked then some v else lookup asked entries)
  unfolding insert lookup
  lookup-insert k asked v [] = refl
  lookup-insert k asked v ((key, old) ∷ entries) =
      ground
        (arith, lookup-insert k asked v entries, eq_iff key asked, eq_iff key k, eq_iff k asked)

  pub lookup-remove :
      (k j : String) (m : Dict V) → lookup j (remove k m) ≡ (if k == j then none else lookup j m)
  unfolding lookup remove
  lookup-remove k j [] = ground arith
  lookup-remove k j ((key, old) ∷ entries) =
      ground (arith, lookup-remove k j entries, eq_iff key j, eq_iff key k, eq_iff k j)

pub ruleset dict_laws = (lookup-insert, lookup-remove)

-- Where an entry of a map after `insert` comes from.
pub lookup-insert_cases {ℓ} :
    {V : Type ℓ} (k j : String) (v w : V) (m : Dict V)
    → lookup j (insert k v m) ≡ some w
    → ((k ≡ j) × (v ≡ w)) ⊎ (lookup j m ≡ some w)
lookup-insert_cases k j v w m e = ground (arith, lookup-insert k j v m, eq_iff k j)
