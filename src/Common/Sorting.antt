-- ===== src/Common/Sorting.antt =====
-- `std::sort` by a strict order, as an insertion sort, and the order of `std::string`.
use Prim.Native.Nat.{ℕ}
use Prim.Native.Char.{code}
use Prim.Native.String.{String}
use mathlib.Core.Path.{◌≡◌, refl, ap, sym, ◌∙◌, subst}
use mathlib.Core.Bool.{Bool, true, false}
use mathlib.Core.List.{List, [], ◌∷◌}
use mathlib.Core.Logic.{◌⊎◌, inl, inr}
use native.Mathlib.Omega.{arith}
use text.Mathlib.TextEquality.{Char-path}
use crunchytask.Common.Tests.{ltb, nat_eq, if◌then◌else◌, Bool-cases}
use crunchytask.Common.Lists.{All, Any}

-- Code points; their order is the order of the bytes that `std::string` compares.
abbrev pub points : String → List ℕ
points String.[] = []
points (String.◌∷◌ c s) = code c ∷ points s

unfoldable pub points_less : List ℕ → List ℕ → Bool
points_less [] [] = false
points_less [] (b ∷ t) = true
points_less (a ∷ s) [] = false
points_less (a ∷ s) (b ∷ t) =
    let rest = points_less s t in if ltb a b then true else if nat_eq a b then rest else false

abbrev pub text_less : String → String → Bool
text_less s t = points_less (points s) (points t)

pub record IsStrictOrder {A : Type 0} (less : A → A → Bool) : Type 0 where
  pub irreflexive : (x : A) → less x x ≡ false
  pub transitive : (x y z : A) → less x y ≡ true → less y z ≡ true → less x z ≡ true
  pub total : (x y : A) → less x y ≡ false → less y x ≡ false → x ≡ y

module _ {A : Type 0} where
  abbrev pub Has : A → List A → Type 0
  Has x l = Any (λ y. y ≡ x) l

  abbrev pub AllDistinct : List A → Type 0
  AllDistinct [] = Unit
  AllDistinct (x ∷ xs) = (¬ Has x xs) × AllDistinct xs

module _ {A : Type 0} (less : A → A → Bool) where
  unfoldable pub insert_sorted : A → List A → List A
  insert_sorted x [] = x ∷ []
  insert_sorted x (y ∷ ys) =
      let rest = insert_sorted x ys in if less x y then x ∷ y ∷ ys else y ∷ rest

  unfoldable pub sort : List A → List A
  unfolding insert_sorted
  sort [] = []
  sort (x ∷ xs) = insert_sorted x (sort xs)

  -- Each element comes before all that follow it.
  abbrev pub Ascending : List A → Type 0
  Ascending [] = Unit
  Ascending (x ∷ xs) = All (λ y. less x y ≡ true) xs × Ascending xs

  by_branch :
      (x y z : A) (ys rest : List A) (b : Bool)
      → (Has z rest → (x ≡ z) ⊎ Has z ys)
      → Has z (if b then x ∷ y ∷ ys else y ∷ rest)
      → (x ≡ z) ⊎ Has z (y ∷ ys)
  by_branch x y z ys rest true f h = h
  by_branch x y z ys rest false f (inl h) = inr (inl h)
  by_branch x y z ys rest false f (inr h) = elim (f h) [ inl e ↦ inl e | inr g ↦ inr (inr g) ]

  Has-insert_sorted : (x z : A) (l : List A) → Has z (insert_sorted x l) → (x ≡ z) ⊎ Has z l
  unfolding insert_sorted
  Has-insert_sorted x z [] (inl h) = inl h
  Has-insert_sorted x z [] (inr h) = absurd h
  Has-insert_sorted x z (y ∷ ys) h =
      by_branch x y z ys (insert_sorted x ys) (less x y) (Has-insert_sorted x z ys) h

  to_branch :
      (x y z : A) (ys rest : List A) (b : Bool)
      → ((x ≡ z) ⊎ Has z ys → Has z rest)
      → (x ≡ z) ⊎ Has z (y ∷ ys)
      → Has z (if b then x ∷ y ∷ ys else y ∷ rest)
  to_branch x y z ys rest true f h = h
  to_branch x y z ys rest false f (inl h) = inr (f (inl h))
  to_branch x y z ys rest false f (inr (inl h)) = inl h
  to_branch x y z ys rest false f (inr (inr h)) = inr (f (inr h))

  insert_sorted-Has : (x z : A) (l : List A) → (x ≡ z) ⊎ Has z l → Has z (insert_sorted x l)
  unfolding insert_sorted
  insert_sorted-Has x z [] h = h
  insert_sorted-Has x z (y ∷ ys) h =
      to_branch x y z ys (insert_sorted x ys) (less x y) (insert_sorted-Has x z ys) h

  Has-sort : (z : A) (l : List A) → Has z (sort l) → Has z l
  unfolding sort
  Has-sort z [] h = h
  Has-sort z (x ∷ xs) h = elim (Has-insert_sorted x z (sort xs) h) [
    | inl e ↦ inl e
    | inr g ↦ inr (Has-sort z xs g)
  ]

  sort-Has : (z : A) (l : List A) → Has z l → Has z (sort l)
  unfolding sort
  sort-Has z [] h = h
  sort-Has z (x ∷ xs) (inl e) = insert_sorted-Has x z (sort xs) (inl e)
  sort-Has z (x ∷ xs) (inr h) = insert_sorted-Has x z (sort xs) (inr (sort-Has z xs h))

  All-insert_sorted :
      (P : A → Type 0) (x : A) (l : List A) → P x → All P l → All P (insert_sorted x l)
  unfolding insert_sorted
  All-insert_sorted P x [] h hs = (h, hs)
  All-insert_sorted P x (y ∷ ys) h hs = elim (Bool-cases (less x y)) [
    | inl e ↦ rw e (h, hs)
    | inr e ↦ rw e (hs.0, All-insert_sorted _ x ys h hs.1)
  ]

  All-Has : (P : A → Type 0) (z : A) (l : List A) → All P l → Has z l → P z
  All-Has P z (y ∷ ys) h (inl e) = subst P e h.0
  All-Has P z (y ∷ ys) h (inr g) = All-Has P z ys h.1 g
  All-Has P z [] h g = absurd g

  module _ (O : IsStrictOrder less) where
    All-after :
        (x y : A) (l : List A)
        → less x y ≡ true
        → All (λ z. less y z ≡ true) l
        → All (λ z. less x z ≡ true) l
    All-after x y [] e h = tt
    All-after x y (z ∷ zs) e h = (O.transitive x y z e h.0, All-after x y zs e h.1)

    insert_sorted-Ascending :
        (x : A) (l : List A) → ¬ Has x l → Ascending l → Ascending (insert_sorted x l)
    unfolding insert_sorted
    insert_sorted-Ascending x [] n h = (tt, tt)
    insert_sorted-Ascending x (y ∷ ys) n h = elim (Bool-cases (less x y)) [
      | inl e ↦ rw e ((e, All-after x y ys e h.0), h)
      | inr e ↦ rw e (
        All-insert_sorted _ x ys
            (elim (Bool-cases (less y x)) [
              | inl f ↦ f
              | inr f ↦ absurd (n (inl (sym (O.total x y e f))))
            ])
            h.0,
        insert_sorted-Ascending x ys (λ g. n (inr g)) h.1,
      )
    ]

    sort-Ascending : (l : List A) → AllDistinct l → Ascending (sort l)
    unfolding sort
    sort-Ascending [] h = tt
    sort-Ascending (x ∷ xs) h =
        insert_sorted-Ascending x (sort xs) (λ g. h.0 (Has-sort x xs g)) (sort-Ascending xs h.1)

    -- Two ascending lists with the same elements are one list.
    first_of :
        (x y : A) (xs ys : List A)
        → Ascending (x ∷ xs)
        → Ascending (y ∷ ys)
        → Has x (y ∷ ys)
        → Has y (x ∷ xs)
        → x ≡ y
    first_of x y xs ys hx hy (inl e) g = sym e
    first_of x y xs ys hx hy (inr h) (inl e) = e
    first_of x y xs ys hx hy (inr h) (inr g) =
        let e = All-Has _ y xs hx.0 g in
        let f = All-Has _ x ys hy.0 h in absurd (cc (O.irreflexive x, O.transitive x y x e f))

    rest_of :
        (x : A) (xs ys : List A) (z : A)
        → All (λ y. less x y ≡ true) xs
        → Has z (x ∷ ys)
        → Has z xs
        → Has z ys
    rest_of x xs ys z h (inr g) f = g
    rest_of x xs ys z h (inl e) f = absurd (cc (e, O.irreflexive x, All-Has _ z xs h f))

    sorted_unique :
        (l k : List A)
        → Ascending l
        → Ascending k
        → ((z : A) → Has z l → Has z k)
        → ((z : A) → Has z k → Has z l)
        → l ≡ k
    sorted_unique [] [] hl hk f g = refl
    sorted_unique [] (y ∷ ys) hl hk f g = absurd (g y (inl refl))
    sorted_unique (x ∷ xs) [] hl hk f g = absurd (f x (inl refl))
    sorted_unique (x ∷ xs) (y ∷ ys) hl hk f g =
        let e = first_of x y xs ys hl hk (f x (inl refl)) (g y (inl refl)) in
        let rest =
          sorted_unique xs ys hl.1 hk.1
            (λ z h. rest_of x xs ys z hl.0 (subst (λ w. Has z (w ∷ ys)) (sym e) (f z (inr h))) h)
            (λ z h. rest_of y ys xs z hk.0 (subst (λ w. Has z (w ∷ xs)) e (g z (inr h))) h) in
        ap (λ w. w ∷ xs) e ∙ ap (λ w. y ∷ w) rest

    -- The sorted list does not depend on the order of the elements.
    pub sort_same :
        (l k : List A)
        → AllDistinct l
        → AllDistinct k
        → ((z : A) → Has z l → Has z k)
        → ((z : A) → Has z k → Has z l)
        → sort l ≡ sort k
    sort_same l k hl hk f g =
        sorted_unique (sort l) (sort k) (sort-Ascending l hl) (sort-Ascending k hk)
          (λ z h. sort-Has z k (f z (Has-sort z l h))) (λ z h. sort-Has z l (g z (Has-sort z k h)))

points_irreflexive : (s : List ℕ) → points_less s s ≡ false
unfolding points_less
points_irreflexive [] = refl
points_irreflexive (a ∷ s) = ground (arith, points_irreflexive s)

points_transitive :
    (s t u : List ℕ) → points_less s t ≡ true → points_less t u ≡ true → points_less s u ≡ true
unfolding points_less
points_transitive [] [] u e f = absurd (cc)
points_transitive [] (b ∷ t) [] e f = absurd (cc)
points_transitive [] (b ∷ t) (c ∷ u) e f = refl
points_transitive (a ∷ s) [] u e f = absurd (cc)
points_transitive (a ∷ s) (b ∷ t) [] e f = absurd (cc)
points_transitive (a ∷ s) (b ∷ t) (c ∷ u) e f = ground (arith, points_transitive s t u)

points_total : (s t : List ℕ) → points_less s t ≡ false → points_less t s ≡ false → s ≡ t
unfolding points_less
points_total [] [] e f = refl
points_total [] (b ∷ t) e f = absurd (cc)
points_total (a ∷ s) [] e f = absurd (cc)
points_total (a ∷ s) (b ∷ t) e f =
    let same : a ≡ b = ground arith in
    let rest = points_total s t (ground arith) (ground arith) in
    ap (λ i. i ∷ s) same ∙ ap (λ l. b ∷ l) rest

points_injective : (s t : String) → points s ≡ points t → s ≡ t
points_injective String.[] String.[] e = refl
points_injective String.[] (String.◌∷◌ d t) e = absurd (cc)
points_injective (String.◌∷◌ c s) String.[] e = absurd (cc)
points_injective (String.◌∷◌ c s) (String.◌∷◌ d t) e =
    let heads : code c ≡ code d = cc in
    let tails : points s ≡ points t = cc in
    ap (λ b. String.◌∷◌ b s) (Char-path c d heads)
    ∙ ap (λ r. String.◌∷◌ d r) (points_injective s t tails)

pub text_less-IsStrictOrder : IsStrictOrder text_less
text_less-IsStrictOrder = record {
  irreflexive = λ s. points_irreflexive (points s);
  transitive = λ s t u e f. points_transitive (points s) (points t) (points u) e f;
  total = λ s t e f. points_injective s t (points_total (points s) (points t) e f);
}
