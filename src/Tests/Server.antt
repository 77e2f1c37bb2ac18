-- ===== src/Tests/Server.antt =====
-- The Redis server of the tests: the commands as functions of the data.
use crunchytask.Common.{
  ℤ, leb_ℤ, ◌≡◌, Bool, true, false, List, [], ◌∷◌, Option, none, some, is_some, if◌then◌else◌,
  lookup, insert, remove, All, refl, ap, arith, Bool-cases, inl, inr,
}
use mathlib.Core.Path.{subst}
use crunchytask.Outside.Redis.{
  Data, Redis, ListKey, list_at, put_list, documents_at, put_documents, texts_at, put_texts,
  split_last, contains, erase_first, score_of, erase_member, IsLater,
}
use crunchytask.Tests.Json.{Json, same, same_iff}

abbrev pub Store : Type 0
Store = Data ℤ Json

abbrev popped : ListKey → Store → Option (List Json × Json) → Option (Json × Store)
popped k d none = none
popped k d (some (front, t)) = some (t, put_list k front d)

abbrev is_due : ℤ → Option ℤ → Bool
is_due now none = false
is_due now (some s) = leb_ℤ s now

-- The first member of `z` that is due by its score in `all`.
unfoldable pub due_in : ℤ → List (Json × ℤ) → List (Json × ℤ) → Option Json
due_in now all [] = none
due_in now all (e ∷ z) =
    let rest = due_in now all z in if is_due now (score_of same e.0 all) then some e.0 else rest

not_due : (now : ℤ) (o : Option ℤ) → is_due now o ≡ false → IsLater leb_ℤ now o
not_due now none e = tt
not_due now (some s) e = e

is_due-parts :
    (now : ℤ) (o : Option ℤ) → is_due now o ≡ true → (s : ℤ) × (o ≡ some s) × (leb_ℤ s now ≡ true)
is_due-parts now none e = absurd (cc)
is_due-parts now (some s) e = (s, refl, e)

pub due_in-none :
    (now : ℤ) (all z : List (Json × ℤ))
    → due_in now all z ≡ none
    → All (λ (e : Json × ℤ). IsLater leb_ℤ now (score_of same e.0 all)) z
unfolding due_in
due_in-none now all [] e = tt
due_in-none now all (x ∷ z) e = elim (Bool-cases (is_due now (score_of same x.0 all))) [
  | inl q ↦ absurd (ground arith)
  | inr q ↦ (not_due now (score_of same x.0 all) q, due_in-none now all z (ground arith))
]

picked :
    (b : Bool) (a t : Json) (rest : Option Json)
    → b ≡ true
    → (if b then some a else rest) ≡ some t
    → a ≡ t
picked true a t rest q e = cc
picked false a t rest q e = absurd (cc)

pub due_in-some :
    (now : ℤ) (all z : List (Json × ℤ)) (t : Json)
    → due_in now all z ≡ some t
    → (s : ℤ) × (score_of same t all ≡ some s) × (leb_ℤ s now ≡ true)
unfolding due_in
due_in-some now all [] t e = absurd (cc)
due_in-some now all (x ∷ z) t e = elim (Bool-cases (is_due now (score_of same x.0 all))) [
  | inl q ↦
      let (s, found, due) = is_due-parts now (score_of same x.0 all) q in
      (s, subst (λ u. score_of same u all ≡ some s) (picked _ x.0 t _ q e) found, due)
  | inr q ↦ due_in-some now all z t (ground arith)
]

abbrev pub server : Redis ℤ Json leb_ℤ
server = record {
  same = same;
  same_iff = same_iff;
  lpush = λ k t d. put_list k (t ∷ list_at k d) d;
  rpop = λ k d. popped k d (split_last (list_at k d));
  lrem = λ k t d. (contains same t (list_at k d), put_list k (erase_first same t (list_at k d)) d);
  lrange = λ k d. list_at k d;
  zadd = λ s t d. record d { delayed = (t, s) ∷ erase_member same t d.delayed };
  zrem = λ t d.
      (is_some (score_of same t d.delayed), record d { delayed = erase_member same t d.delayed });
  first_due = λ now d. due_in now d.delayed d.delayed;
  hset_document = λ k f t d. put_documents k (insert f t (documents_at k d)) d;
  hget_document = λ k f d. lookup f (documents_at k d);
  hdel_document = λ k f d.
      (is_some (lookup f (documents_at k d)), put_documents k (remove f (documents_at k d)) d);
  hset_text = λ k f s d. put_texts k (insert f s (texts_at k d)) d;
  hget_text = λ k f d. lookup f (texts_at k d);
  hdel_text = λ k f d. (is_some (lookup f (texts_at k d)), put_texts k (remove f (texts_at k d)) d);
  lpush_lem = λ k t d. refl;
  rpop_none = λ k d e. ap (popped k d) e;
  rpop_some = λ k d front t e. ap (popped k d) e;
  lrem_lem = λ k t d. refl;
  lrange_lem = λ k d. refl;
  zadd_lem = λ s t d. refl;
  zrem_lem = λ t d. refl;
  first_due_none = λ now d e. due_in-none now d.delayed d.delayed e;
  first_due_some = λ now d t e. due_in-some now d.delayed d.delayed t e;
  hset_document_lem = λ k f t d. refl;
  hget_document_lem = λ k f d. refl;
  hdel_document_lem = λ k f d. refl;
  hset_text_lem = λ k f s d. refl;
  hget_text_lem = λ k f d. refl;
  hdel_text_lem = λ k f d. refl;
}
