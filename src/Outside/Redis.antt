-- ===== src/Outside/Redis.antt =====
-- The Redis server: the contents of the keys that the program uses, and the commands on them.
-- Each key holds one type of value, as the program writes it; the constants of
-- include/taskqueue/redis_keys.h are the constructors of the three types of keys, and the sorted
-- set is the one key `taskq:delayed`.
use crunchytask.Common.{
  ◌≡◌, ℤ, String, Bool, true, false, List, [], ◌∷◌, ◌↔◌, Option, none, some, if◌then◌else◌, Dict,
  lookup, insert, remove, All, is_some,
}

-- The left end of a list is its head. A sorted set is its members with their scores.
pub record Data (Double Text : Type 0) : Type 0 where
  pub pending : List Text
  pub dead : List Text
  pub delayed : List (Text × Double)
  pub running : Dict Text
  pub results : Dict Text
  pub statuses : Dict String
  pub failures : Dict String
  pub metrics : Dict ℤ

pub data ListKey : Type 0 where
  pending_key dead_key : ListKey

pub data DocumentKey : Type 0 where
  running_key results_key : DocumentKey

pub data TextKey : Type 0 where
  status_key failures_key : TextKey

module _ {Double Text : Type 0} where
  abbrev pub list_at : ListKey → Data Double Text → List Text
  list_at pending_key d = d.pending
  list_at dead_key d = d.dead

  abbrev pub put_list : ListKey → List Text → Data Double Text → Data Double Text
  put_list pending_key l d = record d { pending = l }
  put_list dead_key l d = record d { dead = l }

  abbrev pub documents_at : DocumentKey → Data Double Text → Dict Text
  documents_at running_key d = d.running
  documents_at results_key d = d.results

  abbrev pub put_documents : DocumentKey → Dict Text → Data Double Text → Data Double Text
  put_documents running_key m d = record d { running = m }
  put_documents results_key m d = record d { results = m }

  abbrev pub texts_at : TextKey → Data Double Text → Dict String
  texts_at status_key d = d.statuses
  texts_at failures_key d = d.failures

  abbrev pub put_texts : TextKey → Dict String → Data Double Text → Data Double Text
  put_texts status_key m d = record d { statuses = m }
  put_texts failures_key m d = record d { failures = m }

module _ {A : Type 0} where
  abbrev pub put_first : A → Option (List A × A) → List A × A
  put_first x none = ([], x)
  put_first x (some (front, last)) = (x ∷ front, last)

  -- A list without its last element, and that element.
  abbrev pub split_last : List A → Option (List A × A)
  split_last [] = none
  split_last (x ∷ xs) = some (put_first x (split_last xs))

module _ {Text : Type 0} (same : Text → Text → Bool) where
  unfoldable pub contains : Text → List Text → Bool
  contains t [] = false
  contains t (x ∷ xs) = let rest = contains t xs in if same x t then true else rest

  unfoldable pub erase_first : Text → List Text → List Text
  erase_first t [] = []
  erase_first t (x ∷ xs) = let rest = erase_first t xs in if same x t then xs else x ∷ rest

module _ {Double Text : Type 0} (same : Text → Text → Bool) where
  unfoldable pub score_of : Text → List (Text × Double) → Option Double
  score_of t [] = none
  score_of t ((x, s) ∷ z) = let rest = score_of t z in if same x t then some s else rest

  unfoldable pub erase_member : Text → List (Text × Double) → List (Text × Double)
  erase_member t [] = []
  erase_member t ((x, s) ∷ z) =
      let rest = erase_member t z in if same x t then rest else (x, s) ∷ rest

-- The score of a member is past `now`.
abbrev pub IsLater : {Double : Type 0} → (Double → Double → Bool) → Double → Option Double → Type 0
IsLater leq now none = Unit
IsLater leq now (some s) = leq s now ≡ false

-- The commands, with what the documentation says of them. The reply of a command that removes is
-- whether it removed something.
pub record Redis (Double Text : Type 0) (leq : Double → Double → Bool) : Type 0 where
  pub same : Text → Text → Bool
  pub same_iff : (a b : Text) → (same a b ≡ true) ↔ (a ≡ b)
  pub lpush : ListKey → Text → Data Double Text → Data Double Text
  pub rpop : ListKey → Data Double Text → Option (Text × Data Double Text)
  -- `LREM key 1 text`
  pub lrem : ListKey → Text → Data Double Text → Bool × Data Double Text
  -- `LRANGE key 0 -1`
  pub lrange : ListKey → Data Double Text → List Text
  pub zadd : Double → Text → Data Double Text → Data Double Text
  pub zrem : Text → Data Double Text → Bool × Data Double Text
  -- `ZRANGEBYSCORE taskq:delayed -inf now LIMIT 0 1`
  pub first_due : Double → Data Double Text → Option Text
  pub hset_document : DocumentKey → String → Text → Data Double Text → Data Double Text
  pub hget_document : DocumentKey → String → Data Double Text → Option Text
  pub hdel_document : DocumentKey → String → Data Double Text → Bool × Data Double Text
  pub hset_text : TextKey → String → String → Data Double Text → Data Double Text
  pub hget_text : TextKey → String → Data Double Text → Option String
  pub hdel_text : TextKey → String → Data Double Text → Bool × Data Double Text
  pub lpush_lem :
      (k : ListKey) (t : Text) (d : Data Double Text) → lpush k t d ≡ put_list k (t ∷ list_at k d) d
  pub rpop_none :
      (k : ListKey) (d : Data Double Text) → split_last (list_at k d) ≡ none → rpop k d ≡ none
  pub rpop_some :
      (k : ListKey) (d : Data Double Text) (front : List Text) (t : Text)
      → split_last (list_at k d) ≡ some (front, t)
      → rpop k d ≡ some (t, put_list k front d)
  pub lrem_lem :
      (k : ListKey) (t : Text) (d : Data Double Text)
      → lrem k t d
        ≡ (contains same t (list_at k d), put_list k (erase_first same t (list_at k d)) d)
  pub lrange_lem : (k : ListKey) (d : Data Double Text) → lrange k d ≡ list_at k d
  pub zadd_lem :
      (s : Double) (t : Text) (d : Data Double Text)
      → zadd s t d ≡ record d { delayed = (t, s) ∷ erase_member same t d.delayed }
  pub zrem_lem :
      (t : Text) (d : Data Double Text)
      → zrem t d ≡ (
        is_some (score_of same t d.delayed),
        record d { delayed = erase_member same t d.delayed },
      )
  -- No member is due, or the reply is a due member.
  pub first_due_none :
      (now : Double) (d : Data Double Text)
      → first_due now d ≡ none
      → All (λ (e : Text × Double). IsLater leq now (score_of same e.0 d.delayed)) d.delayed
  pub first_due_some :
      (now : Double) (d : Data Double Text) (t : Text)
      → first_due now d ≡ some t
      → (s : Double) × (score_of same t d.delayed ≡ some s) × (leq s now ≡ true)
  pub hset_document_lem :
      (k : DocumentKey) (f : String) (t : Text) (d : Data Double Text)
      → hset_document k f t d ≡ put_documents k (insert f t (documents_at k d)) d
  pub hget_document_lem :
      (k : DocumentKey) (f : String) (d : Data Double Text)
      → hget_document k f d ≡ lookup f (documents_at k d)
  pub hdel_document_lem :
      (k : DocumentKey) (f : String) (d : Data Double Text)
      → hdel_document k f d
        ≡ (is_some (lookup f (documents_at k d)), put_documents k (remove f (documents_at k d)) d)
  pub hset_text_lem :
      (k : TextKey) (f s : String) (d : Data Double Text)
      → hset_text k f s d ≡ put_texts k (insert f s (texts_at k d)) d
  pub hget_text_lem :
      (k : TextKey) (f : String) (d : Data Double Text) → hget_text k f d ≡ lookup f (texts_at k d)
  pub hdel_text_lem :
      (k : TextKey) (f : String) (d : Data Double Text)
      → hdel_text k f d
        ≡ (is_some (lookup f (texts_at k d)), put_texts k (remove f (texts_at k d)) d)
