-- ===== src/Scripts/Copies.antt =====
-- Where the copies of a task are, and how each command of the store moves them.
use crunchytask.Common.{
  String, ◌≡◌, ◌⊎◌, inl, inr, Bool, true, List, [], ◌∷◌, ◌==◌, Option, none, some, Any, Dict,
  lookup, lookup-insert, lookup-remove, eq_iff, eq_refl, Bool-cases, refl,
}
use mathlib.Core.Path.{subst}
use crunchytask.Outside.Floats.{Floats}
use crunchytask.Outside.Lua.{Lua}
use crunchytask.Outside.Redis.{
  Data, Redis, ListKey, pending_key, dead_key, running_key, results_key, TextKey, status_key,
  failures_key, list_at, put_list, put_texts, split_last, put_first, erase_first, erase_member,
}

module _ {A : Type 0} (P : A → Type 0) where
  abbrev InParts : Option (List A × A) → Type 0
  InParts none = ⊥
  InParts (some (front, last)) = Any P front ⊎ P last

  in_put_first :
      (x : A) (o : Option (List A × A)) → P x ⊎ InParts o → InParts (some (put_first x o))
  in_put_first x none (inl p) = inr p
  in_put_first x none (inr q) = elim q [ ]
  in_put_first x (some (front, last)) (inl p) = inl (inl p)
  in_put_first x (some (front, last)) (inr (inl q)) = inl (inr q)
  in_put_first x (some (front, last)) (inr (inr q)) = inr q

  in_parts : (l : List A) → Any P l → InParts (split_last l)
  in_parts [] h = h
  in_parts (x ∷ xs) (inl p) = in_put_first x (split_last xs) (inl p)
  in_parts (x ∷ xs) (inr q) = in_put_first x (split_last xs) (inr (in_parts xs q))

  Any-split_last :
      (l front : List A) (t : A) → split_last l ≡ some (front, t) → Any P l → Any P front ⊎ P t
  Any-split_last l front t e h = subst InParts e (in_parts l h)

module _ {A : Type 0} (same : A → A → Bool) (same_eq : (a b : A) → same a b ≡ true → a ≡ b)
    (P : A → Type 0) where
  Any-erase_first : (t : A) (l : List A) → Any P l → Any P (erase_first same t l) ⊎ P t
  unfolding erase_first
  Any-erase_first t [] h = elim h [ ]
  Any-erase_first t (x ∷ xs) (inl p) = elim (Bool-cases (same x t)) [
    | inl e ↦ inr (subst P (same_eq x t e) p)
    | inr e ↦ rw e (inl (inl p))
  ]
  Any-erase_first t (x ∷ xs) (inr p) = elim (Bool-cases (same x t)) [
    | inl e ↦ rw e (inl p)
    | inr e ↦ rw e (elim (Any-erase_first t xs p) [ inl q ↦ inl (inr q) | inr q ↦ inr q ])
  ]

module _ {Double Text : Type 0} (same : Text → Text → Bool)
    (same_eq : (a b : Text) → same a b ≡ true → a ≡ b) (P : Text → Type 0) where
  Any-erase_member :
      (t : Text) (z : List (Text × Double))
      → Any (λ e. P e.0) z
      → Any (λ e. P e.0) (erase_member same t z) ⊎ P t
  unfolding erase_member
  Any-erase_member t [] h = elim h [ ]
  Any-erase_member t ((x, s) ∷ z) (inl p) = elim (Bool-cases (same x t)) [
    | inl e ↦ inr (subst P (same_eq x t e) p)
    | inr e ↦ rw e (inl (inl p))
  ]
  Any-erase_member t ((x, s) ∷ z) (inr p) = elim (Any-erase_member t z p) [
    | inl q ↦ elim (Bool-cases (same x t)) [ inl e ↦ rw e (inl q) | inr e ↦ rw e (inl (inr q)) ]
    | inr q ↦ inr q
  ]

module _ (F : Floats) {Text : Type 0} (L : Lua F.Double Text) (R : Redis F.Double Text F.leb) where
  open F use {Double}
  open L use {Value, decode, encodable, encode, is_table, index, of_text, decode-encode}
  open R use {
    same, same_iff, lpush, rpop, lrem, zadd, zrem, hset_document, hdel_document, hset_text,
    hdel_text, lpush_lem, rpop_some, lrem_lem, zadd_lem, zrem_lem, hset_document_lem,
    hdel_document_lem, hset_text_lem, hdel_text_lem,
  }

  -- The document is a table with this identifier, which can be encoded again.
  pub record HasId (id : String) (text : Text) : Type 0 where
    pub table : Value
    pub decoded : decode text ≡ some table
    pub is_a_table : is_table table ≡ true
    pub is_encodable : encodable table ≡ true
    pub named : index table "id" ≡ of_text id

  -- A copy of the task is in one of the four places where the store keeps tasks.
  pub data Present (id : String) (d : Data Double Text) : Type 0 where
    in_pending : Any (HasId id) d.pending → Present id d
    in_delayed : Any (λ (e : Text × Double). HasId id e.0) d.delayed → Present id d
    in_dead : Any (HasId id) d.dead → Present id d
    in_running : (t : Text) → lookup id d.running ≡ some t → HasId id t → Present id d

  pub HasId-encode :
      (id : String) (v : Value)
      → is_table v ≡ true
      → encodable v ≡ true
      → index v "id" ≡ of_text id
      → HasId id (encode v)
  HasId-encode id v h c e =
      let (w, d, t, s, k) = decode-encode v h c in
      record { table = w; decoded = d; is_a_table = t; is_encodable = s; named = k "id" id e }

  same_eq : (a b : Text) → same a b ≡ true → a ≡ b
  same_eq a b e = (same_iff a b).0 e

  module _ {id : String} where
    keep_texts :
        (k : TextKey) (m : Dict String) {d : Data Double Text}
        → Present id d
        → Present id (put_texts k m d)
    keep_texts status_key m (in_pending p) = in_pending p
    keep_texts status_key m (in_delayed p) = in_delayed p
    keep_texts status_key m (in_dead p) = in_dead p
    keep_texts status_key m (in_running t e p) = in_running t e p
    keep_texts failures_key m (in_pending p) = in_pending p
    keep_texts failures_key m (in_delayed p) = in_delayed p
    keep_texts failures_key m (in_dead p) = in_dead p
    keep_texts failures_key m (in_running t e p) = in_running t e p

    pub Present-hset_text :
        (k : TextKey) (f s : String) (d : Data Double Text)
        → Present id d
        → Present id (hset_text k f s d)
    Present-hset_text k f s d h = rw (hset_text_lem k f s d) (keep_texts k _ h)

    pub Present-hdel_text :
        (k : TextKey) (f : String) (d : Data Double Text)
        → Present id d
        → Present id (hdel_text k f d).1
    Present-hdel_text k f d h = rw (hdel_text_lem k f d) (keep_texts k _ h)

    keep_pushed :
        (k : ListKey) (t : Text) (d : Data Double Text)
        → Present id d
        → Present id (put_list k (t ∷ list_at k d) d)
    keep_pushed pending_key t d (in_pending p) = in_pending (inr p)
    keep_pushed pending_key t d (in_delayed p) = in_delayed p
    keep_pushed pending_key t d (in_dead p) = in_dead p
    keep_pushed pending_key t d (in_running u e p) = in_running u e p
    keep_pushed dead_key t d (in_pending p) = in_pending p
    keep_pushed dead_key t d (in_delayed p) = in_delayed p
    keep_pushed dead_key t d (in_dead p) = in_dead (inr p)
    keep_pushed dead_key t d (in_running u e p) = in_running u e p

    pub Present-lpush :
        (k : ListKey) (t : Text) (d : Data Double Text) → Present id d → Present id (lpush k t d)
    Present-lpush k t d h = rw (lpush_lem k t d) (keep_pushed k t d h)

    new_pushed :
        (k : ListKey) (t : Text) (d : Data Double Text)
        → HasId id t
        → Present id (put_list k (t ∷ list_at k d) d)
    new_pushed pending_key t d h = in_pending (inl h)
    new_pushed dead_key t d h = in_dead (inl h)

    pub lpush-Present :
        (k : ListKey) (t : Text) (d : Data Double Text) → HasId id t → Present id (lpush k t d)
    lpush-Present k t d h = rw (lpush_lem k t d) (new_pushed k t d h)

    -- A lease on another task, or on this one with a copy of it.
    pub Present-hset_running :
        (f : String) (t : Text) (d : Data Double Text)
        → HasId f t
        → Present id d
        → Present id (hset_document running_key f t d)
    Present-hset_running f t d n (in_pending p) =
        rw (hset_document_lem running_key f t d) (in_pending p)
    Present-hset_running f t d n (in_delayed p) =
        rw (hset_document_lem running_key f t d) (in_delayed p)
    Present-hset_running f t d n (in_dead p) = rw (hset_document_lem running_key f t d) (in_dead p)
    Present-hset_running f t d n (in_running u e p) =
        rw (hset_document_lem running_key f t d) (elim (Bool-cases (f == id)) [
          | inl q ↦
              in_running t (rw (lookup-insert f id t d.running, q) refl)
                (subst (λ j. HasId j t) ((eq_iff f id).0 q) n)
          | inr q ↦ in_running u (rw (lookup-insert f id t d.running, q) e) p
        ])

    keep_results :
        (m : Dict Text) (d : Data Double Text)
        → Present id d
        → Present id (record d { results = m })
    keep_results m d (in_pending p) = in_pending p
    keep_results m d (in_delayed p) = in_delayed p
    keep_results m d (in_dead p) = in_dead p
    keep_results m d (in_running t e p) = in_running t e p

    pub Present-hset_results :
        (f : String) (t : Text) (d : Data Double Text)
        → Present id d
        → Present id (hset_document results_key f t d)
    Present-hset_results f t d h = rw (hset_document_lem results_key f t d) (keep_results _ d h)

    -- What a removed lease held is in the hands of the script.
    pub Present-hdel_running :
        (f : String) (d : Data Double Text)
        → Present id d
        → Present id (hdel_document running_key f d).1
          ⊎ ((f ≡ id) × (t : Text) × (lookup f d.running ≡ some t) × HasId id t)
    Present-hdel_running f d (in_pending p) =
        inl (rw (hdel_document_lem running_key f d) (in_pending p))
    Present-hdel_running f d (in_delayed p) =
        inl (rw (hdel_document_lem running_key f d) (in_delayed p))
    Present-hdel_running f d (in_dead p) = inl (rw (hdel_document_lem running_key f d) (in_dead p))
    Present-hdel_running f d (in_running t e p) = elim (Bool-cases (f == id)) [
      | inl q ↦ let s : f ≡ id = (eq_iff f id).0 q in inr (s, t, rw s e, p)
      | inr q ↦ inl (
          rw (hdel_document_lem running_key f d)
            (in_running t (rw (lookup-remove f id d.running, q) e) p))
    ]

    pub Present-zrem :
        (t : Text) (d : Data Double Text) → Present id d → Present id (zrem t d).1 ⊎ HasId id t
    Present-zrem t d (in_pending p) = inl (rw (zrem_lem t d) (in_pending p))
    Present-zrem t d (in_delayed p) =
        elim (Any-erase_member same same_eq (HasId id) t d.delayed p) [
          | inl q ↦ inl (rw (zrem_lem t d) (in_delayed q))
          | inr q ↦ inr q
        ]
    Present-zrem t d (in_dead p) = inl (rw (zrem_lem t d) (in_dead p))
    Present-zrem t d (in_running u e p) = inl (rw (zrem_lem t d) (in_running u e p))

    pub Present-zadd :
        (s : Double) (t : Text) (d : Data Double Text) → Present id d → Present id (zadd s t d)
    Present-zadd s t d (in_pending p) = rw (zadd_lem s t d) (in_pending p)
    Present-zadd s t d (in_delayed p) =
        rw (zadd_lem s t d) (elim (Any-erase_member same same_eq (HasId id) t d.delayed p) [
          | inl q ↦ in_delayed (inr q)
          | inr q ↦ in_delayed (inl q)
        ])
    Present-zadd s t d (in_dead p) = rw (zadd_lem s t d) (in_dead p)
    Present-zadd s t d (in_running u e p) = rw (zadd_lem s t d) (in_running u e p)

    pub zadd-Present :
        (s : Double) (t : Text) (d : Data Double Text) → HasId id t → Present id (zadd s t d)
    zadd-Present s t d h = rw (zadd_lem s t d) (in_delayed (inl h))

    pub Present-lrem :
        (t : Text) (d : Data Double Text)
        → Present id d
        → Present id (lrem dead_key t d).1 ⊎ HasId id t
    Present-lrem t d (in_pending p) = inl (rw (lrem_lem dead_key t d) (in_pending p))
    Present-lrem t d (in_delayed p) = inl (rw (lrem_lem dead_key t d) (in_delayed p))
    Present-lrem t d (in_dead p) = elim (Any-erase_first same same_eq (HasId id) t d.dead p) [
      | inl q ↦ inl (rw (lrem_lem dead_key t d) (in_dead q))
      | inr q ↦ inr q
    ]
    Present-lrem t d (in_running u e p) = inl (rw (lrem_lem dead_key t d) (in_running u e p))

    -- The next task leaves the list for the hands of the script.
    pub Present-rpop :
        (d : Data Double Text) (front : List Text) (t : Text)
        → split_last d.pending ≡ some (front, t)
        → Present id d
        → Present id (record d { pending = front }) ⊎ HasId id t
    Present-rpop d front t e (in_pending p) =
        elim (Any-split_last (HasId id) d.pending front t e p) [
          | inl q ↦ inl (in_pending q)
          | inr q ↦ inr q
        ]
    Present-rpop d front t e (in_delayed p) = inl (in_delayed p)
    Present-rpop d front t e (in_dead p) = inl (in_dead p)
    Present-rpop d front t e (in_running u h p) = inl (in_running u h p)

    pub hset_running-Present :
        (t : Text) (d : Data Double Text)
        → HasId id t
        → Present id (hset_document running_key id t d)
    hset_running-Present t d h =
        rw (hset_document_lem running_key id t d)
          (in_running t (rw (lookup-insert id id t d.running, eq_refl id)) h)
