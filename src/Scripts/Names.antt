-- ===== src/Scripts/Names.antt =====
-- Every text that the store holds for a worker names its task: the invariant, and the commands.
use crunchytask.Common.{
  arith, String, ◌≡◌, inl, inr, Bool, true, List, [], ◌∷◌, Option, none, some, All, Dict, lookup,
  lookup-insert_cases, lookup-remove, Bool-cases,
}
use mathlib.Core.Path.{subst, subst₂}
use crunchytask.Outside.Floats.{Floats}
use crunchytask.Outside.Lua.{Lua}
use crunchytask.Outside.Redis.{
  Data, Redis, pending_key, dead_key, running_key, results_key, TextKey, status_key, failures_key,
  put_texts, split_last, put_first, erase_member, erase_first,
}
use crunchytask.Scripts.Copies.{HasId}

module _ {A : Type 0} (P : A → Type 0) where
  abbrev AllParts : Option (List A × A) → Type 0
  AllParts none = Unit
  AllParts (some (front, last)) = All P front × P last

  all_put_first :
      (x : A) (o : Option (List A × A)) → P x → AllParts o → AllParts (some (put_first x o))
  all_put_first x none p q = (tt, p)
  all_put_first x (some (front, last)) p q = ((p, q.0), q.1)

  all_parts : (l : List A) → All P l → AllParts (split_last l)
  all_parts [] h = tt
  all_parts (x ∷ xs) h = all_put_first x (split_last xs) h.0 (all_parts xs h.1)

  pub All-split_last :
      (l front : List A) (t : A) → split_last l ≡ some (front, t) → All P l → All P front × P t
  All-split_last l front t e h = subst AllParts e (all_parts l h)

module _ {Double Text : Type 0} (same : Text → Text → Bool) (P : Text → Type 0) where
  All-erase_member :
      (t : Text) (z : List (Text × Double))
      → All (λ e. P e.0) z
      → All (λ e. P e.0) (erase_member same t z)
  unfolding erase_member
  All-erase_member t [] h = tt
  All-erase_member t ((x, s) ∷ z) h = elim (Bool-cases (same x t)) [
    | inl e ↦ rw e (All-erase_member t z h.1)
    | inr e ↦ rw e (h.0, All-erase_member t z h.1)
  ]

module _ {A : Type 0} (same : A → A → Bool) (P : A → Type 0) where
  All-erase_first : (t : A) (l : List A) → All P l → All P (erase_first same t l)
  unfolding erase_first
  All-erase_first t [] h = tt
  All-erase_first t (x ∷ l) h = elim (Bool-cases (same x t)) [
    | inl e ↦ rw e h.1
    | inr e ↦ rw e (h.0, All-erase_first t l h.1)
  ]

module _ (F : Floats) {Text : Type 0} (L : Lua F.Double Text) (R : Redis F.Double Text F.leb) where
  open F use {Double}
  open L use {Value, decode, encodable, is_table, of_text, argument, argument-of_text, index}
  open R use {
    same, lpush, zadd, zrem, hset_document, hdel_document, hset_text, hdel_text, lpush_lem,
    zadd_lem, zrem_lem, hset_document_lem, hdel_document_lem, hset_text_lem, hdel_text_lem,
  }

  abbrev pub IsNamed : Text → Type 0
  IsNamed t = (id : String) × HasId F L R id t

  -- The table of the document, if it is one, can be encoded again.
  abbrev pub IsEncodable : Text → Type 0
  IsEncodable t = (v : Value) → decode t ≡ some v → is_table v ≡ true → encodable v ≡ true

  pub HasId-IsEncodable : (id : String) (t : Text) → HasId F L R id t → IsEncodable t
  HasId-IsEncodable id t h v e k = cc (h.decoded, h.is_encodable, e)

  -- Pending and delayed texts name a task, dead texts can be encoded again, and a lease is held under the name of its task.
  pub record NamesTasks (d : Data Double Text) : Type 0 where
    pub pending_named : All IsNamed d.pending
    pub delayed_named : All (λ (e : Text × Double). IsNamed e.0) d.delayed
    pub dead_encodable : All IsEncodable d.dead
    pub leases_named : (f : String) (t : Text) → lookup f d.running ≡ some t → HasId F L R f t

  of_text_injective : (a b : String) → of_text a ≡ of_text b → a ≡ b
  of_text_injective a b e = cc (argument-of_text a, argument-of_text b, e)

  -- A document names one task.
  pub HasId-unique : (a b : String) (t : Text) → HasId F L R a t → HasId F L R b t → a ≡ b
  HasId-unique a b t h k = of_text_injective a b (cc (h.decoded, k.decoded, h.named, k.named))

  names_texts :
      (k : TextKey) (m : Dict String) {d : Data Double Text}
      → NamesTasks d
      → NamesTasks (put_texts k m d)
  names_texts status_key m h = record {
    pending_named = h.pending_named;
    delayed_named = h.delayed_named;
    dead_encodable = h.dead_encodable;
    leases_named = h.leases_named;
  }
  names_texts failures_key m h = record {
    pending_named = h.pending_named;
    delayed_named = h.delayed_named;
    dead_encodable = h.dead_encodable;
    leases_named = h.leases_named;
  }

  pub NamesTasks-hset_text :
      (k : TextKey) (f s : String) (d : Data Double Text)
      → NamesTasks d
      → NamesTasks (hset_text k f s d)
  NamesTasks-hset_text k f s d h = rw (hset_text_lem k f s d) (names_texts k _ h)

  pub NamesTasks-hdel_text :
      (k : TextKey) (f : String) (d : Data Double Text)
      → NamesTasks d
      → NamesTasks (hdel_text k f d).1
  NamesTasks-hdel_text k f d h = rw (hdel_text_lem k f d) (names_texts k _ h)

  pub NamesTasks-hset_results :
      (f : String) (t : Text) (d : Data Double Text)
      → NamesTasks d
      → NamesTasks (hset_document results_key f t d)
  NamesTasks-hset_results f t d h = rw (hset_document_lem results_key f t d) (record {
    pending_named = h.pending_named;
    delayed_named = h.delayed_named;
    dead_encodable = h.dead_encodable;
    leases_named = h.leases_named;
  })

  pub NamesTasks-lpush_pending :
      (t : Text) (d : Data Double Text)
      → IsNamed t
      → NamesTasks d
      → NamesTasks (lpush pending_key t d)
  NamesTasks-lpush_pending t d n h = rw (lpush_lem pending_key t d) (record {
    pending_named = (n, h.pending_named);
    delayed_named = h.delayed_named;
    dead_encodable = h.dead_encodable;
    leases_named = h.leases_named;
  })

  pub NamesTasks-lpush_dead :
      (t : Text) (d : Data Double Text)
      → IsEncodable t
      → NamesTasks d
      → NamesTasks (lpush dead_key t d)
  NamesTasks-lpush_dead t d n h = rw (lpush_lem dead_key t d) (record {
    pending_named = h.pending_named;
    delayed_named = h.delayed_named;
    dead_encodable = (n, h.dead_encodable);
    leases_named = h.leases_named;
  })

  pub NamesTasks-lrem_dead :
      (t : Text) (d : Data Double Text) → NamesTasks d → NamesTasks (R.lrem dead_key t d).1
  NamesTasks-lrem_dead t d h = rw (R.lrem_lem dead_key t d) (record {
    pending_named = h.pending_named;
    delayed_named = h.delayed_named;
    dead_encodable = All-erase_first same IsEncodable t d.dead h.dead_encodable;
    leases_named = h.leases_named;
  })

  pub NamesTasks-hset_running :
      (f : String) (t : Text) (d : Data Double Text)
      → HasId F L R f t
      → NamesTasks d
      → NamesTasks (hset_document running_key f t d)
  NamesTasks-hset_running f t d n h = rw (hset_document_lem running_key f t d) (record {
    pending_named = h.pending_named;
    delayed_named = h.delayed_named;
    dead_encodable = h.dead_encodable;
    leases_named = λ g u e. elim (lookup-insert_cases f g t u d.running e) [
      | inl (p, q) ↦ subst₂ (λ i v. HasId F L R i v) p q n
      | inr old ↦ h.leases_named g u old
    ];
  })

  pub NamesTasks-hdel_running :
      (f : String) (d : Data Double Text)
      → NamesTasks d
      → NamesTasks (hdel_document running_key f d).1
  NamesTasks-hdel_running f d h = rw (hdel_document_lem running_key f d) (record {
    pending_named = h.pending_named;
    delayed_named = h.delayed_named;
    dead_encodable = h.dead_encodable;
    leases_named = λ g u e. h.leases_named g u (ground (arith, lookup-remove f g d.running));
  })

  pub NamesTasks-zrem : (t : Text) (d : Data Double Text) → NamesTasks d → NamesTasks (zrem t d).1
  NamesTasks-zrem t d h = rw (zrem_lem t d) (record {
    pending_named = h.pending_named;
    delayed_named = All-erase_member same IsNamed t d.delayed h.delayed_named;
    dead_encodable = h.dead_encodable;
    leases_named = h.leases_named;
  })

  pub NamesTasks-zadd :
      (s : Double) (t : Text) (d : Data Double Text)
      → IsNamed t
      → NamesTasks d
      → NamesTasks (zadd s t d)
  NamesTasks-zadd s t d n h = rw (zadd_lem s t d) (record {
    pending_named = h.pending_named;
    delayed_named = (n, All-erase_member same IsNamed t d.delayed h.delayed_named);
    dead_encodable = h.dead_encodable;
    leases_named = h.leases_named;
  })

  pub NamesTasks-rpop :
      (d : Data Double Text) (front : List Text) (t : Text)
      → split_last d.pending ≡ some (front, t)
      → NamesTasks d
      → NamesTasks (record d { pending = front }) × IsNamed t
  NamesTasks-rpop d front t e h =
      let (rest, n) = All-split_last IsNamed d.pending front t e h.pending_named in
      (
        record {
          pending_named = rest;
          delayed_named = h.delayed_named;
          dead_encodable = h.dead_encodable;
          leases_named = h.leases_named;
        },
        n,
      )
