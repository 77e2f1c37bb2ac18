-- ===== src/Scripts/Ends.antt =====
-- The scripts that end a task's life or begin it again: acknowledgement and revival.
use crunchytask.Common.{
  pos, String, ◌≡◌, ◌≢◌, inl, inr, Bool, true, List, [], ◌∷◌, some, All, arith, Bool-cases,
  Option-cases, refl,
}
use crunchytask.Outside.Floats.{Floats}
use crunchytask.Outside.Lua.{Lua}
use crunchytask.Outside.Redis.{
  Data, Redis, dead_key, running_key, status_key, failures_key, contains,
}
use crunchytask.Scripts.{
  decode_table, ack_script, revived_message, revive, retry_dead_items, retry_dead_task_script,
}
use crunchytask.Scripts.Copies.{
  HasId, Present-hdel_text, Present-hset_results, Present-hdel_running, Present-lrem,
}
use crunchytask.Scripts.Names.{
  IsEncodable, NamesTasks-hdel_text, NamesTasks-hset_results, NamesTasks-lrem_dead,
  NamesTasks-hdel_running,
}
use crunchytask.Scripts.NoLoss.{
  Keeps, Holds, Names, Names-set_text, Names-set_number, Names-clear, HasId-Names, Names-encode,
  push_pending, Keeps-hset_text, take,
}

module _ {Text : Type 0} (same : Text → Text → Bool)
    (same_refl : (t : Text) → same t t ≡ true) where
  contains_more :
      (x : Text) (l items : List Text)
      → All (λ j. contains same j l ≡ true) items
      → All (λ j. contains same j (x ∷ l) ≡ true) items
  unfolding contains
  contains_more x l [] h = tt
  contains_more x l (j ∷ items) h = (ground (arith, h.0), contains_more x l items h.1)

  pub contains-All : (l : List Text) → All (λ j. contains same j l ≡ true) l
  unfolding contains
  contains-All [] = tt
  contains-All (x ∷ l) = (rw (same_refl x), contains_more x l l (contains-All l))

module _ (F : Floats) {Text : Type 0} (L : Lua F.Double Text) (R : Redis F.Double Text F.leb) where
  open F use {Double, of_int}
  open L use {
    Value, decode, encode, is_table, index, of_text, equals, set_text, set_number, clear,
    eq_of_equals,
  }
  open R use {
    hset_document, hdel_document, hset_text, hdel_text, lrem, lrange, lrange_lem, lrem_lem, same,
    same_iff,
  }

  decode_table-inv :
      (t : Text) (v : Value)
      → decode_table F L R t ≡ some v
      → (decode t ≡ some v) × (is_table v ≡ true)
  unfolding decode_table
  decode_table-inv t v e = ground arith

  lrem_found :
      (t : Text) (d : Data Double Text)
      → contains same t d.dead ≡ true
      → lrem dead_key t d ≡ (true, (lrem dead_key t d).1)
  lrem_found t d e = rw (lrem_lem dead_key t d, e)

  module _ {Source : String → Type 0} where
    Keeps-hdel_text :
        (f : String) (d : Data Double Text)
        → Keeps F L R Source d
        → Keeps F L R Source (hdel_text failures_key f d).1
    Keeps-hdel_text f d h = record {
      names = NamesTasks-hdel_text F L R failures_key f d h.names;
      copies = λ id s. Present-hdel_text F L R failures_key f d (h.copies id s);
    }

  module _ {Source : String → Type 0} where
    -- Only the acknowledged task may lose a copy, and only its lease.
    pub ack_script-Keeps :
        (name : String) (t : Text) (status : String) (d : Data Double Text)
        → Keeps F L R Source d
        → Keeps F L R (λ id. Source id × (name ≢ id)) (ack_script F L R name t status d)
    unfolding ack_script
    ack_script-Keeps name t status d h =
        let k : Keeps F L R (λ id. Source id × (name ≢ id)) (hdel_document running_key name d).1 =
          record {
            names = NamesTasks-hdel_running F L R name d h.names;
            copies = λ id s. elim (Present-hdel_running F L R name d (h.copies id s.0)) [
              | inl p ↦ p
              | inr (e, _, _, _) ↦ absurd (s.1 e)
            ];
          } in
        let m = Keeps-hset_text F L R status_key name status _ k in
        Keeps-hdel_text name _ (record {
          names = NamesTasks-hset_results F L R name t _ m.names;
          copies = λ id s. Present-hset_results F L R name t _ (m.copies id s);
        })

    revive-Keeps :
        (name : String) (msg : Value) (d : Data Double Text)
        → Names F L R name msg
        → Holds F L R Source name d
        → Keeps F L R Source (revive F L R name msg (true, d)).1
    unfolding revive revived_message
    revive-Keeps name msg d n k =
        let a = Names-set_text F L R "status" "pending" name msg refl n in
        let b = Names-set_number F L R "retry_count" (pos 0) name _ refl a in
        let c = Names-clear F L R "last_error" name _ refl b in
        let e = Names-clear F L R "run_at_ms" name _ refl c in
        let m = Names-clear F L R "reserved_at_ms" name _ refl e in
        rw (m.is_encodable, revive)
          (Keeps-hdel_text name _ (
            Keeps-hset_text F L R status_key name "pending" _
              (push_pending F L R name _ d (Names-encode F L R name _ m) k)))

    retry_dead_items-Keeps :
        (name : String) (items : List Text) (d : Data Double Text)
        → All (λ j. contains same j d.dead ≡ true) items
        → All (IsEncodable F L R) items
        → Keeps F L R Source d
        → Keeps F L R Source (retry_dead_items F L R name items d).1
    unfolding retry_dead_items
    retry_dead_items-Keeps name [] d listed fit h = h
    retry_dead_items-Keeps name (json ∷ items) d listed fit h =
        let later = retry_dead_items-Keeps name items d listed.1 fit.1 h in
        elim (Option-cases (decode_table F L R json)) [
          | inl e ↦ rw (e, retry_dead_items) later
          | inr (msg, e) ↦
              rw (e, retry_dead_items)
                (elim (Bool-cases (equals (index msg "id") name)) [
                  | inl q ↦
                      let (dec, tab) = decode_table-inv json msg e in
                      let n : HasId F L R name json = record {
                        table = msg;
                        decoded = dec;
                        is_a_table = tab;
                        is_encodable = fit.0 msg dec tab;
                        named = eq_of_equals _ name q;
                      } in
                      rw (q, lrem_found json d listed.0)
                        (revive-Keeps name msg _ (HasId-Names F L R n) (
                          take F L R name json _ (NamesTasks-lrem_dead F L R json d h.names) n
                            (λ id s. Present-lrem F L R json d (h.copies id s))))
                  | inr q ↦ rw q later
                ])
        ]

    pub retry_dead_task_script-Keeps :
        (name : String) (d : Data Double Text)
        → Keeps F L R Source d
        → Keeps F L R Source (retry_dead_task_script F L R name d).1
    unfolding retry_dead_task_script
    retry_dead_task_script-Keeps name d h = rw (lrange_lem dead_key d) (
        retry_dead_items-Keeps name d.dead d (contains-All same (λ t. (same_iff t t).1 refl) d.dead)
          h.names.dead_encodable h)
