-- ===== src/Scripts/Moves.antt =====
-- The other scripts lose no task either: promotion, reclaiming, retry, failure, revival. An
-- acknowledgement removes the lease of its own task, and no other copy.
use crunchytask.Common.{
  String, ◌≡◌, inl, inr, true, List, [], ◌∷◌, some, lookup, All, arith, Bool-cases, Option-cases,
  refl,
}
use mathlib.Core.Path.{subst}
use crunchytask.Outside.Floats.{Floats}
use crunchytask.Outside.Lua.{Lua}
use crunchytask.Outside.Redis.{
  Data, Redis, dead_key, running_key, status_key, failures_key, score_of,
}
use crunchytask.Scripts.{
  decode_with, promote_message, promote_member, promote_one_script, requeue, reclaim_message,
  reclaim_text, reclaim_one_script, retry_script, Reply, returned, raised, Done, done, bury,
  bury_message, buried, fail_script,
}
use crunchytask.Scripts.Copies.{
  HasId, Present-lpush, lpush-Present, Present-hdel_running, Present-zrem, Present-zadd,
  zadd-Present,
}
use crunchytask.Scripts.Names.{
  IsNamed, HasId-IsEncodable, NamesTasks-lpush_dead, NamesTasks-hdel_running, NamesTasks-zrem,
  NamesTasks-zadd,
}
use crunchytask.Scripts.NoLoss.{
  Keeps, Holds, Names, Names-set_text, Names-clear, decode_table-HasId, decode_with-HasId,
  HasId-Names, Names-encode, push_pending, Keeps-hset_text, take, arg,
}

module _ (F : Floats) {Text : Type 0} (L : Lua F.Double Text) (R : Redis F.Double Text F.leb) where
  open F use {Double, of_int, leb, sub}
  open L use {
    Value, decode, encode, is_table, index, truthy, of_text, equals, set_text, set_number, clear,
    tonumber, eq_of_equals,
  }
  open R use {
    lpush, hset_document, hdel_document, hset_text, hdel_text, zrem, zadd, first_due, hget_document,
    lrem, lrange, hget_document_lem, zrem_lem, lrange_lem, hdel_document_lem, same, same_iff,
  }

  -- ZREM and HDEL reply that they removed what was there.
  pub zrem_found :
      (t : Text) (s : Double) (d : Data Double Text)
      → score_of same t d.delayed ≡ some s
      → zrem t d ≡ (true, (zrem t d).1)
  zrem_found t s d e = rw (zrem_lem t d, e)

  hdel_found :
      (f : String) (t : Text) (d : Data Double Text)
      → lookup f d.running ≡ some t
      → hdel_document running_key f d ≡ (true, (hdel_document running_key f d).1)
  hdel_found f t d e = rw (hdel_document_lem running_key f d, e)

  -- A member with a score stands in the set, and so names a task.
  pub scored :
      (P : Text → Type 0) (t : Text) (s : Double) (z : List (Text × Double))
      → All (λ e. P e.0) z
      → score_of same t z ≡ some s
      → P t
  unfolding score_of
  scored P t s [] h e = absurd (cc)
  scored P t s ((x, r) ∷ z) h e = elim (Bool-cases (same x t)) [
    | inl q ↦ subst P ((same_iff x t).0 q) h.0
    | inr q ↦ scored P t s z h.1 (ground (arith))
  ]

  -- What kFailScript leaves of a task in its hands: it does not raise an error, and keeps the task.
  abbrev pub Buries : (String → Type 0) → Reply Done × Data Double Text → Type 0
  Buries Source (returned done, d) = Keeps F L R Source d
  Buries Source (raised, d) = ⊥

  module _ {Source : String → Type 0} where
    pub promote_message-Keeps :
        (status name : String) (msg : Value) (d : Data Double Text)
        → Names F L R name msg
        → Holds F L R Source name d
        → Keeps F L R Source (promote_message F L R status msg d).1
    unfolding promote_message
    promote_message-Keeps status name msg d n k =
        let m : Names F L R name (set_text "status" "pending" (clear "run_at_ms" msg)) =
          Names-set_text F L R "status" "pending" name _ refl
            (Names-clear F L R "run_at_ms" name msg refl n) in
        rw (m.is_encodable, arg F L R name _ m.named, promote_message)
          (Keeps-hset_text F L R status_key name status _
            (push_pending F L R name _ d (Names-encode F L R name _ m) k))

    promote_member-Keeps :
        (status name : String) (t : Text) (d : Data Double Text)
        → HasId F L R name t
        → Holds F L R Source name d
        → Keeps F L R Source (promote_member F L R status t (true, d)).1
    unfolding promote_member
    promote_member-Keeps status name t d h k =
        rw (decode_with-HasId F L R h, promote_member)
          (promote_message-Keeps status name h.table d (HasId-Names F L R h) k)

    pub promote_one_script-Keeps :
        (now : Double) (status : String) (d : Data Double Text)
        → Keeps F L R Source d
        → Keeps F L R Source (promote_one_script F L R now status d).1
    unfolding promote_one_script
    promote_one_script-Keeps now status d h = elim (Option-cases (first_due now d)) [
      | inl e ↦ rw (e, promote_one_script) h
      | inr (t, e) ↦
          let (s, found, _) = R.first_due_some now d t e in
          let (name, named) = scored (IsNamed F L R) t s d.delayed h.names.delayed_named found in
          rw (e, promote_one_script)
            (rw (zrem_found t s d found) (
              promote_member-Keeps status name t _ named (
                take F L R name t _ (NamesTasks-zrem F L R t d h.names) named
                  (λ id p. Present-zrem F L R t d (h.copies id p)))))
    ]

    requeue-Keeps :
        (name : String) (msg : Value) (d : Data Double Text)
        → Names F L R name msg
        → Holds F L R Source name d
        → Keeps F L R Source (requeue F L R name msg (true, d)).1
    unfolding requeue
    requeue-Keeps name msg d n k =
        let m : Names F L R name (clear "reserved_at_ms" (set_text "status" "pending" msg)) =
          Names-clear F L R "reserved_at_ms" name _ refl
            (Names-set_text F L R "status" "pending" name msg refl n) in
        rw (m.is_encodable, requeue)
          (Keeps-hset_text F L R status_key name "pending" _
            (push_pending F L R name _ d (Names-encode F L R name _ m) k))

    -- A removed lease leaves the copy of its task in the hands of the script.
    drop_lease :
        (name : String) (d : Data Double Text)
        → Keeps F L R Source d
        → Holds F L R Source name (hdel_document running_key name d).1
    drop_lease name d h = record {
      names = NamesTasks-hdel_running F L R name d h.names;
      copies = λ id s. elim (Present-hdel_running F L R name d (h.copies id s)) [
        | inl p ↦ inl p
        | inr (e, _, _, _) ↦ inr e
      ];
    }

    reclaim_message-Keeps :
        (name : String) (now timeout : Double) (msg : Value) (t : Text) (d : Data Double Text)
        → lookup name d.running ≡ some t
        → Names F L R name msg
        → Keeps F L R Source d
        → Keeps F L R Source (reclaim_message F L R name now timeout msg d).1
    unfolding reclaim_message
    reclaim_message-Keeps name now timeout msg t d held n h =
        elim (Option-cases (tonumber (index msg "reserved_at_ms"))) [
          | inl e ↦ rw (e, reclaim_message) h
          | inr (at_ms, e) ↦
              rw (e, reclaim_message)
                (elim (Bool-cases (leb (sub now at_ms) timeout)) [
                  | inl fresh ↦ rw fresh h
                  | inr stale ↦
                      rw (stale, hdel_found name t d held)
                        (requeue-Keeps name msg _ n (drop_lease name d h))
                ])
        ]

    reclaim_text-Keeps :
        (name : String) (now timeout : Double) (t : Text) (d : Data Double Text)
        → lookup name d.running ≡ some t
        → HasId F L R name t
        → Keeps F L R Source d
        → Keeps F L R Source (reclaim_text F L R name now timeout t d).1
    unfolding reclaim_text decode_with
    reclaim_text-Keeps name now timeout t d held n h =
        rw (decode_table-HasId F L R n, decode_with, reclaim_text)
          (elim (Bool-cases (truthy (index n.table "reserved_at_ms"))) [
            | inl e ↦
                rw (e, reclaim_text)
                  (reclaim_message-Keeps name now timeout n.table t d held (HasId-Names F L R n) h)
            | inr e ↦ rw (e, reclaim_text) h
          ])

    pub reclaim_one_script-Keeps :
        (name : String) (now timeout : Double) (d : Data Double Text)
        → Keeps F L R Source d
        → Keeps F L R Source (reclaim_one_script F L R name now timeout d).1
    unfolding reclaim_one_script
    reclaim_one_script-Keeps name now timeout d h = elim (Option-cases (lookup name d.running)) [
      | inl e ↦ rw (hget_document_lem running_key name d, e, reclaim_one_script) h
      | inr (t, e) ↦
          rw (hget_document_lem running_key name d, e, reclaim_one_script)
            (reclaim_text-Keeps name now timeout t d e (h.names.leases_named name t e) h)
    ]

    pub retry_script-Keeps :
        (name : String) (t : Text) (score : Double) (reason status : String) (d : Data Double Text)
        → HasId F L R name t
        → Keeps F L R Source d
        → Keeps F L R Source (retry_script F L R name t score reason status d)
    unfolding retry_script
    retry_script-Keeps name t score reason status d n h =
        let k : Holds F L R Source name (hdel_document running_key name d).1 =
          drop_lease name d h in
        Keeps-hset_text F L R failures_key name reason _ (
          Keeps-hset_text F L R status_key name status _ (record {
            names = NamesTasks-zadd F L R score t _ (name, n) k.names;
            copies = λ id s. elim (k.copies id s) [
              | inl p ↦ Present-zadd F L R score t _ p
              | inr e ↦ zadd-Present F L R score t _ (subst (λ i. HasId F L R i t) e n)
            ];
          }))

    bury-Buries :
        (name reason : String) (d : Data Double Text)
        → Keeps F L R Source d
        → Buries Source
            (bury F L R reason (lookup name d.running) (hdel_document running_key name d).1)
    unfolding bury bury_message
    bury-Buries name reason d h = elim (Option-cases (lookup name d.running)) [
      | inl e ↦
          rw (e, bury)
            (record {
              names = NamesTasks-hdel_running F L R name d h.names;
              copies = λ id s. elim (Present-hdel_running F L R name d (h.copies id s)) [
                | inl p ↦ p
                | inr (_, t, held, _) ↦ absurd (cc (e, held))
              ];
            })
      | inr (t, e) ↦
          let n : HasId F L R name t = h.names.leases_named name t e in
          let k : Holds F L R Source name (hdel_document running_key name d).1 =
            drop_lease name d h in
          let m : Names F L R name
              (set_text "last_error" reason (set_text "status" "dead" n.table)) =
            Names-set_text F L R "last_error" reason name _ refl
              (Names-set_text F L R "status" "dead" name _ refl (HasId-Names F L R n)) in
          rw (e, bury)
            (rw (decode_table-HasId F L R n, bury)
              (rw (m.is_encodable, bury_message)
                (record {
                  names =
                      NamesTasks-lpush_dead F L R _ _
                        (HasId-IsEncodable F L R name _ (Names-encode F L R name _ m)) k.names;
                  copies = λ id s. elim (k.copies id s) [
                    | inl p ↦ Present-lpush F L R dead_key _ _ p
                    | inr q ↦ lpush-Present F L R dead_key _ _ (
                        subst
                          (λ i. HasId F L R i (
                            encode
                              (set_text "last_error" reason (set_text "status" "dead" n.table))))
                          q (Names-encode F L R name _ m))
                  ];
                })))
    ]

    buried_holds :
        (name reason status : String) (d : Data Double Text)
        → Keeps F L R Source d
        → Keeps F L R Source
            (hset_text status_key name status (hset_text failures_key name reason d))
    buried_holds name reason status d h =
        Keeps-hset_text F L R status_key name status _
          (Keeps-hset_text F L R failures_key name reason _ h)

  buried-Buries :
      (Source : String → Type 0) (name reason status : String) (o : Reply Done × Data Double Text)
      → Buries Source o
      → Buries Source (buried F L R name reason status o)
  buried-Buries Source name reason status (returned done, d) h = buried_holds name reason status d h
  buried-Buries Source name reason status (raised, d) h = elim h [ ]

  module _ {Source : String → Type 0} where
    pub fail_script-Buries :
        (name reason status : String) (d : Data Double Text)
        → Keeps F L R Source d
        → Buries Source (fail_script F L R name reason status d)
    unfolding fail_script
    fail_script-Buries name reason status d h =
        buried-Buries Source name reason status
          (bury F L R reason (hget_document running_key name d)
            (hdel_document running_key name d).1)
          (rw (hget_document_lem running_key name d) (bury-Buries name reason d h))
