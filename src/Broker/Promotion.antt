-- ===== src/Broker/Promotion.antt =====
-- `PromoteDueTasks`: its loop ends, and leaves no due task behind.
use crunchytask.Common.{
  ℕ, zero, suc, ℤ, String, ◌≡◌, ◌≤◌, ◌<◌, ◌⊎◌, inl, inr, Bool, true, false, List, [], ◌∷◌, some,
  length, All, arith, Option-cases, refl,
}
use mathlib.Core.Path.{subst}
use crunchytask.Outside.Floats.{Floats}
use crunchytask.Outside.Json.{JsonLib}
use crunchytask.Outside.Lua.{Lua}
use crunchytask.Outside.Redis.{
  Data, Redis, pending_key, status_key, score_of, erase_member, IsLater,
}
use crunchytask.Task.Status.{pending, task_status_to_string}
use crunchytask.Scripts.{
  Reply, returned, scripts_promote_one, promote_one_script, promote_member, promote_message,
}
use crunchytask.Scripts.Names.{IsNamed, NamesTasks}
use crunchytask.Scripts.NoLoss.{
  Keeps, Names-set_text, Names-clear, HasId-Names, decode_with-HasId, arg,
}
use crunchytask.Scripts.Moves.{zrem_found, scored, promote_one_script-Keeps}
use crunchytask.Broker.{finished, promote_loop, promote_due_tasks}

module _ {Double Text : Type 0} (same : Text → Text → Bool) where
  length-erase_member-le :
      (t : Text) (z : List (Text × Double)) → length (erase_member same t z) ≤ length z
  unfolding erase_member
  length-erase_member-le t [] = omega arith
  length-erase_member-le t ((x, s) ∷ z) = ground (arith, length-erase_member-le t z)

  length-erase_member-lt :
      (t : Text) (s : Double) (z : List (Text × Double))
      → score_of same t z ≡ some s
      → length (erase_member same t z) < length z
  unfolding score_of erase_member
  length-erase_member-lt t s [] e = absurd (cc)
  length-erase_member-lt t s ((x, r) ∷ z) e =
      ground (arith, length-erase_member-le t z, length-erase_member-lt t s z)

module _ (F : Floats) (J : JsonLib F.Double) (L : Lua F.Double J.Text)
    (R : Redis F.Double J.Text F.leb) where
  open F use {Double, of_int, leb}
  open J use {Text}
  open L use {set_text, clear, encode}
  open R use {first_due, zrem, lpush, hset_text, zrem_lem, lpush_lem, hset_text_lem, same}

  -- Every member of the delayed set is due later.
  abbrev pub NoneDue : ℤ → Data Double Text → Type 0
  NoneDue now d =
      All (λ (e : Text × Double). IsLater leb (of_int now) (score_of same e.0 d.delayed)) d.delayed

  -- What promoting one task does where the texts name tasks.
  abbrev Promotes : ℤ → Data Double Text → Type 0
  Promotes now d =
      ((scripts_promote_one F L R now d ≡ (returned false, d)) × NoneDue now d)
      ⊎ ((after : Data Double Text) × (scripts_promote_one F L R now d ≡ (returned true, after))
          × (length after.delayed < length d.delayed))

  delayed-pushed :
      (name status : String) (t : Text) (d : Data Double Text)
      → (hset_text status_key name status (lpush pending_key t d)).delayed ≡ d.delayed
  delayed-pushed name status t d =
      rw (lpush_lem pending_key t d, hset_text_lem status_key name status _)

  promotes : (now : ℤ) (d : Data Double Text) → NamesTasks F L R d → Promotes now d
  unfolding scripts_promote_one promote_one_script promote_member promote_message
  promotes now d h = elim (Option-cases (first_due (of_int now) d)) [
    | inl e ↦ inl (rw (e, promote_one_script), R.first_due_none (of_int now) d e)
    | inr (t, e) ↦
        let (s, found, _) = R.first_due_some (of_int now) d t e in
        let (name, named) = scored F L R (IsNamed F L R) t s d.delayed h.delayed_named found in
        let m =
          Names-set_text F L R "status" "pending" name _ refl
            (Names-clear F L R "run_at_ms" name _ refl (HasId-Names F L R named)) in
        inr (
          hset_text status_key name (task_status_to_string pending) (
              lpush pending_key
                (encode (set_text "status" "pending" (clear "run_at_ms" named.table)))
                (zrem t d).1),
          rw (e, promote_one_script)
              (rw (zrem_found F L R t s d found) (
                rw (decode_with-HasId F L R named, promote_member)
                  (rw (m.is_encodable, arg F L R name _ m.named, promote_message)))),
          rw
              (delayed-pushed name (task_status_to_string pending)
                (encode (set_text "status" "pending" (clear "run_at_ms" named.table))) (zrem t d).1)
              (rw (zrem_lem t d) (length-erase_member-lt same t s d.delayed found)),
        )
  ]

  promote_loop-ends :
      {Source : String → Type 0} (fuel : ℕ) (now : ℤ) (d : Data Double Text)
      → length d.delayed < fuel
      → Keeps F L R Source d
      → (after : Data Double Text) × (promote_loop F J L R fuel now d ≡ finished after)
        × NoneDue now after
        × Keeps F L R Source after
  unfolding promote_loop
  promote_loop-ends zero now d lt h = absurd (omega arith)
  promote_loop-ends {Source} (suc fuel) now d lt h = elim (promotes now d h.names) [
    | inl (e, later) ↦ (d, rw (e, promote_loop), later, h)
    | inr (after, e, fewer) ↦
        let kept : Keeps F L R _ after =
          subst (λ (o : Reply Bool × Data Double Text). Keeps F L R Source o.1) e
            (unfold scripts_promote_one in
              promote_one_script-Keeps F L R (of_int now) (task_status_to_string pending) d h) in
        let (last, q, later, k) = promote_loop-ends fuel now after (omega arith) kept in
        (last, rw (e, promote_loop) q, later, k)
  ]

  -- From a store whose texts name their tasks and can be encoded again, promotion ends without an error, leaves nothing in
  -- the delayed set that is due, and keeps every task that is there before it.
  pub promote_due_tasks-ends :
      {Source : String → Type 0} (now : ℤ) (d : Data Double Text)
      → Keeps F L R Source d
      → (after : Data Double Text) × (promote_due_tasks F J L R now d ≡ finished after)
        × NoneDue now after
        × Keeps F L R Source after
  unfolding promote_due_tasks
  promote_due_tasks-ends now d h = promote_loop-ends (suc (length d.delayed)) now d (omega arith) h
