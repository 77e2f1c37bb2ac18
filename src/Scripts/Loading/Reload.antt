-- ===== src/Scripts/Loading/Reload.antt =====
-- A call of a script is one run of it, whether or not the server has lost the script.
use crunchytask.Common.{
  ℕ, nat_eq, String, ◌≡◌, true, false, Bool-cases, inl, inr, ◌⊎◌, Any, List, [], ◌∷◌, if◌then◌else◌,
  refl, ap, ◌∙◌, sym, arith,
}
use mathlib.Core.Path.{subst}
use crunchytask.Outside.ScriptServer.{Outcome, answered, failed, ScriptServer, is_no_script_error}
use crunchytask.Scripts.Loading.{
  ScriptId, k_reserve, k_promote_one, k_reclaim_one, k_retry, k_fail, k_ack, k_retry_dead_task,
  index_of, all_ids, Client, load_script, load_each, load_scripts, evaluated_by, evaluated,
  unless_missing, eval, Event, flushes, evals, replay, runs_of,
}

-- The script of an index.
abbrev id_at : ℕ → ScriptId
id_at n =
    if nat_eq n 0
    then k_reserve
    else if nat_eq n 1
    then k_promote_one
    else if nat_eq n 2
    then k_reclaim_one
    else if nat_eq n 3
    then k_retry
    else if nat_eq n 4
    then k_fail
    else if nat_eq n 5
    then k_ack
    else k_retry_dead_task

id_at-index_of : (id : ScriptId) → id_at (index_of id) ≡ id
id_at-index_of k_reserve = refl
id_at-index_of k_promote_one = refl
id_at-index_of k_reclaim_one = refl
id_at-index_of k_retry = refl
id_at-index_of k_fail = refl
id_at-index_of k_ack = refl
id_at-index_of k_retry_dead_task = refl

same_id : (a b : ScriptId) → nat_eq (index_of a) (index_of b) ≡ true → a ≡ b
same_id a b e =
    let same : index_of a ≡ index_of b = ground (arith, e) in
    sym (id_at-index_of a) ∙ ap id_at same ∙ id_at-index_of b

module _ {Answer : Type 0} (V : ScriptServer Answer) (sources : ScriptId → String) where
  open V use {
    Server, Data, data_of, cached, sha, script_load, evalsha, flush, run_script, loaded_sha,
    loaded_data, loaded_cached, flushed_data, evalsha_answer, evalsha_data, no_script_message,
    no_script_named, evalsha_missing,
  }

  -- The digests that the client holds are those of its sources.
  record Holds (c : Client V sources) : Type 0 where
    pub digest : (id : ScriptId) → c.0 (index_of id) ≡ sha (sources id)

  abbrev pub Unmentioned : Outcome Answer → Type 0
  Unmentioned (answered a) = Unit
  Unmentioned (failed message) = is_no_script_error message ≡ false

  -- One call: the outcome and the data after it are those of one run, and the digests stay.
  record Called (id : ScriptId) (keys args : List String) (d : Data)
      (r : Outcome Answer × Client V sources) : Type 0 where
    pub outcome : r.0 ≡ (run_script (sources id) keys args d).0
    pub data_after : data_of r.1.1 ≡ (run_script (sources id) keys args d).1
    pub holds : Holds r.1

  load_script-digest :
      (id other : ScriptId) (c : Client V sources)
      → (id ≡ other) ⊎ (c.0 (index_of other) ≡ sha (sources other))
      → (load_script V sources id c).0 (index_of other) ≡ sha (sources other)
  unfolding load_script
  load_script-digest id other c h = elim (Bool-cases (nat_eq (index_of other) (index_of id))) [
    | inl e ↦
        rw e (loaded_sha (sources id) c.1 ∙ ap (λ i. sha (sources i)) (sym (same_id other id e)))
    | inr e ↦ rw e (elim h [ inl f ↦ absurd (ground (arith, e, ap index_of f)) | inr f ↦ f ])
  ]

  load_each-digest :
      (ids : List ScriptId) (other : ScriptId) (c : Client V sources)
      → Any (λ i. i ≡ other) ids ⊎ (c.0 (index_of other) ≡ sha (sources other))
      → (load_each V sources ids c).0 (index_of other) ≡ sha (sources other)
  unfolding load_each
  load_each-digest [] other c (inl h) = absurd h
  load_each-digest [] other c (inr h) = h
  load_each-digest (id ∷ ids) other c (inl (inl h)) =
      load_each-digest ids other (load_script V sources id c)
        (inr (load_script-digest id other c (inl h)))
  load_each-digest (id ∷ ids) other c (inl (inr h)) =
      load_each-digest ids other (load_script V sources id c) (inl h)
  load_each-digest (id ∷ ids) other c (inr h) =
      load_each-digest ids other (load_script V sources id c)
        (inr (load_script-digest id other c (inr h)))

  load_each-data :
      (ids : List ScriptId) (c : Client V sources)
      → data_of (load_each V sources ids c).1 ≡ data_of c.1
  unfolding load_each load_script
  load_each-data [] c = refl
  load_each-data (id ∷ ids) c =
      load_each-data ids (load_script V sources id c) ∙ loaded_data (sources id) c.1

  all_there : (other : ScriptId) → Any (λ i. i ≡ other) all_ids
  all_there k_reserve = inl refl
  all_there k_promote_one = inr (inl refl)
  all_there k_reclaim_one = inr (inr (inl refl))
  all_there k_retry = inr (inr (inr (inl refl)))
  all_there k_fail = inr (inr (inr (inr (inl refl))))
  all_there k_ack = inr (inr (inr (inr (inr (inl refl)))))
  all_there k_retry_dead_task = inr (inr (inr (inr (inr (inr (inl refl))))))

  load_scripts-Holds : (c : Client V sources) → Holds (load_scripts V sources c)
  unfolding load_scripts
  load_scripts-Holds c = record {
    digest = λ id. load_each-digest all_ids id c (inl (all_there id));
  }

  -- The script is in the server's cache.
  run_cached :
      (id : ScriptId) (keys args : List String) (c : Client V sources)
      → Holds c
      → cached (sources id) c.1 ≡ true
      → Called id keys args (data_of c.1) (evaluated V sources id keys args c)
  run_cached id keys args c h e = record {
    outcome =
        ap (λ t. (evalsha t keys args c.1).0) (h.digest id)
        ∙ evalsha_answer (sources id) keys args c.1 e;
    data_after =
        ap (λ t. data_of (evalsha t keys args c.1).1) (h.digest id)
        ∙ evalsha_data (sources id) keys args c.1 e;
    holds = record { digest = h.digest };
  }

  kept_when_known :
      (id : ScriptId) (keys args : List String) (d : Data) (r : Outcome Answer × Client V sources)
      → Unmentioned (run_script (sources id) keys args d).0
      → Called id keys args d r
      → Called id keys args d (unless_missing V sources id keys args r)
  unfolding unless_missing
  kept_when_known id keys args d (answered a, c) u h = h
  kept_when_known id keys args d (failed message, c) u h =
      let known = subst Unmentioned (sym h.outcome) u in rw known h

  missing_then_loaded :
      (id : ScriptId) (keys args : List String) (c : Client V sources)
      → Holds c
      → cached (sources id) c.1 ≡ false
      → Called id keys args (data_of c.1) (eval V sources id keys args c)
  unfolding eval unless_missing
  missing_then_loaded id keys args c h e =
      let first : evaluated V sources id keys args c ≡ (failed no_script_message, c) =
        ap (λ t. evaluated_by V sources t keys args c) (h.digest id)
        ∙ ap (λ r. (r.0, (c.0, r.1))) (evalsha_missing (sources id) keys args c.1 e) in
      let loaded = load_script V sources id c in
      let again =
        run_cached id keys args loaded
          (record { digest = λ i. load_script-digest id i c (inr (h.digest i)) })
          (loaded_cached (sources id) c.1) in
      rw (first, no_script_named)
        (subst (λ d. Called id keys args d (evaluated V sources id keys args loaded))
          (loaded_data (sources id) c.1) again)

  eval-Called :
      (id : ScriptId) (keys args : List String) (c : Client V sources)
      → Unmentioned (run_script (sources id) keys args (data_of c.1)).0
      → Holds c
      → Called id keys args (data_of c.1) (eval V sources id keys args c)
  unfolding eval
  eval-Called id keys args c u h = elim (Bool-cases (cached (sources id) c.1)) [
    | inl e ↦ kept_when_known id keys args (data_of c.1) _ u (run_cached id keys args c h e)
    | inr e ↦ missing_then_loaded id keys args c h e
  ]

  replay-from :
      (es : List (Event V sources)) (c : Client V sources)
      → ((source : String) (keys args : List String) (d : Data)
          → Unmentioned (run_script source keys args d).0)
      → Holds c
      → ((replay V sources es c).0 ≡ (runs_of V sources es (data_of c.1)).0)
        × (data_of (replay V sources es c).1.1 ≡ (runs_of V sources es (data_of c.1)).1)
  unfolding replay runs_of
  replay-from [] c u h = (refl, refl)
  replay-from (flushes ∷ es) c u h =
      let (os, last) = replay-from es (c.0, flush c.1) u (record { digest = h.digest }) in
      let same = ap (λ d. runs_of V sources es d) (flushed_data c.1) in
      (os ∙ ap (λ r. r.0) same, last ∙ ap (λ r. r.1) same)
  replay-from (evals id keys args ∷ es) c u h =
      let one = eval-Called id keys args c (u (sources id) keys args (data_of c.1)) h in
      let after = (eval V sources id keys args c).1 in
      let (os, last) = replay-from es after u one.holds in
      let same = ap (λ d. runs_of V sources es d) one.data_after in
      (rw (one.outcome, os ∙ ap (λ r. r.0) same) refl, last ∙ ap (λ r. r.1) same)

  -- A client that has loaded its scripts makes any calls, and the server's cache is flushed any
  -- number of times between them. The outcomes and the data are those of one run of its script for
  -- each call. No script raises an error of its own that mentions NOSCRIPT.
  pub replay-runs_of :
      (es : List (Event V sources)) (c : Client V sources)
      → ((source : String) (keys args : List String) (d : Data)
          → Unmentioned (run_script source keys args d).0)
      → let loaded = load_scripts V sources c in
        ((replay V sources es loaded).0 ≡ (runs_of V sources es (data_of c.1)).0)
        × (data_of (replay V sources es loaded).1.1 ≡ (runs_of V sources es (data_of c.1)).1)
  unfolding load_scripts
  replay-runs_of es c u =
      let (os, last) = replay-from es (load_scripts V sources c) u (load_scripts-Holds c) in
      let same = ap (λ d. runs_of V sources es d) (load_each-data all_ids c) in
      (os ∙ ap (λ r. r.0) same, last ∙ ap (λ r. r.1) same)
