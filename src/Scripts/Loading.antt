-- ===== src/Scripts/Loading.antt =====
-- `ScriptId`, `LoadScripts`, `LoadScript` and `Eval` of src/redis_scripts.cc: a script is called by
-- the digest of its source, and loaded again where the server has lost it.
pub mod Reload
use crunchytask.Common.{
  ℕ, nat_eq, String, ◌≡◌, Bool, true, false, Bool-cases, inl, inr, ◌⊎◌, Any, List, [], ◌∷◌,
  if◌then◌else◌, refl, ap, ◌∙◌, sym, arith,
}
use mathlib.Core.Path.{subst}
use crunchytask.Outside.ScriptServer.{Outcome, answered, failed, ScriptServer, is_no_script_error}

pub data ScriptId : Type 0 where
  k_reserve k_promote_one k_reclaim_one k_retry k_fail k_ack k_retry_dead_task : ScriptId

-- `static_cast<std::size_t>(id)`
abbrev pub index_of : ScriptId → ℕ
index_of k_reserve = 0
index_of k_promote_one = 1
index_of k_reclaim_one = 2
index_of k_retry = 3
index_of k_fail = 4
index_of k_ack = 5
index_of k_retry_dead_task = 6

-- The indices below `kCount`.
abbrev pub all_ids : List ScriptId
all_ids =
    k_reserve ∷ k_promote_one ∷ k_reclaim_one ∷ k_retry ∷ k_fail ∷ k_ack ∷ k_retry_dead_task ∷ []

-- The array `shas_`.
abbrev pub Shas : Type 0
Shas = ℕ → String

abbrev pub set_sha : ℕ → String → Shas → Shas
set_sha i value shas j = if nat_eq j i then value else shas j

module _ {Answer : Type 0} (V : ScriptServer Answer) (sources : ScriptId → String) where
  open V use {
    Server, Data, data_of, cached, sha, script_load, evalsha, flush, run_script, loaded_sha,
    loaded_data, loaded_cached, flushed_data, evalsha_answer, evalsha_data, no_script_message,
    no_script_named, evalsha_missing,
  }

  -- A `RedisScripts` and the server that it talks to.
  abbrev pub Client : Type 0
  Client = Shas × Server

  unfoldable pub load_script : ScriptId → Client → Client
  load_script id c =
      let (digest, after) = script_load (sources id) c.1 in
      (set_sha (index_of id) digest c.0, after)

  unfoldable pub load_each : List ScriptId → Client → Client
  unfolding load_script
  load_each [] c = c
  load_each (id ∷ ids) c = load_each ids (load_script id c)

  unfoldable pub load_scripts : Client → Client
  unfolding load_each
  load_scripts c = load_each all_ids c

  abbrev pub evaluated_by : String → List String → List String → Client → Outcome Answer × Client
  evaluated_by digest keys args c =
      let (outcome, after) = evalsha digest keys args c.1 in (outcome, (c.0, after))

  abbrev pub evaluated : ScriptId → List String → List String → Client → Outcome Answer × Client
  evaluated id keys args c = evaluated_by (c.0 (index_of id)) keys args c

  -- The `catch` of `Eval`.
  unfoldable pub unless_missing :
      ScriptId → List String → List String → Outcome Answer × Client → Outcome Answer × Client
  unfolding load_script is_no_script_error
  unless_missing id keys args (answered a, c) = (answered a, c)
  unless_missing id keys args (failed message, c) =
      if is_no_script_error message
      then evaluated id keys args (load_script id c)
      else (failed message, c)

  unfoldable pub eval : ScriptId → List String → List String → Client → Outcome Answer × Client
  unfolding unless_missing
  eval id keys args c = unless_missing id keys args (evaluated id keys args c)

  -- What a client sees: calls of scripts, and flushes of the server's cache.
  pub data Event : Type 0 where
    flushes : Event
    evals : ScriptId → List String → List String → Event

  unfoldable pub replay : List Event → Client → List (Outcome Answer) × Client
  unfolding eval
  replay [] c = ([], c)
  replay (flushes ∷ es) c = replay es (c.0, flush c.1)
  replay (evals id keys args ∷ es) c =
      let (outcome, after) = eval id keys args c in
      let (outcomes, last) = replay es after in (outcome ∷ outcomes, last)

  -- The same calls, each of them one run of its script.
  unfoldable pub runs_of : List Event → Data → List (Outcome Answer) × Data
  runs_of [] d = ([], d)
  runs_of (flushes ∷ es) d = runs_of es d
  runs_of (evals id keys args ∷ es) d =
      let (outcome, after) = run_script (sources id) keys args d in
      let (outcomes, last) = runs_of es after in (outcome ∷ outcomes, last)
