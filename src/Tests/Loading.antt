-- ===== src/Tests/Loading.antt =====
-- A server that counts the runs of its scripts, and loses the scripts once.
use crunchytask.Common.{
  ℕ, suc, String, ◌==◌, ◌≡◌, Bool, true, false, List, [], ◌∷◌, if◌then◌else◌, refl,
}
use text.Mathlib.TextPositions.{eq_refl}
use crunchytask.Outside.ScriptServer.{Outcome, answered, failed, ScriptServer, is_no_script_error}
use crunchytask.Scripts.Loading.{
  ScriptId, k_ack, k_fail, load_scripts, Event, flushes, evals, replay, runs_of,
}
use crunchytask.Scripts.Loading.Reload.{replay-runs_of}

record Counting : Type 0 where
  pub loaded : List String
  pub runs : ℕ

abbrev holds_source : String → List String → Bool
holds_source t [] = false
holds_source t (s ∷ ss) = let rest = holds_source t ss in if s == t then true else rest

abbrev counted : ℕ → Outcome ℕ × ℕ
counted n = (answered n, suc n)

abbrev evaluate : String → Counting → Outcome ℕ × Counting
evaluate t s =
    if holds_source t s.loaded
    then (answered s.runs, record s { runs = suc s.runs })
    else (failed "NOSCRIPT", s)

first_is_held : (source : String) (ss : List String) → holds_source source (source ∷ ss) ≡ true
first_is_held source ss = rw (eq_refl source) refl

evaluate-answer :
    (source : String) (s : Counting)
    → holds_source source s.loaded ≡ true
    → (evaluate source s).0 ≡ (counted s.runs).0
evaluate-answer source s e = rw e refl

evaluate-runs :
    (source : String) (s : Counting)
    → holds_source source s.loaded ≡ true
    → (evaluate source s).1.runs ≡ (counted s.runs).1
evaluate-runs source s e = rw e refl

evaluate-missing :
    (source : String) (s : Counting)
    → holds_source source s.loaded ≡ false
    → evaluate source s ≡ (failed "NOSCRIPT", s)
evaluate-missing source s e = rw e refl

noscript_named : is_no_script_error "NOSCRIPT" ≡ true
unfolding is_no_script_error
noscript_named = refl

abbrev counting : ScriptServer ℕ
counting = record {
  Server = Counting;
  Data = ℕ;
  data_of = λ s. s.runs;
  cached = λ t s. holds_source t s.loaded;
  sha = λ source. source;
  script_load = λ source s. (source, record s { loaded = source ∷ s.loaded });
  evalsha = λ t keys args s. evaluate t s;
  flush = λ s. record s { loaded = [] };
  run_script = λ source keys args n. counted n;
  loaded_sha = λ source s. refl;
  loaded_data = λ source s. refl;
  loaded_cached = λ source s. first_is_held source s.loaded;
  flushed_data = λ s. refl;
  evalsha_answer = λ source keys args s e. evaluate-answer source s e;
  evalsha_data = λ source keys args s e. evaluate-runs source s e;
  no_script_message = "NOSCRIPT";
  no_script_named = noscript_named;
  evalsha_missing = λ source keys args s e. evaluate-missing source s e;
}

abbrev sources : ScriptId → String
sources id = "return 1"

abbrev fresh : Counting
fresh = record { loaded = []; runs = 0 }

abbrev no_shas : ℕ → String
no_shas i = ""

abbrev calls : List (Event counting sources)
calls = evals k_ack [] [] ∷ flushes ∷ evals k_fail [] [] ∷ []

replay-runs_of_example :
    let loaded = load_scripts counting sources (no_shas, fresh) in
    ((replay counting sources calls loaded).0 ≡ (runs_of counting sources calls 0).0)
    × ((replay counting sources calls loaded).1.1.runs ≡ (runs_of counting sources calls 0).1)
replay-runs_of_example =
    replay-runs_of counting sources calls (no_shas, fresh) (λ source keys args d. tt)
