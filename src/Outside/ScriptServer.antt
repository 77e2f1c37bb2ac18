-- ===== src/Outside/ScriptServer.antt =====
-- The script cache of a Redis server: SCRIPT LOAD and EVALSHA, over whatever a script does to the
-- data. The texts of errors are those of `sw::redis::Error::what`.
use crunchytask.Common.{ℕ, String, ◌≡◌, Bool, true, false, Option, none, some, List}
use text.Mathlib.Text.{find?}

-- The answer of a script, or the error that the client throws.
pub data Outcome (Answer : Type 0) : Type 0 where
  answered : Answer → Outcome Answer
  failed : String → Outcome Answer

-- `message.find("NOSCRIPT") != std::string::npos`
abbrev pub was_found : Option ℕ → Bool
was_found none = false
was_found (some i) = true

unfoldable pub is_no_script_error : String → Bool
is_no_script_error message = was_found (find? message "NOSCRIPT")

pub record ScriptServer (Answer : Type 0) : Type 1 where
  pub Server : Type 0
  pub Data : Type 0
  pub data_of : Server → Data
  -- Whether the source is in the cache.
  pub cached : String → Server → Bool
  pub sha : String → String
  pub script_load : String → Server → String × Server
  pub evalsha : String → List String → List String → Server → Outcome Answer × Server
  -- SCRIPT FLUSH, or a restart of the server.
  pub flush : Server → Server
  -- What a script with these keys and arguments does.
  pub run_script : String → List String → List String → Data → Outcome Answer × Data
  pub loaded_sha : (source : String) (s : Server) → (script_load source s).0 ≡ sha source
  pub loaded_data : (source : String) (s : Server) → data_of (script_load source s).1 ≡ data_of s
  pub loaded_cached : (source : String) (s : Server) → cached source (script_load source s).1 ≡ true
  pub flushed_data : (s : Server) → data_of (flush s) ≡ data_of s
  pub evalsha_answer :
      (source : String) (keys args : List String) (s : Server)
      → cached source s ≡ true
      → (evalsha (sha source) keys args s).0 ≡ (run_script source keys args (data_of s)).0
  pub evalsha_data :
      (source : String) (keys args : List String) (s : Server)
      → cached source s ≡ true
      → data_of (evalsha (sha source) keys args s).1 ≡ (run_script source keys args (data_of s)).1
  pub no_script_message : String
  pub no_script_named : is_no_script_error no_script_message ≡ true
  pub evalsha_missing :
      (source : String) (keys args : List String) (s : Server)
      → cached source s ≡ false
      → evalsha (sha source) keys args s ≡ (failed no_script_message, s)
