-- ===== src/Tests/Settings.antt =====
-- A worker whose settings are changed, once to a value that is refused.
use crunchytask.Common.{pos, ◌≡◌, List, [], ◌∷◌, refl}
use crunchytask.ParseResult.{ok}
use crunchytask.Config.{
  validate_worker_concurrency, validate_poll_interval, validate_visibility_timeout,
}
use crunchytask.Worker.Settings.{
  Settings, SettingsValid, Setter, set_poll_interval, set_visibility_timeout, throw_if_invalid,
  construct, set_all, construct-set_all-SettingsValid,
}

abbrev four_threads : Settings
four_threads = record {
  concurrency = 4;
  poll_interval = pos 100;
  visibility_timeout = pos 30000;
  heartbeat_interval = pos 5000;
}

abbrev changes : List Setter
changes = set_poll_interval (pos 0) ∷ set_visibility_timeout (pos 60000) ∷ []

constructed : construct 4 ≡ ok four_threads
unfolding construct throw_if_invalid validate_worker_concurrency validate_poll_interval
    validate_visibility_timeout
constructed = refl

construct-set_all-SettingsValid_example : SettingsValid (set_all changes four_threads)
construct-set_all-SettingsValid_example =
    construct-set_all-SettingsValid 4 four_threads changes constructed
