-- ===== src/Tests/Values.antt =====
-- Identifiers, statuses and histograms.
use crunchytask.Common.{ℕ, ◌≡◌, [], ◌∷◌, lookup, get_or, refl, arith}
use crunchytask.ParseResult.{ok}
use crunchytask.Task.Id.{codes, generate, parse_id}
use crunchytask.Task.Id.Laws.{parse_id-generate, version-generate}
use crunchytask.Task.Status.{
  retrying, task_status_to_string, task_status_from_string, from_string-to_string,
  from_string-eq-ok,
}
use crunchytask.Metrics.{empty_metrics, zero_histogram, value_or}
use crunchytask.Metrics.Laws.{Summary, durations, observe_all, observe_duration_ms-Summary}

abbrev bytes : ℕ → ℕ
bytes i = i

parse_id-generate_example : parse_id (generate bytes).value ≡ ok (generate bytes)
parse_id-generate_example = parse_id-generate bytes

version-generate_example : get_or (codes (generate bytes).value) 14 0 ≡ b'4'
version-generate_example = version-generate bytes (omega arith)

from_string-to_string_example :
    task_status_from_string (task_status_to_string retrying) ≡ ok retrying
from_string-to_string_example = from_string-to_string retrying

retrying_read : task_status_from_string "retrying" ≡ ok retrying
unfolding task_status_from_string
retrying_read = refl

from_string-eq-ok_example : "retrying" ≡ task_status_to_string retrying
from_string-eq-ok_example = from_string-eq-ok "retrying" retrying retrying_read

observe_duration_ms-Summary_example : Summary (4 ∷ 9 ∷ 2 ∷ []) 0 0 0 (
    value_or zero_histogram (
      lookup "handler"
        (observe_all "handler" (durations (4 ∷ 9 ∷ 2 ∷ [])) empty_metrics).histograms))
observe_duration_ms-Summary_example =
    observe_duration_ms-Summary "handler" (4 ∷ 9 ∷ 2 ∷ []) empty_metrics (unfold lookup in refl)
