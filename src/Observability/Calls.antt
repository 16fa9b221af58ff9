-- ===== src/Observability/Calls.antt =====
-- internal/observability/metrics.go: the calls that change the metrics, in the order in which they
-- get the lock.
use chroma_flow.Base.{ℕ, String, List, [], ◌∷◌}
use chroma_flow.Observability.Metrics.{
  Metrics, new_metrics, job_submitted, job_rejected, worker_started, worker_stopped,
  render_finished, record_http,
}

pub data Call : Type 0 where
  submitted started stopped : Call
  rejected : String → Call
  rendered : String → ℕ → ℕ → Call
  recorded : String → String → ℕ → ℕ → Call

unfoldable pub call : Call → Metrics → Metrics
unfolding job_submitted job_rejected worker_started worker_stopped render_finished record_http
call submitted m = job_submitted m
call started m = worker_started m
call stopped m = worker_stopped m
call (rejected reason) m = job_rejected reason m
call (rendered status duration bytes) m = render_finished status duration bytes m
call (recorded method path code duration) m = record_http method path code duration m

-- The metrics of a process after these calls, the latest first.
unfoldable pub after_calls : List Call → Metrics
unfolding call
after_calls [] = new_metrics
after_calls (c ∷ cs) = call c (after_calls cs)
