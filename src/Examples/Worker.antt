-- ===== src/Examples/Worker.antt =====
-- internal/worker/worker.go at small inputs.
use chroma_flow.Base.{
  true, false, ℕ, zero, suc, ◌≤◌, ◌<◌, ◌+◌, ◌≡◌, refl, none, some, List, [], ◌∷◌, arith,
}
use chroma_flow.Base.Dict
use chroma_flow.Queue.Types.{context_canceled, err, text, ok, pending, canceled}
use chroma_flow.Storage.Store.{filled}
use chroma_flow.Storage.Memory
use chroma_flow.Storage.Memory.{MemoryStorage}
use chroma_flow.Storage.Memory.Wired.{wired, wired_laws, wired-NeverFails, notified}
use chroma_flow.Blob.Memory.{MemoryStore, memory_blobs}
use chroma_flow.Worker.Retry.Laws.{IsRetried}
use chroma_flow.Worker.Process.Gauge.{gauge}
use chroma_flow.Worker.Loop.{Round, WorkerState, worker}
use chroma_flow.Worker.Loop.Balance.{acknowledged, begun, processed, worker_balances}
use chroma_flow.Queue.Memory.{MemoryQueue, memory_backend}
use chroma_flow.Worker.Pool.{Shared}
use chroma_flow.Worker.Process.{Point, rendering, marked, rendered, process_job}
use chroma_flow.Worker.Process.Steps.{
  put_error, before_last_set, canceled_view, when_rendered, end_result,
}
use chroma_flow.Worker.Process.Outcomes.{process_job-discards, process_job-ends}
use chroma_flow.Worker.Process.Races.{HasEnded, cancels_before_processing, cancel_is_lost}
use chroma_flow.Examples.Data.{
  short_queue, counted, store, laws, job_result, storage_with, shared, attempts, run,
}

abbrev State : Type 0
State = Shared (MemoryStorage × ℕ) MemoryStore

abbrev alone : Point → State → State
alone p w = w

-- A cancellation while the page is rendered.
abbrev canceler : Point → State → State
canceler rendering w = record w { storage = (store.cancel 8 "a" w.storage).1 }
canceler _ w = w

pending_is_live : canceled_view (laws.view (shared (storage_with pending)).storage "a") ≡ none
unfolding wired_laws Dict.get
pending_is_live = refl

canceled_is_canceled :
    canceled_view (laws.view (shared (storage_with canceled)).storage "a")
    ≡ some (job_result canceled)
unfolding wired_laws Dict.get
canceled_is_canceled = refl

alone_is_live :
    canceled_view (
      laws.view
        (when_rendered store memory_blobs alone run (shared (storage_with pending))).storage
        "a")
    ≡ none
unfolding wired_laws wired notified marked Memory.set Memory.ordered Dict.get Dict.put
alone_is_live = refl

canceler_cancels :
    canceled_view (
      laws.view
        (when_rendered store memory_blobs canceler run (shared (storage_with pending))).storage
        "a")
    ≡ some (record (job_result canceled) { pdf_key = ""; error = "job canceled"; updated_at = 8 })
unfolding wired_laws wired notified marked Memory.set Memory.ordered Memory.get Memory.cancel
    Memory.cancel_found Dict.get Dict.put
canceler_cancels = refl

process_job-discards_example :
    let w₁ = when_rendered store memory_blobs canceler run (shared (storage_with pending)) in
    let w' = process_job store memory_blobs canceler run (shared (storage_with pending)) in
    (w'.storage ≡ w₁.storage) × (w'.blobs ≡ w₁.blobs) × (w'.posts ≡ w₁.posts)
process_job-discards_example =
    process_job-discards store laws memory_blobs canceler run (shared (storage_with pending))
      pending_is_live canceler_cancels

process_job-ends_example :
    let w₁ = when_rendered store memory_blobs alone run (shared (storage_with pending)) in
    let pdf = rendered store memory_blobs alone run in
    let last = before_last_set memory_blobs alone run pdf w₁ in
    let w' = process_job store memory_blobs alone run (shared (storage_with pending)) in
    (laws.view w'.storage "a"
      ≡ some (
          laws.kept (
            filled 9
              (laws.view last.storage "a")
              (end_result run pdf (put_error memory_blobs alone run pdf w₁)))))
    × (w'.blobs ≡ last.blobs)
process_job-ends_example =
    process_job-ends store laws memory_blobs alone run (shared (storage_with pending))
      (wired-NeverFails counted) pending_is_live alone_is_live

pending_is_stored :
    laws.view (shared (storage_with pending)).storage "a" ≡ some (job_result pending)
unfolding wired_laws Dict.get
pending_is_stored = refl

cancel_is_lost_example :
    ((told : _) × ((store.cancel 5 "a" (shared (storage_with pending)).storage).0 ≡ ok told)
      × (told.status ≡ canceled))
    × HasEnded (
        laws.view
          (process_job store memory_blobs
            (cancels_before_processing store 5 "a")
            run
            (shared (storage_with pending))).storage
          "a")
cancel_is_lost_example =
    cancel_is_lost store laws (wired-NeverFails counted) memory_blobs run
      (shared (storage_with pending)) 5 pending_is_stored refl

first_is_retried : (i : ℕ) → 1 ≤ i → i < 1 + 1 → IsRetried (attempts i)
first_is_retried zero h k = absurd (omega arith)
first_is_retried (suc zero) h k = record {
  error = text "timeout";
  failed = refl;
  live = refl;
  waited = refl;
}
first_is_retried (suc (suc i)) h k = absurd (omega arith)

abbrev rounds : List Round
rounds =
    record { popped = err (text "connection lost"); ctx_done = false }
    ∷ record { popped = ok run; ctx_done = false }
    ∷ record { popped = err context_canceled; ctx_done = true }
    ∷ record { popped = ok run; ctx_done = false }
    ∷ []

abbrev idle : WorkerState (MemoryStorage × ℕ) MemoryQueue MemoryStore
idle = record { shared = shared (storage_with pending); queue = short_queue; stopped = false }

worker_balances_example :
    let jobs = run ∷ [] in
    let before = begun idle.shared in
    let after = worker store memory_backend memory_blobs alone rounds idle in
    let processed_jobs = processed store memory_blobs alone jobs before in
    (after.queue ≡ acknowledged memory_backend jobs idle.queue)
    × (after.shared.storage ≡ processed_jobs.storage)
    × (after.shared.blobs ≡ processed_jobs.blobs)
    × (after.shared.posts ≡ processed_jobs.posts)
    × (after.stopped ≡ true)
    × (gauge after.shared ≡ gauge idle.shared)
worker_balances_example =
    worker_balances store memory_backend memory_blobs alone rounds idle (λ p w. refl)
