-- ===== src/Examples/Stores.antt =====
-- internal/queue, internal/storage, internal/blob, internal/cancellation, internal/observability
-- and internal/webhook at small inputs.
use chroma_flow.Base.{
  ℕ, ◌≤◌, String, ◌≡◌, refl, true, false, none, some, List, [], ◌∷◌, ◌++◌, length,
}
use chroma_flow.Base.Dict
use chroma_flow.Base.Dict.{String-eq}
use chroma_flow.Queue.Types.{ok, pending, completed, failed}
use chroma_flow.Queue.Memory.History.{pushes, pops, gives_up, run, start, queue_is_fifo}
use chroma_flow.Queue.Memory.History
use chroma_flow.Storage.Store.{StoreLaws, NeverFails}
use chroma_flow.Storage.Memory.{MemoryStorage, list, new_memory_storage}
use chroma_flow.Storage.Memory.Order.{
  Call, sets, cancels, deletes, apply_all, IsOrdered, storage_stays-IsOrdered,
}
use chroma_flow.Storage.Memory.Listing.{IsListing, list-IsListing}
use chroma_flow.Storage.Memory.Laws.{view}
use chroma_flow.Storage.Memory.Races.{cancel_beside, cancel_beside-overwrites}
use chroma_flow.Queue.Types.{JobResult, canceled}
use chroma_flow.Storage.Memory.Wired.{wired, wired-IsStore}
use chroma_flow.Observability.Metrics.{count_at, render_buckets}
use chroma_flow.Observability.Metrics.Histogram.{
  Render, finish_all, buckets_at, render_metrics_count,
}
use chroma_flow.Webhook.{Event}
use chroma_flow.Examples.Data.{counted, job, job_result, storage_with}

abbrev queue_calls : List History.Call
queue_calls = pops none false ∷ pushes job ∷ pushes job ∷ pushes job ∷ pops none true ∷ []

queue_is_fifo_example :
    let h = run queue_calls (start 1) in
    (h.accepted ≡ h.delivered ++ h.queue.jobs) × (length h.queue.jobs ≤ 1)
queue_is_fifo_example = queue_is_fifo 1 queue_calls

abbrev storage_calls : List Call
storage_calls =
    sets 3 "a" (job_result pending)
    ∷ sets 4 "b" (job_result pending)
    ∷ sets 5 "a" (job_result failed)
    ∷ cancels 6 "b"
    ∷ deletes "a"
    ∷ []

storage_stays-IsOrdered_example : IsOrdered (apply_all storage_calls new_memory_storage)
storage_stays-IsOrdered_example = storage_stays-IsOrdered storage_calls

abbrev called : MemoryStorage
called = apply_all storage_calls new_memory_storage

list-IsListing_example : IsListing called (list called)
list-IsListing_example = list-IsListing called (storage_stays-IsOrdered storage_calls)

wired-IsStore_example :
    (laws : StoreLaws (wired counted)) × ((w : MemoryStorage × ℕ) (id : String)
      → laws.view w id ≡ Dict.get id w.0.results)
    × ((r : JobResult) → laws.kept r ≡ r)
    × ((w : MemoryStorage × ℕ) (key : String) → laws.holder w key ≡ Dict.get key w.0.idempotency)
    × NeverFails (wired counted)
wired-IsStore_example = wired-IsStore counted

abbrev renders : List Render
renders =
    record { status = "completed"; duration = 2000000000; bytes = 10 }
    ∷ record { status = "failed"; duration = 1; bytes = 0 }
    ∷ []

render_metrics_count_example :
    let m = finish_all renders in
    (count_at "completed" m.render_count ≡ 1)
    × (buckets_at render_buckets "completed" m.render_bucket_counts
        ≡ 0 ∷ 1 ∷ 1 ∷ 1 ∷ 1 ∷ 1 ∷ 1 ∷ 1 ∷ [])
    × (m.pdf_bytes ≡ 10)
render_metrics_count_example = render_metrics_count "completed" renders

abbrev event : Event
event = record {
  job_id = "a";
  url = "http://example.com";
  status = completed;
  error = "";
  pdf_key = "pdf/a.pdf";
  pdf_size = 2;
  request_id = "r1";
}

abbrev hook : String
hook = "http://hook"

pending_is_read : view (storage_with pending) "a" ≡ some (job_result pending)
unfolding Dict.get
pending_is_read = refl

completed_is_later : view (storage_with completed) "a" ≡ some (job_result completed)
unfolding Dict.get
completed_is_later = refl

cancel_beside-overwrites_example :
    let (told, s', _) = cancel_beside (λ s. storage_with completed) 9 "a" (storage_with pending) in
    (end : JobResult) × (view s' "a" ≡ some end)
    × (told ≡ ok end)
    × (end.status ≡ canceled)
    × (end.pdf_key ≡ "pdf/a.pdf")
    × (end.pdf_size ≡ 0)
cancel_beside-overwrites_example =
    cancel_beside-overwrites (λ s. storage_with completed) 9 "a" (storage_with pending)
      pending_is_read refl completed_is_later
