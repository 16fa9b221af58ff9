-- ===== src/Examples/Api.antt =====
-- internal/api/handler.go at small inputs.
use chroma_flow.Base.{
  ℕ, String, cat, ◌≡◌, ◌≢◌, inr, refl, true, false, Option, none, some, ◌==◌, eq_iff, if◌then◌else◌,
  arith,
}
use chroma_flow.Base.Dict
use chroma_flow.Base.Dict.{String-eq}
use chroma_flow.Cancellation
use chroma_flow.Queue.Types.{is_queue_full, queue_full, text, err, pending, completed}
use chroma_flow.Queue.Memory
use chroma_flow.Queue.Memory.{MemoryQueue, memory_backend}
use chroma_flow.Storage.Store.{filled, canceled_result, canceled_with, as_canceled}
use chroma_flow.Storage.Memory.{MemoryStorage}
use chroma_flow.Storage.Memory.Wired.{wired_laws, wired-NeverFails}
use chroma_flow.Blob.Memory.{MemoryStore, memory_blobs, get as blob_get}
use chroma_flow.Api.Writer.{submit_response, error_response, fresh}
use chroma_flow.Api.World.{World}
use chroma_flow.Api.Validate.{Url}
use chroma_flow.Api.Submit.{valid, rejected, job_of, pending_result, check_call, submit_checked}
use chroma_flow.Api.Submit.Branches.{Responds}
use chroma_flow.Api.Submit.Accepted.{submit_accepts, submit-push_error}
use chroma_flow.Api.Submit.Replay.{submit_twice, submit-set_error}
use chroma_flow.Api.Jobs.{get_job, cancel_job, with_canceled}
use chroma_flow.Api.Jobs.Reads.{get_job-Responds, expected}
use chroma_flow.Api.Jobs.Cancels.{cancel_job-Responds, canceled_answer}
use chroma_flow.Examples.Data.{
  counted, store, laws, job_result, storage_with, no_jobs, short_queue, full_queue, world, opts,
  call, draw, second_draw, submission, no_body, broken, broken_laws,
}

abbrev quiet : World (MemoryStorage × ℕ) MemoryQueue MemoryStore
quiet = world no_jobs short_queue

abbrev busy : World (MemoryStorage × ℕ) MemoryQueue MemoryStore
busy = world no_jobs full_queue

abbrev with_job : World (MemoryStorage × ℕ) MemoryQueue MemoryStore
with_job = world (storage_with pending) short_queue

abbrev with_pdf : World (MemoryStorage × ℕ) MemoryQueue MemoryStore
with_pdf = world (storage_with completed) short_queue

key_is_free : laws.holder quiet.storage "k" ≡ none
unfolding wired_laws Dict.get
key_is_free = refl

id_is_free : laws.view quiet.storage "a" ≡ none
unfolding wired_laws Dict.get
id_is_free = refl

key_is_held : laws.holder with_job.storage "k" ≡ some "a"
unfolding wired_laws Dict.get
key_is_held = refl

pdf_is_stored : laws.view with_pdf.storage "a" ≡ some (job_result completed)
unfolding wired_laws Dict.get
pdf_is_stored = refl

pdf_is_missing : (memory_blobs.get "pdf/a.pdf" with_pdf.blobs).0 ≡ err (text "object not found")
unfolding memory_blobs blob_get Dict.get
pdf_is_missing = refl

job_fits : (memory_backend.push (job_of submission draw) short_queue).0 ≡ none
unfolding Memory.push Memory.send
job_fits = refl

no_json : check_call no_body (λ uri. none) opts call ≡ rejected 400 "invalid_json" "Invalid request"
unfolding check_call
no_json = refl

submit_accepts_example :
    let w' = submit_checked store memory_backend call draw (valid submission) quiet in
    Responds 202 (submit_response "a" (cat "/pdf/" "a") false) w'
    × ((j : String)
        → laws.view w'.storage j ≡ (
            if "a" == j
            then some (
                laws.kept (filled 6 (laws.view quiet.storage "a") (pending_result submission draw)))
            else laws.view quiet.storage j))
    × ((key : String)
        → laws.holder w'.storage key ≡ (
            if "k" == ""
            then laws.holder quiet.storage key
            else if "k" == key
            then some "a"
            else laws.holder quiet.storage key))
    × (w'.queue ≡ (memory_backend.push (job_of submission draw) short_queue).1)
submit_accepts_example =
    submit_accepts store laws memory_backend call draw submission quiet (inr key_is_free) refl
      (wired-NeverFails counted _ _ _ _) job_fits

job_is_refused : (memory_backend.push (job_of submission draw) full_queue).0 ≡ some queue_full
unfolding Memory.push Memory.send
job_is_refused = refl

busy_key_is_free : laws.holder busy.storage "k" ≡ none
unfolding wired_laws Dict.get
busy_key_is_free = refl

busy_id_is_free : laws.view busy.storage "a" ≡ none
unfolding wired_laws Dict.get
busy_id_is_free = refl

submit-push_error_example :
    let w' = submit_checked store memory_backend call draw (valid submission) busy in
    (if is_queue_full queue_full
      then Responds 503 (error_response "queue_full" "Queue is full" "r1") w'
      else Responds 500 (error_response "enqueue_error" "Failed to queue job" "r1") w')
    × ((j : String) → laws.view w'.storage j ≡ laws.view busy.storage j)
    × ((key : String) → laws.holder w'.storage key ≡ laws.holder busy.storage key)
submit-push_error_example =
    submit-push_error store laws memory_backend call draw submission busy (inr busy_key_is_free)
      refl busy_id_is_free (wired-NeverFails counted _ _ _ _) job_is_refused

has_key : submission.idempotency_key ≢ ""
has_key e = ground (arith, eq_iff "k" "")

submit_twice_example :
    let w₁ = record (submit_checked store memory_backend call draw (valid submission) quiet) {
      writer = fresh;
    } in
    let w₂ = submit_checked store memory_backend call second_draw (valid submission) w₁ in
    Responds 202 (submit_response "a" (cat "/pdf/" "a") true) w₂
    × ((j : String) → laws.view w₂.storage j ≡ laws.view w₁.storage j)
    × (w₂.queue ≡ (memory_backend.push (job_of submission draw) short_queue).1)
submit_twice_example =
    submit_twice store laws memory_backend call call draw second_draw submission submission quiet
      refl has_key refl key_is_free (wired-NeverFails counted _ _ _ _) job_fits

broken_key_is_free : broken_laws.holder quiet.storage "k" ≡ none
unfolding broken_laws wired_laws Dict.get
broken_key_is_free = refl

submit-set_error_example :
    let w' = submit_checked broken memory_backend call draw (valid submission) quiet in
    Responds 500 (error_response "storage_error" "Failed to initialize job metadata" "r1") w'
    × ((j : String) → broken_laws.view w'.storage j ≡ broken_laws.view quiet.storage j)
    × (broken_laws.holder w'.storage "k" ≡ some "a")
submit-set_error_example =
    submit-set_error broken broken_laws memory_backend call draw submission quiet refl has_key
      broken_key_is_free refl

cancel_job-Responds_example :
    let w' = cancel_job store 9 "r1" "a" with_job in
    let after = canceled_result laws.kept 9 (laws.view with_job.storage "a") in
    let (status, payload) =
      canceled_answer (canceled_with as_canceled (laws.view with_job.storage "a")) "r1" "a" in
    Responds status payload w'
    × ((j : String)
        → laws.view w'.storage j ≡ (if "a" == j then after else laws.view with_job.storage j))
    × (w'.queue ≡ with_job.queue)
    × (w'.canceled ≡ with_canceled (Cancellation.cancel "a" with_job.cancels).0 with_job.canceled)
cancel_job-Responds_example = cancel_job-Responds store laws 9 "r1" "a" with_job refl

get_job-Responds_example :
    let (status, payload) =
      expected
        (laws.view with_pdf.storage "a")
        (λ key. (memory_blobs.get key with_pdf.blobs).0)
        "r1"
        "a" in
    let w' = get_job store memory_blobs "r1" "a" with_pdf in
    Responds status payload w' × (w'.storage ≡ with_pdf.storage) × (w'.queue ≡ with_pdf.queue)
get_job-Responds_example = get_job-Responds store laws memory_blobs "r1" "a" with_pdf refl

abbrev example_text : String
example_text = "http://example.com"

abbrev example_url : String → Option Url
example_url raw = some (record { scheme = "http"; host = "example.com" })
