-- ===== src/Examples/Pipeline.antt =====
-- One job through the memory backends, beside a worker that others leave alone.
use chroma_flow.Base.{ℕ, cat, ◌≡◌, refl, inr, false, none, [], ◌∷◌}
use chroma_flow.Base.Dict
use chroma_flow.Queue.Types.{ok}
use chroma_flow.Queue.Memory.{MemoryQueue, got}
use chroma_flow.Storage.Memory.{MemoryStorage}
use chroma_flow.Storage.Memory.Wired.{wired_laws, wired-NeverFails}
use chroma_flow.Blob.Memory.{MemoryStore, memory_blobs, get-put-delete}
use chroma_flow.Blob.Memory
use chroma_flow.Api.Writer.{submit_response, bytes}
use chroma_flow.Api.World.{World}
use chroma_flow.Api.Submit.{job_of}
use chroma_flow.Api.Submit.Branches.{Responds}
use chroma_flow.Worker.Pool.{Shared}
use chroma_flow.Worker.Process.{Point, pdf_key_of}
use chroma_flow.Worker.Retry.{generate_with_retries}
use chroma_flow.Pipeline.{Undisturbed, Stores}
use chroma_flow.Pipeline.Delivery.{submitted, popped, answered, submitted_is_delivered}
use chroma_flow.Examples.Data.{
  counted, store, laws, no_jobs, short_queue, world, call, draw, submission, run,
}

abbrev State : Type 0
State = Shared (MemoryStorage × ℕ) MemoryStore

-- The other goroutines do nothing.
abbrev others : Point → State → State
others p s = s

abbrev start : World (MemoryStorage × ℕ) MemoryQueue MemoryStore
start = world no_jobs short_queue

key_is_free : laws.holder start.storage "k" ≡ none
unfolding wired_laws Dict.get
key_is_free = refl

pdf_is_stored : Stores memory_blobs (pdf_key_of (job_of submission draw)) (37 ∷ 80 ∷ [])
unfolding memory_blobs Memory.put
pdf_is_stored = record {
  puts = λ b. refl;
  gets = λ b.
      (get-put-delete (pdf_key_of (job_of submission draw)) (pdf_key_of (job_of submission draw))
        (37 ∷ 80 ∷ []) b).0;
}

undisturbed : Undisturbed laws memory_blobs "a" (pdf_key_of (job_of submission draw)) others
undisturbed = record { job_kept = λ p s. refl; blob_kept = λ p s. refl }

second_attempt_renders :
    (generate_with_retries run.max_retries run.attempts).result ≡ ok (37 ∷ 80 ∷ [])
unfolding generate_with_retries
second_attempt_renders = refl

submitted_is_delivered_example :
    Responds 202
      (submit_response "a" (cat "/pdf/" "a") false)
      (submitted store call draw submission start)
    × ((popped store call draw submission start).0 ≡ got (job_of submission draw))
    × Responds 200
        (bytes (37 ∷ 80 ∷ []))
        (answered store memory_blobs others call draw submission run start)
submitted_is_delivered_example =
    submitted_is_delivered store laws (wired-NeverFails counted) memory_blobs others call draw
      submission run (37 ∷ 80 ∷ []) start 0 refl refl (inr key_is_free) pdf_is_stored undisturbed
      second_attempt_renders
