-- ===== src/Api/Jobs/Reads.antt =====
-- internal/api/handler.go: what `GetJob` answers.
use chroma_flow.Base.{
  ℕ, String, cat, ◌≡◌, refl, inl, inr, true, Option, none, some, List, [], if◌then◌else◌, arith,
  Option-cases,
}
use chroma_flow.Base.Dict
use chroma_flow.Base.Dict.{Dict, String-eq, get-put}
use chroma_flow.Queue.Types.{Error, Result, ok, err, JobResult, is_completed}
use chroma_flow.Storage.Store.{Store, StoreLaws}
use chroma_flow.Blob.Store.{BlobStore}
use chroma_flow.Api.Writer.{Payload, job_response, error_response, Writer, bytes, fresh}
use chroma_flow.Api.World.{World}
use chroma_flow.Api.Submit.Branches.{Responds}
use chroma_flow.Api.Jobs.{get_job}

-- The headers that went out.
abbrev pub sent_header : Writer → Dict String String
sent_header w = elim w.sent [ none ↦ [] | some (status, header) ↦ header ]

-- What a client is told of a job: its stored result, and what the blob store returns for its key.
abbrev pub expected : Option JobResult → (String → Result (List ℕ)) → String → String → ℕ × Payload
expected none blob request_id id = (404, error_response "job_not_found" "Job not found" request_id)
expected (some r) blob request_id id =
    if is_completed r.status
    then (elim (blob r.pdf_key) [
      | err e ↦ (500, error_response "pdf_not_found" "PDF not found" request_id)
      | ok pdf ↦ (200, bytes pdf)
    ])
    else (200, job_response id r.url r.status r.error)

module _ {S Q B : Type 0} (store : Store S) (laws : StoreLaws store) (blobs : BlobStore B)
    (request_id id : String) (w : World S Q B) where
  -- `GetJob` answers a job that is not stored with status 404, a completed job with the bytes of
  -- its PDF, or status 500 where the blob store has none, and any other job with its status as
  -- JSON; it writes one response, and changes neither the storage nor the queue.
  pub get_job-Responds :
      w.writer ≡ fresh
      → let (status, payload) =
          expected (laws.view w.storage id) (λ key. (blobs.get key w.blobs).0) request_id id in
        let w' = get_job store blobs request_id id w in
        Responds status payload w' × (w'.storage ≡ w.storage) × (w'.queue ≡ w.queue)
  unfolding get_job
  get_job-Responds h =
      rw (laws.get_lem id w.storage) (elim (Option-cases (laws.view w.storage id)) [
        | inl e ↦ rw e (ground arith)
        | inr (r, e) ↦ rw e (ground arith)
      ])

  -- A completed job whose PDF the blob store does not return is answered with an error in JSON
  -- that still carries the header of an attachment, with the name of the PDF.
  pub get_job-missing_pdf :
      (r : JobResult) {e : Error}
      → w.writer ≡ fresh
      → laws.view w.storage id ≡ some r
      → is_completed r.status ≡ true
      → (blobs.get r.pdf_key w.blobs).0 ≡ err e
      → let w' = get_job store blobs request_id id w in
        Responds 500 (error_response "pdf_not_found" "PDF not found" request_id) w'
        × (Dict.get "Content-Type" (sent_header w'.writer) ≡ some "application/json")
        × (Dict.get "Content-Disposition" (sent_header w'.writer)
            ≡ some (cat "attachment; filename=" (cat id ".pdf")))
  unfolding get_job Dict.get Dict.put
  get_job-missing_pdf r h stored done missing =
      rw (laws.get_lem id w.storage)
        (rw stored (rw done (rw missing (rw h (refl, refl), rw h, rw h))))
