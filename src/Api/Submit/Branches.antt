-- ===== src/Api/Submit/Branches.antt =====
-- internal/api/handler.go: the branches of `SubmitJob`, one after another.
use chroma_flow.Base.{ℕ, String, cat, ◌≡◌, refl, Bool, Option, some, List, [], ◌∷◌, arith}
use chroma_flow.Queue.Backend.{Backend}
use chroma_flow.Storage.Store.{Store}
use chroma_flow.Api.Writer.{Payload, submit_response, error_response, status_of, fresh}
use chroma_flow.Api.World.{World, HandlerOptions, reject}
use chroma_flow.Api.Validate.{Url}
use chroma_flow.Api.Submit.{
  SubmitRequest, Call, Draw, Submission, rejected, check_callback, check_call, accept, submit_job,
}

-- The response is this payload alone, sent with this status.
abbrev pub Responds : {S Q B : Type 0} → ℕ → Payload → World S Q B → Type 0
Responds status payload w = (status_of w.writer ≡ some status) × (w.writer.body ≡ payload ∷ [])

module _ {S Q B : Type 0} where
  pub reject-Responds :
      (request_id : String) (status : ℕ) (code message : String) (w : World S Q B)
      → w.writer ≡ fresh
      → Responds status
          (error_response code message request_id)
          (reject request_id status code message w)
  unfolding reject
  reject-Responds request_id status code message w h = ground arith

  pub accept-Responds :
      (store : Store S) (backend : Backend Q) (id : String) (idempotent : Bool) (w : World S Q B)
      → w.writer ≡ fresh
      → Responds 202
          (submit_response id (cat "/pdf/" id) idempotent)
          (accept store backend id idempotent w)
  unfolding accept
  accept-Responds store backend id idempotent w h = ground arith

  -- The components other than the metrics and the response.
  abbrev pub SameState : World S Q B → World S Q B → Type 0
  SameState v w =
      (v.storage ≡ w.storage) × (v.queue ≡ w.queue) × (v.blobs ≡ w.blobs) × (v.cancels ≡ w.cancels)

  pub reject-SameState :
      (request_id : String) (status : ℕ) (code message : String) (w : World S Q B)
      → SameState (reject request_id status code message w) w
  unfolding reject
  reject-SameState request_id status code message w = (refl, refl, refl, refl)

module _ (decode : List ℕ → Option SubmitRequest) (parse_request_uri : String → Option Url) where
  rejected_callback :
      (sub : Submission) {status : ℕ} {code message : String}
      → check_callback decode parse_request_uri sub ≡ rejected status code message
      → status ≡ 400
  unfolding check_callback
  rejected_callback sub h = ground arith

  rejected_check :
      (opts : HandlerOptions) (c : Call) {status : ℕ} {code message : String}
      → check_call decode parse_request_uri opts c ≡ rejected status code message
      → status ≡ 400
  unfolding check_call
  rejected_check opts c h = ground arith

module _ {S Q B : Type 0} (store : Store S) (backend : Backend Q)
    (decode : List ℕ → Option SubmitRequest) (parse_request_uri : String → Option Url) where
  -- A request that the checks reject is answered with status 400 and the code and message of the
  -- failed check, and leaves the storage, the queue, the blobs and the registry as they were.
  pub submit_job-rejected :
      (opts : HandlerOptions) (c : Call) (d : Draw) (w : World S Q B) {status : ℕ}
      {code message : String}
      → w.writer ≡ fresh
      → check_call decode parse_request_uri opts c ≡ rejected status code message
      → let w' = submit_job store backend decode parse_request_uri opts c d w in
        Responds 400 (error_response code message c.request_id) w' × SameState w' w
  unfolding submit_job
  submit_job-rejected opts c d w {status} {code} {message} h e = rw e (
      rw (rejected_check decode parse_request_uri opts c e) (
        reject-Responds c.request_id 400 code message w h,
        reject-SameState c.request_id 400 code message w,
      ))
