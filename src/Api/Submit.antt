-- ===== src/Api/Submit.antt =====
-- internal/api/handler.go: `SubmitJob`, over the storage, the queue, `json.Decoder` and
-- `url.ParseRequestURI`. The random job id and the times that the handler and the storage read
-- from the clock are the call's `Draw`.
pub mod Branches
pub mod Accepted
pub mod Replay
use chroma_flow.Base.{
  ℕ, ◌^◌, String, cat, Bool, true, false, Option, none, some, List, [], take, trim_space, ◌&&◌,
  ◌==◌, if◌then◌else◌,
}
use chroma_flow.Queue.Types.{Error, is_queue_full, Result, ok, err, pending, Job, JobResult}
use chroma_flow.Queue.Backend.{Backend}
use chroma_flow.Storage.Store.{Store}
use chroma_flow.Api.Writer.{submit_response, set_header, write_header, write}
use chroma_flow.Api.World.{World, HandlerOptions, reject, record_submitted}
use chroma_flow.Api.Validate.{Url, validate_url}

pub record SubmitRequest : Type 0 where
  pub url : String
  pub idempotency_key : String
  pub callback_url : String

-- The request: its body, its `Idempotency-Key` header and the request id of its context.
pub record Call : Type 0 where
  pub body : List ℕ
  pub key_header : String
  pub request_id : String

pub record Draw : Type 0 where
  pub uuid : String
  pub now : ℕ
  pub stored_at : ℕ

-- What is submitted, once the request is found valid.
pub record Submission : Type 0 where
  pub url : String
  pub idempotency_key : String
  pub callback_url : String
  pub request_id : String

-- `1<<20`, the limit of `http.MaxBytesReader`.
abbrev pub max_body : ℕ
max_body = 2 ^ 20

unfoldable pub key_of : SubmitRequest → Call → String
key_of req c =
    let key = trim_space req.idempotency_key in if key == "" then trim_space c.key_header else key

unfoldable pub callback_of : SubmitRequest → HandlerOptions → String
callback_of req opts =
    let callback = trim_space req.callback_url in
    if callback == "" then trim_space opts.default_webhook_url else callback

abbrev pub job_of : Submission → Draw → Job
job_of sub d = record {
  id = d.uuid;
  url = sub.url;
  idempotency_key = sub.idempotency_key;
  callback_url = sub.callback_url;
  request_id = sub.request_id;
  queue_message_id = "";
  lease_until = 0;
}

-- The result that is stored for a new job.
abbrev pub pending_result : Submission → Draw → JobResult
pending_result sub d = record {
  url = sub.url;
  status = pending;
  pdf = [];
  pdf_key = "";
  pdf_size = 0;
  error = "";
  idempotency_key = sub.idempotency_key;
  callback_url = sub.callback_url;
  request_id = sub.request_id;
  created_at = d.now;
  updated_at = d.now;
}

-- What the checks at the head of `SubmitJob` find: what is submitted, or the rejection.
pub data Checked : Type 0 where
  valid : Submission → Checked
  rejected : (status : ℕ) (code message : String) → Checked

module _ (decode : List ℕ → Option SubmitRequest) (parse_request_uri : String → Option Url) where
  abbrev validated : String → Option String
  validated = validate_url parse_request_uri

  check_callback : Submission → Checked
  check_callback sub =
      if sub.callback_url == "" then valid sub else elim (validated sub.callback_url) [
        | some message ↦ rejected 400 "invalid_callback_url" (cat "callback_url " message)
        | none ↦ valid sub
      ]

  unfoldable pub check_request : HandlerOptions → Call → SubmitRequest → Checked
  unfolding check_callback key_of callback_of
  check_request opts c req =
      let url = trim_space req.url in
      elim (validated url) [
        | some message ↦ rejected 400 "invalid_url" message
        | none ↦
            let key = key_of req c in
            if opts.require_idempotency_key && key == ""
            then rejected 400 "missing_idempotency_key" "Idempotency key is required"
            else check_callback (record {
              url = url;
              idempotency_key = key;
              callback_url = callback_of req opts;
              request_id = c.request_id;
            })
      ]

  unfoldable pub check_call : HandlerOptions → Call → Checked
  unfolding check_request
  check_call opts c = elim (decode (take max_body c.body)) [
    | none ↦ rejected 400 "invalid_json" "Invalid request"
    | some req ↦ check_request opts c req
  ]

module _ {S Q B : Type 0} (store : Store S) (backend : Backend Q) where
  -- The JSON answer with status 202.
  unfoldable pub accept : String → Bool → World S Q B → World S Q B
  unfolding set_header write_header write
  accept id idempotent w = record w {
    writer =
        write (submit_response id (cat "/pdf/" id) idempotent)
          (write_header 202 (set_header "Content-Type" "application/json" w.writer));
  }

  -- After `h.queue.Push`.
  unfoldable pub pushed : Submission → Draw → Option Error → World S Q B → World S Q B
  unfolding accept record_submitted reject
  pushed sub d none w = accept d.uuid false (record_submitted w)
  pushed sub d (some e) w =
      let (_, s) = store.delete d.uuid w.storage in
      let w' = record w { storage = s } in
      if is_queue_full e
      then reject sub.request_id 503 "queue_full" "Queue is full" w'
      else reject sub.request_id 500 "enqueue_error" "Failed to queue job" w'

  -- After `h.storage.Set`.
  unfoldable pub initialized : Submission → Draw → Option Error → World S Q B → World S Q B
  unfolding pushed reject
  initialized sub d none w =
      let (e, q) = backend.push (job_of sub d) w.queue in pushed sub d e (record w { queue = q })
  initialized sub d (some e) w =
      reject sub.request_id 500 "storage_error" "Failed to initialize job metadata" w

  -- After `h.storage.ReserveIdempotencyKey`.
  unfoldable pub reserved : Submission → Draw → Result (String × Bool) → World S Q B → World S Q B
  unfolding initialized accept reject
  reserved sub d (err e) w =
      reject sub.request_id 500 "idempotency_error" "Failed to reserve idempotency key" w
  reserved sub d (ok (holder, false)) w = accept holder true w
  reserved sub d (ok (holder, true)) w =
      let (_, e, s) = store.set d.stored_at d.uuid (pending_result sub d) w.storage in
      initialized sub d e (record w { storage = s })

  unfoldable pub submit_checked : Call → Draw → Checked → World S Q B → World S Q B
  unfolding reserved reject
  submit_checked c d (rejected status code message) w = reject c.request_id status code message w
  submit_checked c d (valid sub) w =
      let (r, s) = store.reserve_idempotency_key sub.idempotency_key d.uuid w.storage in
      reserved sub d r (record w { storage = s })

  -- `SubmitJob`.
  unfoldable pub submit_job :
      (decode : List ℕ → Option SubmitRequest) (parse_request_uri : String → Option Url)
      → HandlerOptions
      → Call
      → Draw
      → World S Q B
      → World S Q B
  unfolding submit_checked check_call
  submit_job decode parse_request_uri opts c d w =
      submit_checked c d (check_call decode parse_request_uri opts c) w
