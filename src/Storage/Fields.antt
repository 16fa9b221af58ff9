-- ===== src/Storage/Fields.antt =====
-- internal/storage/redis.go: the fields of a job's hash. The two directions of `time.RFC3339Nano` are
-- parameters: `format` is `t.Format`, and `parse` is `time.Parse`, with the zero time where that
-- fails, as the code ignores its error. A `pdf_size` is the length of a PDF: a negative number,
-- which no `Set` of the source writes, reads as 0.
use chroma_flow.Base.{
  ℕ, String, Option, none, some, List, [], ◌∷◌, ◌==◌, if◌then◌else◌, ℤ, pos, negsuc,
}
use chroma_flow.Base.Dict
use chroma_flow.Base.Dict.{Dict, String-eq}
use chroma_flow.Queue.Types.{
  text, Result, ok, err, JobStatus, pending, processing, completed, failed, canceled, other,
  status_text, JobResult,
}
use chroma_flow.Redisx.Strconv.{itoa, atoi_or_zero}

-- `queue.JobStatus(t)`.
unfoldable pub status_of : String → JobStatus
status_of t =
    if t == "pending"
    then pending
    else if t == "processing"
    then processing
    else if t == "completed"
    then completed
    else if t == "failed"
    then failed
    else if t == "canceled"
    then canceled
    else other t

pub record Formats : Type 0 where
  pub format : ℕ → String
  pub parse : String → ℕ

-- The loop of `Get` that makes a map of the fields and values.
unfoldable pub gathered : List String → Dict String String → Dict String String
gathered [] m = m
gathered (k ∷ []) m = m
gathered (k ∷ v ∷ rest) m = gathered rest (Dict.put k v m)

abbrev pub or_empty : Option String → String
or_empty none = ""
or_empty (some v) = v

abbrev pub size_of : ℤ → ℕ
size_of (pos n) = n
size_of (negsuc n) = 0

-- The result that the fields hold.
unfoldable pub decoded : Formats → (String → Option String) → JobResult
decoded formats m = record {
  url = or_empty (m "url");
  status = status_of (or_empty (m "status"));
  pdf = [];
  pdf_key = or_empty (m "pdf_key");
  pdf_size = size_of (atoi_or_zero (or_empty (m "pdf_size")));
  error = or_empty (m "error");
  idempotency_key = or_empty (m "idempotency_key");
  callback_url = or_empty (m "callback_url");
  request_id = or_empty (m "request_id");
  created_at = formats.parse (or_empty (m "created_at"));
  updated_at = formats.parse (or_empty (m "updated_at"));
}

-- The fields that `Set` writes.
unfoldable pub encoded : Formats → JobResult → Dict String String
encoded formats r =
    ("url", r.url)
    ∷ ("status", status_text r.status)
    ∷ ("pdf_key", r.pdf_key)
    ∷ ("pdf_size", itoa r.pdf_size)
    ∷ ("error", r.error)
    ∷ ("idempotency_key", r.idempotency_key)
    ∷ ("callback_url", r.callback_url)
    ∷ ("request_id", r.request_id)
    ∷ ("created_at", formats.format r.created_at)
    ∷ ("updated_at", formats.format r.updated_at)
    ∷ []

-- `Get`, of the items of the reply.
unfoldable pub of_items : Formats → List String → Result JobResult
of_items formats [] = err (text "job not found")
of_items formats (x ∷ xs) = ok (decoded formats (λ k. Dict.get k (gathered (x ∷ xs) [])))
