-- ===== src/Queue/Types.antt =====
-- internal/queue/types.go: jobs, their status and their results.
-- A `time.Time` is the number of nanoseconds since Go's zero time, so 0 is the zero time.
-- An `error` is a value of `Error`; `queue_full` is `queue.ErrQueueFull`, `context_canceled` is
-- `context.Canceled`, `text` is made by `errors.New` and `wrap` by `fmt.Errorf` with `%w`.
use chroma_flow.Base.{ℕ, String, cat, Bool, true, false, List, eqb, ◌||◌}

pub data Error : Type 0 where
  queue_full duplicate_job job_not_available : Error
  context_canceled deadline_exceeded : Error
  text : String → Error
  wrap : String → Error → Error

-- `err.Error()`.
unfoldable pub message : Error → String
message queue_full = "queue is full"
message duplicate_job = "duplicate idempotency key"
message job_not_available = "job not available"
message context_canceled = "context canceled"
message deadline_exceeded = "context deadline exceeded"
message (text t) = t
message (wrap t e) = cat t (cat ": " (message e))

-- `errors.Is(err, queue.ErrQueueFull)`.
unfoldable pub is_queue_full : Error → Bool
is_queue_full queue_full = true
is_queue_full (wrap t e) = is_queue_full e
is_queue_full _ = false

-- `errors.Is(err, context.Canceled)`.
unfoldable pub is_context_canceled : Error → Bool
is_context_canceled context_canceled = true
is_context_canceled (wrap t e) = is_context_canceled e
is_context_canceled _ = false

-- Go's `(value, error)`, of which the code reads the value only beside a nil error.
pub data Result {ℓ} (A : Type ℓ) : Type ℓ where
  ok : A → Result A
  err : Error → Result A

pub data JobStatus : Type 0 where
  pending processing completed failed canceled : JobStatus
  -- any other text, which only a Redis hash can hold
  other : String → JobStatus

-- The status as its text.
unfoldable pub status_text : JobStatus → String
status_text pending = "pending"
status_text processing = "processing"
status_text completed = "completed"
status_text failed = "failed"
status_text canceled = "canceled"
status_text (other t) = t

abbrev pub is_canceled : JobStatus → Bool
is_canceled canceled = true
is_canceled _ = false

abbrev pub is_completed : JobStatus → Bool
is_completed completed = true
is_completed _ = false

abbrev pub is_failed : JobStatus → Bool
is_failed failed = true
is_failed _ = false

-- The test of `Cancel`: the job has ended.
abbrev pub is_terminal : JobStatus → Bool
is_terminal s = is_completed s || is_failed s || is_canceled s

pub record Job : Type 0 where
  pub id : String
  pub url : String
  pub idempotency_key : String
  pub callback_url : String
  pub request_id : String
  pub queue_message_id : String
  pub lease_until : ℕ

pub record JobResult : Type 0 where
  pub url : String
  pub status : JobStatus
  pub pdf : List ℕ
  pub pdf_key : String
  pub pdf_size : ℕ
  pub error : String
  pub idempotency_key : String
  pub callback_url : String
  pub request_id : String
  pub created_at : ℕ
  pub updated_at : ℕ

pub record JobSnapshot : Type 0 where
  pub id : String
  pub url : String
  pub status : JobStatus
  pub error : String
  pub created_at : ℕ
  pub updated_at : ℕ

-- `t.IsZero()`.
abbrev pub is_zero : ℕ → Bool
is_zero t = eqb t 0
