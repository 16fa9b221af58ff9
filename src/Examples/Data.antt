-- ===== src/Examples/Data.antt =====
-- The states, requests and jobs of the examples: the memory storage with a watcher that counts
-- how often it is called, the memory queue and the memory blob store.
use chroma_flow.Base.{refl, ℕ, zero, suc, true, false, Option, none, some, List, [], ◌∷◌}
use chroma_flow.Queue.Types.{text, ok, err, Job, JobResult, JobStatus, JobSnapshot}
use chroma_flow.Queue.Memory.{MemoryQueue}
use chroma_flow.Storage.Store.{Store, StoreLaws}
use chroma_flow.Storage.Memory.{MemoryStorage, get}
use chroma_flow.Storage.Memory.Wired.{wired, wired_laws}
use chroma_flow.Blob.Memory.{MemoryStore}
use chroma_flow.Cancellation.{Registry}
use chroma_flow.Api.Writer.{fresh}
use chroma_flow.Api.World.{World, HandlerOptions}
use chroma_flow.Api.Submit.{SubmitRequest, Call, Draw, Submission}
use chroma_flow.Worker.Retry.{Attempt}
use chroma_flow.Worker.Pool.{Shared}
use chroma_flow.Worker.Process.{Run}

abbrev pub counted : List JobSnapshot → ℕ → ℕ
counted jobs n = suc n

abbrev pub store : Store (MemoryStorage × ℕ)
store = wired counted

abbrev pub laws : StoreLaws store
laws = wired_laws counted

abbrev pub job : Job
job = record {
  id = "a";
  url = "http://example.com";
  idempotency_key = "k";
  callback_url = "";
  request_id = "r1";
  queue_message_id = "";
  lease_until = 0;
}

abbrev pub job_result : JobStatus → JobResult
job_result status = record {
  url = "http://example.com";
  status = status;
  pdf = [];
  pdf_key = "pdf/a.pdf";
  pdf_size = 0;
  error = "";
  idempotency_key = "k";
  callback_url = "";
  request_id = "r1";
  created_at = 5;
  updated_at = 5;
}

-- A storage with one job, or with none.
abbrev pub storage_with : JobStatus → MemoryStorage
storage_with status = record {
  results = ("a", job_result status) ∷ [];
  idempotency = ("k", "a") ∷ [];
  order = "a" ∷ [];
  on_set = true;
}

abbrev pub no_jobs : MemoryStorage
no_jobs = record { results = []; idempotency = []; order = []; on_set = true }

abbrev pub no_blobs : MemoryStore
no_blobs = record { blobs = [] }

abbrev pub no_contexts : Registry
no_contexts = record { cancels = [] }

abbrev pub short_queue : MemoryQueue
short_queue = record { jobs = []; size = 1; receivers = 0 }

abbrev pub full_queue : MemoryQueue
full_queue = record { jobs = job ∷ []; size = 1; receivers = 0 }

abbrev pub shared : MemoryStorage → Shared (MemoryStorage × ℕ) MemoryStore
shared s = record {
  storage = (s, 0);
  blobs = no_blobs;
  metrics = none;
  cancels = no_contexts;
  canceled = [];
  posts = [];
}

-- The first attempt fails, the others succeed.
abbrev pub attempts : ℕ → Attempt
attempts (suc zero) = record { rendered = err (text "timeout"); ctx_err = none; woken = none }
attempts _ = record { rendered = ok (37 ∷ 80 ∷ []); ctx_err = none; woken = none }

abbrev pub run : Run
run = record {
  job = job;
  max_retries = 1;
  attempts = attempts;
  shutdown = false;
  duration = 1000;
  started_at = 6;
  ended_at = 9;
  ctx = 1;
  notifier = none;
}

abbrev pub world : MemoryStorage → MemoryQueue → World (MemoryStorage × ℕ) MemoryQueue MemoryStore
world s q = record {
  storage = (s, 0);
  queue = q;
  blobs = no_blobs;
  metrics = none;
  cancels = no_contexts;
  canceled = [];
  writer = fresh;
}

abbrev pub opts : HandlerOptions
opts = record { require_idempotency_key = false; default_webhook_url = "" }

abbrev pub call : Call
call = record { body = []; key_header = ""; request_id = "r1" }

abbrev pub draw : Draw
draw = record { uuid = "a"; now = 5; stored_at = 6 }

abbrev pub second_draw : Draw
second_draw = record { uuid = "b"; now = 7; stored_at = 8 }

abbrev pub submission : Submission
submission = record {
  url = "http://example.com";
  idempotency_key = "k";
  callback_url = "";
  request_id = "r1";
}

abbrev pub no_body : List ℕ → Option SubmitRequest
no_body body = none

-- The memory storage with a `Set` that always fails, as a lost connection makes it.
abbrev pub broken : Store (MemoryStorage × ℕ)
broken = record store { set = λ now id r w. (r, some (text "connection lost"), w) }

unfoldable pub broken_laws : StoreLaws broken
unfolding wired wired_laws get
broken_laws = record {
  view = laws.view;
  holder = laws.holder;
  kept = laws.kept;
  told = laws.told;
  kept-status = laws.kept-status;
  kept-idempotency_key = laws.kept-idempotency_key;
  kept-pdf_key = laws.kept-pdf_key;
  told_lem = laws.told_lem;
  get_lem = laws.get_lem;
  view-set = λ now id r w j h. absurd (cc);
  view-set_error = λ now id r w j h. refl;
  holder-set = λ now id r w key. refl;
  view-delete = laws.view-delete;
  holder-delete = laws.holder-delete;
  result-cancel = laws.result-cancel;
  view-cancel = laws.view-cancel;
  result-reserve = laws.result-reserve;
  view-reserve = laws.view-reserve;
  holder-reserve = laws.holder-reserve;
}
