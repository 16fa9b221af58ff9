-- ===== src/Storage/Store.antt =====
-- internal/storage/storage.go: the interface `Store`, over the states of an implementation, and
-- the laws that its clients rely on. A number before the job id is the time at which the call
-- reads the clock. `set` also returns the result as the caller's pointer shows it after the call.
use chroma_flow.Base.{
  ℕ, String, ◌≡◌, Bool, true, false, Option, none, some, List, ◌==◌, if◌then◌else◌,
}
use chroma_flow.Queue.Types.{
  Error, text, Result, ok, err, JobStatus, other, JobResult, JobSnapshot, canceled, is_terminal,
  is_zero,
}

pub record Store (S : Type 0) : Type 0 where
  pub set : ℕ → String → JobResult → S → JobResult × Option Error × S
  pub delete : String → S → Option Error × S
  pub get : String → S → Result JobResult × S
  pub cancel : ℕ → String → S → Result JobResult × S
  pub reserve_idempotency_key : String → String → S → Result (String × Bool) × S
  pub list : S → List JobSnapshot × S

abbrev pub found : Option JobResult → Result JobResult
found none = err (text "job not found")
found (some r) = ok r

-- `a`, or `b` where `a` is the empty text.
abbrev pub or_else : String → String → String
or_else a b = if a == "" then b else a

-- What is stored for a result, beside what was stored before.
abbrev pub filled : ℕ → Option JobResult → JobResult → JobResult
filled now none r = record r {
  created_at = if is_zero r.created_at then now else r.created_at;
  updated_at = now;
}
filled now (some old) r = record r {
  created_at =
      if is_zero r.created_at
      then (if is_zero old.created_at then now else old.created_at)
      else r.created_at;
  updated_at = now;
  idempotency_key = or_else r.idempotency_key old.idempotency_key;
  callback_url = or_else r.callback_url old.callback_url;
  request_id = or_else r.request_id old.request_id;
}

-- What `Cancel` makes of a job that has not ended.
abbrev pub as_canceled : JobResult → JobResult
as_canceled r = record r { status = canceled; error = "job canceled" }

-- What `Cancel` makes of what was stored, where `change` is made of a job that has not ended.
abbrev pub canceled_with : (JobResult → JobResult) → Option JobResult → Option JobResult
canceled_with change none = none
canceled_with change (some r) = if is_terminal r.status then some r else some (change r)

-- What it leaves stored, where `kept` is what the storage keeps of a result.
abbrev pub canceled_result : (JobResult → JobResult) → ℕ → Option JobResult → Option JobResult
canceled_result kept now o = canceled_with (λ r. kept (filled now (some r) (as_canceled r))) o

-- The statuses of the source.
abbrev pub IsNamed : JobStatus → Type 0
IsNamed (other t) = ⊥
IsNamed _ = Unit {0}

-- What `ReserveIdempotencyKey` answers where `held` holds the key.
abbrev pub reserved : String → Option String → String × Bool
reserved id none = (id, true)
reserved id (some held) = (held, false)

-- The holder of a key after it was asked for.
abbrev pub held_by : String → Option String → String
held_by id none = id
held_by id (some held) = held

-- What a client may rely on, in terms of the stored result of each job and the holder of each
-- idempotency key. A `set` may fail, and then changes neither.
pub record StoreLaws {S : Type 0} (store : Store S) : Type 0 where
  pub view : S → String → Option JobResult
  pub holder : S → String → Option String
  -- what is kept of a result, and what `Cancel` returns of a job that it cancels
  pub kept : JobResult → JobResult
  pub told : ℕ → JobResult → JobResult
  pub kept-status : (r : JobResult) → IsNamed r.status → (kept r).status ≡ r.status
  pub kept-idempotency_key : (r : JobResult) → (kept r).idempotency_key ≡ r.idempotency_key
  pub kept-pdf_key : (r : JobResult) → (kept r).pdf_key ≡ r.pdf_key
  pub told_lem :
      (now : ℕ) (r : JobResult)
      → ((told now r).url ≡ r.url)
        × ((told now r).status ≡ canceled)
        × ((told now r).error ≡ "job canceled")
  pub get_lem : (id : String) (s : S) → store.get id s ≡ (found (view s id), s)
  pub view-set :
      (now : ℕ) (id : String) (r : JobResult) (s : S) (j : String)
      → (store.set now id r s).1 ≡ none
      → view (store.set now id r s).2 j
        ≡ (if id == j then some (kept (filled now (view s id) r)) else view s j)
  pub view-set_error :
      (now : ℕ) (id : String) (r : JobResult) (s : S) {e : Error} (j : String)
      → (store.set now id r s).1 ≡ some e
      → view (store.set now id r s).2 j ≡ view s j
  pub holder-set :
      (now : ℕ) (id : String) (r : JobResult) (s : S) (key : String)
      → holder (store.set now id r s).2 key ≡ holder s key
  pub view-delete :
      (id : String) (s : S) (j : String)
      → view (store.delete id s).1 j ≡ (if id == j then none else view s j)
  pub holder-delete :
      (id : String) (s : S) {r : JobResult} (key : String)
      → view s id ≡ some r
      → holder (store.delete id s).1 key ≡ (
          if r.idempotency_key == ""
          then holder s key
          else if r.idempotency_key == key
          then none
          else holder s key)
  pub result-cancel :
      (now : ℕ) (id : String) (s : S)
      → (store.cancel now id s).0 ≡ found (canceled_with (told now) (view s id))
  pub view-cancel :
      (now : ℕ) (id : String) (s : S) (j : String)
      → view (store.cancel now id s).1 j
        ≡ (if id == j then canceled_result kept now (view s id) else view s j)
  pub result-reserve :
      (key id : String) (s : S)
      → (store.reserve_idempotency_key key id s).0
        ≡ ok (if key == "" then ("", true) else reserved id (holder s key))
  pub view-reserve :
      (key id : String) (s : S) (j : String)
      → view (store.reserve_idempotency_key key id s).1 j ≡ view s j
  pub holder-reserve :
      (key id : String) (s : S) (k : String)
      → holder (store.reserve_idempotency_key key id s).1 k ≡ (
          if key == ""
          then holder s k
          else if key == k
          then some (held_by id (holder s key))
          else holder s k)

-- A storage whose `set` never fails, as the memory storage.
abbrev pub NeverFails : {S : Type 0} → Store S → Type 0
NeverFails {S} store =
    (now : ℕ) (id : String) (r : JobResult) (s : S) → (store.set now id r s).1 ≡ none
