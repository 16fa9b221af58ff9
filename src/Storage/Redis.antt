-- ===== src/Storage/Redis.antt =====
-- internal/storage/redis.go: the metadata storage in Redis. `Do` is a parameter, a function on the
-- states of the server.
pub mod Hash
pub mod Laws
pub mod Deletions
pub mod Reservations
pub mod Reads
pub mod Wired
pub mod Listing
use chroma_flow.Base.{
  ℕ, ◌+◌, String, cat, Bool, true, false, Option, none, some, List, [], ◌∷◌, length, ltb, ◌||◌,
  ◌&&◌, ◌==◌, if◌then◌else◌, ℤ, pos, negsuc,
}
use chroma_flow.Base.Dict
use chroma_flow.Base.Dict.{Dict, String-eq}
use chroma_flow.Queue.Types.{
  Error, text, Result, ok, err, JobStatus, pending, processing, completed, failed, canceled, other,
  status_text, JobResult, JobSnapshot, is_zero, is_terminal,
}
use chroma_flow.Redisx.New.{Client, NewError, NewResult, made, refused, RedisUrl, new_client}
use chroma_flow.Redisx.Strconv.{itoa, atoi_or_zero}
use chroma_flow.Redisx.Answer.{Answer, Do, string_of, array_of}
use chroma_flow.Redisx.Server.{flat}
use chroma_flow.Storage.Store.{found, filled, as_canceled, or_else}
use chroma_flow.Storage.Fields.{
  status_of, Formats, gathered, or_empty, size_of, decoded, encoded, of_items,
}
use chroma_flow.Storage.Memory.{StorageStats, snapshot, count_of}
use chroma_flow.Storage.Sort.{sort_stable}

pub record RedisStorage : Type 0 where
  pub client : Client
  pub prefix : String
  pub on_set : Bool

pub data Made : Type 0 where
  made_storage : RedisStorage → Made
  refused_url : NewError → Made

storage_of : String → NewResult → Made
storage_of prefix (refused e) = refused_url e
storage_of prefix (made client) =
    made_storage (record { client = client; prefix = or_else prefix "chromaflow"; on_set = false })

-- `NewRedisStorage`.
unfoldable pub new_redis_storage : (List ℕ → Option RedisUrl) → List ℕ → String → Made
unfolding storage_of
new_redis_storage parse_url raw_url prefix = storage_of prefix (new_client parse_url raw_url)

-- `SetOnChange`: the argument says whether the callback is not nil.
unfoldable pub set_on_change : Bool → RedisStorage → RedisStorage
set_on_change on_set s = record s { on_set = on_set }

abbrev pub job_key : String → String → String
job_key prefix id = cat (cat prefix ":job:") id

abbrev pub order_key : String → String
order_key prefix = cat prefix ":jobs"

abbrev pub key_of : String → String → String
key_of prefix key = cat (cat prefix ":idempotency:") key

got : Formats → Result Answer → Result JobResult
unfolding of_items
got formats (err e) = err e
got formats (ok v) = of_items formats (array_of v)

-- `existing, _ := s.Get(ctx, jobID)`.
abbrev pub without_error {ℓ} : {A : Type ℓ} → Result A → Option A
without_error (ok a) = some a
without_error (err e) = none

abbrev pub error_of {ℓ} : {A : Type ℓ} → Result A → Option Error
error_of (ok a) = none
error_of (err e) = some e

abbrev pub is_ok {ℓ} : {A : Type ℓ} → Result A → Bool
is_ok (ok a) = true
is_ok (err e) = false

-- The reply to `SET key value NX`.
reserve_answer : Result Answer → Result String
reserve_answer (ok v) = ok (string_of v)
reserve_answer (err e) = err e

holder_answer : Result Answer → Result (String × Bool)
holder_answer (ok v) = ok (string_of v, false)
holder_answer (err e) = err e

-- One step of `seen` in `List`.
abbrev pub is_seen : String → List String → Bool
is_seen id [] = false
is_seen id (x ∷ xs) = (x == id) || is_seen id xs

-- One job of the loop of `List`, before the jobs after it.
unfoldable pub listed : String → Result JobResult → List JobSnapshot → List JobSnapshot
listed id (err e) jobs = jobs
listed id (ok r) jobs = snapshot id r ∷ jobs

abbrev pub bytes_of : Result JobResult → ℕ
bytes_of (err e) = 0
bytes_of (ok r) = r.pdf_size

-- One round of the loop of `Stats`, for the bytes of the job's PDF.
unfoldable pub tally : JobSnapshot → ℕ → StorageStats → StorageStats
tally job bytes st = record st {
  by_status =
      let status = status_text job.status in
      Dict.put status (count_of (Dict.get status st.by_status) + 1) st.by_status;
  pdf_bytes = st.pdf_bytes + bytes;
  oldest_job_at =
      if is_zero st.oldest_job_at || ltb job.created_at st.oldest_job_at
      then job.created_at
      else st.oldest_job_at;
}

module _ {R : Type 0} (execute : Do R) (formats : Formats) where
  -- The server and the connection are the state `R`, and the Boolean beside them says whether
  -- `onSet` was called.
  unfoldable pub get : String → String → R → Result JobResult × R
  unfolding got
  get prefix id s =
      let (v, s') = execute ("HGETALL" ∷ job_key prefix id ∷ []) s in (got formats v, s')

  unfoldable pub pushed : RedisStorage → String → Option JobResult → R → R
  pushed rs id (some old) s = s
  pushed rs id none s = (execute ("LPUSH" ∷ order_key rs.prefix ∷ id ∷ []) s).1

  -- `Set`: the caller's result, which is as it was, the error, and whether `onSet` was called.
  unfoldable pub set :
      RedisStorage → ℕ → String → JobResult → R → JobResult × Option Error × R × Bool
  set rs now id r s =
      let (existing, s₁) = get rs.prefix id s in
      let old = without_error existing in
      let s₂ = pushed rs id old s₁ in
      let (v, s₃) =
        execute ("HSET" ∷ job_key rs.prefix id ∷ flat (encoded formats (filled now old r))) s₂ in
      (r, error_of v, s₃, is_ok v && rs.on_set)

  unfoldable pub unreserved : RedisStorage → Option JobResult → R → R
  unreserved rs none s = s
  unreserved rs (some r) s =
      let (v, s') = execute ("DEL" ∷ key_of rs.prefix r.idempotency_key ∷ []) s in
      if r.idempotency_key == "" then s else s'

  unfoldable pub delete : RedisStorage → String → R → Option Error × R × Bool
  delete rs id s =
      let (result, s₁) = get rs.prefix id s in
      let (v, s₂) = execute ("DEL" ∷ job_key rs.prefix id ∷ []) s₁ in
      let (_, s₃) = execute ("LREM" ∷ order_key rs.prefix ∷ "0" ∷ id ∷ []) s₂ in
      (error_of v, unreserved rs (without_error result) s₃, rs.on_set)

  -- `Cancel`, after its `Get`.
  unfoldable pub cancel_found :
      RedisStorage → ℕ → String → Result JobResult → R → Result JobResult × R × Bool
  cancel_found rs now id (err e) s = (err e, s, false)
  cancel_found rs now id (ok r) s =
      let (told, e, s', called) = set rs now id (as_canceled r) s in
      if is_terminal r.status
      then (ok r, s, false)
      else (elim e [ none ↦ ok told | some x ↦ err x ], s', called)

  unfoldable pub cancel : RedisStorage → ℕ → String → R → Result JobResult × R × Bool
  cancel rs now id s = let (result, s₁) = get rs.prefix id s in cancel_found rs now id result s₁

  reserve_asked : RedisStorage → String → String → Result String → R → Result (String × Bool) × R
  unfolding holder_answer
  reserve_asked rs key id (err e) s = (err e, s)
  reserve_asked rs key id (ok t) s =
      let (v, s') = execute ("GET" ∷ key_of rs.prefix key ∷ []) s in
      if t == "OK" then (ok (id, true), s) else (holder_answer v, s')

  -- `ReserveIdempotencyKey`.
  unfoldable pub reserve_idempotency_key :
      RedisStorage → String → String → R → Result (String × Bool) × R
  unfolding reserve_asked reserve_answer
  reserve_idempotency_key rs key id s =
      let (v, s₁) = execute ("SET" ∷ key_of rs.prefix key ∷ id ∷ "NX" ∷ []) s in
      let asked = reserve_asked rs key id (reserve_answer v) s₁ in
      if key == "" then (ok ("", true), s) else asked

  -- The loop of `List`; `seen` are the ids of the rounds before.
  unfoldable pub snapshots : String → List String → List String → R → List JobSnapshot × R
  snapshots prefix seen [] s = ([], s)
  snapshots prefix seen (id ∷ ids) s =
      let skipped = snapshots prefix seen ids s in
      let (result, s₁) = get prefix id s in
      let (jobs, s₂) = snapshots prefix (id ∷ seen) ids s₁ in
      if is_seen id seen then skipped else (listed id result jobs, s₂)

  listed_ids : RedisStorage → Result Answer → R → List JobSnapshot × R
  listed_ids rs (err e) s = ([], s)
  listed_ids rs (ok v) s =
      let (jobs, s') = snapshots rs.prefix [] (array_of v) s in (sort_stable jobs, s')

  -- `List`.
  unfoldable pub list : RedisStorage → R → List JobSnapshot × R
  unfolding listed_ids
  list rs s =
      let (v, s₁) = execute ("LRANGE" ∷ order_key rs.prefix ∷ "0" ∷ "199" ∷ []) s in
      listed_ids rs v s₁

  unfoldable pub tally_all : String → List JobSnapshot → StorageStats → R → StorageStats × R
  tally_all prefix [] st s = (st, s)
  tally_all prefix (job ∷ jobs) st s =
      let (result, s₁) = get prefix job.id s in
      tally_all prefix jobs (tally job (bytes_of result) st) s₁

  -- `Stats`.
  unfoldable pub stats : RedisStorage → R → StorageStats × R
  stats rs s =
      let (jobs, s₁) = list rs s in
      tally_all rs.prefix jobs
        (record { total = length jobs; by_status = []; pdf_bytes = 0; oldest_job_at = 0 }) s₁
