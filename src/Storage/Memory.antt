-- ===== src/Storage/Memory.antt =====
-- internal/storage/memory.go: the in-memory metadata storage. Every method holds the mutex from
-- its first read to its last write, but for `Cancel`, which is a `Get` and then a `Set`.
-- `results[id]` is a pointer that nothing writes through once it is stored, so the model stores
-- the value. `on_set` says whether a callback is registered; a method returns beside its state
-- whether it called it.
pub mod Laws
pub mod Order
pub mod Listing
pub mod Statistics
pub mod Wired
pub mod Races
use chroma_flow.Base.{
  ℕ, ◌+◌, String, Bool, true, false, Option, none, some, List, [], ◌∷◌, ◌++◌, length, ltb, ◌||◌,
  ◌==◌, if◌then◌else◌,
}
use chroma_flow.Base.Dict
use chroma_flow.Base.Dict.{Dict, String-eq}
use chroma_flow.Queue.Types.{
  Result, ok, err, JobStatus, status_text, JobResult, JobSnapshot, is_zero, is_terminal,
}
use chroma_flow.Storage.Store.{found, filled, as_canceled}
use chroma_flow.Storage.Sort.{sort_stable}

pub record MemoryStorage : Type 0 where
  pub results : Dict String JobResult
  pub idempotency : Dict String String
  pub order : List String
  pub on_set : Bool

unfoldable pub new_memory_storage : MemoryStorage
new_memory_storage = record { results = []; idempotency = []; order = []; on_set = false }

-- `SetOnChange`: the argument says whether the callback is not nil.
unfoldable pub set_on_change : Bool → MemoryStorage → MemoryStorage
set_on_change on_set s = record s { on_set = on_set }

-- `s.order`, with a job that is new at its end.
unfoldable pub ordered : String → Option JobResult → List String → List String
ordered id none order = order ++ id ∷ []
ordered id (some old) order = order

-- `Set`: the result as it is stored, the new state, and whether the callback was called.
unfoldable pub set : ℕ → String → JobResult → MemoryStorage → JobResult × MemoryStorage × Bool
unfolding ordered
set now id result s =
    let old = Dict.get id s.results in
    let stored = filled now old result in
    (
      stored,
      record s { results = Dict.put id stored s.results; order = ordered id old s.order },
      s.on_set,
    )

-- The first occurrence is taken out.
unfoldable pub remove_first : String → List String → List String
remove_first id [] = []
remove_first id (x ∷ xs) = let rest = remove_first id xs in if x == id then xs else x ∷ rest

unfoldable pub unreserved : String → Dict String String → Dict String String
unreserved key m = if key == "" then m else Dict.del key m

delete_found : String → Option JobResult → MemoryStorage → MemoryStorage × Bool
delete_found id none s = (s, false)
delete_found id (some result) s = (
  record s {
    results = Dict.del id s.results;
    idempotency = unreserved result.idempotency_key s.idempotency;
    order = remove_first id s.order;
  },
  s.on_set,
)

unfoldable pub delete : String → MemoryStorage → MemoryStorage × Bool
unfolding delete_found unreserved remove_first
delete id s = delete_found id (Dict.get id s.results) s

unfoldable pub get : String → MemoryStorage → Result JobResult
get id s = found (Dict.get id s.results)

-- `Cancel`, after its `Get`.
unfoldable pub cancel_found :
    ℕ → String → Result JobResult → MemoryStorage → Result JobResult × MemoryStorage × Bool
unfolding set
cancel_found now id (err e) s = (err e, s, false)
cancel_found now id (ok result) s =
    if is_terminal result.status
    then (ok result, s, false)
    else let (stored, s', called) = set now id (as_canceled result) s in (ok stored, s', called)

unfoldable pub cancel : ℕ → String → MemoryStorage → Result JobResult × MemoryStorage × Bool
unfolding get cancel_found
cancel now id s = cancel_found now id (get id s) s

reserve_found : String → String → Option String → MemoryStorage → (String × Bool) × MemoryStorage
reserve_found key id (some existing) s = ((existing, false), s)
reserve_found key id none s = ((id, true), record s { idempotency = Dict.put key id s.idempotency })

-- `ReserveIdempotencyKey`: the job that holds the key, and whether it is the caller's.
unfoldable pub reserve_idempotency_key :
    String → String → MemoryStorage → (String × Bool) × MemoryStorage
unfolding reserve_found
reserve_idempotency_key key id s =
    if key == "" then (("", true), s) else reserve_found key id (Dict.get key s.idempotency) s

abbrev pub snapshot : String → JobResult → JobSnapshot
snapshot id r = record {
  id = id;
  url = r.url;
  status = r.status;
  error = r.error;
  created_at = r.created_at;
  updated_at = r.updated_at;
}

-- One round of the loop of `List`: a job with no result is skipped.
unfoldable pub listed : String → Option JobResult → List JobSnapshot → List JobSnapshot
listed id none rest = rest
listed id (some r) rest = snapshot id r ∷ rest

-- The loop of `List` over `s.order`.
unfoldable pub snapshots : List String → Dict String JobResult → List JobSnapshot
unfolding listed
snapshots [] results = []
snapshots (id ∷ ids) results = listed id (Dict.get id results) (snapshots ids results)

unfoldable pub list : MemoryStorage → List JobSnapshot
unfolding snapshots
list s = sort_stable (snapshots s.order s.results)

-- internal/observability/metrics.go: `StorageStats`.
pub record StorageStats : Type 0 where
  pub total : ℕ
  pub by_status : Dict String ℕ
  pub pdf_bytes : ℕ
  pub oldest_job_at : ℕ

abbrev pub count_of : Option ℕ → ℕ
count_of none = 0
count_of (some n) = n

-- One round of the loop of `Stats`.
unfoldable pub tally : JobResult → StorageStats → StorageStats
tally r st = record st {
  by_status =
      let status = status_text r.status in
      Dict.put status (count_of (Dict.get status st.by_status) + 1) st.by_status;
  pdf_bytes = st.pdf_bytes + (r.pdf_size + length r.pdf);
  oldest_job_at =
      if is_zero st.oldest_job_at || ltb r.created_at st.oldest_job_at
      then r.created_at
      else st.oldest_job_at;
}

-- The loop, over the entries in the order in which Go's `range` happens to yield them.
unfoldable pub tally_all : Dict String JobResult → StorageStats → StorageStats
unfolding tally
tally_all [] st = st
tally_all ((id, r) ∷ m) st = tally_all m (tally r st)

unfoldable pub stats : MemoryStorage → StorageStats
unfolding tally_all
stats s =
    tally_all s.results
      (record { total = length s.results; by_status = []; pdf_bytes = 0; oldest_job_at = 0 })
