-- ===== src/Storage/Memory/Listing.antt =====
-- internal/storage/memory.go: what `List` shows.
use mathlib.Core.List.{Perm}
use chroma_flow.Base.{
  ℕ, String, ◌≡◌, refl, true, some, List, [], ◌∷◌, eq_iff, map, arith, Option-cases, inl, inr, All,
  ap, sym, ◌∙◌,
}
use chroma_flow.Base.Dict
use chroma_flow.Base.Dict.{Dict, String-eq}
use chroma_flow.Queue.Types.{JobResult, JobSnapshot}
use chroma_flow.Storage.Sort.{
  IsLatestFirst, created_at_time, sort_stable-IsLatestFirst, sort_stable-perm,
  created_at_time-sort_stable, All-sort_stable,
}
use chroma_flow.Storage.Memory.{MemoryStorage, snapshot, listed, snapshots, list}
use chroma_flow.Storage.Memory.Order.{contains, is_some, IsOrdered}

-- Every job that the list names is stored.
abbrev IsStored : Dict String JobResult → List String → Type 0
IsStored results ids = (id : String) → contains id ids ≡ true → is_some (Dict.get id results) ≡ true

IsStored-tail :
    (results : Dict String JobResult) (id : String) (ids : List String)
    → IsStored results (id ∷ ids)
    → IsStored results ids
IsStored-tail results id ids h j c = h j (ground arith)

-- The ids of the snapshots are the ids of the order list.
map-id-snapshots :
    (ids : List String) (results : Dict String JobResult)
    → IsStored results ids
    → map (λ s. s.id) (snapshots ids results) ≡ ids
unfolding snapshots
map-id-snapshots [] results h = refl
map-id-snapshots (id ∷ ids) results h =
    let ih = map-id-snapshots ids results (IsStored-tail results id ids h) in
    let stored = h id (ground (arith, eq_iff id id)) in
    elim (Option-cases (Dict.get id results)) [
      | inl e ↦ absurd (ground arith)
      | inr (r, e) ↦ rw (e, listed) (ap (λ js. id ∷ js) ih)
    ]

-- A snapshot shows the stored result of its job.
abbrev pub Shows : Dict String JobResult → JobSnapshot → Type 0
Shows results j = (r : JobResult) × (Dict.get j.id results ≡ some r) × (j ≡ snapshot j.id r)

All-Shows :
    (ids : List String) (results : Dict String JobResult)
    → All (Shows results) (snapshots ids results)
unfolding snapshots
All-Shows [] results = tt
All-Shows (id ∷ ids) results = elim (Option-cases (Dict.get id results)) [
  | inl e ↦ rw (e, listed) (All-Shows ids results)
  | inr (r, e) ↦ rw (e, listed) ((r, e, refl), All-Shows ids results)
]

-- What `List` returns of an ordered storage: the ids are those of the order list, each once; the
-- latest created job comes first; jobs created at one time keep the order in which they were
-- first stored; and every snapshot shows the stored result of its job.
pub record IsListing (s : MemoryStorage) (jobs : List JobSnapshot) : Type 0 where
  pub complete : Perm jobs (snapshots s.order s.results)
  pub ids : map (λ j. j.id) (snapshots s.order s.results) ≡ s.order
  pub latest_first : IsLatestFirst jobs
  pub stable : (t : ℕ) → created_at_time t jobs ≡ created_at_time t (snapshots s.order s.results)
  pub current : All (Shows s.results) jobs

-- In a storage whose order list names each stored job once, `List` returns a permutation of one
-- snapshot for each name of the order list, sorted with the latest created job first, jobs of one
-- creation time in the order of the order list, each snapshot with the stored result of its job.
pub list-IsListing : (s : MemoryStorage) → IsOrdered s → IsListing s (list s)
unfolding list
list-IsListing s h = record {
  complete = sort_stable-perm (snapshots s.order s.results);
  ids = map-id-snapshots s.order s.results (λ id c. sym (h.names id) ∙ c);
  latest_first = sort_stable-IsLatestFirst (snapshots s.order s.results);
  stable = λ t. created_at_time-sort_stable t (snapshots s.order s.results);
  current =
      All-sort_stable (Shows s.results) (snapshots s.order s.results) (All-Shows s.order s.results);
}
