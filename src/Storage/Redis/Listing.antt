-- ===== src/Storage/Redis/Listing.antt =====
-- internal/storage/redis.go: what `List` shows and `Stats` counts, over a server that answers.
use mathlib.Core.List.{Perm}
use chroma_flow.Base.{
  ℕ, zero, suc, ◌+◌, ◌≤◌, String, ◌≡◌, refl, ap, ◌∙◌, Bool-cases, inl, inr, List, [], ◌∷◌, length,
  take, ◌==◌, eq_iff, if◌then◌else◌, arith,
}
use chroma_flow.Base.Dict
use chroma_flow.Base.Dict.{String-eq, get-put}
use chroma_flow.Queue.Types.{Result, ok, err, JobResult, JobSnapshot, status_text}
use chroma_flow.Redisx.Answer.{Do}
use chroma_flow.Redisx.Server.{StorageServer}
use chroma_flow.Storage.Store.{found}
use chroma_flow.Storage.Sort.{
  sort_stable, IsLatestFirst, created_at_time, sort_stable-IsLatestFirst, sort_stable-perm,
  created_at_time-sort_stable, length-sort_stable,
}
use chroma_flow.Storage.Memory.{StorageStats, count_of}
use chroma_flow.Storage.Fields.{Formats}
use chroma_flow.Storage.Redis.{
  RedisStorage, order_key, is_seen, listed, list, tally, tally_all, bytes_of, stats,
}
use chroma_flow.Storage.Redis.Laws.{IsLaidOut, view, get_lem}
use chroma_flow.Storage.Redis.Reads.{distinct, stored, list_lem}

length-take_le : (n : ℕ) (xs : List String) → length (take n xs) ≤ n
length-take_le zero xs = omega arith
length-take_le (suc n) [] = omega arith
length-take_le (suc n) (x ∷ xs) = omega (arith, length-take_le n xs)

length-distinct : (seen xs : List String) → length (distinct seen xs) ≤ length xs
length-distinct seen [] = omega arith
length-distinct seen (x ∷ xs) = elim (Bool-cases (is_seen x seen)) [
  | inl e ↦ rw e (omega (arith, length-distinct seen xs))
  | inr e ↦ rw e (omega (arith, length-distinct (x ∷ seen) xs))
]

length-listed :
    (id : String) (r : Result JobResult) (jobs : List JobSnapshot)
    → length (listed id r jobs) ≤ suc (length jobs)
unfolding listed
length-listed id (err e) jobs = omega arith
length-listed id (ok r) jobs = omega arith

-- How many of the jobs have a status.
abbrev pub with_status : String → List JobSnapshot → ℕ
with_status t [] = 0
with_status t (job ∷ jobs) =
    if status_text job.status == t then suc (with_status t jobs) else with_status t jobs

count_in : String → StorageStats → ℕ
count_in t st = count_of (Dict.get t st.by_status)

count_in-tally :
    (t : String) (job : JobSnapshot) (bytes : ℕ) (st : StorageStats)
    → count_in t (tally job bytes st)
      ≡ (if status_text job.status == t then suc (count_in t st) else count_in t st)
unfolding count_in tally
count_in-tally t job bytes st =
    let status = status_text job.status in
    ground (
      arith,
      get-put status t (count_of (Dict.get status st.by_status) + 1) st.by_status,
      eq_iff status t,
    )

counted :
    (t : String) (jobs : List JobSnapshot) (st st' : StorageStats)
    → st.by_status ≡ []
    → count_in t st' ≡ with_status t jobs + count_in t st
    → count_of (Dict.get t st'.by_status) ≡ with_status t jobs
unfolding count_in
counted t jobs st st' none_yet e =
    let empty : count_of (Dict.get t st.by_status) ≡ 0 =
      ap (λ m. count_of (Dict.get t m)) none_yet ∙ (unfold Dict.get in refl) in
    omega (arith, e, empty)

module _ {R : Type 0} (execute : Do R) (formats : Formats) (server : StorageServer execute)
    (rs : RedisStorage) (laid : IsLaidOut server rs.prefix) where
  length-stored :
      (s : R) (ids : List String)
      → length (stored execute formats server rs laid s ids) ≤ length ids
  length-stored s [] = omega arith
  length-stored s (id ∷ ids) = omega (
    arith,
    length-stored s ids,
    length-listed id (found (view execute formats server rs laid s id))
        (stored execute formats server rs laid s ids),
  )

  -- What the rounds of `Stats` make of the jobs.
  tally_all_lem :
      (jobs : List JobSnapshot) (st : StorageStats) (s : R)
      → let (st', s') = tally_all execute formats rs.prefix jobs st s in
        (s' ≡ s)
        × (st'.total ≡ st.total)
        × ((t : String) → count_in t st' ≡ with_status t jobs + count_in t st)
  unfolding tally_all
  tally_all_lem [] st s = (refl, refl, λ t. omega arith)
  tally_all_lem (job ∷ jobs) st s =
      let r = found (view execute formats server rs laid s job.id) in
      let st₁ = tally job (bytes_of r) st in
      let (same, total, counts) = tally_all_lem jobs st₁ s in
      rw (tally_all, get_lem execute formats server rs laid job.id s)
        (
          same,
          total ∙ (unfold tally in refl),
          (λ t. ground (arith, counts t, count_in-tally t job (bytes_of r) st)),
        )

  -- Over a Redis server that answers, `List` shows, latest first, just the stored jobs among the
  -- first 200 entries of the order list, those of one creation time in its order, so never more
  -- than 200 jobs; `Stats` counts the jobs of `List` and those of each status; and neither changes
  -- anything.
  pub list_and_stats :
      (s : R)
      → let newest = take 200 (server.at s (order_key rs.prefix)).items in
        let (jobs, s₁) = list execute formats rs s in
        let (st, s₂) = stats execute formats rs s in
        IsLatestFirst jobs
        × Perm jobs (stored execute formats server rs laid s (distinct [] newest))
        × ((t : ℕ)
            → created_at_time t jobs
              ≡ created_at_time t (stored execute formats server rs laid s (distinct [] newest)))
        × (length jobs ≤ 200)
        × (st.total ≡ length jobs)
        × ((t : String) → count_of (Dict.get t st.by_status) ≡ with_status t jobs)
        × (s₁ ≡ s)
        × (s₂ ≡ s)
  unfolding stats
  list_and_stats s =
      let newest = take 200 (server.at s (order_key rs.prefix)).items in
      let all = stored execute formats server rs laid s (distinct [] newest) in
      let jobs = sort_stable all in
      let st₀ : StorageStats = record {
        total = length jobs;
        by_status = [];
        pdf_bytes = 0;
        oldest_job_at = 0;
      } in
      let (same, total, counts) = tally_all_lem jobs st₀ s in
      rw (list_lem execute formats server rs laid s) (
        sort_stable-IsLatestFirst all,
        sort_stable-perm all,
        (λ t. created_at_time-sort_stable t all),
        omega (
          arith,
          length-sort_stable all,
          length-stored s (distinct [] newest),
          length-distinct [] newest,
          length-take_le 200 (server.at s (order_key rs.prefix)).items,
        ),
        total,
        (λ t.
            counted t jobs st₀ (tally_all execute formats rs.prefix jobs st₀ s).0 refl (counts t)),
        refl,
        same,
      )
