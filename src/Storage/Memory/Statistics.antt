-- ===== src/Storage/Memory/Statistics.antt =====
-- internal/storage/memory.go: what `Stats` computes, in whatever order the loop meets the results.
use chroma_flow.Base.{
  ℕ, suc, ◌+◌, ◌≤◌, ◌<◌, String, ◌≡◌, refl, ◌⊎◌, inr, [], ◌∷◌, ◌==◌, eq_iff, length, if◌then◌else◌,
  arith, All,
}
use chroma_flow.Base.Dict
use chroma_flow.Base.Dict.{Dict, String-eq, get-put}
use chroma_flow.Queue.Types.{status_text, JobResult}
use chroma_flow.Storage.Memory.{MemoryStorage, StorageStats, count_of, tally, tally_all, stats}

-- How many results have a status, and the bytes of all of them.
abbrev pub with_status : String → Dict String JobResult → ℕ
with_status t [] = 0
with_status t ((id, r) ∷ m) =
    if status_text r.status == t then suc (with_status t m) else with_status t m

abbrev pub total_bytes : Dict String JobResult → ℕ
total_bytes [] = 0
total_bytes ((id, r) ∷ m) = r.pdf_size + length r.pdf + total_bytes m

count_in : String → StorageStats → ℕ
count_in t st = count_of (Dict.get t st.by_status)

count_in-tally :
    (t : String) (r : JobResult) (st : StorageStats)
    → count_in t (tally r st)
      ≡ (if status_text r.status == t then suc (count_in t st) else count_in t st)
unfolding count_in tally
count_in-tally t r st =
    let status = status_text r.status in
    ground (
      arith,
      get-put status t (count_of (Dict.get status st.by_status) + 1) st.by_status,
      eq_iff status t,
    )

count_in-tally_all :
    (t : String) (m : Dict String JobResult) (st : StorageStats)
    → count_in t (tally_all m st) ≡ with_status t m + count_in t st
unfolding tally_all
count_in-tally_all t [] st = omega arith
count_in-tally_all t ((id, r) ∷ m) st =
    ground (arith, count_in-tally_all t m (tally r st), count_in-tally t r st)

pdf_bytes-tally_all :
    (m : Dict String JobResult) (st : StorageStats)
    → (tally_all m st).pdf_bytes ≡ total_bytes m + st.pdf_bytes
unfolding tally_all
pdf_bytes-tally_all [] st = omega arith
pdf_bytes-tally_all ((id, r) ∷ m) st =
    let later = pdf_bytes-tally_all m (tally r st) in
    let here : (tally r st).pdf_bytes ≡ st.pdf_bytes + (r.pdf_size + length r.pdf) =
      unfold tally in refl in
    omega (arith, later, here)

total-tally_all :
    (m : Dict String JobResult) (st : StorageStats) → (tally_all m st).total ≡ st.total
unfolding tally_all tally
total-tally_all [] st = refl
total-tally_all ((id, r) ∷ m) st = total-tally_all m (tally r st)

oldest-tally :
    (r : JobResult) (st : StorageStats)
    → 0 < r.created_at
    → let o = (tally r st).oldest_job_at in
      (0 < o) × (o ≤ r.created_at) × ((st.oldest_job_at ≡ 0) ⊎ (o ≤ st.oldest_job_at))
unfolding tally
oldest-tally r st h = ground arith

-- Every result has a creation time.
abbrev pub AllCreated : Dict String JobResult → Type 0
AllCreated m = All (λ e. 0 < e.1.created_at) m

-- No result is older.
abbrev pub AllSince : ℕ → Dict String JobResult → Type 0
AllSince o m = All (λ e. o ≤ e.1.created_at) m

oldest-tally_all :
    (m : Dict String JobResult) (st : StorageStats)
    → AllCreated m
    → let o = (tally_all m st).oldest_job_at in
      AllSince o m × ((st.oldest_job_at ≡ 0) ⊎ (o ≤ st.oldest_job_at))
unfolding tally_all
oldest-tally_all [] st h = (tt, inr (omega arith))
oldest-tally_all ((id, r) ∷ m) st (here, later) =
    let (since, below) = oldest-tally_all m (tally r st) later in
    let (positive, le, kept) = oldest-tally r st here in ((ground arith, since), ground arith)

by_status-tally_all :
    (t : String) (m : Dict String JobResult) (st : StorageStats)
    → st.by_status ≡ []
    → count_of (Dict.get t (tally_all m st).by_status) ≡ with_status t m
by_status-tally_all t m st h =
    let none_yet : count_in t st ≡ 0 = unfold count_in in rw h (unfold Dict.get in refl) in
    let all = count_in-tally_all t m st in
    let same : count_in t (tally_all m st) ≡ count_of (Dict.get t (tally_all m st).by_status) =
      unfold count_in in refl in
    omega (arith, none_yet, all, same)

-- Where every stored result has a creation time, `Stats` counts the results, those of each status
-- and the bytes of their PDFs, and no stored result is older than the oldest time it reports.
pub stats-counts :
    (s : MemoryStorage)
    → AllCreated s.results
    → let st = stats s in
      (st.total ≡ length s.results)
      × ((t : String) → count_of (Dict.get t st.by_status) ≡ with_status t s.results)
      × (st.pdf_bytes ≡ total_bytes s.results)
      × AllSince st.oldest_job_at s.results
unfolding stats
stats-counts s h =
    let st : StorageStats = record {
      total = length s.results;
      by_status = [];
      pdf_bytes = 0;
      oldest_job_at = 0;
    } in
    (
      total-tally_all s.results st,
      (λ t. by_status-tally_all t s.results st refl),
      omega (arith, pdf_bytes-tally_all s.results st),
      (oldest-tally_all s.results st h).0,
    )
