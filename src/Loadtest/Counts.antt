-- ===== src/Loadtest/Counts.antt =====
-- tools/loadtest/main.go: what the counters say, and what they leave out.
use chroma_flow.Base.{
  ℕ, zero, suc, ◌+◌, ◌≡◌, refl, true, false, Option, none, some, ℤ, arith, subst,
}
use chroma_flow.Queue.Types.{Error}
use chroma_flow.Loadtest.{
  Run, times, start, submit, counted, Step, hand_over, skip, count, expire, close, leave, Reach,
  here, next, IsOver, passes,
}

pub record IsCounted (requests concurrency : ℕ) (s : Run) : Type 0 where
  pub offered : s.left + s.busy + s.accepted + s.failed + s.skipped ≡ requests
  pub submitters : s.idle + s.busy + s.ended ≡ concurrency
  pub done : s.closed ≡ true → s.left ≡ 0

counted-IsCounted :
    (r k : ℕ) (o : Option Error) (s : Run) {n : ℕ}
    → s.busy ≡ suc n
    → IsCounted r k s
    → IsCounted r k (counted o (record s { busy = n; idle = s.idle + 1 }))
unfolding counted
counted-IsCounted r k none s e c = ground arith
counted-IsCounted r k (some x) s e c = ground arith

Step-IsCounted : {r k : ℕ} {s t : Run} → Step s t → IsCounted r k s → IsCounted r k t
Step-IsCounted (hand_over s e f) c = ground arith
Step-IsCounted (skip s e f) c = ground arith
Step-IsCounted {r} {k} (count s answer e) c = counted-IsCounted r k (submit answer) s e c
Step-IsCounted (expire s) c = ground arith
Step-IsCounted (close s e) c = ground arith
Step-IsCounted (leave s e f) c = ground arith

Reach-IsCounted : {r k : ℕ} {s t : Run} → Reach s t → IsCounted r k s → IsCounted r k t
Reach-IsCounted here c = c
Reach-IsCounted (next p st) c = Step-IsCounted st (Reach-IsCounted p c)

start-IsCounted : (r k : ℤ) → IsCounted (times r) (times k) (start r k)
unfolding start
start-IsCounted r k = ground arith

-- The state in which nothing was submitted: after the timeout, with so many rounds left.
abbrev idle_run : ℕ → ℕ → ℕ → Run
idle_run left skipped k = record {
  left = left;
  idle = k;
  busy = 0;
  ended = 0;
  accepted = 0;
  failed = 0;
  skipped = skipped;
  expired = true;
  closed = false;
}

skips : (n m k : ℕ) {s : Run} → Reach s (idle_run n m k) → Reach s (idle_run 0 (n + m) k)
skips zero m k {s} r = subst (λ i. Reach s (idle_run 0 i k)) (omega arith) r
skips (suc n) m k {s} r =
    subst (λ i. Reach s (idle_run 0 i k)) (ground arith)
      (skips n (m + 1) k (next r (skip (idle_run (suc n) m k) refl refl)))

abbrev left_run : ℕ → ℕ → ℕ → Run
left_run skipped idle ended = record (idle_run 0 skipped idle) { ended = ended; closed = true }

leaves : (n j m : ℕ) {s : Run} → Reach s (left_run m n j) → Reach s (left_run m 0 (n + j))
leaves zero j m {s} r = subst (λ i. Reach s (left_run m 0 i)) (omega arith) r
leaves (suc n) j m {s} r =
    subst (λ i. Reach s (left_run m 0 i)) (ground arith)
      (leaves n (j + 1) m (next r (leave (left_run m (suc n) j) refl refl)))

-- When a load test is over, each request was accepted, failed or was skipped; and for any numbers of
-- requests and submitters it can end, without the panic, with every request skipped and none
-- submitted, because the timeout came first.
pub load_test_counts :
    (requests concurrency : ℤ)
    → ((s : Run)
        → Reach (start requests concurrency) s
        → IsOver concurrency s
        → s.accepted + s.failed + s.skipped ≡ times requests)
      × ((s : Run) × Reach (start requests concurrency) s
          × IsOver concurrency s
          × (s.skipped ≡ times requests)
          × (s.accepted ≡ 0)
          × (passes s ≡ true))
unfolding start
load_test_counts requests concurrency =
    let n = times requests in
    let k = times concurrency in
    let timed_out : Reach (start requests concurrency) (idle_run n 0 k) =
      next here (expire (start requests concurrency)) in
    let skipped = skips n 0 k timed_out in
    let closed = next skipped (close (idle_run 0 (n + 0) k) refl) in
    (
      λ s r over.
          let c = Reach-IsCounted r (start-IsCounted requests concurrency) in
          omega (arith, c.offered, c.submitters, c.done over.0, over.1),
      (
        left_run (n + 0) 0 (k + 0),
        leaves k 0 (n + 0) closed,
        (refl, omega arith),
        omega arith,
        refl,
        refl,
      ),
    )
