-- ===== src/Worker/Shutdown/Drained.antt =====
-- internal/worker/worker.go: what holds of the workers in every state, and when `Wait` returns.
use chroma_flow.Base.{
  ℕ, zero, suc, ◌+◌, ◌-◌, ◌<◌, ◌≡◌, ◌⊎◌, inl, inr, refl, Option, none, ℤ, true, arith,
}
use chroma_flow.Queue.Types.{Error}
use chroma_flow.Observability.Metrics.{Metrics, worker_started, worker_stopped, u64}
use chroma_flow.Observability.Calls.{
  Call, submitted, started, stopped, rejected, rendered, recorded, call,
}
use chroma_flow.Worker.Shutdown.{
  Workers, rounds, start, IsOther, Step, spawn, begin, leave, finish, cancel, drain, meanwhile,
  Reach, here, next, Waits, in_time, too_late,
}

-- `k` workers are to be started, with a gauge of `g` before.
pub record IsCounted (k g : ℕ) (s : Workers) : Type 0 where
  pub all : s.left + s.spawned + s.active + s.leaving + s.ended ≡ k
  pub counted : s.group ≡ s.spawned + s.active + s.leaving
  pub gauge : u64 s.metrics.active_workers ≡ u64 (g + s.active)
  pub drained_all : s.drained ≡ true → (s.left ≡ 0) × (s.group ≡ 0)

other-active_workers :
    (c : Call) (m : Metrics) → IsOther c → (call c m).active_workers ≡ m.active_workers
unfolding call
other-active_workers started m h = elim h [ ]
other-active_workers stopped m h = elim h [ ]
other-active_workers submitted m h = refl
other-active_workers (rejected r) m h = refl
other-active_workers (rendered s d b) m h = refl
other-active_workers (recorded a b c d) m h = refl

Step-IsCounted : {k g : ℕ} {s t : Workers} → Step s t → IsCounted k g s → IsCounted k g t
unfolding worker_started worker_stopped
Step-IsCounted (spawn s e) c = ground arith
Step-IsCounted (begin s e) c = ground arith
Step-IsCounted (leave s d e) c = ground arith
Step-IsCounted (finish s e f) c = ground arith
Step-IsCounted (cancel s) c = ground arith
Step-IsCounted (drain s l e) c = ground arith
Step-IsCounted (meanwhile s call' other) c =
    ground (arith, other-active_workers call' s.metrics other)

Reach-IsCounted : {k g : ℕ} {s t : Workers} → Reach s t → IsCounted k g s → IsCounted k g t
Reach-IsCounted here c = c
Reach-IsCounted (next r st) c = Step-IsCounted st (Reach-IsCounted r c)

start-IsCounted : (n : ℤ) (m : Metrics) → IsCounted (rounds n) m.active_workers (start n m)
unfolding start
start-IsCounted n m = ground arith

-- Where `Wait` returns nil, `Start` has started all workers and every one of them has ended, and
-- the gauge of active workers is again what it was, modulo 2 ^ 64, whatever else the metrics were
-- called for in between.
pub wait_means_ended :
    (n : ℤ) (m : Metrics) {s : Workers} {ctx_err : Option Error}
    → Reach (start n m) s
    → Waits ctx_err s none
    → (s.ended ≡ rounds n)
      × (s.active ≡ 0)
      × (s.spawned ≡ 0)
      × (u64 s.metrics.active_workers ≡ u64 m.active_workers)
wait_means_ended n m {s} {ctx_err} r w =
    let c = Reach-IsCounted r (start-IsCounted n m) in
    let (left, group) = c.drained_all (drained_of w refl) in
    (
      omega (arith, c.all, c.counted),
      omega (arith, c.counted),
      omega (arith, c.counted),
      ground (arith, c.gauge, c.counted),
    )
  where
    drained_of : {e r : Option Error} {t : Workers} → Waits e t r → r ≡ none → t.drained ≡ true
    drained_of (in_time d) q = d
    drained_of (too_late e h) q = absurd (cc q)

Reach-trans : {s t u : Workers} → Reach s t → Reach t u → Reach s u
Reach-trans r here = r
Reach-trans r (next r' st) = next (Reach-trans r r') st

-- The steps that are left to take.
to_do : Workers → ℕ
to_do s =
    s.left + s.left + s.left + s.left + s.spawned + s.spawned + s.spawned + s.active + s.active
    + s.leaving

ℕ-cases : (n : ℕ) → (n ≡ 0) ⊎ ((m : ℕ) × (n ≡ suc m))
ℕ-cases zero = inl refl
ℕ-cases (suc n) = inr (n, refl)

-- Once canceled, a worker that is left can take a step, or none is left.
progress :
    (s : Workers) {k g : ℕ}
    → IsCounted k g s
    → s.canceled ≡ true
    → ((s.left ≡ 0) × (s.group ≡ 0))
      ⊎ ((t : Workers) × Step s t × (to_do t < to_do s) × (t.canceled ≡ true))
unfolding to_do
progress s c canceled = elim (ℕ-cases s.left) [
  | inr (n, e) ↦ inr (_, spawn s e, omega arith, canceled)
  | inl none_left ↦ elim (ℕ-cases s.spawned) [
    | inr (n, e) ↦ inr (_, begin s e, omega arith, canceled)
    | inl none_spawned ↦ elim (ℕ-cases s.active) [
      | inr (n, e) ↦ inr (_, leave s canceled e, omega arith, canceled)
      | inl none_active ↦ elim (ℕ-cases s.leaving) [
        | inr (n, e) ↦
            inr (_, finish s {g = s.group - 1} e (omega (arith, c.counted)), omega arith, canceled)
        | inl none_leaving ↦ inl (none_left, omega (arith, c.counted))
      ]
    ]
  ]
]

can_drain :
    (fuel : ℕ) (s : Workers) {k g : ℕ}
    → to_do s < fuel
    → IsCounted k g s
    → s.canceled ≡ true
    → (t : Workers) × Reach s t × (t.drained ≡ true)
can_drain zero s small c canceled = absurd (omega arith)
can_drain (suc fuel) s small c canceled = elim (progress s c canceled) [
  | inl (left, group) ↦ (_, next here (drain s left group), refl)
  | inr (t, st, less, still) ↦
      let (u, r, d) = can_drain fuel t (omega arith) (Step-IsCounted st c) still in
      (u, Reach-trans (next here st) r, d)
]

-- From every state that the workers can reach, there are steps to one where `Wait` returns nil: it
-- never waits for a `Done` that nobody will call.
pub wait_can_return :
    (n : ℤ) (m : Metrics) {s : Workers} (ctx_err : Option Error)
    → Reach (start n m) s
    → (t : Workers) × Reach s t × Waits ctx_err t none
wait_can_return n m {s} ctx_err r =
    let c = Step-IsCounted (cancel s) (Reach-IsCounted r (start-IsCounted n m)) in
    let canceled = record s { canceled = true } in
    let (t, more, d) = can_drain (suc (to_do canceled)) canceled (omega arith) c refl in
    (t, Reach-trans (next here (cancel s)) more, in_time d)
