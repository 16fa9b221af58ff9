-- ===== src/Worker/Shutdown.antt =====
-- internal/worker/worker.go: `Start` and `Wait`, with the goroutines of the workers as steps, and
-- the order in which cmd/server/main.go shuts down.
pub mod Drained
use chroma_flow.Base.{ℕ, zero, suc, ◌+◌, Option, none, some, ℤ, pos, negsuc, ◌≡◌, Bool, true, false}
use chroma_flow.Queue.Types.{Error}
use chroma_flow.Observability.Metrics.{Metrics, worker_started, worker_stopped}
use chroma_flow.Observability.Calls.{
  Call, submitted, started, stopped, rejected, rendered, recorded, call,
}

-- `left` rounds of the loop of `Start` are left. Of the goroutines, `spawned` have not begun
-- `worker`, `active` are between `WorkerStarted` and `WorkerStopped`, `leaving` have returned from
-- `worker` and not called `wg.Done` yet, and `ended` have. `group` is the counter of the
-- WaitGroup. `drained`: the channel `done` of `Wait` is closed.
pub record Workers : Type 0 where
  pub left : ℕ
  pub group : ℕ
  pub spawned : ℕ
  pub active : ℕ
  pub leaving : ℕ
  pub ended : ℕ
  pub canceled : Bool
  pub drained : Bool
  pub metrics : Metrics

-- How often the loop of `Start` runs.
unfoldable pub rounds : ℤ → ℕ
rounds (pos n) = n
rounds (negsuc n) = 0

-- The call of `Start`.
unfoldable pub start : ℤ → Metrics → Workers
unfolding rounds
start num_workers metrics = record {
  left = rounds num_workers;
  group = 0;
  spawned = 0;
  active = 0;
  leaving = 0;
  ended = 0;
  canceled = false;
  drained = false;
  metrics = metrics;
}

-- Some other call of the metrics.
abbrev pub IsOther : Call → Type 0
IsOther started = ⊥
IsOther stopped = ⊥
IsOther _ = Unit

pub data Step : Workers → Workers → Type 0 where
  -- `p.wg.Add(1)` and `go`
  spawn :
      (s : Workers) {n : ℕ}
      → s.left ≡ suc n
      → Step s (record s { left = n; group = s.group + 1; spawned = s.spawned + 1 })
  -- the first statements of `worker`
  begin :
      (s : Workers) {n : ℕ}
      → s.spawned ≡ suc n
      → Step s (record s { spawned = n; active = s.active + 1; metrics = worker_started s.metrics })
  -- a Pop fails once the context is canceled, and `worker` returns
  leave :
      (s : Workers) {n : ℕ}
      → s.canceled ≡ true
      → s.active ≡ suc n
      → Step s
          (record s { active = n; leaving = s.leaving + 1; metrics = worker_stopped s.metrics })
  -- `p.wg.Done()`
  finish :
      (s : Workers) {n g : ℕ}
      → s.leaving ≡ suc n
      → s.group ≡ suc g
      → Step s (record s { leaving = n; group = g; ended = s.ended + 1 })
  -- `cancel()` in main
  cancel : (s : Workers) → Step s (record s { canceled = true })
  -- `p.wg.Wait()` returns in the goroutine of `Wait`, which main calls after `Start` has returned
  drain : (s : Workers) → s.left ≡ 0 → s.group ≡ 0 → Step s (record s { drained = true })
  -- another goroutine uses the metrics
  meanwhile :
      (s : Workers) (c : Call) → IsOther c → Step s (record s { metrics = call c s.metrics })

pub data Reach (s : Workers) : Workers → Type 0 where
  here : Reach s s
  next : {t u : Workers} → Reach s t → Step t u → Reach s u

-- The `select` of `Wait`: with `ctx_err`, the context of the shutdown has ended; where both are
-- ready Go chooses one.
pub data Waits (ctx_err : Option Error) (s : Workers) : Option Error → Type 0 where
  in_time : s.drained ≡ true → Waits ctx_err s none
  too_late : (e : Error) → ctx_err ≡ some e → Waits ctx_err s (some e)
