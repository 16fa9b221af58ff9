-- ===== src/Loadtest.antt =====
-- tools/loadtest/main.go: the submitters as steps, and `submit`.
pub mod Counts
use chroma_flow.Base.{
  ℕ, zero, suc, ◌+◌, ◌-◌, ◌≡◌, Bool, true, false, Option, none, some, List, String, ℤ, pos, negsuc,
  eqb, if◌then◌else◌,
}
use chroma_flow.Queue.Types.{Error, text, Result, ok, err}

-- `left` requests are not offered yet. Of the submitters, `idle` wait at the channel, `busy` are in
-- `submit`, and `ended` have returned. `accepted` and `failed` are the counters `ok` and `failed`, and
-- `skipped` counts the rounds in which the `select` takes the case of the context, whose `break` only
-- leaves the `select`.
pub record Run : Type 0 where
  pub left : ℕ
  pub idle : ℕ
  pub busy : ℕ
  pub ended : ℕ
  pub accepted : ℕ
  pub failed : ℕ
  pub skipped : ℕ
  pub expired : Bool
  pub closed : Bool

-- How often a loop from 0 below an `int` runs.
unfoldable pub times : ℤ → ℕ
times (pos n) = n
times (negsuc n) = 0

unfoldable pub start : (requests concurrency : ℤ) → Run
unfolding times
start requests concurrency = record {
  left = times requests;
  idle = times concurrency;
  busy = 0;
  ended = 0;
  accepted = 0;
  failed = 0;
  skipped = 0;
  expired = false;
  closed = false;
}

-- `submit`, of what the client returns: a status of an answer, or an error.
unfoldable pub submit : Result ℕ → Option Error
submit (err e) = some e
submit (ok status) = if eqb status 202 then none else some (text "status")

-- What a submitter counts.
unfoldable pub counted : Option Error → Run → Run
counted none s = record s { accepted = s.accepted + 1 }
counted (some e) s = record s { failed = s.failed + 1 }

pub data Step : Run → Run → Type 0 where
  -- `case jobs <- i`: an unbuffered channel hands over to a submitter that waits
  hand_over :
      (s : Run) {n k : ℕ}
      → s.left ≡ suc n
      → s.idle ≡ suc k
      → Step s (record s { left = n; idle = k; busy = s.busy + 1 })
  -- `case <-ctx.Done()`
  skip :
      (s : Run) {n : ℕ}
      → s.left ≡ suc n
      → s.expired ≡ true
      → Step s (record s { left = n; skipped = s.skipped + 1 })
  -- a `submit` returns
  count :
      (s : Run) (answer : Result ℕ) {n : ℕ}
      → s.busy ≡ suc n
      → Step s (counted (submit answer) (record s { busy = n; idle = s.idle + 1 }))
  -- the timeout
  expire : (s : Run) → Step s (record s { expired = true })
  -- `close(jobs)`
  close : (s : Run) → s.left ≡ 0 → Step s (record s { closed = true })
  -- a submitter leaves the range over the closed channel
  leave :
      (s : Run) {n : ℕ}
      → s.closed ≡ true
      → s.idle ≡ suc n
      → Step s (record s { idle = n; ended = s.ended + 1 })

pub data Reach (s : Run) : Run → Type 0 where
  here : Reach s s
  next : {t u : Run} → Reach s t → Step t u → Reach s u

-- `wg.Wait()` has returned.
abbrev pub IsOver : ℤ → Run → Type 0
IsOver concurrency s = (s.closed ≡ true) × (s.ended ≡ times concurrency)

-- The process ends without the panic.
abbrev pub passes : Run → Bool
passes s = eqb s.failed 0
