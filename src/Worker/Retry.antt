-- ===== src/Worker/Retry.antt =====
-- internal/worker/worker.go: `generateWithRetries`. The renderer, a browser, and the clock are
-- parameters: what the n-th attempt meets is `env n`.
pub mod Laws
pub mod Browser
use chroma_flow.Base.{ℕ, zero, suc, ◌+◌, Option, none, some, List}
use chroma_flow.Queue.Types.{Error, Result, ok, err}

-- One attempt: what `GeneratePDF` returns, what `ctx.Err()` says right after it, and the error
-- with which the context ends the wait for the next attempt, if it does.
pub record Attempt : Type 0 where
  pub rendered : Result (List ℕ)
  pub ctx_err : Option Error
  pub woken : Option Error

-- The result, and the number of the last attempt.
pub record Outcome : Type 0 where
  pub result : Result (List ℕ)
  pub attempts : ℕ

-- What follows an attempt that is not the last: `rest` is the outcome of the attempts after it.
unfoldable pub settled : ℕ → Result (List ℕ) → (ctx_err woken : Option Error) → Outcome → Outcome
settled n (ok pdf) ctx_err woken rest = record { result = ok pdf; attempts = n }
settled n (err e) (some done) woken rest = record { result = err e; attempts = n }
settled n (err e) none (some done) rest = record { result = err done; attempts = n }
settled n (err e) none none rest = rest

-- The loop from attempt `n` on, with so many attempts left after it.
unfoldable pub run_attempts : ℕ → ℕ → (ℕ → Attempt) → Outcome
unfolding settled
run_attempts zero n env = record { result = (env n).rendered; attempts = n }
run_attempts (suc left) n env =
    settled n (env n).rendered (env n).ctx_err (env n).woken (run_attempts left (suc n) env)

-- `RenderMaxRetries + 1` attempts at most, counted from 1.
unfoldable pub generate_with_retries : ℕ → (ℕ → Attempt) → Outcome
unfolding run_attempts
generate_with_retries render_max_retries env = run_attempts render_max_retries 1 env
