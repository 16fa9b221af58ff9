-- ===== src/Worker/Retry/Laws.antt =====
-- internal/worker/worker.go: what the retries guarantee.
use mathlib.Core.Path.{subst}
use native.Mathlib.Decide.{ℕ_discrete}
use chroma_flow.Base.{ℕ, zero, suc, ◌+◌, ◌≤◌, ◌<◌, ◌≡◌, refl, sym, Option, none, some, List, arith}
use chroma_flow.Queue.Types.{Error, Result, ok, err}
use chroma_flow.Worker.Retry.{Attempt, Outcome, settled, run_attempts, generate_with_retries}

-- An attempt that fails, with a context that is still live and stays so until the next one.
pub record IsRetried (a : Attempt) : Type 0 where
  pub error : Error
  pub failed : a.rendered ≡ err error
  pub live : a.ctx_err ≡ none
  pub waited : a.woken ≡ none

-- The attempt that ends the loop: its result is returned, unless the wait after it was ended.
pub data Ends (a : Attempt) (r : Result (List ℕ)) : Type 0 where
  returned : r ≡ a.rendered → Ends a r
  interrupted : {e : Error} → a.woken ≡ some e → r ≡ err e → Ends a r

-- What a run from attempt `n` on, with `left` attempts after it, must be.
pub record IsRun (left n : ℕ) (env : ℕ → Attempt) (o : Outcome) : Type 0 where
  pub first : n ≤ o.attempts
  pub last : o.attempts ≤ n + left
  pub before : (i : ℕ) → n ≤ i → i < o.attempts → IsRetried (env i)
  pub ends : Ends (env o.attempts) o.result
  -- an attempt that may be retried is the last only where no retry is left
  pub persists : IsRetried (env o.attempts) → o.attempts ≡ n + left

stop_here :
    (left n : ℕ) (env : ℕ → Attempt) {r : Result (List ℕ)}
    → Ends (env n) r
    → (IsRetried (env n) → left ≡ 0)
    → IsRun left n env (record { result = r; attempts = n })
stop_here left n env e last = record {
  first = omega arith;
  last = omega arith;
  before = λ i h k. absurd (omega arith);
  ends = e;
  persists = λ again. omega (arith, last again);
}

go_on :
    (left n : ℕ) (env : ℕ → Attempt) {o : Outcome}
    → IsRetried (env n)
    → IsRun left (suc n) env o
    → IsRun (suc left) n env o
go_on left n env a r = record {
  first = omega (arith, r.first);
  last = omega (arith, r.last);
  before = λ i h k. elim (ℕ_discrete n i) [
    | yes e ↦ subst (λ j. IsRetried (env j)) e a
    | no ne ↦ r.before i (omega arith) k
  ];
  ends = r.ends;
  persists = λ again. omega (arith, r.persists again);
}

settled-IsRun :
    (left n : ℕ) (env : ℕ → Attempt) (r : Result (List ℕ)) (ctx_err woken : Option Error)
    {rest : Outcome}
    → (env n).rendered ≡ r
    → (env n).ctx_err ≡ ctx_err
    → (env n).woken ≡ woken
    → IsRun left (suc n) env rest
    → IsRun (suc left) n env (settled n r ctx_err woken rest)
unfolding settled
settled-IsRun left n env (ok pdf) c w er ec ew h =
    stop_here (suc left) n env (returned (sym er)) (λ a. absurd (let f = a.failed in cc))
settled-IsRun left n env (err e) (some d) w er ec ew h =
    stop_here (suc left) n env (returned (sym er)) (λ a. absurd (let f = a.live in cc))
settled-IsRun left n env (err e) none (some d) er ec ew h =
    stop_here (suc left) n env (interrupted ew refl) (λ a. absurd (let f = a.waited in cc))
settled-IsRun left n env (err e) none none er ec ew h =
    go_on left n env (record { error = e; failed = er; live = ec; waited = ew }) h

run_attempts-IsRun : (left n : ℕ) (env : ℕ → Attempt) → IsRun left n env (run_attempts left n env)
unfolding run_attempts
run_attempts-IsRun zero n env = stop_here 0 n env (returned refl) (λ a. refl)
run_attempts-IsRun (suc left) n env =
    settled-IsRun left n env (env n).rendered (env n).ctx_err (env n).woken refl refl refl
      (run_attempts-IsRun left (suc n) env)

pub generate_with_retries-IsRun :
    (retries : ℕ) (env : ℕ → Attempt) → IsRun retries 1 env (generate_with_retries retries env)
unfolding generate_with_retries
generate_with_retries-IsRun retries env = run_attempts-IsRun retries 1 env

run_attempts-succeeds :
    (left n k : ℕ) (env : ℕ → Attempt) {pdf : List ℕ}
    → k ≤ left
    → ((i : ℕ) → n ≤ i → i < n + k → IsRetried (env i))
    → (env (n + k)).rendered ≡ ok pdf
    → run_attempts left n env ≡ record { result = ok pdf; attempts = n + k }
unfolding run_attempts
run_attempts-succeeds zero n zero env h before win =
    let here : n + 0 ≡ n = omega arith in rw (here, rw here at win)
run_attempts-succeeds (suc left) n zero env h before win =
    let here : n + 0 ≡ n = omega arith in rw (here, rw here at win, settled)
run_attempts-succeeds zero n (suc k) env h before win = absurd (omega arith)
run_attempts-succeeds (suc left) n (suc k) env {pdf} h before win =
    let r = before n (omega arith) (omega arith) in
    let shift : n + suc k ≡ suc n + k = omega arith in
    rw (r.failed, r.live, r.waited, shift)
      (run_attempts-succeeds left (suc n) k env (omega arith)
        (λ i a b. before i (omega arith) (omega arith)) (rw shift at win))

-- If the context stays live and the first attempts fail, the retries reach the first attempt that
-- succeeds, as long as it is within their number: its PDF is the result.
pub generate_with_retries-succeeds :
    (retries k : ℕ) (env : ℕ → Attempt) {pdf : List ℕ}
    → k ≤ retries
    → ((i : ℕ) → 1 ≤ i → i < 1 + k → IsRetried (env i))
    → (env (1 + k)).rendered ≡ ok pdf
    → generate_with_retries retries env ≡ record { result = ok pdf; attempts = 1 + k }
unfolding generate_with_retries
generate_with_retries-succeeds retries k env h before win =
    run_attempts-succeeds retries 1 k env h before win
