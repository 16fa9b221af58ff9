-- ===== src/Queue/Backend.antt =====
-- internal/queue/types.go: the interface `queue.Backend`, over the states of an implementation.
-- `ctx` is what `ctx.Err()` says during the call, where the context is used.
use chroma_flow.Base.{ℕ, Option}
use chroma_flow.Queue.Types.{Error, Result, Job}

pub record Backend (Q : Type 0) : Type 0 where
  pub push : Job → Q → Option Error × Q
  pub ack : Job → Q → Option Error × Q
  pub len : Q → Result ℕ × Q
  pub cap : Q → ℕ
