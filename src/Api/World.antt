-- ===== src/Api/World.antt =====
-- internal/api/handler.go: what a handler reads and changes, and its helpers.
-- The logger writes text to standard output and is left out.
use chroma_flow.Base.{ℕ, String, Bool, Option, List}
use mathlib.Core.Option
use chroma_flow.Cancellation.{Registry}
use chroma_flow.Observability.Metrics.{Metrics, job_submitted, job_rejected}
use chroma_flow.Api.Writer.{Writer, error_response, set_header, write_header, write}

-- The states of the components that the handlers share, and the response that is being written.
-- `canceled` lists the contexts that were canceled through the registry; metrics may be nil.
pub record World (S Q B : Type 0) : Type 0 where
  pub storage : S
  pub queue : Q
  pub blobs : B
  pub metrics : Option Metrics
  pub cancels : Registry
  pub canceled : List ℕ
  pub writer : Writer

pub record HandlerOptions : Type 0 where
  pub require_idempotency_key : Bool
  pub default_webhook_url : String

module _ {S Q B : Type 0} where
  -- `h.writeError`, of a request with an id in its context.
  unfoldable pub write_error : String → ℕ → String → String → World S Q B → World S Q B
  unfolding set_header write_header write
  write_error request_id status code message w = record w {
    writer =
        write (error_response code message request_id)
          (write_header status (set_header "Content-Type" "application/json" w.writer));
  }

  unfoldable pub record_submitted : World S Q B → World S Q B
  record_submitted w = record w { metrics = Option.map job_submitted w.metrics }

  unfoldable pub record_rejected : String → World S Q B → World S Q B
  record_rejected reason w = record w { metrics = Option.map (job_rejected reason) w.metrics }

  -- A rejection is counted under the code that the client is sent.
  unfoldable pub reject : String → ℕ → String → String → World S Q B → World S Q B
  unfolding record_rejected write_error
  reject request_id status code message w =
      write_error request_id status code message (record_rejected code w)
