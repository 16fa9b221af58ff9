-- ===== src/Worker/Pool.antt =====
-- internal/worker/worker.go: the options of the pool, and what its workers share.
use chroma_flow.Base.{ℕ, String, Option, none, some, List, ◌∷◌, leb, if◌then◌else◌, ℤ, pos, negsuc}
use mathlib.Core.Option
use chroma_flow.Cancellation.{Registry}
use chroma_flow.Observability.Metrics.{Metrics, render_finished}
use chroma_flow.Webhook.{Post}

pub record Options : Type 0 where
  pub render_max_retries : ℤ
  pub retry_backoff : ℤ

unfoldable pub clamp_retries : ℤ → ℕ
clamp_retries (pos n) = n
clamp_retries (negsuc n) = 0

-- Nanoseconds; the default is 500 milliseconds.
unfoldable pub backoff_of : ℤ → ℕ
backoff_of (pos n) = if leb n 0 then 500000000 else n
backoff_of (negsuc n) = 500000000

-- The states that the workers share with the handlers. `canceled` lists the contexts whose cancel
-- function was called, and `posts` the webhooks that were sent, the latest first.
pub record Shared (S B : Type 0) : Type 0 where
  pub storage : S
  pub blobs : B
  pub metrics : Option Metrics
  pub cancels : Registry
  pub canceled : List ℕ
  pub posts : List Post

abbrev pub with_post : Option Post → List Post → List Post
with_post none posts = posts
with_post (some post) posts = post ∷ posts

module _ {S B : Type 0} where
  -- `RenderFinished`, where metrics are kept.
  unfoldable pub finished : String → ℕ → ℕ → Shared S B → Shared S B
  finished status duration bytes w = record w {
    metrics = Option.map (render_finished status duration bytes) w.metrics;
  }

  unfoldable pub sent : Option Post → Shared S B → Shared S B
  sent post w = record w { posts = with_post post w.posts }
