-- ===== src/Examples/Startup.antt =====
-- cmd/server/main.go, internal/config/config.go and the pool of internal/worker/worker.go: starting
-- and shutting down.
use chroma_flow.Base.{
  ℕ, String, ◌≡◌, refl, false, Option, none, some, List, [], ◌==◌, if◌then◌else◌, pos, trim_space,
}
use chroma_flow.Queue.Types.{ok, deadline_exceeded}
use chroma_flow.Redisx.New.{RedisUrl}
use chroma_flow.Observability.Metrics.{new_metrics, u64}
use chroma_flow.Observability.Logging.{parse_log_level, warn, info}
use chroma_flow.Worker.Shutdown.{
  Workers, rounds, start, spawn, begin, leave, finish, cancel, drain, Reach, here, next, Waits,
  in_time,
}
use chroma_flow.Worker.Shutdown.Drained.{wait_means_ended, wait_can_return}
use chroma_flow.Server.{Config, load}

-- `strings.ToLower` on the texts of these examples.
abbrev to_lower : String → String
to_lower t = if t == "Memory" then "memory" else t

abbrev parse_url : List ℕ → Option RedisUrl
parse_url url = none

abbrev config : String → String → Config
config queue storage = record {
  port = pos 8080;
  num_workers = pos 0;
  queue_size = pos 100;
  page_timeout = pos 30;
  result_ttl = pos 3600;
  chrome_ws_url = "";
  log_level = "info";
  queue_backend = queue;
  storage_backend = storage;
  redis_url = [];
  redis_key_prefix = "chromaflow";
  redis_visibility_timeout = pos 300;
  blob_backend = "memory";
  s3 = record {
    endpoint = "localhost:9000";
    access_key_id = "id";
    secret_access_key = "secret";
    bucket = "pdfs";
    region = "us-east-1";
    use_ssl = false;
  };
  require_idempotency_key = false;
  webhook_url = "";
  webhook_timeout = pos 10;
  render_max_retries = pos 1;
  render_retry_backoff_ms = pos 500;
}

two_workers_per_cpu :
    load 4 (ok (config "memory" "")) ≡ some (record (config "memory" "") { num_workers = pos 8 })
unfolding load
two_workers_per_cpu = refl

log_levels : (parse_log_level to_lower " warn " ≡ warn) × (parse_log_level to_lower "loud" ≡ info)
unfolding parse_log_level trim_space
log_levels = (refl, refl)

-- One worker is started, begins, leaves and ends.
abbrev one : Workers
one = start (pos 1) new_metrics

one_worker : (s : Workers) × Reach one s × Waits none s none
unfolding start rounds
one_worker =
    let a = spawn one refl in
    (
      _,
      next
          (next (next (next (next (next here a) (begin _ refl)) (cancel _)) (leave _ refl refl))
            (finish _ {g = 0} refl refl))
          (drain _ refl refl),
      in_time refl,
    )

wait_means_ended_example :
    let s = one_worker.0 in
    (s.ended ≡ rounds (pos 1))
    × (s.active ≡ 0)
    × (s.spawned ≡ 0)
    × (u64 s.metrics.active_workers ≡ u64 new_metrics.active_workers)
wait_means_ended_example =
    wait_means_ended (pos 1) new_metrics {s = one_worker.0} {ctx_err = none} one_worker.1
      one_worker.2

wait_can_return_example : (t : Workers) × Reach one t × Waits (some deadline_exceeded) t none
wait_can_return_example =
    wait_can_return (pos 1) new_metrics {s = one} (some deadline_exceeded) here
