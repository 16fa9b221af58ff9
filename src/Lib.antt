-- ===== src/Lib.antt =====
-- ChromaFlow renders web pages to PDF. A client posts a URL to the HTTP API (internal/api), which
-- reserves the request's idempotency key, stores a pending result in the metadata storage
-- (internal/storage) and pushes a job to the queue (internal/queue). A worker (internal/worker)
-- pops the job, renders the page with retries, puts the PDF into the blob store (internal/blob),
-- stores the final result, and posts a webhook (internal/webhook). A client cancels a job through
-- the storage and through the registry of running contexts (internal/cancellation). Every change
-- of the storage is broadcast to websocket clients (internal/realtime).
--
-- The files, by the part of the program that they model:
-- - Base: numbers, lists, texts, Go maps (Base/Dict) and sorted keys (Base/Order), shared by all.
-- - Queue/Types: internal/queue/types.go. Queue/Memory: internal/queue/memory.go, a Go channel
--   with its buffer and its waiting receivers; Queue/Memory/History runs any sequence of calls.
--   Queue/Redis: internal/queue/redis.go, over the laws of Queue/Redis/Server; Queue/Redis/History
--   runs any sequence of calls.
-- - Storage/Store: internal/storage/storage.go, the interface `Store` as a record of operations
--   over a state, and `StoreLaws`, what its clients rely on. Storage/Memory:
--   internal/storage/memory.go, each method a function from state to state; Storage/Memory/Wired
--   fills the interface, with the callback that cmd/server/main.go registers. Storage/Fields and
--   Storage/Redis: internal/storage/redis.go, over the laws of Redisx/Server; Storage/Redis/Wired
--   fills the interface.
-- - Blob: internal/blob/blob.go and internal/blob/memory.go. Blob/Signature and Blob/S3:
--   internal/blob/s3.go, over a bucket that answers the requests that are signed for it
--   (Blob/S3/Bucket); Blob/S3/Paths has the paths of its objects.
-- - Cancellation: internal/cancellation/registry.go.
-- - Observability/Metrics: the counters and histograms of internal/observability/metrics.go.
--   Observability/Exposition: the text that `WritePrometheus` makes of them, with the texts of
--   numbers in Observability/Format; Observability/Calls runs any sequence of calls, and
--   Observability/View is the metrics without the order of their maps. Observability/Middleware:
--   its middleware and internal/observability/request.go, as cmd/server/main.go puts them around
--   its mux. Observability/Logging: the levels of internal/observability/logging.go.
-- - Api: internal/api/handler.go. Api/World has the states that the handlers share, Api/Writer the
--   http.ResponseWriter, Api/Submit the handler `SubmitJob`, Api/Jobs the handlers `GetJob`,
--   `CancelJob`, `Healthz` and `Readyz`, Api/Validate `validateURL`.
-- - Webhook: internal/webhook/notifier.go.
-- - Pdf: internal/pdf/generator.go, over the package rod; Pdf/Processes runs any sequence of its
--   steps.
-- - Worker: internal/worker/worker.go. Worker/Retry has `generateWithRetries`, Worker/Process
--   `processJob`, Worker/Loop the loop `worker` and Worker/Loop/Balance what it has done, Worker/Shutdown `Start` and `Wait` with the
--   goroutines as steps.
-- - Redisx: internal/redisx/client.go. Redisx/Resp has the protocol, `writeCommand` and
--   `readRESP`, Redisx/New the URL of a client, Redisx/Client its connection and `Do`, over a
--   network that is a function of all that happened; Redisx/Answer has the replies as the storage
--   and the queue read them, Redisx/Server what a server that answers promises of its commands.
-- - Realtime: internal/realtime/hub.go. Realtime/Hub has the clients and their channels as steps,
--   Realtime/Handshake `accept`, Realtime/Serve the start of `ServeJobs`, Realtime/Frame
--   `writeTextFrame`.
-- - Server: internal/config/config.go and cmd/server/main.go, what main builds of its configuration
--   and how it shuts down.
-- - Pipeline: one job from its submission through the queue and a worker to its download, over any
--   storage and blob store.
-- - Loadtest: tools/loadtest/main.go, the client that submits many jobs, with its submitters and the
--   timeout as steps. Counts has what its counters say.
-- - Examples: runs at small inputs.
--
-- A handler or a worker is a function on the states of the components that it shares. The worker
-- and the handlers are over any storage that keeps `StoreLaws`, so what is shown of them holds of
-- the memory storage and of the Redis storage, which keep these laws; what a storage keeps of a
-- result is a function of the laws, as Redis keeps a result without its PDF. The Redis storage and
-- queue are functions on the states of a server, over `Do` as a parameter. `processJob` runs beside
-- other goroutines: at four points between its calls an arbitrary function changes what is shared.
-- A call of the storage is one atomic step there, also `Cancel`, which in the memory storage is a
-- `Get` and then a `Set`; Storage/Memory/Races has it in two steps. A call of the metrics is one
-- atomic step, under their mutex, and so is a rendering in Pdf/Processes.
--
-- Numbers: a time is its nanoseconds since Go's zero time, a duration its nanoseconds; `uint64`
-- counters wrap at 2 ^ 64. A float64 sum of seconds is the list of the durations that were added to
-- it, in their order, of which the addition of float64 makes the sum when it is printed. Lengths
-- and sums of lengths are natural numbers: they stay far below 2 ^ 63 in a process's memory. The
-- recursion of `readRESP` takes fuel, which bounds the depth of nested arrays; one more than the
-- number of bytes is enough. Its `make` panics above 2 ^ 48 bytes, the largest allocation of Go on a
-- 64-bit machine; smaller ones are taken to find their memory.
--
-- Parameters: `json.Decoder`, `url.ParseRequestURI`, the HTTP client of the webhooks, the package
-- rod, which launches and drives the browser, `env.Parse`, `strings.ToLower`, fmt's `%q`, the
-- arithmetic and the texts of float64, the hash of the websocket key, the random ids, the clock, the texts of times, the JSON of a queued job,
-- `url.Parse` and `url.PathEscape`, the hash functions of the S3 signature, the HTTP client of the
-- bucket, and the Redis server. A law of the server speaks of commands
-- that it answers on keys of the right type; the laws of the queue are for times from 1970 to the
-- year 9999.
--
-- Not modelled: the dashboard page and the OpenAPI text, the table of routes in main, and
-- logging, which is output only. The worker takes what an attempt to render
-- returns as a parameter; Worker/Retry/Browser puts the generator in its place.
pub mod Base
pub mod Queue
pub mod Storage
pub mod Blob
pub mod Cancellation
pub mod Observability
pub mod Api
pub mod Webhook
pub mod Pdf
pub mod Worker
pub mod Redisx
pub mod Server
pub mod Realtime
pub mod Pipeline
pub mod Loadtest
pub mod Examples
