-- ===== src/Observability/Middleware.antt =====
-- internal/observability/request.go and the middleware of internal/observability/metrics.go, as
-- cmd/server/main.go puts them around its mux. A handler is a function on the request that it is
-- given and the state of the response and the service: it returns the request as it leaves it,
-- since `http.ServeMux` writes the pattern that it matched into its request. `r.WithContext` makes
-- a copy of the request, which shares the headers and the URL.
use chroma_flow.Base.{ℕ, String, ◌≡◌, refl, ap, Option, none, some, ◌==◌, if◌then◌else◌}
use chroma_flow.Base.Dict
use chroma_flow.Base.Dict.{Dict, String-eq}
use chroma_flow.Observability.Metrics.{Metrics, record_http}

pub record Request : Type 0 where
  pub method : String
  pub pattern : String
  pub url_path : String
  pub header : Dict String String
  -- the value of the request's context under `requestIDKey`
  pub request_id : Option String

-- A `http.Handler`.
abbrev pub Handler : Type 0 → Type 0
Handler S = Request → S → Request × S

abbrev pub or_empty : Option String → String
or_empty none = ""
or_empty (some t) = t

-- `RequestIDFromContext`.
abbrev pub request_id_from_context : Request → String
request_id_from_context r = or_empty r.request_id

-- The id of a request: its header, or a new one.
abbrev pub request_id_of : String → Request → String
request_id_of uuid r =
    let given = or_empty (Dict.get "X-Request-Id" r.header) in if given == "" then uuid else given

-- The response writer of the service, its metrics, and what else its handlers share.
pub record Served (W : Type 0) : Type 0 where
  pub writer : W
  pub metrics : Metrics

-- `statusResponseWriter`.
pub record StatusWriter (W : Type 0) : Type 0 where
  pub inner : W
  pub code : ℕ

-- `WriteHeader`, where `write_header` is that of the writer inside.
unfoldable pub write_header : {W : Type 0} → (ℕ → W → W) → ℕ → StatusWriter W → StatusWriter W
write_header inner_write code w = record { inner = inner_write code w.inner; code = code }

module _ {W : Type 0} (set_header : String → String → W → W) where
  -- `RequestMiddleware`; `uuid` is what `uuid.NewString` would draw, and `set_header` sets a header
  -- of the response.
  unfoldable pub request_middleware : String → Handler (Served W) → Handler (Served W)
  request_middleware uuid next r s =
      let id = request_id_of uuid r in
      let copy = record r { request_id = some id } in
      let (left, s') = next copy (record s { writer = set_header "X-Request-Id" id s.writer }) in
      (record r { header = left.header; url_path = left.url_path }, s')

-- The label for the path: the pattern, or the path of the URL where there is none.
abbrev pub path_label : Request → String
path_label r = if r.pattern == "" then r.url_path else r.pattern

module _ {W : Type 0} where
  -- `Middleware`; `duration` is what `time.Since(start)` says when the handler has returned.
  unfoldable pub middleware : ℕ → Handler (Served (StatusWriter W)) → Handler (Served W)
  unfolding record_http
  middleware duration next r s =
      let (left, s') =
        next r (record { writer = record { inner = s.writer; code = 200 }; metrics = s.metrics }) in
      (
        left,
        record {
          writer = s'.writer.inner;
          metrics = record_http left.method (path_label left) s'.writer.code duration s'.metrics;
        },
      )

module _ {W : Type 0} (set_header : String → String → StatusWriter W → StatusWriter W)
    (mux : Handler (Served (StatusWriter W))) (uuid : String) (duration : ℕ) where
  -- The handler of the server.
  unfoldable pub handler : Handler (Served W)
  unfolding middleware request_middleware
  handler = middleware duration (request_middleware set_header uuid mux)

  -- What the mux is given: the request with its id, and the response with the id as a header.
  abbrev pub given : Request → Request
  given r = record r { request_id = some (request_id_of uuid r) }

  abbrev pub response : Request → Served W → Served (StatusWriter W)
  response r s = record {
    writer =
        set_header "X-Request-Id" (request_id_of uuid r) (record { inner = s.writer; code = 200 });
    metrics = s.metrics;
  }

  -- Whatever pattern the mux matches and writes into its request, the HTTP metrics of a request,
  -- which the server makes with no pattern, are labeled with the path of its URL: `Middleware` sees
  -- the request of which `RequestMiddleware` gave the mux a copy. The mux is given the request with
  -- its id, which is the id in its header or else a new one, and a response with that id as a
  -- header; the code of the metrics is the one that the writer holds when the mux returns.
  pub handler-url_path :
      (r : Request) (s : Served W)
      → r.pattern ≡ ""
      → let (left, s') = mux (given r) (response r s) in
        let w = (handler r s).1 in
        (w.metrics ≡ record_http r.method left.url_path s'.writer.code duration s'.metrics)
        × (w.writer ≡ s'.writer.inner)
  unfolding handler
  handler-url_path r s no_pattern =
      let (left, s') = mux (given r) (response r s) in
      (
        ap
            (λ p.
              record_http r.method (if p == "" then left.url_path else p) s'.writer.code duration
                s'.metrics)
            no_pattern,
        refl,
      )
