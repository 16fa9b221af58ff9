-- ===== src/Examples/Middleware.antt =====
-- internal/observability at a small request.
use chroma_flow.Base.{String, ◌≡◌, refl, none, List, [], ◌∷◌}
use chroma_flow.Observability.Metrics.{new_metrics, record_http}
use chroma_flow.Observability.Middleware.{
  Request, Handler, Served, StatusWriter, write_header, handler, given, response, handler-url_path,
}

-- The statuses and headers that were written.
abbrev Written : Type 0
Written = List String

abbrev set_header : String → String → StatusWriter Written → StatusWriter Written
set_header name value w = record w { inner = name ∷ value ∷ w.inner }

-- A mux that matches `GET /pdf/{id}` and answers 404.
abbrev mux : Handler (Served (StatusWriter Written))
mux r s = (
  record r { pattern = "GET /pdf/{id}" },
  record s { writer = write_header (λ code w. "status" ∷ w) 404 s.writer },
)

abbrev request : Request
request = record {
  method = "GET";
  pattern = "";
  url_path = "/pdf/4d6f";
  header = [];
  request_id = none;
}

abbrev service : Served Written
service = record { writer = []; metrics = new_metrics }

handler-url_path_example :
    let (left, s') =
      mux (given set_header mux "u" 7 request) (response set_header mux "u" 7 request service) in
    let w = (handler set_header mux "u" 7 request service).1 in
    (w.metrics ≡ record_http "GET" "/pdf/4d6f" s'.writer.code 7 s'.metrics)
    × (w.writer ≡ s'.writer.inner)
handler-url_path_example = handler-url_path set_header mux "u" 7 request service refl
