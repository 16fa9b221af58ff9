-- ===== src/Api/Writer.antt =====
-- The `http.ResponseWriter` that the handlers write to, and the bodies that they write.
-- As in net/http, the first `WriteHeader` fixes the status, a write before it fixes 200, and the
-- headers are those that stand at that moment.
use chroma_flow.Base.{ℕ, String, Bool, Option, none, some, List, [], ◌∷◌, ◌++◌}
use chroma_flow.Base.Dict
use chroma_flow.Base.Dict.{Dict, String-eq}
use chroma_flow.Queue.Types.{JobStatus}

-- What is encoded as JSON, or written as it is.
pub data Payload : Type 0 where
  submit_response : (job_id status_url : String) (idempotent : Bool) → Payload
  error_response : (error message request_id : String) → Payload
  job_response : (job_id url : String) (status : JobStatus) (error : String) → Payload
  bytes : List ℕ → Payload
  status_response : String → Payload

pub record Writer : Type 0 where
  -- the headers that `w.Header()` returns
  pub header : Dict String String
  -- the status and the headers that were sent, once they were
  pub sent : Option (ℕ × Dict String String)
  pub body : List Payload

abbrev pub fresh : Writer
fresh = record { header = []; sent = none; body = [] }

unfoldable pub set_header : String → String → Writer → Writer
set_header name value w = record w { header = Dict.put name value w.header }

abbrev sent_first :
    ℕ → Dict String String → Option (ℕ × Dict String String) → ℕ × Dict String String
sent_first status header none = (status, header)
sent_first status header (some first) = first

unfoldable pub write_header : ℕ → Writer → Writer
write_header status w = record w { sent = some (sent_first status w.header w.sent) }

unfoldable pub write : Payload → Writer → Writer
unfolding write_header
write p w = let w' = write_header 200 w in record w' { body = w'.body ++ p ∷ [] }

-- The status that a client sees.
abbrev pub status_of : Writer → Option ℕ
status_of w = elim w.sent [ none ↦ none | some (status, header) ↦ some status ]
