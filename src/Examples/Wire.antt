-- ===== src/Examples/Wire.antt =====
-- internal/redisx/client.go and internal/realtime/hub.go at small inputs.
use chroma_flow.Base.{
  ℕ, refl, false, ◌≡◌, String, true, none, some, List, [], ◌∷◌, ◌++◌, arith, pos,
}
use chroma_flow.Redisx.Resp.{arr, got, write_command, read_resp}
use chroma_flow.Redisx.Resp.RoundTrip.{strs, read_resp-write_command}
use chroma_flow.Realtime.Frame.{text_frame}
use chroma_flow.Realtime.Frame.Parse.{parse_frame, parse_frame-text_frame}
use chroma_flow.Realtime.Handshake.{Connection}
use chroma_flow.Realtime.Hub.{joins, broadcasts, greets, takes, leaves, step, run, new_hub}
use chroma_flow.Base.Dict
use chroma_flow.Redisx.Client.{Network, Wire, does, closes, do_command, run as run_calls}
use chroma_flow.Redisx.Client.Handshake.{IsReadable}
use chroma_flow.Redisx.Client.Sync.{Answered, run-do_command-Answered}
use chroma_flow.Realtime.Hub.{Client, Hub, ℕ-eq, Step}
use chroma_flow.Realtime.Hub.Fifo.{HasGrown, admitted_all, hub_is_fifo}
use chroma_flow.Realtime.Hub.Laws.{client_of}
use chroma_flow.Realtime.Hub.Stuck.{waiting, broadcasts_of, serve_jobs_is_stuck}

-- `PING x`.
abbrev args : List (List ℕ)
args = (80 ∷ 73 ∷ 78 ∷ 71 ∷ []) ∷ (120 ∷ []) ∷ []

read_resp-write_command_example :
    read_resp 2 (write_command args ++ 43 ∷ []) ≡ got (arr (strs args)) (43 ∷ [])
read_resp-write_command_example =
    read_resp-write_command 0 args (43 ∷ []) (omega arith) (omega arith, (omega arith, tt))

-- `+OK`, cut off.
abbrev reply : List ℕ
reply = 43 ∷ 79 ∷ 75 ∷ []

parse_frame-text_frame_example : parse_frame (text_frame reply ++ 1 ∷ []) ≡ some (reply, 1 ∷ [])
parse_frame-text_frame_example = parse_frame-text_frame reply (1 ∷ []) (omega arith)

abbrev websocket_header : String → String
websocket_header name = "upgrade"

abbrev connection : Connection
connection = record {
  can_hijack = true;
  hijack_error = none;
  write_error = none;
  flush_error = none;
}

abbrev messages : List (List ℕ)
messages = [] ∷ [] ∷ [] ∷ [] ∷ [] ∷ [] ∷ [] ∷ [] ∷ []

serve_jobs_is_stuck_example :
    client_of 1 (
      run
        (leaves 1 ∷ takes 1 true ∷ greets 1 (some []) ∷ broadcasts (some []) ∷ [])
        (run (broadcasts_of messages) (step (joins 1) new_hub)))
    ≡ some (waiting messages)
serve_jobs_is_stuck_example =
    serve_jobs_is_stuck 1 messages
      (leaves 1 ∷ takes 1 true ∷ greets 1 (some []) ∷ broadcasts (some []) ∷ []) new_hub
      (omega arith) (tt, (tt, (tt, (tt, tt))))

abbrev served : Client
served = record { send = (1 ∷ []) ∷ []; serving = true; written = [] }

abbrev one_client : Hub
one_client = record { clients = (1, served) ∷ [] }

served_is_there : client_of 1 one_client ≡ some served
unfolding Dict.get
served_is_there = refl

abbrev hub_steps : List Step
hub_steps = broadcasts (some (2 ∷ [])) ∷ takes 1 true ∷ leaves 2 ∷ broadcasts (some (3 ∷ [])) ∷ []

hub_is_fifo_example :
    HasGrown served
      (admitted_all 1 hub_steps (some served))
      (client_of 1 (run hub_steps one_client))
hub_is_fifo_example = hub_is_fifo 1 hub_steps one_client (tt, (tt, (tt, (tt, tt)))) served_is_there

-- A network on which every dial and write succeeds, and each command is answered with `+OK`.
abbrev network : Network
network = record {
  dial = λ log. none;
  write = λ bs log. none;
  deliver = λ log. reply ++ 13 ∷ 10 ∷ [];
}

abbrev fresh_wire : Wire
fresh_wire = record {
  client = record { addr = reply; password = reply; db = pos 1; use_tls = true; connected = false };
  log = [];
}

readable : IsReadable network
unfolding read_resp
readable log e = cc

run-do_command-Answered_example :
    Answered args (do_command network args (run_calls network (does args ∷ closes ∷ []) fresh_wire))
run-do_command-Answered_example =
    run-do_command-Answered network readable (does args ∷ closes ∷ []) args fresh_wire refl
