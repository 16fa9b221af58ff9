-- ===== src/Queue/Memory.antt =====
-- internal/queue/memory.go: the in-memory queue, a Go channel.
-- `jobs` is its buffer, oldest first, and `receivers` counts the goroutines that stand in the
-- receive of `Pop`. As in Go, a goroutine stands there only while the buffer is empty, and a send
-- hands its job to such a goroutine before it uses the buffer.
pub mod Laws
pub mod History
use chroma_flow.Base.{
  ℕ, zero, suc, ◌+◌, Bool, true, false, Option, none, some, List, [], ◌∷◌, ◌++◌, length, ltb,
  if◌then◌else◌,
}
use Prim.Native.Nat.{pred}
use chroma_flow.Queue.Types.{Error, queue_full, Result, ok, Job}
use chroma_flow.Queue.Backend.{Backend}

pub record MemoryQueue : Type 0 where
  pub jobs : List Job
  pub size : ℕ
  pub receivers : ℕ

-- `NewMemoryQueue`, at a size that `make` accepts.
unfoldable pub new_memory_queue : ℕ → MemoryQueue
new_memory_queue size = record { jobs = []; size = size; receivers = 0 }

-- What becomes of a job in the `select` of `Push`.
pub data Sent : Type 0 where
  handed_over buffered refused : Sent

-- The send of the `select`, for so many waiting receivers.
unfoldable pub send : ℕ → Job → MemoryQueue → Sent × MemoryQueue
send (suc n) job q = (handed_over, record q { receivers = n })
send zero job q =
    if ltb (length q.jobs) q.size
    then (buffered, record q { jobs = q.jobs ++ job ∷ [] })
    else (refused, q)

abbrev pub sent_error : Sent → Option Error
sent_error handed_over = none
sent_error buffered = none
sent_error refused = some queue_full

-- `Push`: the `default` of the `select` returns `ErrQueueFull`.
unfoldable pub push : Job → MemoryQueue → Option Error × MemoryQueue
unfolding send
push job q = let (s, q') = send q.receivers job q in (sent_error s, q')

-- What `Pop` does at first; where it blocks, the goroutine stands in the receive from then on.
pub data Popped : Type 0 where
  got : Job → Popped
  stopped : Error → Popped
  blocked : Popped

receive : List Job → MemoryQueue → Popped × MemoryQueue
receive [] q = (blocked, record q { receivers = q.receivers + 1 })
receive (job ∷ rest) q = (got job, record q { jobs = rest })

-- With a context that is done, for a buffer.
receive_or_stop : Error → Bool → List Job → MemoryQueue → Popped × MemoryQueue
receive_or_stop e true jobs q = (stopped e, q)
receive_or_stop e false [] q = (stopped e, q)
receive_or_stop e false (job ∷ rest) q = (got job, record q { jobs = rest })

-- The `select` of `Pop` over the context and the channel; the argument is `ctx.Err()`. Where both
-- are ready Go chooses either: `context_first` is that choice.
unfoldable pub pop : Option Error → Bool → MemoryQueue → Popped × MemoryQueue
unfolding receive receive_or_stop
pop none context_first q = receive q.jobs q
pop (some e) context_first q = receive_or_stop e context_first q.jobs q

-- The context of a waiting `Pop` ends before a job comes.
unfoldable pub give_up : Error → MemoryQueue → Popped × MemoryQueue
give_up e q = (stopped e, record q { receivers = pred q.receivers })

unfoldable pub ack : Job → MemoryQueue → Option Error × MemoryQueue
ack job q = (none, q)

unfoldable pub len : MemoryQueue → Result ℕ × MemoryQueue
len q = (ok (length q.jobs), q)

unfoldable pub cap : MemoryQueue → ℕ
cap q = q.size

-- `MemoryQueue` as a `queue.Backend`.
abbrev pub memory_backend : Backend MemoryQueue
memory_backend = record { push = push; ack = ack; len = len; cap = cap }
