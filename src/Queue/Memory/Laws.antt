-- ===== src/Queue/Memory/Laws.antt =====
-- internal/queue/memory.go: each operation of the memory queue and its well-formedness.
use chroma_flow.Base.{
  ℕ, zero, suc, ◌≤◌, ◌<◌, ◌≡◌, refl, ◌↔◌, Bool, Option, some, [], ◌∷◌, length, length-append, arith,
}
use chroma_flow.Queue.Types.{Error, queue_full, Job}
use chroma_flow.Queue.Memory.{MemoryQueue, new_memory_queue, send, push, pop, give_up}

-- The buffer keeps to its size, and a receiver waits only at an empty buffer.
pub record IsChannel (q : MemoryQueue) : Type 0 where
  pub bounded : length q.jobs ≤ q.size
  pub idle : 0 < q.receivers → length q.jobs ≡ 0

pub new_memory_queue-IsChannel : (size : ℕ) → IsChannel (new_memory_queue size)
unfolding new_memory_queue
new_memory_queue-IsChannel size = omega arith

pub send-IsChannel :
    (n : ℕ) (job : Job) {q : MemoryQueue}
    → q.receivers ≡ n
    → IsChannel q
    → IsChannel (send n job q).1
unfolding send
send-IsChannel zero job {q} e h = ground (arith, length-append q.jobs (job ∷ []))
send-IsChannel (suc n) job e h = ground arith

pub push-IsChannel : (job : Job) {q : MemoryQueue} → IsChannel q → IsChannel (push job q).1
unfolding push
push-IsChannel job {q} h = send-IsChannel q.receivers job refl h

pub pop-IsChannel :
    (ctx : Option Error) (context_first : Bool) {q : MemoryQueue}
    → IsChannel q
    → IsChannel (pop ctx context_first q).1
unfolding pop
pop-IsChannel ctx context_first {q} h = ground arith

pub give_up-IsChannel : (e : Error) {q : MemoryQueue} → IsChannel q → IsChannel (give_up e q).1
unfolding give_up
give_up-IsChannel e h = ground arith

-- A push is refused exactly when no receiver waits and the buffer is full; the queue is then
-- as it was.
pub push-queue_full_iff :
    (job : Job) (q : MemoryQueue)
    → ((push job q).0 ≡ some queue_full) ↔ ((q.receivers ≡ 0) × (q.size ≤ length q.jobs))
unfolding push
push-queue_full_iff job q = ground arith
