-- ===== src/Queue/Memory/History.antt =====
-- internal/queue/memory.go: the memory queue over any sequence of calls, with the jobs that it
-- accepted and those that it delivered, each in order of time.
use chroma_flow.Base.{
  ℕ, zero, suc, ◌≡◌, refl, Bool, Option, List, [], ◌∷◌, ◌++◌, ◌≤◌, length, arith, ◌∙◌,
}
use mathlib.Core.List.{append_assoc, append-nil}
use chroma_flow.Queue.Types.{Error, Job}
use chroma_flow.Queue.Memory.{
  MemoryQueue, new_memory_queue, Sent, handed_over, buffered, refused, send, Popped, got, stopped,
  blocked, pop, give_up,
}
use chroma_flow.Queue.Memory.Laws.{
  IsChannel, new_memory_queue-IsChannel, send-IsChannel, pop-IsChannel, give_up-IsChannel,
}

-- What the goroutines of the service do to the queue.
pub data Call : Type 0 where
  pushes : Job → Call
  pops : Option Error → Bool → Call
  gives_up : Error → Call

pub record History : Type 0 where
  pub queue : MemoryQueue
  pub accepted : List Job
  pub delivered : List Job

-- A job that is handed over is delivered at once, one that is buffered by a later `Pop`.
abbrev note_sent : Job → Sent → History → History
note_sent job handed_over h = record h {
  accepted = h.accepted ++ job ∷ [];
  delivered = h.delivered ++ job ∷ [];
}
note_sent job buffered h = record h { accepted = h.accepted ++ job ∷ [] }
note_sent job refused h = h

abbrev note_popped : Popped → History → History
note_popped (got job) h = record h { delivered = h.delivered ++ job ∷ [] }
note_popped (stopped e) h = h
note_popped blocked h = h

pub step : Call → History → History
step (pushes job) h =
    let (sent, q) = send h.queue.receivers job h.queue in
    note_sent job sent (record h { queue = q })
step (pops ctx context_first) h =
    let (popped, q) = pop ctx context_first h.queue in note_popped popped (record h { queue = q })
step (gives_up e) h = record h { queue = (give_up e h.queue).1 }

pub run : List Call → History → History
run [] h = h
run (c ∷ cs) h = run cs (step c h)

abbrev pub start : ℕ → History
start size = record { queue = new_memory_queue size; accepted = []; delivered = [] }

-- What was accepted is what was delivered and then what stands in the buffer.
pub record InOrder (h : History) : Type 0 where
  pub channel : IsChannel h.queue
  pub order : h.accepted ≡ h.delivered ++ h.queue.jobs

empty_of_receivers : (q : MemoryQueue) {n : ℕ} → IsChannel q → q.receivers ≡ suc n → q.jobs ≡ []
empty_of_receivers q c e = ground arith

pushes-order :
    (job : Job) (h : History) (n : ℕ)
    → h.queue.receivers ≡ n
    → InOrder h
    → let (sent, q) = send n job h.queue in
      (note_sent job sent (record h { queue = q })).accepted
      ≡ (note_sent job sent (record h { queue = q })).delivered ++ q.jobs
unfolding send
pushes-order job h zero e i =
    ground (arith, i.order, append_assoc h.delivered h.queue.jobs (job ∷ []))
pushes-order job h (suc n) e i =
    let nothing = empty_of_receivers h.queue i.channel e in
    rw (i.order, nothing, append-nil, append-nil)

pops-order :
    (ctx : Option Error) (context_first : Bool) (h : History) (jobs : List Job)
    → h.queue.jobs ≡ jobs
    → InOrder h
    → let (popped, q) = pop ctx context_first h.queue in
      (note_popped popped (record h { queue = q })).accepted
      ≡ (note_popped popped (record h { queue = q })).delivered ++ q.jobs
unfolding pop
pops-order ctx context_first h [] e i = ground arith
pops-order ctx context_first h (job ∷ rest) e i =
    ground (arith, append_assoc h.delivered (job ∷ []) rest)

note_sent-queue : (job : Job) (s : Sent) (h : History) → (note_sent job s h).queue ≡ h.queue
note_sent-queue job handed_over h = refl
note_sent-queue job buffered h = refl
note_sent-queue job refused h = refl

note_popped-queue : (p : Popped) (h : History) → (note_popped p h).queue ≡ h.queue
note_popped-queue (got job) h = refl
note_popped-queue (stopped e) h = refl
note_popped-queue blocked h = refl

step-InOrder : (c : Call) (h : History) → InOrder h → InOrder (step c h)
unfolding step
step-InOrder (pushes job) h i =
    let kept = note_sent-queue job (send h.queue.receivers job h.queue).0 in
    record {
      channel = rw kept (send-IsChannel h.queue.receivers job refl i.channel);
      order = rw kept (pushes-order job h h.queue.receivers refl i);
    }
step-InOrder (pops ctx context_first) h i =
    let kept = note_popped-queue (pop ctx context_first h.queue).0 in
    record {
      channel = rw kept (pop-IsChannel ctx context_first i.channel);
      order = rw kept (pops-order ctx context_first h h.queue.jobs refl i);
    }
step-InOrder (gives_up e) h i = record {
  channel = give_up-IsChannel e i.channel;
  order = unfold give_up in i.order;
}

run-InOrder : (cs : List Call) (h : History) → InOrder h → InOrder (run cs h)
unfolding run
run-InOrder [] h i = i
run-InOrder (c ∷ cs) h i = run-InOrder cs (step c h) (step-InOrder c h i)

start-InOrder : (size : ℕ) → InOrder (start size)
start-InOrder size = record {
  channel = new_memory_queue-IsChannel size;
  order = unfold new_memory_queue in refl;
}

size-send : (n : ℕ) (job : Job) (q : MemoryQueue) → (send n job q).1.size ≡ q.size
unfolding send
size-send zero job q = ground arith
size-send (suc n) job q = refl

size-step : (c : Call) (h : History) → (step c h).queue.size ≡ h.queue.size
unfolding step
size-step (pushes job) h =
    rw (note_sent-queue job (send h.queue.receivers job h.queue).0)
      (size-send h.queue.receivers job h.queue)
size-step (pops ctx context_first) h =
    rw (note_popped-queue (pop ctx context_first h.queue).0) (unfold pop in ground arith)
size-step (gives_up e) h = unfold give_up in refl

size-run : (cs : List Call) (h : History) → (run cs h).queue.size ≡ h.queue.size
unfolding run
size-run [] h = refl
size-run (c ∷ cs) h = size-run cs (step c h) ∙ size-step c h

-- Whatever calls the goroutines make of a new queue, in any order, the jobs are delivered in the
-- order in which they were accepted, each once and none lost: what was accepted is what was
-- delivered followed by what stands in the buffer, which never holds more than `size` jobs.
pub queue_is_fifo :
    (size : ℕ) (cs : List Call)
    → let h = run cs (start size) in
      (h.accepted ≡ h.delivered ++ h.queue.jobs) × (length h.queue.jobs ≤ size)
queue_is_fifo size cs =
    let i = run-InOrder cs (start size) (start-InOrder size) in
    let kept : (run cs (start size)).queue.size ≡ size =
      size-run cs (start size) ∙ (unfold new_memory_queue in refl) in
    (i.order, omega (arith, i.channel.bounded, kept))
