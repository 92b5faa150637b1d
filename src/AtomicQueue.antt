-- ===== src/AtomicQueue.antt =====
-- source/utils/clog_atomic_queue.c: a queue of any number of producers and consumers.
--
-- A move is one access of a thread to what the threads share, with what the thread does between it
-- and the next; where the thread stands, with what it has read and not yet used, is its `Local`. A
-- node that is retired is not given again by malloc while a thread may hold it: that is what
-- source/utils/clog_ebr.c is for, so that here malloc gives a node that was not used before. `put` and
-- `got` are the values in the order in which nodes were linked, and in which the head passed them.
-- Accesses are sequentially consistent.
pub mod Chain
mod Moves
pub mod Fifo
pub mod Seen
pub mod Empty
pub mod Retired
mod Gc
mod Tests
use casca_log.Base.{
  ℕ, zero, suc, Bool, true, false, Option, none, some, List, [], ◌∷◌, ◌++◌, if◌then◌else◌, ◌==◌,
  update,
}

-- Where a thread stands in `clog_atomic_queue_enqueue`, with its new node, or in
-- `clog_atomic_queue_dequeue_internal`: what it has loaded, or which exchange it is about to try. The
-- last of dequeuing is that the queue was found empty.
pub data Local : Type 0 where
  idle : Local
  load_tail : ℕ → Local
  load_next : ℕ → ℕ → Local
  check_tail : ℕ → ℕ → Local
  check_state : ℕ → ℕ → Local
  link_node : ℕ → ℕ → Local
  help_tail : ℕ → ℕ → ℕ → Local
  swing_tail : ℕ → ℕ → Local
  load_head : Local
  with_head : ℕ → Local
  with_tail : ℕ → ℕ → Local
  with_next : ℕ → ℕ → Option ℕ → Local
  help_head : ℕ → ℕ → Local
  check_again : ℕ → ℕ → Option ℕ → Local
  move_head : ℕ → ℕ → Local
  found_none : Local

pub record AtomicQueue : Type 0 where
  pub head : ℕ
  pub tail : ℕ
  pub next : ℕ → Option ℕ
  pub data_of : ℕ → ℕ
  pub used : ℕ → Bool
  pub running : Bool
  pub threads : ℕ → Local
  pub put : List ℕ
  pub got : List ℕ
  pub retired : List ℕ

-- `clog_atomic_queue_create`, with the node that malloc gives for the dummy.
unfoldable pub create : ℕ → AtomicQueue
create dummy = record {
  head = dummy;
  tail = dummy;
  next = λ x. none;
  data_of = λ x. 0;
  used = update (λ x. false) dummy true;
  running = true;
  threads = λ i. idle;
  put = [];
  got = [];
  retired = [];
}

abbrev pub goes : AtomicQueue → ℕ → Local → AtomicQueue
goes s i l = record s { threads = update s.threads i l }

-- The start of `clog_atomic_queue_enqueue`, with the node that malloc gives.
abbrev pub begun : AtomicQueue → ℕ → ℕ → ℕ → AtomicQueue
begun s i node d = record s {
  next = update s.next node none;
  data_of = update s.data_of node d;
  used = update s.used node true;
  threads = update s.threads i (load_tail node);
}

abbrev pub begin_at : Local → AtomicQueue → ℕ → ℕ → ℕ → AtomicQueue
begin_at idle s i node d = if s.running then if s.used node then s else begun s i node d else s
begin_at _ s i node d = s

-- The exchange of the tail's next pointer.
abbrev pub linked : AtomicQueue → ℕ → ℕ → ℕ → Option ℕ → AtomicQueue
linked s i node tail none = record s {
  next = update s.next tail (some node);
  threads = update s.threads i (swing_tail node tail);
  put = s.put ++ s.data_of node ∷ [];
}
linked s i node tail (some other) = goes s i (load_tail node)

-- The exchange of the tail, which may fail.
abbrev pub swung : AtomicQueue → ℕ → ℕ → ℕ → Local → AtomicQueue
swung s i tail node l =
    if s.tail == tail then record s { tail = node; threads = update s.threads i l } else goes s i l

-- The exchange of the head, and what follows a success.
abbrev pub moved : AtomicQueue → ℕ → ℕ → ℕ → AtomicQueue
moved s i head node =
    if s.head == head
    then record s {
      head = node;
      data_of = update s.data_of node 0;
      threads = update s.threads i idle;
      got = s.got ++ s.data_of node ∷ [];
      retired = head ∷ s.retired;
    }
    else goes s i load_head

abbrev pub after_next : ℕ → ℕ → Option ℕ → Local
after_next node tail none = check_tail node tail
after_next node tail (some other) = help_tail node tail other

-- The tests behind the three loads of dequeuing.
abbrev pub seen : ℕ → ℕ → Option ℕ → Local
seen head tail none = if head == tail then found_none else check_again head tail none
seen head tail (some node) =
    if head == tail then help_head tail node else check_again head tail (some node)

abbrev pub past_check : ℕ → Option ℕ → Local
past_check head none = load_head
past_check head (some node) = move_head head node

-- The next access of a thread. A thread that finds the queue not running gives up.
unfoldable pub advance : Local → ℕ → AtomicQueue → AtomicQueue
advance idle i s = s
advance (load_tail node) i s = goes s i (load_next node s.tail)
advance (load_next node tail) i s = goes s i (after_next node tail (s.next tail))
advance (help_tail node tail other) i s = swung s i tail other (load_tail node)
advance (check_tail node tail) i s =
    goes s i (if s.tail == tail then check_state node tail else load_tail node)
advance (check_state node tail) i s = goes s i (if s.running then link_node node tail else idle)
advance (link_node node tail) i s = linked s i node tail (s.next tail)
advance (swing_tail node tail) i s = swung s i tail node idle
advance load_head i s = goes s i (with_head s.head)
advance (with_head head) i s = goes s i (with_tail head s.tail)
advance (with_tail head tail) i s = goes s i (with_next head tail (s.next head))
advance (with_next head tail next) i s = goes s i (if s.running then seen head tail next else idle)
advance (help_head tail node) i s = swung s i tail node load_head
advance (check_again head tail next) i s =
    goes s i (if s.tail == tail then past_check head next else load_head)
advance (move_head head node) i s = moved s i head node
advance found_none i s = goes s i idle

abbrev pub dequeue_at : Local → AtomicQueue → ℕ → AtomicQueue
dequeue_at idle s i = if s.running then goes s i load_head else s
dequeue_at _ s i = s

-- A thread starts to enqueue or to dequeue, or goes on; or `clog_atomic_queue_destroy` begins.
pub data Move : Type 0 where
  enqueuing : ℕ → ℕ → ℕ → Move
  dequeuing advancing : ℕ → Move
  finalizing : Move

unfoldable pub step : Move → AtomicQueue → AtomicQueue
step (enqueuing i node d) s = begin_at (s.threads i) s i node d
step (dequeuing i) s = dequeue_at (s.threads i) s i
step (advancing i) s = advance (s.threads i) i s
step finalizing s = record s { running = false }

unfoldable pub run : List Move → AtomicQueue → AtomicQueue
run [] s = s
run (m ∷ ms) s = run ms (step m s)
