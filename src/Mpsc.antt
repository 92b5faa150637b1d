-- ===== src/Mpsc.antt =====
-- source/utils/clog_atomic_mpsc_queue.c: a queue of several producers and one consumer.
--
-- A move is one access of a thread to what the threads share, with what the thread does between it
-- and the next. What a thread has read and not yet used stands in the state, by its number for the
-- producers. `allocated` is the heap: malloc gives a node that is not allocated, and a node that is
-- freed may be given again. `put` and `got` are what was put, in the order of the exchanges, and what
-- the consumer has taken. Accesses are sequentially consistent.
pub mod Chain
pub mod Fifo
pub mod Memory
pub mod Drain
mod Tests
use casca_log.Base.{
  ℕ, zero, suc, Bool, true, false, Option, none, some, List, [], ◌∷◌, ◌++◌, if◌then◌else◌, Res,
  success, target_not_found, update,
}

pub record MpscQueue : Type 0 where
  pub head : ℕ
  pub tail : ℕ
  pub next : ℕ → Option ℕ
  pub data_of : ℕ → ℕ
  pub allocated : ℕ → Bool
  pub linking : ℕ → Option (ℕ × ℕ)
  pub taking : Option ℕ
  pub put : List ℕ
  pub got : List ℕ

-- `clog_atomic_mpsc_queue_create`, with the node that malloc gives for the dummy.
unfoldable pub create : ℕ → MpscQueue
create dummy = record {
  head = dummy;
  tail = dummy;
  next = λ x. none;
  data_of = λ x. 0;
  allocated = update (λ x. false) dummy true;
  linking = λ i. none;
  taking = none;
  put = [];
  got = [];
}

-- `clog_atomic_mpsc_queue_in` of a producer up to the exchange of the tail, with the node that malloc
-- gives; a node that is allocated is none that it gives.
abbrev pub exchanged : MpscQueue → ℕ → ℕ → ℕ → MpscQueue
exchanged s i node d = record s {
  tail = node;
  next = update s.next node none;
  data_of = update s.data_of node d;
  allocated = update s.allocated node true;
  linking = update s.linking i (some (s.tail, node));
  put = s.put ++ d ∷ [];
}

unfoldable pub exchange : ℕ → ℕ → ℕ → MpscQueue → MpscQueue
exchange i node d s = elim (s.linking i) [
  | some pair ↦ s
  | none ↦ if s.allocated node then s else exchanged s i node d
]

-- The rest of it: the store to the node that was the tail.
unfoldable pub store_link : ℕ → MpscQueue → MpscQueue
store_link i s = elim (s.linking i) [
  | none ↦ s
  | some (prev, node) ↦ record s {
    next = update s.next prev (some node);
    linking = update s.linking i none;
  }
]

-- `clog_atomic_mpsc_queue_out` up to the load of the next node, or to its end without one.
unfoldable pub out_load : MpscQueue → MpscQueue
out_load s = record s { taking = s.next s.head }

-- The rest of it: the data, the store to the head and the free.
unfoldable pub out_take : MpscQueue → MpscQueue
out_take s = elim s.taking [
  | none ↦ s
  | some node ↦ record s {
    head = node;
    allocated = update s.allocated s.head false;
    taking = none;
    got = s.got ++ s.data_of node ∷ [];
  }
]

-- `clog_atomic_mpsc_queue_out` of a consumer that nobody interrupts, with its code.
unfoldable pub out : MpscQueue → Res × MpscQueue
out s = elim (out_load s).taking [
  | none ↦ (target_not_found, out_load s)
  | some node ↦ (success, out_take (out_load s))
]

pub data Move : Type 0 where
  exchanging : ℕ → ℕ → ℕ → Move
  storing : ℕ → Move
  loading taking_out : Move

-- What a move does. A consumer that has loaded a node takes it before it loads another.
unfoldable pub step : Move → MpscQueue → MpscQueue
step (exchanging i node d) s = exchange i node d s
step (storing i) s = store_link i s
step loading s = elim s.taking [ none ↦ out_load s | some node ↦ s ]
step taking_out s = out_take s

unfoldable pub run : List Move → MpscQueue → MpscQueue
run [] s = s
run (m ∷ ms) s = run ms (step m s)

-- The nodes whose memory a move reads, writes or frees.
unfoldable pub touches : Move → MpscQueue → List ℕ
touches (exchanging i node d) s = []
touches (storing i) s = elim (s.linking i) [ none ↦ [] | some (prev, node) ↦ prev ∷ [] ]
touches loading s = elim s.taking [ none ↦ s.head ∷ [] | some node ↦ [] ]
touches taking_out s = elim s.taking [ none ↦ [] | some node ↦ s.head ∷ node ∷ [] ]

-- The loop of `clog_atomic_mpsc_queue_destroy`: the nodes that it frees, in as many rounds at most.
unfoldable pub destroy : ℕ → (ℕ → Option ℕ) → Option ℕ → List ℕ
destroy rounds next none = []
destroy zero next (some head) = []
destroy (suc rounds) next (some head) = let rest = destroy rounds next (next head) in head ∷ rest
