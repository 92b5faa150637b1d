-- ===== src/AtomicQueue/Fifo.antt =====
-- The order of source/utils/clog_atomic_queue.c, after any moves of the threads.
use casca_log.Base.{
  ℕ, ◌+◌, ◌≡◌, refl, sym, ap, ◌∙◌, false, none, List, [], ◌∷◌, ◌++◌, if◌then◌else◌, length,
  if_cases, append-nil, arith,
}
use mathlib.Core.Path.{subst}
use casca_log.AtomicQueue.{
  Local, idle, load_head, with_tail, AtomicQueue, create, goes, begun, begin_at, dequeue_at, Move,
  enqueuing, dequeuing, advancing, finalizing, step, run,
}
use casca_log.AtomicQueue.Chain.{Places, InOrder, Loaded, IsChain, Chained, create-Chained}
use casca_log.AtomicQueue.Chain.Threads.{goes-IsChain}
use casca_log.AtomicQueue.Chain.Begin.{begun-IsChain}
use casca_log.AtomicQueue.Moves.{advance-Chained, nothing_behind}

begin_at-Chained :
    (l : Local) (s : AtomicQueue) (i node d : ℕ) → Chained s → Chained (begin_at l s i node d)
begin_at-Chained idle s i node d (c, vs, x) =
    if_cases Chained s.running (if s.used node then s else begun s i node d) s
      (λ on.
        if_cases Chained (s.used node) s (begun s i node d) (λ old. (c, vs, x))
          (λ fresh. (c, vs, begun-IsChain s c vs x i node d fresh)))
      (λ stopped. (c, vs, x))
begin_at-Chained _ s i node d h = h

dequeue_at-Chained : (l : Local) (s : AtomicQueue) (i : ℕ) → Chained s → Chained (dequeue_at l s i)
dequeue_at-Chained idle s i (c, vs, x) =
    if_cases Chained s.running (goes s i load_head) s
      (λ on. (c, vs, goes-IsChain s c vs x i load_head tt (λ n e. absurd cc)))
      (λ stopped. (c, vs, x))
dequeue_at-Chained _ s i h = h

stop-IsChain :
    (s : AtomicQueue) (c : Places) (vs : List ℕ)
    → IsChain s c vs
    → IsChain (record s { running = false }) c vs
stop-IsChain s c vs x = record {
  long = x.long;
  behind = x.behind;
  within = x.within;
  first = x.first;
  last = x.last;
  in_use = x.in_use;
  apart = x.apart;
  chained = x.chained;
  end = x.end;
  loaded = x.loaded;
  mine = x.mine;
  alone = x.alone;
  past = x.past;
  values = x.values;
  order = x.order;
}

step-Chained : (m : Move) (s : AtomicQueue) → Chained s → Chained (step m s)
unfolding step
step-Chained (enqueuing i node d) s h = begin_at-Chained (s.threads i) s i node d h
step-Chained (dequeuing i) s h = dequeue_at-Chained (s.threads i) s i h
step-Chained (advancing i) s (c, vs, x) = advance-Chained s c vs x (s.threads i) i refl (x.loaded i)
step-Chained finalizing s (c, vs, x) = (c, vs, stop-IsChain s c vs x)

pub run-Chained : (ms : List Move) (s : AtomicQueue) → Chained s → Chained (run ms s)
unfolding run
run-Chained [] s h = h
run-Chained (m ∷ ms) s h = run-Chained ms (step m s) (step-Chained m s h)

-- After any moves of any threads, in any order, on a queue that was created: the values that were
-- dequeued, in the order in which the head passed them, are a first part of those that were
-- enqueued, in the order in which their nodes were linked.
pub run-prefix :
    (dummy : ℕ) (ms : List Move)
    → let s = run ms (create dummy) in (waiting : List ℕ) × (s.got ++ waiting ≡ s.put)
run-prefix dummy ms =
    let (c, waiting, x) = run-Chained ms (create dummy) (create-Chained dummy) in (waiting, x.order)

none_waiting : (vs : List ℕ) (h : ℕ) → h ≡ h + length vs → vs ≡ []
none_waiting [] h e = refl
none_waiting (v ∷ vs) h e = absurd (omega (arith, e))

empty_chain :
    (s : AtomicQueue) (c : Places) (vs : List ℕ)
    → IsChain s c vs
    → (head tail : ℕ) → InOrder c head tail
    → s.next head ≡ none
    → s.got ≡ s.put
empty_chain s c vs x head tail (i, j, a, b, d, f, g) e =
    let w = x.within in
    let u = x.behind in
    let p : i ≡ c.m = nothing_behind s c vs x i (omega (arith, b, d, w)) (ap s.next (sym f) ∙ e) in
    let q : vs ≡ [] = none_waiting vs c.h (let l = x.long in omega (arith, l, p, a, u, w)) in
    sym (append-nil s.got) ∙ ap (λ l. s.got ++ l) (sym q) ∙ x.order

-- When a thread that dequeues, after any moves of any threads on a queue that was created, loads the
-- next pointer of the head that it has and it is NULL: then all values that were enqueued have been
-- dequeued.
pub run-none :
    (dummy : ℕ) (ms : List Move) (i head tail : ℕ)
    → (run ms (create dummy)).threads i ≡ with_tail head tail
    → (run ms (create dummy)).next head ≡ none
    → (run ms (create dummy)).got ≡ (run ms (create dummy)).put
run-none dummy ms i head tail e n =
    let (c, vs, x) = run-Chained ms (create dummy) (create-Chained dummy) in
    empty_chain (run ms (create dummy)) c vs x head tail (subst (Loaded c) e (x.loaded i)) n
