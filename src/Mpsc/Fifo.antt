-- ===== src/Mpsc/Fifo.antt =====
-- The order and the memory of source/utils/clog_atomic_mpsc_queue.c, after any moves of the threads.
use casca_log.Base.{
  ℕ, suc, ◌+◌, ◌<◌, ◌≡◌, refl, inl, inr, List, [], ◌∷◌, ◌++◌, length, Bool-cases, Option-cases,
  arith,
}
use casca_log.Mpsc.{
  MpscQueue, create, exchange, store_link, out_load, out_take, Move, exchanging, storing, loading,
  taking_out, step, run,
}
use casca_log.Mpsc.Chain.{IsChain, Chained, create-Chained}
use casca_log.Mpsc.Chain.Link.{store_link-IsChain}
use casca_log.Mpsc.Chain.Take.{take-IsChain, not_empty}
use casca_log.Mpsc.Chain.Exchange.{exchange-IsChain, at_on}

exchange-Chained : (i node d : ℕ) (s : MpscQueue) → Chained s → Chained (exchange i node d s)
unfolding exchange
exchange-Chained i node d s (at, h, t, vs, c) = elim (Option-cases (s.linking i)) [
  | inr (pair, e) ↦ rw (exchange, e) (at, h, t, vs, c)
  | inl e ↦ elim (Bool-cases (s.allocated node)) [
    | inl used ↦ rw (exchange, e, used) (at, h, t, vs, c)
    | inr fresh ↦
        rw (exchange, e, fresh)
          (
            at_on s at h t vs c i node d e fresh,
            h,
            suc t,
            vs ++ d ∷ [],
            exchange-IsChain s at h t vs c i node d e fresh,
          )
  ]
]

store_link-Chained : (i : ℕ) (s : MpscQueue) → Chained s → Chained (store_link i s)
unfolding store_link
store_link-Chained i s (at, h, t, vs, c) = elim (Option-cases (s.linking i)) [
  | inl e ↦ rw (store_link, e) (at, h, t, vs, c)
  | inr ((prev, node), e) ↦
      rw (store_link, e) (at, h, t, vs, store_link-IsChain s at h t vs c i prev node e)
]

pub load-IsChain :
    (s : MpscQueue) (at : ℕ → ℕ) (h t : ℕ) (vs : List ℕ)
    → IsChain s at h t vs
    → IsChain (out_load s) at h t vs
unfolding out_load
load-IsChain s at h t vs c = record {
  long = c.long;
  first = c.first;
  last = c.last;
  live = c.live;
  owned = c.owned;
  apart = c.apart;
  end = c.end;
  linked = c.linked;
  place = c.place;
  alone = c.alone;
  ready = λ n e. e;
  values = c.values;
  order = c.order;
}

some_waiting :
    (vs : List ℕ) (h t : ℕ) → t ≡ h + length vs → h < t → (v : ℕ) × (ws : List ℕ) × (vs ≡ v ∷ ws)
some_waiting [] h t l b = absurd (omega (arith, l, b))
some_waiting (v ∷ ws) h t l b = (v, ws, refl)

take-Chained : (s : MpscQueue) → Chained s → Chained (out_take s)
unfolding out_take
take-Chained s (at, h, t, vs, c) = elim (Option-cases s.taking) [
  | inl e ↦ rw (out_take, e) (at, h, t, vs, c)
  | inr (n, e) ↦
      let f = c.ready n e in
      let (v, ws, w) = some_waiting vs h t c.long (not_empty s at h t vs c n f) in
      rw (out_take, e) (at, suc h, t, ws, take-IsChain s at h t vs c n f v ws w)
]

step-Chained : (m : Move) (s : MpscQueue) → Chained s → Chained (step m s)
unfolding step
step-Chained (exchanging i node d) s c = exchange-Chained i node d s c
step-Chained (storing i) s c = store_link-Chained i s c
step-Chained loading s (at, h, t, vs, c) = elim (Option-cases s.taking) [
  | inl e ↦ rw (step, e) (at, h, t, vs, load-IsChain s at h t vs c)
  | inr (n, e) ↦ rw (step, e) (at, h, t, vs, c)
]
step-Chained taking_out s c = take-Chained s c

pub run-Chained : (ms : List Move) (s : MpscQueue) → Chained s → Chained (run ms s)
unfolding run
run-Chained [] s c = c
run-Chained (m ∷ ms) s c = run-Chained ms (step m s) (step-Chained m s c)

-- After any moves of the producers and the consumer, in any order, on a queue that was created: what
-- the consumer has taken is a first part of what was put, in the order of the exchanges.
pub run-order :
    (dummy : ℕ) (ms : List Move)
    → let s = run ms (create dummy) in (waiting : List ℕ) × (s.got ++ waiting ≡ s.put)
run-order dummy ms =
    let (at, h, t, waiting, c) = run-Chained ms (create dummy) (create-Chained dummy) in
    (waiting, c.order)
