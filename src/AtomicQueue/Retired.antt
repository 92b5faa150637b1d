-- ===== src/AtomicQueue/Retired.antt =====
-- The nodes that source/utils/clog_atomic_queue.c hands over to be freed.
use casca_log.Base.{
  ℕ, zero, suc, ◌≤◌, ◌<◌, ◌≡◌, ◌≢◌, refl, sym, ap, ◌∙◌, true, false, inl, inr, List, ◌==◌, eq_cases,
  ==_iff, arith,
}
use casca_log.Mpsc.Memory.{count}
use casca_log.AtomicQueue.{AtomicQueue, create, Move, run}
use casca_log.AtomicQueue.Chain.{Places, before, IsChain, create-Chained}
use casca_log.AtomicQueue.Fifo.{run-Chained}

differ : (x y : ℕ) → x ≢ y → (x == y) ≡ false
differ x y n = ground (arith, n)

equal_test : (x y : ℕ) → x ≡ y → (x == y) ≡ true
equal_test x y e = (==_iff x y).1 e

absent : (at : ℕ → ℕ) (x h : ℕ) → ((k : ℕ) → k < h → x ≢ at k) → count x (before at h) ≡ 0
absent at x zero n = refl
absent at x (suc h) n =
    let rest = absent at x h (λ k a. n k (omega (arith, a))) in
    rw (differ x (at h) (n h (omega arith))) (omega (arith, rest))

once :
    (at : ℕ → ℕ) (x h : ℕ)
    → ((j k : ℕ) → j < h → k < h → at j ≡ at k → j ≡ k)
    → count x (before at h) ≤ 1
once at x zero d = omega arith
once at x (suc h) d = elim (eq_cases x (at h)) [
  | inl e ↦
      let rest =
        absent at x h (λ k a f.
          absurd (omega (arith, a, d h k (omega arith) (omega (arith, a)) (sym e ∙ f)))) in
      rw (equal_test x (at h) e) (omega (arith, rest))
  | inr e ↦
      let rest = once at x h (λ j k a b. d j k (omega (arith, a)) (omega (arith, b))) in
      rw (differ x (at h) e) (omega (arith, rest))
]

module _ (s : AtomicQueue) (c : Places) (vs : List ℕ) (x : IsChain s c vs) where
  ahead : (n k : ℕ) → c.h ≤ k → k ≤ c.m → n ≡ c.at k → count n s.retired ≡ 0
  ahead n k a b e =
      ap (count n) x.past
      ∙ absent c.at n c.h (λ j p f.
        absurd (omega (arith, a, p, x.apart k j b (omega (arith, a, b, p)) (sym e ∙ f))))

  at_most_once : (n : ℕ) → count n s.retired ≤ 1
  at_most_once n =
      let y = x.behind in
      let w = x.within in
      let l =
        once c.at n c.h
          (λ j k a b. x.apart j k (omega (arith, a, y, w)) (omega (arith, b, y, w))) in
      let e = ap (count n) x.past in omega (arith, l, e)

-- After any moves of any threads, in any order, on a queue that was created: no node was handed over
-- to be freed twice, and those that the head and the tail point to were not.
pub run_retired :
    (dummy : ℕ) (ms : List Move) (n : ℕ)
    → let s = run ms (create dummy) in
      (count n s.retired ≤ 1) × (count s.head s.retired ≡ 0) × (count s.tail s.retired ≡ 0)
run_retired dummy ms n =
    let (c, vs, x) = run-Chained ms (create dummy) (create-Chained dummy) in
    let y = x.behind in
    let w = x.within in
    let s = run ms (create dummy) in
    (
      at_most_once s c vs x n,
      ahead s c vs x s.head c.h (omega arith) (omega (arith, y, w)) x.first,
      ahead s c vs x s.tail c.t y w x.last,
    )
