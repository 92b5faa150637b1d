-- ===== src/Mpsc/Memory.antt =====
-- The memory of source/utils/clog_atomic_mpsc_queue.c: no node is used once it is freed, and in the end
-- each is freed once.
use casca_log.Base.{
  ℕ, zero, suc, ◌+◌, ◌≤◌, ◌<◌, ◌≡◌, ◌≢◌, refl, sym, ap, ◌∙◌, true, false, inl, inr, Option, none,
  some, List, [], ◌∷◌, ◌++◌, ◌==◌, length, length-append, to_nat, Bool-cases, Option-cases,
  eq_cases, ==_iff, arith,
}
use mathlib.Core.Bool.{true≢false}
use casca_log.Mpsc.{
  MpscQueue, create, Move, exchanging, storing, loading, taking_out, run, touches, destroy,
}
use casca_log.Mpsc.Chain.{IsChain, Chained, create-Chained}
use casca_log.Mpsc.Chain.Take.{not_empty, second}
use casca_log.Mpsc.Fifo.{run-Chained}

abbrev pub AllLive : MpscQueue → List ℕ → Type 0
AllLive s [] = Unit
AllLive s (x ∷ xs) = (s.allocated x ≡ true) × AllLive s xs

live_at :
    (s : MpscQueue) (at : ℕ → ℕ) (h t : ℕ) (vs : List ℕ)
    → IsChain s at h t vs
    → (x k : ℕ) → h ≤ k
    → k ≤ t
    → x ≡ at k
    → s.allocated x ≡ true
live_at s at h t vs c x k a b e = ap s.allocated e ∙ c.live k a b

head_live :
    (s : MpscQueue) (at : ℕ → ℕ) (h t : ℕ) (vs : List ℕ)
    → IsChain s at h t vs
    → s.allocated s.head ≡ true
head_live s at h t vs c =
    let l = c.long in live_at s at h t vs c s.head h (omega arith) (omega (arith, l)) c.first

touches-AllLive : (m : Move) (s : MpscQueue) → Chained s → AllLive s (touches m s)
unfolding touches
touches-AllLive (exchanging i node d) s c = tt
touches-AllLive (storing i) s (at, h, t, vs, c) = elim (Option-cases (s.linking i)) [
  | inl e ↦ rw (touches, e) tt
  | inr ((p, n), e) ↦
      let (k, a, b, x, y, z) = c.place i p n e in
      rw (touches, e) (live_at s at h t vs c p k a (omega (arith, b)) x, tt)
]
touches-AllLive loading s (at, h, t, vs, c) = elim (Option-cases s.taking) [
  | inl e ↦ rw (touches, e) (head_live s at h t vs c, tt)
  | inr (n, e) ↦ rw (touches, e) tt
]
touches-AllLive taking_out s (at, h, t, vs, c) = elim (Option-cases s.taking) [
  | inl e ↦ rw (touches, e) tt
  | inr (n, e) ↦
      let f = c.ready n e in
      let b = not_empty s at h t vs c n f in
      rw (touches, e)
        (
          head_live s at h t vs c,
          (live_at s at h t vs c n (suc h) (omega arith) b (second s at h t vs c n f), tt),
        )
]

-- After any moves of the producers and the consumer, in any order, on a queue that was created: each
-- node that a move then reads, writes or frees is allocated, although nodes that were freed are
-- given again by malloc.
pub run-AllLive :
    (dummy : ℕ) (ms : List Move) (m : Move)
    → AllLive (run ms (create dummy)) (touches m (run ms (create dummy)))
run-AllLive dummy ms m =
    touches-AllLive m (run ms (create dummy)) (run-Chained ms (create dummy) (create-Chained dummy))

abbrev pub count : ℕ → List ℕ → ℕ
count x [] = 0
count x (y ∷ ys) = to_nat (x == y) + count x ys

-- No producer is between its exchange and its store.
abbrev pub IsQuiet : MpscQueue → Type 0
IsQuiet s = (i : ℕ) → s.linking i ≡ none

abbrev places : (ℕ → ℕ) → ℕ → ℕ → List ℕ
places at h zero = at h ∷ []
places at h (suc n) = at h ∷ places at (suc h) n

destroy-none : (rounds : ℕ) (next : ℕ → Option ℕ) (x : ℕ) → x ∷ destroy rounds next none ≡ x ∷ []
unfolding destroy
destroy-none zero next x = refl
destroy-none (suc rounds) next x = refl

destroy-places :
    (rounds n h : ℕ) (next : ℕ → Option ℕ) (at : ℕ → ℕ)
    → n < rounds
    → ((k : ℕ) → h ≤ k → k < h + n → next (at k) ≡ some (at (suc k)))
    → next (at (h + n)) ≡ none
    → destroy rounds next (some (at h)) ≡ places at h n
unfolding destroy
destroy-places zero n h next at r l e = absurd (omega (arith, r))
destroy-places (suc rounds) zero h next at r l e =
    let stop : next (at h) ≡ none = ap (λ k. next (at k)) (omega arith) ∙ e in
    ap (λ o. at h ∷ destroy rounds next o) stop ∙ destroy-none rounds next (at h)
destroy-places (suc rounds) (suc n) h next at r l e =
    ap (λ o. at h ∷ destroy rounds next o) (l h (omega arith) (omega arith))
    ∙ ap (λ xs. at h ∷ xs)
        (destroy-places rounds n (suc h) next at (omega (arith, r))
          (λ k a b. l k (omega (arith, a)) (omega (arith, b)))
          (ap (λ k. next (at k)) (omega arith) ∙ e))

equal_test : (x y : ℕ) → x ≡ y → (x == y) ≡ true
equal_test x y e = (==_iff x y).1 e

differ : (x y : ℕ) → x ≢ y → (x == y) ≡ false
differ x y n = ground (arith, n)

count_none :
    (x n h : ℕ) (at : ℕ → ℕ)
    → ((k : ℕ) → h ≤ k → k ≤ h + n → x ≢ at k)
    → count x (places at h n) ≡ 0
count_none x zero h at f = rw (differ x (at h) (f h (omega arith) (omega arith))) refl
count_none x (suc n) h at f =
    let rest = count_none x n (suc h) at (λ k a b. f k (omega (arith, a)) (omega (arith, b))) in
    rw (differ x (at h) (f h (omega arith) (omega arith))) (omega (arith, rest))

count_one :
    (x n h k : ℕ) (at : ℕ → ℕ)
    → h ≤ k
    → k ≤ h + n
    → x ≡ at k
    → ((i j : ℕ) → h ≤ i → i ≤ h + n → h ≤ j → j ≤ h + n → at i ≡ at j → i ≡ j)
    → count x (places at h n) ≡ 1
count_one x zero h k at a b e d = rw (equal_test x (at h) (e ∙ ap at (omega (arith, a, b)))) refl
count_one x (suc n) h k at a b e d = elim (eq_cases h k) [
  | inl first ↦
      let rest = count_none x n (suc h) at (λ j c f g.
        absurd
          (omega (arith, c, first, d k j a b (omega (arith, c)) (omega (arith, f)) (sym e ∙ g)))) in
      rw (equal_test x (at h) (e ∙ ap at (sym first))) (omega (arith, rest))
  | inr later ↦
      let rest =
        count_one x n (suc h) k at (omega (arith, a, later)) (omega (arith, b)) e (λ i j p q r s.
          d i j (omega (arith, p)) (omega (arith, q)) (omega (arith, r)) (omega (arith, s))) in
      rw (differ x (at h) (λ g. later (d h k (omega arith) (omega arith) a b (sym g ∙ e))))
        (omega (arith, rest))
]

counted :
    (s : MpscQueue) (at : ℕ → ℕ) (h t n : ℕ) (vs : List ℕ)
    → IsChain s at h t vs
    → t ≡ h + n
    → (x : ℕ) → count x (places at h n) ≡ to_nat (s.allocated x)
counted s at h t n vs c l x = elim (Bool-cases (s.allocated x)) [
  | inl used ↦
      let (k, a, b, e) = c.owned x used in
      rw used (
        count_one x n h k at a (omega (arith, b, l)) e
          (λ i j p q r w. c.apart i j p (omega (arith, q, l)) r (omega (arith, w, l))))
  | inr free ↦ rw free (
      count_none x n h at (λ k a b e.
        absurd (true≢false (sym (live_at s at h t vs c x k a (omega (arith, b, l)) e) ∙ free))))
]

pub quiet_links :
    (s : MpscQueue) (at : ℕ → ℕ) (h t : ℕ) (vs : List ℕ)
    → IsChain s at h t vs
    → IsQuiet s
    → (k : ℕ) → h ≤ k
    → k < t
    → s.next (at k) ≡ some (at (suc k))
quiet_links s at h t vs c q k a b = elim (c.linked k a b) [
  | inl e ↦ e
  | inr (e, (i, f)) ↦ absurd (let g = q i in cc)
]

chain_destroy :
    (s : MpscQueue) (at : ℕ → ℕ) (h t : ℕ) (vs : List ℕ)
    → IsChain s at h t vs
    → IsQuiet s
    → (x rounds : ℕ) → length vs < rounds
    → count x (destroy rounds s.next (some s.head)) ≡ to_nat (s.allocated x)
chain_destroy s at h t vs c q x rounds r =
    ap (λ y. count x (destroy rounds s.next (some y))) c.first
    ∙ ap (count x) (
        destroy-places rounds (length vs) h s.next at r
          (λ k a b. quiet_links s at h t vs c q k a (let l = c.long in omega (arith, b, l)))
          (ap (λ k. s.next (at k)) (sym c.long) ∙ c.end))
    ∙ counted s at h t (length vs) vs c c.long x

pub waiting_short : (got vs put : List ℕ) → got ++ vs ≡ put → length vs ≤ length put
waiting_short got vs put e = omega (arith, length-append got vs, ap length e)

-- After any moves on a queue that was created, when no producer is between its exchange and its
-- store, `clog_atomic_mpsc_queue_destroy` frees each node that is allocated once, and nothing else;
-- its loop ends within one round more than values were put.
pub destroy_once :
    (dummy : ℕ) (ms : List Move) (x : ℕ)
    → IsQuiet (run ms (create dummy))
    → let s = run ms (create dummy) in
      count x (destroy (suc (length s.put)) s.next (some s.head)) ≡ to_nat (s.allocated x)
destroy_once dummy ms x q =
    let (at, h, t, vs, c) = run-Chained ms (create dummy) (create-Chained dummy) in
    chain_destroy (run ms (create dummy)) at h t vs c q x (suc (length (run ms (create dummy)).put))
      (omega (arith, waiting_short _ vs _ c.order))
