-- ===== src/Mpsc/Drain.antt =====
-- The consumer of source/utils/clog_atomic_mpsc_queue.c alone, with no producer under way.
use casca_log.Base.{
  ℕ, zero, suc, ◌≤◌, ◌<◌, ◌≡◌, refl, sym, ap, ◌∙◌, none, some, List, [], ◌∷◌, length, arith, Res,
  success, target_not_found, append-nil,
}
use casca_log.Mpsc.{MpscQueue, create, out_load, out_take, out, Move, run}
use casca_log.Mpsc.Chain.{IsChain, create-Chained}
use casca_log.Mpsc.Chain.Take.{take-IsChain}
use casca_log.Mpsc.Fifo.{run-Chained, load-IsChain}
use casca_log.Mpsc.Memory.{IsQuiet, quiet_links, waiting_short}

-- As many calls of `clog_atomic_mpsc_queue_out` in a row.
unfoldable pub outs : ℕ → MpscQueue → MpscQueue
outs zero s = s
outs (suc n) s = outs n (out s).1

-- What a call does to the chain when no producer is under way.
abbrev pub Takes : MpscQueue → (ℕ → ℕ) → ℕ → ℕ → List ℕ → Res × MpscQueue → Type 0
Takes s at h t [] (res, s') =
    (res ≡ target_not_found) × (s'.linking ≡ s.linking) × (s'.put ≡ s.put) × IsChain s' at h t []
Takes s at h t (v ∷ vs) (res, s') =
    (res ≡ success) × (s'.linking ≡ s.linking) × (s'.put ≡ s.put) × IsChain s' at (suc h) t vs

out_empty : (s : MpscQueue) (at : ℕ → ℕ) (h t : ℕ) → IsChain s at h t [] → Takes s at h t [] (out s)
unfolding out out_load
out_empty s at h t c =
    let stop : s.next s.head ≡ none =
      ap s.next c.first ∙ ap (λ k. s.next (at k)) (let l = c.long in omega (arith, l)) ∙ c.end in
    rw stop (refl, refl, refl, load-IsChain s at h t [] c)

out_first :
    (s : MpscQueue) (at : ℕ → ℕ) (h t v : ℕ) (vs : List ℕ)
    → IsChain s at h t (v ∷ vs)
    → IsQuiet s
    → Takes s at h t (v ∷ vs) (out s)
unfolding out out_load out_take
out_first s at h t v vs c q =
    let b : h < t = let l = c.long in omega (arith, l) in
    let e : s.next s.head ≡ some (at (suc h)) =
      ap s.next c.first ∙ quiet_links s at h t (v ∷ vs) c q h (omega arith) b in
    rw (e, out_take, e)
      (refl, refl, refl, take-IsChain s at h t (v ∷ vs) c (at (suc h)) e v vs refl)

out-Takes :
    (s : MpscQueue) (at : ℕ → ℕ) (h t : ℕ) (vs : List ℕ)
    → IsChain s at h t vs
    → IsQuiet s
    → Takes s at h t vs (out s)
out-Takes s at h t [] c q = out_empty s at h t c
out-Takes s at h t (v ∷ vs) c q = out_first s at h t v vs c q

outs_all :
    (n : ℕ) (s : MpscQueue) (at : ℕ → ℕ) (h t : ℕ) (vs : List ℕ)
    → IsChain s at h t vs
    → IsQuiet s
    → length vs ≤ n
    → (outs n s).got ≡ s.put
unfolding outs
outs_all zero s at h t [] c q l = sym (append-nil s.got) ∙ c.order
outs_all zero s at h t (v ∷ vs) c q l = absurd (omega (arith, l))
outs_all (suc n) s at h t [] c q l =
    let (code, same, put, d) = out-Takes s at h t [] c q in
    outs_all n (out s).1 at h t [] d (λ i. ap (λ f. f i) same ∙ q i) (omega arith) ∙ put
outs_all (suc n) s at h t (v ∷ vs) c q l =
    let (code, same, put, d) = out-Takes s at h t (v ∷ vs) c q in
    outs_all n (out s).1 at (suc h) t vs d (λ i. ap (λ f. f i) same ∙ q i) (omega (arith, l)) ∙ put

-- After any moves on a queue that was created, when no producer is between its exchange and its
-- store: as many calls of `clog_atomic_mpsc_queue_out` as values were put, or more, give the consumer
-- all of them in the order of the exchanges, those that it took before included.
pub outs-put :
    (dummy : ℕ) (ms : List Move) (n : ℕ)
    → let s = run ms (create dummy) in IsQuiet s → length s.put ≤ n → (outs n s).got ≡ s.put
outs-put dummy ms n q l =
    let (at, h, t, vs, c) = run-Chained ms (create dummy) (create-Chained dummy) in
    outs_all n (run ms (create dummy)) at h t vs c q
      (omega (arith, l, waiting_short _ vs _ c.order))
