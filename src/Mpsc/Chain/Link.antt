-- ===== src/Mpsc/Chain/Link.antt =====
-- The store of a producer of source/utils/clog_atomic_mpsc_queue.c keeps the chain.
use casca_log.Base.{
  ℕ, suc, ◌≤◌, ◌<◌, ◌≡◌, ◌≢◌, sym, ap, ◌∙◌, ◌⊎◌, inl, inr, none, some, List, arith, update,
  update_at, update_apart, eq_cases,
}
use casca_log.Mpsc.{MpscQueue}
use casca_log.Mpsc.Chain.{IsChain, some_parts}

module _ (s : MpscQueue) (at : ℕ → ℕ) (h t : ℕ) (waiting : List ℕ) (c : IsChain s at h t waiting)
    (i prev node : ℕ) (l : s.linking i ≡ some (prev, node)) where
  abbrev pub stored : MpscQueue
  stored = record s { next = update s.next prev (some node); linking = update s.linking i none }

  other_place :
      (j p n : ℕ) → update s.linking i none j ≡ some (p, n) → (j ≢ i) × (s.linking j ≡ some (p, n))
  other_place j p n e = elim (eq_cases j i) [
    | inl same ↦ absurd (let f = update_at s.linking i none in cc)
    | inr other ↦ (other, sym (update_apart s.linking i none j other) ∙ e)
  ]

  other_prev : (p : ℕ) → p ≢ prev → update s.next prev (some node) p ≡ s.next p
  other_prev p n = update_apart s.next prev (some node) p n

  not_prev : (p n : ℕ) → s.next p ≡ some n → p ≢ prev
  not_prev p n e q =
      let (k, a, b, x, y, z) = c.place i prev node l in absurd (let f = ap s.next q in cc)

  linked_here :
      (k : ℕ)
      → prev ≡ at k
      → node ≡ at (suc k)
      → update s.next prev (some node) (at k) ≡ some (at (suc k))
  linked_here k e f = rw (sym e, sym f) (update_at s.next prev (some node))

  not_linked : (j k : ℕ) → j ≢ i → s.linking j ≡ some (at k, at (suc k)) → at k ≢ prev
  not_linked j k other f e =
      other (c.alone j i prev (at (suc k)) node (f ∙ ap (λ p. some (p, at (suc k))) e) l)

  linked_on :
      (k : ℕ)
      → h ≤ k
      → k < t
      → (update s.next prev (some node) (at k) ≡ some (at (suc k)))
        ⊎ ((update s.next prev (some node) (at k) ≡ none)
            × ((j : ℕ) × (update s.linking i none j ≡ some (at k, at (suc k)))))
  linked_on k a b = elim (c.linked k a b) [
    | inl e ↦ inl (other_prev (at k) (not_prev (at k) (at (suc k)) e) ∙ e)
    | inr (e, (j, f)) ↦ elim (eq_cases j i) [
      | inl same ↦
          let q = some_parts prev node (at k) (at (suc k)) (sym l ∙ ap s.linking (sym same) ∙ f) in
          inl (linked_here k q.0 q.1)
      | inr other ↦ inr (
        other_prev (at k) (not_linked j k other f) ∙ e,
        (j, update_apart s.linking i none j other ∙ f),
      )
    ]
  ]

  end_on : update s.next prev (some node) (at t) ≡ none
  end_on =
      let (k, a, b, x, y, z) = c.place i prev node l in
      other_prev (at t) (λ e. absurd (
        omega
          (arith, b, c.apart t k (omega (arith, a, b)) (omega arith) a (omega (arith, b)) (e ∙ x))))
      ∙ c.end

  place_on :
      (j p n : ℕ)
      → update s.linking i none j ≡ some (p, n)
      → (k : ℕ) × (h ≤ k)
        × (k < t)
        × (p ≡ at k)
        × (n ≡ at (suc k))
        × (update s.next prev (some node) p ≡ none)
  place_on j p n e =
      let (other, f) = other_place j p n e in
      let (k, a, b, x, y, z) = c.place j p n f in
      (
        k,
        a,
        b,
        x,
        y,
        other_prev p (λ q. other (c.alone j i p n node f (l ∙ ap (λ r. some (r, node)) (sym q))))
            ∙ z,
      )

  pub store_link-IsChain : IsChain stored at h t waiting
  store_link-IsChain = record {
    long = c.long;
    first = c.first;
    last = c.last;
    live = c.live;
    owned = c.owned;
    apart = c.apart;
    end = end_on;
    linked = linked_on;
    place = place_on;
    alone = λ j k p n m e f. c.alone j k p n m (other_place j p n e).1 (other_place k p m f).1;
    ready = λ n e. other_prev s.head (not_prev s.head n (c.ready n e)) ∙ c.ready n e;
    values = c.values;
    order = c.order;
  }
