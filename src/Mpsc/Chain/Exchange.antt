-- ===== src/Mpsc/Chain/Exchange.antt =====
-- The exchange of a producer of source/utils/clog_atomic_mpsc_queue.c lengthens the chain.
use casca_log.Base.{
  ℕ, suc, ◌+◌, ◌≤◌, ◌<◌, ◌≡◌, ◌≢◌, sym, ap, ◌∙◌, true, false, ◌⊎◌, inl, inr, Option, none, some,
  List, [], ◌∷◌, ◌++◌, length, length-append, arith, update, update_at, update_same, update_apart,
  eq_cases, append_assoc,
}
use casca_log.Mpsc.{MpscQueue, exchanged}
use casca_log.Mpsc.Chain.{Holds, IsChain, new_apart, some_parts}

pub values_more :
    (data_of at : ℕ → ℕ) (node d h t : ℕ) (vs : List ℕ)
    → t ≡ h + length vs
    → ((k : ℕ) → h ≤ k → k ≤ t → at k ≢ node)
    → Holds data_of at h vs
    → Holds (update data_of node d) (update at (suc t) node) h (vs ++ d ∷ [])
values_more data_of at node d h t [] l n v = (
  ap (update data_of node d) (update_same at (suc t) node (suc h) (ground (arith, l)))
      ∙ update_at data_of node d,
  tt,
)
values_more data_of at node d h t (w ∷ vs) l n (e, v) = (
  ap (update data_of node d)
        (update_apart at (suc t) node (suc h) (λ f. absurd (omega (arith, l, f))))
      ∙ update_apart data_of node d (at (suc h)) (n (suc h) (omega arith) (omega (arith, l)))
      ∙ e,
  values_more data_of at node d (suc h) t vs (omega (arith, l)) (λ k a. n k (omega (arith, a))) v,
)

module _ (s : MpscQueue) (at : ℕ → ℕ) (h t : ℕ) (waiting : List ℕ) (c : IsChain s at h t waiting)
    (i node d : ℕ) (idle : s.linking i ≡ none) (fresh : s.allocated node ≡ false) where
  abbrev pub at_on : ℕ → ℕ
  at_on = update at (suc t) node

  at_old : (k : ℕ) → k ≤ t → at_on k ≡ at k
  at_old k a = update_apart at (suc t) node k (λ e. absurd (omega (arith, a, e)))

  at_new : at_on (suc t) ≡ node
  at_new = update_at at (suc t) node

  old_apart : (k : ℕ) → h ≤ k → k ≤ t → at k ≢ node
  old_apart k = new_apart s at h t waiting c node k fresh

  bound : h ≤ t
  bound = let l = c.long in omega (arith, l)

  same_next : (k : ℕ) → h ≤ k → k ≤ t → update s.next node none (at k) ≡ s.next (at k)
  same_next k a b = update_apart s.next node none (at k) (old_apart k a b)

  last_of : (k : ℕ) → k ≤ suc t → (k ≡ suc t) ⊎ (k ≤ t)
  last_of k a = elim (eq_cases k (suc t)) [ inl e ↦ inl e | inr e ↦ inr (omega (arith, a, e)) ]

  live_on : (k : ℕ) → h ≤ k → k ≤ suc t → update s.allocated node true (at_on k) ≡ true
  live_on k a b = elim (last_of k b) [
    | inl e ↦
        ap (λ j. update s.allocated node true (at_on j)) e
        ∙ ap (update s.allocated node true) at_new
        ∙ update_at s.allocated node true
    | inr e ↦
        ap (update s.allocated node true) (at_old k e)
        ∙ update_apart s.allocated node true (at k) (old_apart k a e)
        ∙ c.live k a e
  ]

  owned_on :
      (x : ℕ)
      → update s.allocated node true x ≡ true
      → (k : ℕ) × (h ≤ k) × (k ≤ suc t) × (x ≡ at_on k)
  owned_on x e = elim (eq_cases x node) [
    | inl same ↦ (suc t, let b = bound in omega (arith, b), omega arith, same ∙ sym at_new)
    | inr other ↦
        let (k, a, b, f) = c.owned x (sym (update_apart s.allocated node true x other) ∙ e) in
        (k, a, omega (arith, b), f ∙ sym (at_old k b))
  ]

  new_first : (j k : ℕ) → j ≡ suc t → h ≤ k → k ≤ t → at_on j ≢ at_on k
  new_first j k e a b f = old_apart k a b (sym (at_old k b) ∙ sym f ∙ ap at_on e ∙ at_new)

  apart_on : (j k : ℕ) → h ≤ j → j ≤ suc t → h ≤ k → k ≤ suc t → at_on j ≡ at_on k → j ≡ k
  apart_on j k a b x y e = elim (last_of j b) [
    | inl f ↦ elim (last_of k y) [ inl g ↦ f ∙ sym g | inr g ↦ absurd (new_first j k f x g e) ]
    | inr f ↦ elim (last_of k y) [
      | inl g ↦ absurd (new_first k j g a f (sym e))
      | inr g ↦ c.apart j k a f x g (sym (at_old j f) ∙ e ∙ at_old k g)
    ]
  ]

  linking_on : ℕ → Option (ℕ × ℕ)
  linking_on = update s.linking i (some (s.tail, node))

  not_i : (j : ℕ) (p : ℕ × ℕ) → s.linking j ≡ some p → j ≢ i
  not_i j p e f = absurd (let g = ap s.linking f in cc)

  LinkedTo : Option ℕ → ℕ → ℕ → Type 0
  LinkedTo next p n = (next ≡ some n) ⊎ ((next ≡ none) × ((j : ℕ) × (linking_on j ≡ some (p, n))))

  link_last : (k : ℕ) → k ≡ t → LinkedTo (s.next (at k)) (at k) (at_on (suc k))
  unfolding linking_on LinkedTo
  link_last k e = inr (
    ap (λ j. s.next (at j)) e ∙ c.end,
    (
      i,
      update_at s.linking i (some (s.tail, node))
          ∙ ap (λ p. some (p, node)) (c.last ∙ ap at (sym e))
          ∙ ap (λ n. some (at k, n)) (sym at_new ∙ ap (λ j. at_on (suc j)) (sym e)),
    ),
  )

  link_old : (k : ℕ) → h ≤ k → k < t → LinkedTo (s.next (at k)) (at k) (at_on (suc k))
  unfolding linking_on LinkedTo
  link_old k a b = elim (c.linked k a b) [
    | inl e ↦ inl (e ∙ ap some (sym (at_old (suc k) b)))
    | inr (e, (j, f)) ↦ inr (
      e,
      (
        j,
        update_apart s.linking i (some (s.tail, node)) j (not_i j (at k, at (suc k)) f)
            ∙ f
            ∙ ap (λ n. some (at k, n)) (sym (at_old (suc k) b)),
      ),
    )
  ]

  linked_on :
      (k : ℕ)
      → h ≤ k
      → k < suc t
      → LinkedTo (update s.next node none (at_on k)) (at_on k) (at_on (suc k))
  linked_on k a b =
      rw (at_old k (omega (arith, b)), same_next k a (omega (arith, b)))
        (elim (eq_cases k t) [ inl e ↦ link_last k e | inr e ↦ link_old k a (omega (arith, b, e)) ])

  place_new :
      (p n : ℕ)
      → p ≡ s.tail
      → n ≡ node
      → (k : ℕ) × (h ≤ k)
        × (k < suc t)
        × (p ≡ at_on k)
        × (n ≡ at_on (suc k))
        × (update s.next node none p ≡ none)
  place_new p n e f = (
    t,
    bound,
    omega arith,
    e ∙ c.last ∙ sym (at_old t (omega arith)),
    f ∙ sym at_new,
    ap (update s.next node none) (e ∙ c.last) ∙ same_next t bound (omega arith) ∙ c.end,
  )

  place_on :
      (j p n : ℕ)
      → linking_on j ≡ some (p, n)
      → (k : ℕ) × (h ≤ k)
        × (k < suc t)
        × (p ≡ at_on k)
        × (n ≡ at_on (suc k))
        × (update s.next node none p ≡ none)
  unfolding linking_on
  place_on j p n e = elim (eq_cases j i) [
    | inl same ↦
        let f =
          some_parts p n s.tail node
            (sym e ∙ ap linking_on same ∙ update_at s.linking i (some (s.tail, node))) in
        place_new p n f.0 f.1
    | inr other ↦
        let (k, a, b, x, y, z) =
          c.place j p n (sym (update_apart s.linking i (some (s.tail, node)) j other) ∙ e) in
        (
          k,
          a,
          omega (arith, b),
          x ∙ sym (at_old k (omega (arith, b))),
          y ∙ sym (at_old (suc k) b),
          ap (update s.next node none) x ∙ same_next k a (omega (arith, b)) ∙ ap s.next (sym x) ∙ z,
        )
  ]

  -- The old tail is the node in front of none that a producer is about to link.
  tail_apart : (j n : ℕ) → s.linking j ≡ some (s.tail, n) → ⊥
  tail_apart j n e =
      let (k, a, b, x, y, z) = c.place j s.tail n e in
      omega (arith, b, c.apart t k bound (omega arith) a (omega (arith, b)) (sym c.last ∙ x))

  linking_same : (j : ℕ) → j ≡ i → linking_on j ≡ some (s.tail, node)
  unfolding linking_on
  linking_same j e = ap linking_on e ∙ update_at s.linking i (some (s.tail, node))

  linking_other : (j : ℕ) → j ≢ i → linking_on j ≡ s.linking j
  unfolding linking_on
  linking_other j e = update_apart s.linking i (some (s.tail, node)) j e

  alone_new :
      (j k p n m : ℕ) → j ≡ i → k ≢ i → linking_on j ≡ some (p, n) → linking_on k ≡ some (p, m) → ⊥
  alone_new j k p n m same other e f =
      let q = some_parts p n s.tail node (sym e ∙ linking_same j same) in
      tail_apart k m (sym (linking_other k other) ∙ f ∙ ap (λ r. some (r, m)) q.0)

  alone_on : (j k p n m : ℕ) → linking_on j ≡ some (p, n) → linking_on k ≡ some (p, m) → j ≡ k
  alone_on j k p n m e f = elim (eq_cases j i) [
    | inl x ↦ elim (eq_cases k i) [
      | inl y ↦ x ∙ sym y
      | inr y ↦ absurd (alone_new j k p n m x y e f)
    ]
    | inr x ↦ elim (eq_cases k i) [
      | inl y ↦ absurd (alone_new k j p m n y x f e)
      | inr y ↦ c.alone j k p n m (sym (linking_other j x) ∙ e) (sym (linking_other k y) ∙ f)
    ]
  ]

  pub exchange-IsChain : IsChain (exchanged s i node d) at_on h (suc t) (waiting ++ d ∷ [])
  unfolding linking_on LinkedTo
  exchange-IsChain = record {
    long = let l = c.long in omega (arith, l, length-append waiting (d ∷ []));
    first = c.first ∙ sym (at_old h bound);
    last = sym at_new;
    live = live_on;
    owned = owned_on;
    apart = apart_on;
    end = ap (update s.next node none) at_new ∙ update_at s.next node none;
    linked = linked_on;
    place = place_on;
    alone = alone_on;
    ready = λ n e.
        update_apart s.next node none s.head
          (λ f. old_apart h (omega arith) bound (sym c.first ∙ f))
        ∙ c.ready n e;
    values = values_more s.data_of at node d h t waiting c.long old_apart c.values;
    order = sym (append_assoc s.got waiting (d ∷ [])) ∙ ap (λ l. l ++ d ∷ []) c.order;
  }
