-- ===== src/AtomicQueue/Chain/Grow.antt =====
-- The exchange of a next pointer in source/utils/clog_atomic_queue.c lengthens the chain.
use casca_log.Base.{
  ℕ, zero, suc, ◌+◌, ◌≤◌, ◌<◌, ◌≡◌, ◌≢◌, refl, sym, ap, ◌∙◌, true, ◌⊎◌, inl, inr, none, some, List,
  [], ◌∷◌, ◌++◌, length, eq_cases, arith, append_assoc, update, update_at, update_same,
  update_apart, length-append,
}
use mathlib.Core.Path.{subst}
use casca_log.Mpsc.Chain.{Holds}
use casca_log.AtomicQueue.{AtomicQueue, linked, link_node, swing_tail}
use casca_log.AtomicQueue.Chain.{Places, Known, Loaded, Loaded-on, Extends, own, before, IsChain}
use casca_log.AtomicQueue.Chain.Threads.{Loaded-update, own-update}

before_same : (f g : ℕ → ℕ) (h : ℕ) → ((k : ℕ) → k < h → f k ≡ g k) → before f h ≡ before g h
before_same f g zero e = refl
before_same f g (suc h) e =
    ap (λ x. x ∷ before f h) (e h (omega arith))
    ∙ ap (λ l. g h ∷ l) (before_same f g h (λ k a. e k (omega (arith, a))))

values_grown :
    (data_of at : ℕ → ℕ) (node h m : ℕ) (vs : List ℕ)
    → m ≡ h + length vs
    → Holds data_of at h vs
    → Holds data_of (update at (suc m) node) h (vs ++ data_of node ∷ [])
values_grown data_of at node h m [] l v =
    (ap data_of (update_same at (suc m) node (suc h) (ground (arith, l))), tt)
values_grown data_of at node h m (w ∷ vs) l (e, v) = (
  ap data_of (update_apart at (suc m) node (suc h) (λ f. absurd (omega (arith, l, f)))) ∙ e,
  values_grown data_of at node (suc h) m vs (omega (arith, l)) v,
)

module _ (s : AtomicQueue) (c : Places) (waiting : List ℕ) (x : IsChain s c waiting)
    (i node tail : ℕ) (here : s.threads i ≡ link_node node tail) (stop : s.next tail ≡ none) where
  abbrev grown : Places
  grown = record c { at = update c.at (suc c.m) node; m = suc c.m }

  old_at : (k : ℕ) → k ≤ c.m → grown.at k ≡ c.at k
  old_at k a = update_apart c.at (suc c.m) node k (λ e. absurd (omega (arith, a, e)))

  new_at : grown.at (suc c.m) ≡ node
  new_at = update_at c.at (suc c.m) node

  -- The node whose next pointer is NULL is the last.
  at_end : (j : ℕ) → j ≤ c.m → tail ≡ c.at j → j ≡ c.m
  at_end j a e = elim (eq_cases j c.m) [
    | inl f ↦ f
    | inr f ↦ absurd (let g = x.chained j (omega (arith, a, f)) in let y = ap s.next e in cc)
  ]

  tail_last : Known c c.m tail → tail ≡ c.at c.m
  tail_last (j, a, e) = e ∙ ap c.at (at_end j a e)

  known_tail : tail ≡ c.at c.m
  known_tail = tail_last (subst (Loaded c) here (x.loaded i))

  own_here : own (s.threads i) ≡ some node
  own_here = ap own here

  node_apart : (k : ℕ) → k ≤ c.m → c.at k ≢ node
  node_apart = (x.mine i node own_here).2

  grown-Extends : Extends c grown
  grown-Extends = record {
    same_at = old_at;
    head_on = omega arith;
    tail_on = omega arith;
    last_on = omega arith;
    tail_in = x.within;
    head_in = x.behind;
  }

  bare : (n : ℕ) → own (swing_tail node tail) ≡ some n → own (s.threads i) ≡ some n
  bare n e = absurd cc

  own_back :
      (j n : ℕ)
      → own (update s.threads i (swing_tail node tail) j) ≡ some n
      → own (s.threads j) ≡ some n
  own_back = own-update s.threads i (swing_tail node tail) bare

  -- Another thread's node is not the one that is linked.
  not_linked : (j n : ℕ) → own (update s.threads i (swing_tail node tail) j) ≡ some n → n ≢ node
  not_linked j n e f =
      let g = x.alone j i n (own_back j n e) (own_here ∙ ap some (sym f)) in
      absurd (
        let y =
          ap (update s.threads i (swing_tail node tail)) g
          ∙ update_at s.threads i (swing_tail node tail) in
        let z = ap own y in cc)

  next_on : (p : ℕ) → p ≢ tail → update s.next tail (some node) p ≡ s.next p
  next_on p n = update_apart s.next tail (some node) p n

  not_tail : (k : ℕ) → k < c.m → c.at k ≢ tail
  not_tail k a e =
      absurd (omega (arith, a, x.apart k c.m (omega (arith, a)) (omega arith) (e ∙ known_tail)))

  chained_on :
      (k : ℕ) → k < suc c.m → update s.next tail (some node) (grown.at k) ≡ some (grown.at (suc k))
  chained_on k a = elim (eq_cases k c.m) [
    | inl e ↦
        ap (update s.next tail (some node))
          (old_at k (omega (arith, a)) ∙ ap c.at e ∙ sym known_tail)
        ∙ update_at s.next tail (some node)
        ∙ ap some (sym new_at ∙ ap (λ j. grown.at (suc j)) (sym e))
    | inr e ↦
        let b : k < c.m = omega (arith, a, e) in
        ap (update s.next tail (some node)) (old_at k (omega (arith, b)))
        ∙ next_on (c.at k) (not_tail k b)
        ∙ x.chained k b
        ∙ ap some (sym (old_at (suc k) b))
  ]

  split_at :
      (k : ℕ)
      → k ≤ suc c.m
      → ((k ≡ suc c.m) × (grown.at k ≡ node)) ⊎ ((k ≤ c.m) × (grown.at k ≡ c.at k))
  split_at k a = elim (eq_cases k (suc c.m)) [
    | inl e ↦ inl (e, ap grown.at e ∙ new_at)
    | inr e ↦ let b : k ≤ c.m = omega (arith, a, e) in inr (b, old_at k b)
  ]

  apart_on : (j k : ℕ) → j ≤ suc c.m → k ≤ suc c.m → grown.at j ≡ grown.at k → j ≡ k
  apart_on j k a b e = elim (split_at j a) [
    | inl (f, g) ↦ elim (split_at k b) [
      | inl (p, q) ↦ f ∙ sym p
      | inr (p, q) ↦ absurd (node_apart k p (sym q ∙ sym e ∙ g))
    ]
    | inr (f, g) ↦ elim (split_at k b) [
      | inl (p, q) ↦ absurd (node_apart j f (sym g ∙ e ∙ q))
      | inr (p, q) ↦ x.apart j k f p (sym g ∙ e ∙ q)
    ]
  ]

  in_use_on : (k : ℕ) → k ≤ suc c.m → s.used (grown.at k) ≡ true
  in_use_on k a = elim (split_at k a) [
    | inl (e, f) ↦ ap s.used f ∙ (x.mine i node own_here).0
    | inr (e, f) ↦ ap s.used f ∙ x.in_use k e
  ]

  mine_grown :
      (j n : ℕ)
      → own (update s.threads i (swing_tail node tail) j) ≡ some n
      → (s.used n ≡ true)
        × (update s.next tail (some node) n ≡ none)
        × ((k : ℕ) → k ≤ suc c.m → grown.at k ≢ n)
  mine_grown j n e =
      let (u, v, w) = x.mine j n (own_back j n e) in
      (
        u,
        next_on n (λ f. w c.m (omega arith) (sym (f ∙ known_tail))) ∙ v,
        λ k a f. elim (split_at k a) [
          | inl (p, q) ↦ not_linked j n e (sym f ∙ q)
          | inr (p, q) ↦ w k p (sym q ∙ f)
        ],
      )

  end_on : update s.next tail (some node) (grown.at (suc c.m)) ≡ none
  end_on =
      ap (update s.next tail (some node)) new_at
      ∙ next_on node (λ f. node_apart c.m (omega arith) (sym (f ∙ known_tail)))
      ∙ (x.mine i node own_here).1

  pub linked-IsChain : IsChain (linked s i node tail none) grown (waiting ++ s.data_of node ∷ [])
  linked-IsChain = record {
    long = let l = x.long in omega (arith, l, length-append waiting (s.data_of node ∷ []));
    behind = x.behind;
    within = let w = x.within in omega (arith, w);
    first =
        x.first ∙ sym (old_at c.h (let b = x.behind in let w = x.within in omega (arith, b, w)));
    last = x.last ∙ sym (old_at c.t x.within);
    in_use = in_use_on;
    apart = apart_on;
    chained = chained_on;
    end = end_on;
    loaded =
        Loaded-update s.threads i (swing_tail node tail) grown
          (λ j. Loaded-on c grown grown-Extends (s.threads j) (x.loaded j))
          (c.m, omega arith, known_tail ∙ sym (old_at c.m (omega arith)), sym new_at);
    mine = mine_grown;
    alone = λ j k n e f. x.alone j k n (own_back j n e) (own_back k n f);
    past =
        x.past
        ∙ sym (
            before_same grown.at c.at c.h
              (λ k a. old_at k (let y = x.behind in let w = x.within in omega (arith, a, y, w))));
    values = values_grown s.data_of c.at node c.h c.m waiting x.long x.values;
    order =
        sym (append_assoc s.got waiting (s.data_of node ∷ []))
        ∙ ap (λ l. l ++ s.data_of node ∷ []) x.order;
  }
