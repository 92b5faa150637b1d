-- ===== src/AtomicQueue/Chain/Begin.antt =====
-- A new node of source/utils/clog_atomic_queue.c, which a thread gets.
use casca_log.Base.{
  ℕ, suc, ◌+◌, ◌≤◌, ◌≡◌, ◌≢◌, sym, ap, ◌∙◌, true, false, ◌⊎◌, inl, inr, Option, none, some, List,
  [], ◌∷◌, length, eq_cases, arith, update, update_at, update_apart,
}
use mathlib.Core.Bool.{true≢false}
use casca_log.Mpsc.Chain.{Holds}
use casca_log.AtomicQueue.{Local, AtomicQueue, begun, load_tail}
use casca_log.AtomicQueue.Chain.{Places, own, IsChain}
use casca_log.AtomicQueue.Chain.Threads.{Loaded-update}

values_other :
    (data_of : ℕ → ℕ) (at : ℕ → ℕ) (node d h : ℕ) (vs : List ℕ)
    → ((k : ℕ) → k ≤ h + length vs → at k ≢ node)
    → Holds data_of at h vs
    → Holds (update data_of node d) at h vs
values_other data_of at node d h [] n v = tt
values_other data_of at node d h (w ∷ vs) n (e, v) = (
  update_apart data_of node d (at (suc h)) (n (suc h) (omega arith)) ∙ e,
  values_other data_of at node d (suc h) vs (λ k a. n k (omega (arith, a))) v,
)

some_same : (a b : ℕ) → ◌≡◌ {A = Option ℕ} (some a) (some b) → a ≡ b
some_same a b e = cc

module _ (s : AtomicQueue) (c : Places) (waiting : List ℕ) (x : IsChain s c waiting) (i node d : ℕ)
    (fresh : s.used node ≡ false) where
  unused : (n : ℕ) → s.used n ≡ true → n ≢ node
  unused n u e = true≢false (sym u ∙ ap s.used e ∙ fresh)

  chain_apart : (k : ℕ) → k ≤ c.m → c.at k ≢ node
  chain_apart k a = unused (c.at k) (x.in_use k a)

  threads_on : ℕ → Local
  threads_on = update s.threads i (load_tail node)

  -- A thread's own node afterwards: the new one, or one that it had.
  own_on :
      (j n : ℕ)
      → own (threads_on j) ≡ some n
      → ((j ≡ i) × (n ≡ node)) ⊎ (own (s.threads j) ≡ some n)
  unfolding threads_on
  own_on j n e = elim (eq_cases j i) [
    | inl same ↦
        let f : own (threads_on j) ≡ some node =
          ap own (ap threads_on same ∙ update_at s.threads i (load_tail node)) in
        inl (same, some_same n node (sym e ∙ f))
    | inr other ↦ inr (sym (ap own (update_apart s.threads i (load_tail node) j other)) ∙ e)
  ]

  used_on : (n : ℕ) → s.used n ≡ true → update s.used node true n ≡ true
  used_on n u = update_apart s.used node true n (unused n u) ∙ u

  mine_on :
      (j n : ℕ)
      → own (threads_on j) ≡ some n
      → (update s.used node true n ≡ true)
        × (update s.next node none n ≡ none)
        × ((k : ℕ) → k ≤ c.m → c.at k ≢ n)
  mine_on j n e = elim (own_on j n e) [
    | inl (same, f) ↦ (
      ap (update s.used node true) f ∙ update_at s.used node true,
      ap (update s.next node none) f ∙ update_at s.next node none,
      λ k a g. chain_apart k a (g ∙ f),
    )
    | inr f ↦
        let (u, v, w) = x.mine j n f in
        (used_on n u, update_apart s.next node none n (unused n u) ∙ v, w)
  ]

  alone_on : (j k n : ℕ) → own (threads_on j) ≡ some n → own (threads_on k) ≡ some n → j ≡ k
  alone_on j k n e f = elim (own_on j n e) [
    | inl (a, b) ↦ elim (own_on k n f) [
      | inl (p, q) ↦ a ∙ sym p
      | inr q ↦ absurd (unused n (x.mine k n q).0 b)
    ]
    | inr b ↦ elim (own_on k n f) [
      | inl (p, q) ↦ absurd (unused n (x.mine j n b).0 q)
      | inr q ↦ x.alone j k n b q
    ]
  ]

  pub begun-IsChain : IsChain (begun s i node d) c waiting
  unfolding threads_on
  begun-IsChain = record {
    long = x.long;
    behind = x.behind;
    within = x.within;
    first = x.first;
    last = x.last;
    in_use = λ k a. used_on (c.at k) (x.in_use k a);
    apart = x.apart;
    chained = λ k a.
        update_apart s.next node none (c.at k) (chain_apart k (omega (arith, a))) ∙ x.chained k a;
    end = update_apart s.next node none (c.at c.m) (chain_apart c.m (omega arith)) ∙ x.end;
    loaded = Loaded-update s.threads i (load_tail node) c x.loaded tt;
    mine = mine_on;
    alone = alone_on;
    past = x.past;
    values =
        values_other s.data_of c.at node d c.h waiting
          (λ k a. chain_apart k (let l = x.long in omega (arith, a, l))) x.values;
    order = x.order;
  }
