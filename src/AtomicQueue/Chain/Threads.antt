-- ===== src/AtomicQueue/Chain/Threads.antt =====
-- A thread of source/utils/clog_atomic_queue.c that only goes on keeps the chain.
use casca_log.Base.{
  ℕ, ◌≡◌, sym, ap, ◌∙◌, inl, inr, some, List, eq_cases, update, update_at, update_apart,
}
use mathlib.Core.Path.{subst}
use casca_log.AtomicQueue.{Local, AtomicQueue, goes}
use casca_log.AtomicQueue.Chain.{Places, Loaded, own, IsChain}

module _ (f : ℕ → Local) (i : ℕ) (l : Local) where
  pub Loaded-update :
      (c : Places) → ((j : ℕ) → Loaded c (f j)) → Loaded c l → (j : ℕ) → Loaded c (update f i l j)
  Loaded-update c a b j = elim (eq_cases j i) [
    | inl same ↦ subst (Loaded c) (sym (ap (update f i l) same ∙ update_at f i l)) b
    | inr other ↦ subst (Loaded c) (sym (update_apart f i l j other)) (a j)
  ]

  -- The node of a thread after the update is one that it had.
  pub own-update :
      ((n : ℕ) → own l ≡ some n → own (f i) ≡ some n)
      → (j n : ℕ) → own (update f i l j) ≡ some n
      → own (f j) ≡ some n
  own-update h j n e = elim (eq_cases j i) [
    | inl same ↦
        ap (λ k. own (f k)) same ∙ h n (sym (ap own (ap (update f i l) same ∙ update_at f i l)) ∙ e)
    | inr other ↦ sym (ap own (update_apart f i l j other)) ∙ e
  ]

module _ (s : AtomicQueue) (c : Places) (waiting : List ℕ) (x : IsChain s c waiting) (i : ℕ)
    (l : Local) where
  pub goes-IsChain :
      Loaded c l
      → ((n : ℕ) → own l ≡ some n → own (s.threads i) ≡ some n)
      → IsChain (goes s i l) c waiting
  goes-IsChain a o = record {
    long = x.long;
    behind = x.behind;
    within = x.within;
    first = x.first;
    last = x.last;
    in_use = x.in_use;
    apart = x.apart;
    chained = x.chained;
    end = x.end;
    loaded = Loaded-update s.threads i l c x.loaded a;
    mine = λ j n e. x.mine j n (own-update s.threads i l o j n e);
    alone = λ j k n e f.
        x.alone j k n (own-update s.threads i l o j n e) (own-update s.threads i l o k n f);
    past = x.past;
    values = x.values;
    order = x.order;
  }
