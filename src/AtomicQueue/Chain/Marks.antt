-- ===== src/AtomicQueue/Chain/Marks.antt =====
-- The exchanges of the head and of the tail of source/utils/clog_atomic_queue.c keep the chain.
use casca_log.Base.{
  ℕ, suc, ◌+◌, ◌≤◌, ◌<◌, ◌≡◌, ◌≢◌, refl, sym, ap, ◌∙◌, true, inl, inr, some, List, [], ◌∷◌, ◌++◌,
  ◌==◌, length, Bool-cases, arith, if_cases, append_assoc, update, update_apart,
}
use casca_log.Mpsc.Chain.{Holds}
use mathlib.Core.Path.{subst}
use casca_log.AtomicQueue.{Local, AtomicQueue, goes, swung, moved, idle, load_head}
use casca_log.AtomicQueue.Chain.{Places, Pair, Loaded, Loaded-on, Extends, own, IsChain, Chained}
use casca_log.AtomicQueue.Chain.Threads.{Loaded-update, own-update, goes-IsChain}

test_eq : (a b : ℕ) → (a == b) ≡ true → a ≡ b
test_eq a b e = ground (arith, e)

values_past :
    (c : Places) (data_of : ℕ → ℕ) (node h : ℕ) (vs : List ℕ)
    → ((k : ℕ) → h < k → k ≤ h + length vs → c.at k ≢ node)
    → Holds data_of c.at h vs
    → Holds (update data_of node 0) c.at h vs
values_past c data_of node h [] n v = tt
values_past c data_of node h (w ∷ vs) n (e, v) = (
  update_apart data_of node 0 (c.at (suc h)) (n (suc h) (omega arith) (omega arith)) ∙ e,
  values_past c data_of node (suc h) vs (λ k a b. n k (omega (arith, a)) (omega (arith, b))) v,
)

module _ (s : AtomicQueue) (c : Places) (waiting : List ℕ) (x : IsChain s c waiting) (i : ℕ)
    (l : Local) (o : (n : ℕ) → own l ≡ some n → own (s.threads i) ≡ some n) where
  abbrev further : Places
  further = record c { t = suc c.t }

  further-Extends : Extends c further
  further-Extends = record {
    same_at = λ k a. refl;
    head_on = omega arith;
    tail_on = omega arith;
    last_on = omega arith;
    tail_in = x.within;
    head_in = x.behind;
  }

  tail_on-IsChain :
      (node : ℕ)
      → suc c.t ≤ c.m
      → node ≡ c.at (suc c.t)
      → Loaded c l
      → IsChain (record s { tail = node; threads = update s.threads i l }) further waiting
  tail_on-IsChain node b e a = record {
    long = x.long;
    behind = let y = x.behind in omega (arith, y);
    within = b;
    first = x.first;
    last = e;
    in_use = x.in_use;
    apart = x.apart;
    chained = x.chained;
    end = x.end;
    loaded =
        Loaded-update s.threads i l further
          (λ j. Loaded-on c further further-Extends (s.threads j) (x.loaded j))
          (Loaded-on c further further-Extends l a);
    mine = λ j n e. x.mine j n (own-update s.threads i l o j n e);
    alone = λ j k n e f.
        x.alone j k n (own-update s.threads i l o j n e) (own-update s.threads i l o k n f);
    past = x.past;
    values = x.values;
    order = x.order;
  }

  pub swung-Chained :
      (tail node : ℕ) → Pair c c.m tail node → Loaded c l → Chained (swung s i tail node l)
  swung-Chained tail node (j, b, f, g) a =
      if_cases Chained (s.tail == tail) (record s { tail = node; threads = update s.threads i l })
        (goes s i l)
        (λ e.
          let p : j ≡ c.t =
            x.apart j c.t (omega (arith, b)) x.within
              (sym f ∙ sym (test_eq s.tail tail e) ∙ x.last) in
          (
            further,
            waiting,
            tail_on-IsChain node (omega (arith, b, p)) (g ∙ ap (λ k. c.at (suc k)) p) a,
          ))
        (λ e. (c, waiting, goes-IsChain s c waiting x i l a o))

module _ (s : AtomicQueue) (c : Places) (v : ℕ) (vs : List ℕ) (x : IsChain s c (v ∷ vs))
    (i : ℕ) where
  abbrev nearer : Places
  nearer = record c { h = suc c.h }

  nearer-Extends : Extends c nearer
  nearer-Extends = record {
    same_at = λ k a. refl;
    head_on = omega arith;
    tail_on = omega arith;
    last_on = omega arith;
    tail_in = x.within;
    head_in = x.behind;
  }

  no_own : (n : ℕ) → own idle ≡ some n → own (s.threads i) ≡ some n
  no_own n e = absurd cc

  abbrev head_moved : ℕ → AtomicQueue
  head_moved node = record s {
    head = node;
    data_of = update s.data_of node 0;
    threads = update s.threads i idle;
    got = s.got ++ s.data_of node ∷ [];
    retired = s.head ∷ s.retired;
  }

  pub head_on-IsChain :
      (node : ℕ) → suc c.h ≤ c.t → node ≡ c.at (suc c.h) → IsChain (head_moved node) nearer vs
  head_on-IsChain node b e = record {
    long = let y = x.long in omega (arith, y);
    behind = b;
    within = x.within;
    first = e;
    last = x.last;
    in_use = x.in_use;
    apart = x.apart;
    chained = x.chained;
    end = x.end;
    loaded =
        Loaded-update s.threads i idle nearer
          (λ j. Loaded-on c nearer nearer-Extends (s.threads j) (x.loaded j)) tt;
    mine = λ j n e. x.mine j n (own-update s.threads i idle no_own j n e);
    alone = λ j k n e f.
        x.alone j k n (own-update s.threads i idle no_own j n e)
          (own-update s.threads i idle no_own k n f);
    past = ap (λ p. p ∷ s.retired) x.first ∙ ap (λ l. c.at c.h ∷ l) x.past;
    values =
        values_past c s.data_of node (suc c.h) vs
          (λ k p q f. absurd (
            let y = x.long in
            let w = x.within in
            omega
              (arith, p, x.apart k (suc c.h) (omega (arith, q, y)) (omega (arith, b, w)) (f ∙ e))))
          x.values.1;
    order =
        append_assoc s.got (s.data_of node ∷ []) vs
        ∙ ap (λ d. s.got ++ d ∷ vs) (ap s.data_of e ∙ x.values.0)
        ∙ x.order;
  }

some_first :
    (vs : List ℕ) (h t m : ℕ)
    → m ≡ h + length vs
    → t ≤ m
    → suc h ≤ t
    → (v : ℕ) × (ws : List ℕ) × (vs ≡ v ∷ ws)
some_first [] h t m l w b = absurd (omega (arith, l, w, b))
some_first (v ∷ ws) h t m l w b = (v, ws, refl)

moved_on :
    (s : AtomicQueue) (c : Places) (waiting : List ℕ)
    → IsChain s c waiting
    → (i node : ℕ) → suc c.h ≤ c.t
    → node ≡ c.at (suc c.h)
    → Chained (record s {
      head = node;
      data_of = update s.data_of node 0;
      threads = update s.threads i idle;
      got = s.got ++ s.data_of node ∷ [];
      retired = s.head ∷ s.retired;
    })
moved_on s c waiting x i node b e =
    let (v, vs, w) = some_first waiting c.h c.t c.m x.long x.within b in
    let y : IsChain s c (v ∷ vs) = subst (IsChain s c) w x in
    (record c { h = suc c.h }, vs, head_on-IsChain s c v vs y i node b e)

pub moved-Chained :
    (s : AtomicQueue) (c : Places) (waiting : List ℕ)
    → IsChain s c waiting
    → (i head node : ℕ) → Pair c c.t head node
    → Chained (moved s i head node)
moved-Chained s c waiting x i head node (j, b, f, g) = elim (Bool-cases (s.head == head)) [
  | inl e ↦
      let y = x.behind in
      let w = x.within in
      let q = test_eq s.head head e in
      let p : j ≡ c.h =
        x.apart j c.h (omega (arith, b, w)) (omega (arith, y, w)) (sym f ∙ sym q ∙ x.first) in
      rw (e, sym q)
        (moved_on s c waiting x i node (omega (arith, b, p)) (g ∙ ap (λ k. c.at (suc k)) p))
  | inr e ↦ rw e (c, waiting, goes-IsChain s c waiting x i load_head tt (λ n f. absurd cc))
]
