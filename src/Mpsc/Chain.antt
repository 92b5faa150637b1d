-- ===== src/Mpsc/Chain.antt =====
-- The nodes of source/utils/clog_atomic_mpsc_queue.c between the head and the tail, whatever the
-- threads do: each is linked to the one after it, or a producer is about to link it.
pub mod Link
pub mod Take
pub mod Exchange
use casca_log.Base.{
  ℕ, zero, suc, ◌+◌, ◌≤◌, ◌<◌, ◌≡◌, ◌≢◌, refl, sym, ap, ◌∙◌, Bool, true, false, ◌⊎◌, inl, inr,
  Option, none, some, List, [], ◌∷◌, ◌++◌, if◌then◌else◌, ◌==◌, length, Bool-cases, Option-cases,
  eq_cases, arith, update, update_at, update_apart,
}
use mathlib.Core.Bool.{true≢false}
use casca_log.Mpsc.{
  MpscQueue, create, exchanged, exchange, store_link, out_load, out_take, Move, exchanging, storing,
  loading, taking_out, step, run, touches,
}

-- The values in the nodes behind a place of the chain.
abbrev pub Holds : (ℕ → ℕ) → (ℕ → ℕ) → ℕ → List ℕ → Type 0
Holds data_of at h [] = Unit
Holds data_of at h (v ∷ vs) = (data_of (at (suc h)) ≡ v) × Holds data_of at (suc h) vs

-- The chain as the addresses of its places, those from `h` to `t` in use, with the values that wait.
pub record IsChain (s : MpscQueue) (at : ℕ → ℕ) (h t : ℕ) (waiting : List ℕ) : Type 0 where
  pub long : t ≡ h + length waiting
  pub first : s.head ≡ at h
  pub last : s.tail ≡ at t
  pub live : (k : ℕ) → h ≤ k → k ≤ t → s.allocated (at k) ≡ true
  pub owned : (x : ℕ) → s.allocated x ≡ true → (k : ℕ) × (h ≤ k) × (k ≤ t) × (x ≡ at k)
  pub apart : (j k : ℕ) → h ≤ j → j ≤ t → h ≤ k → k ≤ t → at j ≡ at k → j ≡ k
  pub end : s.next (at t) ≡ none
  pub linked :
      (k : ℕ)
      → h ≤ k
      → k < t
      → (s.next (at k) ≡ some (at (suc k)))
        ⊎ ((s.next (at k) ≡ none) × ((i : ℕ) × (s.linking i ≡ some (at k, at (suc k)))))
  pub place :
      (i p n : ℕ)
      → s.linking i ≡ some (p, n)
      → (k : ℕ) × (h ≤ k) × (k < t) × (p ≡ at k) × (n ≡ at (suc k)) × (s.next p ≡ none)
  pub alone : (i j p n m : ℕ) → s.linking i ≡ some (p, n) → s.linking j ≡ some (p, m) → i ≡ j
  pub ready : (n : ℕ) → s.taking ≡ some n → s.next s.head ≡ some n
  pub values : Holds s.data_of at h waiting
  pub order : s.got ++ waiting ≡ s.put

-- There is such a chain.
abbrev pub Chained : MpscQueue → Type 0
Chained s = (at : ℕ → ℕ) × (h : ℕ) × (t : ℕ) × (waiting : List ℕ) × IsChain s at h t waiting

only_one : (dummy x : ℕ) → update (λ y. false) dummy true x ≡ true → x ≡ dummy
only_one dummy x e = elim (eq_cases x dummy) [
  | inl same ↦ same
  | inr other ↦ absurd (true≢false (sym e ∙ update_apart (λ y. false) dummy true x other))
]

pub create-Chained : (dummy : ℕ) → Chained (create dummy)
unfolding create
create-Chained dummy = (
  λ k. dummy,
  0,
  0,
  [],
  record {
    long = refl;
    first = refl;
    last = refl;
    live = λ k a b. update_at (λ x. false) dummy true;
    owned = λ x e. (0, omega arith, omega arith, only_one dummy x e);
    apart = λ j k a b c d e. omega (arith, b, d);
    end = refl;
    linked = λ k a b. absurd (omega (arith, b));
    place = λ i p n e. absurd cc;
    alone = λ i j p n m e f. absurd cc;
    ready = λ n e. absurd cc;
    values = tt;
    order = refl;
  },
)

-- A node that is not allocated is none of the chain.
pub new_apart :
    (s : MpscQueue) (at : ℕ → ℕ) (h t : ℕ) (waiting : List ℕ)
    → IsChain s at h t waiting
    → (node k : ℕ) → s.allocated node ≡ false
    → h ≤ k
    → k ≤ t
    → at k ≢ node
new_apart s at h t waiting c node k f a b e =
    let l = c.live k a b in absurd (true≢false (sym l ∙ ap s.allocated e ∙ f))

pub some_parts :
    (p n q m : ℕ) → ◌≡◌ {A = Option (ℕ × ℕ)} (some (p, n)) (some (q, m)) → (p ≡ q) × (n ≡ m)
some_parts p n q m e = (cc, cc)
