-- ===== src/AtomicQueue/Chain.antt =====
-- The nodes of source/utils/clog_atomic_queue.c, in the order in which they were linked, and what the
-- threads know of them, whatever they do.
pub mod Threads
pub mod Marks
pub mod Begin
pub mod Grow
use casca_log.Base.{
  ℕ, zero, suc, ◌+◌, ◌≤◌, ◌<◌, ◌≡◌, ◌≢◌, refl, sym, ap, ◌∙◌, Bool, true, false, ◌⊎◌, inl, inr,
  Option, none, some, List, [], ◌∷◌, ◌++◌, if◌then◌else◌, ◌==◌, length, Bool-cases, Option-cases,
  eq_cases, arith, update, update_at, update_apart,
}
use mathlib.Core.Bool.{true≢false}
use casca_log.Mpsc.Chain.{Holds}
use casca_log.AtomicQueue.{
  Local, idle, load_tail, load_next, check_tail, check_state, link_node, help_tail, swing_tail,
  load_head, with_head, with_tail, with_next, help_head, check_again, move_head, found_none,
  AtomicQueue, create,
}

-- The chain's places: where the head and the tail are, and the last one.
pub record Places : Type 0 where
  pub at : ℕ → ℕ
  pub h : ℕ
  pub t : ℕ
  pub m : ℕ

-- A node at a place up to some number; a node and the one behind it; two nodes in their order.
abbrev pub Known : Places → ℕ → ℕ → Type 0
Known c b x = (j : ℕ) × (j ≤ b) × (x ≡ c.at j)

abbrev pub Pair : Places → ℕ → ℕ → ℕ → Type 0
Pair c b x y = (j : ℕ) × (suc j ≤ b) × (x ≡ c.at j) × (y ≡ c.at (suc j))

abbrev pub InOrder : Places → ℕ → ℕ → Type 0
InOrder c x y = (i : ℕ) × (j : ℕ) × (i ≤ c.h) × (i ≤ j) × (j ≤ c.t) × (x ≡ c.at i) × (y ≡ c.at j)

-- The same, with the node behind the first.
abbrev pub Ordered : Places → ℕ → ℕ → Option ℕ → Type 0
Ordered c x y none = InOrder c x y
Ordered c x y (some n) =
    (i : ℕ) × (j : ℕ) × (i ≤ c.h)
    × (i ≤ j)
    × (j ≤ c.t)
    × (suc i ≤ c.m)
    × (x ≡ c.at i)
    × (y ≡ c.at j)
    × (n ≡ c.at (suc i))

-- What is so of the nodes that a thread has loaded.
abbrev pub Loaded : Places → Local → Type 0
Loaded c idle = Unit
Loaded c (load_tail node) = Unit
Loaded c (load_next node tail) = Known c c.m tail
Loaded c (check_tail node tail) = Known c c.m tail
Loaded c (check_state node tail) = Known c c.m tail
Loaded c (link_node node tail) = Known c c.m tail
Loaded c (help_tail node tail other) = Pair c c.m tail other
Loaded c (swing_tail node tail) = Pair c c.m tail node
Loaded c load_head = Unit
Loaded c (with_head head) = Known c c.h head
Loaded c (with_tail head tail) = InOrder c head tail
Loaded c (with_next head tail next) = Ordered c head tail next
Loaded c (help_head tail node) = Pair c c.m tail node
Loaded c (check_again head tail next) = Ordered c head tail next × (head ≢ tail)
Loaded c (move_head head node) = Pair c c.t head node
Loaded c found_none = Unit

-- The node that a thread has not linked yet.
abbrev pub own : Local → Option ℕ
own (load_tail node) = some node
own (load_next node tail) = some node
own (check_tail node tail) = some node
own (check_state node tail) = some node
own (link_node node tail) = some node
own (help_tail node tail other) = some node
own _ = none

-- The nodes at the places before one, the last first.
abbrev pub before : (ℕ → ℕ) → ℕ → List ℕ
before at zero = []
before at (suc k) = at k ∷ before at k

pub record IsChain (s : AtomicQueue) (c : Places) (waiting : List ℕ) : Type 0 where
  pub long : c.m ≡ c.h + length waiting
  pub behind : c.h ≤ c.t
  pub within : c.t ≤ c.m
  pub first : s.head ≡ c.at c.h
  pub last : s.tail ≡ c.at c.t
  pub in_use : (k : ℕ) → k ≤ c.m → s.used (c.at k) ≡ true
  pub apart : (j k : ℕ) → j ≤ c.m → k ≤ c.m → c.at j ≡ c.at k → j ≡ k
  pub chained : (k : ℕ) → k < c.m → s.next (c.at k) ≡ some (c.at (suc k))
  pub end : s.next (c.at c.m) ≡ none
  pub loaded : (i : ℕ) → Loaded c (s.threads i)
  pub mine :
      (i n : ℕ)
      → own (s.threads i) ≡ some n
      → (s.used n ≡ true) × (s.next n ≡ none) × ((k : ℕ) → k ≤ c.m → c.at k ≢ n)
  pub alone : (i j n : ℕ) → own (s.threads i) ≡ some n → own (s.threads j) ≡ some n → i ≡ j
  pub past : s.retired ≡ before c.at c.h
  pub values : Holds s.data_of c.at c.h waiting
  pub order : s.got ++ waiting ≡ s.put

-- There is such a chain.
abbrev pub Chained : AtomicQueue → Type 0
Chained s = (c : Places) × (waiting : List ℕ) × IsChain s c waiting

pub create-Chained : (dummy : ℕ) → Chained (create dummy)
unfolding create
create-Chained dummy = (
  record { at = λ k. dummy; h = 0; t = 0; m = 0 },
  [],
  record {
    long = refl;
    behind = omega arith;
    within = omega arith;
    first = refl;
    last = refl;
    in_use = λ k a. update_at (λ x. false) dummy true;
    apart = λ j k a b e. omega (arith, a, b);
    chained = λ k a. absurd (omega (arith, a));
    end = refl;
    loaded = λ i. tt;
    mine = λ i n e. absurd cc;
    alone = λ i j n e f. absurd cc;
    past = refl;
    values = tt;
    order = refl;
  },
)

-- Places that go on: the same nodes where there were some, and no mark goes back.
pub record Extends (c e : Places) : Type 0 where
  pub same_at : (k : ℕ) → k ≤ c.m → e.at k ≡ c.at k
  pub head_on : c.h ≤ e.h
  pub tail_on : c.t ≤ e.t
  pub last_on : c.m ≤ e.m
  pub tail_in : c.t ≤ c.m
  pub head_in : c.h ≤ c.t

module _ (c e : Places) (x : Extends c e) where
  Known-on : (b b' n : ℕ) → b ≤ b' → b ≤ c.m → Known c b n → Known e b' n
  Known-on b b' n l w (j, a, f) =
      (j, omega (arith, a, l), f ∙ sym (x.same_at j (omega (arith, a, w))))

  Pair-on : (b b' n p : ℕ) → b ≤ b' → b ≤ c.m → Pair c b n p → Pair e b' n p
  Pair-on b b' n p l w (j, a, f, g) = (
    j,
    omega (arith, a, l),
    f ∙ sym (x.same_at j (omega (arith, a, w))),
    g ∙ sym (x.same_at (suc j) (omega (arith, a, w))),
  )

  InOrder-on : (n p : ℕ) → InOrder c n p → InOrder e n p
  InOrder-on n p (i, j, a, b, d, f, g) =
      let u = x.head_on in
      let v = x.tail_on in
      let w = x.tail_in in
      (
        i,
        j,
        omega (arith, a, u),
        b,
        omega (arith, d, v),
        f ∙ sym (x.same_at i (omega (arith, b, d, w))),
        g ∙ sym (x.same_at j (omega (arith, d, w))),
      )

  Ordered-on : (n p : ℕ) (o : Option ℕ) → Ordered c n p o → Ordered e n p o
  Ordered-on n p none r = InOrder-on n p r
  Ordered-on n p (some q) (i, j, a, b, d, r, f, g, k) =
      let u = x.head_on in
      let v = x.tail_on in
      let w = x.tail_in in
      let y = x.last_on in
      (
        i,
        j,
        omega (arith, a, u),
        b,
        omega (arith, d, v),
        omega (arith, r, y),
        f ∙ sym (x.same_at i (omega (arith, r))),
        g ∙ sym (x.same_at j (omega (arith, d, w))),
        k ∙ sym (x.same_at (suc i) r),
      )

  -- What a thread knows stays so.
  pub Loaded-on : (l : Local) → Loaded c l → Loaded e l
  Loaded-on idle r = tt
  Loaded-on (load_tail node) r = tt
  Loaded-on (load_next node tail) r = Known-on c.m e.m tail x.last_on (omega arith) r
  Loaded-on (check_tail node tail) r = Known-on c.m e.m tail x.last_on (omega arith) r
  Loaded-on (check_state node tail) r = Known-on c.m e.m tail x.last_on (omega arith) r
  Loaded-on (link_node node tail) r = Known-on c.m e.m tail x.last_on (omega arith) r
  Loaded-on (help_tail node tail other) r = Pair-on c.m e.m tail other x.last_on (omega arith) r
  Loaded-on (swing_tail node tail) r = Pair-on c.m e.m tail node x.last_on (omega arith) r
  Loaded-on load_head r = tt
  Loaded-on (with_head head) r =
      Known-on c.h e.h head x.head_on
        (let a = x.head_in in let b = x.tail_in in omega (arith, a, b)) r
  Loaded-on (with_tail head tail) r = InOrder-on head tail r
  Loaded-on (with_next head tail next) r = Ordered-on head tail next r
  Loaded-on (help_head tail node) r = Pair-on c.m e.m tail node x.last_on (omega arith) r
  Loaded-on (check_again head tail next) (r, n) = (Ordered-on head tail next r, n)
  Loaded-on (move_head head node) r = Pair-on c.t e.t head node x.tail_on x.tail_in r
  Loaded-on found_none r = tt
