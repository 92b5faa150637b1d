-- ===== src/AtomicQueue/Moves.antt =====
-- What each access of a thread of source/utils/clog_atomic_queue.c does to the chain: it keeps one.
use casca_log.Base.{
  ℕ, suc, ◌≤◌, ◌≡◌, ◌≢◌, refl, sym, ap, ◌∙◌, true, false, inl, inr, Option, none, some, List, [],
  ◌∷◌, ◌++◌, ◌==◌, eq_cases, if_cases, arith,
}
use casca_log.AtomicQueue.{
  Local, idle, load_tail, load_next, check_tail, check_state, link_node, help_tail, swing_tail,
  load_head, with_head, with_tail, with_next, help_head, check_again, move_head, found_none,
  AtomicQueue, goes, linked, after_next, seen, past_check, advance,
}
use casca_log.AtomicQueue.Chain.{
  Places, Known, Pair, InOrder, Ordered, Loaded, own, IsChain, Chained,
}
use casca_log.AtomicQueue.Chain.Threads.{goes-IsChain}
use casca_log.AtomicQueue.Chain.Marks.{swung-Chained, moved-Chained}
use casca_log.AtomicQueue.Chain.Grow.{linked-IsChain}

differ : (a b : ℕ) → (a == b) ≡ false → a ≢ b
differ a b e f = ground (arith, e, f)

equal_of : (a b : ℕ) → (a == b) ≡ true → a ≡ b
equal_of a b e = ground (arith, e)

module _ (s : AtomicQueue) (c : Places) (waiting : List ℕ) (x : IsChain s c waiting) where
  -- The node behind one that is known, and what there is without it.
  behind_known : (j n : ℕ) → j ≤ c.m → s.next (c.at j) ≡ some n → (suc j ≤ c.m) × (n ≡ c.at (suc j))
  behind_known j n a e = elim (eq_cases j c.m) [
    | inl f ↦ absurd (let g = ap (λ k. s.next (c.at k)) f in let z = x.end in cc)
    | inr f ↦ let b : suc j ≤ c.m = omega (arith, a, f) in let g = x.chained j b in (b, cc)
  ]

  pub nothing_behind : (j : ℕ) → j ≤ c.m → s.next (c.at j) ≡ none → j ≡ c.m
  nothing_behind j a e = elim (eq_cases j c.m) [
    | inl f ↦ f
    | inr f ↦ absurd (let g = x.chained j (omega (arith, a, f)) in cc)
  ]

  behind-Pair :
      (tail other : ℕ) → Known c c.m tail → s.next tail ≡ some other → Pair c c.m tail other
  behind-Pair tail other (j, a, e) f =
      let (b, g) = behind_known j other a (ap s.next (sym e) ∙ f) in (j, b, e, g)

  behind-Ordered :
      (head tail : ℕ) (o : Option ℕ) → InOrder c head tail → s.next head ≡ o → Ordered c head tail o
  behind-Ordered head tail none r e = r
  behind-Ordered head tail (some n) (i, j, a, b, d, f, g) e =
      let w = x.within in
      let (y, z) = behind_known i n (omega (arith, b, d, w)) (ap s.next (sym f) ∙ e) in
      (i, j, a, b, d, y, f, g, z)

  after_next-Loaded :
      (node tail : ℕ) (o : Option ℕ)
      → Known c c.m tail
      → s.next tail ≡ o
      → Loaded c (after_next node tail o)
  after_next-Loaded node tail none k e = k
  after_next-Loaded node tail (some other) k e = behind-Pair tail other k e

  seen-Loaded : (head tail : ℕ) (o : Option ℕ) → Ordered c head tail o → Loaded c (seen head tail o)
  seen-Loaded head tail none r =
      if_cases (Loaded c) (head == tail) found_none (check_again head tail none) (λ e. tt)
        (λ e. (r, differ head tail e))
  seen-Loaded head tail (some n) r =
      if_cases (Loaded c) (head == tail) (help_head tail n) (check_again head tail (some n))
        (λ e. let (i, j, a, b, d, y, f, g, z) = r in (i, y, sym (equal_of head tail e) ∙ f, z))
        (λ e. (r, differ head tail e))

  past_check-Loaded :
      (head tail : ℕ) (o : Option ℕ)
      → Ordered c head tail o
      → head ≢ tail
      → Loaded c (past_check head o)
  past_check-Loaded head tail none r n = tt
  past_check-Loaded head tail (some node) (i, j, a, b, d, y, f, g, z) n = elim (eq_cases i j) [
    | inl e ↦ absurd (n (f ∙ ap c.at e ∙ sym g))
    | inr e ↦ (i, omega (arith, b, d, e), f, z)
  ]

  no_own : (head : ℕ) (o : Option ℕ) → own (past_check head o) ≡ none
  no_own head none = refl
  no_own head (some node) = refl

  own-seen : (head tail : ℕ) (o : Option ℕ) → own (seen head tail o) ≡ none
  own-seen head tail none =
      if_cases (λ l. own l ≡ none) (head == tail) found_none (check_again head tail none)
        (λ e. refl) (λ e. refl)
  own-seen head tail (some n) =
      if_cases (λ l. own l ≡ none) (head == tail) (help_head tail n)
        (check_again head tail (some n)) (λ e. refl) (λ e. refl)

  own-after_next : (node tail : ℕ) (o : Option ℕ) → own (after_next node tail o) ≡ some node
  own-after_next node tail none = refl
  own-after_next node tail (some other) = refl

  -- A thread that goes on, with its node or without one.
  kept :
      (i node : ℕ) (l : Local)
      → own (s.threads i) ≡ some node
      → own l ≡ some node
      → Loaded c l
      → Chained (goes s i l)
  kept i node l e f a = (c, waiting, goes-IsChain s c waiting x i l a (λ n g. e ∙ sym f ∙ g))

  bare : (i : ℕ) (l : Local) → own l ≡ none → Loaded c l → Chained (goes s i l)
  bare i l f a =
      (c, waiting, goes-IsChain s c waiting x i l a (λ n g. absurd (let q = sym f ∙ g in cc)))

  bare_own :
      (i : ℕ) (l : Local) → own l ≡ none → (n : ℕ) → own l ≡ some n → own (s.threads i) ≡ some n
  bare_own i l f n g = absurd (let q = sym f ∙ g in cc)

  link-Chained :
      (i node tail : ℕ) (o : Option ℕ)
      → s.threads i ≡ link_node node tail
      → s.next tail ≡ o
      → Chained (linked s i node tail o)
  link-Chained i node tail none e f =
      (_, waiting ++ s.data_of node ∷ [], linked-IsChain s c waiting x i node tail e f)
  link-Chained i node tail (some other) e f = kept i node (load_tail node) (ap own e) refl tt

  pub advance-Chained : (l : Local) (i : ℕ) → s.threads i ≡ l → Loaded c l → Chained (advance l i s)
  unfolding advance
  advance-Chained idle i e k = (c, waiting, x)
  advance-Chained (load_tail node) i e k =
      kept i node (load_next node s.tail) (ap own e) refl (c.t, x.within, x.last)
  advance-Chained (load_next node tail) i e k =
      kept i node (after_next node tail (s.next tail)) (ap own e)
        (own-after_next node tail (s.next tail)) (after_next-Loaded node tail (s.next tail) k refl)
  advance-Chained (help_tail node tail other) i e k =
      swung-Chained s c waiting x i (load_tail node) (λ n f. ap own e ∙ f) tail other k tt
  advance-Chained (check_tail node tail) i e k =
      if_cases (λ l. Chained (goes s i l)) (s.tail == tail) (check_state node tail) (load_tail node)
        (λ f. kept i node (check_state node tail) (ap own e) refl k)
        (λ f. kept i node (load_tail node) (ap own e) refl tt)
  advance-Chained (check_state node tail) i e k =
      if_cases (λ l. Chained (goes s i l)) s.running (link_node node tail) idle
        (λ f. kept i node (link_node node tail) (ap own e) refl k) (λ f. bare i idle refl tt)
  advance-Chained (link_node node tail) i e k = link-Chained i node tail (s.next tail) e refl
  advance-Chained (swing_tail node tail) i e k =
      swung-Chained s c waiting x i idle (bare_own i idle refl) tail node k tt
  advance-Chained load_head i e k = bare i (with_head s.head) refl (c.h, omega arith, x.first)
  advance-Chained (with_head head) i e (j, a, f) =
      bare i (with_tail head s.tail) refl
        (j, c.t, a, let b = x.behind in omega (arith, a, b), omega arith, f, x.last)
  advance-Chained (with_tail head tail) i e k =
      bare i (with_next head tail (s.next head)) refl
        (behind-Ordered head tail (s.next head) k refl)
  advance-Chained (with_next head tail next) i e k =
      if_cases (λ l. Chained (goes s i l)) s.running (seen head tail next) idle
        (λ f. bare i (seen head tail next) (own-seen head tail next) (seen-Loaded head tail next k))
        (λ f. bare i idle refl tt)
  advance-Chained (help_head tail node) i e k =
      swung-Chained s c waiting x i load_head (bare_own i load_head refl) tail node k tt
  advance-Chained (check_again head tail next) i e (k, n) =
      if_cases (λ l. Chained (goes s i l)) (s.tail == tail) (past_check head next) load_head
        (λ f.
          bare i (past_check head next) (no_own head next) (past_check-Loaded head tail next k n))
        (λ f. bare i load_head refl tt)
  advance-Chained (move_head head node) i e k = moved-Chained s c waiting x i head node k
  advance-Chained found_none i e k = bare i idle refl tt
