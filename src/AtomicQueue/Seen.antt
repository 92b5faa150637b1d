-- ===== src/AtomicQueue/Seen.antt =====
-- A thread in `clog_atomic_queue_dequeue_internal` that has seen a head whose next pointer is NULL.
use casca_log.Base.{
  ℕ, suc, ◌+◌, ◌≡◌, refl, sym, ap, ◌∙◌, Option, none, some, List, [], ◌∷◌, ◌++◌, if◌then◌else◌,
  ◌==◌, if_cases, update, update_at, arith,
}
use mathlib.Core.Path.{subst}
use mathlib.Core.List.{append_assoc}
use casca_log.AtomicQueue.{
  Local, idle, load_tail, load_next, check_tail, check_state, link_node, help_tail, swing_tail,
  load_head, with_head, with_tail, with_next, help_head, check_again, move_head, found_none,
  AtomicQueue, create, goes, linked, swung, moved, after_next, seen, past_check, advance, Move,
  enqueuing, dequeuing, advancing, finalizing, run,
}

-- How often a thread goes on, in some moves.
unfoldable pub goes_on : ℕ → List Move → ℕ
goes_on i [] = 0
goes_on i (enqueuing j node d ∷ ms) = goes_on i ms
goes_on i (dequeuing j ∷ ms) = goes_on i ms
goes_on i (finalizing ∷ ms) = goes_on i ms
goes_on i (advancing j ∷ ms) = let n = goes_on i ms in if i == j then suc n else n

goes_on-append : (i : ℕ) (ms ns : List Move) → goes_on i (ms ++ ns) ≡ goes_on i ms + goes_on i ns
unfolding goes_on
goes_on-append i [] ns = omega arith
goes_on-append i (enqueuing j node d ∷ ms) ns = goes_on-append i ms ns
goes_on-append i (dequeuing j ∷ ms) ns = goes_on-append i ms ns
goes_on-append i (finalizing ∷ ms) ns = goes_on-append i ms ns
goes_on-append i (advancing j ∷ ms) ns = ground (arith, goes_on-append i ms ns)

module _ (dummy i : ℕ) where
  -- Among some moves, one in which the thread loads the next pointer of its head, which is NULL, and
  -- after which the thread goes on so many times.
  pub record Seen (past : List Move) (head tail n : ℕ) : Type 0 where
    pub before : List Move
    pub after : List Move
    pub there : before ++ advancing i ∷ after ≡ past
    pub stands : (run before (create dummy)).threads i ≡ with_tail head tail
    pub last : (run before (create dummy)).next head ≡ none
    pub since : goes_on i after ≡ n

  -- What is known of the thread by where it stands.
  abbrev pub At : List Move → Local → Type 0
  At past (with_next head tail none) = Seen past head tail 0
  At past found_none = (head tail : ℕ) × Seen past head tail 1
  At past _ = Unit {0}

  Seen-append :
      (past : List Move) (head tail n k : ℕ) (m : Move)
      → goes_on i (m ∷ []) + n ≡ k
      → Seen past head tail n
      → Seen (past ++ m ∷ []) head tail k
  Seen-append past head tail n k m more w = record {
    before = w.before;
    after = w.after ++ m ∷ [];
    there =
        sym (append_assoc w.before (advancing i ∷ w.after) (m ∷ []))
        ∙ ap (λ l. l ++ m ∷ []) w.there;
    stands = w.stands;
    last = w.last;
    since = omega (arith, goes_on-append i w.after (m ∷ []), w.since, more);
  }

  pub At-append :
      (past : List Move) (m : Move) (l : Local)
      → goes_on i (m ∷ []) ≡ 0
      → At past l
      → At (past ++ m ∷ []) l
  At-append past m (with_next head tail none) e a =
      Seen-append past head tail 0 0 m (omega (arith, e)) a
  At-append past m found_none e (head, tail, a) =
      (head, tail, Seen-append past head tail 1 1 m (omega (arith, e)) a)
  At-append past m (with_next head tail (some node)) e a = tt
  At-append past m _ e a = tt

  At-update :
      (past : List Move) (threads : ℕ → Local) (l : Local)
      → At past l
      → At past (update threads i l i)
  At-update past threads l a = subst (At past) (sym (update_at threads i l)) a

  At-swung :
      (past : List Move) (s : AtomicQueue) (tail node : ℕ) (l : Local)
      → At past l
      → At past ((swung s i tail node l).threads i)
  At-swung past s tail node l a =
      if_cases (λ (t : AtomicQueue). At past (t.threads i)) (s.tail == tail)
        (record s { tail = node; threads = update s.threads i l }) (goes s i l)
        (λ e. At-update past s.threads l a) (λ e. At-update past s.threads l a)

  At-linked :
      (past : List Move) (s : AtomicQueue) (node tail : ℕ) (o : Option ℕ)
      → At past ((linked s i node tail o).threads i)
  At-linked past s node tail none = At-update past s.threads (swing_tail node tail) tt
  At-linked past s node tail (some other) = At-update past s.threads (load_tail node) tt

  At-moved :
      (past : List Move) (s : AtomicQueue) (head node : ℕ)
      → At past ((moved s i head node).threads i)
  At-moved past s head node =
      if_cases (λ (t : AtomicQueue). At past (t.threads i)) (s.head == head)
        (record s {
          head = node;
          data_of = update s.data_of node 0;
          threads = update s.threads i idle;
          got = s.got ++ s.data_of node ∷ [];
          retired = head ∷ s.retired;
        })
        (goes s i load_head) (λ e. At-update past s.threads idle tt)
        (λ e. At-update past s.threads load_head tt)

  At-after_next :
      (past : List Move) (node tail : ℕ) (o : Option ℕ) → At past (after_next node tail o)
  At-after_next past node tail none = tt
  At-after_next past node tail (some other) = tt

  At-past_check : (past : List Move) (head : ℕ) (o : Option ℕ) → At past (past_check head o)
  At-past_check past head none = tt
  At-past_check past head (some node) = tt

  one_more : goes_on i (advancing i ∷ []) ≡ 1
  unfolding goes_on
  one_more = ground arith

  At-seen :
      (past : List Move) (head tail : ℕ) (o : Option ℕ)
      → At past (with_next head tail o)
      → At (past ++ advancing i ∷ []) (seen head tail o)
  At-seen past head tail none a =
      if_cases (At (past ++ advancing i ∷ [])) (head == tail) found_none
        (check_again head tail none)
        (λ e.
          (head, tail, Seen-append past head tail 0 1 (advancing i) (omega (arith, one_more)) a))
        (λ e. tt)
  At-seen past head tail (some node) a =
      if_cases (At (past ++ advancing i ∷ [])) (head == tail) (help_head tail node)
        (check_again head tail (some node)) (λ e. tt) (λ e. tt)

  At-loaded :
      (past : List Move) (head tail : ℕ) (o : Option ℕ)
      → (run past (create dummy)).threads i ≡ with_tail head tail
      → (run past (create dummy)).next head ≡ o
      → At (past ++ advancing i ∷ []) (with_next head tail o)
  At-loaded past head tail (some node) e n = tt
  At-loaded past head tail none e n = record {
    before = past;
    after = [];
    there = refl;
    stands = e;
    last = n;
    since = unfold goes_on in refl;
  }

  -- The thread goes on.
  pub advance-At :
      (past : List Move) (l : Local)
      → (run past (create dummy)).threads i ≡ l
      → At past l
      → At (past ++ advancing i ∷ []) ((advance l i (run past (create dummy))).threads i)
  unfolding advance
  advance-At past idle e a = subst (At (past ++ advancing i ∷ [])) (sym e) tt
  advance-At past (load_tail node) e a =
      let s = run past (create dummy) in
      At-update (past ++ advancing i ∷ []) s.threads (load_next node s.tail) tt
  advance-At past (load_next node tail) e a =
      let s = run past (create dummy) in
      At-update (past ++ advancing i ∷ []) s.threads (after_next node tail (s.next tail))
        (At-after_next (past ++ advancing i ∷ []) node tail (s.next tail))
  advance-At past (help_tail node tail other) e a =
      At-swung (past ++ advancing i ∷ []) (run past (create dummy)) tail other (load_tail node) tt
  advance-At past (check_tail node tail) e a =
      let s = run past (create dummy) in
      At-update (past ++ advancing i ∷ []) s.threads _ (
        if_cases (At (past ++ advancing i ∷ [])) (s.tail == tail) (check_state node tail)
          (load_tail node) (λ e. tt) (λ e. tt))
  advance-At past (check_state node tail) e a =
      let s = run past (create dummy) in
      At-update (past ++ advancing i ∷ []) s.threads _ (
        if_cases (At (past ++ advancing i ∷ [])) s.running (link_node node tail) idle (λ e. tt)
          (λ e. tt))
  advance-At past (link_node node tail) e a =
      let s = run past (create dummy) in
      At-linked (past ++ advancing i ∷ []) s node tail (s.next tail)
  advance-At past (swing_tail node tail) e a =
      At-swung (past ++ advancing i ∷ []) (run past (create dummy)) tail node idle tt
  advance-At past load_head e a =
      let s = run past (create dummy) in
      At-update (past ++ advancing i ∷ []) s.threads (with_head s.head) tt
  advance-At past (with_head head) e a =
      let s = run past (create dummy) in
      At-update (past ++ advancing i ∷ []) s.threads (with_tail head s.tail) tt
  advance-At past (with_tail head tail) e a =
      let s = run past (create dummy) in
      At-update (past ++ advancing i ∷ []) s.threads (with_next head tail (s.next head))
        (At-loaded past head tail (s.next head) e refl)
  advance-At past (with_next head tail next) e a =
      let s = run past (create dummy) in
      At-update (past ++ advancing i ∷ []) s.threads _ (
        if_cases (At (past ++ advancing i ∷ [])) s.running (seen head tail next) idle
          (λ e. At-seen past head tail next a) (λ e. tt))
  advance-At past (help_head tail node) e a =
      At-swung (past ++ advancing i ∷ []) (run past (create dummy)) tail node load_head tt
  advance-At past (check_again head tail next) e a =
      let s = run past (create dummy) in
      At-update (past ++ advancing i ∷ []) s.threads _ (
        if_cases (At (past ++ advancing i ∷ [])) (s.tail == tail) (past_check head next) load_head
          (λ e. At-past_check (past ++ advancing i ∷ []) head next) (λ e. tt))
  advance-At past (move_head head node) e a =
      At-moved (past ++ advancing i ∷ []) (run past (create dummy)) head node
  advance-At past found_none e a =
      At-update (past ++ advancing i ∷ []) (run past (create dummy)).threads idle tt
