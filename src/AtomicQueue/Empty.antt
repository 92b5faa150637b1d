-- ===== src/AtomicQueue/Empty.antt =====
-- `clog_atomic_queue_dequeue_internal` when it finds nothing: when the queue was empty.
use casca_log.Base.{
  ℕ, ◌≡◌, refl, sym, false, Option, none, some, List, [], ◌∷◌, ◌++◌, if◌then◌else◌, ◌==◌, if_cases,
  update, update_other, update_same, Bool-cases, inl, inr, arith,
}
use mathlib.Core.Path.{subst}
use mathlib.Core.List.{append_assoc, append-nil}
use casca_log.AtomicQueue.{
  Local, idle, load_tail, load_next, check_tail, check_state, link_node, help_tail, swing_tail,
  load_head, with_head, with_tail, with_next, help_head, check_again, move_head, found_none,
  AtomicQueue, create, goes, begun, begin_at, linked, swung, advance, dequeue_at, Move, enqueuing,
  dequeuing, advancing, finalizing, step, run,
}
use casca_log.AtomicQueue.Fifo.{run-none}
use casca_log.AtomicQueue.Seen.{goes_on, At, At-append, advance-At}

run-append : (ms ns : List Move) (s : AtomicQueue) → run (ms ++ ns) s ≡ run ns (run ms s)
unfolding run
run-append [] ns s = refl
run-append (m ∷ ms) ns s = run-append ms ns (step m s)

swung_other :
    (i : ℕ) (s : AtomicQueue) (j tail node : ℕ) (l : Local)
    → (i == j) ≡ false
    → (swung s j tail node l).threads i ≡ s.threads i
swung_other i s j tail node l n =
    if_cases (λ (t : AtomicQueue). t.threads i ≡ s.threads i) (s.tail == tail)
      (record s { tail = node; threads = update s.threads j l }) (goes s j l)
      (λ e. update_other s.threads j l i n) (λ e. update_other s.threads j l i n)

module _ (dummy i : ℕ) where
  -- Another thread goes on.
  advance_other :
      (l : Local) (j : ℕ) (s : AtomicQueue)
      → (i == j) ≡ false
      → (advance l j s).threads i ≡ s.threads i
  unfolding advance
  advance_other idle j s n = refl
  advance_other (link_node node tail) j s n = linked_other (s.next tail)
    where
      linked_other : (o : Option ℕ) → (linked s j node tail o).threads i ≡ s.threads i
      linked_other none = update_other s.threads j (swing_tail node tail) i n
      linked_other (some other) = update_other s.threads j (load_tail node) i n
  advance_other (help_tail node tail other) j s n = swung_other i s j tail other (load_tail node) n
  advance_other (swing_tail node tail) j s n = swung_other i s j tail node idle n
  advance_other (help_head tail node) j s n = swung_other i s j tail node load_head n
  advance_other (move_head head node) j s n =
      if_cases (λ (t : AtomicQueue). t.threads i ≡ s.threads i) (s.head == head)
        (record s {
          head = node;
          data_of = update s.data_of node 0;
          threads = update s.threads j idle;
          got = s.got ++ s.data_of node ∷ [];
          retired = head ∷ s.retired;
        })
        (goes s j load_head) (λ e. update_other s.threads j idle i n)
        (λ e. update_other s.threads j load_head i n)
  advance_other (load_tail node) j s n = update_other s.threads j _ i n
  advance_other (load_next node tail) j s n = update_other s.threads j _ i n
  advance_other (check_tail node tail) j s n = update_other s.threads j _ i n
  advance_other (check_state node tail) j s n = update_other s.threads j _ i n
  advance_other load_head j s n = update_other s.threads j _ i n
  advance_other (with_head head) j s n = update_other s.threads j _ i n
  advance_other (with_tail head tail) j s n = update_other s.threads j _ i n
  advance_other (with_next head tail next) j s n = update_other s.threads j _ i n
  advance_other (check_again head tail next) j s n = update_other s.threads j _ i n
  advance_other found_none j s n = update_other s.threads j _ i n

  -- A thread comes to stand somewhere.
  goes-At :
      (past : List Move) (m : Move) (s : AtomicQueue) (j : ℕ) (l : Local)
      → goes_on i (m ∷ []) ≡ 0
      → At dummy i (past ++ m ∷ []) l
      → At dummy i past (s.threads i)
      → At dummy i (past ++ m ∷ []) (update s.threads j l i)
  goes-At past m s j l z there a = elim (Bool-cases (i == j)) [
    | inl y ↦ subst (At dummy i (past ++ m ∷ [])) (sym (update_same s.threads j l i y)) there
    | inr n ↦
        subst (At dummy i (past ++ m ∷ [])) (sym (update_other s.threads j l i n))
          (At-append dummy i past m (s.threads i) z a)
  ]

  begin_at-At :
      (past : List Move) (m : Move) (l : Local) (s : AtomicQueue) (j node d : ℕ)
      → goes_on i (m ∷ []) ≡ 0
      → At dummy i past (s.threads i)
      → At dummy i (past ++ m ∷ []) ((begin_at l s j node d).threads i)
  begin_at-At past m idle s j node d z a =
      let P = λ (t : AtomicQueue). At dummy i (past ++ m ∷ []) (t.threads i) in
      let same = At-append dummy i past m (s.threads i) z a in
      if_cases P s.running (if s.used node then s else begun s j node d) s
        (λ on.
          if_cases P (s.used node) s (begun s j node d) (λ old. same)
            (λ fresh. goes-At past m s j (load_tail node) z tt a))
        (λ stopped. same)
  begin_at-At past m _ s j node d z a = At-append dummy i past m (s.threads i) z a

  dequeue_at-At :
      (past : List Move) (m : Move) (l : Local) (s : AtomicQueue) (j : ℕ)
      → goes_on i (m ∷ []) ≡ 0
      → At dummy i past (s.threads i)
      → At dummy i (past ++ m ∷ []) ((dequeue_at l s j).threads i)
  dequeue_at-At past m idle s j z a =
      if_cases (λ (t : AtomicQueue). At dummy i (past ++ m ∷ []) (t.threads i)) s.running
        (goes s j load_head) s (λ on. goes-At past m s j load_head z tt a)
        (λ stopped. At-append dummy i past m (s.threads i) z a)
  dequeue_at-At past m _ s j z a = At-append dummy i past m (s.threads i) z a

  step-At :
      (past : List Move) (m : Move)
      → At dummy i past ((run past (create dummy)).threads i)
      → At dummy i (past ++ m ∷ []) ((step m (run past (create dummy))).threads i)
  unfolding step goes_on
  step-At past (enqueuing j node d) a =
      let s = run past (create dummy) in
      begin_at-At past (enqueuing j node d) (s.threads j) s j node d refl a
  step-At past (dequeuing j) a =
      let s = run past (create dummy) in dequeue_at-At past (dequeuing j) (s.threads j) s j refl a
  step-At past finalizing a =
      At-append dummy i past finalizing ((run past (create dummy)).threads i) refl a
  step-At past (advancing j) a =
      let s = run past (create dummy) in
      elim (Bool-cases (i == j)) [
        | inl y ↦
            let same : i ≡ j = ground (arith, y) in
            subst
              (λ k. At dummy i (past ++ advancing k ∷ []) ((advance (s.threads k) k s).threads i))
              same (advance-At dummy i past (s.threads i) refl a)
        | inr n ↦
            subst (At dummy i (past ++ advancing j ∷ [])) (sym (advance_other (s.threads j) j s n))
              (At-append dummy i past (advancing j) (s.threads i) (rw n refl) a)
      ]

  run-At :
      (past ms : List Move)
      → At dummy i past ((run past (create dummy)).threads i)
      → At dummy i (past ++ ms) ((run (past ++ ms) (create dummy)).threads i)
  unfolding run
  run-At past [] a =
      subst (λ l. At dummy i l ((run l (create dummy)).threads i)) (sym (append-nil past)) a
  run-At past (m ∷ ms) a =
      let here =
        subst (λ (s : AtomicQueue). At dummy i (past ++ m ∷ []) (s.threads i))
          (sym (run-append past (m ∷ []) (create dummy))) (step-At past m a) in
      subst (λ l. At dummy i l ((run l (create dummy)).threads i)) (append_assoc past (m ∷ []) ms)
        (run-At (past ++ m ∷ []) ms here)

-- After any moves of any threads, in any order, on a queue that was created, a thread is about to return
-- CLOG_TARGET_NOT_FOUND: then it went on twice since a state in which all values that had been enqueued
-- had been dequeued, the first time by loading the next pointer of its head, which was NULL.
pub run-found_none :
    (dummy i : ℕ) (ms : List Move)
    → (run ms (create dummy)).threads i ≡ found_none
    → (before after : List Move) × (head tail : ℕ) × (before ++ advancing i ∷ after ≡ ms)
      × ((run before (create dummy)).threads i ≡ with_tail head tail)
      × ((run before (create dummy)).next head ≡ none)
      × (goes_on i after ≡ 1)
      × ((run before (create dummy)).got ≡ (run before (create dummy)).put)
unfolding create run
run-found_none dummy i ms e =
    let (head, tail, w) = subst (At dummy i ms) e (run-At dummy i [] ms tt) in
    (
      w.before,
      w.after,
      head,
      tail,
      w.there,
      w.stands,
      w.last,
      w.since,
      run-none dummy w.before i head tail w.stands w.last,
    )
