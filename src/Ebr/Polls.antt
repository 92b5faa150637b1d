-- ===== src/Ebr/Polls.antt =====
-- What `clog_ebr_poll` of source/utils/clog_ebr.c frees, after any moves of the threads.
use casca_log.Base.{
  ℕ, zero, suc, ◌+◌, ◌%◌, ◌<◌, ◌≡◌, refl, ap, false, List, [], ◌∷◌, ◌==◌, arith, Bool-cases, inl,
  inr, update,
}
use mathlib.Core.Path.{subst}
use casca_log.Ebr.{
  GlobalState, normal, gc, ended, active, MemoryNode, Poll, idle, freeing, scanning, Ebr, create,
  is_active, free_index, start_in, free_in, clear_in, scan_in, poll_start, poll_free, poll_clear,
  poll_scan, Move, registers, loads, swaps, exits, unregisters, defers, pushes, retries, starts,
  frees, clears, scans, step, run, num_epochs,
}
use casca_log.Ebr.Grace.{
  Late, IsSafe, Seen, Waits, IsGraceful, AllWait-map, RetiringWaits-map, AllWait-Late, StaysLate,
  Seen-map, IsSafe-map, register-IsGraceful, enter_load-IsGraceful, exit-IsGraceful,
  unregister-IsGraceful, enter_swap-IsGraceful,
}
use casca_log.Ebr.Release.{
  update-AllWait, with_lists-IsGraceful, defer_release-IsGraceful, defer_push-IsGraceful,
  defer_retry-IsGraceful,
}

pub free_index_next : (e : ℕ) → e < 3 → free_index e ≡ (e + 1) % 3
free_index_next e l = omega (arith, l)

-- The poll goes on, in the same epoch.
with_poll-IsGraceful :
    (s : Ebr) (state : GlobalState) (p : Poll) (freed : List ℕ)
    → ((x : MemoryNode) → Seen s x s.poll → Seen s x p)
    → IsSafe s p
    → IsGraceful s
    → IsGraceful (record s { state = state; poll = p; freed = freed })
with_poll-IsGraceful s state p freed h i g =
    let t : Ebr = record s { state = state; poll = p; freed = freed } in
    let f : StaysLate s t = λ x k l h. h in
    let m : ((j : ℕ) (x : MemoryNode) → Waits s j x → Waits t j x) =
      λ j x (l, a, b). (l, a, λ e. Seen-map s t (omega arith) f x p l (h x (b e))) in
    record {
      bounded = g.bounded;
      waiting = λ j. AllWait-map s t j (s.memory j) (m j) (g.waiting j);
      coming = λ i. RetiringWaits-map s t (s.retiring i) m (g.coming i);
      safe = IsSafe-map s t (omega arith) f p i;
    }

start_in-IsGraceful : (t : GlobalState) (s : Ebr) → IsGraceful s → IsGraceful (start_in t s)
start_in-IsGraceful normal s g =
    with_poll-IsGraceful s gc (freeing (s.memory (free_index s.epoch))) s.freed (λ x h. tt)
      (AllWait-Late s (free_index s.epoch) (s.memory (free_index s.epoch))
        (free_index_next s.epoch g.bounded) (g.waiting (free_index s.epoch)))
      g
start_in-IsGraceful gc s g = g
start_in-IsGraceful ended s g = g

free_in-IsGraceful : (p : Poll) (s : Ebr) → IsSafe s p → IsGraceful s → IsGraceful (free_in p s)
free_in-IsGraceful idle s h g = g
free_in-IsGraceful (freeing []) s h g = g
free_in-IsGraceful (freeing (x ∷ xs)) s (l, a, hs) g =
    with_poll-IsGraceful s s.state (freeing xs) (x.ptr ∷ s.freed) (λ y i. tt) hs g
free_in-IsGraceful (scanning k) s h g = g

-- Before the first thread is seen.
none_seen : (s : Ebr) (x : MemoryNode) → Late s.count s x
none_seen s x i l m a = absurd (omega (arith, l, m))

clear_in-IsGraceful : (p : Poll) (s : Ebr) → IsGraceful s → IsGraceful (clear_in p s)
clear_in-IsGraceful idle s g = g
clear_in-IsGraceful (freeing []) s g =
    let cleared = update s.memory (free_index s.epoch) [] in
    let t : Ebr = record s { memory = cleared } in
    let c : IsGraceful t =
      with_lists-IsGraceful s cleared s.retiring s.freed
        (update-AllWait s s.memory (free_index s.epoch) [] g.waiting tt) g.coming g in
    elim (Bool-cases (s.count == 0)) [
      | inl y ↦ rw (y, clear_in) (with_poll-IsGraceful t normal idle s.freed (λ x h. tt) tt c)
      | inr n ↦
          rw (n, clear_in)
            (with_poll-IsGraceful t s.state (scanning s.count) s.freed (λ x h. none_seen t x) tt c)
    ]
clear_in-IsGraceful (freeing (x ∷ xs)) s g = g
clear_in-IsGraceful (scanning k) s g = g

-- When all threads are seen, the next epoch begins.
next_epoch-Waits :
    (s : Ebr) (state : GlobalState) (j : ℕ) (x : MemoryNode)
    → s.epoch < 3
    → s.poll ≡ scanning 0
    → Waits s j x
    → Waits (record s { epoch = (s.epoch + 1) % num_epochs; poll = idle; state = state }) j x
next_epoch-Waits s state j x d p (l, a, b) =
    (l, λ e. subst (Seen s x) p (b (omega (arith, e, d))), λ e. tt)

next_epoch-IsGraceful :
    (s : Ebr)
    → s.poll ≡ scanning 0
    → IsGraceful s
    → IsGraceful (record s { epoch = (s.epoch + 1) % num_epochs; poll = idle; state = normal })
next_epoch-IsGraceful s p g =
    let t : Ebr = record s { epoch = (s.epoch + 1) % num_epochs; poll = idle; state = normal } in
    let m : ((j : ℕ) (x : MemoryNode) → Waits s j x → Waits t j x) =
      λ j x. next_epoch-Waits s normal j x g.bounded p in
    record {
      bounded = omega (arith);
      waiting = λ j. AllWait-map s t j (s.memory j) (m j) (g.waiting j);
      coming = λ i. RetiringWaits-map s t (s.retiring i) m (g.coming i);
      safe = tt;
    }

-- A thread that is seen is not active.
see_one :
    (s : Ebr) (x : MemoryNode) (k : ℕ)
    → is_active (s.threads k) ≡ false
    → Late (suc k) s x
    → Late k s x
unfolding is_active
see_one s x k n h i l m a = elim (Bool-cases (i == k)) [
  | inl y ↦
      let e : i ≡ k = ground (arith, y) in
      let c : s.threads k ≡ active = subst (λ j. s.threads j ≡ active) e a in
      let d = ap is_active c in absurd cc
  | inr d ↦ h i (ground (arith, d, l)) m a
]

scan_in-IsGraceful : (p : Poll) (s : Ebr) → s.poll ≡ p → IsGraceful s → IsGraceful (scan_in p s)
scan_in-IsGraceful idle s e g = g
scan_in-IsGraceful (freeing rest) s e g = g
scan_in-IsGraceful (scanning zero) s e g = next_epoch-IsGraceful s e g
scan_in-IsGraceful (scanning (suc k)) s e g = elim (Bool-cases (is_active (s.threads k))) [
  | inl y ↦ rw (y, scan_in) (with_poll-IsGraceful s normal idle s.freed (λ x h. tt) tt g)
  | inr n ↦
      rw (n, scan_in)
        (with_poll-IsGraceful s s.state (scanning k) s.freed
          (λ x h. see_one s x k n (subst (Seen s x) e h)) tt g)
]

step-IsGraceful : (m : Move) (s : Ebr) → IsGraceful s → IsGraceful (step m s)
unfolding step poll_start poll_free poll_clear poll_scan
step-IsGraceful registers s g = register-IsGraceful s g
step-IsGraceful (loads i) s g = enter_load-IsGraceful i s g
step-IsGraceful (swaps i) s g = enter_swap-IsGraceful i s g
step-IsGraceful (exits i) s g = exit-IsGraceful i s g
step-IsGraceful (unregisters i) s g = unregister-IsGraceful i s g
step-IsGraceful (defers i ptr malloc) s g = defer_release-IsGraceful i ptr malloc s g
step-IsGraceful (pushes i) s g = defer_push-IsGraceful i s g
step-IsGraceful (retries i) s g = defer_retry-IsGraceful i s g
step-IsGraceful starts s g = start_in-IsGraceful s.state s g
step-IsGraceful frees s g = free_in-IsGraceful s.poll s g.safe g
step-IsGraceful clears s g = clear_in-IsGraceful s.poll s g
step-IsGraceful scans s g = scan_in-IsGraceful s.poll s refl g

run-IsGraceful : (ms : List Move) (s : Ebr) → IsGraceful s → IsGraceful (run ms s)
unfolding run
run-IsGraceful [] s g = g
run-IsGraceful (m ∷ ms) s g = run-IsGraceful ms (step m s) (step-IsGraceful m s g)

create-IsGraceful : IsGraceful create
create-IsGraceful = record { bounded = omega arith; waiting = λ j. tt; coming = λ i. tt; safe = tt }

-- After any moves of the threads, in any order, each entry that a poll is about to free was deferred
-- before every thread that is active now last entered: no thread that was active when the release was
-- deferred has stayed so.
pub run-IsSafe : (ms : List Move) → IsSafe (run ms create) (run ms create).poll
run-IsSafe ms = (run-IsGraceful ms create create-IsGraceful).safe
