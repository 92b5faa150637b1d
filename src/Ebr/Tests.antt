-- ===== src/Ebr/Tests.antt =====
-- Small runs of the epochs of source/utils/clog_ebr.c, and the theorems at them.
use casca_log.Base.{
  ℕ, if◌then◌else◌, ◌==◌, ◌≡◌, refl, true, List, [], ◌∷◌, ◌++◌, ◌<◌, arith, false, update,
}
use casca_log.Ebr.{
  normal, idle, Ebr, Move, registers, loads, swaps, exits, defers, pushes, starts, frees, clears,
  scans, create, step, run, register, enter_load, enter_swap, exit, defer_release, defer_push,
  poll_start, poll_free, poll_clear, poll_scan, is_active, same_state, check_enter,
}
use casca_log.Ebr.Grace.{IsSafe}
use casca_log.Ebr.Polls.{run-IsSafe}
use casca_log.Ebr.Progress.{freed_after, whole_poll, freed_after, run-whole_poll}

-- Two threads; both enter, and the second defers the release of 7.
abbrev retire_7 : List Move
retire_7 =
    registers
    ∷ registers
    ∷ loads 0
    ∷ swaps 0
    ∷ loads 1
    ∷ swaps 1
    ∷ defers 1 7 true
    ∷ pushes 1
    ∷ exits 1
    ∷ []

abbrev poll_moves : List Move
poll_moves = starts ∷ frees ∷ clears ∷ scans ∷ scans ∷ scans ∷ []

-- While the first is active, no poll frees it.
not_freed :
    (run (retire_7 ++ poll_moves ++ poll_moves ++ poll_moves ++ poll_moves) create).freed ≡ []
unfolding run step register enter_load enter_swap exit defer_release defer_push poll_start poll_free
    poll_clear poll_scan update is_active same_state check_enter
not_freed = refl

-- Once it has left, the third poll does.
freed_later :
    (run (retire_7 ++ exits 0 ∷ poll_moves ++ poll_moves ++ poll_moves) create).freed ≡ 7 ∷ []
unfolding run step register enter_load enter_swap exit defer_release defer_push poll_start poll_free
    poll_clear poll_scan update is_active same_state check_enter
freed_later = refl

run-IsSafe_example :
    IsSafe
      (run (retire_7 ++ exits 0 ∷ poll_moves ++ poll_moves ++ starts ∷ []) create)
      (run (retire_7 ++ exits 0 ∷ poll_moves ++ poll_moves ++ starts ∷ []) create).poll
run-IsSafe_example = run-IsSafe (retire_7 ++ exits 0 ∷ poll_moves ++ poll_moves ++ starts ∷ [])

-- One thread, which is not active, and two entries in the list that is freed first.
abbrev ready : Ebr
ready = record create {
  count = 1;
  memory = λ j.
      if j == 1 then record { ptr = 7; since = 0 } ∷ record { ptr = 8; since = 0 } ∷ [] else [];
}

ready_quiet : (i : ℕ) → i < 1 → is_active (ready.threads i) ≡ false
unfolding is_active
ready_quiet i l = refl

run-whole_poll_example : run (whole_poll ready) ready ≡ record ready {
  state = normal;
  poll = idle;
  freed = 8 ∷ 7 ∷ [];
  memory = update ready.memory 1 [];
  epoch = 1;
}
unfolding freed_after
run-whole_poll_example = run-whole_poll ready refl (omega arith) (omega arith) ready_quiet
