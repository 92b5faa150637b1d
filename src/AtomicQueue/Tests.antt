-- ===== src/AtomicQueue/Tests.antt =====
-- Small runs of source/utils/clog_atomic_queue.c, and the theorems at them.
use casca_log.Base.{ℕ, zero, suc, ◌≤◌, ◌≡◌, refl, none, List, [], ◌∷◌, ◌++◌, update}
use casca_log.AtomicQueue.{
  with_tail, found_none, create, advance, Move, enqueuing, dequeuing, advancing, step, run,
}
use casca_log.Mpsc.Memory.{count}
use casca_log.AtomicQueue.Retired.{run_retired}
use casca_log.AtomicQueue.Fifo.{run-prefix}
use casca_log.AtomicQueue.Seen.{goes_on}
use casca_log.AtomicQueue.Empty.{run-found_none}

-- A thread goes on so many times.
abbrev repeat : ℕ → ℕ → List Move
repeat zero i = []
repeat (suc n) i = advancing i ∷ repeat n i

-- One thread links its node and stops before the tail; another helps it, and enqueues too.
abbrev helped : List Move
helped = enqueuing 0 11 70 ∷ repeat 5 0 ++ enqueuing 1 12 80 ∷ repeat 9 1

-- A third dequeues a value.
abbrev dequeued : List Move
dequeued = helped ++ dequeuing 2 ∷ repeat 6 2

two_put : (run helped (create 10)).put ≡ 70 ∷ 80 ∷ []
unfolding run step create advance update
two_put = refl

one_got : (run dequeued (create 10)).got ≡ 70 ∷ []
unfolding run step create advance update
one_got = refl

run-prefix_example :
    (waiting : List ℕ) × ((run dequeued (create 10)).got ++ waiting
      ≡ (run dequeued (create 10)).put)
run-prefix_example = run-prefix 10 dequeued

-- Both are dequeued, and the thread tries again.
abbrev drained : List Move
drained = dequeued ++ dequeuing 2 ∷ repeat 6 2 ++ dequeuing 2 ∷ repeat 2 2

-- Before it returns that there is none, another enqueues a value.
abbrev overtaken : List Move
overtaken = drained ++ advancing 2 ∷ enqueuing 3 13 90 ∷ repeat 5 3 ++ advancing 2 ∷ []

third_try : (run overtaken (create 10)).threads 2 ≡ found_none
unfolding run step create advance update
third_try = refl

run-found_none_example :
    (before after : List Move) × (head tail : ℕ) × (before ++ advancing 2 ∷ after ≡ overtaken)
    × ((run before (create 10)).threads 2 ≡ with_tail head tail)
    × ((run before (create 10)).next head ≡ none)
    × (goes_on 2 after ≡ 1)
    × ((run before (create 10)).got ≡ (run before (create 10)).put)
run-found_none_example = run-found_none 10 2 overtaken third_try

run_retired_example :
    (count 10 (run drained (create 10)).retired ≤ 1)
    × (count (run drained (create 10)).head (run drained (create 10)).retired ≡ 0)
    × (count (run drained (create 10)).tail (run drained (create 10)).retired ≡ 0)
run_retired_example = run_retired 10 drained 10
