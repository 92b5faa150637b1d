-- ===== src/AtomicQueue/Gc.antt =====
-- When the threads of source/utils/clog_atomic_queue.c poll to free nodes: clog_atomic_queue_gc.
use Prim.Native.Nat.{bit_and}
use casca_log.Base.{ℕ, ◌≡◌, refl, Bool, true, false, not, List, [], ◌∷◌, if◌then◌else◌, leb}

-- `clog_atomic_queue_bias_e`.
data Bias : Type 0 where
  no_bias biased_enqueue biased_dequeue any_bias : Bias

-- Whether a handle polls in an operation, beyond the threshold.
abbrev polls_in : Bias → Bool → Bool
polls_in no_bias is_enqueue = false
polls_in biased_enqueue is_enqueue = is_enqueue
polls_in biased_dequeue is_enqueue = not is_enqueue
polls_in any_bias is_enqueue = true

-- `clog_atomic_queue_gc`, of `release_num`: whether it polls, and what it leaves.
unfoldable gc : Bias → Bool → ℕ → Bool × ℕ
gc bias is_enqueue n =
    if leb n 128 then (false, n) else if polls_in bias is_enqueue then (true, 0) else (false, n)

-- The end of `clog_atomic_queue_dequeue` after a success.
abbrev count_release : ℕ → ℕ
count_release n = bit_and n 1

-- What threads do to `release_num`: the start of an operation, or the end of a dequeue.
data Access : Type 0 where
  starting : Bias → Bool → Access
  released : Access

-- Whether any of some accesses, in a row, polls.
unfoldable any_poll : List Access → ℕ → Bool
any_poll [] n = false
any_poll (starting bias is_enqueue ∷ xs) n =
    let later = any_poll xs (gc bias is_enqueue n).1 in
    if (gc bias is_enqueue n).0 then true else later
any_poll (released ∷ xs) n = any_poll xs (count_release n)

-- From the 0 of `clog_atomic_queue_create`, whatever operations begin and however many dequeues succeed:
-- no thread polls.
any_poll_none : (xs : List Access) → any_poll xs 0 ≡ false
unfolding any_poll gc
any_poll_none [] = refl
any_poll_none (starting bias is_enqueue ∷ xs) = any_poll_none xs
any_poll_none (released ∷ xs) = any_poll_none xs
