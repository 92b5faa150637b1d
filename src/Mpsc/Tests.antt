-- ===== src/Mpsc/Tests.antt =====
-- Small runs of source/utils/clog_atomic_mpsc_queue.c, and the theorems at them.
use casca_log.Base.{
  ℕ, ◌≤◌, ◌≡◌, refl, some, List, [], ◌∷◌, ◌++◌, update, to_nat, length, suc, arith, Bool-cases, inl,
  inr, ◌==◌,
}
use casca_log.Mpsc.{
  create, exchange, store_link, out_load, out_take, Move, exchanging, storing, loading, taking_out,
  step, run, touches, destroy,
}
use casca_log.Mpsc.Fifo.{run-order}
use casca_log.Mpsc.Memory.{AllLive, run-AllLive, IsQuiet, count, destroy_once}
use casca_log.Mpsc.Drain.{outs, outs-put}

-- Two producers exchange, and the second stores first: the consumer finds nothing until the first
-- does. The node of the dummy, once free, is used again.
abbrev overtaken : List Move
overtaken = exchanging 0 11 70 ∷ exchanging 1 12 80 ∷ storing 1 ∷ loading ∷ taking_out ∷ []

abbrev reused : List Move
reused =
    overtaken ++ storing 0 ∷ loading ∷ taking_out ∷ exchanging 1 10 90 ∷ loading ∷ storing 1 ∷ []

nothing_yet : (run overtaken (create 10)).got ≡ []
unfolding run step create exchange store_link out_load out_take update
nothing_yet = refl

first_taken : (run reused (create 10)).got ≡ 70 ∷ []
unfolding run step create exchange store_link out_load out_take update
first_taken = refl

first_part :
    (waiting : List ℕ) × ((run reused (create 10)).got ++ waiting ≡ (run reused (create 10)).put)
first_part = run-order 10 reused

run-AllLive_example : AllLive (run reused (create 10)) (touches taking_out (run reused (create 10)))
run-AllLive_example = run-AllLive 10 reused taking_out

-- Nobody is under way after the second load has been taken.
idle_at : IsQuiet (run reused (create 10))
unfolding run step create exchange store_link out_load out_take update
idle_at i = elim (Bool-cases (i == 1)) [
  | inl a ↦ rw a refl
  | inr a ↦ elim (Bool-cases (i == 0)) [ inl b ↦ rw (a, b) refl | inr b ↦ rw (a, b) refl ]
]

three : length (run reused (create 10)).put ≤ 3
unfolding run step create exchange store_link out_load out_take update
three = omega arith

abbrev reused_nodes : List ℕ
reused_nodes =
    destroy (suc (length (run reused (create 10)).put)) (run reused (create 10)).next
      (some (run reused (create 10)).head)

destroy_once_example : count 12 reused_nodes ≡ to_nat ((run reused (create 10)).allocated 12)
destroy_once_example = destroy_once 10 reused 12 idle_at

outs-put_example : (outs 3 (run reused (create 10))).got ≡ (run reused (create 10)).put
outs-put_example = outs-put 10 reused 3 idle_at three
