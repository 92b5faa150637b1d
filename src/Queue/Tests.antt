-- ===== src/Queue/Tests.antt =====
-- A queue of two nodes, and the theorems at it.
use casca_log.Base.{
  ◌≡◌, refl, none, some, [], ◌∷◌, if◌then◌else◌, ◌==◌, arith, success, ◌↔◌, List, ℕ, true,
}
use casca_log.Queue.{Queue, Nodes, enqueue, dequeue, peek, is_empty, queue_size}
use casca_log.Queue.Fifo.{Holds, values, enqueue-Holds, dequeue-Holds, peek-Holds}

-- Node 10 holds 7, and node 20 holds 8.
abbrev two : Queue
two = record { head = some 10; tail = some 20; size = 2 }

abbrev nodes : Nodes
nodes = record {
  next = λ n. if n == 10 then some 20 else none;
  data_of = λ n. if n == 10 then 7 else 8;
}

two-Holds : Holds two nodes (10 ∷ 20 ∷ []) (7 ∷ 8 ∷ [])
unfolding values
two-Holds = record {
  linked = (refl, (refl, refl, refl));
  apart = ((omega arith, tt), (tt, tt));
  counted = refl;
  stored = refl;
}

enqueue-Holds_example :
    ((enqueue two nodes (some 30) 9).0 ≡ success)
    × Holds
        (enqueue two nodes (some 30) 9).1
        (enqueue two nodes (some 30) 9).2
        (10 ∷ 20 ∷ 30 ∷ [])
        (7 ∷ 8 ∷ 9 ∷ [])
enqueue-Holds_example =
    enqueue-Holds two nodes 30 9 (10 ∷ 20 ∷ []) (7 ∷ 8 ∷ []) (omega arith, (omega arith, tt))
      two-Holds

dequeue-Holds_example :
    ((dequeue two nodes).0 ≡ success)
    × ((dequeue two nodes).1 ≡ some 7)
    × Holds (dequeue two nodes).2 (dequeue two nodes).3 (20 ∷ []) (8 ∷ [])
dequeue-Holds_example = dequeue-Holds two nodes 10 7 (20 ∷ []) (8 ∷ []) two-Holds

abbrev two_values : List ℕ
two_values = 7 ∷ 8 ∷ []

peek-two-Holds :
    (queue_size two ≡ 2)
    × ((is_empty two ≡ true) ↔ (two_values ≡ []))
    × (peek two nodes ≡ ((dequeue two nodes).0, (dequeue two nodes).1))
peek-two-Holds = peek-Holds two nodes (10 ∷ 20 ∷ []) (7 ∷ 8 ∷ []) two-Holds
