-- ===== src/Queue/Clear.antt =====
-- What clearing a queue of source/utils/clog_queue.c frees.
use casca_log.Base.{ℕ, ◌≡◌, refl, ap, Bool, Option, none, some, List, [], ◌∷◌, length}
use casca_log.Queue.{Queue, Nodes, node_free, freed_first, clear_loop, clear}
use casca_log.Queue.Fifo.{IsLinked, values, Holds}

-- The data that are not NULL, if there is a deallocator.
unfoldable deallocated : Bool → List ℕ → List ℕ
deallocated has_deallocator [] = []
deallocated has_deallocator (x ∷ xs) = node_free has_deallocator x (deallocated has_deallocator xs)

clear_loop-linked :
    (d : Bool) (s : Nodes) (head tail : Option ℕ) (ns : List ℕ)
    → IsLinked s.next head tail ns
    → clear_loop d (length ns) s head ≡ some (ns, deallocated d (values s.data_of ns))
unfolding clear_loop deallocated values
clear_loop-linked d s head tail [] (h, t) = rw h refl
clear_loop-linked d s head tail (n ∷ []) (h, t, e) = rw (h, e) refl
clear_loop-linked d s head tail (n ∷ m ∷ ns) (h, rest) =
    rw h (ap (freed_first d n (s.data_of n)) (clear_loop-linked d s (s.next n) tail (m ∷ ns) rest))

-- Clearing a queue that holds some data in some nodes empties it and frees each node once, from the
-- head on, in as many rounds as its size; the deallocator, if there is one, gets the data that are not
-- NULL, in their order.
clear-Holds :
    (d : Bool) (q : Queue) (s : Nodes) (ns xs : List ℕ)
    → Holds q s ns xs
    → clear d q s ≡ (record { head = none; tail = none; size = 0 }, some (ns, deallocated d xs))
unfolding clear
clear-Holds d q s ns xs h =
    let e = clear_loop-linked d s q.head q.tail ns h.linked in
    let f : q.size ≡ length ns = h.counted in rw (f, e, h.stored) refl
