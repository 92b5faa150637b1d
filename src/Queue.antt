-- ===== src/Queue.antt =====
-- source/utils/clog_queue.c: a queue of linked nodes, by their addresses.
--
-- The store has each node's `next` and `data`. malloc supplies an address, or none. Freed nodes stay
-- in the store, as nothing points to them.
pub mod Fifo
mod Clear
mod Tests
use casca_log.Base.{
  zero, List, [], ◌∷◌, ◌&&◌, not, ℕ, suc, ◌+◌, ◌-◌, Option, none, some, if◌then◌else◌, ◌==◌, Res,
  success, no_memory, target_not_found, Bool, true, false,
}

-- `struct clog_queue`, less its deallocator.
pub record Queue : Type 0 where
  pub head : Option ℕ
  pub tail : Option ℕ
  pub size : ℕ

-- `struct clog_queue_node`, of every address.
pub record Nodes : Type 0 where
  pub next : ℕ → Option ℕ
  pub data_of : ℕ → ℕ

abbrev pub put_next : (ℕ → Option ℕ) → ℕ → Option ℕ → ℕ → Option ℕ
put_next next n p x = if x == n then p else next x

abbrev pub put_data : (ℕ → ℕ) → ℕ → ℕ → ℕ → ℕ
put_data data_of n d x = if x == n then d else data_of x

-- `clog_queue_node_create`.
abbrev pub node_create : Nodes → ℕ → ℕ → Nodes
node_create s n ptr = record { next = put_next s.next n none; data_of = put_data s.data_of n ptr }

-- `clog_queue_enqueue`.
unfoldable pub enqueue : Queue → Nodes → Option ℕ → ℕ → Res × Queue × Nodes
enqueue q s none ptr = (no_memory, q, s)
enqueue q s (some n) ptr = elim q.tail [
  | none ↦
      (success, record { head = some n; tail = some n; size = q.size + 1 }, node_create s n ptr)
  | some t ↦ (
    success,
    record { head = q.head; tail = some n; size = q.size + 1 },
    record {
      next = put_next (node_create s n ptr).next t (some n);
      data_of = (node_create s n ptr).data_of;
    },
  )
]

-- `clog_queue_dequeue`: the code, and the data if there are any.
unfoldable pub dequeue : Queue → Nodes → Res × Option ℕ × Queue × Nodes
dequeue q s = elim q.head [
  | none ↦ (target_not_found, none, q, s)
  | some n ↦ (
    success,
    some (s.data_of n),
    record {
      head = s.next n;
      tail = elim (s.next n) [ none ↦ none | some m ↦ q.tail ];
      size = q.size - 1;
    },
    record { next = s.next; data_of = put_data s.data_of n 0 },
  )
]

-- `clog_queue_create`, of a pointer to fill: whether the queue is malloc'd.
unfoldable pub create : Bool → Res × Option Queue
create done =
    if done
    then (success, some record { head = none; tail = none; size = 0 })
    else (no_memory, none)

-- `clog_queue_peek`.
unfoldable pub peek : Queue → Nodes → Res × Option ℕ
peek q s = elim q.head [ none ↦ (target_not_found, none) | some n ↦ (success, some (s.data_of n)) ]

-- `clog_queue_is_empty`.
unfoldable pub is_empty : Queue → Bool
is_empty q = elim q.head [ none ↦ true | some n ↦ false ]

-- `clog_queue_size`.
unfoldable pub queue_size : Queue → ℕ
queue_size q = q.size

-- `clog_queue_node_free`, by whether the queue has a deallocator: what that gets, before other data.
abbrev pub node_free : Bool → ℕ → List ℕ → List ℕ
node_free has_deallocator ptr later =
    if has_deallocator && not (ptr == 0) then ptr ∷ later else later

-- What a loop over the nodes frees: the nodes, and the data that the deallocator gets.
abbrev pub freed_first : Bool → ℕ → ℕ → Option (List ℕ × List ℕ) → Option (List ℕ × List ℕ)
freed_first has_deallocator n ptr none = none
freed_first has_deallocator n ptr (some (ns, ptrs)) =
    some (n ∷ ns, node_free has_deallocator ptr ptrs)

-- The loop of `clog_queue_clear`. `none` means that the fuel ran out.
unfoldable pub clear_loop : Bool → ℕ → Nodes → Option ℕ → Option (List ℕ × List ℕ)
clear_loop has_deallocator fuel s none = some ([], [])
clear_loop has_deallocator zero s (some n) = none
clear_loop has_deallocator (suc fuel) s (some n) =
    freed_first has_deallocator n (s.data_of n) (clear_loop has_deallocator fuel s (s.next n))

-- `clog_queue_clear`: the queue, and what is freed.
unfoldable pub clear : Bool → Queue → Nodes → Queue × Option (List ℕ × List ℕ)
clear has_deallocator q s =
    (record { head = none; tail = none; size = 0 }, clear_loop has_deallocator q.size s q.head)

-- `clog_queue_destroy`: what is freed, before the queue itself.
unfoldable pub destroy : Bool → Queue → Nodes → Option (List ℕ × List ℕ)
destroy has_deallocator q s = (clear has_deallocator q s).1
