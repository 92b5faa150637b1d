-- ===== src/MemPool.antt =====
-- source/utils/clog_mem_pool.c: heaps of blocks of seven sizes.
--
-- A block is its address. The store has the `next` pointer of every block; malloc supplies an
-- address, or none, and leaves the store, but for the block's `next`, which is cleared. The header of
-- a block says which heap it is from: that is passed with it.
pub mod Sizes
pub mod Reuse
mod Initial
mod Tests
use casca_log.Base.{
  List, [], ◌∷◌, ◌++◌, ◌%◌, length, ℕ, zero, suc, ◌+◌, ◌-◌, ◌^◌, Bool, true, false, not, Option,
  none, some, if◌then◌else◌, ◌==◌, leb,
}

-- `clog_heap_state_e`.
pub data HeapState : Type 0 where
  not_init running stopping terminated : HeapState

-- `mem_heap_t`.
pub record Heap : Type 0 where
  type : ℕ
  state : HeapState
  used : ℕ
  allocated : ℕ
  head : Option ℕ
  tail : Option ℕ

-- The `next` pointers.
abbrev pub Store : Type 0
Store = ℕ → Option ℕ

abbrev pub set_next : Store → ℕ → Option ℕ → Store
set_next next b n x = if x == b then n else next x

-- CLOG_GET_HEAP_SIZE.
abbrev pub heap_size : ℕ → ℕ
heap_size type = 2 ^ (type + 3)

-- The loop of `clog_get_mem_heap` from a type on, with as many types to go.
unfoldable pub find_heap : ℕ → ℕ → ℕ → Option ℕ
find_heap zero type size = none
find_heap (suc n) type size =
    let later = find_heap n (type + 1) size in
    if leb size (heap_size type) then some type else later

-- `clog_get_mem_heap`: the type of the heap.
unfoldable pub get_mem_heap : ℕ → Option ℕ
get_mem_heap size = find_heap 7 0 size

-- The part of `clog_mp_acquire` from the heap on, when that is running: the block, the heap and the
-- store.
unfoldable pub acquire_from : Heap → Store → Option ℕ → Option ℕ × Heap × Store
acquire_from heap next malloc = elim heap.head [
  | none ↦ elim malloc [
    | none ↦ (none, heap, next)
    | some b ↦ (
      some b,
      record heap { allocated = heap.allocated + 1; used = heap.used + 1 },
      set_next next b none,
    )
  ]
  | some b ↦ (
    some b,
    record heap {
      used = heap.used + 1;
      head = next b;
      tail = elim (next b) [ none ↦ none | some n ↦ heap.tail ];
    },
    next,
  )
]

-- Where a block of a size comes from.
pub data Source : Type 0 where
  refused system : Source
  heap_of : ℕ → Source

-- The guards of `clog_mp_acquire`, by the states of the heaps.
unfoldable pub choose : (ℕ → HeapState) → ℕ → Source
choose states size = if size == 0 then refused else elim (get_mem_heap size) [
  | none ↦ system
  | some type ↦ elim (states type) [
    | not_init ↦ system
    | running ↦ heap_of type
    | stopping ↦ system
    | terminated ↦ system
  ]
]

-- A release to a heap that is not running: the block is freed.
unfoldable pub release_stopped : Heap → Heap
release_stopped heap =
    if heap.used == 0 then record heap { state = terminated } else elim heap.state [
      | not_init ↦ heap
      | running ↦ heap
      | stopping ↦ record heap { used = heap.used - 1; allocated = heap.allocated - 1 }
      | terminated ↦ heap
    ]

-- A release to a running heap.
unfoldable pub release_running : Heap → Store → ℕ → Heap × Store
release_running heap next b = elim heap.tail [
  | none ↦ (record heap { head = some b; tail = some b; used = heap.used - 1 }, next)
  | some t ↦ (record heap { tail = some b; used = heap.used - 1 }, set_next next t (some b))
]

-- `clog_mp_release` of a block of the heap.
unfoldable pub release_to : Heap → Store → ℕ → Heap × Store
release_to heap next b = elim heap.state [
  | running ↦ release_running heap next b
  | not_init ↦ (release_stopped heap, next)
  | stopping ↦ (release_stopped heap, next)
  | terminated ↦ (release_stopped heap, next)
]

-- The heap, the store, and the outcomes of malloc that are left.
abbrev pub Supplied : Type 0
Supplied = Heap × Store × List (Option ℕ)

-- A block that is put behind the others. A heap with a head has a tail.
unfoldable pub put_last : Heap → Store → ℕ → Heap × Store
put_last heap next b = elim heap.head [
  | none ↦ (
    record heap { head = some b; tail = some b; allocated = heap.allocated + 1 },
    set_next next b none,
  )
  | some h ↦ elim heap.tail [
    | none ↦ (record heap { tail = some b; allocated = heap.allocated + 1 }, set_next next b none)
    | some t ↦ (
      record heap { tail = some b; allocated = heap.allocated + 1 },
      set_next (set_next next b none) t (some b),
    )
  ]
]

-- `clog_mp_pre_allocated`. The first malloc that fails ends it.
unfoldable pub pre_allocated : ℕ → Heap → Store → List (Option ℕ) → Supplied
pre_allocated zero heap next malloc = (heap, next, malloc)
pre_allocated (suc num) heap next [] = (heap, next, [])
pre_allocated (suc num) heap next (none ∷ malloc) = (heap, next, malloc)
pre_allocated (suc num) heap next (some b ∷ malloc) =
    let (heap', next') = put_last heap next b in pre_allocated num heap' next' malloc

-- A heap as `clog_mp_init` starts it.
abbrev pub new_heap : ℕ → Heap
new_heap type = record {
  type = type;
  state = running;
  used = 0;
  allocated = 0;
  head = none;
  tail = none;
}

-- The blocks that `clog_mp_init` allocates for a type of heap: CLOG_MP_PRE_ALLOCATED_LESS, NORMAL and
-- FULL are 1, 2 and 3.
unfoldable pub pre_allocated_num : ℕ → ℕ → ℕ
pre_allocated_num level type =
    if leb type 2
    then if leb 1 level then 16 else 0
    else if leb type 5
    then if leb 2 level then 8 else 0
    else if type == 6
    then if leb 3 level then 4 else 0
    else 0

-- The heaps of `clog_mp_init` from a type on, with as many types to go.
unfoldable pub init_heaps : ℕ → ℕ → ℕ → Store → List (Option ℕ) → List Heap × Store
init_heaps zero type level next malloc = ([], next)
init_heaps (suc n) type level next malloc =
    let (heap, next', malloc') =
      pre_allocated (pre_allocated_num level type) (new_heap type) next malloc in
    let (heaps, next'') = init_heaps n (type + 1) level next' malloc' in (heap ∷ heaps, next'')

-- `clog_mp_init`.
unfoldable pub init : ℕ → Store → List (Option ℕ) → List Heap × Store
init level next malloc = init_heaps 7 0 level next malloc

-- The loop of `clog_mp_clear`: what it frees. `none` means that the fuel ran out.
abbrev pub freed_first : ℕ → Option (List ℕ) → Option (List ℕ)
freed_first b none = none
freed_first b (some bs) = some (b ∷ bs)

unfoldable pub clear_loop : ℕ → Store → Option ℕ → Option (List ℕ)
clear_loop fuel next none = some []
clear_loop zero next (some b) = none
clear_loop (suc fuel) next (some b) = freed_first b (clear_loop fuel next (next b))

-- `clog_mp_clear`, once the loop has freed some blocks; `allocated` is a uint32_t.
unfoldable pub cleared : Heap → List ℕ → Heap
cleared heap bs = record heap {
  allocated = (heap.allocated + 2 ^ 32 - length bs % 2 ^ 32) % 2 ^ 32;
  state = if heap.used == 0 then terminated else stopping;
}

-- `clog_mp_finalize`: the heaps, and what is freed.
unfoldable pub finalize : ℕ → Store → List Heap → Option (List Heap × List ℕ)
finalize fuel next [] = some ([], [])
finalize fuel next (heap ∷ heaps) =
    let later = finalize fuel next heaps in
    elim (clear_loop fuel next heap.head) [
      | none ↦ none
      | some bs ↦ elim later [
        | none ↦ none
        | some (heaps', freed) ↦ some (cleared heap bs ∷ heaps', bs ++ freed)
      ]
    ]

abbrev pub is_running : HeapState → Bool
is_running running = true
is_running _ = false

unfoldable pub sum_allocated : List Heap → ℕ
sum_allocated [] = 0
sum_allocated (heap ∷ heaps) = heap.allocated + sum_allocated heaps

-- `clog_mp_get_allocated_size`, the number of blocks.
unfoldable pub get_allocated_size : List Heap → ℕ
get_allocated_size [] = 0
get_allocated_size (heap ∷ heaps) =
    if is_running heap.state then sum_allocated (heap ∷ heaps) % 2 ^ 64 else 0
