-- ===== src/BufferPool.antt =====
-- source/utils/clog_buffer_pool.c: the pool of log items, used by one thread while no other does.
--
-- The head's list is that of the free buffers, by their addresses. Between
-- the load of the head and the exchange of it nothing happens here, so that the exchange succeeds in
-- the first round. Subtractions stop at 0, which those of the source do not reach
-- while the counters are right. malloc gives an address, or none; free is not modelled but
-- for the pool's own. Counters are native, as they stay in their word's bounds with the number of
-- buffers that memory holds.
pub mod Steps
pub mod Safety
pub mod Runs
pub mod Shrink
mod Tests
use casca_log.Base.{
  ℕ, suc, ◌+◌, ◌-◌, ◌*◌, ◌/◌, Bool, true, false, not, ◌&&◌, ◌||◌, Option, none, some, List, [], ◌∷◌,
  length, if◌then◌else◌, ◌==◌, ltb, leb, Res, success, invalid_param, no_memory, not_completed,
}

-- The macros CLOG_BUFFER_TYPE_*.
pub data BufferType : Type 0 where
  pool tmp : BufferType

-- `struct clog_buffer`, by its address.
pub record Buffer : Type 0 where
  addr : ℕ
  type : BufferType

-- The macros CLOG_BUFFER_POOL_STATE_*, less the expanding one, which nothing sets.
pub data PoolState : Type 0 where
  disabled running finalizing : PoolState

-- `struct clog_buffer_pool`, less the size of its items.
pub record Pool : Type 0 where
  head : List ℕ
  state : PoolState
  free_count : ℕ
  capacity : ℕ
  init_capacity : ℕ
  threshold : ℕ
  auto_manager : Bool

-- `clog_buffer_pool_malloc_pool_batch`: of the outcomes of malloc, as many as there are buffers.
-- The first buffer stays at the head, and each later one goes behind it.
unfoldable pub malloc_batch : List (Option ℕ) → Option (List ℕ) → Option (List ℕ)
malloc_batch [] head = head
malloc_batch (none ∷ mallocs) head = none
malloc_batch (some b ∷ mallocs) none = malloc_batch mallocs (some (b ∷ []))
malloc_batch (some b ∷ mallocs) (some []) = malloc_batch mallocs (some (b ∷ []))
malloc_batch (some b ∷ mallocs) (some (h ∷ rest)) = malloc_batch mallocs (some (h ∷ b ∷ rest))

-- `clog_buffer_pool_initialize`: whether the pool is malloc'd, and the outcomes for its buffers, as
-- many as its capacity. `clog_buffer_pool_finalize` on a failure does not free the pool.
unfoldable pub initialize : Bool → List (Option ℕ) → Bool → ℕ → Res × Option Pool
initialize done mallocs auto_manager threshold =
    let n = length mallocs in
    if auto_manager && (threshold == 0 || leb 100 threshold)
    then (invalid_param, none)
    else if done
    then elim (malloc_batch mallocs none) [
      | none ↦ (no_memory, none)
      | some buffers ↦ (
        success,
        some record {
          head = buffers;
          state = running;
          free_count = n;
          capacity = n;
          init_capacity = n;
          threshold = threshold;
          auto_manager = auto_manager;
        },
      )
    ]
    else (no_memory, none)

-- A buffer of a type, if malloc gives one.
abbrev pub malloc_single : BufferType → Option ℕ → Option Buffer
malloc_single type none = none
malloc_single type (some b) = some record { addr = b; type = type }

-- What a running pool that has no free buffer gives.
abbrev pub expand : Pool → Option ℕ → Pool × Option Buffer
expand p none = (p, none)
expand p (some b) =
    if p.auto_manager
    then (record p { capacity = p.capacity + 1 }, malloc_single pool (some b))
    else (p, malloc_single tmp (some b))

-- `clog_buffer_pool_acquire`, with what malloc would give, and with no other thread between its loads
-- and its exchange.
unfoldable pub acquire : Pool → Option ℕ → Pool × Option Buffer
acquire p m = elim p.state [
  | disabled ↦ (p, malloc_single tmp m)
  | finalizing ↦ (p, malloc_single tmp m)
  | running ↦ elim p.head [
    | [] ↦ expand p m
    | b ∷ rest ↦ (
      record p { head = rest; free_count = p.free_count - 1 },
      some record { addr = b; type = pool },
    )
  ]
]

-- Pushing a buffer on the free ones.
abbrev pub push : Pool → ℕ → Pool
push p b = record p { head = b ∷ p.head; free_count = p.free_count + 1 }

-- The share of the buffers in use, in percent.
unfoldable pub rate : Pool → ℕ
rate p = 100 - p.free_count * 100 / p.capacity

-- What becomes of a buffer that comes back to a pool that is not being finalized: it is pushed, or
-- freed.
unfoldable pub put_back : Pool → ℕ → Pool
put_back p b =
    if not p.auto_manager || ltb p.threshold (rate p) || p.capacity == p.init_capacity
    then push p b
    else record p { capacity = p.capacity - 1 }

-- `clog_buffer_pool_release` of a buffer; `none` when it frees the pool.
unfoldable pub release : Pool → Buffer → Option Pool
release p b = elim b.type [
  | tmp ↦ some p
  | pool ↦ elim p.state [
    | finalizing ↦
        if p.capacity - 1 == 0 then none else some (record p { capacity = p.capacity - 1 })
    | disabled ↦ some (put_back p b.addr)
    | running ↦ some (put_back p b.addr)
  ]
]

-- `clog_buffer_pool_finalize`; no pool is left when it is freed.
unfoldable pub finalize : Pool → Res × Option Pool
finalize p =
    let n = length p.head in
    if p.capacity - n == 0 then (success, none) else (
      not_completed,
      some record {
        head = [];
        state = finalizing;
        free_count = p.free_count - n;
        capacity = p.capacity - n;
        init_capacity = 0;
        threshold = p.threshold;
        auto_manager = false;
      },
    )
