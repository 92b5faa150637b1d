-- ===== src/MemPool/Reuse.antt =====
-- A block keeps its `next` pointer while it is held, and brings it back to its heap.
use casca_log.Base.{ℕ, ◌+◌, ◌-◌, ◌≡◌, refl, Option, none, some}
use casca_log.MemPool.{Heap, running, Store, acquire_from, release_running, release_to}

-- Two blocks are acquired, the first is released, and two more are acquired: the second block of
-- each pair.
unfoldable pub reuse : Heap → Store → ℕ → Option ℕ × Option ℕ
reuse heap next a =
    let (_, h1, s1) = acquire_from heap next none in
    let (second, h2, s2) = acquire_from h1 s1 none in
    let (h3, s3) = release_to h2 s2 a in
    let (_, h4, s4) = acquire_from h3 s3 none in
    let (again, h5, s5) = acquire_from h4 s4 none in (second, again)

-- A running heap whose first free block is `a`.
abbrev pub heap_with : ℕ → ℕ → ℕ → ℕ → Option ℕ → Heap
heap_with type used allocated a tail = record {
  type = type;
  state = running;
  used = used;
  allocated = allocated;
  head = some a;
  tail = tail;
}

-- A running heap with no free block.
abbrev empty_heap : ℕ → ℕ → ℕ → Heap
empty_heap type used allocated = record {
  type = type;
  state = running;
  used = used;
  allocated = allocated;
  head = none;
  tail = none;
}

acquire_from_linked :
    (type used allocated a b : ℕ) (next : Store) (tail : Option ℕ)
    → next a ≡ some b
    → acquire_from (heap_with type used allocated a tail) next none
      ≡ (some a, heap_with type (used + 1) allocated b tail, next)
unfolding acquire_from
acquire_from_linked type used allocated a b next tail e = rw e refl

acquire_from_last :
    (type used allocated b : ℕ) (next : Store) (tail : Option ℕ)
    → next b ≡ none
    → acquire_from (heap_with type used allocated b tail) next none
      ≡ (some b, empty_heap type (used + 1) allocated, next)
unfolding acquire_from
acquire_from_last type used allocated b next tail e = rw e refl

release_to_empty :
    (type used allocated a : ℕ) (next : Store)
    → release_to (empty_heap type used allocated) next a
      ≡ (heap_with type (used - 1) allocated a (some a), next)
unfolding release_to release_running
release_to_empty type used allocated a next = refl

-- A running heap with two free blocks: after both are taken and the first is given back, two more
-- calls hand out the second once more, though it is still held.
pub release_to-reuse :
    (type used allocated a b : ℕ) (next : Store) (tail : Option ℕ)
    → next a ≡ some b
    → next b ≡ none
    → reuse (heap_with type used allocated a tail) next a ≡ (some b, some b)
unfolding reuse
release_to-reuse type used allocated a b next tail first last =
    let freed = used + 1 + 1 - 1 in
    rw
      (
        acquire_from_linked type used allocated a b next tail first,
        acquire_from_last type (used + 1) allocated b next tail last,
        release_to_empty type (used + 1 + 1) allocated a next,
        acquire_from_linked type freed allocated a b next (some a) first,
        acquire_from_last type (freed + 1) allocated b next (some a) last,
      )
      refl
