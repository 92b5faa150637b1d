-- ===== src/MemPool/Sizes.antt =====
-- `clog_get_mem_heap`: the heap that a size is served from.
use casca_log.Base.{
  ℕ, zero, suc, ◌+◌, ◌≤◌, ◌<◌, ◌≡◌, Option, none, some, ◌==◌, leb, arith, Bool-cases, inl, inr,
}
use mathlib.Core.Path.{subst}
use casca_log.MemPool.{heap_size, find_heap, get_mem_heap}

-- The heaps from a type on that come before another are too small for a size.
abbrev AreSmall : ℕ → ℕ → ℕ → Type 0
AreSmall type end size = (t : ℕ) → type ≤ t → t < end → heap_size t < size

-- What is found: a heap that is large enough, or none in as many types.
abbrev Finds : ℕ → ℕ → ℕ → Option ℕ → Type 0
Finds n type size none = AreSmall type (type + n) size
Finds n type size (some found) =
    (size ≤ heap_size found) × (found < type + n) × AreSmall type found size

more-AreSmall :
    (type end size : ℕ)
    → heap_size type < size
    → AreSmall (type + 1) end size
    → AreSmall type end size
more-AreSmall type end size now later t low high = elim (Bool-cases (t == type)) [
  | inr n ↦ later t (ground arith) high
  | inl y ↦ let same : type ≡ t = ground arith in subst (λ u. heap_size u < size) same now
]

find_heap-later :
    (n type size : ℕ) (o : Option ℕ)
    → heap_size type < size
    → Finds n (type + 1) size o
    → Finds (suc n) type size o
find_heap-later n type size none now f =
    more-AreSmall type (type + suc n) size now (λ t low high. f t low (omega (arith, high)))
find_heap-later n type size (some found) now (fit, bound, small) =
    (fit, omega (arith, bound), more-AreSmall type found size now small)

find_heap-Finds : (n type size : ℕ) → Finds n type size (find_heap n type size)
unfolding find_heap
find_heap-Finds zero type size = λ t low high. absurd (omega (arith, low, high))
find_heap-Finds (suc n) type size = elim (Bool-cases (leb size (heap_size type))) [
  | inl y ↦
      let fit : size ≤ heap_size type = ground arith in
      rw (y, Finds) (fit, omega arith, λ t low high. absurd (omega (arith, low, high)))
  | inr m ↦
      let now : heap_size type < size = ground arith in
      rw m (
        find_heap-later n type size (find_heap n (type + 1) size) now
          (find_heap-Finds n (type + 1) size))
]

-- The smallest heap that a size fits.
abbrev pub IsSmallest : ℕ → Option ℕ → Type 0
IsSmallest size none = 512 < size
IsSmallest size (some found) =
    (size ≤ heap_size found) × (found < 7) × ((t : ℕ) → t < found → heap_size t < size)

smallest : (size : ℕ) (o : Option ℕ) → Finds 7 0 size o → IsSmallest size o
smallest size none f = f 6 (omega arith) (omega arith)
smallest size (some found) (fit, bound, small) =
    (fit, omega (arith, bound), λ t low. small t (omega arith) low)

-- A size of at most 512 is served from the heap of the smallest blocks that are large enough, and a
-- larger one from none.
pub get_mem_heap-IsSmallest : (size : ℕ) → IsSmallest size (get_mem_heap size)
unfolding get_mem_heap
get_mem_heap-IsSmallest size = smallest size (find_heap 7 0 size) (find_heap-Finds 7 0 size)
