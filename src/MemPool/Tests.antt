-- ===== src/MemPool/Tests.antt =====
-- Sizes and heaps of source/utils/clog_mem_pool.c, and the theorems at them.
use casca_log.Base.{◌≡◌, refl, none, some, if◌then◌else◌, ◌==◌}
use casca_log.MemPool.{
  running, stopping, find_heap, get_mem_heap, choose, heap_of, system, refused, Store,
}
use casca_log.MemPool.Sizes.{IsSmallest, get_mem_heap-IsSmallest}
use casca_log.MemPool.Reuse.{reuse, heap_with, release_to-reuse}

chosen :
    (choose (λ t. running) 0 ≡ refused)
    × (choose (λ t. running) 17 ≡ heap_of 2)
    × (choose (λ t. stopping) 17 ≡ system)
    × (choose (λ t. running) 513 ≡ system)
unfolding choose get_mem_heap find_heap
chosen = (refl, refl, refl, refl)

get_mem_heap-IsSmallest_example : IsSmallest 100 (get_mem_heap 100)
get_mem_heap-IsSmallest_example = get_mem_heap-IsSmallest 100

-- Block 64, then block 128.
abbrev next : Store
next x = if x == 64 then some 128 else none

block_twice : reuse (heap_with 0 0 2 64 (some 128)) next 64 ≡ (some 128, some 128)
block_twice = release_to-reuse 0 0 2 64 128 next (some 128) refl refl
