-- ===== src/MemPool/Initial.antt =====
-- The blocks that source/utils/clog_mem_pool.c allocates before they are needed.
use casca_log.Base.{
  ℕ, zero, suc, ◌+◌, ◌≡◌, refl, ◌∙◌, Option, none, some, List, [], ◌∷◌, Option-cases, inl, inr,
  arith,
}
use casca_log.MemPool.{Heap, Store, put_last, pre_allocated}

-- How many of so many calls of malloc succeed before one fails.
unfoldable given : ℕ → List (Option ℕ) → ℕ
given zero malloc = 0
given (suc num) [] = 0
given (suc num) (none ∷ malloc) = 0
given (suc num) (some b ∷ malloc) = suc (given num malloc)

abbrev Counts : Heap → ℕ → Heap → Type 0
Counts heap n heap' =
    (heap'.allocated ≡ heap.allocated + n)
    × (heap'.used ≡ heap.used)
    × (heap'.state ≡ heap.state)
    × (heap'.type ≡ heap.type)

put_last-Counts : (heap : Heap) (next : Store) (b : ℕ) → Counts heap 1 (put_last heap next b).0
unfolding put_last
put_last-Counts heap next b = elim (Option-cases heap.head) [
  | inl n ↦ rw (n, put_last) (refl, refl, refl, refl)
  | inr (h, e) ↦ elim (Option-cases heap.tail) [
    | inl n ↦ rw (e, put_last, n) (refl, refl, refl, refl)
    | inr (t, f) ↦ rw (e, put_last, f) (refl, refl, refl, refl)
  ]
]

-- A heap that is given blocks counts those that malloc gave before it failed, and stays as it is else.
pre_allocated-Counts :
    (num : ℕ) (heap : Heap) (next : Store) (malloc : List (Option ℕ))
    → Counts heap (given num malloc) (pre_allocated num heap next malloc).0
unfolding pre_allocated given
pre_allocated-Counts zero heap next malloc = (omega arith, refl, refl, refl)
pre_allocated-Counts (suc num) heap next [] = (omega arith, refl, refl, refl)
pre_allocated-Counts (suc num) heap next (none ∷ malloc) = (omega arith, refl, refl, refl)
pre_allocated-Counts (suc num) heap next (some b ∷ malloc) =
    let heap' = (put_last heap next b).0 in
    let (a, u, s, t) = put_last-Counts heap next b in
    let (a', u', s', t') = pre_allocated-Counts num heap' (put_last heap next b).1 malloc in
    (omega (arith, a, a'), u' ∙ u, s' ∙ s, t' ∙ t)
