-- ===== src/Hashmap/Entries.antt =====
-- All the entries of a table of source/utils/clog_hashmap.c, bucket by bucket, and new tables.
use casca_log.Base.{
  ℕ, zero, suc, ◌≤◌, ◌<◌, ◌≡◌, ◌≢◌, refl, sym, Bool, none, some, List, [], ◌∷◌, if◌then◌else◌, ◌==◌,
  flatten, get_or, replicate, arith, Bool-cases, inl, inr, length-replicate, get_or-replicate,
  flatten-replicate,
}
use mathlib.Core.Path.{subst}
use mathlib.Core.Option.{or_else, some-injective}
use casca_log.Hashmap.{
  Bytes, Chain, Ops, Map, Heap, same, get_index, create_empty_buckets, malloc, create,
}
use casca_log.Hashmap.Chain.{find, count, count-append, find-append, find_absent}
use casca_log.Hashmap.Buckets.{IsValid, view}

module _ {V : Type 0} (eq : Bytes → Bytes → Bool) (q : Bytes) where
  -- `all` holds the entries that the key has in `home`, and no other of the key.
  record Only (home all : Chain V) : Type 0 where
    number : count eq q all ≡ count eq q home
    value : find eq q all ≡ find eq q home

  empty-Only :
      (rows : List (Chain V))
      → ((l : ℕ) → count eq q (get_or rows l []) ≡ 0)
      → Only [] (flatten rows)
  unfolding flatten get_or count find or_else
  empty-Only [] away = record { number = refl; value = refl }
  empty-Only (row ∷ rows) away =
      let ih = empty-Only rows (λ l. away (suc l)) in
      record {
        number = omega (arith, count-append eq q row (flatten rows), away 0, ih.number);
        value =
            ground
              (arith, find-append eq q row (flatten rows), find_absent eq q row, away 0, ih.value);
      }

  -- A key with entries in bucket `j` only.
  flatten-Only :
      (j : ℕ) (rows : List (Chain V))
      → ((l : ℕ) → l ≢ j → count eq q (get_or rows l []) ≡ 0)
      → Only (get_or rows j []) (flatten rows)
  unfolding or_else get_or flatten find count
  flatten-Only j [] away = record { number = refl; value = refl }
  flatten-Only zero (row ∷ rows) away =
      let ih = empty-Only rows (λ l. away (suc l) (omega arith)) in
      record {
        number = omega (arith, count-append eq q row (flatten rows), ih.number);
        value = ground (arith, find-append eq q row (flatten rows), ih.value);
      }
  flatten-Only (suc j) (row ∷ rows) away =
      let ih = flatten-Only j rows (λ l ne. away (suc l) (omega arith)) in
      let zero_here = away 0 (omega arith) in
      record {
        number = omega (arith, count-append eq q row (flatten rows), zero_here, ih.number);
        value =
            ground (
              arith,
              find-append eq q row (flatten rows),
              find_absent eq q row,
              zero_here,
              ih.value,
            );
      }

module _ {V : Type 0} where
  -- All the entries of a table, in the order of the buckets, read as the table does.
  pub flatten-view :
      {m : Map V} (q : Bytes)
      → IsValid m
      → (find (same m.ops) q (flatten m.buckets) ≡ view m q)
        × (count (same m.ops) q (flatten m.buckets) ≤ 1)
  unfolding view
  flatten-view {m} q v =
      let only =
        flatten-Only (same m.ops) q (get_index m q) m.buckets
          (λ l ne. (v.placed q l).1 (λ e. ne (sym e))) in
      (only.value, rw only.number (v.placed q (get_index m q)).0)

  -- A table with empty buckets.
  pub empty_lem :
      {m : Map V}
      → m.buckets ≡ replicate m.buckets_size []
      → m.data_size ≡ 0
      → 0 < m.buckets_size
      → IsValid m × ((q : Bytes) → view m q ≡ none)
  unfolding view find count
  empty_lem {m} e z pos = (
    record {
      sized = rw e (length-replicate m.buckets_size []);
      pos = pos;
      counted = rw (e, flatten-replicate) (omega arith);
      placed = λ q i. rw (e, get_or-replicate) (omega arith);
    },
    λ q. rw (e, get_or-replicate),
  )

  -- A new table is valid, has 16 buckets and maps no key.
  pub create-empty :
      (o : Ops V) (seed : ℕ) (h : Heap V) {m : Map V}
      → (create o seed h).0 ≡ some m
      → IsValid m × ((q : Bytes) → view m q ≡ none) × (m.ops ≡ o) × (m.buckets_size ≡ 16)
  unfolding create create_empty_buckets malloc
  create-empty o seed h {m} e = elim (Bool-cases (h.alloc 0)) [
    | inr f ↦ absurd (ground arith)
    | inl y ↦ elim (Bool-cases (h.alloc 1)) [
      | inr f ↦ absurd (ground arith)
      | inl y' ↦
          let made : Map V = record {
            ops = o;
            seed = if seed == 0 then 0xAA6F3B22 else seed;
            data_size = 0;
            buckets_size = 16;
            buckets = replicate 16 [];
          } in
          let same_map = some-injective made m (rw (y, y') at e) in
          subst
            (λ t. IsValid t × ((q : Bytes) → view t q ≡ none) × (t.ops ≡ o) × (t.buckets_size ≡ 16))
            same_map
            (let (v, r) = empty_lem {m = made} refl refl (omega arith) in (v, r, refl, refl))
    ]
  ]
