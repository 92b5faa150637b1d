-- ===== src/Hashmap/Buckets.antt =====
-- Where the entries of a table stand (source/utils/clog_hashmap.c), what the table means as a
-- function of keys, and what writing one bucket changes.
use casca_log.Base.{
  ℕ, ◌+◌, ◌-◌, ◌≤◌, ◌<◌, ◌≡◌, ◌≢◌, true, Option, some, [], if◌then◌else◌, get_or, set, length,
  flatten, to_nat, arith, length-set, get_or-set, length-flatten-set,
}
use Prim.Native.Nat.{max}
use casca_log.Base.Bits.{bit_and-le}
use casca_log.Hashmap.{
  Bytes, Chain, Ops, Map, same, hash, index, get_index, bucket_of, Heap, dup_key,
}
use casca_log.Hashmap.Chain.{IsEquiv, find, count, find_congr}

-- What the table asks of its callbacks: the comparison is an equivalence, and keys that are the
-- same hash alike. The copy of a key is the same key.
pub record IsLawful {V : Type 0} (o : Ops V) : Type 0 where
  pub equiv : IsEquiv (same o)
  pub copied :
      (k : Bytes) (h : Heap V) {k' : Bytes} → (dup_key o k h).0 ≡ some k' → same o k' k ≡ true
  pub hashed : (seed : ℕ) (a b : Bytes) → same o a b ≡ true → hash o seed a ≡ hash o seed b

module _ {V : Type 0} where
  -- The index of a key is inside the table.
  pub index-lt : (o : Ops V) (seed size : ℕ) (k : Bytes) → 0 < size → index o seed size k < size
  unfolding index
  index-lt o seed size k h = ground (arith, bit_and-le (hash o seed k) (size - 1))

  pub index_congr :
      {o : Ops V} (seed size : ℕ) (a b : Bytes)
      → IsLawful o
      → same o a b ≡ true
      → index o seed size a ≡ index o seed size b
  unfolding index
  index_congr seed size a b l h = rw (l.hashed seed a b h)

  -- A key is at most once in the table, in the bucket of its index.
  abbrev pub IsPlaced : Map V → Type 0
  IsPlaced m =
      (q : Bytes) (i : ℕ)
      → (count (same m.ops) q (get_or m.buckets i []) ≤ 1)
        × (get_index m q ≢ i → count (same m.ops) q (get_or m.buckets i []) ≡ 0)

  pub record IsValid (m : Map V) : Type 0 where
    pub sized : length m.buckets ≡ m.buckets_size
    pub pos : 0 < m.buckets_size
    pub counted : length (flatten m.buckets) ≡ m.data_size
    pub placed : IsPlaced m

  -- The abstract table.
  unfoldable pub view : Map V → Bytes → Option V
  view m q = find (same m.ops) q (bucket_of m q)

  abbrev pub resized : Map V → Bytes → Chain V → ℕ → Map V
  resized m k c n = record m { buckets = set m.buckets (get_index m k) c; data_size = n }

  module _ {m : Map V} (valid : IsValid m) (lawful : IsLawful m.ops) (k : Bytes) where
    pub index-lt-length : get_index m k < length m.buckets
    index-lt-length = omega (arith, index-lt m.ops m.seed m.buckets_size k valid.pos, valid.sized)

    -- Every operation replaces the bucket of its key by some `c`.
    pub resized-IsValid :
        (c : Chain V) (n : ℕ)
        → n + length (bucket_of m k) ≡ m.data_size + length c
        → ((q : Bytes)
            → count (same m.ops) q c
              ≤ max (to_nat (same m.ops k q)) (count (same m.ops) q (bucket_of m k)))
        → IsValid (resized m k c n)
    resized-IsValid c n size few = record {
      sized = rw length-set valid.sized;
      pos = valid.pos;
      counted =
          omega
            (arith, length-flatten-set m.buckets (get_index m k) c index-lt-length, valid.counted);
      placed = λ q i.
          rw (get_or-set, index-lt-length)
            (ground (
              arith,
              valid.placed q i,
              valid.placed q (get_index m k),
              few q,
              index_congr m.seed m.buckets_size k q lawful,
            ));
    }

    pub view-resized :
        (c : Chain V) (n : ℕ) (v : Option V)
        → ((q : Bytes)
            → find (same m.ops) q c
              ≡ (if same m.ops k q then v else find (same m.ops) q (bucket_of m k)))
        → (q : Bytes) → view (resized m k c n) q ≡ (if same m.ops k q then v else view m q)
    unfolding view
    view-resized c n v reads q =
        rw (get_or-set, index-lt-length)
          (ground (arith, reads q, index_congr m.seed m.buckets_size k q lawful))

  -- Keys that are the same are read alike.
  pub view_congr :
      (m : Map V) (a b : Bytes) → IsLawful m.ops → same m.ops a b ≡ true → view m a ≡ view m b
  unfolding view
  view_congr m a b lawful h =
      rw (index_congr m.seed m.buckets_size a b lawful h)
        (find_congr lawful.equiv a b (bucket_of m b) h)
