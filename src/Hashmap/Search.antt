-- ===== src/Hashmap/Search.antt =====
-- `clog_hashmap_get`, `_take`, `_remove` and `_is_exists` against the abstract table.
use casca_log.Base.{
  ◌+◌, ◌-◌, ◌/◌, ◌<◌, ◌≡◌, ◌↔◌, refl, sym, ◌∙◌, true, false, none, some, [], ◌∷◌, if◌then◌else◌,
  ◌==◌, ltb, length, to_nat, arith, Bool-cases, ltb→lt, Option-cases, inl, inr, length-flatten-set,
}
use casca_log.Hashmap.{
  Bytes, Entry, Chain, Map, Heap, same, bucket_of, get_index, extract, get, take_value, remove,
  is_exists, free_entry,
}
use casca_log.Hashmap.Chain.{
  find, count, congr_left, find_congr, extract-none, extract-some, find-extract,
}
use casca_log.Hashmap.Buckets.{
  IsLawful, IsValid, view, view_congr, resized, resized-IsValid, view-resized, index-lt-length,
  index_congr,
}
use casca_log.Hashmap.Insert.{present}
use casca_log.Hashmap.Resize.{resize-Resized}

module _ {V : Type 0} {m : Map V} (valid : IsValid m) (lawful : IsLawful m.ops) (k : Bytes) where
  -- What the search of `k` found: its entry, and the bucket without it.
  module _ {e : Entry V} {c : Chain V}
      (found : extract (same m.ops) k (bucket_of m k) ≡ some (e, c)) where
    here :
        (q : Bytes)
        → (same m.ops e.key k ≡ true)
          × (find (same m.ops) k (bucket_of m k) ≡ some e.value)
          × (count (same m.ops) q (bucket_of m k)
              ≡ to_nat (same m.ops e.key q) + count (same m.ops) q c)
          × (length (bucket_of m k) ≡ length c + 1)
    here q = extract-some lawful.equiv k (bucket_of m k) q found

    there :
        (q : Bytes)
        → (find (same m.ops) q (bucket_of m k)
            ≡ (if same m.ops e.key q then some e.value else find (same m.ops) q c))
          × (find (same m.ops) q c
              ≡ (if same m.ops k q then none else find (same m.ops) q (bucket_of m k)))
    there q = find-extract lawful.equiv k (bucket_of m k) q found (valid.placed q (get_index m k)).0

    seen : view m k ≡ some e.value
    unfolding view
    seen = (here k).1

    -- The entry goes to the front.
    front-IsValid : IsValid (resized m k (e ∷ c) m.data_size)
    unfolding count
    front-IsValid =
        resized-IsValid valid lawful k (e ∷ c) m.data_size (ground (arith, here k))
          (λ q. ground (arith, here q))

    view-front : (q : Bytes) → view (resized m k (e ∷ c) m.data_size) q ≡ view m q
    unfolding find view
    view-front q =
        view-resized valid lawful k (e ∷ c) m.data_size (some e.value)
          (λ p. ground (arith, here p, there p, congr_left lawful.equiv e.key k p)) q
        ∙ ground (
          arith,
          here q,
          index_congr m.seed m.buckets_size k q lawful,
          find_congr lawful.equiv k q (bucket_of m k),
        )

    -- The entry is unlinked.
    filled : 0 < m.data_size
    filled = omega (
      arith,
      length-flatten-set m.buckets (get_index m k) [] (index-lt-length valid lawful k),
      (here k).3,
      valid.counted,
    )

    without-IsValid : IsValid (resized m k c (m.data_size - 1))
    without-IsValid =
        resized-IsValid valid lawful k c (m.data_size - 1) (omega (arith, filled, here k))
          (λ q. ground (arith, here q))

    view-without :
        (q : Bytes)
        → view (resized m k c (m.data_size - 1)) q ≡ (if same m.ops k q then none else view m q)
    view-without = view-resized valid lawful k c (m.data_size - 1) none (λ q. (there q).1)

  absent : extract (same m.ops) k (bucket_of m k) ≡ none → view m k ≡ none
  unfolding view
  absent n = (extract-none lawful.equiv k (bucket_of m k) n).0

  view_absent :
      view m k ≡ none → (q : Bytes) → view m q ≡ (if same m.ops k q then none else view m q)
  view_absent n q = ground (arith, view_congr m k q lawful)

  -- `get` returns what the table maps the key to. It may reorder a bucket, but the table stays valid
  -- and reads as before under every key, with as many entries.
  pub get-view :
      let (found, m') = get m k in
      (found ≡ view m k)
      × IsValid m'
      × ((q : Bytes) → view m' q ≡ view m q)
      × (m'.data_size ≡ m.data_size)
  unfolding get
  get-view = elim (Option-cases (extract (same m.ops) k (bucket_of m k))) [
    | inl n ↦ rw (n, get) (sym (absent n), valid, λ q. refl, refl)
    | inr ((e, c), f) ↦ rw (f, get) (sym (seen f), front-IsValid f, view-front f, refl)
  ]

  -- `is_exists` tells whether the table maps the key to a value.
  pub is_exists-view : (is_exists m k ≡ true) ↔ ((v : V) × (view m k ≡ some v))
  unfolding is_exists
  is_exists-view = elim (Option-cases (extract (same m.ops) k (bucket_of m k))) [
    | inl n ↦ rw (n, is_exists, absent n) (λ y. cc, λ y. cc)
    | inr ((e, c), f) ↦ rw (f, is_exists, seen f) (λ y. (e.value, refl), λ y. refl)
  ]

  -- `take` returns the value and forgets the key, and no other; it frees the key alone.
  pub take_value-view :
      (h : Heap V)
      → let (found, m', _) = take_value m k h in
        (found ≡ view m k)
        × IsValid m'
        × ((q : Bytes) → view m' q ≡ (if same m.ops k q then none else view m q))
        × (m'.data_size + present found ≡ m.data_size)
  unfolding take_value
  take_value-view h = elim (Option-cases (extract (same m.ops) k (bucket_of m k))) [
    | inl n ↦ let a = absent n in rw (n, take_value) (sym a, valid, view_absent a, omega arith)
    | inr ((e, c), f) ↦
        rw (f, take_value)
          (sym (seen f), without-IsValid f, view-without f, omega (arith, filled f))
  ]

  -- `remove` tells whether the key was there and forgets it, and no other key. Whether or not the
  -- shrinking that it may start succeeds, the table is valid, and has one entry less if the key was
  -- there.
  pub remove-view :
      (h : Heap V)
      → let (gone, m', _) = remove m k h in
        (to_nat gone ≡ present (view m k))
        × IsValid m'
        × ((q : Bytes) → view m' q ≡ (if same m.ops k q then none else view m q))
        × (m'.data_size + to_nat gone ≡ m.data_size)
  unfolding remove
  remove-view h = elim (Option-cases (extract (same m.ops) k (bucket_of m k))) [
    | inl n ↦
        let a = absent n in
        elim (Bool-cases (m.data_size == 0)) [
          | inl z ↦ rw (z, remove, a) (refl, valid, view_absent a, omega arith)
          | inr z ↦ rw (z, n, remove, a) (refl, valid, view_absent a, omega arith)
        ]
    | inr ((e, c), f) ↦
        let z : (m.data_size == 0) ≡ false = ground (arith, filled f) in
        let m' = resized m k c (m.data_size - 1) in
        elim (Bool-cases (ltb (m.data_size - 1) (m.buckets_size / 2))) [
          | inr l ↦
              rw (z, f, remove, l, seen f)
                (refl, without-IsValid f, view-without f, omega (arith, filled f))
          | inl l ↦
              let r =
                resize-Resized (without-IsValid f) lawful (m.buckets_size / 2) (free_entry e h)
                  (omega (arith, ltb→lt _ _ l)) in
              rw (z, f, remove, l, seen f)
                (refl, r.valid, λ q. r.reads q ∙ view-without f q, omega (arith, filled f, r.size))
        ]
  ]
