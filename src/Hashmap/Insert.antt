-- ===== src/Hashmap/Insert.antt =====
-- `clog_hashmap_put_internal` against the abstract table.
use casca_log.Base.{
  ℕ, ◌+◌, ◌≡◌, refl, true, false, Option, none, some, ◌∷◌, if◌then◌else◌, arith, Bool-cases,
  Option-cases, inl, inr, Res, success, is_success, to_nat,
}
use casca_log.Hashmap.{Bytes, Chain, Map, Heap, same, bucket_of, malloc, replace, put_internal}
use casca_log.Hashmap.Chain.{find, count, replace-none, replace-some, count_congr}
use casca_log.Hashmap.Buckets.{IsLawful, IsValid, view, resized, resized-IsValid, view-resized}

-- How many entries a key has.
abbrev pub present : {V : Type 0} → Option V → ℕ
present none = 0
present (some _) = 1

module _ {V : Type 0} where
  -- The table after a call that was asked to map `k` to `v`.
  pub record Stored (m : Map V) (k : Bytes) (v : V) (res : Res) (m' : Map V) : Type 0 where
    pub valid : IsValid m'
    pub ops : m'.ops ≡ m.ops
    pub reads :
        is_success res ≡ true
        → (q : Bytes) → view m' q ≡ (if same m.ops k q then some v else view m q)
    pub size : is_success res ≡ true → m'.data_size + present (view m k) ≡ m.data_size + 1

  module _ {m : Map V} (valid : IsValid m) (lawful : IsLawful m.ops) (k : Bytes) (v : V) where
    replace-Stored :
        {old : V} {c : Chain V}
        → replace (same m.ops) k v (bucket_of m k) ≡ some (old, c)
        → Stored m k v success (resized m k c m.data_size) × (view m k ≡ some old)
    unfolding view
    replace-Stored {old} {c} e =
        let at = λ (q : Bytes). replace-some lawful.equiv k v (bucket_of m k) q e in
        (
          record {
            valid =
                resized-IsValid valid lawful k c m.data_size (ground (arith, at k))
                  (λ q. ground (arith, at q));
            ops = refl;
            reads = λ s q. view-resized valid lawful k c m.data_size (some v) (λ p. (at p).1) q;
            size = λ s. ground (arith, at k);
          },
          (at k).0,
        )

    insert-Stored :
        replace (same m.ops) k v (bucket_of m k) ≡ none
        → Stored m k v success
            (resized m k (record { key = k; value = v } ∷ bucket_of m k) (m.data_size + 1))
          × (view m k ≡ none)
    unfolding view find count
    insert-Stored e =
        let absent = replace-none lawful.equiv k v (bucket_of m k) e in
        (
          record {
            valid =
                resized-IsValid valid lawful k _ (m.data_size + 1) (ground arith)
                  (λ q. ground (arith, absent, count_congr lawful.equiv k q (bucket_of m k)));
            ops = refl;
            reads = λ s q. view-resized valid lawful k _ (m.data_size + 1) (some v) (λ p. refl) q;
            size = λ s. ground (arith, absent);
          },
          absent.0,
        )

    -- Whatever the allocations do, the table stays valid; after a success it maps `k` to `v`, every
    -- other key is as before, and the flag says whether the key was there; after a failure nothing
    -- has changed.
    pub put_internal-Stored :
        (h : Heap V)
        → let (res, replaced, m', _) = put_internal m k v h in
          Stored m k v res m'
          × (is_success res ≡ true → to_nat replaced ≡ present (view m k))
          × (is_success res ≡ false → m' ≡ m)
          × (m'.buckets_size ≡ m.buckets_size)
    unfolding put_internal
    put_internal-Stored h = elim (Option-cases (replace (same m.ops) k v (bucket_of m k))) [
      | inr ((old, c), e) ↦
          let (stored, was) = replace-Stored e in
          rw (e, put_internal) (stored, λ s. rw was, λ s. cc, refl)
      | inl e ↦
          let (stored, was) = insert-Stored e in
          elim (Bool-cases (malloc h).0) [
            | inl y ↦ rw (e, y, put_internal) (stored, λ s. rw was, λ s. cc, refl)
            | inr n ↦
                rw (e, n, put_internal)
                  (
                    record { valid = valid; ops = refl; reads = λ s. cc; size = λ s. cc },
                    λ s. cc,
                    λ s. refl,
                    refl,
                  )
          ]
    ]
