-- ===== src/Hashmap/Put.antt =====
-- `clog_hashmap_put` against the abstract table.
use casca_log.Base.{
  ℕ, suc, ◌+◌, ◌*◌, ◌≡◌, refl, sym, ◌∙◌, true, false, some, List, [], ◌∷◌, if◌then◌else◌, leb,
  arith, Bool-cases, Option-cases, inl, inr, Res, success, is_success, replicate, next,
}
use mathlib.Core.Path.{subst}
use casca_log.Hashmap.{
  Bytes, Chain, Map, Heap, same, dup_key, dup_value, malloc, put_internal, move_chain, move_buckets,
  create_empty_buckets, resize, put_dup, put, replace, bucket_of, free_value,
}
use casca_log.Hashmap.Chain.{congr_left}
use casca_log.Hashmap.Buckets.{IsLawful, IsValid, view, view_congr}
use casca_log.Hashmap.Insert.{Stored, put_internal-Stored, present}
use casca_log.Hashmap.Resize.{resize-Resized}

module _ {V : Type 0} where
  -- What `put` does to the abstract table, once key and value are copied.
  pub record Puts (m : Map V) (k : Bytes) (v : V) (res : Res) (m' : Map V) : Type 0 where
    pub stored : Stored m k v res m'
    pub undone : is_success res ≡ false → (q : Bytes) → view m' q ≡ view m q

  -- From the table that `resize` leaves, or from the same one.
  put_internal-Puts :
      {m m₁ : Map V} (k : Bytes) (v : V) (h : Heap V)
      → IsLawful m.ops
      → IsValid m₁
      → m₁.ops ≡ m.ops
      → m₁.data_size ≡ m.data_size
      → ((q : Bytes) → view m₁ q ≡ view m q)
      → let (res, _, m', _) = put_internal m₁ k v h in Puts m k v res m'
  put_internal-Puts {m} {m₁} k v h lawful valid ops size reads =
      let (s, _, undone, _) = put_internal-Stored valid (subst IsLawful (sym ops) lawful) k v h in
      record {
        stored = record {
          valid = s.valid;
          ops = s.ops ∙ ops;
          reads = λ y q. ground (arith, s.reads y q, reads q, ops);
          size = λ y. ground (arith, s.size y, reads k);
        };
        undone = λ f q. rw (undone f) (reads q);
      }

  pub put_dup-Puts :
      {m : Map V} (k : Bytes) (v : V) (h : Heap V)
      → IsValid m
      → IsLawful m.ops
      → let (res, m', _) = put_dup m k v h in Puts m k v res m'
  unfolding put_dup
  put_dup-Puts {m} k v h valid lawful = elim (Bool-cases (leb m.buckets_size m.data_size)) [
    | inr n ↦
        let r = put_internal-Puts k v h lawful valid refl refl (λ q. refl) in
        elim (Bool-cases (is_success (put_internal m k v h).0)) [
          | inl y ↦ rw (n, y) r
          | inr f ↦ rw (n, f) r
        ]
    | inl g ↦
        let z = resize-Resized valid lawful (m.buckets_size * 2) h (omega (arith, valid.pos)) in
        let m₁ = (resize m (m.buckets_size * 2) h).1 in
        let h₁ = (resize m (m.buckets_size * 2) h).2 in
        let r = put_internal-Puts k v h₁ lawful z.valid z.ops z.size z.reads in
        elim (Bool-cases (is_success (put_internal m₁ k v h₁).0)) [
          | inl y ↦ rw (g, y) r
          | inr f ↦ rw (g, f) r
        ]
  ]

  -- A successful `put` leaves a valid table in which exactly the keys that are the same as `k` have
  -- changed: they read the copy `w` of the value. A failed one leaves a valid table with the same
  -- lookups.
  pub put-view :
      {m : Map V} (k : Bytes) (v : V) (h : Heap V)
      → IsValid m
      → IsLawful m.ops
      → let (res, m', _) = put m k v h in
        IsValid m'
        × (is_success res ≡ false → (q : Bytes) → view m' q ≡ view m q)
        × (is_success res ≡ true
            → (w : V) × ((dup_value m.ops v (dup_key m.ops k h).1).0 ≡ some w)
              × ((q : Bytes) → view m' q ≡ (if same m.ops k q then some w else view m q))
              × (m'.data_size + present (view m k) ≡ m.data_size + 1))
  unfolding put
  put-view {m} k v h valid lawful = elim (Option-cases (dup_key m.ops k h).0) [
    | inl n ↦ rw (n, put) (valid, λ f q. refl, λ s. cc)
    | inr (k', e) ↦
        let h₁ = (dup_key m.ops k h).1 in
        elim (Option-cases (dup_value m.ops v h₁).0) [
          | inl n ↦ rw (e, n, put) (valid, λ f q. refl, λ s. cc)
          | inr (w, e') ↦
              let p = put_dup-Puts k' w (dup_value m.ops v h₁).1 valid lawful in
              let copied = lawful.copied k h e in
              let at = λ (q : Bytes). congr_left lawful.equiv k' k q copied in
              let same_key = view_congr m k' k lawful copied in
              rw (e, e', put)
                (
                  p.stored.valid,
                  p.undone,
                  λ s. (
                    w,
                    refl,
                    λ q. rw (p.stored.reads s q, at q),
                    ground (arith, p.stored.size s, same_key),
                  ),
                )
        ]
  ]

  -- No allocation fails.
  abbrev pub IsPlenty : Heap V → Type 0
  IsPlenty h = (n : ℕ) → h.alloc n ≡ true

  put_internal-IsPlenty :
      (m : Map V) (k : Bytes) (v : V) (h : Heap V)
      → IsPlenty h
      → ((put_internal m k v h).0 ≡ success) × IsPlenty (put_internal m k v h).3
  unfolding put_internal malloc free_value
  put_internal-IsPlenty m k v h p = elim (Option-cases (replace (same m.ops) k v (bucket_of m k))) [
    | inl e ↦ rw (e, p 0, put_internal) (refl, λ n. p (suc n))
    | inr (r, e) ↦ rw (e, put_internal) (refl, p)
  ]

  move_chain-IsPlenty :
      (c : Chain V) (m : Map V) (h : Heap V)
      → IsPlenty h
      → ((m' : Map V) × ((move_chain c m h).0 ≡ some m')) × IsPlenty (move_chain c m h).1
  unfolding move_chain
  move_chain-IsPlenty [] m h p = ((m, refl), p)
  move_chain-IsPlenty (e ∷ c) m h p =
      let r = put_internal m e.key e.value h in
      let (done, p') = put_internal-IsPlenty m e.key e.value h p in
      rw done (move_chain-IsPlenty c r.2 r.3 p')

  move_buckets-IsPlenty :
      (bs : List (Chain V)) (m : Map V) (h : Heap V)
      → IsPlenty h
      → ((m' : Map V) × ((move_buckets bs m h).0 ≡ some m')) × IsPlenty (move_buckets bs m h).1
  unfolding move_buckets
  move_buckets-IsPlenty [] m h p = ((m, refl), p)
  move_buckets-IsPlenty (c ∷ bs) m h p =
      let ((m', e), p') = move_chain-IsPlenty c m h p in
      rw e (move_buckets-IsPlenty bs m' (move_chain c m h).1 p')

  -- With memory, `resize` succeeds.
  pub resize-IsPlenty :
      (m : Map V) (n : ℕ) (h : Heap V)
      → IsPlenty h
      → ((resize m n h).0 ≡ success) × IsPlenty (resize m n h).2
  unfolding resize create_empty_buckets malloc
  resize-IsPlenty m n h p =
      let fresh : Map V = record m { buckets = replicate n []; buckets_size = n; data_size = 0 } in
      let ((m', e), p') =
        move_buckets-IsPlenty m.buckets fresh (record h { alloc = next h.alloc })
          (λ i. p (suc i)) in
      rw (p 0) (rw e (refl, p'))

  -- When the copies succeed and no later allocation fails, `put` succeeds, and has doubled a table
  -- that had as many entries as buckets.
  pub put_total :
      {m : Map V} (k : Bytes) (v : V) (h : Heap V) (k' : Bytes) (w : V)
      → IsValid m
      → IsLawful m.ops
      → (dup_key m.ops k h).0 ≡ some k'
      → (dup_value m.ops v (dup_key m.ops k h).1).0 ≡ some w
      → IsPlenty (dup_value m.ops v (dup_key m.ops k h).1).1
      → let (res, m', _) = put m k v h in
        (res ≡ success)
        × (m'.buckets_size
            ≡ (if leb m.buckets_size m.data_size then m.buckets_size * 2 else m.buckets_size))
  unfolding put put_dup
  put_total {m} k v h k' w valid lawful e e' p =
      let h₂ = (dup_value m.ops v (dup_key m.ops k h).1).1 in
      let n = m.buckets_size * 2 in
      let m₁ = (resize m n h₂).1 in
      let z = resize-Resized valid lawful n h₂ (omega (arith, valid.pos)) in
      let (grown, p₁) = resize-IsPlenty m n h₂ p in
      elim (Bool-cases (leb m.buckets_size m.data_size)) [
        | inl g ↦
            let (done, _) = put_internal-IsPlenty m₁ k' w (resize m n h₂).2 p₁ in
            let (_, _, _, width) =
              put_internal-Stored z.valid (subst IsLawful (sym z.ops) lawful) k' w
                (resize m n h₂).2 in
            rw (e, e', put, g, done) (refl, width ∙ z.width (rw grown))
        | inr l ↦
            let (done, _) = put_internal-IsPlenty m k' w h₂ p in
            let (_, _, _, width) = put_internal-Stored valid lawful k' w h₂ in
            rw (e, e', put, l, done) (refl, width)
      ]
