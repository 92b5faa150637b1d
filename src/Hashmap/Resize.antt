-- ===== src/Hashmap/Resize.antt =====
-- `clog_hashmap_resize`: the entries move to other buckets, and the abstract table stays.
use casca_log.Base.{
  ℕ, ◌+◌, ◌≤◌, ◌<◌, ◌≡◌, refl, sym, ◌∙◌, ap, true, false, none, some, List, [], ◌∷◌, ◌++◌, length,
  flatten, replicate, arith, Bool-cases, Option-cases, inl, inr, Res, success, fail, no_memory,
  is_success,
}
use mathlib.Core.Path.{subst, fun_ext}
use mathlib.Core.Option.{or_else, some-injective}
use casca_log.Hashmap.{
  Bytes, Chain, Ops, Map, Heap, same, put_internal, move_chain, then_do, move_buckets,
  create_empty_buckets, resize, malloc,
}
use casca_log.Hashmap.Chain.{find, count}
use casca_log.Hashmap.Buckets.{IsLawful, IsValid, view}
use casca_log.Hashmap.Entries.{flatten-view, empty_lem}
use casca_log.Hashmap.Insert.{put_internal-Stored}

module _ {V : Type 0} where
  -- The table after the entries `es`, none of whose keys it had, were put into it.
  pub record Moved (o : Ops V) (m : Map V) (es : Chain V) (m' : Map V) : Type 0 where
    pub valid : IsValid m'
    pub ops : m'.ops ≡ o
    pub width : m'.buckets_size ≡ m.buckets_size
    pub reads : (q : Bytes) → view m' q ≡ or_else (view m q) (find (same o) q es)
    pub size : m'.data_size ≡ m.data_size + length es

  module _ {o : Ops V} (lawful : IsLawful o) where
    pub move_chain-Moved :
        (es : Chain V) (m : Map V) (h : Heap V) {m' : Map V}
        → IsValid m
        → m.ops ≡ o
        → ((q : Bytes) → count (same o) q es ≤ 1)
        → ((q : Bytes) → 0 < count (same o) q es → view m q ≡ none)
        → (move_chain es m h).0 ≡ some m'
        → Moved o m es m'
    unfolding move_chain count find or_else
    move_chain-Moved [] m h {m'} valid eo once apart e =
        subst (Moved o m []) (some-injective m m' e) (record {
          valid = valid;
          ops = eo;
          width = refl;
          reads = λ q. ground arith;
          size = omega arith;
        })
    move_chain-Moved (d ∷ es) m h {m'} valid eo once apart e =
        let r = put_internal m d.key d.value h in
        let (stored, flag, undone, width) =
          put_internal-Stored valid (subst IsLawful (sym eo) lawful) d.key d.value h in
        elim (Bool-cases (is_success r.0)) [
          | inr n ↦ (let f = rw n at e in cc)
          | inl y ↦
              let later =
                move_chain-Moved es r.2 r.3 {m' = m'} stored.valid (stored.ops ∙ eo)
                  (λ q. omega (arith, once q))
                  (λ q c. ground (arith, once q, apart q, stored.reads y q)) (rw y at e) in
              record {
                valid = later.valid;
                ops = later.ops;
                width = later.width ∙ width;
                reads = λ q. ground (arith, later.reads q, stored.reads y q, once q, apart q);
                size =
                    ground (arith, later.size, stored.size y, apart d.key, lawful.equiv.self d.key);
              }
        ]

    -- The two nested loops are one loop over all the entries.
    move_chain-append :
        (a b : Chain V) (m : Map V) (h : Heap V)
        → move_chain (a ++ b) m h ≡ then_do (move_chain a m h) (λ m' h'. move_chain b m' h')
    unfolding move_chain
    move_chain-append [] b m h = refl
    move_chain-append (d ∷ a) b m h =
        let r = put_internal m d.key d.value h in
        elim (Bool-cases (is_success r.0)) [
          | inl y ↦ rw y (move_chain-append a b r.2 r.3)
          | inr n ↦ rw n
        ]

    move_buckets-flatten :
        (bs : List (Chain V)) (m : Map V) (h : Heap V)
        → move_buckets bs m h ≡ move_chain (flatten bs) m h
    unfolding move_buckets flatten move_chain
    move_buckets-flatten [] m h = refl
    move_buckets-flatten (c ∷ bs) m h = rw (move_chain-append c (flatten bs) m h) (
        ap (then_do (move_chain c m h)) (fun_ext λ m'. fun_ext λ h'. move_buckets-flatten bs m' h'))

module _ {V : Type 0} where
  -- The table after a call of `resize` that was asked for `n` buckets.
  pub record Resized (m : Map V) (n : ℕ) (res : Res) (m' : Map V) : Type 0 where
    pub valid : IsValid m'
    pub ops : m'.ops ≡ m.ops
    pub reads : (q : Bytes) → view m' q ≡ view m q
    pub size : m'.data_size ≡ m.data_size
    pub width : is_success res ≡ true → m'.buckets_size ≡ n
    pub undone : is_success res ≡ false → m' ≡ m

  module _ {m : Map V} (valid : IsValid m) (lawful : IsLawful m.ops) (n : ℕ) (h : Heap V) where
    abbrev fresh : Map V
    fresh = record m { buckets = replicate n []; buckets_size = n; data_size = 0 }

    rehash-Resized :
        {m' : Map V}
        → 0 < n
        → (move_chain (flatten m.buckets) fresh h).0 ≡ some m'
        → Resized m n success m'
    unfolding or_else
    rehash-Resized {m'} pos e =
        let (start, reads) = empty_lem {m = fresh} refl refl pos in
        let moved =
          move_chain-Moved lawful (flatten m.buckets) fresh h {m' = m'} start refl
            (λ q. (flatten-view q valid).1) (λ q _. reads q) e in
        record {
          valid = moved.valid;
          ops = moved.ops;
          reads = λ q. rw (moved.reads q, reads q) (flatten-view q valid).0;
          size = omega (arith, moved.size, valid.counted);
          width = λ s. moved.width;
          undone = λ s. cc;
        }

    unchanged : (res : Res) → is_success res ≡ false → Resized m n res m
    unchanged res f = record {
      valid = valid;
      ops = refl;
      reads = λ q. refl;
      size = refl;
      width = λ s. cc;
      undone = λ s. refl;
    }

  -- `resize` keeps the table valid, every lookup and the number of entries; it has the new number of
  -- buckets after a success, and is what it was after a failure.
  pub resize-Resized :
      {m : Map V} (valid : IsValid m) (lawful : IsLawful m.ops) (n : ℕ) (h : Heap V)
      → 0 < n
      → let (res, m', _) = resize m n h in Resized m n res m'
  unfolding resize create_empty_buckets malloc
  resize-Resized {m} valid lawful n h pos = elim (Bool-cases (malloc h).0) [
    | inr f ↦ rw f (unchanged valid lawful n h no_memory refl)
    | inl y ↦
        let h' = (malloc h).1 in
        elim (Option-cases (move_chain (flatten m.buckets) (fresh valid lawful n h) h').0) [
          | inl e ↦ rw (y, move_buckets-flatten lawful, e) (unchanged valid lawful n h fail refl)
          | inr (m', e) ↦
              rw (y, move_buckets-flatten lawful, e) (rehash-Resized valid lawful n h' pos e)
        ]
  ]
