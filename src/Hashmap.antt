-- ===== src/Hashmap.antt =====
-- source/utils/clog_hashmap.c: a chained hash table over client functions.
--
-- A key is the bytes that it points at (a string without its NUL), a value is of any type. The
-- `clog_hashmap_*_f` callbacks are the fields of `Ops`; a callback that is NULL is `none`. A bucket
-- is the list of the entries behind its head node. An operation takes a `Heap`, the outcomes of the
-- allocations to come and a log of the keys and values freed, and returns the heap after it. The
-- arguments `map`, `key` and `value` are not NULL here. `data_size` and `buckets_size` count
-- allocated objects, so they stay below 2 ^ 64 and are plain numbers.
pub mod Murmur
pub mod Chain
pub mod Buckets
pub mod Entries
pub mod Insert
pub mod Resize
pub mod Put
pub mod Search
pub mod Keys
pub mod Iterator
pub mod Clear
mod Tests
use casca_log.Base.{
  ℕ, zero, suc, ◌+◌, ◌-◌, ◌*◌, ◌/◌, ◌%◌, ◌^◌, Bool, true, false, Option, none, some, List, [], ◌∷◌,
  ◌++◌, map, flatten, if◌then◌else◌, ◌==◌, ltb, leb, get_or, set, take, length, replicate, bytes_eq,
  Res, success, fail, no_memory, is_success, Alloc, next,
}
use Prim.Native.Nat.{bit_and}
use mathlib.Core.Option
use Murmur.{murmur3_32}

abbrev pub Bytes : Type 0
Bytes = List ℕ

-- `clog_hashmap_entry_t`, without its `next`.
pub record Entry (V : Type 0) : Type 0 where
  pub key : Bytes
  pub value : V

abbrev pub Chain : Type 0 → Type 0
Chain V = List (Entry V)

-- What `clog_hashmap_free_key` and `clog_hashmap_free_value` were called on.
pub data Freed (V : Type 0) : Type 0 where
  key_freed : Bytes → Freed V
  value_freed : V → Freed V

pub record Heap (V : Type 0) : Type 0 where
  pub alloc : Alloc
  pub freed : List (Freed V)

-- The callbacks and sizes that `clog_hashmap_create` is given.
pub record Ops (V : Type 0) : Type 0 where
  pub key_size : ℕ
  pub value_size : ℕ
  pub key_dup : Option (Bytes → Heap V → Option Bytes × Heap V)
  pub value_dup : Option (V → Heap V → Option V × Heap V)
  pub cmp : Option (Bytes → Bytes → Bool)
  pub size_of : Option (Bytes → ℕ)

pub record Map (V : Type 0) : Type 0 where
  pub ops : Ops V
  pub seed : ℕ
  pub data_size : ℕ
  pub buckets_size : ℕ
  pub buckets : List (Chain V)

module _ {V : Type 0} where
  -- The outcome of one `clog_malloc`.
  unfoldable pub malloc : Heap V → Bool × Heap V
  malloc h = (h.alloc 0, record h { alloc = next h.alloc })

  unfoldable pub free_key : Bytes → Heap V → Heap V
  free_key k h = record h { freed = key_freed k ∷ h.freed }

  unfoldable pub free_value : V → Heap V → Heap V
  free_value v h = record h { freed = value_freed v ∷ h.freed }

  unfoldable pub free_entry : Entry V → Heap V → Heap V
  free_entry e h = free_value e.value (free_key e.key h)

  -- `memcpy` copies the `key_size` bytes of a key.
  unfoldable pub dup_key : Ops V → Bytes → Heap V → Option Bytes × Heap V
  dup_key o k h = elim o.key_dup [
    | some f ↦ f k h
    | none ↦
        let (done, h') = malloc h in
        if o.key_size == 0
        then (none, h)
        else if done
        then (some (take o.key_size k), h')
        else (none, h')
  ]

  -- A value is an object of `value_size` bytes, which `memcpy` copies whole.
  unfoldable pub dup_value : Ops V → V → Heap V → Option V × Heap V
  dup_value o v h = elim o.value_dup [
    | some f ↦ f v h
    | none ↦
        let (done, h') = malloc h in
        if o.value_size == 0 then (none, h) else if done then (some v, h') else (none, h')
  ]

  -- `clog_hashmap_cmp`.
  unfoldable pub same : Ops V → Bytes → Bytes → Bool
  same o a b = elim o.cmp [
    | some f ↦ f a b
    | none ↦ if o.key_size == 0 then false else bytes_eq (take o.key_size a) (take o.key_size b)
  ]

  unfoldable pub size_of_key : Ops V → Bytes → ℕ
  size_of_key o k = elim o.size_of [ some f ↦ f k | none ↦ o.key_size ]

  -- The hash of a key reads the first `len` bytes that it points at.
  unfoldable pub hash : Ops V → ℕ → Bytes → ℕ
  hash o seed k = let len = size_of_key o k in murmur3_32 seed (take len k) len

  -- `(uint32_t)(hash & buckets_size - 1)`; the subtraction is on `size_t`.
  unfoldable pub index : Ops V → ℕ → ℕ → Bytes → ℕ
  index o seed size k =
      bit_and (hash o seed k) (if size == 0 then 2 ^ 64 - 1 else size - 1) % 2 ^ 32

  abbrev pub get_index : Map V → Bytes → ℕ
  get_index m k = index m.ops m.seed m.buckets_size k

  abbrev pub bucket_of : Map V → Bytes → Chain V
  bucket_of m k = get_or m.buckets (get_index m k) []

  abbrev pub set_bucket : Map V → Bytes → Chain V → Map V
  set_bucket m k c = record m { buckets = set m.buckets (get_index m k) c }

  unfoldable pub create_empty_buckets : ℕ → Heap V → Option (List (Chain V)) × Heap V
  create_empty_buckets size h =
      let (done, h') = malloc h in (if done then some (replicate size []) else none, h')

  -- The map is malloc'd first, then its 16 buckets.
  unfoldable pub create : Ops V → ℕ → Heap V → Option (Map V) × Heap V
  create o seed h =
      let (done, h') = malloc h in
      let (buckets, h'') = create_empty_buckets 16 h' in
      if done
      then (
        Option.map
            (λ bs. record {
              ops = o;
              seed = if seed == 0 then 0xAA6F3B22 else seed;
              data_size = 0;
              buckets_size = 16;
              buckets = bs;
            })
            buckets,
        h'',
      )
      else (none, h')

  -- The search of `put_internal`: the old value, and the chain with the new one in its place.
  unfoldable pub replace : (Bytes → Bytes → Bool) → Bytes → V → Chain V → Option (V × Chain V)
  replace eq k v [] = none
  replace eq k v (e ∷ c) =
      let later = Option.map (λ (r : V × Chain V). (r.0, e ∷ r.1)) (replace eq k v c) in
      if eq k e.key then some (e.value, record e { value = v } ∷ c) else later

  -- The search of `get`, `take` and `remove`: the entry found, and the chain without it.
  unfoldable pub extract : (Bytes → Bytes → Bool) → Bytes → Chain V → Option (Entry V × Chain V)
  extract eq k [] = none
  extract eq k (e ∷ c) =
      let later = Option.map (λ (r : Entry V × Chain V). (r.0, e ∷ r.1)) (extract eq k c) in
      if eq e.key k then some (e, c) else later

  -- The result, `*is_replace`, the map and the heap. No key or value in it is NULL.
  unfoldable pub put_internal : Map V → Bytes → V → Heap V → Res × Bool × Map V × Heap V
  put_internal m k v h = elim (replace (same m.ops) k v (bucket_of m k)) [
    | some (old, c) ↦ (success, true, set_bucket m k c, free_value old h)
    | none ↦
        let (done, h') = malloc h in
        if done
        then (
          success,
          false,
          record m {
            buckets = set m.buckets (get_index m k) (record { key = k; value = v } ∷ bucket_of m k);
            data_size = m.data_size + 1;
          },
          h',
        )
        else (no_memory, false, m, h')
  ]

  -- The loops of `resize`; `none` stops them at the first failure.
  unfoldable pub move_chain : Chain V → Map V → Heap V → Option (Map V) × Heap V
  move_chain [] m h = (some m, h)
  move_chain (e ∷ c) m h =
      let (res, _, m', h') = put_internal m e.key e.value h in
      let rest = move_chain c m' h' in if is_success res then rest else (none, h')

  abbrev pub then_do :
      Option (Map V) × Heap V → (Map V → Heap V → Option (Map V) × Heap V) → Option (Map V) × Heap V
  then_do (some m, h) f = f m h
  then_do (none, h) f = (none, h)

  unfoldable pub move_buckets : List (Chain V) → Map V → Heap V → Option (Map V) × Heap V
  move_buckets [] m h = (some m, h)
  move_buckets (c ∷ bs) m h = then_do (move_chain c m h) (λ m' h'. move_buckets bs m' h')

  -- On failure the map is rolled back to its old buckets.
  unfoldable pub resize : Map V → ℕ → Heap V → Res × Map V × Heap V
  resize m new_size h =
      let (fresh, h') = create_empty_buckets new_size h in
      elim fresh [
        | none ↦ (no_memory, m, h')
        | some bs ↦
            let (moved, h'') =
              move_buckets m.buckets
                (record m { buckets = bs; buckets_size = new_size; data_size = 0 }) h' in
            elim moved [ some m' ↦ (success, m', h'') | none ↦ (fail, m, h'') ]
      ]

  -- `put` once the key and the value are duplicated.
  unfoldable pub put_dup : Map V → Bytes → V → Heap V → Res × Map V × Heap V
  put_dup m k v h =
      let (_, m', h') =
        if leb m.buckets_size m.data_size
        then resize m (m.buckets_size * 2) h
        else (success, m, h) in
      let (res, replaced, m'', h'') = put_internal m' k v h' in
      if is_success res
      then (res, m'', if replaced then free_key k h'' else h'')
      else (res, m'', free_value v (free_key k h''))

  unfoldable pub put : Map V → Bytes → V → Heap V → Res × Map V × Heap V
  put m k v h =
      let (key, h₁) = dup_key m.ops k h in
      elim key [
        | none ↦ (no_memory, m, h₁)
        | some k' ↦
            let (value, h₂) = dup_value m.ops v h₁ in
            elim value [ none ↦ (no_memory, m, free_key k' h₂) | some v' ↦ put_dup m k' v' h₂ ]
      ]

  -- The entry that is found goes to the front of its bucket.
  unfoldable pub get : Map V → Bytes → Option V × Map V
  get m k = elim (extract (same m.ops) k (bucket_of m k)) [
    | none ↦ (none, m)
    | some (e, c) ↦ (some e.value, set_bucket m k (e ∷ c))
  ]

  unfoldable pub get_dup : Map V → Bytes → Heap V → Option V × Map V × Heap V
  get_dup m k h =
      let (found, m') = get m k in
      elim found [
        | none ↦ (none, m', h)
        | some v ↦ let (copy, h') = dup_value m.ops v h in (copy, m', h')
      ]

  -- The value passes to the caller, the key is freed.
  unfoldable pub take_value : Map V → Bytes → Heap V → Option V × Map V × Heap V
  take_value m k h = elim (extract (same m.ops) k (bucket_of m k)) [
    | none ↦ (none, m, h)
    | some (e, c) ↦
        (some e.value, record (set_bucket m k c) { data_size = m.data_size - 1 }, free_key e.key h)
  ]

  -- Both parts of the entry are freed, and the table shrinks when it is less than half full.
  unfoldable pub remove : Map V → Bytes → Heap V → Bool × Map V × Heap V
  remove m k h =
      let found = extract (same m.ops) k (bucket_of m k) in
      if m.data_size == 0 then (false, m, h) else elim found [
        | none ↦ (false, m, h)
        | some (e, c) ↦
            let m' : Map V = record (set_bucket m k c) { data_size = m.data_size - 1 } in
            let h' = free_entry e h in
            let (_, m'', h'') = resize m' (m.buckets_size / 2) h' in
            if ltb m'.data_size (m.buckets_size / 2) then (true, m'', h'') else (true, m', h')
      ]

  unfoldable pub is_exists : Map V → Bytes → Bool
  is_exists m k = elim (extract (same m.ops) k (bucket_of m k)) [ some _ ↦ true | none ↦ false ]

  unfoldable pub size : Map V → ℕ
  size m = m.data_size
