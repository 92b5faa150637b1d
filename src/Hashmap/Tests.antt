-- ===== src/Hashmap/Tests.antt =====
-- The table of source/utils/clog_hashmap.c on small inputs, and the theorems at them.
use casca_log.Base.{
  ℕ, zero, suc, ◌+◌, ◌≡◌, ◌↔◌, refl, true, false, none, some, [], ◌∷◌, ◌++◌, if◌then◌else◌, to_nat,
  arith, success, is_success, plenty, get_or, set, take, replicate, bytes_eq, flatten, ◌≤◌, ◌≢◌,
}
use casca_log.Hashmap.{
  Bytes, Map, Heap, key_freed, value_freed, malloc, free_key, free_value, free_entry, dup_key,
  dup_value, same, size_of_key, hash, index, create_empty_buckets, create, replace, extract,
  put_internal, move_chain, move_buckets, resize, put_dup, put, get, take_value, remove, is_exists,
}
use casca_log.Hashmap.{get_index}
use casca_log.Hashmap.Chain.{count}
use casca_log.Hashmap.Murmur.{murmur3_32}
use casca_log.Hashmap.Buckets.{IsLawful, IsValid, view, index-lt}
use casca_log.Hashmap.Entries.{create-empty}
use casca_log.Hashmap.Insert.{present}
use casca_log.Hashmap.Resize.{Resized, resize-Resized}
use casca_log.Hashmap.Put.{put-view, put_total}
use casca_log.Hashmap.Search.{get-view, take_value-view, remove-view, is_exists-view}
use casca_log.Hashmap.Keys.{
  string_ops, fixed_ops, string_dup, string_ops-IsLawful, fixed_ops-IsLawful,
}
use casca_log.Hashmap.Iterator.{reset, visit, visit-reset}
use casca_log.Hashmap.Clear.{clear, frees, clear-frees}

run : Unit {0}
unfolding malloc free_key free_value free_entry dup_key dup_value same size_of_key hash index
    create_empty_buckets create replace extract put_internal move_chain move_buckets resize put_dup
    put get take_value remove is_exists murmur3_32 string_ops string_dup get_or set take replicate
    bytes_eq
run = tt

abbrev key_a : Bytes
key_a = b'a' ∷ b'p' ∷ b'p' ∷ []

abbrev key_b : Bytes
key_b = b'n' ∷ b'e' ∷ b't' ∷ b'w' ∷ b'o' ∷ b'r' ∷ b'k' ∷ []

abbrev heap : Heap ℕ
heap = record { alloc = plenty; freed = [] }

-- A table of one bucket, as it is after shrinking.
abbrev small : Map ℕ
small = record {
  ops = string_ops 4;
  seed = 0xAA6F3B22;
  data_size = 1;
  buckets_size = 1;
  buckets = (record { key = key_a; value = 7 } ∷ []) ∷ [];
}

-- MurmurHash3 of four and of three bytes.
murmur_blocks : murmur3_32 0 (b't' ∷ b'e' ∷ b's' ∷ b't' ∷ []) 4 ≡ 0xba6bd213
unfolding murmur3_32
murmur_blocks = refl

murmur_tail : murmur3_32 0 (b'a' ∷ b'b' ∷ b'c' ∷ []) 3 ≡ 0xb3dd93fa
unfolding murmur3_32
murmur_tail = refl

put_doubles : (put small key_b 9 heap).1.buckets_size ≡ 2
unfolding run
put_doubles = refl

put_replaces : (put small key_a 8 heap).2.freed ≡ key_freed key_a ∷ value_freed 7 ∷ []
unfolding run
put_replaces = refl

get_both :
    let m = (put small key_b 9 heap).1 in
    ((get m key_a).0 ≡ some 7) × ((get m key_b).0 ≡ some 9) × ((remove m key_a heap).0 ≡ true)
unfolding run
get_both = (refl, refl, refl)

lawful : IsLawful small.ops
lawful = string_ops-IsLawful 4

small-placed :
    (q : Bytes) (i : ℕ)
    → (count (same small.ops) q (get_or small.buckets i []) ≤ 1)
      × (get_index small q ≢ i → count (same small.ops) q (get_or small.buckets i []) ≡ 0)
unfolding get_or count
small-placed q zero = (
  ground arith,
  λ ne. absurd (ne (omega (arith, index-lt small.ops small.seed 1 q (omega arith)))),
)
small-placed q (suc i) = (omega arith, λ ne. refl)

small-IsValid : IsValid small
small-IsValid = record {
  sized = refl;
  pos = omega arith;
  counted = unfold flatten in refl;
  placed = small-placed;
}

create-empty_example :
    let m : Map ℕ = record {
      ops = string_ops 4;
      seed = 0xAA6F3B22;
      data_size = 0;
      buckets_size = 16;
      buckets = replicate 16 [];
    } in
    IsValid m × ((q : Bytes) → view m q ≡ none) × (m.ops ≡ string_ops 4) × (m.buckets_size ≡ 16)
unfolding run
create-empty_example = create-empty (string_ops 4) 0 heap refl

grown_twice : Resized small 4 (resize small 4 heap).0 (resize small 4 heap).1
grown_twice = resize-Resized small-IsValid lawful 4 heap (omega arith)

put-view_example :
    let (res, m', _) = put small key_b 9 heap in
    IsValid m'
    × (is_success res ≡ false → (q : Bytes) → view m' q ≡ view small q)
    × (is_success res ≡ true
        → (w : ℕ) × ((dup_value small.ops 9 (dup_key small.ops key_b heap).1).0 ≡ some w)
          × ((q : Bytes) → view m' q ≡ (if same small.ops key_b q then some w else view small q))
          × (m'.data_size + present (view small key_b) ≡ small.data_size + 1))
put-view_example = put-view key_b 9 heap small-IsValid lawful

put_when_full : let (res, m', _) = put small key_b 9 heap in (res ≡ success) × (m'.buckets_size ≡ 2)
unfolding dup_key dup_value malloc string_ops string_dup
put_when_full = put_total key_b 9 heap key_b 9 small-IsValid lawful refl refl (λ n. refl)

view_after_get :
    let (found, m') = get small key_a in
    (found ≡ view small key_a)
    × IsValid m'
    × ((q : Bytes) → view m' q ≡ view small q)
    × (m'.data_size ≡ small.data_size)
view_after_get = get-view small-IsValid lawful key_a

is_exists-view_example : (is_exists small key_a ≡ true) ↔ ((v : ℕ) × (view small key_a ≡ some v))
is_exists-view_example = is_exists-view small-IsValid lawful key_a

take_one :
    let (found, m', _) = take_value small key_a heap in
    (found ≡ view small key_a)
    × IsValid m'
    × ((q : Bytes) → view m' q ≡ (if same small.ops key_a q then none else view small q))
    × (m'.data_size + present found ≡ small.data_size)
take_one = take_value-view small-IsValid lawful key_a heap

remove-view_example :
    let (gone, m', _) = remove small key_a heap in
    (to_nat gone ≡ present (view small key_a))
    × IsValid m'
    × ((q : Bytes) → view m' q ≡ (if same small.ops key_a q then none else view small q))
    × (m'.data_size + to_nat gone ≡ small.data_size)
remove-view_example = remove-view small-IsValid lawful key_a heap

visit-reset_example : visit small 1 (reset small) ≡ flatten small.buckets
visit-reset_example = visit-reset small 1 small-IsValid (omega arith)

clear-frees_example :
    let (m', h') = clear small heap in
    IsValid m'
    × ((q : Bytes) → view m' q ≡ none)
    × (m'.buckets_size ≡ 1)
    × (h' ≡ record heap { freed = frees (flatten small.buckets) ++ [] })
clear-frees_example = clear-frees small heap small-IsValid

-- The keys of the recorders are `uint32_t`.
fixed_4-IsLawful : IsLawful (fixed_ops {V = ℕ} 4 (λ v h. (some v, h)))
fixed_4-IsLawful = fixed_ops-IsLawful 4 (λ v h. (some v, h)) (omega arith)
