-- ===== src/Hashmap/Keys.antt =====
-- The two ways in which casca_log makes its tables: keyed by strings (source/utils/clog_hashmap.h,
-- `clog_hashmap_string_*`) and by objects of a fixed size (`clog_add_recorder` in
-- source/casca_log_core.c).
use casca_log.Base.{
  ℕ, ◌<◌, ◌≡◌, sym, ◌∙◌, ap, true, Option, none, some, if◌then◌else◌, length, take, take-take,
  bytes_eq, bytes_eq_iff, bytes_eq_refl, arith, Bool-cases, inl, inr,
}
use casca_log.Hashmap.{Bytes, Heap, Ops, malloc, same, size_of_key, hash, dup_key}
use mathlib.Core.Path.{subst, fun_ext}
use casca_log.Hashmap.Murmur.{murmur3_32}
use casca_log.Hashmap.Chain.{IsEquiv}
use casca_log.Hashmap.Buckets.{IsLawful}

module _ {V : Type 0} where
  -- `clog_hashmap_string_dup`.
  unfoldable pub string_dup : Bytes → Heap V → Option Bytes × Heap V
  string_dup k h = let (done, h') = malloc h in (if done then some k else none, h')

  -- Strings as keys; values are copied by their size.
  unfoldable pub string_ops : ℕ → Ops V
  string_ops value_size = record {
    key_size = 0;
    value_size = value_size;
    key_dup = some string_dup;
    value_dup = none;
    cmp = some bytes_eq;
    size_of = some length;
  }

  -- Keys of a fixed size, and a function that copies the values.
  unfoldable pub fixed_ops : ℕ → (V → Heap V → Option V × Heap V) → Ops V
  fixed_ops key_size value_dup = record {
    key_size = key_size;
    value_size = 0;
    key_dup = none;
    value_dup = some value_dup;
    cmp = none;
    size_of = none;
  }

bytes_eq_symm : (a b : Bytes) → bytes_eq a b ≡ bytes_eq b a
bytes_eq_symm a b = elim (Bool-cases (bytes_eq a b)) [
  | inl y ↦ y ∙ sym ((bytes_eq_iff b a).1 (sym ((bytes_eq_iff a b).0 y)))
  | inr n ↦ elim (Bool-cases (bytes_eq b a)) [ inl y ↦ y' y | inr n' ↦ n ∙ sym n' ]
]
  where
    y' : bytes_eq b a ≡ true → bytes_eq a b ≡ bytes_eq b a
    y' y = (bytes_eq_iff a b).1 (sym ((bytes_eq_iff b a).0 y)) ∙ sym y

pub bytes_eq-IsEquiv : (f : Bytes → Bytes) → IsEquiv (λ a b. bytes_eq (f a) (f b))
bytes_eq-IsEquiv f = record {
  self = λ a. bytes_eq_refl (f a);
  symm = λ a b. bytes_eq_symm (f a) (f b);
  trans = λ a b c p q.
      (bytes_eq_iff (f a) (f c)).1
        ((bytes_eq_iff (f a) (f b)).0 p ∙ (bytes_eq_iff (f b) (f c)).0 q);
}

module _ {V : Type 0} where
  -- The string callbacks are as the table asks.
  pub string_ops-IsLawful : (value_size : ℕ) → IsLawful {V = V} (string_ops value_size)
  unfolding string_ops same hash size_of_key dup_key string_dup malloc
  string_ops-IsLawful value_size = record {
    equiv = bytes_eq-IsEquiv (λ a. a);
    copied = λ k h e. ground (arith, bytes_eq_refl k);
    hashed = λ seed a b e. rw ((bytes_eq_iff a b).0 e);
  }

  module _ (n : ℕ) (f : V → Heap V → Option V × Heap V) (pos : 0 < n) where
    same-fixed_ops : (a b : Bytes) → same (fixed_ops n f) a b ≡ bytes_eq (take n a) (take n b)
    unfolding fixed_ops same
    same-fixed_ops a b = ground arith

    copied_fixed :
        (k : Bytes) (h : Heap V) {k' : Bytes}
        → (dup_key (fixed_ops n f) k h).0 ≡ some k'
        → k' ≡ take n k
    unfolding fixed_ops dup_key malloc
    copied_fixed k h e = ground arith

    -- So are the defaults for keys of a fixed size that is not 0.
    pub fixed_ops-IsLawful : IsLawful {V = V} (fixed_ops n f)
    fixed_ops-IsLawful = record {
      equiv =
          subst IsEquiv (sym (fun_ext λ a. fun_ext λ b. same-fixed_ops a b))
            (bytes_eq-IsEquiv (take n));
      copied = λ k h {k'} e.
          same-fixed_ops k' k
          ∙ (bytes_eq_iff (take n k') (take n k)).1 (rw (copied_fixed k h e) (take-take n k));
      hashed = λ seed a b e.
          unfold fixed_ops hash size_of_key in
          ap (λ (t : Bytes). murmur3_32 seed t n)
            ((bytes_eq_iff (take n a) (take n b)).0 (sym (same-fixed_ops a b) ∙ e));
    }
