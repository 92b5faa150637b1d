-- ===== src/Hashmap/Chain.antt =====
-- One bucket of source/utils/clog_hashmap.c: what its searches find and change, for a comparison
-- of keys that is an equivalence.
use casca_log.Base.{
  ℕ, ◌+◌, ◌≤◌, ◌≡◌, refl, Bool, true, Option, none, some, [], ◌∷◌, ◌++◌, if◌then◌else◌, length,
  to_nat, arith, Bool-cases, Option-cases, inl, inr,
}
use mathlib.Core.Option.{or_else}
use casca_log.Hashmap.{Bytes, Entry, Chain, replace, extract}

-- What the table asks of a comparison.
pub record IsEquiv (eq : Bytes → Bytes → Bool) : Type 0 where
  pub self : (a : Bytes) → eq a a ≡ true
  pub symm : (a b : Bytes) → eq a b ≡ eq b a
  pub trans : (a b c : Bytes) → eq a b ≡ true → eq b c ≡ true → eq a c ≡ true

module _ {V : Type 0} (eq : Bytes → Bytes → Bool) where
  -- The specification of a bucket: the value under a key, and how many entries have the key.
  unfoldable pub find : Bytes → Chain V → Option V
  find q [] = none
  find q (e ∷ c) = if eq e.key q then some e.value else find q c

  unfoldable pub count : Bytes → Chain V → ℕ
  count q [] = 0
  count q (e ∷ c) = to_nat (eq e.key q) + count q c

  pub find_absent : (q : Bytes) (c : Chain V) → count q c ≡ 0 → find q c ≡ none
  unfolding count find
  find_absent q [] h = refl
  find_absent q (e ∷ c) h = ground (arith, find_absent q c)

  pub find-append : (q : Bytes) (a b : Chain V) → find q (a ++ b) ≡ or_else (find q a) (find q b)
  unfolding find or_else
  find-append q [] b = refl
  find-append q (e ∷ a) b = ground (arith, find-append q a b)

  pub count-append : (q : Bytes) (a b : Chain V) → count q (a ++ b) ≡ count q a + count q b
  unfolding count
  count-append q [] b = ground arith
  count-append q (e ∷ a) b = ground (arith, count-append q a b)

module _ {eq : Bytes → Bytes → Bool} (equiv : IsEquiv eq) where
  -- Keys that are the same compare alike.
  pub congr_right : (a b c : Bytes) → eq a b ≡ true → eq c a ≡ eq c b
  congr_right a b c h = elim (Bool-cases (eq c a)) [
    | inl y ↦ ground (arith, equiv.trans c a b)
    | inr n ↦ ground (arith, equiv.trans c b a, equiv.symm a b)
  ]

  pub congr_left : (a b c : Bytes) → eq a b ≡ true → eq a c ≡ eq b c
  congr_left a b c h = ground (arith, congr_right a b c, equiv.symm a c, equiv.symm b c)

module _ {V : Type 0} {eq : Bytes → Bytes → Bool} (equiv : IsEquiv eq) where
  pub count_congr : (a b : Bytes) (c : Chain V) → eq a b ≡ true → count eq a c ≡ count eq b c
  unfolding count
  count_congr a b [] h = refl
  count_congr a b (e ∷ c) h = ground (arith, count_congr a b c, congr_right equiv a b e.key)

  pub find_congr : (a b : Bytes) (c : Chain V) → eq a b ≡ true → find eq a c ≡ find eq b c
  unfolding find
  find_congr a b [] h = refl
  find_congr a b (e ∷ c) h = ground (arith, find_congr a b c, congr_right equiv a b e.key)

  module _ (k : Bytes) where
    pub replace-none :
        (v : V) (c : Chain V) → replace eq k v c ≡ none → (find eq k c ≡ none) × (count eq k c ≡ 0)
    unfolding replace find count
    replace-none v [] h = (refl, refl)
    replace-none v (e ∷ c) h = ground (arith, replace-none v c, equiv.symm k e.key)

    -- A replacement is read under the keys that are the same as `k`.
    pub replace-some :
        (v : V) (c : Chain V) {old : V} {c' : Chain V} (q : Bytes)
        → replace eq k v c ≡ some (old, c')
        → (find eq k c ≡ some old)
          × (find eq q c' ≡ (if eq k q then some v else find eq q c))
          × (count eq q c' ≡ count eq q c)
          × (length c' ≡ length c)
    unfolding replace find count
    replace-some v [] q h = ground arith
    replace-some v (e ∷ c) q h = elim (Option-cases (replace eq k v c)) [
      | inl e₁ ↦ ground (arith, equiv.symm k e.key, congr_left equiv e.key k q)
      | inr (r, e₁) ↦ ground (
        arith,
        equiv.symm k e.key,
        congr_left equiv e.key k q,
        congr_left equiv k q e.key,
        equiv.symm q e.key,
        replace-some v c {old = r.0} {c' = r.1} q,
      )
    ]

    pub extract-none :
        (c : Chain V) → extract eq k c ≡ none → (find eq k c ≡ none) × (count eq k c ≡ 0)
    unfolding extract find count
    extract-none [] h = (refl, refl)
    extract-none (e ∷ c) h = ground (arith, extract-none c)

    pub extract-some :
        (c : Chain V) {e : Entry V} {c' : Chain V} (q : Bytes)
        → extract eq k c ≡ some (e, c')
        → (eq e.key k ≡ true)
          × (find eq k c ≡ some e.value)
          × (count eq q c ≡ to_nat (eq e.key q) + count eq q c')
          × (length c ≡ length c' + 1)
    unfolding extract find count
    extract-some [] q h = ground arith
    extract-some (d ∷ c) q h = elim (Option-cases (extract eq k c)) [
      | inl e₁ ↦ ground arith
      | inr (r, e₁) ↦ ground (arith, extract-some c {e = r.0} {c' = r.1} q)
    ]

    pub find-extract :
        (c : Chain V) {e : Entry V} {c' : Chain V} (q : Bytes)
        → extract eq k c ≡ some (e, c')
        → count eq q c ≤ 1
        → (find eq q c ≡ (if eq e.key q then some e.value else find eq q c'))
          × (find eq q c' ≡ (if eq k q then none else find eq q c))
    unfolding extract find count
    find-extract [] q h few = ground arith
    find-extract (d ∷ c) q h few = elim (Option-cases (extract eq k c)) [
      | inl e₁ ↦ ground (arith, congr_left equiv d.key k q, find_absent eq q c)
      | inr (r, e₁) ↦ ground (
        arith,
        congr_left equiv d.key k q,
        find_absent eq q c,
        extract-some c {e = r.0} {c' = r.1} q e₁,
        congr_left equiv r.0.key k q,
        find-extract c {e = r.0} {c' = r.1} q e₁,
      )
    ]
