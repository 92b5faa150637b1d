-- ===== src/FileSystem/Room.antt =====
-- The loop of `clog_normalize` that writes the names into the buffer: when they fit.
use casca_log.Base.{
  ℕ, ◌+◌, ◌-◌, ◌%◌, ◌^◌, ◌<◌, ◌≡◌, refl, ap, Bool, true, false, ◌&&◌, inl, inr, List, [], ◌∷◌, ◌++◌,
  if◌then◌else◌, ltb, leb, lt→ltb, length, length-append, Res, success, fail, is_success,
  Bool-cases, arith,
}
use casca_log.Interpolator.{space, strcpy}
use casca_log.FileSystem.{Bytes, join_rest, write_names}
use casca_log.FileSystem.Names.{names_entry, Names, join, Room}

-- What the loop that writes the names promises after a success.
abbrev pub WrittenIn : ℕ → ℕ → List Bytes → Res × Bytes → Type 0
WrittenIn size offset ns (res, text) =
    is_success res ≡ true → (text ≡ join ns) × Room size offset ns

success_if : (b : Bool) → is_success (if b then success else fail) ≡ true → b ≡ true
success_if true e = refl
success_if false e = e

ltb_both : (n k : ℕ) → (ltb 0 n && ltb n k) ≡ true → n < k
ltb_both n k e = ground arith

fits :
    (size offset : ℕ) (name : Bytes)
    → offset < size
    → size < 2 ^ 64
    → is_success (strcpy (space (size - 1) offset) name).0 ≡ true
    → offset + length name + 1 < size
unfolding strcpy space
fits size offset name o b e =
    let short = ltb_both (length name) ((size - 1 + 2 ^ 64 - offset) % 2 ^ 64) (success_if _ e) in
    omega (arith, short)

fits_conv :
    (size offset : ℕ) (name : Bytes)
    → 0 < length name
    → offset + length name + 1 < size
    → size < 2 ^ 64
    → is_success (strcpy (space (size - 1) offset) name).0 ≡ true
unfolding strcpy space
fits_conv size offset name l o b =
    rw
      (
        lt→ltb 0 (length name) l,
        lt→ltb (length name) ((size - 1 + 2 ^ 64 - offset) % 2 ^ 64) (omega arith),
      )
      refl

length-join :
    (n m : Bytes) (ns : List Bytes)
    → length (join (n ∷ m ∷ ns)) ≡ length n + 1 + length (join (m ∷ ns))
length-join n m ns = omega (arith, length-append n (b'/' ∷ join (m ∷ ns)))

join_on :
    (size offset : ℕ) (n m : Bytes) (ns : List Bytes) (r : Res × Bytes)
    → WrittenIn size (offset + length n + 1) (m ∷ ns) r
    → WrittenIn size offset (n ∷ m ∷ ns) (join_rest n r)
join_on size offset n m ns (res, text) w e =
    (ap (λ t. n ++ b'/' ∷ t) (w e).0, omega (arith, (w e).1, length-join n m ns))

pub write_names-WrittenIn :
    (size offset : ℕ) (ns : List Bytes)
    → offset < size
    → size < 2 ^ 64
    → WrittenIn size offset ns (write_names size offset ns)
unfolding write_names
write_names-WrittenIn size offset [] o b = λ e. (refl, tt)
write_names-WrittenIn size offset (n ∷ []) o b =
    elim (Bool-cases (is_success (strcpy (space (size - 1) offset) n).0)) [
      | inl ok ↦ rw ok (λ e. (refl, fits size offset n o b ok))
      | inr bad ↦ rw bad (λ e. absurd cc)
    ]
write_names-WrittenIn size offset (n ∷ m ∷ ns) o b =
    elim (Bool-cases (is_success (strcpy (space (size - 1) offset) n).0)) [
      | inr bad ↦ rw bad (λ e. absurd cc)
      | inl ok ↦ elim (Bool-cases (leb size (offset + length n + 2))) [
        | inl full ↦ rw (ok, full) (λ e. absurd cc)
        | inr left ↦
            rw (ok, left)
              (join_on size offset n m ns (write_names size (offset + length n + 1) (m ∷ ns)) (
                write_names-WrittenIn size (offset + length n + 1) (m ∷ ns) (ground (arith, left))
                  b))
      ]
    ]

leb_over : (n k : ℕ) → k < n → leb n k ≡ false
leb_over n k l = ground arith

named_length : (n : Bytes) → names_entry n ≡ true → 0 < length n
named_length [] e = absurd cc
named_length (c ∷ cs) e = omega arith

pub write_names-join :
    (size offset : ℕ) (ns : List Bytes)
    → Names ns
    → Room size offset ns
    → size < 2 ^ 64
    → write_names size offset ns ≡ (success, join ns)
unfolding write_names
write_names-join size offset [] p r b = refl
write_names-join size offset (n ∷ []) (_, e, _) r b =
    rw (fits_conv size offset n (named_length n e) r b) refl
write_names-join size offset (n ∷ m ∷ ns) (_, e, ps) r b =
    let l = length-join n m ns in
    rw
      (
        fits_conv size offset n (named_length n e) (omega (arith, r, l)) b,
        leb_over size (offset + length n + 2) (omega (arith, r, l)),
        write_names-join size (offset + length n + 1) (m ∷ ns) ps (omega (arith, r, l)) b,
      )
      refl
