-- ===== src/FileSystem/Normal.antt =====
-- `clog_normalize`: what the path it writes looks like, and what it makes of that path again.
use casca_log.Base.{
  ℕ, ◌^◌, ◌≤◌, ◌<◌, ◌≡◌, refl, ap, true, false, inl, inr, List, [], ◌∷◌, ltb, reverse, reverse_aux,
  Res, success, is_success, Alloc, next, Bool-cases, arith,
}
use mathlib.Core.Path.{subst}
use casca_log.FileSystem.{
  Bytes, scan, write_names, get_unnormalized_abs_path, from_second, put_slash, write_path,
  normalize_abs, normalize,
}
use casca_log.FileSystem.Names.{Names, NamesOf, IsNormal, scan-NamesOf}
use casca_log.FileSystem.Room.{WrittenIn, write_names-WrittenIn}

abbrev NormalIn : ℕ → Res × Bytes → Type 0
NormalIn size (res, q) = is_success res ≡ true → IsNormal size q

reverse_keeps : (ns ms : List Bytes) → Names ns → Names ms → Names (reverse_aux ns ms)
reverse_keeps [] ms p q = q
reverse_keeps (n ∷ ns) ms (a, e, p) q = reverse_keeps ns (n ∷ ms) p (a, e, q)

put_slash-NormalIn :
    (size : ℕ) (ns : List Bytes) (r : Res × Bytes)
    → Names ns
    → WrittenIn size 1 ns r
    → NormalIn size (put_slash r)
put_slash-NormalIn size ns (res, text) p w = elim (Bool-cases (is_success res)) [
  | inl ok ↦ rw ok (λ e. (ns, ap (λ t. b'/' ∷ t) (w ok).0, p, (w ok).1))
  | inr bad ↦ rw (bad) (λ e. absurd cc)
]

write_path-NormalIn :
    (size : ℕ) (r : Res × List Bytes)
    → 1 < size
    → size < 2 ^ 64
    → NamesOf r
    → NormalIn size (write_path size r)
write_path-NormalIn size (res, nodes) l b p = elim (Bool-cases (is_success res)) [
  | inl ok ↦ rw ok (
      put_slash-NormalIn size (reverse nodes) (write_names size 1 (reverse nodes))
        (reverse_keeps nodes [] p tt) (write_names-WrittenIn size 1 (reverse nodes) l b))
  | inr bad ↦ rw bad (λ e. absurd cc)
]

abs-NormalIn :
    (size : ℕ) (r : Res × Bytes × Alloc)
    → 1 < size
    → size < 2 ^ 64
    → NormalIn size (normalize_abs size r)
abs-NormalIn size (res, path, a) l b = elim (Bool-cases (is_success res)) [
  | inr bad ↦ rw bad (λ e. absurd cc)
  | inl ok ↦ elim (Bool-cases (a 0)) [
    | inr none_left ↦ rw (ok, none_left) (λ e. absurd cc)
    | inl room ↦
        rw (ok, room)
          (write_path-NormalIn size (scan (next a) [] [] (from_second path)) l b
            (scan-NamesOf (next a) [] [] (from_second path) refl tt))
  ]
]

ltb_not : (a b : ℕ) → ltb a b ≡ false → b ≤ a
ltb_not a b e = ground arith

normalize-NormalIn :
    (a : Alloc) (cwd : Res × Bytes) (path : Bytes) (size : ℕ)
    → size < 2 ^ 64
    → NormalIn size (normalize a cwd path size)
unfolding normalize
normalize-NormalIn a cwd path size b = elim (Bool-cases (ltb size 2)) [
  | inl small ↦ rw small (λ e. absurd cc)
  | inr large ↦
      rw large (abs-NormalIn size (get_unnormalized_abs_path a cwd path) (ltb_not size 2 large) b)
]

-- A path that `clog_normalize` writes after a success is a slash and names with a slash between each
-- two, none empty, "." or "..", and it fits the buffer of the given size with its NUL and, when it
-- has a name, another byte; for any path, current directory and outcomes of the allocations, and a
-- size below 2^64.
pub normalize-IsNormal :
    (a : Alloc) (cwd : Res × Bytes) (path q : Bytes) (size : ℕ)
    → size < 2 ^ 64
    → normalize a cwd path size ≡ (success, q)
    → IsNormal size q
normalize-IsNormal a cwd path q size b e =
    subst (NormalIn size) e (normalize-NormalIn a cwd path size b) refl
