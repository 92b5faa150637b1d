-- ===== src/FileSystem/Again.antt =====
-- `clog_normalize` of a path that is normal: the same path.
use casca_log.Base.{
  ℕ, ◌^◌, ◌≤◌, ◌<◌, ◌≡◌, refl, sym, ap, ◌∙◌, true, false, ◌&&◌, not, inl, inr, List, [], ◌∷◌, ◌++◌,
  ◌==◌, ltb, reverse_aux, reverse-reverse, append-nil, append_assoc, Res, success, Alloc, plenty,
  Bool-cases, arith,
}
use casca_log.FileSystem.Normal.{normalize-IsNormal}
use casca_log.FileSystem.{
  Bytes, create_path_node, go_on, last_node, scan, get_unnormalized_abs_path, normalize,
}
use casca_log.FileSystem.Names.{plain, names_entry, Names, join, IsNormal}
use casca_log.FileSystem.Room.{write_names-join}

scan-plain :
    (a : Alloc) (nodes : List Bytes) (name n : Bytes)
    → plain n ≡ true
    → scan a nodes name n ≡ last_node a nodes (name ++ n)
unfolding scan
scan-plain a nodes name [] p = ap (last_node a nodes) (sym (append-nil name))
scan-plain a nodes name (c ∷ n) p = elim (Bool-cases (c == b'/')) [
  | inl slash ↦ absurd (ground (arith, p, slash))
  | inr other ↦
      rw
        (
          other,
          scan-plain a nodes (name ++ c ∷ []) n (ground (arith, p, other)),
          append_assoc name (c ∷ []) n,
        )
        refl
]

scan_slash :
    (a : Alloc) (nodes : List Bytes) (name n cs : Bytes)
    → plain n ≡ true
    → scan a nodes name (n ++ b'/' ∷ cs)
      ≡ go_on (create_path_node a nodes (name ++ n)) (λ a' nodes'. scan a' nodes' [] cs)
unfolding scan
scan_slash a nodes name [] cs p = rw (append-nil name) refl
scan_slash a nodes name (c ∷ n) cs p = elim (Bool-cases (c == b'/')) [
  | inl slash ↦ absurd (ground (arith, p, slash))
  | inr other ↦
      rw
        (
          other,
          scan_slash a nodes (name ++ c ∷ []) n cs (ground (arith, p, other)),
          append_assoc name (c ∷ []) n,
        )
        refl
]

create_named :
    (nodes : List Bytes) (n : Bytes)
    → names_entry n ≡ true
    → create_path_node plenty nodes n ≡ (success, n ∷ nodes, plenty)
unfolding create_path_node
create_named nodes [] e = absurd cc
create_named nodes (c ∷ []) e = elim (Bool-cases (c == b'.')) [
  | inl dot ↦ absurd (ground (arith, e, dot))
  | inr other ↦ rw other refl
]
create_named nodes (c ∷ d ∷ []) e = elim (Bool-cases (c == b'.' && d == b'.')) [
  | inl dots ↦ absurd (let f = ap not dots in cc)
  | inr other ↦ rw other refl
]
create_named nodes (c ∷ d ∷ f ∷ cs) e = refl

last_named :
    (nodes : List Bytes) (n : Bytes)
    → names_entry n ≡ true
    → last_node plenty nodes n ≡ (success, n ∷ nodes)
last_named nodes [] e = absurd cc
last_named nodes (c ∷ n) e = rw (create_named nodes (c ∷ n) e) refl

scan-join :
    (nodes ns : List Bytes)
    → Names ns
    → scan plenty nodes [] (join ns) ≡ (success, reverse_aux ns nodes)
scan-join nodes [] p = scan-plain plenty nodes [] [] refl
scan-join nodes (n ∷ []) (a, e, p) = scan-plain plenty nodes [] n a ∙ last_named nodes n e
scan-join nodes (n ∷ m ∷ ns) (a, e, p) =
    scan_slash plenty nodes [] n (join (m ∷ ns)) a
    ∙ rw (create_named nodes n e) (scan-join (n ∷ nodes) (m ∷ ns) p)

ltb_over : (a b : ℕ) → b ≤ a → ltb a b ≡ false
ltb_over a b l = ground arith

-- Of a path that is normal and fits a buffer of the given size, below 2^64 and at least 2,
-- `clog_normalize` makes the same path and returns CLOG_SUCCESS, when no allocation fails and
-- whatever the current directory is.
pub normal-again :
    (cwd : Res × Bytes) (q : Bytes) (size : ℕ)
    → 1 < size
    → size < 2 ^ 64
    → IsNormal size q
    → normalize plenty cwd q size ≡ (success, q)
unfolding normalize get_unnormalized_abs_path
normal-again cwd q size l b (ns, e, p, r) =
    rw
      (
        ltb_over size 2 l,
        e,
        scan-join [] ns p,
        reverse-reverse ns,
        write_names-join size 1 ns p r b,
      )
      refl

normalize_size :
    (a : Alloc) (cwd : Res × Bytes) (path q : Bytes) (size : ℕ)
    → normalize a cwd path size ≡ (success, q)
    → 1 < size
unfolding normalize
normalize_size a cwd path q size e = elim (Bool-cases (ltb size 2)) [
  | inl small ↦ absurd cc
  | inr large ↦ ground (arith, large)
]

-- What `clog_normalize` writes after a success it leaves alone: of the path it wrote it makes the
-- same path again and returns CLOG_SUCCESS, from any current directory and for the same size, which
-- is below 2^64, when no allocation of the second call fails.
pub normalize_twice :
    (a : Alloc) (cwd other : Res × Bytes) (path q : Bytes) (size : ℕ)
    → size < 2 ^ 64
    → normalize a cwd path size ≡ (success, q)
    → normalize plenty other q size ≡ (success, q)
normalize_twice a cwd other path q size b e =
    normal-again other q size (normalize_size a cwd path q size e) b
      (normalize-IsNormal a cwd path q size b e)
