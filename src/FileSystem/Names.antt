-- ===== src/FileSystem/Names.antt =====
-- The loop of `clog_normalize` over a path: the nodes it makes are names.
use casca_log.Base.{
  ℕ, ◌+◌, ◌<◌, ◌≡◌, refl, ap, Bool, true, false, ◌&&◌, not, inl, inr, List, [], ◌∷◌, ◌++◌, ◌==◌,
  length, Res, success, is_success, Alloc, Bool-cases, arith,
}
use casca_log.FileSystem.{Bytes, push_node, pop_node, create_path_node, go_on, scan}

-- No slash in it.
abbrev pub plain : Bytes → Bool
plain [] = true
plain (c ∷ cs) = not (c == b'/') && plain cs

-- Not empty, not "." and not "..".
abbrev pub names_entry : Bytes → Bool
names_entry [] = false
names_entry (c ∷ []) = not (c == b'.')
names_entry (c ∷ d ∷ []) = not (c == b'.' && d == b'.')
names_entry (c ∷ d ∷ e ∷ cs) = true

abbrev pub Names : List Bytes → Type 0
Names [] = Unit
Names (n ∷ ns) = (plain n ≡ true) × (names_entry n ≡ true) × Names ns

-- The names with a slash between each two.
abbrev pub join : List Bytes → Bytes
join [] = []
join (n ∷ []) = n
join (n ∷ m ∷ ns) = n ++ b'/' ∷ join (m ∷ ns)

-- The names fit behind the first bytes of a buffer, with a byte to spare.
abbrev pub Room : ℕ → ℕ → List Bytes → Type 0
Room size offset [] = Unit
Room size offset (n ∷ ns) = offset + length (join (n ∷ ns)) + 1 < size

-- A normal path of a buffer.
abbrev pub IsNormal : ℕ → Bytes → Type 0
IsNormal size q = (ns : List Bytes) × (q ≡ b'/' ∷ join ns) × Names ns × Room size 1 ns

abbrev Kept : Res × List Bytes × Alloc → Type 0
Kept (res, nodes, a) = Names nodes

abbrev pub NamesOf : Res × List Bytes → Type 0
NamesOf (res, nodes) = Names nodes

push-Kept :
    (a : Alloc) (nodes : List Bytes) (name : Bytes)
    → plain name ≡ true
    → names_entry name ≡ true
    → Names nodes
    → Kept (push_node a nodes name)
push-Kept a nodes name p e ns = elim (Bool-cases (a 0)) [
  | inr bad ↦ rw bad ns
  | inl ok ↦ elim (Bool-cases (a 1)) [
    | inr bad ↦ rw (ok, bad) ns
    | inl ok' ↦ rw (ok, ok') (p, e, ns)
  ]
]

pop-Kept : (a : Alloc) (nodes : List Bytes) → Names nodes → Kept (pop_node a nodes)
pop-Kept a [] ns = tt
pop-Kept a (n ∷ nodes) (p, e, ns) = ns

create-Kept :
    (a : Alloc) (nodes : List Bytes) (name : Bytes)
    → plain name ≡ true
    → Names nodes
    → Kept (create_path_node a nodes name)
unfolding create_path_node
create-Kept a nodes [] p ns = ns
create-Kept a nodes (c ∷ []) p ns = elim (Bool-cases (c == b'.')) [
  | inl dot ↦ rw dot ns
  | inr other ↦ rw other (push-Kept a nodes (c ∷ []) p (ground arith) ns)
]
create-Kept a nodes (c ∷ d ∷ []) p ns = elim (Bool-cases (c == b'.' && d == b'.')) [
  | inl dots ↦ rw dots (pop-Kept a nodes ns)
  | inr other ↦ rw other (push-Kept a nodes (c ∷ d ∷ []) p (ap not other) ns)
]
create-Kept a nodes (c ∷ d ∷ e ∷ cs) p ns = push-Kept a nodes (c ∷ d ∷ e ∷ cs) p refl ns

go_on-NamesOf :
    (r : Res × List Bytes × Alloc) (more : Alloc → List Bytes → Res × List Bytes)
    → Kept r
    → ((a : Alloc) (nodes : List Bytes) → Names nodes → NamesOf (more a nodes))
    → NamesOf (go_on r more)
go_on-NamesOf (res, nodes, a) more ns k = elim (Bool-cases (is_success res)) [
  | inl ok ↦ rw ok (k a nodes ns)
  | inr bad ↦ rw bad ns
]

pub plain_snoc :
    (name : Bytes) (c : ℕ) → plain name ≡ true → (c == b'/') ≡ false → plain (name ++ c ∷ []) ≡ true
plain_snoc [] c p n = rw n refl
plain_snoc (d ∷ name) c p n = elim (Bool-cases (d == b'/')) [
  | inl ok ↦ ground (arith, p, ok)
  | inr bad ↦ rw bad (plain_snoc name c (ground (arith, p, bad)) n)
]

pub scan-NamesOf :
    (a : Alloc) (nodes : List Bytes) (name path : Bytes)
    → plain name ≡ true
    → Names nodes
    → NamesOf (scan a nodes name path)
unfolding scan
scan-NamesOf a nodes [] [] p ns = ns
scan-NamesOf a nodes (c ∷ name) [] p ns =
    go_on-NamesOf (create_path_node a nodes (c ∷ name)) (λ a' nodes'. (success, nodes'))
      (create-Kept a nodes (c ∷ name) p ns) (λ a' nodes' ns'. ns')
scan-NamesOf a nodes name (c ∷ cs) p ns = elim (Bool-cases (c == b'/')) [
  | inl ok ↦ rw ok (
      go_on-NamesOf (create_path_node a nodes name) (λ a' nodes'. scan a' nodes' [] cs)
        (create-Kept a nodes name p ns) (λ a' nodes' ns'. scan-NamesOf a' nodes' [] cs refl ns'))
  | inr bad ↦ rw bad (scan-NamesOf a nodes (name ++ c ∷ []) cs (plain_snoc name c p bad) ns)
]
