-- ===== src/FileSystem/Last.antt =====
-- The two parts of a path at its last slash: `clog_file_get_dir` and `clog_file_get_name`.
use casca_log.Base.{
  ℕ, ◌≡◌, ◌≢◌, refl, ap, true, ◌&&◌, inl, inr, Option, none, some, [], ◌∷◌, ◌++◌, ◌==◌, ltb, length,
  Res, success, is_success, Bool-cases, Option-cases, arith,
}
use mathlib.Core.Path.{subst}
use casca_log.Interpolator.{strcpy}
use casca_log.FileSystem.{Bytes, split_last, Written, wrote, outside, file_get_name, file_get_dir}
use casca_log.FileSystem.Names.{plain}

-- What a split promises of the string: the parts make it again, and the second has no slash; without
-- a split the string has none.
abbrev Parts : Bytes → Option (Bytes × Bytes) → Type 0
Parts path none = plain path ≡ true
Parts path (some (dir, file)) = (dir ++ file ≡ path) × (plain file ≡ true)

split_last-Parts : (path : Bytes) → Parts path (split_last path)
unfolding split_last
split_last-Parts [] = refl
split_last-Parts (c ∷ cs) = elim (Option-cases (split_last cs)) [
  | inr ((dir, file), e) ↦
      let (whole, last) = subst (Parts cs) e (split_last-Parts cs) in
      rw e (ap (λ t. c ∷ t) whole, last)
  | inl e ↦
      let bare = subst (Parts cs) e (split_last-Parts cs) in
      elim (Bool-cases (c == b'/')) [
        | inl slash ↦ rw (e, slash) (refl, bare)
        | inr other ↦ rw (e, other) (rw other bare)
      ]
]

abbrev DirIs : Bytes → Written → Type 0
DirIs dir (wrote res text) = is_success res ≡ true → text ≡ dir
DirIs dir outside = Unit

file_get_dir-DirIs :
    (path : Bytes) (size : ℕ) (dir file : Bytes)
    → split_last path ≡ some (dir, file)
    → DirIs dir (file_get_dir path size)
unfolding file_get_dir
file_get_dir-DirIs path size dir file e = elim (Bool-cases (ltb size (length dir))) [
  | inl small ↦ rw (file_get_dir, e, small) (λ s. absurd cc)
  | inr roomy ↦ elim (Bool-cases (size == length dir)) [
    | inl same ↦ rw (file_get_dir, e, roomy, same) tt
    | inr more ↦ rw (file_get_dir, e, roomy, more) (λ s. refl)
  ]
]

empty_of : (file : Bytes) (size : ℕ) → (size == 0 && length file == 0) ≡ true → [] ≡ file
empty_of [] size e = refl
empty_of (c ∷ file) size e = absurd (ground (arith, e))

abbrev NameIs : Bytes → Res × Bytes → Type 0
NameIs file (res, text) = is_success res ≡ true → text ≡ file

file_get_name-NameIs :
    (path : Bytes) (size : ℕ) (dir file : Bytes)
    → split_last path ≡ some (dir, file)
    → NameIs file (file_get_name path size)
unfolding file_get_name
file_get_name-NameIs path size dir file e = elim (Bool-cases (size == 0 && length file == 0)) [
  | inl nothing ↦ rw (file_get_name, e, nothing) (λ s. empty_of file size nothing)
  | inr more ↦ elim (Bool-cases (is_success (strcpy size file).0)) [
    | inl ok ↦ rw (file_get_name, e, more, ok) (λ s. refl)
    | inr bad ↦ rw (file_get_name, e, more, bad) (λ s. absurd cc)
  ]
]

no_dir :
    (path : Bytes) (size : ℕ) (d : Bytes)
    → split_last path ≡ none
    → file_get_dir path size ≢ wrote success d
unfolding file_get_dir
no_dir path size d e h = absurd cc

-- When `clog_file_get_dir` and `clog_file_get_name` of one path return CLOG_SUCCESS, for buffers of
-- any sizes, the directory and the name in a row are that path, and the name has
-- no slash.
pub get_dir-get_name :
    (path d f : Bytes) (dir_size name_size : ℕ)
    → file_get_dir path dir_size ≡ wrote success d
    → file_get_name path name_size ≡ (success, f)
    → (d ++ f ≡ path) × (plain f ≡ true)
get_dir-get_name path d f dir_size name_size h k = elim (Option-cases (split_last path)) [
  | inl e ↦ absurd (no_dir path dir_size d e h)
  | inr ((dir, file), e) ↦
      let parts = subst (Parts path) e (split_last-Parts path) in
      let is_dir = subst (DirIs dir) h (file_get_dir-DirIs path dir_size dir file e) refl in
      let is_name = subst (NameIs file) k (file_get_name-NameIs path name_size dir file e) refl in
      rw (is_dir, is_name) parts
]
