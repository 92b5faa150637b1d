-- ===== src/FileSystem/Tests.antt =====
-- Small paths of source/utils/clog_file_system.c, and the theorems at them.
use casca_log.Base.{
  ◌≡◌, refl, inl, inr, Bool-cases, bytes_eq_refl, Bool, true, false, [], ◌∷◌, ◌++◌, if◌then◌else◌,
  success, fail, error_format, plenty, arith, bytes_eq,
}
use casca_log.FileSystem.{
  Bytes, create_path_node, scan, write_names, get_unnormalized_abs_path, normalize, split_last,
  wrote, outside, file_get_name, file_get_dir,
}
use casca_log.FileSystem.Names.{IsNormal, plain}
use casca_log.FileSystem.Normal.{normalize-IsNormal}
use casca_log.FileSystem.Again.{normalize_twice}
use casca_log.FileSystem.Last.{get_dir-get_name}
use casca_log.FileSystem.Dirs.{Kind, absent, directory, Made, made, exists, FileSys}
use casca_log.Interpolator.{strcpy, space}

-- "/a", "/a/bc", "/a//./x/../bc/" and "..".
abbrev parent : Bytes
parent = b'/' ∷ b'a' ∷ []

abbrev target : Bytes
target = parent ++ b'/' ∷ b'b' ∷ b'c' ∷ []

abbrev winding : Bytes
winding =
    parent ++ b'/' ∷ b'/' ∷ b'.' ∷ b'/' ∷ b'x' ∷ b'/' ∷ b'.' ∷ b'.' ∷ b'/' ∷ b'b' ∷ b'c' ∷ b'/' ∷ []

abbrev up : Bytes
up = b'.' ∷ b'.' ∷ []

winding_normal : normalize plenty (success, []) winding 8 ≡ (success, target)
unfolding normalize get_unnormalized_abs_path scan create_path_node write_names strcpy space
winding_normal = refl

-- A relative path stands behind the current directory.
relative : normalize plenty (success, parent) (b'b' ∷ b'c' ∷ []) 8 ≡ (success, target)
unfolding normalize get_unnormalized_abs_path scan create_path_node write_names strcpy space
relative = refl

-- There is nothing above the root, for this code; and a byte too few is a failure.
above_root : normalize plenty (success, []) (b'/' ∷ up) 8 ≡ (error_format, [])
unfolding normalize get_unnormalized_abs_path scan create_path_node write_names strcpy space
above_root = refl

small_buffer : normalize plenty (success, []) target 6 ≡ (fail, [])
unfolding normalize get_unnormalized_abs_path scan create_path_node write_names strcpy space
small_buffer = refl

normalize-IsNormal_example : IsNormal 8 target
normalize-IsNormal_example =
    normalize-IsNormal plenty (success, []) winding target 8 (omega arith) winding_normal

normalize_twice_example : normalize plenty (fail, []) target 8 ≡ (success, target)
normalize_twice_example =
    normalize_twice plenty (success, []) (fail, []) winding target 8 (omega arith) winding_normal

target_dir : file_get_dir target 4 ≡ wrote success (parent ++ b'/' ∷ [])
unfolding file_get_dir split_last
target_dir = refl

target_name : file_get_name target 3 ≡ (success, b'b' ∷ b'c' ∷ [])
unfolding file_get_name split_last strcpy
target_name = refl

-- With room for the directory but not for its NUL, the NUL is written behind the buffer.
tight_dir : file_get_dir target 3 ≡ outside
unfolding file_get_dir split_last
tight_dir = refl

parts_of_target :
    ((parent ++ b'/' ∷ []) ++ b'b' ∷ b'c' ∷ [] ≡ target) × (plain (b'b' ∷ b'c' ∷ []) ≡ true)
parts_of_target =
    get_dir-get_name target (parent ++ b'/' ∷ []) (b'b' ∷ b'c' ∷ []) 4 3 target_dir target_name

-- A file system of directories only: what it holds, as a test on names.
abbrev kind_of : Bool → Kind
kind_of true = directory
kind_of false = absent

abbrev made_of : Bool → Made
made_of true = exists
made_of false = made

abbrev with_name : (Bytes → Bool) → Bytes → Bytes → Bool
with_name has p q = if bytes_eq q p then true else has q

named_first : (has : Bytes → Bool) (p : Bytes) → kind_of (with_name has p p) ≡ directory
named_first has p = rw (bytes_eq_refl p) refl

named_still :
    (has : Bytes → Bool) (p q : Bytes)
    → kind_of (has q) ≡ directory
    → kind_of (with_name has p q) ≡ directory
named_still has p q d = elim (Bool-cases (bytes_eq q p)) [
  | inl same ↦ rw same refl
  | inr other ↦ rw other d
]

abbrev tree : FileSys
tree = record {
  Disk = Bytes → Bool;
  stat = λ has p. kind_of (has p);
  mkdir = λ has p. (made_of (has p), with_name has p);
  made-directory = λ has p e. named_first has p;
  mkdir_keeps = named_still;
}

abbrev only_parent : Bytes → Bool
only_parent q = bytes_eq q parent
