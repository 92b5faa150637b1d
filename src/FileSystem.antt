-- ===== src/FileSystem.antt =====
-- Paths and directories in source/utils/clog_file_system.c, on a system other than Windows.
--
-- A path is its bytes up to the NUL. The current directory is what clog_cwd returns. A node of a path
-- is its name; the nodes are listed from the last one back, as the code holds that one.
mod Names
mod Room
pub mod Normal
pub mod Again
pub mod Last
pub mod Dirs
mod Tests
use casca_log.Base.{
  ℕ, suc, ◌+◌, ◌-◌, ◌^◌, Bool, true, false, ◌&&◌, not, Option, none, some, List, [], ◌∷◌, ◌++◌,
  if◌then◌else◌, ◌==◌, ltb, leb, length, reverse, Res, success, fail, invalid_param, error_format,
  no_memory, is_success, Alloc, next,
}
use casca_log.Interpolator.{space, strcpy}

abbrev pub Bytes : Type 0
Bytes = List ℕ

-- A node that is new, by the two calls of malloc for it and its name.
abbrev pub push_node : Alloc → List Bytes → Bytes → Res × List Bytes × Alloc
push_node a nodes name =
    if a 0
    then if a 1 then (success, name ∷ nodes, next (next a)) else (no_memory, nodes, next (next a))
    else (no_memory, nodes, next a)

-- The node before the last; the head of the list has none.
abbrev pub pop_node : Alloc → List Bytes → Res × List Bytes × Alloc
pop_node a [] = (error_format, [], a)
pop_node a (name ∷ nodes) = (success, nodes, a)

-- `clog_create_path_node`, of what stands between two slashes.
unfoldable pub create_path_node : Alloc → List Bytes → Bytes → Res × List Bytes × Alloc
create_path_node a nodes [] = (success, nodes, a)
create_path_node a nodes (c ∷ []) =
    if c == b'.' then (success, nodes, a) else push_node a nodes (c ∷ [])
create_path_node a nodes (c ∷ d ∷ []) =
    if c == b'.' && d == b'.' then pop_node a nodes else push_node a nodes (c ∷ d ∷ [])
create_path_node a nodes (c ∷ d ∷ e ∷ cs) = push_node a nodes (c ∷ d ∷ e ∷ cs)

abbrev pub go_on :
    Res × List Bytes × Alloc → (Alloc → List Bytes → Res × List Bytes) → Res × List Bytes
go_on (res, nodes, a) more = if is_success res then more a nodes else (res, nodes)

-- What stands behind the last slash.
abbrev pub last_node : Alloc → List Bytes → Bytes → Res × List Bytes
last_node a nodes [] = (success, nodes)
last_node a nodes (c ∷ cs) =
    go_on (create_path_node a nodes (c ∷ cs)) (λ a' nodes'. (success, nodes'))

-- The loop of `clog_normalize` over the path, with what stands behind the last slash so far.
unfoldable pub scan : Alloc → List Bytes → Bytes → Bytes → Res × List Bytes
scan a nodes name [] = last_node a nodes name
scan a nodes name (c ∷ cs) =
    let split = go_on (create_path_node a nodes name) (λ a' nodes'. scan a' nodes' [] cs) in
    let plain = scan a nodes (name ++ c ∷ []) cs in if c == b'/' then split else plain

abbrev pub join_rest : Bytes → Res × Bytes → Res × Bytes
join_rest name (res, text) = (res, name ++ b'/' ∷ text)

-- The loop that writes the names from an offset of the buffer on, and what it writes.
unfoldable pub write_names : ℕ → ℕ → List Bytes → Res × Bytes
write_names size offset [] = (success, [])
write_names size offset (name ∷ []) =
    if is_success (strcpy (space (size - 1) offset) name).0 then (success, name) else (fail, [])
write_names size offset (name ∷ other ∷ names) =
    let rest = write_names size (offset + length name + 1) (other ∷ names) in
    if is_success (strcpy (space (size - 1) offset) name).0
    then if leb size (offset + length name + 2) then (no_memory, []) else join_rest name rest
    else (fail, [])

-- `clog_get_unnormalized_abs_path`, by what clog_cwd returns.
abbrev pub from_cwd : Alloc → Res × Bytes → Bytes → Res × Bytes × Alloc
from_cwd a (res, cwd) path =
    if is_success res
    then if a 0
      then if is_success (strcpy (length cwd + length path + 2) cwd).0
          && is_success (strcpy (length path + 1) path).0
        then (success, cwd ++ b'/' ∷ path, next a)
        else (fail, [], next a)
      else (no_memory, [], next a)
    else (res, [], a)

abbrev pub starts_slash : Bytes → Bool
starts_slash [] = false
starts_slash (c ∷ cs) = c == b'/'

-- The test at its end.
abbrev pub check_slash : Res × Bytes × Alloc → Res × Bytes × Alloc
check_slash (res, path, a) =
    if is_success res
    then if starts_slash path then (success, path, a) else (invalid_param, [], a)
    else (res, [], a)

unfoldable pub get_unnormalized_abs_path : Alloc → Res × Bytes → Bytes → Res × Bytes × Alloc
get_unnormalized_abs_path a cwd path = check_slash (
    if starts_slash path
    then if a 0 then (success, path, next a) else (no_memory, [], next a)
    else from_cwd a cwd path)

abbrev pub from_second : Bytes → Bytes
from_second [] = []
from_second (c ∷ cs) = cs

abbrev pub put_slash : Res × Bytes → Res × Bytes
put_slash (res, text) = if is_success res then (success, b'/' ∷ text) else (res, [])

abbrev pub write_path : ℕ → Res × List Bytes → Res × Bytes
write_path size (res, nodes) =
    if is_success res then put_slash (write_names size 1 (reverse nodes)) else (res, [])

abbrev pub normalize_abs : ℕ → Res × Bytes × Alloc → Res × Bytes
normalize_abs size (res, path, a) =
    if is_success res
    then if a 0 then write_path size (scan (next a) [] [] (from_second path)) else (no_memory, [])
    else (res, [])

-- `clog_normalize` into a buffer of some size: the code and, after a success, the path in the buffer.
unfoldable pub normalize : Alloc → Res × Bytes → Bytes → ℕ → Res × Bytes
normalize a cwd path size =
    if ltb size 2
    then (invalid_param, [])
    else normalize_abs size (get_unnormalized_abs_path a cwd path)

-- strrchr(fullpath, '/'): what stands up to the last slash, with it, and behind that.
unfoldable pub split_last : Bytes → Option (Bytes × Bytes)
split_last [] = none
split_last (c ∷ cs) = elim (split_last cs) [
  | some (dir, file) ↦ some (c ∷ dir, file)
  | none ↦ if c == b'/' then some (c ∷ [], cs) else none
]

-- What a function writes into a buffer: the code and the text, or a write outside.
pub data Written : Type 0 where
  wrote : Res → Bytes → Written
  outside : Written

-- `clog_file_get_name`.
unfoldable pub file_get_name : Bytes → ℕ → Res × Bytes
file_get_name fullpath size = elim (split_last fullpath) [
  | none ↦ (invalid_param, [])
  | some (dir, file) ↦
      let copied = if is_success (strcpy size file).0 then (success, file) else (fail, []) in
      if size == 0 && length file == 0 then (success, []) else copied
]

-- `clog_file_get_dir`: the NUL goes to `dir[num]`.
unfoldable pub file_get_dir : Bytes → ℕ → Written
file_get_dir fullpath size = elim (split_last fullpath) [
  | none ↦ wrote invalid_param []
  | some (dir, file) ↦
      if ltb size (length dir)
      then wrote invalid_param []
      else if size == length dir
      then outside
      else wrote success dir
]
