-- ===== src/Config/Line.antt =====
-- The lines of source/utils/clog_config.c, and whole configurations.
pub mod Total
use casca_log.Base.{
  ℕ, suc, ◌+◌, ◌*◌, Bool, true, false, ◌||◌, Option, none, some, List, [], ◌∷◌, if◌then◌else◌, ◌==◌,
  length,
}
use casca_log.Config.{
  Bytes, Value, Parsed, failed, parsed, astray, skip, is_valid_name_char, check_inline_comment,
}
use casca_log.Config.Name.{get_valid_group_name, key_loop, equal_loop}
use casca_log.Config.Array.{parse_value}
use casca_log.Config.Group.{
  Item, Group, node, Groups, new_root, Found, refused, found, find_or_create, add_item,
}

-- What a line comes to: NULL; the tree and the current group; or a read outside the line.
pub data Lined : Type 0 where
  null strayed : Lined
  current : Group → List ℕ → Lined

-- The end of the third phase of `clog_config_parse_property`.
abbrev pub with_value : Bytes → Option (Parsed Value) → Option (Parsed Item)
with_value key none = none
with_value key (some failed) = some failed
with_value key (some astray) = some astray
with_value key (some (parsed value rest)) =
    if check_inline_comment rest
    then some (parsed (record { key = key; value = value }) rest)
    else some failed

-- Rounds enough for a text.
abbrev pub rounds : Bytes → ℕ
rounds text = suc (2 * length text)

-- Behind the equals sign, where something has to follow.
abbrev pub from_value : (Bytes → Bool) → Bytes → Bytes → Option (Parsed Item)
from_value in_range key [] = some failed
from_value in_range key (c ∷ cs) = with_value key (parse_value in_range (rounds (c ∷ cs)) (c ∷ cs))

abbrev pub from_equal : (Bytes → Bool) → Bytes → Option Bytes → Option (Parsed Item)
from_equal in_range key none = some failed
from_equal in_range key (some rest) = from_value in_range key rest

-- `clog_config_parse_property`.
unfoldable pub parse_property : (Bytes → Bool) → Bytes → Option (Parsed Item)
parse_property in_range [] = some failed
parse_property in_range (c ∷ cs) = elim (key_loop cs) [
  | none ↦ some failed
  | some (name, rest) ↦ from_equal in_range (c ∷ name) (equal_loop rest)
]

abbrev pub at_group : Bytes → List Item → Option Found → Option Lined
at_group name content none = none
at_group name content (some refused) = some null
at_group name content (some (found kids path)) = some (current (node name content kids) path)

-- A line that begins with a bracket, from behind that.
unfoldable pub process_group : Group → Bytes → Option Lined
process_group (node name content kids) s = elim (get_valid_group_name s) [
  | none ↦ some null
  | some (text, rest) ↦
      if check_inline_comment rest
      then at_group name content (find_or_create (suc (length text)) kids text)
      else some null
]

abbrev pub added : List ℕ → Option Group → Lined
added path none = null
added path (some root) = current root path

abbrev pub at_item : Group → List ℕ → Option (Parsed Item) → Option Lined
at_item root path none = none
at_item root path (some failed) = some null
at_item root path (some astray) = some strayed
at_item root path (some (parsed item rest)) = some (added path (add_item item path root))

-- `clog_config_process_line` behind its spaces.
abbrev pub process_text : (Bytes → Bool) → Group → List ℕ → Bytes → Option Lined
process_text in_range root path [] = some (current root path)
process_text in_range root path (c ∷ cs) =
    if c == b'['
    then process_group root cs
    else if c == b'#'
    then some (current root path)
    else if is_valid_name_char c
    then at_item root path (parse_property in_range (c ∷ cs))
    else some null

-- `clog_config_process_line`.
unfoldable pub process_line : (Bytes → Bool) → Group → List ℕ → Bytes → Option Lined
process_line in_range root path line = process_text in_range root path (skip line)

abbrev pub is_line_end : ℕ → Bool
is_line_end c = c == b'\n' || c == b'\r'

abbrev pub push_line : Bytes → List Bytes → List Bytes
push_line [] ls = ls
push_line (c ∷ cs) ls = (c ∷ cs) ∷ ls

-- The lines that are not empty: the first, and those after it.
unfoldable pub split_lines : Bytes → Bytes × List Bytes
split_lines [] = ([], [])
split_lines (c ∷ cs) =
    let (line, lines) = split_lines cs in
    if is_line_end c then ([], push_line line lines) else (c ∷ line, lines)

-- The lines after one.
abbrev pub on_lined : Option Lined → (Group → List ℕ → Option Lined) → Option Lined
on_lined none more = none
on_lined (some null) more = some null
on_lined (some strayed) more = some strayed
on_lined (some (current root path)) more = more root path

unfoldable pub process_lines : (Bytes → Bool) → Group → List ℕ → List Bytes → Option Lined
process_lines in_range root path [] = some (current root path)
process_lines in_range root path (line ∷ lines) =
    on_lined (process_line in_range root path line)
      (λ root' path'. process_lines in_range root' path' lines)

-- `clog_config_parse`, of a text.
unfoldable pub parse : (Bytes → Bool) → Bytes → Option Lined
parse in_range text =
    let (line, lines) = split_lines text in
    process_lines in_range new_root [] (push_line line lines)
