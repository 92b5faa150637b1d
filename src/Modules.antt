-- ===== src/Modules.antt =====
-- The modules of a context in source/casca_log_core.c, one by one or from a configuration.
--
-- The table of modules is the hash map's: its operations are parameters, which return what
-- clog_hashmap_put and clog_hashmap_remove do and the table afterwards. A result `none` is a write
-- outside an array, or a configuration that is read outside its text. CASCA_LOG_TARGET_RECORDER_MAX_NUM
-- is a parameter, as a build chooses it.
pub mod Fit
mod Tests
use casca_log.Base.{
  ℕ, suc, ◌+◌, ◌<◌, ◌≤◌, Bool, true, false, not, Option, none, some, List, [], ◌∷◌, ◌++◌,
  if◌then◌else◌, ◌==◌, ltb, Res, success, invalid_param, error_format, no_memory, target_not_found,
  oversize, already_existed, abnormal_state, is_success,
}
use casca_log.Config.{Bytes, Value, sint, uint, float, char, string, bool, array, Items, nil, cons}
use casca_log.Config.Group.{Group, node, Groups, no_child, child}
use casca_log.Config.Find.{
  find_group, find_item_in_group, find_item_in_group_uint, item_get_enabled,
}
use casca_log.Config.Line.{Lined, null, strayed, current, parse}
use casca_log.Logger.{Module}
use casca_log.Context.{State, is_created}

-- CLOG_LEVEL_ALL and CLOG_LEVEL_UNSPECIFIED.
abbrev pub level_all : ℕ
level_all = 63

abbrev pub level_unspecified : ℕ
level_unspecified = 4294967295

-- CLOG_STR_LEVEL, CLOG_STR_RECORDER and CLOG_STR_G_PROCESS.
abbrev pub str_level : Bytes
str_level = b'l' ∷ b'e' ∷ b'v' ∷ b'e' ∷ b'l' ∷ []

abbrev pub str_recorder : Bytes
str_recorder = b'r' ∷ b'e' ∷ b'c' ∷ b'o' ∷ b'r' ∷ b'd' ∷ b'e' ∷ b'r' ∷ []

abbrev pub str_process : Bytes
str_process = b'P' ∷ b'r' ∷ b'o' ∷ b'c' ∷ b'e' ∷ b's' ∷ b's' ∷ []

-- What the loop over the recorders of a module comes to: an error; the recorders; or a write outside.
pub data Filled : Type 0 where
  stopped : Res → Filled
  filled : List ℕ → Filled
  outside : Filled

abbrev pub also : ℕ → Filled → Filled
also id (stopped ret) = stopped ret
also id (filled ids) = filled (id ∷ ids)
also id outside = outside

-- One round, with what the rounds after it come to.
abbrev pub read_recorder : ℕ → ℕ → Value → Filled → Filled
read_recorder max_num num (uint id) later =
    if ltb max_num num then stopped oversize else if num == max_num then outside else also id later
read_recorder max_num num (sint n) later = stopped error_format
read_recorder max_num num (float text) later = stopped error_format
read_recorder max_num num (char c) later = stopped error_format
read_recorder max_num num (string text) later = stopped error_format
read_recorder max_num num (bool flag) later = stopped error_format
read_recorder max_num num (array items) later = stopped error_format

-- The loop of `clog_init_process_module`, `num` recorders being there.
unfoldable pub read_recorders : ℕ → ℕ → Items → Filled
read_recorders max_num num nil = filled []
read_recorders max_num num (cons value items) =
    read_recorder max_num num value (read_recorders max_num (suc num) items)

-- The item for the recorders.
abbrev pub recorders_of : ℕ → Option Value → Filled
recorders_of max_num none = filled []
recorders_of max_num (some (array items)) = read_recorders max_num 0 items
recorders_of max_num (some (uint n)) = stopped error_format
recorders_of max_num (some (sint n)) = stopped error_format
recorders_of max_num (some (float text)) = stopped error_format
recorders_of max_num (some (char c)) = stopped error_format
recorders_of max_num (some (string text)) = stopped error_format
recorders_of max_num (some (bool flag)) = stopped error_format

-- The level: that of the configuration, or the mask of the context where there is none.
abbrev pub level_of : ℕ → Res × Option ℕ → Res × ℕ
level_of default_mask (target_not_found, value) = (success, default_mask)
level_of default_mask (ret, none) = (ret, 0)
level_of default_mask (ret, some value) = (ret, value)

-- A success goes on.
abbrev pub and_then : {M : Type 0} → Option (Res × M) → (M → Option (Res × M)) → Option (Res × M)
and_then none more = none
and_then (some (ret, map)) more = if is_success ret then more map else some (ret, map)

abbrev pub with_table : {M : Type 0} → Option (Res × M) → Option (Res × Option M)
with_table none = none
with_table (some (ret, map)) = some (ret, some map)

abbrev pub is_there : {M : Type 0} → Option M → Bool
is_there none = false
is_there (some map) = true

abbrev pub table_of : {M : Type 0} → Option M → Option M → Option M
table_of none made = made
table_of (some map) made = some map

module _ {M : Type 0} (max_num : ℕ) (put : M → Bytes → Module → Res × M) where
  abbrev pub put_filled : M → Bytes → ℕ → Filled → Option (Res × M)
  put_filled map name level (stopped ret) = some (ret, map)
  put_filled map name level (filled ids) =
      some (put map name (record { level = level; recorders = ids }))
  put_filled map name level outside = none

  abbrev pub with_level : M → Bytes → Option Value → Res × ℕ → Option (Res × M)
  with_level map name recorders (ret, level) =
      if is_success ret
      then if ltb level_all level
        then some (invalid_param, map)
        else put_filled map name level (recorders_of max_num recorders)
      else some (ret, map)

  abbrev pub if_enabled : ℕ → Group → Bytes → M → Res × Bool → Option (Res × M)
  if_enabled default_mask group name map (ret, enabled) =
      if is_success ret
      then if enabled
        then with_level map name (find_item_in_group group str_recorder)
            (level_of default_mask (find_item_in_group_uint group str_level))
        else some (success, map)
      else some (ret, map)

  -- `clog_init_process_module`.
  unfoldable pub init_process_module : ℕ → Group → M → Option (Res × M)
  init_process_module default_mask (node name content kids) map =
      if_enabled default_mask (node name content kids) name map
        (item_get_enabled (node name content kids) true)

  -- The loop of `clog_init_modules`.
  unfoldable pub init_children : ℕ → Groups → M → Option (Res × M)
  init_children mask no_child map = some (success, map)
  init_children mask (child group siblings) map =
      and_then (init_process_module mask group map) (init_children mask siblings)

  -- `clog_init_modules`: the code, and the table if there is one; `made` is the empty table, when there
  -- is memory for it.
  abbrev pub init_table : ℕ → Groups → Option M → Option M → Option (Res × Option M)
  init_table mask kids (some map) made = with_table (init_children mask kids map)
  init_table mask kids none (some map) = with_table (init_children mask kids map)
  init_table mask kids none none = some (no_memory, none)

  abbrev pub init_group : ℕ → Option Group → Option M → Option M → Option (Res × Option M)
  init_group mask none table made = some (target_not_found, table)
  init_group mask (some (node name content kids)) table made = init_table mask kids table made

  unfoldable pub init_modules : Bytes → ℕ → Group → Option M → Option M → Option (Res × Option M)
  init_modules process mask root table made =
      init_group mask (find_group root (str_process ∷ process ∷ []) 2) table made

  abbrev pub from_config : Bytes → ℕ → Option M → Option Lined → Option (Res × Option M)
  from_config process mask made none = none
  from_config process mask made (some null) = some (error_format, none)
  from_config process mask made (some strayed) = none
  from_config process mask made (some (current root path)) =
      init_modules process mask root none made

  -- `clog_set_modules`, of a text.
  unfoldable pub set_modules :
      (Bytes → Bool) → State → Bytes → ℕ → Option M → Option M → Bytes → Option (Res × Option M)
  set_modules in_range state process mask table made config =
      if is_created state
      then if is_there table
        then some (already_existed, table)
        else from_config process mask made (parse in_range config)
      else some (abnormal_state, table)

  abbrev pub target_of : ℕ → Module → Module
  target_of mask m = if m.level == level_unspecified then record m { level = mask } else m

  abbrev pub add_to : ℕ → Bytes → Module → Option M → Res × Option M
  add_to mask name m none = (no_memory, none)
  add_to mask name m (some map) =
      let (ret, map') = put map name (target_of mask m) in (ret, some map')

  -- `clog_add_module`.
  unfoldable pub add_module : State → ℕ → Bytes → Module → Option M → Option M → Res × Option M
  add_module state mask name m table made =
      if is_created state then add_to mask name m (table_of table made) else (abnormal_state, table)

  -- What `clog_add_modules` takes away again after an error.
  abbrev pub removed : (M → Bytes → M) → List Bytes → Option M → Option M
  removed remove names none = none
  removed remove [] (some map) = some map
  removed remove (name ∷ names) (some map) = removed remove names (some (remove map name))

  -- The loop of `clog_add_modules`, with the names of the modules that it has added.
  unfoldable pub add_loop :
      (M → Bytes → M)
      → State
      → ℕ
      → List Bytes
      → List (Bytes × Module)
      → Option M
      → Option M
      → Res × Option M
  add_loop remove state mask names [] table made = (success, table)
  add_loop remove state mask names ((name, m) ∷ ms) table made =
      let (ret, table') = add_module state mask name m table made in
      let rest = add_loop remove state mask (names ++ name ∷ []) ms table' made in
      if is_success ret then rest else (ret, removed remove names table')

  -- `clog_add_modules`.
  unfoldable pub add_modules :
      (M → Bytes → M) → State → ℕ → List (Bytes × Module) → Option M → Option M → Res × Option M
  add_modules remove state mask [] table made =
      if is_created state then (invalid_param, table) else (abnormal_state, table)
  add_modules remove state mask (m ∷ ms) table made =
      if is_created state
      then add_loop remove state mask [] (m ∷ ms) table made
      else (abnormal_state, table)
