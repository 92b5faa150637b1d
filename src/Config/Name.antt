-- ===== src/Config/Name.antt =====
-- The names of source/utils/clog_config.c: of groups and of items.
use casca_log.Base.{ℕ, Bool, true, false, ◌||◌, Option, none, some, [], ◌∷◌, if◌then◌else◌, ◌==◌}
use casca_log.Config.{Bytes, is_space, skip, is_valid_name_char}

abbrev pub keep : ℕ → Option (Bytes × Bytes) → Option (Bytes × Bytes)
keep c none = none
keep c (some (text, rest)) = some (c ∷ text, rest)

-- The loop of `clog_config_get_valid_group_name`: `is_split_exist`, and whether spaces are being
-- skipped. It gives the text up to the closing bracket, and what follows that. The character behind
-- spaces is passed over unread, unless it is one of those tested there.
unfoldable pub group_name_loop : Bool → Bool → Bytes → Option (Bytes × Bytes)
group_name_loop is_split spaces [] = none
group_name_loop is_split spaces (c ∷ cs) =
    let space = keep c (group_name_loop is_split true cs) in
    let split = keep c (group_name_loop true false cs) in
    let plain = keep c (group_name_loop false false cs) in
    if is_space c
    then space
    else if spaces
    then if is_split
      then if is_valid_name_char c then plain else none
      else if c == b']'
      then some ([], cs)
      else if c == b'.'
      then none
      else split
    else if c == b'.'
    then if is_split then none else split
    else if c == b']'
    then if is_split then none else some ([], cs)
    else if is_valid_name_char c
    then plain
    else none

abbrev pub starts_valid : Bytes → Bool
starts_valid [] = false
starts_valid (c ∷ cs) = is_valid_name_char c

-- `clog_config_get_valid_group_name`, behind the opening bracket.
unfoldable pub get_valid_group_name : Bytes → Option (Bytes × Bytes)
get_valid_group_name s =
    if starts_valid (skip s) then group_name_loop false false (skip s) else none

abbrev pub ends_name : ℕ → Bool
ends_name c = c == b'.' || is_space c

-- What follows a name in the text of a group: its end; spaces up to there; or, behind the character
-- that follows, a subgroup.
pub data After : Type 0 where
  at_end : After
  trailing : After
  subgroup : Bytes → After

abbrev pub behind_spaces : Bytes → After
behind_spaces [] = trailing
behind_spaces (c ∷ cs) = subgroup cs

abbrev pub after_name : Bytes → After
after_name [] = at_end
after_name (c ∷ cs) = behind_spaces (skip (c ∷ cs))

-- The first name of a text, up to a dot or a space.
unfoldable pub first_name : Bytes → Bytes × Bytes
first_name [] = ([], [])
first_name (c ∷ cs) =
    let (name, rest) = first_name cs in if ends_name c then ([], c ∷ cs) else (c ∷ name, rest)

abbrev pub ends_key : ℕ → Bool
ends_key c = is_space c || c == b'='

-- The first phase of `clog_config_parse_property`, behind its first character: the key, and the rest
-- from the character that ends it.
unfoldable pub key_loop : Bytes → Option (Bytes × Bytes)
key_loop [] = none
key_loop (c ∷ cs) =
    let later = keep c (key_loop cs) in
    if ends_key c then some ([], c ∷ cs) else if is_valid_name_char c then later else none

-- The second phase: what follows the equals sign.
unfoldable pub equal_loop : Bytes → Option Bytes
equal_loop [] = none
equal_loop (c ∷ cs) =
    let later = equal_loop cs in if c == b'=' then some cs else if is_space c then later else none
