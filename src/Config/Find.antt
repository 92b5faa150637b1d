-- ===== src/Config/Find.antt =====
-- Looking up groups and items in source/utils/clog_config.c. An array of names is its names up to the
-- first NULL; the group and the key are not NULL.
use casca_log.Base.{
  ℕ, zero, suc, ◌≡◌, refl, Bool, Option, none, some, List, [], ◌∷◌, if◌then◌else◌, bytes_eq,
  Bool-cases, inl, inr, Res, success, error_format, target_not_found,
}
use casca_log.Config.{Bytes, Value, uint, string, bool, array, Items}
use casca_log.Config.Group.{Item, Group, node, Groups, no_child, child}

-- A group that has the name: it is the one when it is the last name.
abbrev pub last_or : ℕ → Group → Option Group → Option Group
last_or zero group deeper = some group
last_or (suc count) group deeper = deeper

-- `clog_config_find_group`, with `count` names.
unfoldable mutual
  pub find_group : Group → List Bytes → ℕ → Option Group
  find_group group [] count = none
  find_group group (name ∷ names) zero = some group
  find_group (node m content kids) (name ∷ names) (suc count) = find_child kids name names count

  pub find_child : Groups → Bytes → List Bytes → ℕ → Option Group
  find_child no_child name names count = none
  find_child (child (node m content kids) siblings) name names count =
      let here =
        last_or count (node m content kids) (find_group (node m content kids) names count) in
      let later = find_child siblings name names count in if bytes_eq m name then here else later

unfoldable pub find_content : List Item → Bytes → Option Value
find_content [] key = none
find_content (item ∷ items) key =
    let later = find_content items key in if bytes_eq item.key key then some item.value else later

-- `clog_config_find_item_in_group`; of the item, its value.
unfoldable pub find_item_in_group : Group → Bytes → Option Value
find_item_in_group (node name content kids) key = find_content content key

-- The results of the functions that CLOG_DECLARE_FIND_ITEM_FUNC declares.
unfoldable pub find_item_in_group_uint : Group → Bytes → Res × Option ℕ
find_item_in_group_uint group key = elim (find_item_in_group group key) [
  | none ↦ (target_not_found, none)
  | some value ↦ elim value [ uint n ↦ (success, some n) | _ ↦ (error_format, none) ]
]

unfoldable pub find_item_in_group_bool : Group → Bytes → Res × Option Bool
find_item_in_group_bool group key = elim (find_item_in_group group key) [
  | none ↦ (target_not_found, none)
  | some value ↦ elim value [ bool flag ↦ (success, some flag) | _ ↦ (error_format, none) ]
]

unfoldable pub find_item_in_group_string : Group → Bytes → Res × Option Bytes
find_item_in_group_string group key = elim (find_item_in_group group key) [
  | none ↦ (target_not_found, none)
  | some value ↦ elim value [ string text ↦ (success, some text) | _ ↦ (error_format, none) ]
]

unfoldable pub find_item_in_group_array : Group → Bytes → Res × Option Items
find_item_in_group_array group key = elim (find_item_in_group group key) [
  | none ↦ (target_not_found, none)
  | some value ↦ elim value [ array items ↦ (success, some items) | _ ↦ (error_format, none) ]
]

-- `clog_config_find_item`, with `count` names.
unfoldable mutual
  pub find_item : Group → List Bytes → ℕ → Bytes → Option Value
  find_item (node m content kids) names zero key = find_content content key
  find_item (node m content kids) [] (suc count) key = none
  find_item (node m content kids) (name ∷ names) (suc count) key =
      find_in_child kids name names count key

  pub find_in_child : Groups → Bytes → List Bytes → ℕ → Bytes → Option Value
  find_in_child no_child name names count key = none
  find_in_child (child (node m content kids) siblings) name names count key =
      let here = find_item (node m content kids) names count key in
      let later = find_in_child siblings name names count key in
      if bytes_eq m name then here else later

abbrev pub item_of : Option Group → Bytes → Option Value
item_of none key = none
item_of (some group) key = find_item_in_group group key

mutual
  unfolding find_item find_in_child find_group find_child find_item_in_group

  item_of-last_or :
      (group : Group) (names : List Bytes) (count : ℕ) (key : Bytes)
      → find_item group names count key
        ≡ item_of (last_or count group (find_group group names count)) key
  item_of-last_or (node m content kids) names zero key = refl
  item_of-last_or (node m content kids) [] (suc count) key = refl
  item_of-last_or (node m content kids) (name ∷ names) (suc count) key =
      find_in_child-find_child kids name names count key

  find_in_child-find_child :
      (kids : Groups) (name : Bytes) (names : List Bytes) (count : ℕ) (key : Bytes)
      → find_in_child kids name names count key ≡ item_of (find_child kids name names count) key
  find_in_child-find_child no_child name names count key = refl
  find_in_child-find_child (child (node m content kids) siblings) name names count key =
      elim (Bool-cases (bytes_eq m name)) [
        | inl y ↦ rw (y, item_of) (item_of-last_or (node m content kids) names count key)
        | inr n ↦ rw (n, item_of) (find_in_child-find_child siblings name names count key)
      ]

-- Where an array has a first name, finding an item by the names of groups, as many as the count, gives
-- what finding the group and then the item in it gives, also where one of the names has no group.
pub find_item-find_group :
    (root : Group) (name : Bytes) (names : List Bytes) (count : ℕ) (key : Bytes)
    → find_item root (name ∷ names) count key ≡ item_of (find_group root (name ∷ names) count) key
unfolding find_item find_group find_item_in_group
find_item-find_group (node m content kids) name names zero key = refl
find_item-find_group (node m content kids) name names (suc count) key =
    find_in_child-find_child kids name names count key

-- CLOG_STR_ENABLED.
abbrev pub str_enabled : Bytes
str_enabled = b'e' ∷ b'n' ∷ b'a' ∷ b'b' ∷ b'l' ∷ b'e' ∷ b'd' ∷ []

-- What is left in the caller's variable.
abbrev pub enabled_of : Bool → Res × Option Bool → Res × Bool
enabled_of enabled (success, some flag) = (success, flag)
enabled_of enabled (success, none) = (success, enabled)
enabled_of enabled (target_not_found, value) = (success, enabled)
enabled_of enabled (ret, value) = (ret, enabled)

-- `clog_config_item_get_enabled` of source/utils/clog_config_ext.c, with the value that stands in the
-- caller's variable.
unfoldable pub item_get_enabled : Group → Bool → Res × Bool
item_get_enabled group enabled = enabled_of enabled (find_item_in_group_bool group str_enabled)
