-- ===== src/Config/Group.antt =====
-- The tree of groups of source/utils/clog_config.c. A pointer to a group is its path from the root,
-- the positions among the siblings.
pub mod Keys
use casca_log.Base.{
  ℕ, zero, suc, Bool, true, false, ◌||◌, Option, none, some, List, [], ◌∷◌, if◌then◌else◌, bytes_eq,
}
use casca_log.Config.{Bytes, Value, skip, starts_with}
use casca_log.Config.Name.{After, at_end, trailing, subgroup, after_name, first_name}

-- `clog_config_item_t` with a key.
pub record Item : Type 0 where
  pub key : Bytes
  pub value : Value

-- `clog_config_group_t`: a name, which is NULL at the root, its items and its subgroups.
mutual
  pub data Group : Type 0 where
    node : Bytes → List Item → Groups → Group

  pub data Groups : Type 0 where
    no_child : Groups
    child : Group → Groups → Groups

abbrev pub new_root : Group
new_root = node [] [] no_child

-- What finding a group comes to: NULL, or the siblings as they are then and the way to it.
pub data Found : Type 0 where
  refused : Found
  found : Groups → List ℕ → Found

-- Of a group that is made, with its subgroups.
abbrev pub made : Bytes → Option Found → Option Found
made [] sub = some refused
made (c ∷ name) none = none
made (c ∷ name) (some refused) = some refused
made (c ∷ name) (some (found kids path)) =
    some (found (child (node (c ∷ name) [] kids) no_child) (zero ∷ path))

-- A group that stood there, with its subgroups as they are then.
abbrev pub kept : Bytes → List Item → Groups → Option Found → Option Found
kept name content siblings none = none
kept name content siblings (some refused) = some refused
kept name content siblings (some (found kids path)) =
    some (found (child (node name content kids) siblings) (zero ∷ path))

abbrev pub shift : Group → Option Found → Option Found
shift group none = none
shift group (some refused) = some refused
shift group (some (found siblings [])) = some (found (child group siblings) [])
shift group (some (found siblings (i ∷ path))) = some (found (child group siblings) (suc i ∷ path))

-- The subgroups of a new group. Behind another group, trailing spaces make the code return NULL.
abbrev pub below_new : Bool → After → (Groups → Bytes → Option Found) → Option Found
below_new is_first at_end sub = some (found no_child [])
below_new true trailing sub = some (found no_child [])
below_new false trailing sub = some refused
below_new is_first (subgroup text) sub = sub no_child text

abbrev pub below_old : Groups → After → (Groups → Bytes → Option Found) → Option Found
below_old kids at_end sub = some (found kids [])
below_old kids trailing sub = some (found kids [])
below_old kids (subgroup text) sub = sub kids text

-- The loop over the siblings, for a name; `sub` looks in the subgroups. A sibling is taken whose name
-- begins with the name.
unfoldable pub search :
    (Groups → Bytes → Option Found) → Bytes → After → Bool → Groups → Option Found
search sub name after is_first no_child = made name (below_new is_first after sub)
search sub name after is_first (child (node m content kids) siblings) =
    let here = kept m content siblings (below_old kids after sub) in
    let later = shift (node m content kids) (search sub name after false siblings) in
    if starts_with m name then here else later

-- `clog_config_find_or_create_group`, on the subgroups. `none` means that the fuel ran out.
unfoldable pub find_or_create : ℕ → Groups → Bytes → Option Found
find_or_create zero kids text = none
find_or_create (suc fuel) kids text =
    let (name, rest) = first_name (skip text) in
    search (find_or_create fuel) name (after_name rest) true kids

unfoldable pub has_key : Bytes → List Item → Bool
has_key key [] = false
has_key key (item ∷ items) = bytes_eq item.key key || has_key key items

abbrev pub regroup : Bytes → List Item → Option Groups → Option Group
regroup name content none = none
regroup name content (some kids) = some (node name content kids)

abbrev pub first_of : Groups → Option Group → Option Groups
first_of siblings none = none
first_of siblings (some group) = some (child group siblings)

abbrev pub later_of : Group → Option Groups → Option Groups
later_of group none = none
later_of group (some siblings) = some (child group siblings)

-- `clog_config_add_item` to the group at the end of a path; `none` when the key is there.
unfoldable mutual
  pub add_item : Item → List ℕ → Group → Option Group
  add_item item [] (node name content kids) =
      if has_key item.key content then none else some (node name (item ∷ content) kids)
  add_item item (i ∷ path) (node name content kids) =
      regroup name content (add_below item i path kids)

  pub add_below : Item → ℕ → List ℕ → Groups → Option Groups
  add_below item i path no_child = none
  add_below item zero path (child group siblings) = first_of siblings (add_item item path group)
  add_below item (suc i) path (child group siblings) =
      later_of group (add_below item i path siblings)
