-- ===== src/Config/Group/Keys.antt =====
-- What the trees of groups keep: the keys of a group differ, and the path to a group leads to one.
use casca_log.Base.{
  ℕ, zero, suc, ◌≡◌, Bool, true, false, Option, none, some, List, [], ◌∷◌, Bool-cases, inl, inr,
}
use casca_log.Config.{Bytes, starts_with}
use casca_log.Config.Name.{After, at_end, trailing, subgroup}
use casca_log.Config.Group.{
  Item, Group, node, Groups, no_child, child, Found, refused, found, made, kept, shift, below_new,
  below_old, search, has_key, regroup, first_of, later_of, add_item, add_below,
}

abbrev pub AreDistinct : List Item → Type 0
AreDistinct [] = Unit {0}
AreDistinct (item ∷ items) = (has_key item.key items ≡ false) × AreDistinct items

-- The keys differ within each group of a tree.
abbrev mutual
  pub IsDistinct : Group → Type 0
  IsDistinct (node name content kids) = AreDistinct content × AreAllDistinct kids

  pub AreAllDistinct : Groups → Type 0
  AreAllDistinct no_child = Unit {0}
  AreAllDistinct (child group siblings) = IsDistinct group × AreAllDistinct siblings

-- A path leads to a group.
abbrev mutual
  pub Reaches : List ℕ → Group → Type 0
  Reaches [] group = Unit {0}
  Reaches (i ∷ path) (node name content kids) = ReachesBelow i path kids

  pub ReachesBelow : ℕ → List ℕ → Groups → Type 0
  ReachesBelow i path no_child = ⊥
  ReachesBelow zero path (child group siblings) = Reaches path group
  ReachesBelow (suc i) path (child group siblings) = ReachesBelow i path siblings

-- What finding a group makes of subgroups with distinct keys.
abbrev pub IsSound : Option Found → Type 0
IsSound none = ⊥
IsSound (some refused) = Unit
IsSound (some (found kids path)) = AreAllDistinct kids × Reaches path (node [] [] kids)

abbrev pub SoundFor : (Groups → Bytes → Option Found) → After → Type 0
SoundFor sub at_end = Unit
SoundFor sub trailing = Unit
SoundFor sub (subgroup text) = (kids : Groups) → AreAllDistinct kids → IsSound (sub kids text)

Reaches-any :
    (name name' : Bytes) (content content' : List Item) (kids : Groups) (path : List ℕ)
    → Reaches path (node name content kids)
    → Reaches path (node name' content' kids)
Reaches-any name name' content content' kids [] r = tt
Reaches-any name name' content content' kids (i ∷ path) r = r

made-IsSound : (name : Bytes) (o : Option Found) → IsSound o → IsSound (made name o)
made-IsSound [] o h = tt
made-IsSound (c ∷ name) none h = h
made-IsSound (c ∷ name) (some refused) h = tt
made-IsSound (c ∷ name) (some (found kids path)) (d, r) =
    (((tt, d), tt), Reaches-any [] (c ∷ name) [] [] kids path r)

kept-IsSound :
    (name : Bytes) (content : List Item) (siblings : Groups) (o : Option Found)
    → AreDistinct content
    → AreAllDistinct siblings
    → IsSound o
    → IsSound (kept name content siblings o)
kept-IsSound name content siblings none dc ds h = h
kept-IsSound name content siblings (some refused) dc ds h = tt
kept-IsSound name content siblings (some (found kids path)) dc ds (d, r) =
    (((dc, d), ds), Reaches-any [] name [] content kids path r)

shift-IsSound :
    (group : Group) (o : Option Found) → IsDistinct group → IsSound o → IsSound (shift group o)
shift-IsSound group none d h = h
shift-IsSound group (some refused) d h = tt
shift-IsSound group (some (found siblings [])) d (ds, r) = ((d, ds), tt)
shift-IsSound group (some (found siblings (i ∷ path))) d (ds, r) = ((d, ds), r)

below_new-IsSound :
    (is_first : Bool) (after : After) (sub : Groups → Bytes → Option Found)
    → SoundFor sub after
    → IsSound (below_new is_first after sub)
below_new-IsSound is_first at_end sub h = (tt, tt)
below_new-IsSound true trailing sub h = (tt, tt)
below_new-IsSound false trailing sub h = tt
below_new-IsSound is_first (subgroup text) sub h = h no_child tt

below_old-IsSound :
    (kids : Groups) (after : After) (sub : Groups → Bytes → Option Found)
    → AreAllDistinct kids
    → SoundFor sub after
    → IsSound (below_old kids after sub)
below_old-IsSound kids at_end sub d h = (d, tt)
below_old-IsSound kids trailing sub d h = (d, tt)
below_old-IsSound kids (subgroup text) sub d h = h kids d

pub search-IsSound :
    (sub : Groups → Bytes → Option Found) (name : Bytes) (after : After) (is_first : Bool)
    (kids : Groups)
    → SoundFor sub after
    → AreAllDistinct kids
    → IsSound (search sub name after is_first kids)
unfolding search
search-IsSound sub name after is_first no_child h d =
    made-IsSound name (below_new is_first after sub) (below_new-IsSound is_first after sub h)
search-IsSound sub name after is_first (child (node m content kids) siblings) h ((dc, dk), ds) =
    elim (Bool-cases (starts_with m name)) [
      | inl y ↦ rw y (
          kept-IsSound m content siblings (below_old kids after sub) dc ds
            (below_old-IsSound kids after sub dk h))
      | inr n ↦ rw n (
          shift-IsSound (node m content kids) (search sub name after false siblings) (dc, dk)
            (search-IsSound sub name after false siblings h ds))
    ]

-- Adding an item keeps the keys distinct and the path good.
abbrev pub KeepsGroup : List ℕ → Option Group → Type 0
KeepsGroup path none = Unit
KeepsGroup path (some group) = IsDistinct group × Reaches path group

abbrev KeepsGroups : ℕ → List ℕ → Option Groups → Type 0
KeepsGroups i path none = Unit
KeepsGroups i path (some groups) = AreAllDistinct groups × ReachesBelow i path groups

regroup-Keeps :
    (name : Bytes) (content : List Item) (i : ℕ) (path : List ℕ) (o : Option Groups)
    → AreDistinct content
    → KeepsGroups i path o
    → KeepsGroup (i ∷ path) (regroup name content o)
regroup-Keeps name content i path none d h = tt
regroup-Keeps name content i path (some kids) d (k, r) = ((d, k), r)

first_of-Keeps :
    (siblings : Groups) (path : List ℕ) (o : Option Group)
    → AreAllDistinct siblings
    → KeepsGroup path o
    → KeepsGroups zero path (first_of siblings o)
first_of-Keeps siblings path none d h = tt
first_of-Keeps siblings path (some group) d (k, r) = ((k, d), r)

later_of-Keeps :
    (group : Group) (i : ℕ) (path : List ℕ) (o : Option Groups)
    → IsDistinct group
    → KeepsGroups i path o
    → KeepsGroups (suc i) path (later_of group o)
later_of-Keeps group i path none d h = tt
later_of-Keeps group i path (some siblings) d (k, r) = ((d, k), r)

mutual
  unfolding add_item add_below

  pub add_item-Keeps :
      (item : Item) (path : List ℕ) (group : Group)
      → IsDistinct group
      → KeepsGroup path (add_item item path group)
  add_item-Keeps item [] (node name content kids) (d, k) =
      elim (Bool-cases (has_key item.key content)) [
        | inl y ↦ rw (y, KeepsGroup) tt
        | inr n ↦ rw (n, KeepsGroup) (((n, d), k), tt)
      ]
  add_item-Keeps item (i ∷ path) (node name content kids) (d, k) =
      regroup-Keeps name content i path (add_below item i path kids) d
        (add_below-Keeps item i path kids k)

  add_below-Keeps :
      (item : Item) (i : ℕ) (path : List ℕ) (kids : Groups)
      → AreAllDistinct kids
      → KeepsGroups i path (add_below item i path kids)
  add_below-Keeps item i path no_child d = tt
  add_below-Keeps item zero path (child group siblings) (d, ds) =
      first_of-Keeps siblings path (add_item item path group) ds (add_item-Keeps item path group d)
  add_below-Keeps item (suc i) path (child group siblings) (d, ds) =
      later_of-Keeps group i path (add_below item i path siblings) d
        (add_below-Keeps item i path siblings ds)
