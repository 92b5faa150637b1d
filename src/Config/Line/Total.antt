-- ===== src/Config/Line/Total.antt =====
-- Every configuration is read to an end, and what is read has distinct keys.
use casca_log.Base.{
  ℕ, zero, suc, ◌≤◌, ◌<◌, ◌≢◌, Bool, true, Option, none, some, List, [], ◌∷◌, ◌==◌, length, arith,
  Bool-cases, Option-cases, inl, inr,
}
use casca_log.Config.{
  Bytes, Value, Parsed, failed, parsed, astray, skip, is_valid_name_char, check_inline_comment,
}
use casca_log.Config.Number.Rest.{length-skip}
use casca_log.Config.Name.{
  After, at_end, trailing, subgroup, after_name, behind_spaces, first_name, ends_name,
  get_valid_group_name, key_loop, equal_loop,
}
use casca_log.Config.Array.{parse_value}
use casca_log.Config.Array.Ends.{Ends, parse_value-Ends}
use casca_log.Config.Group.{
  Item, Group, node, Groups, new_root, Found, refused, found, find_or_create, add_item,
}
use casca_log.Config.Group.Keys.{
  AreDistinct, IsDistinct, AreAllDistinct, Reaches, IsSound, SoundFor, search-IsSound, KeepsGroup,
  add_item-Keeps,
}
use casca_log.Config.Line.{
  Lined, null, strayed, current, with_value, rounds, from_value, from_equal, parse_property,
  at_group, process_group, added, at_item, process_text, process_line, on_lined, push_line,
  split_lines, process_lines, parse,
}

abbrev Shorter : ℕ → After → Type 0
Shorter n at_end = Unit {0}
Shorter n trailing = Unit
Shorter n (subgroup text) = length text < n

length-first_name : (text : Bytes) → length (first_name text).1 ≤ length text
unfolding first_name
length-first_name [] = omega arith
length-first_name (c ∷ cs) = elim (Bool-cases (ends_name c)) [
  | inl y ↦ rw y (omega arith)
  | inr m ↦ rw m (omega (arith, length-first_name cs))
]

behind_spaces-Shorter : (n : ℕ) (s : Bytes) → length s ≤ n → Shorter n (behind_spaces s)
behind_spaces-Shorter n [] h = tt
behind_spaces-Shorter n (c ∷ cs) h = omega (arith, h)

after_name-Shorter : (n : ℕ) (s : Bytes) → length s ≤ n → Shorter n (after_name s)
after_name-Shorter n [] h = tt
after_name-Shorter n (c ∷ cs) h =
    behind_spaces-Shorter n (skip (c ∷ cs)) (omega (arith, h, length-skip (c ∷ cs)))

abbrev SoundBelow : ℕ → (Groups → Bytes → Option Found) → Type 0
SoundBelow fuel sub =
    (kids : Groups) (text : Bytes)
    → length text < fuel
    → AreAllDistinct kids
    → IsSound (sub kids text)

Shorter-SoundFor :
    (fuel : ℕ) (sub : Groups → Bytes → Option Found) (after : After)
    → SoundBelow fuel sub
    → Shorter fuel after
    → SoundFor sub after
Shorter-SoundFor fuel sub at_end h s = tt
Shorter-SoundFor fuel sub trailing h s = tt
Shorter-SoundFor fuel sub (subgroup text) h s = λ kids d. h kids text s d

-- Finding a group ends, in fewer calls than the text is long.
find_or_create-IsSound : (fuel : ℕ) → SoundBelow fuel (find_or_create fuel)
unfolding find_or_create
find_or_create-IsSound zero kids text h d = absurd (omega (arith, h))
find_or_create-IsSound (suc fuel) kids text h d =
    let l = length-skip text in
    let m = length-first_name (skip text) in
    search-IsSound (find_or_create fuel) (first_name (skip text)).0
      (after_name (first_name (skip text)).1) true kids
      (Shorter-SoundFor fuel (find_or_create fuel) (after_name (first_name (skip text)).1)
        (find_or_create-IsSound fuel)
        (after_name-Shorter fuel (first_name (skip text)).1 (omega (arith, h, l, m))))
      d

-- A line has a result; unless that is NULL, the keys differ in each group of the tree, and the current
-- group is one of them.
abbrev pub IsKept : Option Lined → Type 0
IsKept none = ⊥
IsKept (some null) = Unit
IsKept (some strayed) = Unit
IsKept (some (current root path)) = IsDistinct root × Reaches path root

abbrev IsRead : Option (Parsed Item) → Type 0
IsRead none = ⊥
IsRead (some p) = Unit

with_value-IsRead :
    (key : Bytes) (n : ℕ) (o : Option (Parsed Value)) → Ends n o → IsRead (with_value key o)
with_value-IsRead key n none h = h
with_value-IsRead key n (some failed) h = tt
with_value-IsRead key n (some astray) h = tt
with_value-IsRead key n (some (parsed value rest)) h =
    elim (Bool-cases (check_inline_comment rest)) [
      | inl y ↦ rw (y, IsRead, with_value) tt
      | inr m ↦ rw (m, IsRead, with_value) tt
    ]

from_value-IsRead : (in_range : Bytes → Bool) (key s : Bytes) → IsRead (from_value in_range key s)
from_value-IsRead in_range key [] = tt
from_value-IsRead in_range key (c ∷ cs) =
    with_value-IsRead key (length (c ∷ cs)) (parse_value in_range (rounds (c ∷ cs)) (c ∷ cs))
      (parse_value-Ends in_range (rounds (c ∷ cs)) (c ∷ cs) (omega arith))

from_equal-IsRead :
    (in_range : Bytes → Bool) (key : Bytes) (o : Option Bytes) → IsRead (from_equal in_range key o)
from_equal-IsRead in_range key none = tt
from_equal-IsRead in_range key (some rest) = from_value-IsRead in_range key rest

parse_property-IsRead : (in_range : Bytes → Bool) (s : Bytes) → IsRead (parse_property in_range s)
unfolding parse_property
parse_property-IsRead in_range [] = tt
parse_property-IsRead in_range (c ∷ cs) = elim (Option-cases (key_loop cs)) [
  | inl n ↦ rw (n, IsRead) tt
  | inr ((name, rest), e) ↦ rw (e, IsRead) (from_equal-IsRead in_range (c ∷ name) (equal_loop rest))
]

at_group-IsKept :
    (name : Bytes) (content : List Item) (o : Option Found)
    → AreDistinct content
    → IsSound o
    → IsKept (at_group name content o)
at_group-IsKept name content none d h = h
at_group-IsKept name content (some refused) d h = tt
at_group-IsKept name content (some (found kids [])) d (k, r) = ((d, k), tt)
at_group-IsKept name content (some (found kids (i ∷ path))) d (k, r) = ((d, k), r)

process_group-IsKept : (root : Group) (s : Bytes) → IsDistinct root → IsKept (process_group root s)
unfolding process_group
process_group-IsKept (node name content kids) s (d, k) =
    elim (Option-cases (get_valid_group_name s)) [
      | inl n ↦ rw (n, IsKept) tt
      | inr ((text, rest), e) ↦ elim (Bool-cases (check_inline_comment rest)) [
        | inl y ↦
            rw (e, y, IsKept)
              (at_group-IsKept name content (find_or_create (suc (length text)) kids text) d
                (find_or_create-IsSound (suc (length text)) kids text (omega arith) k))
        | inr m ↦ rw (e, m, IsKept) tt
      ]
    ]

added-IsKept : (path : List ℕ) (o : Option Group) → KeepsGroup path o → IsKept (some (added path o))
added-IsKept path none h = tt
added-IsKept path (some root) h = h

at_item-IsKept :
    (root : Group) (path : List ℕ) (o : Option (Parsed Item))
    → IsDistinct root
    → IsRead o
    → IsKept (at_item root path o)
at_item-IsKept root path none d h = h
at_item-IsKept root path (some failed) d h = tt
at_item-IsKept root path (some astray) d h = tt
at_item-IsKept root path (some (parsed item rest)) d h =
    added-IsKept path (add_item item path root) (add_item-Keeps item path root d)

process_text-IsKept :
    (in_range : Bytes → Bool) (root : Group) (path : List ℕ) (s : Bytes)
    → IsDistinct root
    → Reaches path root
    → IsKept (process_text in_range root path s)
process_text-IsKept in_range root path [] d r = (d, r)
process_text-IsKept in_range root path (c ∷ cs) d r = elim (Bool-cases (c == b'[')) [
  | inl y ↦ rw (y, process_text) (process_group-IsKept root cs d)
  | inr m ↦ elim (Bool-cases (c == b'#')) [
    | inl y ↦ rw (m, y, process_text, IsKept) (d, r)
    | inr k ↦ elim (Bool-cases (is_valid_name_char c)) [
      | inl y ↦
          rw (m, k, y, process_text)
            (at_item-IsKept root path (parse_property in_range (c ∷ cs)) d
              (parse_property-IsRead in_range (c ∷ cs)))
      | inr j ↦ rw (m, k, j, process_text, IsKept) tt
    ]
  ]
]

-- In a tree whose keys differ in each group, with a path to a current group, processing a line ends.
-- Unless it gives NULL or reads outside the line, the keys still differ in each group, and the path
-- that it gives leads to a group of the new tree.
pub process_line-IsKept :
    (in_range : Bytes → Bool) (root : Group) (path : List ℕ) (line : Bytes)
    → IsDistinct root
    → Reaches path root
    → IsKept (process_line in_range root path line)
unfolding process_line
process_line-IsKept in_range root path line d r =
    process_text-IsKept in_range root path (skip line) d r

on_lined-IsKept :
    (l : Option Lined) (more : Group → List ℕ → Option Lined)
    → IsKept l
    → ((root : Group) (path : List ℕ)
        → IsDistinct root
        → Reaches path root
        → IsKept (more root path))
    → IsKept (on_lined l more)
on_lined-IsKept none more k h = k
on_lined-IsKept (some null) more k h = tt
on_lined-IsKept (some strayed) more k h = tt
on_lined-IsKept (some (current root path)) more (d, r) h = h root path d r

pub process_lines-IsKept :
    (in_range : Bytes → Bool) (root : Group) (path : List ℕ) (lines : List Bytes)
    → IsDistinct root
    → Reaches path root
    → IsKept (process_lines in_range root path lines)
unfolding process_lines
process_lines-IsKept in_range root path [] d r = (d, r)
process_lines-IsKept in_range root path (line ∷ lines) d r =
    on_lined-IsKept (process_line in_range root path line)
      (λ root' path'. process_lines in_range root' path' lines)
      (process_line-IsKept in_range root path line d r)
      (λ root' path' d' r'. process_lines-IsKept in_range root' path' lines d' r')

parse-IsKept : (in_range : Bytes → Bool) (text : Bytes) → IsKept (parse in_range text)
unfolding parse
parse-IsKept in_range text =
    let (line, lines) = split_lines text in
    process_lines-IsKept in_range new_root [] (push_line line lines) (tt, tt) tt

some_of_IsKept : (o : Option Lined) → IsKept o → o ≢ none
some_of_IsKept none h = absurd h
some_of_IsKept (some l) h = λ e. cc

-- The parser of configurations ends on every text: the rounds that it is given are enough for every
-- value and every name in it.
pub config_parse_total : (in_range : Bytes → Bool) (text : Bytes) → parse in_range text ≢ none
config_parse_total in_range text = some_of_IsKept (parse in_range text) (parse-IsKept in_range text)
