-- ===== src/Modules/Fit.antt =====
-- The modules that source/casca_log_core.c takes from a configuration fit their bounds.
use casca_log.Base.{
  ℕ, suc, ◌+◌, ◌≤◌, ◌≡◌, refl, ap, ◌∙◌, Bool, true, false, Option, none, some, List, [], ◌∷◌,
  if◌then◌else◌, ◌==◌, leb, ltb, length, arith, Res, is_success, Bool-cases, inl, inr,
}
use mathlib.Core.Path.{subst}
use casca_log.Config.{Bytes, Value, sint, uint, float, char, string, bool, array, Items, nil, cons}
use casca_log.Config.Group.{Group, node, Groups, no_child, child}
use casca_log.Config.Find.{
  find_group, find_item_in_group, find_item_in_group_uint, item_get_enabled,
}
use casca_log.Config.Line.{Lined, null, strayed, current, parse}
use casca_log.Context.{State, is_created}
use casca_log.Logger.{Module}
use casca_log.Modules.{
  level_all, str_level, str_recorder, str_process, Filled, stopped, filled, outside, also,
  read_recorder, read_recorders, recorders_of, level_of, put_filled, with_level, if_enabled,
  init_process_module, and_then, init_children, with_table, init_table, init_group, init_modules,
  from_config, is_there, set_modules,
}

-- An array of unsigned numbers.
abbrev pub uints : List ℕ → Items
uints [] = nil
uints (id ∷ ids) = cons (uint id) (uints ids)

read_recorders_from :
    (max_num num : ℕ) (ids : List ℕ)
    → num ≤ max_num
    → read_recorders max_num num (uints ids)
      ≡ (if leb (num + length ids) max_num then filled ids else outside)
unfolding read_recorders
read_recorders_from max_num num [] l =
    let fits : leb (num + 0) max_num ≡ true = ground (arith, l) in rw fits refl
read_recorders_from max_num num (id ∷ ids) l =
    let low : ltb max_num num ≡ false = ground (arith, l) in
    elim (Bool-cases (num == max_num)) [
      | inl y ↦
          let full : leb (num + suc (length ids)) max_num ≡ false = ground (arith, y) in
          rw (low, y, full) refl
      | inr n ↦
          let next = read_recorders_from max_num (suc num) ids (ground (arith, l, n)) in
          let same : suc num + length ids ≡ num + suc (length ids) = omega arith in
          let fits = ap (λ k. leb k max_num) same in
          elim (Bool-cases (leb (num + suc (length ids)) max_num)) [
            | inl f ↦
                let s : leb (suc num + length ids) max_num ≡ true = fits ∙ f in
                rw (low, n, next, s, f) refl
            | inr f ↦
                let s : leb (suc num + length ids) max_num ≡ false = fits ∙ f in
                rw (low, n, next, s, f) refl
          ]
    ]

-- The recorders of a module are an array of unsigned numbers: up to the greatest number of recorders
-- they are all taken, in order; one more is written outside the module, and the test for that comes too
-- late.
pub read_recorders-uints :
    (max_num : ℕ) (ids : List ℕ)
    → read_recorders max_num 0 (uints ids)
      ≡ (if leb (length ids) max_num then filled ids else outside)
read_recorders-uints max_num ids =
    let e : 0 + length ids ≡ length ids = omega arith in
    subst
      (λ n. read_recorders max_num 0 (uints ids) ≡ (if leb n max_num then filled ids else outside))
      e (read_recorders_from max_num 0 ids (omega arith))

abbrev pub IsFit : ℕ → Module → Type 0
IsFit max_num m = (m.level ≤ level_all) × (length m.recorders ≤ max_num)

abbrev Bounded : ℕ → ℕ → Filled → Type 0
Bounded max_num num (stopped ret) = Unit {0}
Bounded max_num num (filled ids) = num + length ids ≤ max_num
Bounded max_num num outside = Unit

also-Bounded :
    (max_num num id : ℕ) (f : Filled)
    → Bounded max_num (suc num) f
    → Bounded max_num num (also id f)
also-Bounded max_num num id (stopped ret) h = tt
also-Bounded max_num num id (filled ids) h = omega (arith, h)
also-Bounded max_num num id outside h = tt

read_recorder-Bounded :
    (max_num num : ℕ) (value : Value) (f : Filled)
    → ((suc num ≤ max_num) → Bounded max_num (suc num) f)
    → num ≤ max_num
    → Bounded max_num num (read_recorder max_num num value f)
read_recorder-Bounded max_num num (uint id) f h l =
    let low : ltb max_num num ≡ false = ground (arith, l) in
    elim (Bool-cases (num == max_num)) [
      | inl y ↦ rw (low, y, read_recorder, Bounded) tt
      | inr n ↦
          rw (low, n, read_recorder) (also-Bounded max_num num id f (h (ground (arith, l, n))))
    ]
read_recorder-Bounded max_num num (sint n) f h l = tt
read_recorder-Bounded max_num num (float text) f h l = tt
read_recorder-Bounded max_num num (char c) f h l = tt
read_recorder-Bounded max_num num (string text) f h l = tt
read_recorder-Bounded max_num num (bool flag) f h l = tt
read_recorder-Bounded max_num num (array items) f h l = tt

read_recorders-Bounded :
    (max_num num : ℕ) (items : Items)
    → num ≤ max_num
    → Bounded max_num num (read_recorders max_num num items)
unfolding read_recorders
read_recorders-Bounded max_num num nil l = omega (arith, l)
read_recorders-Bounded max_num num (cons value items) l =
    read_recorder-Bounded max_num num value (read_recorders max_num (suc num) items)
      (λ m. read_recorders-Bounded max_num (suc num) items m) l

recorders_of-Bounded : (max_num : ℕ) (o : Option Value) → Bounded max_num 0 (recorders_of max_num o)
recorders_of-Bounded max_num none = omega arith
recorders_of-Bounded max_num (some (array items)) =
    read_recorders-Bounded max_num 0 items (omega arith)
recorders_of-Bounded max_num (some (uint n)) = tt
recorders_of-Bounded max_num (some (sint n)) = tt
recorders_of-Bounded max_num (some (float text)) = tt
recorders_of-Bounded max_num (some (char c)) = tt
recorders_of-Bounded max_num (some (string text)) = tt
recorders_of-Bounded max_num (some (bool flag)) = tt

-- A table of which something is known, if there is one.
abbrev pub Known : {M : Type 0} → (M → Type 0) → Option M → Type 0
Known P none = Unit {0}
Known P (some map) = P map

abbrev Kept : {M : Type 0} → (M → Type 0) → Option (Res × M) → Type 0
Kept P none = Unit {0}
Kept P (some (ret, map)) = P map

abbrev pub KeptTable : {M : Type 0} → (M → Type 0) → Option (Res × Option M) → Type 0
KeptTable P none = Unit {0}
KeptTable P (some (ret, table)) = Known P table

module _ {M : Type 0} (max_num : ℕ) (put : M → Bytes → Module → Res × M) (P : M → Type 0)
    (keeps : (map : M) (name : Bytes) (m : Module)
      → IsFit max_num m
      → P map
      → P (put map name m).1) where
  put_filled-Kept :
      (map : M) (name : Bytes) (level : ℕ) (f : Filled)
      → level ≤ level_all
      → Bounded max_num 0 f
      → P map
      → Kept P (put_filled max_num put map name level f)
  put_filled-Kept map name level (stopped ret) l b p = p
  put_filled-Kept map name level (filled ids) l b p =
      keeps map name (record { level = level; recorders = ids }) (l, omega (arith, b)) p
  put_filled-Kept map name level outside l b p = tt

  with_level-Kept :
      (map : M) (name : Bytes) (o : Option Value) (r : Res × ℕ)
      → P map
      → Kept P (with_level max_num put map name o r)
  with_level-Kept map name o (ret, level) p = elim (Bool-cases (is_success ret)) [
    | inr n ↦ rw (n, with_level, Kept) p
    | inl y ↦ elim (Bool-cases (ltb level_all level)) [
      | inl high ↦ rw (y, high, with_level, Kept) p
      | inr low ↦
          rw (y, low, with_level)
            (put_filled-Kept map name level (recorders_of max_num o) (ground (arith, low))
              (recorders_of-Bounded max_num o) p)
    ]
  ]

  if_enabled-Kept :
      (mask : ℕ) (group : Group) (name : Bytes) (map : M) (r : Res × Bool)
      → P map
      → Kept P (if_enabled max_num put mask group name map r)
  if_enabled-Kept mask group name map (ret, enabled) p = elim (Bool-cases (is_success ret)) [
    | inr n ↦ rw (n, if_enabled, Kept) p
    | inl y ↦ elim (Bool-cases enabled) [
      | inr off ↦ rw (y, off, if_enabled, Kept) p
      | inl on ↦
          rw (y, on, if_enabled)
            (with_level-Kept map name (find_item_in_group group str_recorder)
              (level_of mask (find_item_in_group_uint group str_level)) p)
    ]
  ]

  init_process_module-Kept :
      (mask : ℕ) (group : Group) (map : M)
      → P map
      → Kept P (init_process_module max_num put mask group map)
  unfolding init_process_module
  init_process_module-Kept mask (node name content kids) map p =
      if_enabled-Kept mask (node name content kids) name map
        (item_get_enabled (node name content kids) true) p

  and_then-Kept :
      (o : Option (Res × M)) (more : M → Option (Res × M))
      → Kept P o
      → ((map : M) → P map → Kept P (more map))
      → Kept P (and_then o more)
  and_then-Kept none more k h = tt
  and_then-Kept (some (ret, map)) more k h = elim (Bool-cases (is_success ret)) [
    | inl y ↦ rw (y, and_then) (h map k)
    | inr n ↦ rw (n, and_then, Kept) k
  ]

  init_children-Kept :
      (mask : ℕ) (kids : Groups) (map : M)
      → P map
      → Kept P (init_children max_num put mask kids map)
  unfolding init_children
  init_children-Kept mask no_child map p = p
  init_children-Kept mask (child group siblings) map p =
      and_then-Kept (init_process_module max_num put mask group map)
        (init_children max_num put mask siblings) (init_process_module-Kept mask group map p)
        (init_children-Kept mask siblings)

  with_table-Kept : (o : Option (Res × M)) → Kept P o → KeptTable P (with_table o)
  with_table-Kept none k = tt
  with_table-Kept (some (ret, map)) k = k

  init_table-Kept :
      (mask : ℕ) (kids : Groups) (table made : Option M)
      → Known P table
      → Known P made
      → KeptTable P (init_table max_num put mask kids table made)
  init_table-Kept mask kids (some map) made p q =
      with_table-Kept (init_children max_num put mask kids map) (init_children-Kept mask kids map p)
  init_table-Kept mask kids none (some map) p q =
      with_table-Kept (init_children max_num put mask kids map) (init_children-Kept mask kids map q)
  init_table-Kept mask kids none none p q = tt

  init_group-Kept :
      (mask : ℕ) (o : Option Group) (table made : Option M)
      → Known P table
      → Known P made
      → KeptTable P (init_group max_num put mask o table made)
  init_group-Kept mask none table made p q = p
  init_group-Kept mask (some (node name content kids)) table made p q =
      init_table-Kept mask kids table made p q

  from_config-Kept :
      (process : Bytes) (mask : ℕ) (made : Option M) (o : Option Lined)
      → Known P made
      → KeptTable P (from_config max_num put process mask made o)
  unfolding init_modules
  from_config-Kept process mask made none q = tt
  from_config-Kept process mask made (some null) q = tt
  from_config-Kept process mask made (some strayed) q = tt
  from_config-Kept process mask made (some (current root path)) q =
      init_group-Kept mask (find_group root (str_process ∷ process ∷ []) 2) none made tt q

  -- Something is known of the empty table and of the one that is there, if any, and a put keeps it,
  -- of a module with a level of at most CLOG_LEVEL_ALL and no more recorders than it has room for. Then
  -- it is known of the table that setting the modules of a context leaves, whatever the configuration,
  -- its errors included, unless a recorder is written outside a module or the text is read outside.
  pub set_modules-Kept :
      (in_range : Bytes → Bool) (state : State) (process : Bytes) (mask : ℕ) (table made : Option M)
      (config : Bytes)
      → Known P table
      → Known P made
      → KeptTable P (set_modules max_num put in_range state process mask table made config)
  unfolding set_modules
  set_modules-Kept in_range state process mask table made config p q =
      elim (Bool-cases (is_created state)) [
        | inr n ↦ rw (n, KeptTable) p
        | inl y ↦ elim (Bool-cases (is_there table)) [
          | inl there ↦ rw (y, there, KeptTable) p
          | inr free ↦ rw (y, free) (from_config-Kept process mask made (parse in_range config) q)
        ]
      ]
