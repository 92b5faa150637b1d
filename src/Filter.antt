-- ===== src/Filter.antt =====
-- source/filter/clog_filter.c, source/filter/clog_filter_keywords.c and the filters of
-- source/casca_log_core.c.
--
-- A chain is the list of the filters behind its head, whose `next` they are. An item is the content
-- of its log. The function of a filter, which may be NULL, takes its parameter, a string. `strstr`
-- is the C library's.
pub mod Order
pub mod Verdict
pub mod Keywords
pub mod Free
mod Tests
use casca_log.Base.{
  ℕ, Bool, true, false, Option, none, some, List, [], ◌∷◌, if◌then◌else◌, ◌==◌, ltb, ◌&&◌, ◌||◌,
  not, Res, success, invalid_param, abnormal_state, Alloc,
}

abbrev pub Bytes : Type 0
Bytes = List ℕ

-- `clog_filter_type_e`: CLOG_FILTER_PRE and CLOG_FILTER_POST.
abbrev pub filter_pre : ℕ
filter_pre = 0

abbrev pub filter_post : ℕ
filter_post = 1

-- `clog_filter_res_e`.
pub data FilterRes : Type 0 where
  continue accept reject : FilterRes

-- `struct clog_filter`.
pub record Filter : Type 0 where
  priority : ℕ
  type : ℕ
  filter : Option (Option Bytes → Bytes → FilterRes)
  param : Option Bytes

-- `clog_add_filter_to_chain`.
unfoldable pub add_filter_to_chain : List Filter → Filter → List Filter
add_filter_to_chain [] filter = filter ∷ []
add_filter_to_chain (cur ∷ chain) filter =
    let later = cur ∷ add_filter_to_chain chain filter in
    if ltb filter.priority cur.priority then filter ∷ cur ∷ chain else later

-- `filters` of `struct clog_context`.
pub record Filters : Type 0 where
  pub pre_chain : List Filter
  pub post_chain : List Filter

-- `clog_add_filter`, from its state check on. `is_created` is whether the context's state is
-- CLOG_STATE_CREATED, `has_next` whether the filter is linked to another.
unfoldable pub add_filter : Bool → Bool → Filters → Filter → Res × Filters
add_filter is_created has_next fs filter =
    let added =
      if filter.type == filter_pre
      then record {
        pre_chain = add_filter_to_chain fs.pre_chain filter;
        post_chain = fs.post_chain;
      }
      else record {
        pre_chain = fs.pre_chain;
        post_chain = add_filter_to_chain fs.post_chain filter;
      } in
    if not is_created
    then (abnormal_state, fs)
    else if not (filter.type == filter_pre) && not (filter.type == filter_post)
    then (invalid_param, fs)
    else elim filter.filter [
      | none ↦ (invalid_param, fs)
      | some run ↦ if has_next then (invalid_param, fs) else (success, added)
    ]

-- `clog_filter_log`.
unfoldable pub filter_log : List Filter → Option Bytes → Bool
filter_log chain none = true
filter_log [] (some item) = true
filter_log (f ∷ chain) (some item) =
    let rest = filter_log chain (some item) in
    elim f.filter [
      | none ↦ false
      | some run ↦ elim (run f.param item) [ accept ↦ true | reject ↦ false | continue ↦ rest ]
    ]

module _ (strstr : Bytes → Bytes → Option ℕ) where
  -- `clog_filter_keywords`. Every filter that has it has a parameter.
  unfoldable pub keywords : Option Bytes → Bytes → FilterRes
  keywords none content = continue
  keywords (some param) content = elim (strstr content param) [ some at ↦ reject | none ↦ continue ]

  -- `clog_filter_keywords_create`, of a string that is not NULL.
  unfoldable pub keywords_create : Alloc → ℕ → Bytes → Option Filter
  keywords_create a priority words =
      if a 0 && a 1
      then some record {
        priority = priority;
        type = filter_post;
        filter = some keywords;
        param = some words;
      }
      else none

-- What freeing a chain comes to: the parameters that were freed, in order, or a read of a filter that
-- was freed before.
pub data Freed : Type 0 where
  freed : List Bytes → Freed
  use_after_free : Freed

-- The loop of `clog_filter_free`, which frees the filter under `head`, and the parameter of `filter`,
-- the one that it was called with: `none` when that has been freed.
unfoldable pub free_loop : Option (Option Bytes) → List Filter → Freed
free_loop filter [] = freed []
free_loop none (head ∷ chain) = use_after_free
free_loop (some param) (head ∷ chain) =
    let rest = free_loop none chain in
    elim param [
      | none ↦ rest
      | some p ↦ elim rest [ freed ps ↦ freed (p ∷ ps) | use_after_free ↦ use_after_free ]
    ]

-- `clog_filter_free`.
unfoldable pub filter_free : List Filter → Freed
filter_free [] = free_loop none []
filter_free (filter ∷ chain) = free_loop (some filter.param) (filter ∷ chain)
