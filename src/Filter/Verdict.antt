-- ===== src/Filter/Verdict.antt =====
-- `clog_add_filter` and `clog_filter_log`: which filters there are, and what they let pass.
use casca_log.Base.{
  ℕ, ◌≡◌, Bool, true, false, not, ◌&&◌, Option, none, some, List, [], ◌∷◌, ◌==◌, ltb, arith,
  Bool-cases, Option-cases, inl, inr,
}
use casca_log.Filter.{
  Bytes, FilterRes, Filter, Filters, filter_pre, filter_post, add_filter_to_chain, add_filter,
}
use casca_log.Filter.Order.{IsSorted, add-IsSorted}

-- Filters of one type, with a function.
abbrev pub HasFunction : Option (Option Bytes → Bytes → FilterRes) → Type 0
HasFunction none = ⊥
HasFunction (some run) = Unit {0}

abbrev pub AreOf : ℕ → List Filter → Type 0
AreOf t [] = Unit {0}
AreOf t (f ∷ fs) = (f.type ≡ t) × HasFunction f.filter × AreOf t fs

pub record IsValid (fs : Filters) : Type 0 where
  pub pre_sorted : IsSorted fs.pre_chain
  pub pre_typed : AreOf filter_pre fs.pre_chain
  pub post_sorted : IsSorted fs.post_chain
  pub post_typed : AreOf filter_post fs.post_chain

add-AreOf :
    (t : ℕ) (fs : List Filter) (f : Filter)
    → f.type ≡ t
    → HasFunction f.filter
    → AreOf t fs
    → AreOf t (add_filter_to_chain fs f)
unfolding add_filter_to_chain
add-AreOf t [] f e h a = (e, h, tt)
add-AreOf t (c ∷ fs) f e h (k, l, a) = elim (Bool-cases (ltb f.priority c.priority)) [
  | inl y ↦ rw (y, AreOf) (e, h, (k, l, a))
  | inr n ↦ rw (n, AreOf) (k, l, add-AreOf t fs f e h a)
]

-- Whatever filter is added, in whatever state: both chains stay sorted, and the filters of each
-- are of its type and have a function.
pub add_filter-IsValid :
    (is_created has_next : Bool) (fs : Filters) (f : Filter)
    → IsValid fs
    → IsValid (add_filter is_created has_next fs f).1
unfolding add_filter
add_filter-IsValid false has_next fs f v = v
add_filter-IsValid true has_next fs f v = elim (Option-cases f.filter) [
  | inl n ↦ elim (Bool-cases (not (f.type == filter_pre) && not (f.type == filter_post))) [
    | inl y ↦ rw y v
    | inr m ↦ rw (m, n) v
  ]
  | inr (run, e) ↦ elim (Bool-cases has_next) [
    | inl next ↦ elim (Bool-cases (not (f.type == filter_pre) && not (f.type == filter_post))) [
      | inl y ↦ rw y v
      | inr m ↦ rw (m, e, next) v
    ]
    | inr last ↦
        let h : HasFunction f.filter = rw e tt in
        elim (Bool-cases (f.type == filter_pre)) [
          | inl y ↦
              rw (y, e, last, y)
                record {
                  pre_sorted = add-IsSorted fs.pre_chain f v.pre_sorted;
                  pre_typed = add-AreOf filter_pre fs.pre_chain f (ground arith) h v.pre_typed;
                  post_sorted = v.post_sorted;
                  post_typed = v.post_typed;
                }
          | inr n ↦ elim (Bool-cases (f.type == filter_post)) [
            | inl z ↦
                rw (n, z, e, last, n)
                  record {
                    pre_sorted = v.pre_sorted;
                    pre_typed = v.pre_typed;
                    post_sorted = add-IsSorted fs.post_chain f v.post_sorted;
                    post_typed =
                        add-AreOf filter_post fs.post_chain f (ground arith) h v.post_typed;
                  }
            | inr m ↦ rw (n, m) v
          ]
        ]
  ]
]
