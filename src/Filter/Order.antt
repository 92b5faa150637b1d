-- ===== src/Filter/Order.antt =====
-- `clog_add_filter_to_chain`: where it puts a filter.
use casca_log.Base.{
  ℕ, ◌≤◌, ◌<◌, ◌≡◌, refl, sym, ◌∙◌, ap, false, List, [], ◌∷◌, ◌++◌, if◌then◌else◌, ◌==◌, ltb, arith,
  Bool-cases, inl, inr,
}
use mathlib.Core.List.{append_assoc, append-nil}
use casca_log.Filter.{Filter, add_filter_to_chain}

-- Every filter of a chain has at least a priority.
abbrev pub IsOver : ℕ → List Filter → Type 0
IsOver p [] = Unit {0}
IsOver p (f ∷ fs) = (p ≤ f.priority) × IsOver p fs

-- The priorities of a chain do not descend.
abbrev pub IsSorted : List Filter → Type 0
IsSorted [] = Unit {0}
IsSorted (f ∷ fs) = IsOver f.priority fs × IsSorted fs

-- The filters of a priority, in their order.
unfoldable pub of_priority : ℕ → List Filter → List Filter
of_priority p [] = []
of_priority p (f ∷ fs) = let rest = of_priority p fs in if f.priority == p then f ∷ rest else rest

-- Filters added one after another, as a configuration lists them.
unfoldable pub add_filters : List Filter → List Filter → List Filter
add_filters chain [] = chain
add_filters chain (f ∷ fs) = add_filters (add_filter_to_chain chain f) fs

IsOver-le : (p q : ℕ) (fs : List Filter) → p ≤ q → IsOver q fs → IsOver p fs
IsOver-le p q [] h o = o
IsOver-le p q (f ∷ fs) h (l, o) = (omega arith, IsOver-le p q fs h o)

pub IsOver-add :
    (p : ℕ) (fs : List Filter) (f : Filter)
    → p ≤ f.priority
    → IsOver p fs
    → IsOver p (add_filter_to_chain fs f)
unfolding add_filter_to_chain
IsOver-add p [] f h o = (h, tt)
IsOver-add p (c ∷ fs) f h (l, o) = elim (Bool-cases (ltb f.priority c.priority)) [
  | inl y ↦ rw (y, IsOver) (h, (l, o))
  | inr n ↦ rw (n, IsOver) (l, IsOver-add p fs f h o)
]

pub add-IsSorted :
    (fs : List Filter) (f : Filter) → IsSorted fs → IsSorted (add_filter_to_chain fs f)
unfolding add_filter_to_chain
add-IsSorted [] f s = (tt, tt)
add-IsSorted (c ∷ fs) f (o, s) = elim (Bool-cases (ltb f.priority c.priority)) [
  | inl y ↦
      let h : f.priority ≤ c.priority = ground arith in
      rw (y, IsSorted) ((h, IsOver-le f.priority c.priority fs h o), (o, s))
  | inr n ↦ rw (n, IsSorted) (IsOver-add c.priority fs f (ground arith) o, add-IsSorted fs f s)
]

of_priority-over : (p q : ℕ) (fs : List Filter) → p < q → IsOver q fs → of_priority p fs ≡ []
unfolding of_priority
of_priority-over p q [] h o = refl
of_priority-over p q (f ∷ fs) h (l, o) =
    let other : (f.priority == p) ≡ false = ground arith in rw other (of_priority-over p q fs h o)

of_priority-append :
    (p : ℕ) (fs gs : List Filter) → of_priority p (fs ++ gs) ≡ of_priority p fs ++ of_priority p gs
unfolding of_priority
of_priority-append p [] gs = refl
of_priority-append p (f ∷ fs) gs = ground (arith, of_priority-append p fs gs)

-- Among the filters of its own priority the new one is the last.
of_priority-add :
    (p : ℕ) (fs : List Filter) (f : Filter)
    → IsSorted fs
    → of_priority p (add_filter_to_chain fs f) ≡ of_priority p (fs ++ f ∷ [])
unfolding add_filter_to_chain of_priority
of_priority-add p [] f s = refl
of_priority-add p (c ∷ fs) f (o, s) =
    let ih = of_priority-add p fs f s in
    elim (Bool-cases (ltb f.priority c.priority)) [
      | inr n ↦ rw (n, ih) refl
      | inl y ↦ elim (Bool-cases (f.priority == p)) [
        | inr other ↦
            rw (y, other, of_priority-append p fs (f ∷ []), other, append-nil (of_priority p fs))
              refl
        | inl same ↦
            let none_c : (c.priority == p) ≡ false = ground arith in
            let none_fs : of_priority p fs ≡ [] =
              of_priority-over p c.priority fs (ground arith) o in
            rw (y, same, none_c, of_priority-append p fs (f ∷ []), none_fs, same) refl
      ]
    ]

add_filters-stable_from :
    (chain fs : List Filter)
    → IsSorted chain
    → IsSorted (add_filters chain fs)
      × ((p : ℕ) → of_priority p (add_filters chain fs) ≡ of_priority p (chain ++ fs))
unfolding add_filters
add_filters-stable_from chain [] s = (s, λ p. rw (append-nil chain) refl)
add_filters-stable_from chain (f ∷ fs) s =
    let next = add_filter_to_chain chain f in
    let (t, r) = add_filters-stable_from next fs (add-IsSorted chain f s) in
    (
      t,
      λ p.
          r p
          ∙ of_priority-append p next fs
          ∙ ap (λ l. l ++ of_priority p fs) (of_priority-add p chain f s)
          ∙ sym (of_priority-append p (chain ++ f ∷ []) fs)
          ∙ ap (of_priority p) (append_assoc chain (f ∷ []) fs),
    )

-- Filters that are added to an empty chain stand there by priority, and those of the same priority
-- in the order in which they were added.
pub add_filters-stable :
    (fs : List Filter)
    → IsSorted (add_filters [] fs)
      × ((p : ℕ) → of_priority p (add_filters [] fs) ≡ of_priority p fs)
add_filters-stable fs = add_filters-stable_from [] fs tt
