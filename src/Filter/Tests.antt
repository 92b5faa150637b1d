-- ===== src/Filter/Tests.antt =====
-- Chains of a few filters, and the theorems at them.
use casca_log.Base.{
  ℕ, suc, ◌≡◌, ◌≢◌, ◌↔◌, ◌∙◌, refl, sym, ap, true, false, Option, none, some, List, [], ◌∷◌, ◌++◌,
  if◌then◌else◌, ◌==◌, length, arith, plenty, Option-cases, ◌≤◌, inl, inr,
}
use casca_log.Filter.{
  Bytes, Filter, Filters, continue, filter_pre, add_filter_to_chain, add_filter, filter_log,
  keywords, keywords_create, use_after_free, filter_free,
}
use casca_log.Filter.Order.{IsSorted, of_priority, add_filters, add_filters-stable}
use casca_log.Filter.Verdict.{IsValid, add_filter-IsValid}
use casca_log.Filter.Keywords.{IsIn, IsFree, keywords_filters, filter_log-keywords}
use casca_log.Filter.Free.{filter_free_iff}

-- A filter by its priority and its parameter.
abbrev plain : ℕ → ℕ → Filter
plain p mark = record {
  priority = p;
  type = filter_pre;
  filter = some (λ q c. continue);
  param = some (mark ∷ []);
}

abbrev three : List Filter
three = plain 5 1 ∷ plain 2 2 ∷ plain 5 3 ∷ []

added : add_filters [] three ≡ plain 2 2 ∷ plain 5 1 ∷ plain 5 3 ∷ []
unfolding add_filters add_filter_to_chain
added = refl

add_filters-stable_example :
    IsSorted (add_filters [] three)
    × ((p : ℕ) → of_priority p (add_filters [] three) ≡ of_priority p three)
add_filters-stable_example = add_filters-stable three

abbrev no_filters : Filters
no_filters = record { pre_chain = []; post_chain = plain 4 1 ∷ [] }

no_filters-IsValid : IsValid record { pre_chain = plain 4 1 ∷ []; post_chain = [] }
no_filters-IsValid = record {
  pre_sorted = (tt, tt);
  pre_typed = (refl, tt, tt);
  post_sorted = tt;
  post_typed = tt;
}

added-IsValid :
    IsValid
      (add_filter true false record { pre_chain = plain 4 1 ∷ []; post_chain = [] } (plain 3 2)).1
added-IsValid =
    add_filter-IsValid true false record { pre_chain = plain 4 1 ∷ []; post_chain = [] } (plain 3 2)
      no_filters-IsValid

filter_free_iff_example : (filter_free three ≢ use_after_free) ↔ (length three ≤ 1)
filter_free_iff_example = filter_free_iff three

-- A search for a string at each place of another.
unfoldable prefix : Bytes → Bytes → Option Bytes
prefix [] s = some s
prefix (c ∷ cs) [] = none
prefix (c ∷ cs) (d ∷ ds) = let r = prefix cs ds in if c == d then r else none

unfoldable find : Bytes → Bytes → Option ℕ
find [] words = elim (prefix words []) [ some rest ↦ some 0 | none ↦ none ]
find (c ∷ cs) words =
    let later = find cs words in
    elim (prefix words (c ∷ cs)) [
      | some rest ↦ some 0
      | none ↦ elim later [ some n ↦ some (suc n) | none ↦ none ]
    ]

prefix-append : (words rest : Bytes) → prefix words (words ++ rest) ≡ some rest
unfolding prefix
prefix-append [] rest = refl
prefix-append (c ∷ cs) rest = ground (arith, prefix-append cs rest)

prefix-some : (words s rest : Bytes) → prefix words s ≡ some rest → s ≡ words ++ rest
unfolding prefix
prefix-some [] s rest e = cc
prefix-some (c ∷ cs) [] rest e = cc
prefix-some (c ∷ cs) (d ∷ ds) rest e = ground (arith, prefix-some cs ds rest)

find-prefix : (s words rest : Bytes) → prefix words s ≡ some rest → find s words ≢ none
unfolding find
find-prefix [] words rest e = rw (e, find) (λ n. cc)
find-prefix (c ∷ cs) words rest e = rw (e, find) (λ n. cc)

find-IsIn : (before words after : Bytes) → find (before ++ (words ++ after)) words ≢ none
unfolding find
find-IsIn [] words after = find-prefix (words ++ after) words after (prefix-append words after)
find-IsIn (c ∷ cs) words after = ground (arith, find-IsIn cs words after)

find-some : (s words : Bytes) (n : ℕ) → find s words ≡ some n → IsIn words s
unfolding find
find-some [] words n e = elim (Option-cases (prefix words [])) [
  | inl z ↦ absurd (nothing z e)
  | inr (rest, h) ↦ record { before = []; after = rest; here = prefix-some words [] rest h }
]
  where
    nothing : prefix words [] ≡ none → find [] words ≡ some n → ⊥
    nothing z e = ground arith
find-some (c ∷ cs) words n e = elim (Option-cases (prefix words (c ∷ cs))) [
  | inr (rest, h) ↦ record { before = []; after = rest; here = prefix-some words (c ∷ cs) rest h }
  | inl z ↦ elim (Option-cases (find cs words)) [
    | inl y ↦ absurd (nothing z y e)
    | inr (k, h) ↦
        let r = find-some cs words k h in
        record { before = c ∷ r.before; after = r.after; here = ap (λ l. c ∷ l) r.here }
  ]
]
  where
    nothing : prefix words (c ∷ cs) ≡ none → find cs words ≡ none → find (c ∷ cs) words ≡ some n → ⊥
    nothing z y e = ground arith

finds : (content words : Bytes) → (find content words ≡ none) ↔ (IsIn words content → ⊥)
finds content words = (
  (λ e r. find-IsIn r.before words r.after (ap (λ s. find s words) (sym r.here) ∙ e)),
  (λ no_occurrence. elim (Option-cases (find content words)) [
    | inl e ↦ e
    | inr (n, e) ↦ absurd (no_occurrence (find-some content words n e))
  ]),
)

abbrev words : List (ℕ × Bytes)
words = (7, b'p' ∷ b'w' ∷ []) ∷ (3, b'k' ∷ b'e' ∷ b'y' ∷ []) ∷ []

filter_log-keywords_example :
    (filter_log
        (add_filters [] (keywords_filters find finds words))
        (some (b'm' ∷ b'y' ∷ b'p' ∷ b'w' ∷ []))
      ≡ true)
    ↔ IsFree find finds (b'm' ∷ b'y' ∷ b'p' ∷ b'w' ∷ []) words
filter_log-keywords_example = filter_log-keywords find finds words (b'm' ∷ b'y' ∷ b'p' ∷ b'w' ∷ [])

abbrev made : Option Filter
made = keywords_create find plenty 7 (b'p' ∷ b'w' ∷ [])

-- A filter on a keyword, as made and as run.
keywords_rejects :
    (elim made [ none ↦ true | some f ↦ filter_log (f ∷ []) (some (b'a' ∷ b'p' ∷ b'w' ∷ [])) ])
    ≡ false
unfolding keywords_create filter_log keywords find prefix
keywords_rejects = refl
