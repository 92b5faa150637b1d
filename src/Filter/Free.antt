-- ===== src/Filter/Free.antt =====
-- `clog_filter_free`, which frees the parameter of the filter that it is called with.
use casca_log.Base.{ℕ, ◌≤◌, ◌≡◌, ◌≢◌, ◌↔◌, refl, Option, none, some, List, [], ◌∷◌, length, arith}
use casca_log.Filter.{Filter, use_after_free, free_loop, filter_free}

free_loop-one :
    (param : Option (List ℕ)) (f : Filter) → free_loop (some param) (f ∷ []) ≢ use_after_free
unfolding free_loop
free_loop-one none f e = cc
free_loop-one (some p) f e = cc

free_loop-many :
    (param : Option (List ℕ)) (f g : Filter) (fs : List Filter)
    → free_loop (some param) (f ∷ g ∷ fs) ≡ use_after_free
unfolding free_loop
free_loop-many none f g fs = refl
free_loop-many (some p) f g fs = refl

-- A chain is freed without reading a freed filter just when it has at most one filter.
pub filter_free_iff :
    (chain : List Filter) → (filter_free chain ≢ use_after_free) ↔ (length chain ≤ 1)
unfolding filter_free free_loop
filter_free_iff [] = ((λ ne. omega arith), λ h e. cc)
filter_free_iff (f ∷ []) = ((λ ne. omega arith), λ h. free_loop-one f.param f)
filter_free_iff (f ∷ g ∷ fs) =
    ((λ ne. absurd (ne (free_loop-many f.param f g fs))), λ h. absurd (omega arith))
