-- ===== src/Mpsc/Chain/Take.antt =====
-- The end of `clog_atomic_mpsc_queue_out` in source/utils/clog_atomic_mpsc_queue.c keeps the chain.
use casca_log.Base.{
  ℕ, suc, ◌+◌, ◌≤◌, ◌<◌, ◌≡◌, sym, ap, ◌∙◌, true, false, inl, inr, none, some, List, [], ◌∷◌, ◌++◌,
  length, arith, update, update_at, update_apart, eq_cases, append_assoc,
}
use mathlib.Core.Bool.{true≢false}
use mathlib.Core.Path.{subst}
use casca_log.Mpsc.{MpscQueue}
use casca_log.Mpsc.Chain.{Holds, IsChain}

module _ (s : MpscQueue) (at : ℕ → ℕ) (h t : ℕ) (waiting : List ℕ) (c : IsChain s at h t waiting)
    (n : ℕ) (e : s.next s.head ≡ some n) where
  abbrev pub taken : MpscQueue
  taken = record s {
    head = n;
    allocated = update s.allocated s.head false;
    taking = none;
    got = s.got ++ s.data_of n ∷ [];
  }

  at_head : s.next (at h) ≡ some n
  at_head = ap s.next (sym c.first) ∙ e

  pub not_empty : h < t
  not_empty = elim (eq_cases h t) [
    | inl same ↦
        absurd (let f = ap (λ k. s.next (at k)) same in let g = at_head in let z = c.end in cc)
    | inr other ↦ let l = c.long in omega (arith, l, other)
  ]

  pub second : n ≡ at (suc h)
  second = elim (c.linked h (omega arith) not_empty) [
    | inl f ↦ let g = at_head in cc
    | inr (f, more) ↦ absurd (let g = at_head in cc)
  ]

  live_on : (k : ℕ) → suc h ≤ k → k ≤ t → update s.allocated s.head false (at k) ≡ true
  live_on k a b =
      update_apart s.allocated s.head false (at k) (λ f. absurd (
        omega (
          arith,
          a,
          c.apart k h (omega (arith, a)) b (omega arith) (omega (arith, a, b)) (f ∙ c.first),
        )))
      ∙ c.live k (omega (arith, a)) b

  owned_on :
      (x : ℕ)
      → update s.allocated s.head false x ≡ true
      → (k : ℕ) × (suc h ≤ k) × (k ≤ t) × (x ≡ at k)
  owned_on x f = elim (eq_cases x s.head) [
    | inl same ↦ absurd (
        let g = ap (update s.allocated s.head false) same in
        let z = update_at s.allocated s.head false in true≢false (sym f ∙ g ∙ z))
    | inr other ↦
        let (k, a, b, g) = c.owned x (sym (update_apart s.allocated s.head false x other) ∙ f) in
        elim (eq_cases h k) [
          | inl same ↦ absurd (other (g ∙ ap at (sym same) ∙ sym c.first))
          | inr later ↦ (k, omega (arith, a, later), b, g)
        ]
  ]

  place_on :
      (j p m : ℕ)
      → s.linking j ≡ some (p, m)
      → (k : ℕ) × (suc h ≤ k) × (k < t) × (p ≡ at k) × (m ≡ at (suc k)) × (s.next p ≡ none)
  place_on j p m f =
      let (k, a, b, x, y, z) = c.place j p m f in
      elim (eq_cases h k) [
        | inl same ↦
            absurd (let g = at_head in let q = ap at same in let r = ap s.next (x ∙ sym q) in cc)
        | inr other ↦ (k, omega (arith, a, other), b, x, y, z)
      ]

  pub take-IsChain : (v : ℕ) (vs : List ℕ) → waiting ≡ v ∷ vs → IsChain taken at (suc h) t vs
  take-IsChain v vs w =
      let held : Holds s.data_of at h (v ∷ vs) = subst (Holds s.data_of at h) w c.values in
      record {
        long = c.long ∙ ap (λ l. h + length l) w ∙ omega arith;
        first = second;
        last = c.last;
        live = live_on;
        owned = owned_on;
        apart = λ j k a b x y. c.apart j k (omega (arith, a)) b (omega (arith, x)) y;
        end = c.end;
        linked = λ k a. c.linked k (omega (arith, a));
        place = place_on;
        alone = c.alone;
        ready = λ m f. absurd cc;
        values = held.1;
        order =
            append_assoc s.got (s.data_of n ∷ []) vs
            ∙ ap (λ d. s.got ++ d ∷ vs) (ap s.data_of second ∙ held.0)
            ∙ ap (λ l. s.got ++ l) (sym w)
            ∙ c.order;
      }
