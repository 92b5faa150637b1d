-- ===== src/Ebr/Release.antt =====
-- What source/utils/clog_ebr.c frees, after any moves of the threads.
use casca_log.Base.{
  ℕ, ◌%◌, ◌≤◌, ◌≡◌, sym, Bool, Option, none, some, List, ◌∷◌, ◌==◌, arith, Bool-cases, Option-cases,
  inl, inr, update, update_same, update_other,
}
use mathlib.Core.Path.{subst}
use casca_log.Ebr.{MemoryNode, Ebr, defer_release, defer_push, defer_retry, num_epochs}
use casca_log.Ebr.Grace.{
  Waits, AllWait, RetiringWaits, IsGraceful, AllWait-map, RetiringWaits-map, StaysLate, Seen-map,
  IsSafe-map,
}

-- Other lists, of entries that wait.
pub with_lists-IsGraceful :
    (s : Ebr) (memory : ℕ → List MemoryNode) (retiring : ℕ → Option (MemoryNode × ℕ))
    (freed : List ℕ)
    → ((j : ℕ) → AllWait s j (memory j))
    → ((i : ℕ) → RetiringWaits s (retiring i))
    → IsGraceful s
    → IsGraceful (record s { memory = memory; retiring = retiring; freed = freed })
with_lists-IsGraceful s memory retiring freed w c g =
    let t : Ebr = record s { memory = memory; retiring = retiring; freed = freed } in
    let f : StaysLate s t = λ x k l h. h in
    let m : ((j : ℕ) (x : MemoryNode) → Waits s j x → Waits t j x) =
      λ j x (l, a, b). (l, a, λ e. Seen-map s t (omega arith) f x s.poll l (b e)) in
    record {
      bounded = g.bounded;
      waiting = λ j. AllWait-map s t j (memory j) (m j) (w j);
      coming = λ i. RetiringWaits-map s t (retiring i) m (c i);
      safe = IsSafe-map s t (omega arith) f s.poll g.safe;
    }

pub update-AllWait :
    (s : Ebr) (memory : ℕ → List MemoryNode) (index : ℕ) (xs : List MemoryNode)
    → ((j : ℕ) → AllWait s j (memory j))
    → AllWait s index xs
    → (j : ℕ) → AllWait s j (update memory index xs j)
update-AllWait s memory index xs w h j = elim (Bool-cases (j == index)) [
  | inl y ↦
      let e : j ≡ index = ground (arith, y) in
      rw (update_same memory index xs j y) (subst (λ k. AllWait s k xs) (sym e) h)
  | inr n ↦ rw (update_other memory index xs j n) (w j)
]

update-RetiringWaits :
    (s : Ebr) (retiring : ℕ → Option (MemoryNode × ℕ)) (i : ℕ) (o : Option (MemoryNode × ℕ))
    → ((j : ℕ) → RetiringWaits s (retiring j))
    → RetiringWaits s o
    → (j : ℕ) → RetiringWaits s (update retiring i o j)
update-RetiringWaits s retiring i o c h j = elim (Bool-cases (j == i)) [
  | inl y ↦ rw (update_same retiring i o j y) h
  | inr n ↦ rw (update_other retiring i o j n) (c j)
]

-- An entry for the list of the current epoch.
new-Waits : (s : Ebr) (x : MemoryNode) → x.since ≤ s.clock → Waits s (s.epoch % 3) x
new-Waits s x l = (l, λ e. absurd (omega (arith, e)), λ e. absurd (omega (arith, e)))

pub defer_release-IsGraceful :
    (i ptr : ℕ) (malloc : Bool) (s : Ebr) → IsGraceful s → IsGraceful (defer_release i ptr malloc s)
unfolding defer_release
defer_release-IsGraceful i ptr malloc s g = elim (Option-cases (s.retiring i)) [
  | inr (r, e) ↦ rw (e, defer_release) g
  | inl n ↦ elim (Bool-cases malloc) [
    | inl y ↦
        let x : MemoryNode = record { ptr = ptr; since = s.clock } in
        rw (n, defer_release, y)
          (with_lists-IsGraceful s s.memory (update s.retiring i (some (x, s.epoch % num_epochs)))
            s.freed g.waiting
            (update-RetiringWaits s s.retiring i (some (x, s.epoch % num_epochs)) g.coming
              (new-Waits s x (omega arith)))
            g)
    | inr m ↦
        rw (n, defer_release, m)
          (with_lists-IsGraceful s s.memory s.retiring (ptr ∷ s.freed) g.waiting g.coming g)
  ]
]

coming_at :
    (s : Ebr) (o : Option (MemoryNode × ℕ)) (x : MemoryNode) (index : ℕ)
    → RetiringWaits s o
    → o ≡ some (x, index)
    → Waits s index x
coming_at s o x index h e = subst (RetiringWaits s) e h

pub defer_push-IsGraceful : (i : ℕ) (s : Ebr) → IsGraceful s → IsGraceful (defer_push i s)
unfolding defer_push
defer_push-IsGraceful i s g = elim (Option-cases (s.retiring i)) [
  | inl n ↦ rw (n, defer_push) g
  | inr ((x, index), e) ↦
      rw (e, defer_push)
        (with_lists-IsGraceful s (update s.memory index (x ∷ s.memory index))
          (update s.retiring i none) s.freed
          (update-AllWait s s.memory index (x ∷ s.memory index) g.waiting
            (coming_at s (s.retiring i) x index (g.coming i) e, g.waiting index))
          (update-RetiringWaits s s.retiring i none g.coming tt) g)
]

pub defer_retry-IsGraceful : (i : ℕ) (s : Ebr) → IsGraceful s → IsGraceful (defer_retry i s)
unfolding defer_retry
defer_retry-IsGraceful i s g = elim (Option-cases (s.retiring i)) [
  | inl n ↦ rw (n, defer_retry) g
  | inr ((x, index), e) ↦
      rw (e, defer_retry)
        (with_lists-IsGraceful s s.memory (update s.retiring i (some (x, s.epoch % num_epochs)))
          s.freed g.waiting
          (update-RetiringWaits s s.retiring i (some (x, s.epoch % num_epochs)) g.coming
            (new-Waits s x (coming_at s (s.retiring i) x index (g.coming i) e).0))
          g)
]
