-- ===== src/Ebr/Grace.antt =====
-- What the epochs of source/utils/clog_ebr.c guarantee to the threads that read.
use casca_log.Base.{
  ℕ, ◌+◌, ◌%◌, ◌≤◌, ◌<◌, ◌≡◌, ◌⊎◌, ◌∙◌, refl, sym, ap, false, Option, none, some, List, [], ◌∷◌,
  ◌==◌, arith, Bool-cases, Option-cases, inl, inr, update, update_same, update_other,
}
use casca_log.Ebr.{
  LocalState, active, inactive, released, MemoryNode, Poll, idle, freeing, scanning, Ebr, is_active,
  same_state, is_unlocked, register, check_enter, enter_load, enter_swap, exit, unregister,
}

-- The threads from a number on that are active have entered after the release of an entry was deferred.
abbrev pub Late : ℕ → Ebr → MemoryNode → Type 0
Late k s x = (i : ℕ) → k ≤ i → i < s.count → s.threads i ≡ active → x.since < s.entered i

abbrev pub AllLate : Ebr → List MemoryNode → Type 0
AllLate s [] = Unit {0}
AllLate s (x ∷ xs) = (x.since ≤ s.clock) × Late 0 s x × AllLate s xs

-- Of the thread that polls: it frees only such entries.
abbrev pub IsSafe : Ebr → Poll → Type 0
IsSafe s idle = Unit {0}
IsSafe s (freeing rest) = AllLate s rest
IsSafe s (scanning k) = Unit

abbrev pub Seen : Ebr → MemoryNode → Poll → Type 0
Seen s x idle = Unit {0}
Seen s x (freeing rest) = Unit
Seen s x (scanning k) = Late k s x

-- An entry of a list: of the next list to be freed, nobody reads it; and of the list after that, none of
-- the threads that the poll has seen.
abbrev pub Waits : Ebr → ℕ → MemoryNode → Type 0
Waits s index x =
    (x.since ≤ s.clock)
    × (index ≡ (s.epoch + 1) % 3 → Late 0 s x)
    × (index ≡ (s.epoch + 2) % 3 → Seen s x s.poll)

abbrev pub AllWait : Ebr → ℕ → List MemoryNode → Type 0
AllWait s index [] = Unit {0}
AllWait s index (x ∷ xs) = Waits s index x × AllWait s index xs

abbrev pub RetiringWaits : Ebr → Option (MemoryNode × ℕ) → Type 0
RetiringWaits s none = Unit {0}
RetiringWaits s (some (x, index)) = Waits s index x

pub record IsGraceful (s : Ebr) : Type 0 where
  pub bounded : s.epoch < 3
  pub waiting : (j : ℕ) → AllWait s j (s.memory j)
  pub coming : (i : ℕ) → RetiringWaits s (s.retiring i)
  pub safe : IsSafe s s.poll

pub AllWait-map :
    (s t : Ebr) (j : ℕ) (xs : List MemoryNode)
    → ((x : MemoryNode) → Waits s j x → Waits t j x)
    → AllWait s j xs
    → AllWait t j xs
AllWait-map s t j [] f h = tt
AllWait-map s t j (x ∷ xs) f (h, hs) = (f x h, AllWait-map s t j xs f hs)

pub RetiringWaits-map :
    (s t : Ebr) (o : Option (MemoryNode × ℕ))
    → ((j : ℕ) (x : MemoryNode) → Waits s j x → Waits t j x)
    → RetiringWaits s o
    → RetiringWaits t o
RetiringWaits-map s t none f h = tt
RetiringWaits-map s t (some (x, index)) f h = f index x h

pub AllWait-Late :
    (s : Ebr) (j : ℕ) (xs : List MemoryNode) → j ≡ (s.epoch + 1) % 3 → AllWait s j xs → AllLate s xs
AllWait-Late s j [] e h = tt
AllWait-Late s j (x ∷ xs) e ((l, a, b), hs) = (l, a e, AllWait-Late s j xs e hs)

-- Other states of the threads, and a later clock.
abbrev with_threads : Ebr → (ℕ → LocalState) → ℕ → (ℕ → Option LocalState) → ℕ → (ℕ → ℕ) → Ebr
with_threads s threads count entering clock entered = record s {
  threads = threads;
  count = count;
  entering = entering;
  clock = clock;
  entered = entered;
}

-- A change of the threads by which no late entry comes to be read.
abbrev pub StaysLate : Ebr → Ebr → Type 0
StaysLate s t = (x : MemoryNode) (k : ℕ) → x.since ≤ s.clock → Late k s x → Late k t x

module _ (s t : Ebr) (le : s.clock ≤ t.clock) (f : StaysLate s t) where
  pub Seen-map : (x : MemoryNode) (p : Poll) → x.since ≤ s.clock → Seen s x p → Seen t x p
  Seen-map x idle l h = tt
  Seen-map x (freeing rest) l h = tt
  Seen-map x (scanning k) l h = f x k l h

  AllLate-map : (xs : List MemoryNode) → AllLate s xs → AllLate t xs
  AllLate-map [] h = tt
  AllLate-map (x ∷ xs) (l, h, hs) = (omega (arith, l, le), f x 0 l h, AllLate-map xs hs)

  pub IsSafe-map : (p : Poll) → IsSafe s p → IsSafe t p
  IsSafe-map idle h = tt
  IsSafe-map (freeing rest) h = AllLate-map rest h
  IsSafe-map (scanning k) h = tt

module _ (s : Ebr) (threads : ℕ → LocalState) (count : ℕ) (entering : ℕ → Option LocalState)
    (clock : ℕ) (entered : ℕ → ℕ) (le : s.clock ≤ clock)
    (f : StaysLate s (with_threads s threads count entering clock entered)) where
  abbrev after : Ebr
  after = with_threads s threads count entering clock entered

  Waits-threads : (j : ℕ) (x : MemoryNode) → Waits s j x → Waits after j x
  Waits-threads j x (l, a, b) =
      (omega (arith, l, le), λ e. f x 0 l (a e), λ e. Seen-map s after le f x s.poll l (b e))

  IsGraceful-threads : IsGraceful s → IsGraceful after
  IsGraceful-threads g = record {
    bounded = g.bounded;
    waiting = λ j. AllWait-map s after j (s.memory j) (Waits-threads j) (g.waiting j);
    coming = λ i. RetiringWaits-map s after (s.retiring i) Waits-threads (g.coming i);
    safe = IsSafe-map s after le f s.poll g.safe;
  }

not_active : (t : LocalState) → is_active t ≡ false → t ≡ active → ⊥
unfolding is_active
not_active t q e = let p = ap is_active e in absurd cc

-- A thread whose new state is not active changes nothing for the entries.
quiet_state :
    (s : Ebr) (i : ℕ) (t : LocalState) (count : ℕ) (entering : ℕ → Option LocalState)
    → is_active t ≡ false
    → ((j : ℕ) → j < count → (j < s.count) ⊎ (j ≡ i))
    → StaysLate s (with_threads s (update s.threads i t) count entering s.clock s.entered)
quiet_state s i t count entering q c x k l h j kj jc a = elim (Bool-cases (j == i)) [
  | inl y ↦ absurd (not_active t q (sym (update_same s.threads i t j y) ∙ a))
  | inr n ↦ elim (c j jc) [
    | inl lt ↦ h j kj lt (sym (update_other s.threads i t j n) ∙ a)
    | inr e ↦ absurd (ground (arith, e, n))
  ]
]

-- Nor does one that enters now.
entering_state :
    (s : Ebr) (i : ℕ) (entering : ℕ → Option LocalState)
    → StaysLate s (
        with_threads s
          (update s.threads i active)
          s.count
          entering
          (s.clock + 1)
          (update s.entered i (s.clock + 1)))
entering_state s i entering x k l h j kj jc a = elim (Bool-cases (j == i)) [
  | inl y ↦ rw (update_same s.entered i (s.clock + 1) j y) (omega (arith, l))
  | inr n ↦
      rw (update_other s.entered i (s.clock + 1) j n)
        (h j kj jc (sym (update_other s.threads i active j n) ∙ a))
]

-- Each move of a thread that reads.
pub register-IsGraceful : (s : Ebr) → IsGraceful s → IsGraceful (register s)
unfolding register is_active
register-IsGraceful s g = elim (Bool-cases (is_unlocked s.poll)) [
  | inl y ↦ rw y (
      IsGraceful-threads s (update s.threads s.count inactive) (s.count + 1) s.entering s.clock
        s.entered (omega arith)
        (quiet_state s s.count inactive (s.count + 1) s.entering refl (λ j l. ground (arith, l))) g)
  | inr n ↦ rw n g
]

pub enter_load-IsGraceful : (i : ℕ) (s : Ebr) → IsGraceful s → IsGraceful (enter_load i s)
unfolding enter_load
enter_load-IsGraceful i s g = elim (Option-cases (check_enter (s.threads i) s.state)) [
  | inl n ↦
      rw (n, enter_load)
        (IsGraceful-threads s s.threads s.count (update s.entering i (some (s.threads i))) s.clock
          s.entered (omega arith) (λ x k l h. h) g)
  | inr (ret, e) ↦ rw (e, enter_load) g
]

pub exit-IsGraceful : (i : ℕ) (s : Ebr) → IsGraceful s → IsGraceful (exit i s)
unfolding exit is_active
exit-IsGraceful i s g =
    IsGraceful-threads s (update s.threads i inactive) s.count s.entering s.clock s.entered
      (omega arith) (quiet_state s i inactive s.count s.entering refl (λ j l. inl l)) g

pub unregister-IsGraceful : (i : ℕ) (s : Ebr) → IsGraceful s → IsGraceful (unregister i s)
unfolding unregister is_active
unregister-IsGraceful i s g =
    IsGraceful-threads s (update s.threads i released) s.count s.entering s.clock s.entered
      (omega arith) (quiet_state s i released s.count s.entering refl (λ j l. inl l)) g

pub enter_swap-IsGraceful : (i : ℕ) (s : Ebr) → IsGraceful s → IsGraceful (enter_swap i s)
unfolding enter_swap
enter_swap-IsGraceful i s g = elim (Option-cases (s.entering i)) [
  | inl n ↦ rw (n, enter_swap) g
  | inr (old, e) ↦ elim (Bool-cases (same_state (s.threads i) old)) [
    | inl y ↦
        rw (e, enter_swap, y)
          (IsGraceful-threads s (update s.threads i active) s.count (update s.entering i none)
            (s.clock + 1) (update s.entered i (s.clock + 1)) (omega arith)
            (entering_state s i (update s.entering i none)) g)
    | inr m ↦
        rw (e, enter_swap, m)
          (IsGraceful-threads s s.threads s.count (update s.entering i none) s.clock s.entered
            (omega arith) (λ x k l h. h) g)
  ]
]
