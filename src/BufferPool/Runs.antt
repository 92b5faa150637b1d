-- ===== src/BufferPool/Runs.antt =====
-- A pool of source/utils/clog_buffer_pool.c from its start to its end.
use casca_log.Base.{
  ℕ, suc, ◌+◌, ◌-◌, ◌≤◌, ◌<◌, ◌≡◌, ◌↔◌, refl, sym, ap, Bool, true, false, ◌&&◌, ◌||◌, Option, none,
  some, List, [], ◌∷◌, length, if◌then◌else◌, ◌==◌, leb, arith, Bool-cases, inl, inr, Res, success,
  invalid_param, no_memory,
}
use mathlib.Core.Path.{subst}
use casca_log.BufferPool.{
  Pool, pool, PoolState, disabled, running, finalizing, malloc_batch, initialize, release, finalize,
}
use casca_log.BufferPool.Steps.{count, System, Steps}
use casca_log.BufferPool.Safety.{IsValid, system, some_inj, Steps-IsValid}

-- How often malloc gave an address.
unfoldable pub given : ℕ → List (Option ℕ) → ℕ
given a [] = 0
given a (none ∷ ms) = given a ms
given a (some b ∷ ms) = let n = given a ms in if b == a then suc n else n

-- All buffers that malloc gave are behind the head, once each.
abbrev Holds : List (Option ℕ) → List ℕ → List ℕ → Type 0
Holds ms hd xs =
    (length xs ≡ length ms + length hd) × ((a : ℕ) → count a xs ≡ given a ms + count a hd)

malloc_batch-Holds :
    (ms : List (Option ℕ)) (hd xs : List ℕ) → malloc_batch ms (some hd) ≡ some xs → Holds ms hd xs
unfolding malloc_batch given count
malloc_batch-Holds [] hd xs e = rw (sym (some_inj e)) (omega arith, λ a. omega arith)
malloc_batch-Holds (none ∷ ms) hd xs e = absurd cc
malloc_batch-Holds (some b ∷ ms) [] xs e =
    let (n, k) = malloc_batch-Holds ms (b ∷ []) xs e in (omega (arith, n), λ a. ground (arith, k a))
malloc_batch-Holds (some b ∷ ms) (h ∷ rest) xs e =
    let (n, k) = malloc_batch-Holds ms (h ∷ b ∷ rest) xs e in
    (omega (arith, n), λ a. ground (arith, k a))

-- The first buffer that malloc gives starts the list.
malloc_batch_first :
    (ms : List (Option ℕ)) (xs : List ℕ) → malloc_batch ms none ≡ some xs → Holds ms [] xs
unfolding malloc_batch given count
malloc_batch_first [] xs e = absurd cc
malloc_batch_first (none ∷ ms) xs e = absurd cc
malloc_batch_first (some b ∷ ms) xs e =
    let (n, k) = malloc_batch-Holds ms (b ∷ []) xs e in (omega (arith, n), λ a. ground (arith, k a))

abbrev pub started : Pool → System
started p = record { buffers = p; out = [] }

-- The pool that a successful set-up makes of its buffers.
if_started :
    (guard done : Bool) (batch : Option (List ℕ)) (made : List ℕ → Pool) {res : Res} {p : Pool}
    → ◌≡◌ {A = Res × Option Pool}
        (if guard
          then (invalid_param, none)
          else if done
          then elim batch [ none ↦ (no_memory, none) | some b ↦ (success, some (made b)) ]
          else (no_memory, none))
        (res, some p)
    → (b : List ℕ) × (batch ≡ some b) × (made b ≡ p)
if_started true done batch made e = absurd cc
if_started false false batch made e = absurd cc
if_started false true none made e = absurd cc
if_started false true (some b) made e = (b, refl, some_inj (ap (λ (z : Res × Option Pool). z.1) e))

initialize-IsValid :
    (done : Bool) (ms : List (Option ℕ)) (auto_manager : Bool) (threshold : ℕ) (res : Res)
    (p : Pool)
    → initialize done ms auto_manager threshold ≡ (res, some p)
    → ((a : ℕ) → given a ms ≤ 1)
    → IsValid (started p)
unfolding initialize count
initialize-IsValid done ms auto_manager threshold res p e once =
    let n = length ms in
    let (buffers, batch, same) =
      if_started (auto_manager && (threshold == 0 || leb 100 threshold)) done (malloc_batch ms none)
        (λ b. (system running b n n n threshold auto_manager []).buffers) e in
    let (len, counts) = malloc_batch_first ms buffers batch in
    subst (λ b. IsValid (started b)) same
      record {
        once = λ a. omega (arith, counts a, once a);
        free = omega (arith, len);
        all = omega (arith, len);
        phase = omega arith;
      }

-- One thread sets a pool up with distinct buffers and uses it while no other thread does: after any steps
-- of acquiring, of releasing what is held and of finalizing, with no address from malloc that is in
-- use, no buffer is free and held at once, or held twice, and the counters are the numbers of free
-- buffers and of all.
pub initialize-Steps-IsValid :
    (done : Bool) (ms : List (Option ℕ)) (auto_manager : Bool) (threshold : ℕ) (res : Res)
    (p : Pool) (s : System)
    → initialize done ms auto_manager threshold ≡ (res, some p)
    → ((a : ℕ) → given a ms ≤ 1)
    → Steps (started p) s
    → IsValid s
initialize-Steps-IsValid done ms auto_manager threshold res p s e once steps =
    Steps-IsValid steps (initialize-IsValid done ms auto_manager threshold res p e once)

release_phase :
    (q : PoolState) (hd out : List ℕ) (f c i t : ℕ) (am : Bool) (a : ℕ)
    → IsValid (system q hd f c i t am out)
    → 0 < count a out
    → (release (system q hd f c i t am out).buffers (record { addr = a; type = pool }) ≡ none)
      ↔ ((q ≡ finalizing) × (length out ≡ 1))
unfolding release
release_phase disabled hd out f c i t am a v h = absurd v.phase
release_phase running hd out f c i t am a v h = ((λ e. absurd cc), λ (e, n). absurd cc)
release_phase finalizing hd out f c i t am a v h =
    let (idle, some_held) : (length hd ≡ 0) × (0 < length out) = v.phase in
    let all : c ≡ length hd + length out = v.all in
    elim (Bool-cases (c - 1 == 0)) [
      | inl y ↦ rw y ((λ e. (refl, ground arith)), λ e. refl)
      | inr n ↦ rw n ((λ e. absurd cc), λ (e, one). absurd (ground arith))
    ]

-- In a valid pool, a held buffer that comes back takes the pool with it just when the pool is being
-- finalized and no other buffer is held.
pub release_last :
    (s : System) (a : ℕ)
    → IsValid s
    → 0 < count a s.out
    → (release s.buffers (record { addr = a; type = pool }) ≡ none)
      ↔ ((s.buffers.state ≡ finalizing) × (length s.out ≡ 1))
release_last s a v h =
    let b = s.buffers in
    release_phase b.state b.head s.out b.free_count b.capacity b.init_capacity b.threshold
      b.auto_manager a v h

-- Finalizing a valid pool frees it at once just when no buffer is held.
pub finalize_idle : (s : System) → IsValid s → ((finalize s.buffers).1 ≡ none) ↔ (length s.out ≡ 0)
unfolding finalize
finalize_idle s v =
    let all = v.all in
    elim (Bool-cases (s.buffers.capacity - length s.buffers.head == 0)) [
      | inl y ↦ rw y ((λ e. ground arith), λ e. refl)
      | inr n ↦ rw n ((λ e. absurd cc), λ e. absurd (ground arith))
    ]
