-- ===== src/BufferPool/Shrink.antt =====
-- When `clog_buffer_pool_release` frees a buffer: the share of buffers in use, and the threshold.
use casca_log.Base.{
  ℕ, ◌+◌, ◌-◌, ◌*◌, ◌≤◌, ◌<◌, ◌≡◌, ◌↔◌, refl, sym, ◌∙◌, ap, Bool, true, false, ◌&&◌, ◌||◌, some,
  length, if◌then◌else◌, ◌==◌, ltb, leb, arith, Bool-cases, inl, inr,
}
use mathlib.Core.Path.{subst}
use native.Mathlib.Nat.{add-mul, le-div_iff_mul-le}
use casca_log.BufferPool.{Pool, pool, running, push, rate, put_back, release}
use casca_log.BufferPool.Steps.{count, System}
use casca_log.BufferPool.Safety.{IsValid, IsPhase, count-length}

rate_le :
    (p : Pool) (held t : ℕ)
    → p.capacity ≡ p.free_count + held
    → 0 < held
    → t ≤ 100
    → (rate p ≤ t) ↔ (held * 100 ≤ t * p.capacity)
unfolding rate
rate_le p held t all some_held h =
    let c = p.capacity in
    let u = 100 - t in
    let sum : t * c + u * c ≡ 100 * c = sym (add-mul t u c) ∙ ap (λ n. n * c) (omega arith) in
    let bound = le-div_iff_mul-le {k = c} {x = u} {y = p.free_count * 100} (omega (arith, all)) in
    (
      (λ below. let enough = bound.0 (omega (arith, below)) in omega (arith, enough, sum, all)),
      (λ below. let enough = bound.1 (omega (arith, below, sum, all)) in omega (arith, enough)),
    )

-- Whether less than the threshold's share of the buffers is in use, of more than there were first.
abbrev pub is_idle : System → Bool
is_idle s =
    leb (length s.out * 100) (s.buffers.threshold * s.buffers.capacity)
    && ltb s.buffers.init_capacity s.buffers.capacity

pushes :
    (s : System)
    → ((rate s.buffers ≤ s.buffers.threshold)
        ↔ (length s.out * 100 ≤ s.buffers.threshold * s.buffers.capacity))
    → s.buffers.init_capacity ≤ s.buffers.capacity
    → is_idle s ≡ false
    → ltb s.buffers.threshold (rate s.buffers) || s.buffers.capacity == s.buffers.init_capacity
      ≡ true
pushes s share lower n =
    let p = s.buffers in
    elim (Bool-cases (ltb p.threshold (rate p))) [
      | inl y ↦ rw y refl
      | inr low ↦ let used = share.0 (ground arith) in rw low (ground arith)
    ]

-- Of a valid running pool that manages itself: a buffer that comes back is freed when the share of
-- the buffers in use is at most the threshold, in percent, and the pool has more than it was set up
-- with; else it is pushed on the free ones.
pub release_managed :
    (s : System) (a : ℕ)
    → IsValid s
    → 0 < count a s.out
    → s.buffers.state ≡ running
    → s.buffers.auto_manager ≡ true
    → s.buffers.threshold ≤ 100
    → release s.buffers (record { addr = a; type = pool })
      ≡ some (
          if is_idle s
          then record s.buffers { capacity = s.buffers.capacity - 1 }
          else push s.buffers a)
unfolding release put_back rate
release_managed s a v h run auto t =
    let p = s.buffers in
    let share =
      rate_le p (length s.out) p.threshold (omega (arith, v.all, v.free))
        (omega (arith, count-length a s.out)) t in
    let lower : p.init_capacity ≤ p.capacity = subst (λ q. IsPhase q s) run v.phase in
    elim (Bool-cases (is_idle s)) [
      | inl y ↦
          let below = share.1 (ground arith) in
          let low : ltb p.threshold (rate p) ≡ false = ground arith in
          let more : (p.capacity == p.init_capacity) ≡ false = ground arith in
          rw (run, auto, y, low, more) refl
      | inr n ↦ rw (run, auto, n, pushes s share lower n) refl
    ]
