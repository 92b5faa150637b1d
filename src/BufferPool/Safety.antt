-- ===== src/BufferPool/Safety.antt =====
-- What holds of a pool of source/utils/clog_buffer_pool.c at any time.
use casca_log.Base.{
  ℕ, suc, ◌+◌, ◌-◌, ◌≤◌, ◌<◌, ◌≡◌, refl, ◌∙◌, ap, Bool, true, false, not, ◌||◌, Option, none, some,
  List, [], ◌∷◌, length, if◌then◌else◌, ◌==◌, ltb, arith, ==_iff, Bool-cases, inl, inr, Res,
}
use mathlib.Core.Path.{subst}
use casca_log.BufferPool.{
  Pool, pool, PoolState, disabled, running, finalizing, acquire, rate, put_back, release, finalize,
}
use casca_log.BufferPool.Steps.{
  count, erase, System, after_acquire, IsFresh, Step, acquires, releases, finalizes, Steps, start,
  after, count-erase, length-erase,
}

-- Which states a pool can be in.
abbrev pub IsPhase : PoolState → System → Type 0
IsPhase disabled s = ⊥
IsPhase running s = s.buffers.init_capacity ≤ s.buffers.capacity
IsPhase finalizing s = (length s.buffers.head ≡ 0) × (0 < length s.out)

pub record IsValid (s : System) : Type 0 where
  -- No buffer is both free and held, or twice either.
  pub once : (a : ℕ) → count a s.buffers.head + count a s.out ≤ 1
  pub free : s.buffers.free_count ≡ length s.buffers.head
  pub all : s.buffers.capacity ≡ length s.buffers.head + length s.out
  pub phase : IsPhase s.buffers.state s

pub count-length : (a : ℕ) (xs : List ℕ) → count a xs ≤ length xs
unfolding count
count-length a [] = omega arith
count-length a (x ∷ xs) = ground (arith, count-length a xs)

once-cons : (b a : ℕ) (out : List ℕ) → count b out ≡ 0 → count a out ≤ 1 → count a (b ∷ out) ≤ 1
unfolding count
once-cons b a out h k = elim (Bool-cases (b == a)) [
  | inr n ↦ rw n k
  | inl y ↦
      let zero_a : count a out ≡ 0 = subst (λ x. count x out ≡ 0) ((==_iff b a).0 y) h in
      rw y (omega (arith, zero_a))
]

pub some_inj {ℓ} : {A : Type ℓ} {x y : A} → some x ≡ some y → x ≡ y
some_inj {A} {x} e = ap (λ (o : Option A). elim o [ none ↦ x | some z ↦ z ]) e

if_some : (b : Bool) {x y : Pool} → (if b then none else some x) ≡ some y → (b ≡ false) × (x ≡ y)
if_some true e = absurd cc
if_some false e = (refl, some_inj e)

if_pair :
    (b : Bool) (q r : Res) {s : Res} {x y : Pool}
    → ◌≡◌ {A = Res × Option Pool} (if b then (q, none) else (r, some x)) (s, some y)
    → (b ≡ false) × (x ≡ y)
if_pair true q r e = absurd cc
if_pair false q r e = (refl, some_inj (ap (λ (z : Res × Option Pool). z.1) e))

-- A system by its parts.
abbrev pub system : PoolState → List ℕ → ℕ → ℕ → ℕ → ℕ → Bool → List ℕ → System
system state head free_count capacity init_capacity threshold auto_manager out = record {
  buffers = record {
    head = head;
    state = state;
    free_count = free_count;
    capacity = capacity;
    init_capacity = init_capacity;
    threshold = threshold;
    auto_manager = auto_manager;
  };
  out = out;
}

module _ (f c i t : ℕ) where
  acquire-IsValid :
      (q : PoolState) (hd out : List ℕ) (am : Bool) (m : Option ℕ)
      → IsFresh (system q hd f c i t am out) m
      → IsValid (system q hd f c i t am out)
      → IsValid (after_acquire (system q hd f c i t am out) m)
  unfolding acquire count
  acquire-IsValid disabled hd out am m fresh v = absurd v.phase
  acquire-IsValid finalizing hd out am none fresh v = v
  acquire-IsValid finalizing hd out am (some b) fresh v = v
  acquire-IsValid running [] out am none fresh v = v
  acquire-IsValid running [] out false (some b) fresh v = v
  acquire-IsValid running [] out true (some b) fresh v =
      let phase : i ≤ c = v.phase in
      let all : c ≡ length out = v.all ∙ omega arith in
      record {
        once = λ a.
            let now : 0 + count a out ≤ 1 = v.once a in
            let then_ = once-cons b a out (omega (arith, fresh)) (omega (arith, now)) in
            omega (arith, then_);
        free = v.free;
        all = omega (arith, all);
        phase = omega (arith, phase);
      }
  acquire-IsValid running (b ∷ rest) out am m fresh v =
      let phase : i ≤ c = v.phase in
      let all : c ≡ suc (length rest) + length out = v.all in
      let free : f ≡ suc (length rest) = v.free in
      record {
        once = λ a. let h = v.once a in ground arith;
        free = omega (arith, free);
        all = omega (arith, all);
        phase = phase;
      }

  put_back-IsValid :
      (hd out : List ℕ) (am : Bool) (a : ℕ)
      → 0 < count a out
      → IsValid (system running hd f c i t am out)
      → IsValid (record {
        buffers = put_back (system running hd f c i t am out).buffers a;
        out = erase a out;
      })
  unfolding put_back count
  put_back-IsValid hd out am a h v =
      let phase : i ≤ c = v.phase in
      let free : f ≡ length hd = v.free in
      let all : c ≡ length hd + length out = v.all in
      let less = length-erase a out h in
      elim (Bool-cases
        (not am || ltb t (rate (system running hd f c i t am out).buffers) || c == i)) [
          | inl y ↦ rw y record {
            once = λ x. let k = v.once x in ground (arith, count-erase a x out h);
            free = omega (arith, free);
            all = omega (arith, all, less);
            phase = phase;
          }
          | inr n ↦
              let other : (c == i) ≡ false = ground arith in
              let bound : i < c = ground arith in
              rw n record {
                once = λ x. let k = v.once x in ground (arith, count-erase a x out h);
                free = free;
                all = omega (arith, all, less);
                phase = omega (arith, bound);
              }
        ]

  release-IsValid :
      (q : PoolState) (hd out : List ℕ) (am : Bool) (a : ℕ) (p : Pool)
      → 0 < count a out
      → IsValid (system q hd f c i t am out)
      → release (system q hd f c i t am out).buffers (record { addr = a; type = pool }) ≡ some p
      → IsValid (record { buffers = p; out = erase a out })
  unfolding release
  release-IsValid disabled hd out am a p h v e = absurd v.phase
  release-IsValid running hd out am a p h v e =
      subst (λ b. IsValid (record { buffers = b; out = erase a out })) (some_inj e)
        (put_back-IsValid hd out am a h v)
  release-IsValid finalizing hd out am a p h v e =
      let (more, same) = if_some (c - 1 == 0) e in
      let (idle, held_some) : (length hd ≡ 0) × (0 < length out) = v.phase in
      let all : c ≡ length hd + length out = v.all in
      let less = length-erase a out h in
      let left : 0 < c - 1 = ground arith in
      subst (λ b. IsValid (record { buffers = b; out = erase a out })) same
        record {
          once = λ x. let k = v.once x in omega (arith, count-erase a x out h);
          free = v.free;
          all = omega (arith, all, less, left);
          phase = (idle, omega (arith, all, less, left, idle));
        }

  finalize-IsValid :
      (q : PoolState) (hd out : List ℕ) (am : Bool) (res : Res) (p : Pool)
      → IsValid (system q hd f c i t am out)
      → finalize (system q hd f c i t am out).buffers ≡ (res, some p)
      → IsValid (record { buffers = p; out = out })
  unfolding finalize count
  finalize-IsValid q hd out am res p v e =
      let all : c ≡ length hd + length out = v.all in
      let free : f ≡ length hd = v.free in
      let (more, same) = if_pair (c - length hd == 0) _ _ e in
      let left : 0 < length out = ground arith in
      subst (λ b. IsValid (record { buffers = b; out = out })) same
        record {
          once = λ x. let k = v.once x in omega (arith, k);
          free = omega (arith, free);
          all = omega (arith, all);
          phase = (refl, left);
        }

Step-IsValid : {s u : System} → Step s u → IsValid s → IsValid u
Step-IsValid {s} (acquires m fresh) v =
    let b = s.buffers in
    acquire-IsValid b.free_count b.capacity b.init_capacity b.threshold b.state b.head s.out
      b.auto_manager m fresh v
Step-IsValid {s} (releases a p h e) v =
    let b = s.buffers in
    release-IsValid b.free_count b.capacity b.init_capacity b.threshold b.state b.head s.out
      b.auto_manager a p h v e
Step-IsValid {s} (finalizes res p e) v =
    let b = s.buffers in
    finalize-IsValid b.free_count b.capacity b.init_capacity b.threshold b.state b.head s.out
      b.auto_manager res p v e

pub Steps-IsValid : {s u : System} → Steps s u → IsValid s → IsValid u
Steps-IsValid start v = v
Steps-IsValid (after steps step) v = Step-IsValid step (Steps-IsValid steps v)
