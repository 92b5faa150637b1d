-- ===== src/BufferPool/Steps.antt =====
-- A pool of source/utils/clog_buffer_pool.c and the thread that uses it: which of its buffers are held.
use casca_log.Base.{
  ℕ, suc, ◌+◌, ◌<◌, ◌≡◌, Option, none, some, List, [], ◌∷◌, length, if◌then◌else◌, ◌==◌, arith, Res,
}
use casca_log.BufferPool.{Pool, Buffer, pool, tmp, acquire, release, finalize}

-- How often an address is among some.
unfoldable pub count : ℕ → List ℕ → ℕ
count a [] = 0
count a (x ∷ xs) = let n = count a xs in if x == a then suc n else n

-- Without the first of an address.
unfoldable pub erase : ℕ → List ℕ → List ℕ
erase a [] = []
erase a (x ∷ xs) = let rest = erase a xs in if x == a then xs else x ∷ rest

-- A pool, and those of its buffers that are held.
pub record System : Type 0 where
  pub buffers : Pool
  pub out : List ℕ

abbrev pub held : Option Buffer → List ℕ → List ℕ
held none out = out
held (some b) out = elim b.type [ pool ↦ b.addr ∷ out | tmp ↦ out ]

abbrev pub after_acquire : System → Option ℕ → System
after_acquire s m = record {
  buffers = (acquire s.buffers m).0;
  out = held (acquire s.buffers m).1 s.out;
}

-- malloc gives no address that is still in use.
abbrev pub IsFresh : System → Option ℕ → Type 0
IsFresh s none = Unit {0}
IsFresh s (some b) = count b s.buffers.head + count b s.out ≡ 0

-- A step of the thread that uses the pool, after which it is still there.
pub data Step (s : System) : System → Type 0 where
  acquires : (m : Option ℕ) → IsFresh s m → Step s (after_acquire s m)
  releases :
      (a : ℕ) (p : Pool)
      → 0 < count a s.out
      → release s.buffers (record { addr = a; type = pool }) ≡ some p
      → Step s (record { buffers = p; out = erase a s.out })
  finalizes :
      (res : Res) (p : Pool)
      → finalize s.buffers ≡ (res, some p)
      → Step s (record { buffers = p; out = s.out })

-- Any number of steps.
pub data Steps (s : System) : System → Type 0 where
  start : Steps s s
  after : {t u : System} → Steps s t → Step t u → Steps s u

pub count-erase :
    (a x : ℕ) (xs : List ℕ)
    → 0 < count a xs
    → count x (erase a xs) + (if a == x then 1 else 0) ≡ count x xs
unfolding count erase
count-erase a x [] h = absurd (omega arith)
count-erase a x (y ∷ ys) h = ground (arith, count-erase a x ys)

pub length-erase : (a : ℕ) (xs : List ℕ) → 0 < count a xs → length (erase a xs) + 1 ≡ length xs
unfolding count erase
length-erase a [] h = absurd (omega arith)
length-erase a (y ∷ ys) h = ground (arith, length-erase a ys)
