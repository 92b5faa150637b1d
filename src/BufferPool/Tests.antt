-- ===== src/BufferPool/Tests.antt =====
-- A pool of two buffers in use, and the theorems at it.
use casca_log.Base.{
  ℕ, ◌≤◌, ◌≡◌, ◌↔◌, refl, true, Option, none, some, List, [], ◌∷◌, arith, success, length,
}
use casca_log.BufferPool.{
  Pool, pool, running, finalizing, malloc_batch, initialize, acquire, push, release, finalize,
}
use casca_log.BufferPool.Steps.{System, count, Steps, acquires, start, after}
use casca_log.BufferPool.Safety.{IsValid}
use casca_log.BufferPool.Runs.{
  given, started, initialize-Steps-IsValid, release_last, finalize_idle,
}
use casca_log.BufferPool.Shrink.{release_managed}

abbrev mallocs : List (Option ℕ)
mallocs = some 64 ∷ some 128 ∷ []

abbrev fresh_pool : Pool
fresh_pool = record {
  head = 64 ∷ 128 ∷ [];
  state = running;
  free_count = 2;
  capacity = 2;
  init_capacity = 2;
  threshold = 40;
  auto_manager = true;
}

-- Both buffers are held, and a third that the pool grew by.
abbrev grown : System
grown = record {
  buffers = record fresh_pool { head = []; free_count = 0; capacity = 3 };
  out = 192 ∷ 128 ∷ 64 ∷ [];
}

grows : Steps (started fresh_pool) grown
unfolding acquire count
grows = after (after (after start (acquires none tt)) (acquires none tt)) (acquires (some 192) refl)

apart : (a : ℕ) → given a mallocs ≤ 1
unfolding given
apart a = ground arith

initialize-Steps-IsValid_example : IsValid grown
unfolding initialize malloc_batch
initialize-Steps-IsValid_example =
    initialize-Steps-IsValid true mallocs true 40 success fresh_pool grown refl apart grows

last_back :
    (release grown.buffers (record { addr = 64; type = pool }) ≡ none)
    ↔ ((running ≡ finalizing) × (length grown.out ≡ 1))
unfolding count
last_back = release_last grown 64 initialize-Steps-IsValid_example (omega arith)

finalize_grown : ((finalize grown.buffers).1 ≡ none) ↔ (length grown.out ≡ 0)
finalize_grown = finalize_idle grown initialize-Steps-IsValid_example

managed_back :
    release grown.buffers (record { addr = 64; type = pool }) ≡ some (push grown.buffers 64)
unfolding count
managed_back =
    release_managed grown 64 initialize-Steps-IsValid_example (omega arith) refl refl (omega arith)
