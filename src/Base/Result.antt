-- ===== src/Base/Result.antt =====
-- include/casca_log_base.h: `clog_res_e`, the result codes that the functions return.
-- Malloc, which may fail, is a stream of outcomes that the caller of an operation supplies.
use Prim.Native.Nat.{ℕ, suc}
use mathlib.Core.Bool.{Bool, true, false}

pub data Res : Type 0 where
  success fail not_supported invalid_param error_format no_memory target_not_found oversize : Res
  not_permitted request_flush already_existed not_completed abnormal_state busy timeout : Res

-- Whether a result is `CLOG_SUCCESS`.
abbrev pub is_success : Res → Bool
is_success success = true
is_success _ = false

-- The outcomes of the allocations to come: `a 0` is that of the next one.
abbrev pub Alloc : Type 0
Alloc = ℕ → Bool

abbrev pub next : Alloc → Alloc
next a n = a (suc n)

-- No allocation fails.
abbrev pub plenty : Alloc
plenty n = true
