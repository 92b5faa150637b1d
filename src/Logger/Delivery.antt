-- ===== src/Logger/Delivery.antt =====
-- What a log that goes through leaves with the recorders.
use casca_log.Base.{ℕ, ◌≢◌, Bool, List, [], ◌∷◌, ◌++◌, Res}
use casca_log.Interpolator.{Bytes}
use casca_log.Logger.{Event, write_one}

-- Recorders of an id that is not CLOG_RECORDER_ID_INVALID.
abbrev pub AreIds : List ℕ → Type 0
AreIds [] = Unit {0}
AreIds (id ∷ ids) = (id ≢ 0) × AreIds ids

module _ (known : ℕ → Bool) (write : ℕ → Bytes → Res) where
  -- Every recorder of a list, in its order.
  unfoldable pub write_all : List ℕ → Bytes → List Event
  write_all [] content = []
  write_all (id ∷ ids) content = write_one known write id content ++ write_all ids content
