-- ===== src/Logger/Tests.antt =====
-- A logger with two recorders, and the theorems at it.
use casca_log.Base.{
  ℕ, ◌≡◌, refl, Bool, true, false, none, some, List, [], ◌∷◌, if◌then◌else◌, ◌==◌, leb, arith, Res,
  success, request_flush,
}
use casca_log.Filter.{Filters}
use casca_log.Interpolator.{Bytes, Piece, pure, handler}
use casca_log.Interpolator.Examples.{
  Bounded, line, level, bounded, bounded-FitsReply, Placeholder, within, content, ln,
}
use casca_log.Logger.{Module, is_enabled, has_recorder, module_check, record_log}
use casca_log.Logger.Release.{GivesBack, record_log-GivesBack}

-- Recorders 1 and 2; the second asks for a flush.
abbrev known : ℕ → Bool
known id = leb id 2

abbrev write : ℕ → Bytes → Res
write id bytes = if id == 2 then request_flush else success

abbrev no_filters : Filters
no_filters = record { pre_chain = []; post_chain = [] }

abbrev pieces : List (Piece Placeholder)
pieces = pure (b'@' ∷ []) ∷ handler (within line) ∷ handler content ∷ handler ln ∷ []

abbrev short_pieces : List (Piece Bounded)
short_pieces = pure (b'@' ∷ []) ∷ handler line ∷ handler level ∷ []

-- Levels 1 and 3.
abbrev net : Module
net = record { level = 5; recorders = 1 ∷ 2 ∷ [] }

abbrev blank : Bytes
blank = 9 ∷ 9 ∷ 9 ∷ 9 ∷ 9 ∷ 9 ∷ 9 ∷ 9 ∷ 9 ∷ 9 ∷ 9 ∷ 9 ∷ []

-- CLOG_LEVEL_OFF shifts by -1.
levels :
    (is_enabled net 0 ≡ none)
    × (is_enabled net 1 ≡ some true)
    × (is_enabled net 2 ≡ some false)
    × (is_enabled net 3 ≡ some true)
unfolding is_enabled
levels = (refl, refl, refl, refl)

one_recorder_back : GivesBack 77 (
    record_log known write bounded 12 3 no_filters short_pieces true
      (some net)
      2
      1
      (some (77, blank))
      true
      [])
unfolding module_check has_recorder is_enabled
one_recorder_back =
    record_log-GivesBack known write bounded 12 3 no_filters short_pieces (omega arith)
      (omega arith) bounded-FitsReply net 2 1 77 blank true refl refl
