-- ===== src/ErrorLog/Tests.antt =====
-- A small log of source/utils/clog_error.c, and the theorem at it.
use casca_log.Base.{ℕ, ◌≡◌, refl, true, false, none, List, [], ◌∷◌, arith}
use casca_log.ErrorLog.{no_log, setup, all_given, put, put_all, get_index}
use casca_log.ErrorLog.First.{log_with, Keeps, put_all-Keeps}

-- A message of one byte behind its index.
abbrev line_of : ℕ → ℕ → ℕ → List ℕ
line_of size index message = index ∷ message ∷ []

abbrev blank : ℕ → List ℕ
blank i = []

-- A second set-up that fails leaves the number of lines, and the next error reads a NULL.
setup_again :
    put line_of (setup 2 8 false (λ i. true) blank (setup 2 8 true (λ i. true) blank no_log)) 7
    ≡ none
unfolding put setup all_given get_index
setup_again = refl

put_all-Keeps_example :
    Keeps line_of blank 2 8 0
      (7 ∷ 8 ∷ 9 ∷ [])
      (put_all line_of (7 ∷ 8 ∷ 9 ∷ []) (log_with blank 2 8 0))
put_all-Keeps_example = put_all-Keeps line_of blank 2 8 0 (7 ∷ 8 ∷ 9 ∷ []) (omega arith)
