-- ===== src/Config/Number/Signs.antt =====
-- Signs without digits.
use casca_log.Base.{ℕ, ◌≡◌, refl, Bool, true, ◌||◌, [], ◌∷◌, ◌==◌, arith}
use casca_log.Config.{Bytes, astray, is_space}
use casca_log.Config.Number.{number_loop, parse_decimal, parse_unsigned, parse_number}

-- Where a number ends: at the end of the line, at a space, or at a comment.
abbrev pub ends_number : Bytes → Bool
ends_number [] = true
ends_number (c ∷ cs) = is_space c || c == b'#'

-- A sign that the end of a number follows at once makes the result a pointer that is not into the line.
pub parse_number-sign :
    (in_range : Bytes → Bool) (c : ℕ) (cs : Bytes)
    → (c == b'-' || c == b'+') ≡ true
    → ends_number cs ≡ true
    → parse_number in_range (c ∷ cs) ≡ astray
unfolding parse_number parse_unsigned parse_decimal number_loop
parse_number-sign in_range c [] s e = rw s refl
parse_number-sign in_range c (d ∷ ds) s e = ground (arith, s, e)
