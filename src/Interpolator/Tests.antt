-- ===== src/Interpolator/Tests.antt =====
-- Small templates and buffers of source/utils/clog_interpolator.c, and the theorems at them.
use casca_log.Base.{
  ℕ, ◌≡◌, ◌≢◌, refl, Option, none, some, List, [], ◌∷◌, ◌++◌, if◌then◌else◌, Bool-cases, inl, inr,
  bytes_eq, ◌==◌, arith, fail, no_memory, plenty,
}
use casca_log.Interpolator.{
  Bytes, Piece, pure, handler, Reply, failed, wrote, template, refused, wild, overflow,
  is_name_valid, name_loop, parse_placeholder_name, scan_text, is_brace, before_brace, unescape,
  parse_format, parse, interpolate,
}
use casca_log.Interpolator.Parse.{parse_total, parse_wild, parse_stray}
use casca_log.Interpolator.Text.{escape, ends_escaped, print, parse-print}
use casca_log.Interpolator.Output.{IsSafe, FitsReply, interpolate-IsSafe, interpolate-overflow}
use casca_log.Interpolator.Examples
use casca_log.Interpolator.Examples.{Placeholder, within, line, content}

-- Two placeholders: `_ln` and `_x`.
data Handler : Type 0 where
  ln long : Handler

abbrev name_of : Handler → Bytes
name_of ln = b'_' ∷ b'l' ∷ b'n' ∷ []
name_of long = b'_' ∷ b'x' ∷ []

unfoldable lookup : Bytes → Option Handler
lookup name =
    if bytes_eq name (name_of ln)
    then some ln
    else if bytes_eq name (name_of long)
    then some long
    else none

-- A line end, if there is room; and a content of five bytes, untruncated in its result.
unfoldable careful : Handler → ℕ → Reply
careful h n = if n == 0 then failed no_memory else wrote 1 (b'\n' ∷ [])

abbrev careless : Handler → ℕ → Reply
careless ln n = wrote 1 (b'\n' ∷ [])
careless long n = wrote 5 (b'a' ∷ 0 ∷ [])

-- "a{{_ln}" with its first brace escaped.
abbrev pieces : List (Piece Handler)
pieces = pure (b'a' ∷ b'{' ∷ b'}' ∷ []) ∷ handler ln ∷ []

abbrev buf4 : Bytes
buf4 = 1 ∷ 1 ∷ 1 ∷ 1 ∷ []

abbrev buf8 : Bytes
buf8 = 1 ∷ 1 ∷ 1 ∷ 1 ∷ 1 ∷ 1 ∷ 1 ∷ 1 ∷ []

-- An unknown name.
parse_unknown : parse lookup plenty (b'a' ∷ b'{' ∷ b'b' ∷ b'}' ∷ []) ≡ some (refused fail)
unfolding parse parse_format scan_text parse_placeholder_name name_loop is_name_valid unescape
    before_brace is_brace lookup bytes_eq
parse_unknown = refl

parse_total_example : parse lookup plenty (b'{' ∷ b'_' ∷ b'x' ∷ b'}' ∷ []) ≢ none
parse_total_example = parse_total lookup plenty (b'{' ∷ b'_' ∷ b'x' ∷ b'}' ∷ [])

wild_first : parse lookup plenty (b'{' ∷ b'a' ∷ b'-' ∷ []) ≡ some wild
unfolding parse_placeholder_name name_loop is_name_valid
wild_first = parse_wild lookup plenty (b'a' ∷ b'-' ∷ []) refl refl

parse_stray_brace : parse lookup plenty (b'a' ∷ b'}' ∷ b'{' ∷ []) ≡ some (template none)
parse_stray_brace =
    parse_stray lookup plenty (b'a' ∷ []) (b'{' ∷ []) refl
      (omega arith, omega arith, omega arith, tt)

parse-print_example :
    parse lookup plenty (print name_of lookup pieces) ≡ some (template (some pieces))
unfolding print escape ends_escaped is_name_valid lookup bytes_eq is_brace
parse-print_example =
    parse-print name_of lookup pieces
      ((λ e. nonempty e), (refl, refl), ((λ e. nonempty e), (refl, (refl, (refl, tt))), refl, tt))
  where
    nonempty : {c : ℕ} {cs : Bytes} → c ∷ cs ≢ []
    nonempty e = cc

fits : (h : Handler) (n : ℕ) → FitsReply n (careful h n)
unfolding careful
fits h n = elim (Bool-cases (n == 0)) [
  | inl y ↦ rw (y, FitsReply) tt
  | inr z ↦ rw (z, FitsReply) (refl, ground arith)
]

interpolate-IsSafe_example : IsSafe 4 (interpolate careful 4 pieces buf4)
interpolate-IsSafe_example =
    interpolate-IsSafe careful 4 (omega arith) (omega arith) fits pieces buf4 refl

careless_pair : interpolate careless 4 (handler long ∷ handler ln ∷ []) buf4 ≡ overflow
careless_pair =
    interpolate-overflow careless 4 (omega arith) (omega arith) long ln [] buf4 (b'a' ∷ 0 ∷ []) 5
      refl refl (omega arith) (omega arith) (λ n. refl)

-- A line, its number, the text of the log and a line end.
abbrev default_pieces : List (Piece Placeholder)
default_pieces =
    pure (b'@' ∷ []) ∷ handler (within line) ∷ handler content ∷ handler Placeholder.ln ∷ []

abbrev buf16 : Bytes
buf16 = buf8 ++ buf8
