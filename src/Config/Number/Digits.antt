-- ===== src/Config/Number/Digits.antt =====
-- What the digits of a number come to.
use casca_log.Base.{
  ℕ, ◌+◌, ◌-◌, ◌*◌, ◌%◌, ◌^◌, ◌<◌, ◌≡◌, refl, Bool, true, false, ◌||◌, some, List, [], ◌∷◌,
  if◌then◌else◌, ◌==◌, ltb, arith,
}
use casca_log.Config.{Bytes, failed, parsed}
use casca_log.Config.Number.{is_digit, get_number_value, uint_loop, has_digit, parse_uint_radix}

-- The radices that a number of a configuration has.
abbrev pub is_radix : ℕ → Bool
is_radix r = r == 2 || r == 8 || r == 10 || r == 16

-- A digit as it is written, with a small or a capital letter.
abbrev pub digit_char : ℕ → Bool → ℕ
digit_char d capital =
    if ltb d 10 then b'0' + d else if capital then b'A' + (d - 10) else b'a' + (d - 10)

-- Digits, each with whether it is written as a capital letter.
abbrev pub AreDigits : ℕ → List (ℕ × Bool) → Type 0
AreDigits radix [] = Unit {0}
AreDigits radix ((d, capital) ∷ ds) = (d < radix) × AreDigits radix ds

abbrev pub digits : List (ℕ × Bool) → Bytes
digits [] = []
digits ((d, capital) ∷ ds) = digit_char d capital ∷ digits ds

-- The number that some digits stand for, behind others.
unfoldable pub value_of : ℕ → ℕ → List (ℕ × Bool) → ℕ
value_of radix base [] = base
value_of radix base ((d, capital) ∷ ds) = value_of radix (base * radix + d) ds

get_number_value-digit_char :
    (radix d : ℕ) (capital : Bool)
    → is_radix radix ≡ true
    → d < radix
    → get_number_value radix (digit_char d capital) ≡ some d
unfolding get_number_value is_digit
get_number_value-digit_char radix d true r l = ground (arith, r, l)
get_number_value-digit_char radix d false r l = ground (arith, r, l)

wrap_digit :
    (radix b d : ℕ)
    → is_radix radix ≡ true
    → ((b % 2 ^ 64) * radix + d) % 2 ^ 64 ≡ (b * radix + d) % 2 ^ 64
wrap_digit radix b d r = ground (arith, r)

-- The loop keeps the number of the digits so far, modulo 2 ^ 64.
uint_loop-digits :
    (radix base : ℕ) (ds : List (ℕ × Bool))
    → is_radix radix ≡ true
    → AreDigits radix ds
    → ◌≡◌ {A = ℕ × Bytes}
        (uint_loop radix (base % 2 ^ 64) (digits ds))
        (value_of radix base ds % 2 ^ 64, [])
unfolding uint_loop value_of
uint_loop-digits radix base [] r h = refl
uint_loop-digits radix base ((d, capital) ∷ ds) r (l, h) =
    rw (get_number_value-digit_char radix d capital r l, uint_loop, wrap_digit radix base d r)
      (uint_loop-digits radix (base * radix + d) ds r h)

-- Digits of a radix that is 2, 8, 10 or 16, each letter small or capital, at least one of them and up to the end that is given: the
-- number that they stand for is taken modulo 2 ^ 64; then it is refused if it is larger than
-- 2 ^ 32 - 1, and else it is the result, with what follows the end.
pub parse_uint_radix-digits :
    (radix d : ℕ) (capital : Bool) (ds : List (ℕ × Bool)) (behind : Bytes)
    → is_radix radix ≡ true
    → AreDigits radix ((d, capital) ∷ ds)
    → parse_uint_radix radix (digits ((d, capital) ∷ ds)) behind ≡ (
        if ltb (2 ^ 32 - 1) (value_of radix 0 ((d, capital) ∷ ds) % 2 ^ 64)
        then failed
        else parsed (value_of radix 0 ((d, capital) ∷ ds) % 2 ^ 64) behind)
unfolding parse_uint_radix has_digit
parse_uint_radix-digits radix d capital ds behind r (l, h) =
    rw
      (
        uint_loop-digits radix 0 ((d, capital) ∷ ds) r (l, h),
        get_number_value-digit_char radix d capital r l,
        has_digit,
      )
      refl
