-- ===== src/Config/Number.antt =====
-- The numbers of source/utils/clog_config.c.
pub mod Rest
pub mod Digits
pub mod Signs
use casca_log.Base.{
  ℕ, suc, ◌+◌, ◌-◌, ◌*◌, ◌%◌, ◌^◌, Bool, true, false, ◌||◌, ◌&&◌, not, Option, none, some, List, [],
  ◌∷◌, ◌++◌, if◌then◌else◌, ◌==◌, leb, ltb,
}
use casca_log.Config.{Bytes, Value, sint, uint, float, Parsed, failed, parsed, astray, is_space}

unfoldable pub is_digit : ℕ → Bool
is_digit c = leb b'0' c && leb c b'9'

-- `clog_config_get_number_value`; `none` is -1.
unfoldable pub get_number_value : ℕ → ℕ → Option ℕ
get_number_value radix c =
    if radix == 2
    then if leb b'0' c && leb c b'1' then some (c - b'0') else none
    else if radix == 8
    then if leb b'0' c && leb c b'7' then some (c - b'0') else none
    else if radix == 10
    then if is_digit c then some (c - b'0') else none
    else if is_digit c
    then some (c - b'0')
    else if leb b'a' c && leb c b'f'
    then some (c - b'a' + 10)
    else if leb b'A' c && leb c b'F'
    then some (c - b'A' + 10)
    else none

-- The loop of `clog_config_parse_uint_radix`: `base`, a uint64_t, and what follows the digits.
unfoldable pub uint_loop : ℕ → ℕ → Bytes → ℕ × Bytes
uint_loop radix base [] = (base, [])
uint_loop radix base (c ∷ cs) = elim (get_number_value radix c) [
  | none ↦ (base, c ∷ cs)
  | some value ↦ uint_loop radix ((base * radix + value) % 2 ^ 64) cs
]

-- Whether a text begins with a digit of the radix.
unfoldable pub has_digit : ℕ → Bytes → Bool
has_digit radix [] = false
has_digit radix (c ∷ cs) = elim (get_number_value radix c) [ none ↦ false | some value ↦ true ]

-- The character after the end of a number is skipped when there is no digit.
abbrev pub past_end : ℕ → Bytes → Parsed ℕ
past_end base [] = astray
past_end base (c ∷ cs) = parsed base cs

-- `clog_config_parse_uint_radix` on a text, with what follows the end that it is given.
unfoldable pub parse_uint_radix : ℕ → Bytes → Bytes → Parsed ℕ
parse_uint_radix radix text behind =
    let (base, rest) = uint_loop radix 0 text in
    if ltb (2 ^ 32 - 1) base
    then failed
    else if has_digit radix text
    then parsed base (rest ++ behind)
    else past_end base behind

-- The loop of `clog_config_parse_double`: the text up to the last character that is no dot, and the
-- rest. A second dot is an error. Any character but a dot passes for a digit.
unfoldable pub double_loop : Bool → Bytes → Option (Bytes × Bytes)
double_loop is_dot [] = some ([], [])
double_loop is_dot (c ∷ cs) =
    let later = double_loop (is_dot || c == b'.') cs in
    if c == b'.' && is_dot then none else elim later [
      | none ↦ none
      | some (text, rest) ↦ elim text [
        | [] ↦ if c == b'.' then some ([], c ∷ rest) else some (c ∷ [], rest)
        | d ∷ ds ↦ some (c ∷ d ∷ ds, rest)
      ]
    ]

module _ (in_range : Bytes → Bool) where
  abbrev pub to_double : Bytes → Option (Bytes × Bytes) → Parsed Value
  to_double sign none = failed
  to_double sign (some (text, rest)) =
      if in_range (sign ++ text) then parsed (float (sign ++ text)) rest else failed

  -- `clog_config_parse_double`, of a text that begins with a digit after its sign.
  unfoldable pub parse_double : Bytes → Parsed Value
  parse_double [] = failed
  parse_double (c ∷ cs) =
      let signed = to_double (c ∷ []) (double_loop false cs) in
      let plain = to_double [] (double_loop false (c ∷ cs)) in
      if c == b'+' || c == b'-' then signed else plain

-- `clog_config_get_radix`.
unfoldable pub get_radix : ℕ → ℕ
get_radix ch = if ch == b'x' then 16 else if ch == b'o' then 8 else if ch == b'b' then 2 else 10

-- Where the loop of `clog_config_parse_number` ends: at a dot; where `number_end` is still NULL; or
-- behind some digits, with the rest.
pub data NumberEnd : Type 0 where
  dot : NumberEnd
  nowhere : NumberEnd
  behind : Bytes → Bytes → NumberEnd

abbrev pub after_digit : ℕ → NumberEnd → NumberEnd
after_digit c dot = dot
after_digit c nowhere = nowhere
after_digit c (behind text rest) = behind (c ∷ text) rest

unfoldable pub number_loop : Bool → Bytes → NumberEnd
number_loop moved [] = if moved then behind [] [] else nowhere
number_loop moved (c ∷ cs) =
    let later = after_digit c (number_loop true cs) in
    if is_space c || c == b'#'
    then if moved then behind [] (c ∷ cs) else nowhere
    else if c == b'.'
    then dot
    else if is_digit c
    then later
    else behind [] (c ∷ cs)

-- The value behind a sign. `parse_uint_radix` has set the type to CLOG_CONFIG_TYPE_UINT.
abbrev pub negate : Bool → Parsed ℕ → Parsed Value
negate is_negative failed = failed
negate is_negative astray = astray
negate is_negative (parsed n rest) =
    if is_negative
    then if ltb (2 ^ 31 - 1) n then failed else parsed (uint ((2 ^ 32 - n) % 2 ^ 32)) rest
    else parsed (uint n) rest

abbrev pub starts_dot : Bytes → Bool
starts_dot [] = false
starts_dot (c ∷ cs) = c == b'.'

module _ (in_range : Bytes → Bool) where
  -- The end of `clog_config_parse_number`: of the whole text, the digits before `tmp`, and the text
  -- from there on.
  unfoldable pub parse_decimal : Bool → Bytes → Bytes → Bytes → Parsed Value
  parse_decimal is_negative whole before text =
      if starts_dot text then failed else elim (number_loop false text) [
        | dot ↦ parse_double in_range whole
        | nowhere ↦ astray
        | behind digits rest ↦ negate is_negative (parse_uint_radix 10 (before ++ digits) rest)
      ]

  abbrev pub zero_of : Bool → Value
  zero_of true = sint 0
  zero_of false = uint 0

  abbrev pub as_uint : Parsed ℕ → Parsed Value
  as_uint failed = failed
  as_uint astray = astray
  as_uint (parsed n rest) = parsed (uint n) rest

  -- Behind a leading zero.
  unfoldable pub parse_zero : Bool → Bool → Bytes → Bytes → Parsed Value
  parse_zero is_flag_exist is_negative whole [] = parsed (zero_of is_flag_exist) []
  parse_zero is_flag_exist is_negative whole (c ∷ cs) =
      if is_space c || c == b'#'
      then parsed (zero_of is_flag_exist) (c ∷ cs)
      else if c == b'.'
      then parse_double in_range whole
      else if not (get_radix c == 10)
      then if is_flag_exist then failed else as_uint (parse_uint_radix (get_radix c) cs [])
      else parse_decimal is_negative whole (b'0' ∷ []) (c ∷ cs)

  -- Behind the sign, if there is one.
  unfoldable pub parse_unsigned : Bool → Bool → Bytes → Bytes → Parsed Value
  parse_unsigned is_flag_exist is_negative whole [] = parse_decimal is_negative whole [] []
  parse_unsigned is_flag_exist is_negative whole (c ∷ cs) =
      if c == b'0'
      then parse_zero is_flag_exist is_negative whole cs
      else parse_decimal is_negative whole [] (c ∷ cs)

  -- `clog_config_parse_number`.
  unfoldable pub parse_number : Bytes → Parsed Value
  parse_number [] = failed
  parse_number (c ∷ cs) =
      if c == b'-' || c == b'+'
      then parse_unsigned true (c == b'-') (c ∷ cs) cs
      else parse_unsigned false false (c ∷ cs) (c ∷ cs)
