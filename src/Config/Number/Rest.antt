-- ===== src/Config/Number/Rest.antt =====
-- What the numbers of source/utils/clog_config.c leave of a line: no more than there was.
use casca_log.Base.{
  ℕ, suc, ◌+◌, ◌-◌, ◌*◌, ◌^◌, ◌%◌, ltb, ◌&&◌, ◌≤◌, ◌<◌, ◌≡◌, refl, Bool, true, false, ◌||◌, not,
  Option, none, some, [], ◌∷◌, ◌++◌, if◌then◌else◌, ◌==◌, length, arith, Bool-cases, Option-cases,
  inl, inr, length-append,
}
use casca_log.Config.{Bytes, Parsed, failed, parsed, astray, skip, is_space}
use casca_log.Config.Number.{
  get_number_value, uint_loop, has_digit, past_end, parse_uint_radix, double_loop, to_double,
  parse_double, NumberEnd, dot, nowhere, behind, is_digit, after_digit, number_loop, negate,
  parse_decimal, parse_zero, parse_unsigned, parse_number, as_uint, get_radix, starts_dot,
}

-- A result whose rest has at most some characters.
abbrev pub Within {ℓ} : {A : Type ℓ} → ℕ → Parsed A → Type 0
Within n (parsed a rest) = length rest ≤ n
Within n failed = Unit {0}
Within n astray = Unit {0}

pub Within-le {ℓ} : {A : Type ℓ} {m n : ℕ} (p : Parsed A) → Within m p → m ≤ n → Within n p
Within-le failed w h = tt
Within-le (parsed a rest) w h = omega (arith, w, h)
Within-le astray w h = tt

pub length-skip : (s : Bytes) → length (skip s) ≤ length s
unfolding skip
length-skip [] = omega arith
length-skip (c ∷ cs) = ground (arith, length-skip cs)

length-uint_loop : (radix base : ℕ) (s : Bytes) → length (uint_loop radix base s).1 ≤ length s
unfolding uint_loop
length-uint_loop radix base [] = omega arith
length-uint_loop radix base (c ∷ cs) = elim (Option-cases (get_number_value radix c)) [
  | inl n ↦ rw (n, length) (omega arith)
  | inr (v, e) ↦
      rw (e, length) (omega (arith, length-uint_loop radix ((base * radix + v) % 2 ^ 64) cs))
]

past_end-Within : (base : ℕ) (after : Bytes) → Within (length after) (past_end base after)
past_end-Within base [] = tt
past_end-Within base (c ∷ cs) = omega arith

parse_uint_radix-Within :
    (radix : ℕ) (text after : Bytes)
    → Within (length text + length after) (parse_uint_radix radix text after)
unfolding parse_uint_radix
parse_uint_radix-Within radix text after =
    let (base, rest) = uint_loop radix 0 text in
    elim (Bool-cases (ltb (2 ^ 32 - 1) base)) [
      | inl y ↦ rw (y, Within) tt
      | inr n ↦ elim (Bool-cases (has_digit radix text)) [
        | inl y ↦
            rw (n, y, Within)
              (omega (arith, length-append rest after, length-uint_loop radix 0 text))
        | inr m ↦
            rw (n, m) (Within-le (past_end base after) (past_end-Within base after) (omega arith))
      ]
    ]

-- A text and a rest that make up some characters.
abbrev pub Splits : ℕ → Option (Bytes × Bytes) → Type 0
Splits n none = Unit {0}
Splits n (some (text, rest)) = length text + length rest ≡ n

double_step :
    (c : ℕ) (n : ℕ) (o : Option (Bytes × Bytes))
    → Splits n o
    → Splits (suc n) (elim o [
      | none ↦ none
      | some (text, rest) ↦ elim text [
        | [] ↦ if c == b'.' then some ([], c ∷ rest) else some (c ∷ [], rest)
        | d ∷ ds ↦ some (c ∷ d ∷ ds, rest)
      ]
    ])
double_step c n none h = tt
double_step c n (some ([], rest)) h = elim (Bool-cases (c == b'.')) [
  | inl y ↦ rw (y, Splits) (omega (arith, h))
  | inr m ↦ rw (m, Splits) (omega (arith, h))
]
double_step c n (some (d ∷ ds, rest)) h = omega (arith, h)

double_loop-Splits : (is_dot : Bool) (s : Bytes) → Splits (length s) (double_loop is_dot s)
unfolding double_loop
double_loop-Splits is_dot [] = refl
double_loop-Splits is_dot (c ∷ cs) = elim (Bool-cases (c == b'.' && is_dot)) [
  | inl y ↦ rw (y, Splits) tt
  | inr m ↦ rw m (
      double_step c (length cs) (double_loop (is_dot || c == b'.') cs)
        (double_loop-Splits (is_dot || c == b'.') cs))
]

abbrev Behind : ℕ → NumberEnd → Type 0
Behind n (behind text rest) = length text + length rest ≡ n
Behind n dot = Unit {0}
Behind n nowhere = Unit {0}

digit_step : (c n : ℕ) (e : NumberEnd) → Behind n e → Behind (suc n) (after_digit c e)
digit_step c n dot h = tt
digit_step c n nowhere h = tt
digit_step c n (behind text rest) h = omega (arith, h)

number_loop-Behind : (moved : Bool) (s : Bytes) → Behind (length s) (number_loop moved s)
unfolding number_loop
number_loop-Behind true [] = refl
number_loop-Behind false [] = tt
number_loop-Behind moved (c ∷ cs) = elim (Bool-cases (is_space c || c == b'#')) [
  | inl y ↦ elim (Bool-cases moved) [
    | inl z ↦ rw (y, z, Behind) (omega arith)
    | inr z ↦ rw (y, z, Behind) tt
  ]
  | inr m ↦ elim (Bool-cases (c == b'.')) [
    | inl y ↦ rw (m, y, Behind) tt
    | inr k ↦ elim (Bool-cases (is_digit c)) [
      | inl y ↦
          rw (m, k, y) (digit_step c (length cs) (number_loop true cs) (number_loop-Behind true cs))
      | inr j ↦ rw (m, k, j, Behind) (omega arith)
    ]
  ]
]

module _ (in_range : Bytes → Bool) where
  to_double-Within :
      (n : ℕ) (sign : Bytes) (o : Option (Bytes × Bytes))
      → Splits n o
      → Within n (to_double in_range sign o)
  to_double-Within n sign none h = tt
  to_double-Within n sign (some (text, rest)) h = elim (Bool-cases (in_range (sign ++ text))) [
    | inl y ↦ rw (y, Within) (omega (arith, h))
    | inr m ↦ rw (m, Within) tt
  ]

  parse_double-Within : (s : Bytes) → Within (length s) (parse_double in_range s)
  unfolding parse_double
  parse_double-Within [] = tt
  parse_double-Within (c ∷ cs) = elim (Bool-cases (c == b'+' || c == b'-')) [
    | inl y ↦ rw y (
        Within-le (to_double in_range (c ∷ []) (double_loop false cs))
          (to_double-Within (length cs) (c ∷ []) (double_loop false cs)
            (double_loop-Splits false cs))
          (omega arith))
    | inr m ↦ rw m (
        to_double-Within (suc (length cs)) [] (double_loop false (c ∷ cs))
          (double_loop-Splits false (c ∷ cs)))
  ]

  negate-Within :
      (n : ℕ) (is_negative : Bool) (p : Parsed ℕ) → Within n p → Within n (negate is_negative p)
  negate-Within n is_negative failed h = tt
  negate-Within n is_negative astray h = tt
  negate-Within n false (parsed v rest) h = h
  negate-Within n true (parsed v rest) h = elim (Bool-cases (ltb (2 ^ 31 - 1) v)) [
    | inl y ↦ rw (y, Within) tt
    | inr m ↦ rw (m, Within) h
  ]

  decimal_end-Within :
      (is_negative : Bool) (whole before : Bytes) (n : ℕ) (e : NumberEnd)
      → Behind n e
      → length before + n ≤ length whole
      → Within (length whole) (elim e [
        | dot ↦ parse_double in_range whole
        | nowhere ↦ astray
        | behind digits rest ↦ negate is_negative (parse_uint_radix 10 (before ++ digits) rest)
      ])
  decimal_end-Within is_negative whole before n dot h l = parse_double-Within whole
  decimal_end-Within is_negative whole before n nowhere h l = tt
  decimal_end-Within is_negative whole before n (behind digits rest) h l =
      negate-Within (length whole) is_negative (parse_uint_radix 10 (before ++ digits) rest) (
        Within-le (parse_uint_radix 10 (before ++ digits) rest)
          (parse_uint_radix-Within 10 (before ++ digits) rest)
          (omega (arith, length-append before digits, h)))

  parse_decimal-Within :
      (is_negative : Bool) (whole before text : Bytes)
      → length before + length text ≤ length whole
      → Within (length whole) (parse_decimal in_range is_negative whole before text)
  unfolding parse_decimal
  parse_decimal-Within is_negative whole before text l = elim (Bool-cases (starts_dot text)) [
    | inl y ↦ rw (y, Within) tt
    | inr m ↦ rw m (
        decimal_end-Within is_negative whole before (length text) (number_loop false text)
          (number_loop-Behind false text) l)
  ]

  as_uint-Within : (n : ℕ) (p : Parsed ℕ) → Within n p → Within n (as_uint in_range p)
  as_uint-Within n failed h = tt
  as_uint-Within n astray h = tt
  as_uint-Within n (parsed v rest) h = h

  parse_zero-Within :
      (flag is_negative : Bool) (whole cs : Bytes)
      → length cs < length whole
      → Within (length whole) (parse_zero in_range flag is_negative whole cs)
  unfolding parse_zero
  parse_zero-Within flag is_negative whole [] l = omega (arith, l)
  parse_zero-Within flag is_negative whole (c ∷ cs) l =
      elim (Bool-cases (is_space c || c == b'#')) [
        | inl y ↦ rw (y, Within) (omega (arith, l))
        | inr m ↦ elim (Bool-cases (c == b'.')) [
          | inl y ↦ rw (m, y) (parse_double-Within whole)
          | inr k ↦ elim (Bool-cases (not (get_radix c == 10))) [
            | inr j ↦
                rw (m, k, j)
                  (parse_decimal-Within is_negative whole (b'0' ∷ []) (c ∷ cs) (omega (arith, l)))
            | inl y ↦ elim (Bool-cases flag) [
              | inl z ↦ rw (m, k, y, z, Within) tt
              | inr z ↦
                  rw (m, k, y, z)
                    (as_uint-Within (length whole) (parse_uint_radix (get_radix c) cs []) (
                      Within-le (parse_uint_radix (get_radix c) cs [])
                        (parse_uint_radix-Within (get_radix c) cs []) (omega (arith, l))))
            ]
          ]
        ]
      ]

  parse_unsigned-Within :
      (flag is_negative : Bool) (whole text : Bytes)
      → length text ≤ length whole
      → Within (length whole) (parse_unsigned in_range flag is_negative whole text)
  unfolding parse_unsigned
  parse_unsigned-Within flag is_negative whole [] l =
      parse_decimal-Within is_negative whole [] [] (omega (arith, l))
  parse_unsigned-Within flag is_negative whole (c ∷ cs) l = elim (Bool-cases (c == b'0')) [
    | inl y ↦ rw y (parse_zero-Within flag is_negative whole cs (omega (arith, l)))
    | inr m ↦ rw m (parse_decimal-Within is_negative whole [] (c ∷ cs) (omega (arith, l)))
  ]

  pub parse_number-Within : (s : Bytes) → Within (length s) (parse_number in_range s)
  unfolding parse_number
  parse_number-Within [] = tt
  parse_number-Within (c ∷ cs) = elim (Bool-cases (c == b'-' || c == b'+')) [
    | inl y ↦ rw y (parse_unsigned-Within true (c == b'-') (c ∷ cs) cs (omega arith))
    | inr m ↦ rw m (parse_unsigned-Within false false (c ∷ cs) (c ∷ cs) (omega arith))
  ]
