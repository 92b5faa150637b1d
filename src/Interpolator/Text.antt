-- ===== src/Interpolator/Text.antt =====
-- Printing a template, with its braces escaped, and parsing it again.
use casca_log.Base.{
  ℕ, zero, suc, ◌≤◌, ◌<◌, ◌≡◌, ◌≢◌, refl, ap, Bool, true, false, Option, none, some, List, [], ◌∷◌,
  ◌++◌, if◌then◌else◌, ◌==◌, length, success, plenty, arith, Bool-cases, inl, inr, length-append,
}
use casca_log.Interpolator.{
  Bytes, Piece, pure, handler, Next, or_null, name_loop, parse_placeholder_name, scan_text,
  parse_format, parse, template, outcome_of, unescape, before_brace, is_brace, is_name_valid,
}

unfoldable pub escape : Bytes → Bytes
escape [] = []
escape (c ∷ cs) = let rest = escape cs in if is_brace c then b'\\' ∷ c ∷ rest else c ∷ rest

-- Whether the character after a text would be escaped.
unfoldable pub ends_escaped : Bool → Bytes → Bool
ends_escaped e [] = e
ends_escaped e (c ∷ cs) = ends_escaped (c == b'\\') cs

before_brace-escape : (t : Bytes) → before_brace (escape t) ≡ false
unfolding before_brace escape is_brace
before_brace-escape [] = refl
before_brace-escape (c ∷ cs) = ground arith

escaped :
    (c : ℕ) (cs : Bytes)
    → is_brace c ≡ true
    → unescape (escape cs) ≡ cs
    → unescape (b'\\' ∷ c ∷ escape cs) ≡ c ∷ cs
unfolding unescape before_brace is_brace
escaped c cs b ih = ground arith

-- Unescaping undoes escaping.
unescape-escape : (t : Bytes) → unescape (escape t) ≡ t
unfolding unescape escape
unescape-escape [] = refl
unescape-escape (c ∷ cs) = elim (Bool-cases (is_brace c)) [
  | inl b ↦ rw b (escaped c cs b (unescape-escape cs))
  | inr n ↦ rw n (ground (arith, before_brace-escape cs, unescape-escape cs))
]

-- What may follow a text that is being scanned: the end, or a placeholder, which it does not escape.
abbrev pub Follows : Bool → Bytes → Bytes → Type 0
Follows e t [] = Unit {0}
Follows e t (c ∷ rest) = (c ≡ b'{') × (ends_escaped e t ≡ false)

Follows-next :
    (e : Bool) (c : ℕ) (cs rest : Bytes) → Follows e (c ∷ cs) rest → Follows (c == b'\\') cs rest
unfolding ends_escaped
Follows-next e c cs [] f = f
Follows-next e c cs (d ∷ rest) f = f

scan_text-escape :
    (e : Bool) (t rest : Bytes)
    → Follows e t rest
    → scan_text e (escape t ++ rest) ≡ some (escape t, rest)
unfolding scan_text escape ends_escaped is_brace
scan_text-escape e [] [] f = refl
scan_text-escape e [] (c ∷ rest) f = ground arith
scan_text-escape e (c ∷ cs) rest f =
    let ih = scan_text-escape (c == b'\\') cs rest (Follows-next e c cs rest f) in
    elim (Bool-cases (c == b'{')) [
      | inl b ↦ ground (arith, ih)
      | inr n ↦ elim (Bool-cases (c == b'}')) [
        | inl b ↦ ground (arith, ih)
        | inr n' ↦ ground (arith, ih)
      ]
    ]

-- A name, of characters that may stand in one.
abbrev pub IsName : Bytes → Type 0
IsName [] = Unit {0}
IsName (c ∷ cs) = (is_name_valid c ≡ true) × IsName cs

valid_ne_brace : (c : ℕ) → is_name_valid c ≡ true → (c == b'}') ≡ false
unfolding is_name_valid
valid_ne_brace c v = ground arith

name_loop-name :
    (name rest : Bytes) → IsName name → name_loop (name ++ b'}' ∷ rest) ≡ some (name, rest)
unfolding name_loop
name_loop-name [] rest n = refl
name_loop-name (c ∷ cs) rest n = ground (arith, valid_ne_brace c, name_loop-name cs rest)

placeholder-name :
    (name rest : Bytes)
    → name ≢ []
    → IsName name
    → parse_placeholder_name (name ++ b'}' ∷ rest) ≡ some (name, rest)
unfolding parse_placeholder_name
placeholder-name [] rest ne n = absurd (ne refl)
placeholder-name (c ∷ cs) rest ne n =
    ground (arith, valid_ne_brace c, name_loop-name (c ∷ cs) rest n)

-- A text that is not empty and begins with no opening brace.
abbrev IsStart : Bytes → Type 0
IsStart [] = ⊥
IsStart (c ∷ cs) = (c == b'{') ≡ false

escape-IsStart : (c : ℕ) (cs : Bytes) → IsStart (escape (c ∷ cs))
unfolding escape
escape-IsStart c cs = elim (Bool-cases (is_brace c)) [
  | inl b ↦ rw b refl
  | inr n ↦ rw n (unfold is_brace in ground arith)
]

length-IsStart : (t : Bytes) → IsStart t → 0 < length t
length-IsStart [] s = absurd s
length-IsStart (c ∷ cs) s = omega arith

text-parse :
    {H : Type 0} (lookup : Bytes → Option H) (fuel : ℕ) (t rest : Bytes) (nx : Next H)
    → IsStart t
    → scan_text false (t ++ rest) ≡ some (t, rest)
    → parse_format lookup fuel plenty rest ≡ some (success, nx)
    → parse_format lookup (suc fuel) plenty (t ++ rest)
      ≡ some (success, some (pure (unescape t) ∷ or_null nx))
unfolding parse_format
text-parse lookup fuel [] rest nx s scan e = absurd s
text-parse lookup fuel (c ∷ cs) rest nx s scan e = rw (s, scan, e)

module _ {H : Type 0} (name_of : H → Bytes) (lookup : Bytes → Option H) where
  unfoldable pub print : List (Piece H) → Bytes
  print [] = []
  print (pure t ∷ ps) = escape t ++ print ps
  print (handler h ∷ ps) = b'{' ∷ name_of h ++ b'}' ∷ print ps

  -- Names are not empty and in the table; texts are not empty, stand between placeholders, and end in
  -- no backslash before one.
  abbrev pub IsTemplate : List (Piece H) → Type 0
  IsTemplate [] = Unit {0}
  IsTemplate (handler h ∷ ps) =
      (name_of h ≢ []) × IsName (name_of h) × (lookup (name_of h) ≡ some h) × IsTemplate ps
  IsTemplate (pure t ∷ ps) = (t ≢ []) × Follows false t (print ps) × IsTemplate ps

  -- What `root->next` is set to for some pieces.
  abbrev pub as_next : List (Piece H) → Next H
  as_next [] = none
  as_next (p ∷ ps) = some (p ∷ ps)

  or_null-as_next : (ps : List (Piece H)) → or_null (as_next ps) ≡ ps
  or_null-as_next [] = refl
  or_null-as_next (p ∷ ps) = refl

  -- Printing a template and parsing the result gives the template back.
  parse_format-print :
      (fuel : ℕ) (ps : List (Piece H))
      → length (print ps) ≤ fuel
      → IsTemplate ps
      → parse_format lookup fuel plenty (print ps) ≡ some (success, as_next ps)
  unfolding parse_format print
  parse_format-print zero [] h t = refl
  parse_format-print (suc fuel) [] h t = refl
  parse_format-print zero (handler x ∷ ps) h t = absurd (omega arith)
  parse_format-print (suc fuel) (handler x ∷ ps) h (ne, name, known, t) =
      let l = length-append (name_of x) (b'}' ∷ print ps) in
      let ih = parse_format-print fuel ps (omega arith) t in
      rw (placeholder-name (name_of x) (print ps) ne name, known, ih, or_null-as_next ps)
  parse_format-print fuel (pure [] ∷ ps) h t = absurd (t.0 refl)
  parse_format-print zero (pure (c ∷ cs) ∷ ps) h t = absurd (
      omega (
        arith,
        length-append (escape (c ∷ cs)) (print ps),
        length-IsStart (escape (c ∷ cs)) (escape-IsStart c cs),
      ))
  parse_format-print (suc fuel) (pure (c ∷ cs) ∷ ps) h (ne, follows, t) =
      let scan = scan_text-escape false (c ∷ cs) (print ps) follows in
      let start = escape-IsStart c cs in
      let pos = length-IsStart (escape (c ∷ cs)) start in
      let l = length-append (escape (c ∷ cs)) (print ps) in
      let ih = parse_format-print fuel ps (omega arith) t in
      rw (text-parse lookup fuel (escape (c ∷ cs)) (print ps) (as_next ps) start scan ih)
        (rw (unescape-escape (c ∷ cs), or_null-as_next ps))

  outcome_of-success : (nx : Next H) → outcome_of (success, nx) ≡ template nx
  outcome_of-success none = refl
  outcome_of-success (some ps) = refl

  -- A template is printed, with its braces escaped, and the text is parsed: this gives the template
  -- back when no allocation fails, and when its names are known, not empty and of characters that
  -- a name may have, its texts are not empty and stand between placeholders, and none ends in a
  -- backslash before one.
  pub parse-print :
      (ps : List (Piece H))
      → IsTemplate ps
      → parse lookup plenty (print ps) ≡ some (template (as_next ps))
  unfolding parse
  parse-print ps t =
      rw (parse_format-print (length (print ps)) ps (omega arith) t)
        (ap (λ p. some p) (outcome_of-success (as_next ps)))
