-- ===== src/Config/Text/Rest.antt =====
-- What the parsers of characters, strings and Booleans leave of a line.
use casca_log.Base.{
  ℕ, suc, ◌≤◌, ◌≡◌, Bool, true, false, ◌||◌, Option, none, some, [], ◌∷◌, ◌==◌, length, arith,
  Bool-cases, Option-cases, inl, inr,
}
use casca_log.Config.{Bytes, skip, starts_with}
use casca_log.Config.Number.Rest.{Within, Within-le, length-skip}
use casca_log.Config.Text.{
  parse_char, escaped_char, close_char, escape_value, string_loop, to_string, parse_string,
  parse_bool, true_text, false_text, rest_of,
}

close_char-Within : (v : ℕ) (s : Bytes) → Within (length s) (close_char v s)
close_char-Within v [] = tt
close_char-Within v (c ∷ cs) = elim (Bool-cases (c == b'\'')) [
  | inl y ↦ rw (y, Within) (omega arith)
  | inr m ↦ rw (m, Within) tt
]

escaped_char-Within : (s : Bytes) → Within (length s) (escaped_char s)
escaped_char-Within [] = tt
escaped_char-Within (c ∷ cs) = elim (Option-cases (escape_value c)) [
  | inl n ↦ rw (n, Within, escaped_char) tt
  | inr (v, e) ↦
      rw (e, escaped_char) (Within-le (close_char v cs) (close_char-Within v cs) (omega arith))
]

pub parse_char-Within : (s : Bytes) → Within (length s) (parse_char s)
unfolding parse_char
parse_char-Within [] = tt
parse_char-Within (c ∷ cs) = elim (Bool-cases (c == b'\\')) [
  | inl y ↦ rw y (Within-le (escaped_char cs) (escaped_char-Within cs) (omega arith))
  | inr m ↦ rw m (Within-le (close_char c cs) (close_char-Within c cs) (omega arith))
]

-- What is read of a string leaves no more than there was.
abbrev Leaves : ℕ → Option (Bytes × Bytes) → Type 0
Leaves n none = Unit {0}
Leaves n (some (text, rest)) = length rest ≤ n

abbrev copied : ℕ → Option (Bytes × Bytes) → Option (Bytes × Bytes)
copied c none = none
copied c (some (text, rest)) = some (c ∷ text, rest)

copied-Leaves : (c n : ℕ) (o : Option (Bytes × Bytes)) → Leaves n o → Leaves (suc n) (copied c o)
copied-Leaves c n none h = tt
copied-Leaves c n (some (text, rest)) h = omega (arith, h)

Leaves-suc : (n : ℕ) (o : Option (Bytes × Bytes)) → Leaves n o → Leaves (suc n) o
Leaves-suc n none h = tt
Leaves-suc n (some (text, rest)) h = omega (arith, h)

string_loop-Leaves : (e : Bool) (s : Bytes) → Leaves (length s) (string_loop e s)
unfolding string_loop
string_loop-Leaves e [] = tt
string_loop-Leaves true (c ∷ cs) = elim (Bool-cases (c == b'\\' || c == b'"')) [
  | inl y ↦ rw y (copied-Leaves c (length cs) (string_loop false cs) (string_loop-Leaves false cs))
  | inr m ↦ rw (m, Leaves) tt
]
string_loop-Leaves false (c ∷ cs) = elim (Bool-cases (c == b'\\')) [
  | inl y ↦ rw y (Leaves-suc (length cs) (string_loop true cs) (string_loop-Leaves true cs))
  | inr m ↦ elim (Bool-cases (c == b'"')) [
    | inl y ↦ rw (m, y, Leaves) (omega arith)
    | inr k ↦
        rw (m, k) (copied-Leaves c (length cs) (string_loop false cs) (string_loop-Leaves false cs))
  ]
]

to_string-Within : (n : ℕ) (o : Option (Bytes × Bytes)) → Leaves n o → Within n (to_string o)
to_string-Within n none h = tt
to_string-Within n (some (text, rest)) h = h

-- Of a text that begins with no space.
pub parse_string-Within :
    (c : ℕ) (cs : Bytes) → skip (c ∷ cs) ≡ c ∷ cs → Within (suc (length cs)) (parse_string (c ∷ cs))
unfolding parse_string
parse_string-Within c cs e = elim (Bool-cases (c == b'"')) [
  | inl y ↦
      rw (e, parse_string, y)
        (to_string-Within (suc (length cs)) (string_loop false cs)
          (Leaves-suc (length cs) (string_loop false cs) (string_loop-Leaves false cs)))
  | inr m ↦ rw (e, parse_string, m, Within) tt
]

length-rest_of : (s : Bytes) → length (rest_of s) ≤ length s
length-rest_of [] = omega arith
length-rest_of (c ∷ cs) = omega arith

pub parse_bool-Within : (s : Bytes) → Within (length s) (parse_bool s)
unfolding parse_bool
parse_bool-Within s =
    let t = skip s in
    let t1 = rest_of t in
    let t2 = rest_of t1 in
    let t3 = rest_of t2 in
    let t4 = rest_of t3 in
    let h = length-skip s in
    let h1 = length-rest_of t in
    let h2 = length-rest_of t1 in
    let h3 = length-rest_of t2 in
    let h4 = length-rest_of t3 in
    let h5 = length-rest_of t4 in
    elim (Bool-cases (starts_with t true_text)) [
      | inl y ↦ rw (y, Within) (omega arith)
      | inr m ↦ elim (Bool-cases (starts_with t false_text)) [
        | inl y ↦ rw (m, y, Within) (omega arith)
        | inr k ↦ rw (m, k, Within) tt
      ]
    ]
