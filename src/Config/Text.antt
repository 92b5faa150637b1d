-- ===== src/Config/Text.antt =====
-- The characters, strings and Booleans of source/utils/clog_config.c.
pub mod Rest
use casca_log.Base.{
  ℕ, Bool, true, false, ◌||◌, ◌≡◌, refl, ap, Option, none, some, List, [], ◌∷◌, ◌++◌, if◌then◌else◌,
  ◌==◌, arith, Bool-cases, inl, inr,
}
use casca_log.Config.{
  Bytes, Value, char, string, bool, Parsed, failed, parsed, skip, starts_with, is_space,
}

-- `escape_chars` and `values` of `clog_config_parse_char`.
unfoldable pub escape_value : ℕ → Option ℕ
escape_value c =
    if c == b'\''
    then some b'\''
    else if c == b'n'
    then some b'\n'
    else if c == b't'
    then some b'\t'
    else if c == b'r'
    then some b'\r'
    else if c == b'\\'
    then some b'\\'
    else if c == b'0'
    then some 0
    else none

-- The closing quote.
abbrev pub close_char : ℕ → Bytes → Parsed Value
close_char value [] = failed
close_char value (c ∷ cs) = if c == b'\'' then parsed (char value) cs else failed

abbrev pub escaped_char : Bytes → Parsed Value
escaped_char [] = failed
escaped_char (c ∷ cs) = elim (escape_value c) [ none ↦ failed | some value ↦ close_char value cs ]

-- `clog_config_parse_char`, behind the opening quote.
unfoldable pub parse_char : Bytes → Parsed Value
parse_char [] = failed
parse_char (c ∷ cs) = if c == b'\\' then escaped_char cs else close_char c cs

-- The loop of `clog_config_parse_string`, with `is_escaping`: what is copied, and what follows the
-- closing quote.
unfoldable pub string_loop : Bool → Bytes → Option (Bytes × Bytes)
string_loop is_escaping [] = none
string_loop true (c ∷ cs) =
    let later = string_loop false cs in
    if c == b'\\' || c == b'"'
    then elim later [ none ↦ none | some (text, rest) ↦ some (c ∷ text, rest) ]
    else none
string_loop false (c ∷ cs) =
    let escaped = string_loop true cs in
    let later = string_loop false cs in
    if c == b'\\'
    then escaped
    else if c == b'"'
    then some ([], cs)
    else elim later [ none ↦ none | some (text, rest) ↦ some (c ∷ text, rest) ]

abbrev pub to_string : Option (Bytes × Bytes) → Parsed Value
to_string none = failed
to_string (some (text, rest)) = parsed (string text) rest

-- `clog_config_parse_string`.
unfoldable pub parse_string : Bytes → Parsed Value
parse_string s = elim (skip s) [
  | [] ↦ failed
  | c ∷ cs ↦ if c == b'"' then to_string (string_loop false cs) else failed
]

abbrev pub true_text : Bytes
true_text = b't' ∷ b'r' ∷ b'u' ∷ b'e' ∷ []

abbrev pub false_text : Bytes
false_text = b'f' ∷ b'a' ∷ b'l' ∷ b's' ∷ b'e' ∷ []

abbrev pub rest_of : Bytes → Bytes
rest_of [] = []
rest_of (c ∷ cs) = cs

-- `clog_config_parse_bool`.
unfoldable pub parse_bool : Bytes → Parsed Value
parse_bool s =
    let t = skip s in
    if starts_with t true_text
    then parsed (bool true) (rest_of (rest_of (rest_of (rest_of t))))
    else if starts_with t false_text
    then parsed (bool false) (rest_of (rest_of (rest_of (rest_of (rest_of t)))))
    else failed

-- A text with its quotes and backslashes escaped, and its closing quote.
unfoldable pub quoted : Bytes → Bytes → Bytes
quoted [] rest = b'"' ∷ rest
quoted (c ∷ cs) rest =
    let later = quoted cs rest in if c == b'\\' || c == b'"' then b'\\' ∷ c ∷ later else c ∷ later

string_loop-quoted : (text rest : Bytes) → string_loop false (quoted text rest) ≡ some (text, rest)
unfolding string_loop quoted
string_loop-quoted [] rest = refl
string_loop-quoted (c ∷ cs) rest = ground (arith, string_loop-quoted cs rest)

-- A string that is printed in quotes, its quotes and backslashes escaped, is read back, whatever
-- follows it.
pub parse_string-quoted :
    (text rest : Bytes) → parse_string (b'"' ∷ quoted text rest) ≡ parsed (string text) rest
unfolding parse_string skip
parse_string-quoted text rest = rw (string_loop-quoted text rest) refl
