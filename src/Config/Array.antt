-- ===== src/Config/Array.antt =====
-- `clog_config_parse_value`, with the arrays.
pub mod Ends
use casca_log.Base.{
  ℕ, zero, suc, ◌+◌, ◌*◌, ◌≤◌, ◌<◌, Bool, true, false, ◌||◌, ◌&&◌, ◌≡◌, ◌≢◌, refl, Option, none,
  some, List, [], ◌∷◌, ◌++◌, if◌then◌else◌, ◌==◌, leb, length, arith, Bool-cases, inl, inr,
}
use casca_log.Config.{Bytes, Value, array, Items, nil, cons, Parsed, failed, parsed, astray, skip}
use casca_log.Config.Number.{is_digit, parse_number}
use casca_log.Config.Text.{parse_char, parse_string, parse_bool, rest_of}

abbrev pub prepend : Value → Option (Parsed Items) → Option (Parsed Items)
prepend v none = none
prepend v (some failed) = some failed
prepend v (some astray) = some astray
prepend v (some (parsed items rest)) = some (parsed (cons v items) rest)

abbrev pub to_array : Option (Parsed Items) → Option (Parsed Value)
to_array none = none
to_array (some failed) = some failed
to_array (some astray) = some astray
to_array (some (parsed items rest)) = some (parsed (array items) rest)

-- What follows a child in an array: the loop goes on behind a comma.
abbrev pub after_child : Value → Bytes → (Bytes → Option (Parsed Items)) → Option (Parsed Items)
after_child v [] more = some failed
after_child v (c ∷ cs) more =
    if c == b']'
    then some (parsed (cons v nil) cs)
    else if c == b','
    then prepend v (more cs)
    else some failed

abbrev pub on_child :
    Option (Parsed Value) → (Bytes → Option (Parsed Items)) → Option (Parsed Items)
on_child none more = none
on_child (some failed) more = some failed
on_child (some astray) more = some astray
on_child (some (parsed v rest)) more = after_child v (skip rest) more

-- One round of the loop, from the first character behind `tmp + 1` that is no space.
abbrev pub on_element :
    Bytes
    → (Bytes → Option (Parsed Value))
    → (Bytes → Option (Parsed Items))
    → Option (Parsed Items)
on_element [] value more = some failed
on_element (c ∷ cs) value more =
    if c == b']' then some (parsed nil cs) else on_child (value (c ∷ cs)) more

-- Where `clog_config_parse_value` sends a text that begins with no space.
unfoldable pub dispatch :
    (Bytes → Bool) → Bytes → (Bytes → Option (Parsed Items)) → Option (Parsed Value)
dispatch in_range [] loop = some failed
dispatch in_range (c ∷ cs) loop =
    if c == b'+' || c == b'-' || is_digit c
    then some (parse_number in_range (c ∷ cs))
    else if c == b'\''
    then some (parse_char cs)
    else if c == b'"'
    then some (parse_string (c ∷ cs))
    else if c == b't' || c == b'f'
    then some (parse_bool (c ∷ cs))
    else if c == b'['
    then to_array (loop (c ∷ cs))
    else some failed

-- A round of the loop while there is something to read.
abbrev pub round :
    Bytes
    → (Bytes → Option (Parsed Value))
    → (Bytes → Option (Parsed Items))
    → Option (Parsed Items)
round [] value more = some failed
round (c ∷ cs) value more = on_element (skip cs) value more

module _ (in_range : Bytes → Bool) where
  unfoldable mutual
    -- `clog_config_parse_value`. `none` means that the fuel ran out.
    pub parse_value : ℕ → Bytes → Option (Parsed Value)
    parse_value zero s = none
    parse_value (suc fuel) s = dispatch in_range (skip s) (array_loop fuel)

    -- Its loop over the children, from `tmp` on.
    pub array_loop : ℕ → Bytes → Option (Parsed Items)
    array_loop zero s = none
    array_loop (suc fuel) s = round s (parse_value fuel) (array_loop fuel)
