-- ===== src/Config/Tests.antt =====
-- Small configurations, and the theorems of source/utils/clog_config.c at them.
use casca_log.Base.{
  false, ◌-◌, ◌%◌, ◌^◌, ◌≡◌, ◌≢◌, refl, Bool, true, none, some, List, [], ◌∷◌, if◌then◌else◌, ltb,
  arith, bytes_eq,
}
use casca_log.Config.{
  Bytes, uint, string, array, nil, cons, failed, parsed, astray, skip, is_valid_name_char,
  check_inline_comment, starts_with,
}
use casca_log.Config.Number.{
  get_number_value, is_digit, uint_loop, has_digit, parse_uint_radix, number_loop, parse_decimal,
  parse_unsigned, parse_number,
}
use casca_log.Config.Number.Digits.{digits, value_of, parse_uint_radix-digits}
use casca_log.Config.Number.Signs.{parse_number-sign}
use casca_log.Config.Text.{parse_string, quoted, parse_string-quoted}
use casca_log.Config.Array.{parse_value, array_loop, dispatch}
use casca_log.Config.Name.{get_valid_group_name, group_name_loop, first_name, key_loop, equal_loop}
use casca_log.Config.Group.{
  Item, Group, node, no_child, child, find_or_create, search, has_key, add_item, add_below,
}
use casca_log.Config.Group.Keys.{IsDistinct}
use casca_log.Config.Line.{
  null, current, parse_property, process_group, process_line, process_lines, split_lines, parse,
}
use casca_log.Config.Line.Total.{IsKept, process_line-IsKept, config_parse_total}
use casca_log.Config.Find.{
  find_group, find_content, find_item_in_group, find_item_in_group_uint, find_item, item_of,
  find_item-find_group,
}

abbrev any_double : Bytes → Bool
any_double text = true

-- "[a.b]", a line end, "k = 12 # n", a line end, "s = [1, 2]".
abbrev lines : Bytes
lines =
    b'[' ∷ b'a' ∷ b'.' ∷ b'b' ∷ b']' ∷ b'\n' ∷ b'k' ∷ b' ' ∷ b'=' ∷ b' ' ∷ b'1' ∷ b'2' ∷ b' ' ∷ b'#'
    ∷ b'n' ∷ b'\n' ∷ b's' ∷ b'=' ∷ b'[' ∷ b'1' ∷ b',' ∷ b' ' ∷ b'2' ∷ b']' ∷ []

abbrev k_item : Item
k_item = record { key = b'k' ∷ []; value = uint 12 }

abbrev s_item : Item
s_item = record { key = b's' ∷ []; value = array (cons (uint 1) (cons (uint 2) nil)) }

abbrev tree : List Item → Group
tree items =
    node [] []
      (child (node (b'a' ∷ []) [] (child (node (b'b' ∷ []) items no_child) no_child)) no_child)

whole_text : parse any_double lines ≡ some (current (tree (s_item ∷ k_item ∷ [])) (0 ∷ 0 ∷ []))
unfolding parse process_lines process_line split_lines process_group parse_property skip
    get_valid_group_name group_name_loop check_inline_comment is_valid_name_char find_or_create
    search first_name starts_with key_loop equal_loop parse_value array_loop dispatch parse_number
    parse_unsigned parse_decimal number_loop parse_uint_radix uint_loop has_digit get_number_value
    is_digit add_item add_below has_key bytes_eq
whole_text = refl

-- Without the space behind its comma, an array loses an element.
array_without_space :
    parse_value any_double 9 (b'[' ∷ b'1' ∷ b',' ∷ b'2' ∷ b']' ∷ [])
    ≡ some (parsed (array (cons (uint 1) nil)) [])
unfolding parse_value array_loop dispatch skip parse_number parse_unsigned parse_decimal number_loop
    parse_uint_radix uint_loop has_digit get_number_value is_digit
array_without_space = refl

-- A negative number has the type of an unsigned one.
negative_is_uint : parse_number any_double (b'-' ∷ b'1' ∷ []) ≡ parsed (uint (2 ^ 32 - 1)) []
unfolding parse_number parse_unsigned parse_decimal number_loop parse_uint_radix uint_loop has_digit
    get_number_value is_digit
negative_is_uint = refl

-- "[ab]", then "[a]": the first group is taken for the second.
prefix_group :
    parse any_double (b'[' ∷ b'a' ∷ b'b' ∷ b']' ∷ b'\n' ∷ b'[' ∷ b'a' ∷ b']' ∷ [])
    ≡ some (current (node [] [] (child (node (b'a' ∷ b'b' ∷ []) [] no_child) no_child)) (0 ∷ []))
unfolding parse process_lines process_line split_lines process_group skip get_valid_group_name
    group_name_loop check_inline_comment is_valid_name_char find_or_create search first_name
    starts_with
prefix_group = refl

-- "[a]", then "[b ]".
trailing_space :
    parse any_double (b'[' ∷ b'a' ∷ b']' ∷ b'\n' ∷ b'[' ∷ b'b' ∷ b' ' ∷ b']' ∷ []) ≡ some null
unfolding parse process_lines process_line split_lines process_group skip get_valid_group_name
    group_name_loop check_inline_comment is_valid_name_char find_or_create search first_name
    starts_with
trailing_space = refl

find_uint :
    (find_item_in_group_uint (node [] (s_item ∷ k_item ∷ []) no_child) (b'k' ∷ [])).1 ≡ some 12
unfolding find_item_in_group_uint find_item_in_group find_content bytes_eq
find_uint = refl

config_parse_total_example : parse any_double lines ≢ none
config_parse_total_example = config_parse_total any_double lines

parse_string-quoted_example :
    parse_string (b'"' ∷ quoted (b'a' ∷ b'"' ∷ b'\\' ∷ []) (b' ' ∷ []))
    ≡ parsed (string (b'a' ∷ b'"' ∷ b'\\' ∷ [])) (b' ' ∷ [])
parse_string-quoted_example = parse_string-quoted (b'a' ∷ b'"' ∷ b'\\' ∷ []) (b' ' ∷ [])

parse_uint_radix-digits_example :
    parse_uint_radix 16 (digits ((15, true) ∷ (10, false) ∷ [])) (b' ' ∷ []) ≡ (
      if ltb (2 ^ 32 - 1) (value_of 16 0 ((15, true) ∷ (10, false) ∷ []) % 2 ^ 64)
      then failed
      else parsed (value_of 16 0 ((15, true) ∷ (10, false) ∷ []) % 2 ^ 64) (b' ' ∷ []))
parse_uint_radix-digits_example =
    parse_uint_radix-digits 16 15 true ((10, false) ∷ []) (b' ' ∷ []) refl
      (omega arith, (omega arith, tt))

sign_before_space : parse_number any_double (b'-' ∷ b' ' ∷ b'1' ∷ []) ≡ astray
sign_before_space = parse_number-sign any_double b'-' (b' ' ∷ b'1' ∷ []) refl refl

tree-IsDistinct : IsDistinct (tree (k_item ∷ []))
unfolding has_key
tree-IsDistinct = (tt, ((tt, (((refl, tt), tt), tt)), tt))

process_line-IsKept_example :
    IsKept (process_line any_double (tree (k_item ∷ [])) (0 ∷ 0 ∷ []) (b'k' ∷ b'=' ∷ b'3' ∷ []))
process_line-IsKept_example =
    process_line-IsKept any_double (tree (k_item ∷ [])) (0 ∷ 0 ∷ []) (b'k' ∷ b'=' ∷ b'3' ∷ [])
      tree-IsDistinct tt

find_item-find_group_example :
    find_item (tree (k_item ∷ [])) ((b'a' ∷ []) ∷ (b'b' ∷ []) ∷ []) 2 (b'k' ∷ [])
    ≡ item_of (find_group (tree (k_item ∷ [])) ((b'a' ∷ []) ∷ (b'b' ∷ []) ∷ []) 2) (b'k' ∷ [])
find_item-find_group_example =
    find_item-find_group (tree (k_item ∷ [])) (b'a' ∷ []) ((b'b' ∷ []) ∷ []) 2 (b'k' ∷ [])
