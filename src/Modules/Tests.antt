-- ===== src/Modules/Tests.antt =====
-- A configuration of modules for source/casca_log_core.c, and the theorems at it.
use casca_log.Base.{
  ℕ, ◌≡◌, refl, Bool, true, none, some, List, [], ◌∷◌, if◌then◌else◌, leb, length, Res, success,
  bytes_eq,
}
use casca_log.Config.{Bytes, skip, is_valid_name_char, check_inline_comment, starts_with}
use casca_log.Config.Number.{
  get_number_value, is_digit, uint_loop, has_digit, parse_uint_radix, number_loop, parse_decimal,
  parse_unsigned, parse_number,
}
use casca_log.Config.Array.{parse_value, array_loop, dispatch}
use casca_log.Config.Name.{get_valid_group_name, group_name_loop, first_name, key_loop, equal_loop}
use casca_log.Config.Group.{find_or_create, search, has_key, add_item, add_below}
use casca_log.Config.Line.{
  parse, parse_property, process_group, process_line, process_lines, split_lines,
}
use casca_log.Config.Find.{
  find_group, find_child, find_content, find_item_in_group, find_item_in_group_uint,
  find_item_in_group_bool, item_get_enabled,
}
use casca_log.Context.{created}
use casca_log.Logger.{Module}
use casca_log.Modules.{
  outside, filled, read_recorders, set_modules, init_modules, init_children, init_process_module,
}
use casca_log.Modules.Fit.{uints, read_recorders-uints, IsFit, KeptTable, set_modules-Kept}

-- A table that takes every module.
abbrev put_front : List (Bytes × Module) → Bytes → Module → Res × List (Bytes × Module)
put_front map name m = (success, (name, m) ∷ map)

abbrev AreFit : List (Bytes × Module) → Type 0
AreFit [] = Unit {0}
AreFit ((name, m) ∷ map) = IsFit 4 m × AreFit map

abbrev any_double : Bytes → Bool
any_double text = true

abbrev p_name : Bytes
p_name = b'p' ∷ []

-- "[Process.p.m]", a line end, "recorder = [1]".
abbrev one_module : Bytes
one_module =
    b'[' ∷ b'P' ∷ b'r' ∷ b'o' ∷ b'c' ∷ b'e' ∷ b's' ∷ b's' ∷ b'.' ∷ b'p' ∷ b'.' ∷ b'm' ∷ b']' ∷ b'\n'
    ∷ b'r' ∷ b'e' ∷ b'c' ∷ b'o' ∷ b'r' ∷ b'd' ∷ b'e' ∷ b'r' ∷ b'=' ∷ b'[' ∷ b'1' ∷ b']' ∷ []

-- The module has the level of the context, and its recorder.
set_one :
    set_modules 4 put_front any_double created p_name 7 none (some []) one_module
    ≡ some (success, some ((b'm' ∷ [], record { level = 7; recorders = 1 ∷ [] }) ∷ []))
unfolding set_modules init_modules init_children init_process_module read_recorders parse
    process_lines process_line split_lines process_group parse_property skip get_valid_group_name
    group_name_loop check_inline_comment is_valid_name_char find_or_create search first_name
    starts_with key_loop equal_loop parse_value array_loop dispatch parse_number parse_unsigned
    parse_decimal number_loop parse_uint_radix uint_loop has_digit get_number_value is_digit
    add_item add_below has_key bytes_eq find_group find_child find_content find_item_in_group
    find_item_in_group_uint find_item_in_group_bool item_get_enabled
set_one = refl

set_modules-Kept_example :
    KeptTable AreFit (set_modules 4 put_front any_double created p_name 7 none (some []) one_module)
set_modules-Kept_example =
    set_modules-Kept 4 put_front AreFit (λ map name m f p. (f, p)) any_double created p_name 7 none
      (some []) one_module tt tt

abbrev five : List ℕ
five = 1 ∷ 2 ∷ 3 ∷ 4 ∷ 5 ∷ []

recorders_read :
    read_recorders 4 0 (uints five) ≡ (if leb (length five) 4 then filled five else outside)
recorders_read = read_recorders-uints 4 five
