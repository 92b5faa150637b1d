-- ===== src/Config.antt =====
-- source/utils/clog_config.c: configurations such as
--   [net.http]
--   port = 8080 # inline
--
-- A pointer into a line is the rest of the line, up to its end. What the code reads at the end is a
-- line end or a NUL, which passes none of its tests. Memory does not run out. A double is the text
-- that strtod is called with, and `in_range` says when that leaves errno alone.
pub mod Number
pub mod Text
pub mod Array
pub mod Name
pub mod Group
pub mod Line
pub mod Find
mod Tests
use casca_log.Base.{
  ℕ, ◌≤◌, Bool, true, false, ◌||◌, ◌&&◌, Option, none, some, List, [], ◌∷◌, if◌then◌else◌, ◌==◌,
  leb, ltb,
}

abbrev pub Bytes : Type 0
Bytes = List ℕ

-- The values of `clog_config_item_t`; the numbers are the 32 bits of their unions. The children of an
-- array have no keys.
mutual
  pub data Value : Type 0 where
    sint uint : ℕ → Value
    float : Bytes → Value
    char : ℕ → Value
    string : Bytes → Value
    bool : Bool → Value
    array : Items → Value

  pub data Items : Type 0 where
    nil : Items
    cons : Value → Items → Items

-- What a function that returns a pointer comes to: NULL; a result, with the rest of the line; or a
-- pointer that does not point into the line or to its end, which the caller reads through.
pub data Parsed {ℓ} (A : Type ℓ) : Type ℓ where
  failed : Parsed A
  parsed : A → Bytes → Parsed A
  astray : Parsed A

abbrev pub is_space : ℕ → Bool
is_space c = c == b' ' || c == b'\t'

-- `clog_config_remove_leading_spaces`.
unfoldable pub skip : Bytes → Bytes
skip [] = []
skip (c ∷ cs) = let rest = skip cs in if is_space c then rest else c ∷ cs

-- `clog_config_is_valid_name_char`.
unfoldable pub is_valid_name_char : ℕ → Bool
is_valid_name_char ch =
    ch == b'_'
    || leb b'0' ch && leb ch b'9'
    || leb b'a' ch && leb ch b'z'
    || leb b'A' ch && leb ch b'Z'

-- `clog_config_check_inline_comment`.
unfoldable pub check_inline_comment : Bytes → Bool
check_inline_comment s = elim (skip s) [ [] ↦ true | c ∷ cs ↦ c == b'#' ]

-- Whether a text begins with another: `strncmp` over the other's length.
unfoldable pub starts_with : Bytes → Bytes → Bool
starts_with s [] = true
starts_with [] (d ∷ ds) = false
starts_with (c ∷ cs) (d ∷ ds) = c == d && starts_with cs ds
