-- ===== src/Interpolator.antt =====
-- source/utils/clog_interpolator.c: templates such as "{_year} {_content}\{x\}".
--
-- A template is a list of pieces, the nodes behind the root. The table of placeholders is taken by
-- its lookups, which are what `clog_hashmap_get` returns (Hashmap/Search.antt). A handler is a
-- function of the space left. `Alloc` says which allocations succeed.
pub mod Parse
pub mod Text
pub mod Output
pub mod Content
pub mod Examples
mod Tests
use casca_log.Base.{
  ℕ, zero, suc, ◌+◌, ◌-◌, ◌*◌, ◌%◌, ◌^◌, ◌≤◌, ◌<◌, Bool, true, false, not, ◌&&◌, ◌||◌, Option, none,
  some, List, [], ◌∷◌, ◌++◌, if◌then◌else◌, ◌==◌, ltb, leb, length, take, drop, Res, success, fail,
  invalid_param, no_memory, is_success, Alloc, next,
}
use Prim.Native.Nat.{min}
use mathlib.Core.Option

abbrev pub Bytes : Type 0
Bytes = List ℕ

-- `struct clog_interpolator`: a string, or the handler of a placeholder.
pub data Piece (H : Type 0) : Type 0 where
  pure : Bytes → Piece H
  handler : H → Piece H

unfoldable pub is_name_valid : ℕ → Bool
is_name_valid ch =
    leb b'a' ch && leb ch b'z'
    || leb b'A' ch && leb ch b'Z'
    || leb b'0' ch && leb ch b'9'
    || ch == b'_'

-- The loop of `parse_placeholder_name`: the name, and what follows the closing brace.
unfoldable pub name_loop : Bytes → Option (Bytes × Bytes)
name_loop [] = none
name_loop (c ∷ cs) =
    let later = Option.map (λ (r : Bytes × Bytes). (c ∷ r.0, r.1)) (name_loop cs) in
    if c == b'}' then some ([], cs) else if is_name_valid c then later else none

-- Of what follows the opening brace. The empty name is an error.
unfoldable pub parse_placeholder_name : Bytes → Option (Bytes × Bytes)
parse_placeholder_name [] = none
parse_placeholder_name (c ∷ cs) = if c == b'}' then none else name_loop (c ∷ cs)

-- The loop over plain text, up to a brace that opens a placeholder: the text and the rest. A closing
-- brace that is not escaped is an error.
unfoldable pub scan_text : Bool → Bytes → Option (Bytes × Bytes)
scan_text is_escape [] = some ([], [])
scan_text is_escape (c ∷ cs) =
    let later = Option.map (λ (r : Bytes × Bytes). (c ∷ r.0, r.1)) (scan_text (c == b'\\') cs) in
    if c == b'{' && not is_escape
    then some ([], c ∷ cs)
    else if c == b'}' && not is_escape
    then none
    else later

unfoldable pub is_brace : ℕ → Bool
is_brace c = c == b'{' || c == b'}'

-- Whether the next character of a text is a brace.
unfoldable pub before_brace : Bytes → Bool
before_brace [] = false
before_brace (c ∷ cs) = is_brace c

-- The copy of the text, without the backslashes that escape a brace.
unfoldable pub unescape : Bytes → Bytes
unescape [] = []
unescape (c ∷ cs) =
    let rest = unescape cs in if c == b'\\' && before_brace cs then rest else c ∷ rest

-- What was written to `root->next`: `none` if nothing was.
abbrev pub Next : Type 0 → Type 0
Next H = Option (List (Piece H))

-- A node that `clog_interpolator_create` made has NULL there from the start.
abbrev pub or_null : {H : Type 0} → Next H → List (Piece H)
or_null none = []
or_null (some ps) = ps

abbrev pub link : {H : Type 0} → Piece H → Option (Res × Next H) → Option (Res × Next H)
link p none = none
link p (some (res, ps)) = some (res, some (p ∷ or_null ps))

-- What `parse` comes to: a template, a code, or a walk along a pointer that nothing has written.
pub data Parsed (H : Type 0) : Type 0 where
  template : Next H → Parsed H
  refused : Res → Parsed H
  wild : Parsed H

abbrev pub outcome_of : {H : Type 0} → Res × Next H → Parsed H
outcome_of (res, none) = if is_success res then template none else wild
outcome_of (res, some ps) = if is_success res then template (some ps) else refused res

module _ {H : Type 0} (lookup : Bytes → Option H) where
  -- `parse_format` calls itself on the rest. `none` means that the fuel ran out; the length of the
  -- format is enough. An error in the text returns `false`, which is `CLOG_SUCCESS`.
  unfoldable pub parse_format : ℕ → Alloc → Bytes → Option (Res × Next H)
  parse_format fuel a [] = some (success, none)
  parse_format zero a (c ∷ cs) = none
  parse_format (suc fuel) a (c ∷ cs) =
      if c == b'{'
      then elim (parse_placeholder_name cs) [
        | none ↦ some (invalid_param, none)
        | some (name, rest) ↦
            let later = λ (h : H). link (handler h) (parse_format fuel (next (next a)) rest) in
            if a 0
            then elim (lookup name) [
              | none ↦ some (fail, none)
              | some h ↦ let linked = later h in if a 1 then linked else some (fail, none)
            ]
            else some (no_memory, none)
      ]
      else elim (scan_text false (c ∷ cs)) [
        | none ↦ some (success, none)
        | some (text, rest) ↦
            let later =
              link (pure (unescape text)) (parse_format fuel (next (next (next a))) rest) in
            if a 0 then if a 1 && a 2 then later else some (fail, none) else some (no_memory, none)
      ]

  -- The root is malloc'd without a `next`. When the format is refused, the root is cleared, which
  -- follows its `next`.
  unfoldable pub parse : Alloc → Bytes → Option (Parsed H)
  parse a fmt =
      let run = parse_format (length fmt) (next a) fmt in
      if a 0 then Option.map outcome_of run else some (refused no_memory)

-- What a handler does with the space from its place on: it fails with a code, or returns `ret`,
-- which is not 0, having written some bytes. `empty` is a return of 0.
pub data Reply : Type 0 where
  failed : Res → Reply
  empty : Reply
  wrote : ℕ → Bytes → Reply

-- The code, the buffer and what `*num` is set to; or a write outside the buffer.
pub data Outcome : Type 0 where
  result : Res → Bytes → Option ℕ → Outcome
  overflow : Outcome

-- Writing some bytes into a buffer.
unfoldable pub write_at : Bytes → ℕ → Bytes → Option Bytes
write_at buf offset bytes =
    if leb (offset + length bytes) (length buf)
    then some (take offset buf ++ bytes ++ drop (offset + length bytes) buf)
    else none

-- `size - offset` on `size_t`.
unfoldable pub space : ℕ → ℕ → ℕ
space size offset = (size + 2 ^ 64 - offset) % 2 ^ 64

-- `clog_strcpy` of a string that is not empty: what `snprintf` writes, and the code.
unfoldable pub strcpy : ℕ → Bytes → Res × Bytes
strcpy size src = (
  if ltb 0 (length src) && ltb (length src) size then success else fail,
  if size == 0 then [] else take (min (length src) (size - 1)) src ++ 0 ∷ [],
)

-- `buf[0] = '\0'; return res;`.
abbrev pub give_up : Res → Bytes → Outcome
give_up res buf = elim (write_at buf 0 (0 ∷ [])) [
  | some buf' ↦ result res buf' none
  | none ↦ overflow
]

-- What follows a handler's return, with the rest of the loop.
abbrev pub on_reply : Reply → Bytes → ℕ → (Bytes → ℕ → Outcome) → Outcome
on_reply (failed res) buf offset rest = give_up res buf
on_reply empty buf offset rest = give_up success buf
on_reply (wrote ret bytes) buf offset rest = elim (write_at buf offset bytes) [
  | none ↦ overflow
  | some buf' ↦ rest buf' (offset + ret)
]

module _ {H : Type 0} (run : H → ℕ → Reply) (size : ℕ) where
  -- The end of `interpolate`, at an offset.
  unfoldable pub terminate : Bytes → ℕ → Outcome
  terminate buf offset =
      if leb size offset then give_up no_memory buf else elim (write_at buf offset (0 ∷ [])) [
        | some buf' ↦ result success buf' (some offset)
        | none ↦ overflow
      ]

  unfoldable pub loop : List (Piece H) → Bytes → ℕ → Outcome
  loop [] buf offset = terminate buf offset
  loop (pure string ∷ ps) buf offset =
      let (res, bytes) = strcpy (space size offset) string in
      elim (write_at buf offset bytes) [
        | none ↦ overflow
        | some buf' ↦
            let rest = loop ps buf' (offset + length string) in
            if is_success res then rest else give_up res buf'
      ]
  loop (handler h ∷ ps) buf offset = on_reply (run h (space size offset)) buf offset (loop ps)

  -- `clog_interpolator_interpolate` into a buffer of `size` bytes.
  unfoldable pub interpolate : List (Piece H) → Bytes → Outcome
  interpolate ps buf = if leb size 1 then result invalid_param buf none else loop ps buf 0
