-- ===== src/ErrorLog.antt =====
-- source/utils/clog_error.c: a log of the first errors.
--
-- One thread at a time: the exchange in `clog_err_get_index` succeeds. What snprintf and vsnprintf write
-- into a line, of its size, index and message, is a parameter.
pub mod First
mod Tests
use casca_log.Base.{
  ℕ, zero, suc, ◌+◌, Bool, true, false, ◌&&◌, ◌||◌, not, Option, none, some, List, [], ◌∷◌,
  if◌then◌else◌, ◌==◌, ltb, leb, Res, success, fail, no_memory, target_not_found, not_permitted,
}

-- The lines, and the other variables of the file.
pub record ErrorLog : Type 0 where
  pub err_msg : Option (ℕ → List ℕ)
  pub err_num : ℕ
  pub err_line_size : ℕ
  pub err_count : ℕ

abbrev pub no_log : ErrorLog
no_log = record { err_msg = none; err_num = 0; err_line_size = 0; err_count = 0 }

-- The loop of `clog_err_setup`: whether malloc gives each of so many lines.
unfoldable pub all_given : ℕ → (ℕ → Bool) → Bool
all_given zero malloc = true
all_given (suc n) malloc = all_given n malloc && malloc n

-- `clog_err_setup`, by whether malloc gives the array and each line, and what stands in the lines. After
-- a failure, the array is NULL and the rest is as it was.
unfoldable pub setup : ℕ → ℕ → Bool → (ℕ → Bool) → (ℕ → List ℕ) → ErrorLog → ErrorLog
setup num size array malloc lines s =
    if num == 0 || size == 0
    then s
    else if array && all_given num malloc
    then record { err_msg = some lines; err_num = num; err_line_size = size; err_count = 0 }
    else record s { err_msg = none }

-- `clog_err_get_index`: the index, which is the number of lines when they are full, and the new count.
unfoldable pub get_index : ErrorLog → ℕ × ℕ
get_index s =
    if leb s.err_num s.err_count then (s.err_num, s.err_count) else (s.err_count, s.err_count + 1)

abbrev pub write_line : (ℕ → List ℕ) → ℕ → List ℕ → ℕ → List ℕ
write_line lines i line j = if j == i then line else lines j

module _ {M : Type 0} (format : ℕ → ℕ → M → List ℕ) where
  -- The line that is written. `none` is a read of an array that is NULL.
  abbrev pub put_line : ErrorLog → ℕ → ℕ → M → Option ErrorLog
  put_line s index count message = elim s.err_msg [
    | none ↦ none
    | some lines ↦ some (record {
      err_msg = some (write_line lines index (format s.err_line_size index message));
      err_num = s.err_num;
      err_line_size = s.err_line_size;
      err_count = count;
    })
  ]

  -- `clog_err_put`.
  unfoldable pub put : ErrorLog → M → Option ErrorLog
  put s message =
      let (index, count) = get_index s in
      if s.err_num == 0
      then some s
      else if leb s.err_num index
      then some s
      else put_line s index count message

  abbrev pub put_more : Option ErrorLog → (ErrorLog → Option ErrorLog) → Option ErrorLog
  put_more none more = none
  put_more (some s) more = more s

  -- Some calls of it.
  unfoldable pub put_all : List M → ErrorLog → Option ErrorLog
  put_all [] s = some s
  put_all (m ∷ ms) s = put_more (put s m) (put_all ms)

-- `clog_err_get`: the number of errors, and whether there is an array of them.
unfoldable pub get : ErrorLog → ℕ × Bool
get s =
    if s.err_num == 0
    then (0, false)
    else if s.err_count == 0
    then (0, false)
    else (s.err_count, true)

-- `clog_err_clear` and `clog_err_cleanup`.
unfoldable pub clear : ErrorLog → ErrorLog
clear s = record s { err_count = 0 }

unfoldable pub cleanup : ErrorLog → ErrorLog
cleanup s = no_log

-- `clog_err_to_res`, by the values of ENOMEM, ENOENT and EACCES.
unfoldable pub to_res : ℕ → ℕ → ℕ → ℕ → Res
to_res enomem enoent eacces err =
    if err == enomem
    then no_memory
    else if err == enoent
    then target_not_found
    else if err == eacces
    then not_permitted
    else if err == 0
    then success
    else fail
