-- ===== src/Recorder.antt =====
-- source/recorder/clog_recorder_file.c: a recorder that writes logs to a file and goes on to another.
--
-- What it asks of the system is a record of operations. The two interpolators, the clock and the
-- parsing of the attributes are arguments; a path is made normal by FileSystem. The two numbers of
-- the union are `limit` and `current`, with the widths that they have for each way to split.
mod Codes
pub mod Create
pub mod Created
mod Tests
use casca_log.Base.{
  ℕ, suc, ◌+◌, ◌-◌, ◌*◌, ◌%◌, ◌^◌, ◌≡◌, Bool, true, false, Option, none, some, List, [], ◌∷◌, ◌++◌,
  if◌then◌else◌, ◌==◌, leb, length, Res, success, fail, invalid_param, request_flush,
  already_existed, is_success, Alloc, next,
}
use casca_log.FileSystem.{Bytes, Written, wrote, outside, normalize, file_get_dir}
use casca_log.FileSystem.Dirs.{is_made}

-- `clog_recorder_file_split_type_e`.
pub data Split : Type 0 where
  unsplit by_size by_time by_number : Split

-- `clog_recorder_file_meta_info_t`.
pub record MetaInfo : Type 0 where
  pub version : ℕ
  pub file_index : ℕ
  pub file : Bytes
  pub timestamp : ℕ

-- open with the flags of the log and of the metainfo, for writing and for reading, clog_dir_create,
-- write, by the number of bytes that were written if it did not fail, close, and the read of the
-- metainfo over what stands there. `size_of` is the place that a seek to the end of a log gives, if it
-- gives one, and `bytes` what reads of single bytes give, from where the seek to the start left the
-- place, up to the first that fails or gives none.
pub record Files : Type 1 where
  pub Disk : Type 0
  pub Handle : Type 0
  pub open_log : Disk → Bytes → Option Handle × Disk
  pub open_meta : Disk → Bytes → Option Handle × Disk
  pub open_read : Disk → Bytes → Option Handle × Disk
  pub make_dir : Disk → Bytes → Res × Disk
  pub write : Disk → Handle → Bytes → Option ℕ × Disk
  pub read_meta : Disk → Handle → MetaInfo → Res × MetaInfo
  pub close : Disk → Handle → Disk
  pub bytes_of : MetaInfo → Bytes
  pub size_of : Disk → Handle → Option ℕ
  pub bytes : Disk → Handle → Bytes

-- What is the same in every call: the outcomes of the allocations and of clog_cwd for the normal form
-- of a path, and what the interpolators of the directory and, by the index, of the file write into
-- so many bytes.
pub record Setting : Type 0 where
  pub alloc : Alloc
  pub cwd : Res × Bytes
  pub dir_text : ℕ → Res × Bytes
  pub file_text : ℕ → ℕ → Res × Bytes

-- `clog_item_t` as far as the recorder reads it.
pub record Item : Type 0 where
  pub content : Bytes
  pub timestamp : ℕ

-- `clog_file_recorder_get_log_filepath`, for CASCA_LOG_FILEPATH_MAX_SIZE as it is by default.
abbrev pub with_file : Setting → Bytes → Res × Bytes → Res × Bytes
with_file setting dir (res, file) =
    if is_success res then normalize setting.alloc setting.cwd (dir ++ file) 256 else (res, [])

abbrev pub with_dir : Setting → ℕ → Res × Bytes → Res × Bytes
with_dir setting index (res, dir) =
    if is_success res
    then with_file setting dir (setting.file_text index (256 - length dir))
    else (res, [])

unfoldable pub get_log_filepath : Setting → ℕ → Res × Bytes
get_log_filepath setting index = with_dir setting index (setting.dir_text 256)

-- The line ends that the loop of `clog_recoder_file_open_file` counts.
unfoldable pub count_lines : Bytes → ℕ
count_lines [] = 0
count_lines (c ∷ cs) = let n = count_lines cs in if c == b'\n' then suc n else n

module _ (files : Files) where
  -- `clog_recorder_file_param_t` without the interpolators.
  pub record Param : Type 0 where
    pub log : Option files.Handle
    pub metainfo_path : Bytes
    pub metainfo : MetaInfo
    pub split_type : Split
    pub limit : ℕ
    pub current : ℕ

  -- Any write that did not fail counts as a success, the short ones too.
  abbrev pub write_result : Option ℕ × files.Disk → Res × files.Disk
  write_result (none, d) = (fail, d)
  write_result (some n, d) = (success, d)

  -- `clog_file_write` in source/utils/clog_file_system.c, to a file that is open for writing.
  unfoldable pub file_write : files.Disk → Option files.Handle → Bytes → Res × files.Disk
  file_write d none bytes = (invalid_param, d)
  file_write d (some h) [] = (invalid_param, d)
  file_write d (some h) (c ∷ cs) = write_result (files.write d h (c ∷ cs))

  -- `clog_file_close`.
  abbrev pub file_close : files.Disk → Option files.Handle → files.Disk
  file_close d none = d
  file_close d (some h) = files.close d h

  -- The directory of a path, made if it is missing. A string of a buffer of 256 bytes has a directory
  -- that fits one, so that nothing is written outside.
  abbrev pub make_checked : Res × files.Disk → Res × files.Disk
  make_checked (res, d) = if is_made res then (success, d) else (res, d)

  abbrev pub make_dir_of : files.Disk → Written → Res × files.Disk
  make_dir_of d outside = (fail, d)
  make_dir_of d (wrote res dir) =
      if is_success res then make_checked (files.make_dir d dir) else (res, d)

  -- The switch of `clog_recoder_file_open_file`: what it counts in the log. A size that no seek gave is 0.
  unfoldable pub counted : Split → MetaInfo → files.Disk → files.Handle → ℕ → ℕ
  counted unsplit meta d h current = current
  counted by_size meta d h current = elim (files.size_of d h) [ none ↦ 0 | some n ↦ n % 2 ^ 64 ]
  counted by_time meta d h current = meta.timestamp
  counted by_number meta d h current = count_lines (files.bytes d h) % 2 ^ 32

  abbrev pub opened : Param → Option files.Handle × files.Disk → Res × Param × files.Disk
  opened p (none, d) = (fail, record p { log = none }, d)
  opened p (some h, d) = (
    success,
    record p { log = some h; current = counted p.split_type p.metainfo d h p.current },
    d,
  )

  abbrev pub in_dir : Param → Res × files.Disk → Res × Param × files.Disk
  in_dir p (res, d) =
      if is_success res then opened p (files.open_log d p.metainfo.file) else (res, p, d)

  -- `clog_recoder_file_open_file`.
  unfoldable pub open_file : Param → files.Disk → Res × Param × files.Disk
  open_file p d = in_dir p (make_dir_of d (file_get_dir p.metainfo.file 256))

  -- `clog_recorder_file_need_flash`, at a time of the clock.
  unfoldable pub need_flash : Split → ℕ → ℕ → ℕ → Bool
  need_flash unsplit limit current now = false
  need_flash by_size limit current now = leb limit current
  need_flash by_time limit current now = leb limit ((now + 2 ^ 64 - current) % 2 ^ 64)
  need_flash by_number limit current now = leb limit current

  -- What `clog_recorder_check_flush` adds to the count, and its result.
  unfoldable pub added : Split → ℕ → Item → ℕ
  added unsplit current item = current
  added by_size current item = (current + length item.content) % 2 ^ 64
  added by_time current item = current
  added by_number current item = (current + 1) % 2 ^ 32

  unfoldable pub check_flush : Param → Item → Res × Param
  check_flush p item =
      let n = added p.split_type p.current item in
      (
        if need_flash p.split_type p.limit n item.timestamp then request_flush else success,
        record p { current = n },
      )

  abbrev pub checked : Param → Item → Res × files.Disk → Res × Param × files.Disk
  checked p item (res, d) =
      if is_success res then ((check_flush p item).0, (check_flush p item).1, d) else (res, p, d)

  -- `clog_recorder_file_write`.
  unfoldable pub write_item : Param → Item → files.Disk → Res × Param × files.Disk
  write_item p item d = checked p item (file_write d p.log item.content)

  -- The third and the fourth step of `clog_recorder_file_flush`.
  abbrev pub close_old : Option files.Handle → Res × Param × files.Disk → Res × Param × files.Disk
  close_old old (res, p, d) = if is_success res then (success, p, file_close d old) else (res, p, d)

  -- The second: the metainfo to its file, which is closed again.
  abbrev pub save_meta : MetaInfo → Option files.Handle × files.Disk → Res × files.Disk
  save_meta meta (h, d) = (
    (file_write d h (files.bytes_of meta)).0,
    file_close (file_write d h (files.bytes_of meta)).1 h,
  )

  abbrev pub saved : Param → Res × files.Disk → Res × Param × files.Disk
  saved p (res, d) = if is_success res then close_old p.log (open_file p d) else (res, p, d)

  -- The metainfo of the next file.
  abbrev pub next_meta : MetaInfo → Bytes → ℕ → MetaInfo
  next_meta meta path now = record meta {
    file = path;
    timestamp = now;
    file_index = (meta.file_index + 1) % 2 ^ 32;
  }

  abbrev pub flush_to : Param → files.Disk → ℕ → Res × Bytes → Res × Param × files.Disk
  flush_to p d now (res, path) =
      let q = record p { metainfo = next_meta p.metainfo path now } in
      if is_success res
      then saved q (save_meta q.metainfo (files.open_meta d p.metainfo_path))
      else (res, p, d)

  -- `clog_recorder_file_flush`, at a time of the clock. When there is no new path, what the buffer of
  -- the file then holds is not read before it is written, and stays.
  unfoldable pub flush : Setting → ℕ → Param → files.Disk → Res × Param × files.Disk
  flush setting now p d = flush_to p d now (get_log_filepath setting p.metainfo.file_index)

  -- `clog_recorder_file_open`.
  unfoldable pub open_recorder : Setting → ℕ → Param → files.Disk → Res × Param × files.Disk
  open_recorder setting now p d =
      if need_flash p.split_type p.limit p.current now
      then flush setting now p d
      else (success, p, d)

  -- Calls of the recorder's functions, one after the other, the clock's time with those that read it.
  pub data Call : Type 0 where
    writing : Item → Call
    flushing opening : ℕ → Call

  unfoldable pub call : Setting → Call → Param → files.Disk → Res × Param × files.Disk
  call setting (writing item) p d = write_item p item d
  call setting (flushing now) p d = flush setting now p d
  call setting (opening now) p d = open_recorder setting now p d

  unfoldable pub calls : Setting → List Call → Param × files.Disk → Param × files.Disk
  calls setting [] s = s
  calls setting (c ∷ cs) (p, d) = calls setting cs ((call setting c p d).1, (call setting c p d).2)
