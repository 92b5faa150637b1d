-- ===== src/Recorder/Create.antt =====
-- Creating a recorder of source/recorder/clog_recorder_file.c from its attributes.
use casca_log.Base.{
  ℕ, ◌*◌, ◌%◌, ◌^◌, Option, none, some, [], if◌then◌else◌, Res, fail, is_success, Alloc, next,
}
use casca_log.FileSystem.{Bytes, normalize, file_get_dir}
use casca_log.Recorder.{
  Split, unsplit, by_size, by_time, by_number, MetaInfo, Files, Setting, get_log_filepath, Param,
  file_close, make_dir_of, open_file, save_meta,
}

module _ (files : Files) where
  -- The branch of `clog_recorder_file_init_meta_info` without a metainfo file.
  abbrev pub save_first :
      Param files → Option files.Handle × files.Disk → Res × Param files × files.Disk
  save_first p (none, d) = (fail, p, d)
  save_first p (some h, d) =
      ((save_meta files p.metainfo (some h, d)).0, p, (save_meta files p.metainfo (some h, d)).1)

  abbrev pub first_dir : Param files → Res × files.Disk → Res × Param files × files.Disk
  first_dir p (res, d) =
      if is_success res then save_first p (files.open_meta d p.metainfo_path) else (res, p, d)

  abbrev pub first_meta : Param files → files.Disk → Res × Bytes → Res × Param files × files.Disk
  first_meta p d (res, path) =
      if is_success res
      then first_dir
          (record p { metainfo = record p.metainfo { version = 1; file_index = 1; file = path } })
          (make_dir_of files d (file_get_dir p.metainfo_path 256))
      else (res, p, d)

  abbrev pub meta_read : Param files → files.Disk → Res × MetaInfo → Res × Param files × files.Disk
  meta_read p d (res, meta) = (res, record p { metainfo = meta }, d)

  -- Its two branches.
  abbrev pub init_by :
      Setting → Param files → Option files.Handle × files.Disk → Res × Param files × files.Disk
  init_by setting p (none, d) = first_meta p d (get_log_filepath setting 0)
  init_by setting p (some h, d) = meta_read p (files.close d h) (files.read_meta d h p.metainfo)

  abbrev pub init_at :
      Setting → Param files → files.Disk → Res × Bytes → Res × Param files × files.Disk
  init_at setting p d (res, path) =
      if is_success res
      then init_by setting (record p { metainfo_path = path }) (files.open_read d path)
      else (res, p, d)

  -- `clog_recorder_file_init_meta_info`, by the text that the attribute's template gives.
  unfoldable pub init_meta_info :
      Setting → Res × Bytes → Param files → files.Disk → Res × Param files × files.Disk
  init_meta_info setting (res, text) p d =
      if is_success res
      then init_at setting p d (normalize setting.alloc setting.cwd text 256)
      else (res, p, d)

  -- `clog_recorder_file_init_split`: the number that the split has as its limit.
  unfoldable pub init_split : Split → ℕ → ℕ
  init_split unsplit value = 0
  init_split by_size value = value
  init_split by_time value = value * 1000 % 2 ^ 64
  init_split by_number value = value % 2 ^ 32

  abbrev pub then_open : Res × Param files × files.Disk → Res × Param files × files.Disk
  then_open (res, p, d) = if is_success res then open_file files p d else (res, p, d)

  -- `clog_recorder_file_init_param`, by the result of what comes before the metainfo: placeholders,
  -- context and the parsing of the two templates.
  unfoldable pub init_param :
      Setting → Res → Res × Bytes → Param files → files.Disk → Res × Param files × files.Disk
  init_param setting parsed text p d =
      if is_success parsed then then_open (init_meta_info setting text p d) else (parsed, p, d)

  -- All of `param` is set to zero, and init_split sets a limit.
  abbrev pub zeroed : ℕ → Param files
  zeroed limit = record {
    log = none;
    metainfo_path = [];
    metainfo = record { version = 0; file_index = 0; file = []; timestamp = 0 };
    split_type = unsplit;
    limit = limit;
    current = 0;
  }

  abbrev pub made_param : Res × Param files × files.Disk → Option (Param files) × files.Disk
  made_param (res, p, d) = if is_success res then (some p, d) else (none, file_close files d p.log)

  -- `clog_recorder_file_param_init`.
  unfoldable pub param_init :
      Alloc
      → Setting
      → Split
      → ℕ
      → Res
      → Res × Bytes
      → files.Disk
      → Option (Param files) × files.Disk
  param_init a setting split value parsed text d =
      if a 0
      then made_param (init_param setting parsed text (zeroed (init_split split value)) d)
      else (none, d)

  -- `clog_recorder_file_create`, of attributes that are there: the parameter of the recorder.
  unfoldable pub create :
      Alloc
      → Setting
      → Split
      → ℕ
      → Res
      → Res × Bytes
      → files.Disk
      → Option (Param files) × files.Disk
  create a setting split value parsed text d =
      if a 0 then param_init (next a) setting split value parsed text d else (none, d)
