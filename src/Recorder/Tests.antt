-- ===== src/Recorder/Tests.antt =====
-- A recorder of source/recorder/clog_recorder_file.c on a small disk, and the theorems at it.
use casca_log.Base.{
  ℕ, ◌≡◌, ◌≢◌, refl, Option, none, some, [], ◌∷◌, ◌++◌, plenty, success, fail, length,
  request_flush, already_existed, update,
}
use casca_log.FileSystem.{
  Bytes, create_path_node, scan, write_names, get_unnormalized_abs_path, normalize, split_last,
  file_get_dir,
}
use casca_log.Interpolator.{strcpy, space}
use casca_log.Recorder.{
  unsplit, by_number, Files, Setting, Item, get_log_filepath, Param, file_write, counted, open_file,
  write_item, writing, calls,
}
use casca_log.Recorder.Create.{init_meta_info, init_split, init_param, param_init, create}
use casca_log.Recorder.Created.{create-calls}

-- What the file of each handle holds: 0 is that of the metainfo, 1 the log.
abbrev Contents : Type 0
Contents = ℕ → Bytes

abbrev disk : Files
disk = record {
  Disk = Contents;
  Handle = ℕ;
  open_log = λ d path. (some 1, d);
  open_meta = λ d path. (some 0, update d 0 []);
  open_read = λ d path. (none, d);
  make_dir = λ d path. (already_existed, d);
  write = λ d h bytes. (some (length bytes), update d h (d h ++ bytes));
  read_meta = λ d h meta. (fail, meta);
  close = λ d h. d;
  bytes_of = λ meta. meta.file_index ∷ [];
  size_of = λ d h. some (length (d h));
  bytes = λ d h. d h;
}

-- The directory "/a/" and the file "b".
abbrev setting : Setting
setting = record {
  alloc = plenty;
  cwd = (success, []);
  dir_text = λ n. (success, b'/' ∷ b'a' ∷ b'/' ∷ []);
  file_text = λ index n. (success, b'b' ∷ []);
}

abbrev line : Item
line = record { content = b'x' ∷ b'\n' ∷ []; timestamp = 5 }

abbrev blank : Contents
blank h = []

-- What a split by 2 lines, on the empty disk, makes of it.
abbrev made : Option (Param disk) × Contents
made = create disk plenty setting by_number 2 success (success, b'/' ∷ b'm' ∷ []) blank

abbrev the_param : Param disk
the_param = record {
  log = some 1;
  metainfo_path = b'/' ∷ b'm' ∷ [];
  metainfo = record {
    version = 1;
    file_index = 1;
    file = b'/' ∷ b'a' ∷ b'/' ∷ b'b' ∷ [];
    timestamp = 0;
  };
  split_type = unsplit;
  limit = 2;
  current = 0;
}

abbrev with_meta : Contents
with_meta = update (update blank 0 []) 0 (update blank 0 [] 0 ++ 1 ∷ [])

made_plain : made ≡ (some the_param, with_meta)
unfolding create param_init init_param init_meta_info init_split open_file counted get_log_filepath
    normalize get_unnormalized_abs_path scan create_path_node write_names strcpy space split_last
    file_get_dir file_write
made_plain = refl

-- Two lines are written, and a third asks for nothing.
create-calls_example :
    let (q, d) = calls disk setting (writing line ∷ writing line ∷ []) (the_param, with_meta) in
    (write_item disk q line d).0 ≢ request_flush
create-calls_example =
    create-calls disk plenty setting by_number 2 success (success, b'/' ∷ b'm' ∷ []) blank with_meta
      the_param (writing line ∷ writing line ∷ []) line made_plain
