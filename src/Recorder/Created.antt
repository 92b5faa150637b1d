-- ===== src/Recorder/Created.antt =====
-- The recorder that `clog_recorder_file_create` makes, whatever its attributes ask for.
use casca_log.Base.{
  ℕ, ◌≡◌, ◌≢◌, refl, Bool, inl, inr, Option, none, some, List, [], ◌∷◌, if◌then◌else◌, Res, success,
  request_flush, is_success, Alloc, Bool-cases, if_cases,
}
use mathlib.Core.Path.{subst}
use casca_log.FileSystem.{Bytes, normalize, file_get_dir}
use casca_log.Recorder.Codes.{not_asked, file_write-IsWritten}
use casca_log.Recorder.{
  Split, unsplit, Files, Setting, Item, get_log_filepath, Param, file_write, file_close,
  make_dir_of, opened, in_dir, open_file, need_flash, check_flush, checked, write_item, close_old,
  saved, flush_to, flush, open_recorder, Call, writing, flushing, opening, call, calls,
}
use casca_log.Recorder.Create.{
  save_first, first_dir, first_meta, init_by, init_at, init_meta_info, then_open, init_param,
  zeroed, made_param, param_init, create, init_split,
}

module _ (files : Files) where
  -- What a function leaves does not split.
  abbrev Stays : Res × Param files × files.Disk → Type 0
  Stays (res, p, d) = p.split_type ≡ unsplit

  either :
      (b : Bool) (x y : Res × Param files × files.Disk)
      → Stays x
      → Stays y
      → Stays (if b then x else y)
  either b x y s t = if_cases Stays b x y (λ e. s) (λ e. t)

  opened-Stays :
      (p : Param files) (r : Option files.Handle × files.Disk)
      → p.split_type ≡ unsplit
      → Stays (opened files p r)
  opened-Stays p (none, d) e = e
  opened-Stays p (some h, d) e = e

  in_dir-Stays :
      (p : Param files) (r : Res × files.Disk) → p.split_type ≡ unsplit → Stays (in_dir files p r)
  in_dir-Stays p (res, d) e =
      either (is_success res) (opened files p (files.open_log d p.metainfo.file)) (res, p, d)
        (opened-Stays p (files.open_log d p.metainfo.file) e) e

  open_file-Stays :
      (p : Param files) (d : files.Disk) → p.split_type ≡ unsplit → Stays (open_file files p d)
  unfolding open_file
  open_file-Stays p d e = in_dir-Stays p (make_dir_of files d (file_get_dir p.metainfo.file 256)) e

  close_old-Stays :
      (old : Option files.Handle) (r : Res × Param files × files.Disk)
      → Stays r
      → Stays (close_old files old r)
  close_old-Stays old (res, p, d) e =
      either (is_success res) (success, p, file_close files d old) (res, p, d) e e

  saved-Stays :
      (p : Param files) (r : Res × files.Disk) → p.split_type ≡ unsplit → Stays (saved files p r)
  saved-Stays p (res, d) e =
      either (is_success res) (close_old files p.log (open_file files p d)) (res, p, d)
        (close_old-Stays p.log (open_file files p d) (open_file-Stays p d e)) e

  flush_to-Stays :
      (p : Param files) (d : files.Disk) (now : ℕ) (r : Res × Bytes)
      → p.split_type ≡ unsplit
      → Stays (flush_to files p d now r)
  flush_to-Stays p d now (res, path) e = elim (Bool-cases (is_success res)) [
    | inl ok ↦ rw ok (saved-Stays _ _ e)
    | inr bad ↦ rw bad e
  ]

  flush-Stays :
      (setting : Setting) (now : ℕ) (p : Param files) (d : files.Disk)
      → p.split_type ≡ unsplit
      → Stays (flush files setting now p d)
  unfolding flush
  flush-Stays setting now p d e =
      flush_to-Stays p d now (get_log_filepath setting p.metainfo.file_index) e

  checked-Stays :
      (p : Param files) (item : Item) (r : Res × files.Disk)
      → p.split_type ≡ unsplit
      → Stays (checked files p item r)
  unfolding check_flush
  checked-Stays p item (res, d) e = elim (Bool-cases (is_success res)) [
    | inl ok ↦ rw ok e
    | inr bad ↦ rw bad e
  ]

  write_item-Stays :
      (p : Param files) (item : Item) (d : files.Disk)
      → p.split_type ≡ unsplit
      → Stays (write_item files p item d)
  unfolding write_item
  write_item-Stays p item d e = checked-Stays p item (file_write files d p.log item.content) e

  call-Stays :
      (setting : Setting) (c : Call files) (p : Param files) (d : files.Disk)
      → p.split_type ≡ unsplit
      → Stays (call files setting c p d)
  unfolding call open_recorder
  call-Stays setting (writing item) p d e = write_item-Stays p item d e
  call-Stays setting (flushing now) p d e = flush-Stays setting now p d e
  call-Stays setting (opening now) p d e =
      either (need_flash files p.split_type p.limit p.current now) (flush files setting now p d)
        (success, p, d) (flush-Stays setting now p d e) e

  calls-Stays :
      (setting : Setting) (cs : List (Call files)) (p : Param files) (d : files.Disk)
      → p.split_type ≡ unsplit
      → (calls files setting cs (p, d)).0.split_type ≡ unsplit
  unfolding calls
  calls-Stays setting [] p d e = e
  calls-Stays setting (c ∷ cs) p d e =
      calls-Stays setting cs (call files setting c p d).1 (call files setting c p d).2
        (call-Stays setting c p d e)

  save_first-Stays :
      (p : Param files) (r : Option files.Handle × files.Disk)
      → p.split_type ≡ unsplit
      → Stays (save_first files p r)
  save_first-Stays p (none, d) e = e
  save_first-Stays p (some h, d) e = e

  first_dir-Stays :
      (p : Param files) (r : Res × files.Disk)
      → p.split_type ≡ unsplit
      → Stays (first_dir files p r)
  first_dir-Stays p (res, d) e =
      either (is_success res) (save_first files p (files.open_meta d p.metainfo_path)) (res, p, d)
        (save_first-Stays p (files.open_meta d p.metainfo_path) e) e

  first_meta-Stays :
      (p : Param files) (d : files.Disk) (r : Res × Bytes)
      → p.split_type ≡ unsplit
      → Stays (first_meta files p d r)
  first_meta-Stays p d (res, path) e = elim (Bool-cases (is_success res)) [
    | inl ok ↦ rw ok (first_dir-Stays _ (make_dir_of files d (file_get_dir p.metainfo_path 256)) e)
    | inr bad ↦ rw bad e
  ]

  init_by-Stays :
      (setting : Setting) (p : Param files) (r : Option files.Handle × files.Disk)
      → p.split_type ≡ unsplit
      → Stays (init_by files setting p r)
  init_by-Stays setting p (none, d) e = first_meta-Stays p d (get_log_filepath setting 0) e
  init_by-Stays setting p (some h, d) e = e

  init_at-Stays :
      (setting : Setting) (p : Param files) (d : files.Disk) (r : Res × Bytes)
      → p.split_type ≡ unsplit
      → Stays (init_at files setting p d r)
  init_at-Stays setting p d (res, path) e = elim (Bool-cases (is_success res)) [
    | inl ok ↦ rw ok (init_by-Stays setting _ (files.open_read d path) e)
    | inr bad ↦ rw bad e
  ]

  init_meta_info-Stays :
      (setting : Setting) (text : Res × Bytes) (p : Param files) (d : files.Disk)
      → p.split_type ≡ unsplit
      → Stays (init_meta_info files setting text p d)
  unfolding init_meta_info
  init_meta_info-Stays setting (res, text) p d e = elim (Bool-cases (is_success res)) [
    | inl ok ↦ rw ok (init_at-Stays setting p d (normalize setting.alloc setting.cwd text 256) e)
    | inr bad ↦ rw bad e
  ]

  then_open-Stays : (r : Res × Param files × files.Disk) → Stays r → Stays (then_open files r)
  then_open-Stays (res, p, d) e =
      either (is_success res) (open_file files p d) (res, p, d) (open_file-Stays p d e) e

  init_param-Stays :
      (setting : Setting) (parsed : Res) (text : Res × Bytes) (p : Param files) (d : files.Disk)
      → p.split_type ≡ unsplit
      → Stays (init_param files setting parsed text p d)
  unfolding init_param
  init_param-Stays setting parsed text p d e =
      either (is_success parsed) (then_open files (init_meta_info files setting text p d))
        (parsed, p, d)
        (then_open-Stays (init_meta_info files setting text p d)
          (init_meta_info-Stays setting text p d e))
        e

  abbrev IsPlain : Option (Param files) × files.Disk → Type 0
  IsPlain (none, d) = Unit
  IsPlain (some p, d) = p.split_type ≡ unsplit

  made_param-IsPlain : (r : Res × Param files × files.Disk) → Stays r → IsPlain (made_param files r)
  made_param-IsPlain (res, p, d) e = elim (Bool-cases (is_success res)) [
    | inl ok ↦ rw ok e
    | inr bad ↦ rw bad tt
  ]

  create-IsPlain :
      (a : Alloc) (setting : Setting) (split : Split) (value : ℕ) (parsed : Res)
      (text : Res × Bytes) (d : files.Disk)
      → IsPlain (create files a setting split value parsed text d)
  unfolding create param_init
  create-IsPlain a setting split value parsed text d = elim (Bool-cases (a 0)) [
    | inr bad ↦ rw bad tt
    | inl ok ↦ elim (Bool-cases (a 1)) [
      | inr bad ↦ rw (ok, bad) tt
      | inl room ↦
          rw (ok, room)
            (made_param-IsPlain
              (init_param files setting parsed text (zeroed files (init_split files split value)) d)
              (init_param-Stays setting parsed text (zeroed files (init_split files split value)) d
                refl))
    ]
  ]

  checked_unsplit :
      (p : Param files) (item : Item) (r : Res × files.Disk)
      → p.split_type ≡ unsplit
      → r.0 ≢ request_flush
      → (checked files p item r).0 ≢ request_flush
  unfolding check_flush need_flash
  checked_unsplit p item (res, d) e n f = elim (Bool-cases (is_success res)) [
    | inl ok ↦ absurd (let g = rw (ok, need_flash, e) at f in cc)
    | inr bad ↦ n (rw bad at f)
  ]

  writing_unsplit :
      (p : Param files) (item : Item) (d : files.Disk)
      → p.split_type ≡ unsplit
      → (write_item files p item d).0 ≢ request_flush
  unfolding write_item
  writing_unsplit p item d e =
      checked_unsplit p item (file_write files d p.log item.content) e
        (not_asked _ (file_write-IsWritten files d p.log item.content))

  -- A recorder that `clog_recorder_file_create` made, whatever way to split and whatever limit its
  -- attributes ask for: after any calls of its functions, a write does not ask for a flush.
  pub create-calls :
      (a : Alloc) (setting : Setting) (split : Split) (value : ℕ) (parsed : Res)
      (text : Res × Bytes) (d e : files.Disk) (p : Param files) (cs : List (Call files))
      (item : Item)
      → create files a setting split value parsed text d ≡ (some p, e)
      → let (q, f) = calls files setting cs (p, e) in (write_item files q item f).0 ≢ request_flush
  create-calls a setting split value parsed text d e p cs item h =
      writing_unsplit (calls files setting cs (p, e)).0 item (calls files setting cs (p, e)).1 (
        calls-Stays setting cs p e
          (subst IsPlain h (create-IsPlain a setting split value parsed text d)))
