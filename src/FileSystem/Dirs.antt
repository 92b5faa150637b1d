-- ===== src/FileSystem/Dirs.antt =====
-- `clog_dir_create` in source/utils/clog_file_system.c, over the file system of the machine.
--
-- stat and mkdir are the operations of a record: what a name is, and what mkdir answers. The laws are
-- what their manuals say: mkdir that succeeds makes a directory, and mkdir takes no directory away.
pub mod Present
use casca_log.Base.{
  ℕ, ◌<◌, ◌≡◌, ◌≢◌, refl, sym, ap, ◌∙◌, Bool, true, false, ◌⊎◌, inl, inr, List, [], ◌∷◌, ◌++◌,
  if◌then◌else◌, ◌==◌, Res, success, fail, busy, already_existed, is_success, Alloc, Bool-cases,
  arith,
}
use casca_log.FileSystem.{Bytes, normalize}

-- What stat finds: nothing, a directory or something else.
pub data Kind : Type 0 where
  absent directory other_file : Kind

-- What mkdir answers: 0, or -1 with errno EEXIST or another.
pub data Made : Type 0 where
  made exists refused : Made

pub record FileSys : Type 1 where
  pub Disk : Type 0
  pub stat : Disk → Bytes → Kind
  pub mkdir : Disk → Bytes → Made × Disk
  pub made-directory :
      (s : Disk) (p : Bytes) → (mkdir s p).0 ≡ made → stat (mkdir s p).1 p ≡ directory
  pub mkdir_keeps :
      (s : Disk) (p q : Bytes) → stat s q ≡ directory → stat (mkdir s p).1 q ≡ directory

-- Whether the loop goes on.
abbrev pub is_made : Res → Bool
is_made success = true
is_made already_existed = true
is_made _ = false

module _ (fs : FileSys) where
  abbrev pub mkdir_result : Made × fs.Disk → Res × fs.Disk
  mkdir_result (made, s) = (success, s)
  mkdir_result (exists, s) = (already_existed, s)
  mkdir_result (refused, s) = (fail, s)

  abbrev pub stat_first : Kind → fs.Disk → Bytes → Res × fs.Disk
  stat_first absent s path = mkdir_result (fs.mkdir s path)
  stat_first directory s path = (already_existed, s)
  stat_first other_file s path = (busy, s)

  -- stat, mkdir and the tests on their results, the same in the loop and behind it.
  unfoldable pub create_one : fs.Disk → Bytes → Res × fs.Disk
  create_one s path = stat_first (fs.stat s path) s path

  abbrev pub then_on : Res × fs.Disk → (fs.Disk → Res × fs.Disk) → Res × fs.Disk
  then_on (res, s) more = if is_made res then more s else (res, s)

  -- The loop over the normal path: what stands in front of `p`, and the rest.
  unfoldable pub create_loop : fs.Disk → Bytes → Bytes → Res × fs.Disk
  create_loop s before [] = create_one s before
  create_loop s before (c ∷ cs) =
      let parent = then_on (create_one s before) (λ s'. create_loop s' (before ++ c ∷ []) cs) in
      let plain = create_loop s (before ++ c ∷ []) cs in if c == b'/' then parent else plain

  -- A normal path is never empty.
  abbrev pub create_path : fs.Disk → Bytes → Res × fs.Disk
  create_path s [] = (success, s)
  create_path s (c ∷ []) = (already_existed, s)
  create_path s (c ∷ d ∷ cs) = create_loop s (c ∷ []) (d ∷ cs)

  abbrev pub create_normal : fs.Disk → Res × Bytes → Res × fs.Disk
  create_normal s (res, path) = if is_success res then create_path s path else (res, s)

  -- `clog_dir_create`, with CASCA_LOG_FILEPATH_MAX_SIZE as it is by default.
  unfoldable pub dir_create : Alloc → Res × Bytes → fs.Disk → Bytes → Res × fs.Disk
  dir_create a cwd s path = create_normal s (normalize a cwd path 256)
