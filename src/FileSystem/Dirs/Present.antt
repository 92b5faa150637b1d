-- ===== src/FileSystem/Dirs/Present.antt =====
-- `clog_dir_create`: the directories that are there when it succeeds.
use casca_log.Base.{◌≡◌, Bool, true, ◌⊎◌, [], ◌∷◌, ◌++◌, ◌==◌, Res}
use casca_log.FileSystem.{Bytes}
use casca_log.FileSystem.Dirs.{absent, directory, exists, FileSys, is_made}

-- Behind a name of a path: a slash or the end.
abbrev pub at_name_end : Bytes → Bool
at_name_end [] = true
at_name_end (c ∷ cs) = c == b'/'

module _ (fs : FileSys) where
  -- A directory; or a name that mkdir takes for one that exists although stat does not find it, as it is
  -- with a symbolic link to nothing.
  abbrev pub IsThere : fs.Disk → Bytes → Type 0
  IsThere t path =
      (fs.stat t path ≡ directory)
      ⊎ ((u : fs.Disk) × (fs.stat u path ≡ absent) × ((fs.mkdir u path).0 ≡ exists))

  -- The whole path, and what stands in front of each slash of its rest, is there.
  abbrev AllDirs : fs.Disk → Bytes → Bytes → Type 0
  AllDirs s before [] = IsThere s before
  AllDirs s before (c ∷ cs) =
      ((c == b'/') ≡ true → IsThere s before) × AllDirs s (before ++ c ∷ []) cs

  -- The same of a normal path, but for the root.
  abbrev PathDirs : fs.Disk → Bytes → Type 0
  PathDirs s [] = Unit
  PathDirs s (c ∷ []) = Unit
  PathDirs s (c ∷ d ∷ cs) = AllDirs s (c ∷ []) (d ∷ cs)

  abbrev Keeps : fs.Disk → fs.Disk → Type 0
  Keeps s t = (q : Bytes) → fs.stat s q ≡ directory → fs.stat t q ≡ directory

  abbrev Creates : fs.Disk → Bytes → Res × fs.Disk → Type 0
  Creates s path (res, t) = Keeps s t × (is_made res ≡ true → IsThere t path)

  abbrev Done : fs.Disk → Bytes → Bytes → Res × fs.Disk → Type 0
  Done s before cs (res, t) = Keeps s t × (is_made res ≡ true → AllDirs t before cs)

  abbrev Present : fs.Disk → Bytes → Res × fs.Disk → Type 0
  Present s path (res, t) = Keeps s t × (is_made res ≡ true → PathDirs t path)
