-- ===== src/Recorder/Codes.antt =====
-- The codes of a write to the file of a recorder.
use casca_log.Base.{
  ℕ, ◌≡◌, ◌≢◌, refl, ◌⊎◌, inl, inr, Option, none, some, [], ◌∷◌, Res, success, fail, invalid_param,
  request_flush,
}
use casca_log.FileSystem.{Bytes}
use casca_log.Recorder.{Files, write_result, file_write}

-- The codes of `clog_file_write`.
abbrev pub IsWritten : Res → Type 0
IsWritten res = (res ≡ success) ⊎ ((res ≡ fail) ⊎ (res ≡ invalid_param))

pub not_asked : (res : Res) → IsWritten res → res ≢ request_flush
not_asked res (inl e) f = absurd cc
not_asked res (inr (inl e)) f = absurd cc
not_asked res (inr (inr e)) f = absurd cc

module _ (files : Files) where
  result-IsWritten : (r : Option ℕ × files.Disk) → IsWritten (write_result files r).0
  result-IsWritten (some n, d) = inl refl
  result-IsWritten (none, d) = inr (inl refl)

  pub file_write-IsWritten :
      (d : files.Disk) (h : Option files.Handle) (bytes : Bytes)
      → IsWritten (file_write files d h bytes).0
  unfolding file_write
  file_write-IsWritten d none bytes = inr (inr refl)
  file_write-IsWritten d (some h) [] = inr (inr refl)
  file_write-IsWritten d (some h) (c ∷ cs) = result-IsWritten (files.write d h (c ∷ cs))
