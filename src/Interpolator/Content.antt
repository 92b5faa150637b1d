-- ===== src/Interpolator/Content.antt =====
-- `clog_interpolator_interpolate`: the text that it leaves in the buffer, when all of it fits.
use casca_log.Base.{
  ℕ, ◌+◌, ◌^◌, ◌≤◌, ◌<◌, ◌≡◌, ◌≢◌, some, List, [], ◌∷◌, ◌++◌, length, take, success,
}
use casca_log.Interpolator.{Bytes, Piece, pure, handler, Reply, wrote, Outcome, result}

-- The text of a template whose handlers write `out`.
unfoldable pub text_of : {H : Type 0} → (H → Bytes) → List (Piece H) → Bytes
text_of out [] = []
text_of out (pure s ∷ ps) = s ++ text_of out ps
text_of out (handler h ∷ ps) = out h ++ text_of out ps

-- No piece of text is empty: `clog_interpolator_parse` makes none that is.
abbrev pub IsFilled : {H : Type 0} → List (Piece H) → Type 0
IsFilled [] = Unit {0}
IsFilled (pure s ∷ ps) = (s ≢ []) × IsFilled ps
IsFilled (handler h ∷ ps) = IsFilled ps

module _ {H : Type 0} (run : H → ℕ → Reply) (size : ℕ) (small : size < 2 ^ 64) (room : 1 < size)
    (out extra : H → Bytes) (slack : ℕ) (spare : (h : H) → length (extra h) ≤ slack)
    (writes : (h : H) (n : ℕ)
      → length (out h) + slack ≤ n
      → run h n ≡ wrote (length (out h)) (out h ++ extra h)) where
  -- The rest of the loop leaves the text behind what is there, and its NUL.
  record Leaves (text buf : Bytes) (offset : ℕ) (o : Outcome) : Type 0 where
    final : Bytes
    returns : o ≡ result success final (some (offset + length text))
    content : take (offset + length text + 1) final ≡ take offset buf ++ (text ++ 0 ∷ [])
