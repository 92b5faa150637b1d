-- ===== src/Interpolator/Examples.antt =====
-- Placeholders of source/formatter/clog_log_format_placeholder.c, at one log: `_line`, of line 7, and
-- `_level`, of tag "WA", which keep to their space, and with these `_content`, "hi", and `_ln`.
use casca_log.Base.{
  ℕ, zero, suc, ◌+◌, ◌≤◌, ◌≡◌, refl, [], ◌∷◌, ◌++◌, if◌then◌else◌, ltb, length, arith,
  invalid_param, Bool-cases, inl, inr,
}
use casca_log.Interpolator.{Bytes, Reply, failed, empty, wrote}
use casca_log.Interpolator.Output.{FitsReply}

pub data Bounded : Type 0 where
  line level : Bounded

-- A number asks for six bytes, whatever it needs; a copy ends where the space does.
unfoldable pub bounded : Bounded → ℕ → Reply
bounded line n = if ltb n 6 then failed invalid_param else wrote 1 (b'7' ∷ [])
bounded level zero = empty
bounded level (suc zero) = wrote 1 (b'W' ∷ [])
bounded level (suc (suc n)) = wrote 2 (b'W' ∷ b'A' ∷ [])

pub bounded-FitsReply : (h : Bounded) (n : ℕ) → FitsReply n (bounded h n)
unfolding bounded
bounded-FitsReply line n = elim (Bool-cases (ltb n 6)) [
  | inl short ↦ rw (short, FitsReply) tt
  | inr long ↦ rw (long, FitsReply) (refl, ground (arith, long))
]
bounded-FitsReply level zero = tt
bounded-FitsReply level (suc zero) = (refl, omega arith)
bounded-FitsReply level (suc (suc n)) = (refl, omega arith)

pub data Placeholder : Type 0 where
  within : Bounded → Placeholder
  content ln : Placeholder

-- vsnprintf ends with a NUL what there is room for, and returns the whole length; `_ln` does not look
-- at the room.
unfoldable pub placeholder : Placeholder → ℕ → Reply
placeholder (within h) n = bounded h n
placeholder content zero = wrote 2 []
placeholder content (suc zero) = wrote 2 (0 ∷ [])
placeholder content (suc (suc zero)) = wrote 2 (b'h' ∷ 0 ∷ [])
placeholder content (suc (suc (suc n))) = wrote 2 (b'h' ∷ b'i' ∷ 0 ∷ [])
placeholder ln n = wrote 1 (b'\n' ∷ [])

abbrev pub out : Placeholder → Bytes
out (within line) = b'7' ∷ []
out (within level) = b'W' ∷ b'A' ∷ []
out content = b'h' ∷ b'i' ∷ []
out ln = b'\n' ∷ []

abbrev pub extra : Placeholder → Bytes
extra content = 0 ∷ []
extra _ = []

pub spare : (h : Placeholder) → length (extra h) ≤ 5
spare (within h) = omega arith
spare content = omega arith
spare ln = omega arith

pub writes :
    (h : Placeholder) (n : ℕ)
    → length (out h) + 5 ≤ n
    → placeholder h n ≡ wrote (length (out h)) (out h ++ extra h)
unfolding placeholder bounded
writes (within line) n l = ground (arith, l)
writes (within level) zero l = absurd (omega (arith, l))
writes (within level) (suc zero) l = absurd (omega (arith, l))
writes (within level) (suc (suc n)) l = refl
writes content zero l = absurd (omega (arith, l))
writes content (suc zero) l = absurd (omega (arith, l))
writes content (suc (suc zero)) l = absurd (omega (arith, l))
writes content (suc (suc (suc n))) l = refl
writes ln n l = refl
