-- ===== src/Interpolator/Output.antt =====
-- `clog_interpolator_interpolate`: where it writes, and what.
use casca_log.Base.{
  ℕ, ◌+◌, ◌-◌, ◌^◌, ◌≤◌, ◌<◌, ◌≡◌, sym, ◌∙◌, ap, true, false, none, some, List, [], ◌∷◌, ◌++◌,
  length, take, drop, Res, success, no_memory, is_success, arith, Bool-cases, inl, inr,
  length-append, length-take, length-drop, take-append, leb, ◌==◌, length-take-le,
}
use Prim.Native.Nat.{min}
use mathlib.Core.Path.{subst}
use mathlib.Core.List.{append_assoc}
use casca_log.Interpolator.{
  Bytes, Piece, pure, handler, Reply, failed, empty, wrote, Outcome, result, overflow, write_at,
  space, strcpy, give_up, on_reply, terminate, loop, interpolate,
}

pub written : Bytes → ℕ → Bytes → Bytes
written buf offset bytes = take offset buf ++ bytes ++ drop (offset + length bytes) buf

pub write_at-written :
    (buf : Bytes) (offset : ℕ) (bytes : Bytes)
    → offset + length bytes ≤ length buf
    → (write_at buf offset bytes ≡ some (written buf offset bytes))
      × (length (written buf offset bytes) ≡ length buf)
unfolding write_at written
write_at-written buf offset bytes h = (
  ground arith,
  omega (
    arith,
    length-append (take offset buf ++ bytes) (drop (offset + length bytes) buf),
    length-append (take offset buf) bytes,
    length-take offset buf (omega arith),
    length-drop (offset + length bytes) buf h,
  ),
)

-- The bytes up to the end of what was written.
pub take-written :
    (buf : Bytes) (offset : ℕ) (front back : Bytes)
    → offset + length (front ++ back) ≤ length buf
    → take (offset + length front) (written buf offset (front ++ back)) ≡ take offset buf ++ front
unfolding written
take-written buf offset front back h =
    let done = take offset buf ++ front in
    let rest = drop (offset + length (front ++ back)) buf in
    let n : length done ≡ offset + length front = omega (
      arith,
      length-append (take offset buf) front,
      length-append front back,
      length-take offset buf (omega (arith, length-append front back)),
    ) in
    ap (λ k. take k (written buf offset (front ++ back))) (sym n)
    ∙ ap (take (length done)) (
        ap (λ l. l ++ rest) (sym (append_assoc (take offset buf) front back))
        ∙ append_assoc done back rest)
    ∙ take-append done (back ++ rest)

-- What is known of an outcome: it is no overflow, the buffer keeps its size, and the length set, if
-- any, leaves room for the NUL.
abbrev pub IsSafe : ℕ → Outcome → Type 0
IsSafe size overflow = ⊥
IsSafe size (result res buf none) = length buf ≡ size
IsSafe size (result res buf (some n)) = (length buf ≡ size) × (n < size)

-- A handler keeps to the space that it is given, and returns what it wrote.
abbrev pub FitsReply : ℕ → Reply → Type 0
FitsReply n (wrote ret bytes) = (ret ≡ length bytes) × (length bytes ≤ n)
FitsReply n _ = Unit {0}

pub space-sub :
    (size offset : ℕ) → size < 2 ^ 64 → offset ≤ size → space size offset ≡ size - offset
unfolding space
space-sub size offset h k = omega arith

length-strcpy : (n : ℕ) (s : Bytes) → length (strcpy n s).1 ≤ n
unfolding strcpy
length-strcpy n s = elim (Bool-cases (n == 0)) [
  | inl z ↦ rw z (omega arith)
  | inr p ↦ rw p (
      omega (
        arith,
        length-append (take (min (length s) (n - 1)) s) (0 ∷ []),
        length-take-le (min (length s) (n - 1)) s,
        pos n p,
      ))
]
  where
    pos : (k : ℕ) → (k == 0) ≡ false → 0 < k
    pos k p = ground arith

strcpy-success : (n : ℕ) (s : Bytes) → is_success (strcpy n s).0 ≡ true → length s < n
unfolding strcpy
strcpy-success n s h = ground arith

module _ {H : Type 0} (run : H → ℕ → Reply) (size : ℕ) (small : size < 2 ^ 64)
    (room : 1 < size) where
  give_up-IsSafe : (res : Res) (buf : Bytes) → length buf ≡ size → IsSafe size (give_up res buf)
  give_up-IsSafe res buf l =
      let (e, k) = write_at-written buf 0 (0 ∷ []) (omega arith) in rw (e, IsSafe) (k ∙ l)

  terminate-IsSafe :
      (buf : Bytes) (offset : ℕ) → length buf ≡ size → IsSafe size (terminate run size buf offset)
  unfolding terminate
  terminate-IsSafe buf offset l = elim (Bool-cases (leb size offset)) [
    | inl y ↦ rw (y, IsSafe) (give_up-IsSafe no_memory buf l)
    | inr n ↦
        let inside : offset < size = ground arith in
        let (e, k) = write_at-written buf offset (0 ∷ []) (omega arith) in
        rw (n, e, IsSafe) (k ∙ l, inside)
  ]

  -- A reply that fits the space left is followed by the rest at a place inside the buffer.
  on_reply-IsSafe :
      (r : Reply) (buf : Bytes) (offset : ℕ) (rest : Bytes → ℕ → Outcome)
      → FitsReply (size - offset) r
      → length buf ≡ size
      → offset ≤ size
      → ((buf' : Bytes) (o : ℕ) → length buf' ≡ size → o ≤ size → IsSafe size (rest buf' o))
      → IsSafe size (on_reply r buf offset rest)
  on_reply-IsSafe (failed res) buf offset rest f l h next_safe = give_up-IsSafe res buf l
  on_reply-IsSafe empty buf offset rest f l h next_safe = give_up-IsSafe success buf l
  on_reply-IsSafe (wrote ret bytes) buf offset rest f l h next_safe =
      let (e, k) = write_at-written buf offset bytes (omega arith) in
      rw (e, IsSafe) (next_safe (written buf offset bytes) (offset + ret) (k ∙ l) (omega arith))

  module _ (fits : (h : H) (n : ℕ) → FitsReply n (run h n)) where
    loop-IsSafe :
        (ps : List (Piece H)) (buf : Bytes) (offset : ℕ)
        → length buf ≡ size
        → offset ≤ size
        → IsSafe size (loop run size ps buf offset)
    unfolding loop
    loop-IsSafe [] buf offset l h = terminate-IsSafe buf offset l
    loop-IsSafe (pure s ∷ ps) buf offset l h =
        let n = space size offset in
        let sub = space-sub size offset small h in
        let (e, k) =
          write_at-written buf offset (strcpy n s).1 (omega (arith, sub, length-strcpy n s)) in
        let buf' = written buf offset (strcpy n s).1 in
        elim (Bool-cases (is_success (strcpy n s).0)) [
          | inl y ↦
              rw (e, y, IsSafe)
                (loop-IsSafe ps buf' (offset + length s) (k ∙ l)
                  (omega (arith, sub, strcpy-success n s y)))
          | inr f ↦ rw (e, f, IsSafe) (give_up-IsSafe (strcpy n s).0 buf' (k ∙ l))
        ]
    loop-IsSafe (handler x ∷ ps) buf offset l h =
        on_reply-IsSafe (run x (space size offset)) buf offset (loop run size ps)
          (subst (λ n. FitsReply n (run x (space size offset))) (space-sub size offset small h)
            (fits x (space size offset)))
          l h (λ buf' o l' h'. loop-IsSafe ps buf' o l' h')

    -- With handlers that keep to the space they are given, no byte is written outside the buffer,
    -- whatever the template; the length reported leaves room for the NUL.
    pub interpolate-IsSafe :
        (ps : List (Piece H)) (buf : Bytes)
        → length buf ≡ size
        → IsSafe size (interpolate run size ps buf)
    unfolding interpolate
    interpolate-IsSafe ps buf l =
        let big : leb size 1 ≡ false = ground arith in
        rw (big, IsSafe) (loop-IsSafe ps buf 0 l (omega arith))

  -- A handler that returns what it would have written, as `vsnprintf` does, and a handler after it
  -- that writes one byte: if the former did not fit, the latter writes outside the buffer.
  pub interpolate-overflow :
      (x y : H) (ps : List (Piece H)) (buf bytes : Bytes) (ret : ℕ)
      → length buf ≡ size
      → run x size ≡ wrote ret bytes
      → length bytes ≤ size
      → size ≤ ret
      → ((n : ℕ) → run y n ≡ wrote 1 (b'\n' ∷ []))
      → interpolate run size (handler x ∷ handler y ∷ ps) buf ≡ overflow
  unfolding interpolate loop
  interpolate-overflow x y ps buf bytes ret l rx fit long ry =
      let big : leb size 1 ≡ false = ground arith in
      let all : space size 0 ≡ size = space-sub size 0 small (omega arith) ∙ omega arith in
      let (e, k) = write_at-written buf 0 bytes (omega arith) in
      let out : write_at (written buf 0 bytes) (0 + ret) (b'\n' ∷ []) ≡ none =
        unfold write_at in ground arith in
      rw (big, all, rx, e, on_reply) (rw (ry (space size (0 + ret)), out, on_reply))
