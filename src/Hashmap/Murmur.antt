-- ===== src/Hashmap/Murmur.antt =====
-- source/utils/clog_hashmap.c: `murmur3_32`, on the bytes that a key points at.
use casca_log.Base.{ℕ, zero, suc, ◌+◌, ◌*◌, ◌/◌, ◌%◌, ◌^◌, List, get_or, if◌then◌else◌, ◌==◌}
use Prim.Native.Nat.{bit_or, bit_xor}

-- `x << k` and `x * y` on `uint32_t`.
abbrev shl32 : ℕ → ℕ → ℕ
shl32 x k = x * 2 ^ k % 2 ^ 32

abbrev mul32 : ℕ → ℕ → ℕ
mul32 x y = x * y % 2 ^ 32

-- `x << k | x >> 32 - k`.
rotl32 : ℕ → ℕ → ℕ → ℕ
rotl32 x k k' = bit_or (shl32 x k) (x / 2 ^ k')

-- A little-endian read of four bytes.
word : List ℕ → ℕ → ℕ
word data' i =
    get_or data' i 0
    + get_or data' (i + 1) 0 * 2 ^ 8
    + get_or data' (i + 2) 0 * 2 ^ 16
    + get_or data' (i + 3) 0 * 2 ^ 24

scramble : ℕ → ℕ
scramble k = mul32 (rotl32 (mul32 k 0xcc9e2d51) 15 17) 0x1b873593

mix : ℕ → ℕ → ℕ
mix h k = (rotl32 (bit_xor h (scramble k)) 13 19 * 5 + 0xe6546b64) % 2 ^ 32

-- The blocks are read from the last one, `blocks[-1]`, to the first.
mix_blocks : List ℕ → ℕ → ℕ → ℕ
mix_blocks data' zero h = h
mix_blocks data' (suc n) h = mix_blocks data' n (mix h (word data' (4 * n)))

-- The `switch` on `len & 3`, whose cases fall through.
mix_tail : List ℕ → ℕ → ℕ → ℕ → ℕ
mix_tail data' from rest h =
    let k3 = if rest == 3 then get_or data' (from + 2) 0 * 2 ^ 16 else 0 in
    let k2 =
      if rest == 3
      then bit_xor k3 (get_or data' (from + 1) 0 * 2 ^ 8)
      else if rest == 2
      then get_or data' (from + 1) 0 * 2 ^ 8
      else 0 in
    if rest == 0 then h else bit_xor h (scramble (bit_xor k2 (get_or data' from 0)))

finish : ℕ → ℕ → ℕ
finish h len =
    let h1 = bit_xor h len % 2 ^ 32 in
    let h2 = mul32 (bit_xor h1 (h1 / 2 ^ 16)) 0x85ebca6b in
    let h3 = mul32 (bit_xor h2 (h2 / 2 ^ 13)) 0xc2b2ae35 in bit_xor h3 (h3 / 2 ^ 16)

unfoldable pub murmur3_32 : ℕ → List ℕ → ℕ → ℕ
unfolding rotl32 word scramble mix mix_blocks mix_tail finish get_or
murmur3_32 seed data' len =
    let num = len / 4 in finish (mix_tail data' (num * 4) (len % 4) (mix_blocks data' num seed)) len
