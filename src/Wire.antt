-- ===== src/Wire.antt =====
-- Big-endian integers in byte strings: `read_uint32_be` and `write_uint32_be` of
-- message_server/src/protocol/codec.cpp, `read_be64` and `write_be64` of
-- message_server/src/meeting/room.cpp, and the `htons`, `ntohs`, `htonl`, `ntohl` copies of the
-- handlers, which are the same layout: the bytes of a network-order integer in memory.
pub mod RoundTrip
use ccmeeting.Common.{ℕ, zero, suc, ◌+◌, ◌*◌, ◌/◌, ◌%◌, ◌^◌, [], ◌∷◌, Bytes, get_or}

-- `read_uint32_be(data)`: the shifted bytes have no bit in common, so `|` is `+`.
unfoldable pub read_uint32_be : Bytes → ℕ
read_uint32_be d =
    get_or d 0 0 * 2 ^ 24 + get_or d 1 0 * 2 ^ 16 + get_or d 2 0 * 2 ^ 8 + get_or d 3 0

-- `write_uint32_be(data, value)`: the four bytes that it stores.
unfoldable pub write_uint32_be : ℕ → Bytes
write_uint32_be v = (v / 2 ^ 24 % 256) ∷ (v / 2 ^ 16 % 256) ∷ (v / 2 ^ 8 % 256) ∷ (v % 256) ∷ []

-- `memcpy` of two bytes and `ntohs`.
unfoldable pub read_uint16_be : Bytes → ℕ
read_uint16_be d = get_or d 0 0 * 2 ^ 8 + get_or d 1 0

-- `htons` and the copy of its two bytes; the argument is cut to 16 bits by the caller's cast.
unfoldable pub write_uint16_be : ℕ → Bytes
write_uint16_be v = (v / 2 ^ 8 % 256) ∷ (v % 256) ∷ []

-- `for (i = 0; i < 8; ++i) value = (value << 8) | data[i]`, on the bytes that are left.
read_be64_loop : ℕ → Bytes → ℕ → ℕ
read_be64_loop zero d value = value
read_be64_loop (suc n) [] value = read_be64_loop n [] (value * 2 ^ 8 % 2 ^ 64)
read_be64_loop (suc n) (b ∷ d) value = read_be64_loop n d (value * 2 ^ 8 % 2 ^ 64 + b)

unfoldable pub read_be64 : Bytes → ℕ
unfolding read_be64_loop
read_be64 d = read_be64_loop 8 d 0

-- `out[i] = (value >> (56 - i * 8)) & 0xFF`
unfoldable pub write_be64 : ℕ → Bytes
write_be64 v =
    (v / 2 ^ 56 % 256)
    ∷ (v / 2 ^ 48 % 256)
    ∷ (v / 2 ^ 40 % 256)
    ∷ (v / 2 ^ 32 % 256)
    ∷ (v / 2 ^ 24 % 256)
    ∷ (v / 2 ^ 16 % 256)
    ∷ (v / 2 ^ 8 % 256)
    ∷ (v % 256)
    ∷ []
