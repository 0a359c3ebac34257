-- ===== src/Wire/RoundTrip.antt =====
-- Reading gives back what was written, whatever follows it.
use ccmeeting.Common.{
  ℕ, zero, suc, ◌^◌, ◌<◌, ◌≡◌, refl, [], ◌∷◌, ◌++◌, arith, length, All-get_or, Bytes, IsByte,
  IsBytes,
}
use ccmeeting.Wire.{
  read_uint32_be, write_uint32_be, read_uint16_be, write_uint16_be, read_be64, read_be64_loop,
  write_be64,
}

pub read-write_uint32_be :
    (v : ℕ) (rest : Bytes) → v < 2 ^ 32 → read_uint32_be (write_uint32_be v ++ rest) ≡ v
unfolding read_uint32_be write_uint32_be
read-write_uint32_be v rest h = omega arith

pub read-write_uint16_be :
    (v : ℕ) (rest : Bytes) → v < 2 ^ 16 → read_uint16_be (write_uint16_be v ++ rest) ≡ v
unfolding read_uint16_be write_uint16_be
read-write_uint16_be v rest h = omega arith

pub read-write_be64 : (v : ℕ) (rest : Bytes) → v < 2 ^ 64 → read_be64 (write_be64 v ++ rest) ≡ v
unfolding read_be64 write_be64
read-write_be64 v rest h = omega arith

-- Every four bytes are the image of the integer that they are read as.
pub write-read_uint32_be :
    (a b c d : ℕ)
    → IsBytes (a ∷ b ∷ c ∷ d ∷ [])
    → write_uint32_be (read_uint32_be (a ∷ b ∷ c ∷ d ∷ [])) ≡ a ∷ b ∷ c ∷ d ∷ []
unfolding read_uint32_be write_uint32_be
write-read_uint32_be a b c d h = ground arith

pub length-write_uint32_be : (v : ℕ) → length (write_uint32_be v) ≡ 4
unfolding write_uint32_be
length-write_uint32_be v = refl

pub length-write_uint16_be : (v : ℕ) → length (write_uint16_be v) ≡ 2
unfolding write_uint16_be
length-write_uint16_be v = refl

pub length-write_be64 : (v : ℕ) → length (write_be64 v) ≡ 8
unfolding write_be64
length-write_be64 v = refl

pub write_uint32_be-IsBytes : (v : ℕ) → IsBytes (write_uint32_be v)
unfolding write_uint32_be
write_uint32_be-IsBytes v = omega arith

pub write_uint16_be-IsBytes : (v : ℕ) → IsBytes (write_uint16_be v)
unfolding write_uint16_be
write_uint16_be-IsBytes v = omega arith

pub write_be64-IsBytes : (v : ℕ) → IsBytes (write_be64 v)
unfolding write_be64
write_be64-IsBytes v = omega arith

-- What is read of bytes fits its width.
pub read_uint16_be-lt : (d : Bytes) → IsBytes d → read_uint16_be d < 2 ^ 16
unfolding read_uint16_be
read_uint16_be-lt d h =
    omega (arith, All-get_or IsByte d 0 0 h (omega arith), All-get_or IsByte d 1 0 h (omega arith))

pub read_uint32_be-lt : (d : Bytes) → IsBytes d → read_uint32_be d < 2 ^ 32
unfolding read_uint32_be
read_uint32_be-lt d h = omega (
  arith,
  All-get_or IsByte d 0 0 h (omega arith),
  All-get_or IsByte d 1 0 h (omega arith),
  All-get_or IsByte d 2 0 h (omega arith),
  All-get_or IsByte d 3 0 h (omega arith),
)

read_be64_loop-lt :
    (n : ℕ) (d : Bytes) (value : ℕ) → IsBytes d → value < 2 ^ 64 → read_be64_loop n d value < 2 ^ 64
unfolding read_be64_loop
read_be64_loop-lt zero d value h v = v
read_be64_loop-lt (suc n) [] value h v = read_be64_loop-lt n [] _ h (omega arith)
read_be64_loop-lt (suc n) (b ∷ d) value h v = read_be64_loop-lt n d _ h.1 (omega (arith, h.0))

pub read_be64-lt : (d : Bytes) → IsBytes d → read_be64 d < 2 ^ 64
unfolding read_be64
read_be64-lt d h = read_be64_loop-lt 8 d 0 h (omega arith)
