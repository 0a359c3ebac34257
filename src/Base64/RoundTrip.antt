-- ===== src/Base64/RoundTrip.antt =====
-- Decoding an encoded byte string gives it back.
use ccmeeting.Common.{
  if◌then◌else◌, ◌≤◌, ==_iff, ◌-◌, Option-cases, inr, inl, Bool-cases, ==_ne, ◌≢◌, ℕ, zero, suc,
  ◌+◌, ◌*◌, ◌/◌, ◌%◌, ◌^◌, ◌<◌, ◌≡◌, refl, ap, ap₂, true, false, Bool, not, Option, some, none, [],
  ◌∷◌, ◌++◌, Bytes, IsBytes, arith, leb, ◌==◌,
}
use ccmeeting.Base64.{base64_encode, base64_decode, decode_loop, letter, value_of, triple, sextet}

-- A test of the numbers from `i` on, `k` of them, by evaluation.
passes_from : (test : ℕ → Bool) → ℕ → (k : ℕ) → Bool
passes_from test i zero = true
passes_from test i (suc k) = let rest = passes_from test (i + 1) k in if test i then rest else false

passes_from-at :
    (test : ℕ → Bool) (k i x : ℕ) → i ≤ x → x < i + k → passes_from test i k ≡ true → test x ≡ true
unfolding passes_from
passes_from-at test zero i x le lt h = absurd (omega arith)
passes_from-at test (suc k) i x le lt h = elim (Bool-cases (x == i)) [
  | inl same ↦ ground (arith, ap test ((==_iff x i).0 same))
  | inr other ↦ passes_from-at test k (i + 1) x (ground arith) (omega arith) (ground arith)
]

abbrev is_value : Option ℕ → ℕ → Bool
is_value none i = false
is_value (some j) i = j == i

is_value→eq : (o : Option ℕ) (i : ℕ) → is_value o i ≡ true → o ≡ some i
is_value→eq none i h = cc
is_value→eq (some j) i h = ground arith

value_table : passes_from (λ i. is_value (value_of (letter i)) i) 0 64 ≡ true
unfolding passes_from value_of letter
value_table = refl

value_of-letter : (i : ℕ) → i < 64 → value_of (letter i) ≡ some i
value_of-letter i h = is_value→eq _ i (
    passes_from-at (λ k. is_value (value_of (letter k)) k) 64 0 i (omega arith) (omega arith)
      value_table)

pad_table : passes_from (λ i. not (letter i == b'=')) 0 64 ≡ true
unfolding passes_from letter
pad_table = refl

letter-ne-pad : (i : ℕ) → i < 64 → (letter i == b'=') ≡ false
letter-ne-pad i h = ground (
  arith,
  passes_from-at (λ k. not (letter k == b'=')) 64 0 i (omega arith) (omega arith) pad_table,
)

abbrev shifted : ℕ → ℕ → ℕ
shifted accumulator i = accumulator * 2 ^ 6 % 2 ^ 32 + i

-- One letter at each of the four values that `bits` takes.
module _ (i : ℕ) (text : Bytes) (accumulator : ℕ) (h : i < 64) where
  decode_at_0 :
      decode_loop (letter i ∷ text) accumulator 0 ≡ decode_loop text (shifted accumulator i) 6
  unfolding decode_loop
  decode_at_0 = rw (letter-ne-pad i h, value_of-letter i h, decode_loop) refl

  decode_at_6 :
      decode_loop (letter i ∷ text) accumulator 6
      ≡ ((shifted accumulator i) / 2 ^ 4 % 256) ∷ decode_loop text (shifted accumulator i) 4
  unfolding decode_loop
  decode_at_6 = rw (letter-ne-pad i h, value_of-letter i h, decode_loop) refl

  decode_at_4 :
      decode_loop (letter i ∷ text) accumulator 4
      ≡ ((shifted accumulator i) / 2 ^ 2 % 256) ∷ decode_loop text (shifted accumulator i) 2
  unfolding decode_loop
  decode_at_4 = rw (letter-ne-pad i h, value_of-letter i h, decode_loop) refl

  decode_at_2 :
      decode_loop (letter i ∷ text) accumulator 2
      ≡ ((shifted accumulator i) % 256) ∷ decode_loop text (shifted accumulator i) 0
  unfolding decode_loop
  decode_at_2 = rw (letter-ne-pad i h, value_of-letter i h, decode_loop) (ground arith)

-- A group of four letters, from any accumulator.
module _ (i j k l : ℕ) (text : Bytes) (acc : ℕ) where
  abbrev after_two : ℕ
  after_two = shifted (shifted acc i) j

  abbrev after_four : ℕ
  after_four = shifted (shifted after_two k) l

  decode_group :
      i < 64
      → j < 64
      → k < 64
      → l < 64
      → decode_loop (letter i ∷ letter j ∷ letter k ∷ letter l ∷ text) acc 0
        ≡ (after_two / 2 ^ 4 % 256)
          ∷ (shifted after_two k / 2 ^ 2 % 256)
          ∷ (after_four % 256)
          ∷ decode_loop text after_four 0
  decode_group hi hj hk hl =
      rw (decode_at_0 i _ acc hi, decode_at_6 j _ _ hj, decode_at_4 k _ _ hk, decode_at_2 l _ _ hl)

-- The letters of three bytes stand for the bytes.
module _ (a b c acc : ℕ) (h : IsBytes (a ∷ b ∷ c ∷ [])) where
  abbrev six : ℕ → ℕ
  six k = sextet (triple a b c) k

  abbrev acc_two : ℕ
  acc_two = shifted (shifted acc (six 18)) (six 12)

  first_byte : acc_two / 2 ^ 4 % 256 ≡ a
  first_byte = omega arith

  second_byte : shifted acc_two (six 6) / 2 ^ 2 % 256 ≡ b
  second_byte = omega arith

  third_byte : shifted (shifted acc_two (six 6)) (six 0) % 256 ≡ c
  third_byte = omega arith

sextet-lt : (t k : ℕ) → sextet t k < 64
sextet-lt t k = grind arith

decode-nil : (acc bits : ℕ) → decode_loop [] acc bits ≡ []
unfolding decode_loop
decode-nil acc bits = refl

decode-pad : (text : Bytes) (acc bits : ℕ) → decode_loop (b'=' ∷ text) acc bits ≡ []
unfolding decode_loop
decode-pad text acc bits = refl

decode_loop-encode :
    (bytes : Bytes) (acc : ℕ) → IsBytes bytes → decode_loop (base64_encode bytes) acc 0 ≡ bytes
unfolding base64_encode
decode_loop-encode [] acc h = decode-nil acc 0
decode_loop-encode (a ∷ []) acc h =
    rw (decode_at_0 _ _ acc (sextet-lt _ 18), decode_at_6 _ _ _ (sextet-lt _ 12), decode-pad)
      (ap (λ t. t ∷ []) (first_byte a 0 0 acc (omega arith)))
decode_loop-encode (a ∷ b ∷ []) acc h =
    rw
      (
        decode_at_0 _ _ acc (sextet-lt _ 18),
        decode_at_6 _ _ _ (sextet-lt _ 12),
        decode_at_4 _ _ _ (sextet-lt _ 6),
        decode-pad,
      )
      (ap₂ (λ s t. s ∷ t ∷ []) (first_byte a b 0 acc (omega arith))
        (second_byte a b 0 acc (omega arith)))
decode_loop-encode (a ∷ b ∷ c ∷ rest) acc h = rw (
  decode_group _ _ _ _ _ acc (sextet-lt _ 18) (sextet-lt _ 12) (sextet-lt _ 6) (sextet-lt _ 0),
  decode_loop-encode rest _ h.1.1.1,
  first_byte a b c acc (omega arith),
  second_byte a b c acc (omega arith),
  third_byte a b c acc (omega arith),
)

-- Decoding the Base64 text of a list of bytes gives the bytes back, whatever its length and
-- padding.
pub base64_decode-encode :
    (bytes : Bytes) → IsBytes bytes → base64_decode (base64_encode bytes) ≡ bytes
unfolding base64_decode
base64_decode-encode bytes h = decode_loop-encode bytes 0 h

-- A byte that is no letter and no padding, such as a line break, changes nothing.
decode_loop_skip :
    (xs ys : Bytes) (ch acc bits : ℕ)
    → value_of ch ≡ none
    → ch ≢ b'='
    → decode_loop (xs ++ ch ∷ ys) acc bits ≡ decode_loop (xs ++ ys) acc bits
unfolding decode_loop
decode_loop_skip [] ys ch acc bits h n = rw (==_ne ch b'=' n, h, decode_loop) refl
decode_loop_skip (x ∷ xs) ys ch acc bits h n = elim (Bool-cases (x == b'=')) [
  | inl pad ↦ rw (pad, decode_loop) refl
  | inr np ↦ elim (Option-cases (value_of x)) [
    | inl e ↦ rw (np, e, decode_loop) (decode_loop_skip xs ys ch acc bits h n)
    | inr (v, e) ↦ elim (Bool-cases (leb 8 (bits + 6))) [
      | inl t ↦
          rw (np, e, t, decode_loop)
            (rw (decode_loop_skip xs ys ch (shifted acc v) (bits + 6 - 8) h n))
      | inr t ↦
          rw (np, e, t, decode_loop) (decode_loop_skip xs ys ch (shifted acc v) (bits + 6) h n)
    ]
  ]
]

-- A character that is neither a letter of the Base64 alphabet nor '=' can stand anywhere in a text
-- without changing what it decodes to.
pub base64_decode_skip :
    (xs ys : Bytes) (ch : ℕ)
    → value_of ch ≡ none
    → ch ≢ b'='
    → base64_decode (xs ++ ch ∷ ys) ≡ base64_decode (xs ++ ys)
unfolding base64_decode
base64_decode_skip xs ys ch h n = decode_loop_skip xs ys ch 0 0 h n
