-- ===== src/Base64.antt =====
-- `base64_encode` and `base64_decode` of message_server/src/protocol/codec.cpp.
pub mod RoundTrip
use ccmeeting.Common.{
  true, false, ℕ, ◌+◌, ◌-◌, ◌*◌, ◌/◌, ◌%◌, ◌^◌, Option, none, some, [], ◌∷◌, Bytes, codes, get_or,
  leb, ◌==◌, if◌then◌else◌,
}

-- `kTable`
abbrev pub alphabet : Bytes
alphabet = codes "ABCDEFGHIJKLMNOPQRSTUVWXYZabcdefghijklmnopqrstuvwxyz0123456789+/"

-- `kTable[i]`, for i below 64
unfoldable pub letter : ℕ → ℕ
letter i = get_or alphabet i 0

-- `bytes[i] << 16 | bytes[i + 1] << 8 | bytes[i + 2]`: no two of them share a bit.
abbrev triple : ℕ → ℕ → ℕ → ℕ
triple a b c = a * 2 ^ 16 + b * 2 ^ 8 + c

-- `(triple >> k) & 0x3F`
abbrev sextet : ℕ → ℕ → ℕ
sextet t k = t / 2 ^ k % 64

-- The loop takes three bytes a round; the cases of one and of two bytes are the padded tail.
unfoldable pub base64_encode : Bytes → Bytes
unfolding letter
base64_encode [] = []
base64_encode (a ∷ []) =
    let t = triple a 0 0 in letter (sextet t 18) ∷ letter (sextet t 12) ∷ b'=' ∷ b'=' ∷ []
base64_encode (a ∷ b ∷ []) =
    let t = triple a b 0 in
    letter (sextet t 18) ∷ letter (sextet t 12) ∷ letter (sextet t 6) ∷ b'=' ∷ []
base64_encode (a ∷ b ∷ c ∷ rest) =
    let t = triple a b c in
    letter (sextet t 18)
    ∷ letter (sextet t 12)
    ∷ letter (sextet t 6)
    ∷ letter (sextet t 0)
    ∷ base64_encode rest

-- Where `ch` stands in `kTable`, counted from `i`.
index_of : ℕ → ℕ → Bytes → Option ℕ
index_of ch i [] = none
index_of ch i (k ∷ ks) = if k == ch then some i else index_of ch (i + 1) ks

-- `table[ch]`, where `none` is -1: the letters are distinct, so each is written once.
unfoldable pub value_of : ℕ → Option ℕ
unfolding index_of
value_of ch = index_of ch 0 alphabet

-- `bits >= 8`: the byte is pushed, and the loop goes on with `bits - 8`.
-- The accumulator is a `uint32_t`; its low six bits are free, so `|` is `+`.
unfoldable pub decode_loop : Bytes → ℕ → ℕ → Bytes
unfolding value_of
decode_loop [] accumulator bits = []
decode_loop (ch ∷ text) accumulator bits = elim (ch == b'=') [
  | true ↦ []
  | false ↦ elim (value_of ch) [
    | none ↦ decode_loop text accumulator bits
    | some value ↦
        let acc = accumulator * 2 ^ 6 % 2 ^ 32 + value in
        elim (leb 8 (bits + 6)) [
          | true ↦ (acc / 2 ^ (bits + 6 - 8) % 256) ∷ decode_loop text acc (bits + 6 - 8)
          | false ↦ decode_loop text acc (bits + 6)
        ]
  ]
]

unfoldable pub base64_decode : Bytes → Bytes
unfolding decode_loop
base64_decode text = decode_loop text 0 0
