-- ===== src/Network/Buffer.antt =====
-- message_server/src/network/buffer.cpp: a vector with a read and a write position. `assert`s are
-- preconditions: what they demand is proved of the calls that the server makes.
pub mod Content
use ccmeeting.Common.{
  ℕ, ◌+◌, ◌-◌, ◌*◌, max, ◌++◌, Bytes, length, take, drop, replicate, ltb, ◌==◌, if◌then◌else◌,
}

pub record Buffer : Type 0 where
  pub buffer : Bytes
  pub read_pos : ℕ
  pub write_pos : ℕ

-- `InitBufferSize`
abbrev pub init_buffer_size : ℕ
init_buffer_size = 4096

-- `_buffer.resize(size)`: new bytes are zero.
unfoldable pub resize_bytes : ℕ → Bytes → Bytes
resize_bytes size bs = take size bs ++ replicate (size - length bs) 0

-- `Buffer(size)`
unfoldable pub make : ℕ → Buffer
make size = record { buffer = replicate size 0; read_pos = 0; write_pos = 0 }

unfoldable pub reset : Buffer → Buffer
reset b = record b { read_pos = 0; write_pos = 0 }

unfoldable pub resize : ℕ → Buffer → Buffer
resize size b = record b { buffer = resize_bytes size b.buffer }

unfoldable pub readable_size : Buffer → ℕ
readable_size b = b.write_pos - b.read_pos

unfoldable pub writable_size : Buffer → ℕ
writable_size b = length b.buffer - b.write_pos

-- The bytes from `read_begin()` on, as far as they are readable.
unfoldable pub readable : Buffer → Bytes
readable b = take (b.write_pos - b.read_pos) (drop b.read_pos b.buffer)

unfoldable pub move_read_pos : ℕ → Buffer → Buffer
move_read_pos size b = record b { read_pos = b.read_pos + size }

unfoldable pub move_write_pos : ℕ → Buffer → Buffer
move_write_pos size b = record b { write_pos = b.write_pos + size }

-- `memcpy(begin() + at, data, data.size())`. A copy past the end of the vector is undefined in the
-- source; here the vector, which no copy makes longer, stays as it is then.
unfoldable pub copy_at : ℕ → Bytes → Bytes → Bytes
copy_at at bytes bs =
    if ltb (length bs) (at + length bytes)
    then bs
    else take at bs ++ (bytes ++ drop (at + length bytes) bs)

-- `memmove` of the readable bytes to the front, unless there are none.
unfoldable pub normalize : Buffer → Buffer
normalize b = if b.read_pos == 0 then b else record {
  buffer = if b.read_pos == b.write_pos then b.buffer else copy_at 0 (readable b) b.buffer;
  read_pos = 0;
  write_pos = b.write_pos - b.read_pos;
}

-- `_buffer.resize(std::max(2 * _buffer.size(), _write_pos + size))`
unfoldable pub grow : ℕ → Buffer → Buffer
grow size b = record b {
  buffer = resize_bytes (max (2 * length b.buffer) (b.write_pos + size)) b.buffer;
}

unfoldable pub expand_if_need : ℕ → Buffer → Buffer
expand_if_need size b =
    if ltb (writable_size b) size
    then (let n = normalize b in if ltb (writable_size n) size then grow size n else n)
    else b

unfoldable pub write : Bytes → Buffer → Buffer
write bytes b =
    if length bytes == 0
    then b
    else (let e = expand_if_need (length bytes) b in
        move_write_pos (length bytes) (record e { buffer = copy_at e.write_pos bytes e.buffer }))
