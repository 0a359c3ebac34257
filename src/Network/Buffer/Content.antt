-- ===== src/Network/Buffer/Content.antt =====
-- The buffer refines a byte queue: `readable` is the queue, `write` appends to it and
-- `move_read_pos` drops from its front; no copy goes out of the vector's bounds.
use ccmeeting.Common.{
  if_false, false, ℕ, suc, ◌+◌, ◌-◌, ◌*◌, ◌≤◌, max, ◌≡◌, refl, sym, ap, ◌∙◌, inl, inr, [], ◌∷◌,
  ◌++◌, append_assoc, append-nil, arith, ltb, ◌==◌, ==_ne, Bool-cases, length, take, drop,
  replicate, length-append, length-take, length-drop, length-replicate, take-append, drop-append_le,
  take-append_le, drop-drop, drop-take, take-take, Bytes,
}
use ccmeeting.Network.Buffer.{
  Buffer, make, readable_size, writable_size, readable, move_read_pos, move_write_pos, copy_at,
  normalize, grow, expand_if_need, write, resize_bytes,
}

-- `read_pos <= write_pos <= size()`
pub record IsValid (b : Buffer) : Type 0 where
  pub ordered : b.read_pos ≤ b.write_pos
  pub bounded : b.write_pos ≤ length b.buffer

pub make-IsValid : (size : ℕ) → IsValid (make size)
unfolding make
make-IsValid size = record { ordered = omega arith; bounded = omega arith }

readable_size_lem : (b : Buffer) → readable_size b ≡ b.write_pos - b.read_pos
unfolding readable_size
readable_size_lem b = refl

pub length-readable : (b : Buffer) → IsValid b → length (readable b) ≡ readable_size b
unfolding readable readable_size
length-readable b v = omega (
  arith,
  length-take (b.write_pos - b.read_pos) (drop b.read_pos b.buffer),
  length-drop b.read_pos b.buffer,
)

-- As a queue of bytes the buffer implements consumption: moving the read position by n drops the
-- first n readable bytes.
pub readable-move_read_pos :
    (n : ℕ) (b : Buffer) → readable (move_read_pos n b) ≡ drop n (readable b)
unfolding readable move_read_pos
readable-move_read_pos n b =
    rw
      (
        drop-take n (b.write_pos - b.read_pos) (drop b.read_pos b.buffer),
        drop-drop n b.read_pos b.buffer,
      )
      (ap (λ k. take k (drop (b.read_pos + n) b.buffer)) (omega arith))

pub move_read_pos-IsValid :
    (n : ℕ) (b : Buffer) → n ≤ readable_size b → IsValid b → IsValid (move_read_pos n b)
unfolding readable_size move_read_pos
move_read_pos-IsValid n b h v = record { ordered = omega arith; bounded = v.bounded }

-- A copy within the bounds of the vector.
copy_at_within :
    (at : ℕ) (bytes bs : Bytes)
    → at + length bytes ≤ length bs
    → copy_at at bytes bs ≡ take at bs ++ (bytes ++ drop (at + length bytes) bs)
unfolding copy_at
copy_at_within at bytes bs h =
    let e : ltb (length bs) (at + length bytes) ≡ false = ground (arith, h) in if_false e _ _

length-copy_at :
    (at : ℕ) (bytes bs : Bytes)
    → at + length bytes ≤ length bs
    → length (copy_at at bytes bs) ≡ length bs
length-copy_at at bytes bs h = rw (copy_at_within at bytes bs h) (
    omega (
      arith,
      length-append (take at bs) (bytes ++ drop (at + length bytes) bs),
      length-append bytes (drop (at + length bytes) bs),
      length-take at bs,
      length-drop (at + length bytes) bs,
    ))

length-resize_bytes : (n : ℕ) (bs : Bytes) → length (resize_bytes n bs) ≡ n
unfolding resize_bytes
length-resize_bytes n bs = omega (
  arith,
  length-append (take n bs) (replicate (n - length bs) 0),
  length-take n bs,
  length-replicate {0} {A = ℕ} (n - length bs) 0,
)

readable_empty : (b : Buffer) → b.write_pos - b.read_pos ≡ 0 → readable b ≡ []
unfolding readable
readable_empty b e = rw e refl

-- The buffer with its queue moved to the front of the vector `bs`.
abbrev fronted : Bytes → Buffer → Buffer
fronted bs b = record { buffer = bs; read_pos = 0; write_pos = b.write_pos - b.read_pos }

normalize_cases {ℓ} :
    (P : Buffer → Type ℓ) (b : Buffer)
    → P b
    → (b.read_pos ≡ b.write_pos → P (fronted b.buffer b))
    → P (fronted (copy_at 0 (readable b) b.buffer) b)
    → P (normalize b)
unfolding normalize
normalize_cases P b same empty moved = elim (Bool-cases (b.read_pos == 0)) [
  | inl z ↦ rw (z, normalize) same
  | inr nz ↦ elim (Bool-cases (b.read_pos == b.write_pos)) [
    | inl e ↦ rw (nz, e, normalize) (empty (ground arith))
    | inr e ↦ rw (nz, e, normalize) moved
  ]
]

readable-fronted :
    (bs : Bytes) (b : Buffer) → readable (fronted bs b) ≡ take (b.write_pos - b.read_pos) bs
unfolding readable
readable-fronted bs b = ap (λ k. take k bs) (omega arith)

-- `normalize` moves the queue to the front and keeps its content.
module _ (b : Buffer) (v : IsValid b) where
  normalize-IsValid : IsValid (normalize b)
  normalize-IsValid =
      normalize_cases IsValid b v
        (λ e. record { ordered = omega arith; bounded = omega (arith, v.bounded) })
        (record {
          ordered = omega arith;
          bounded = omega (
            arith,
            v.bounded,
            length-copy_at 0 (readable b) b.buffer
                (omega (arith, length-readable b v, readable_size_lem b, v.ordered, v.bounded)),
          );
        })

  moved_queue : take (b.write_pos - b.read_pos) (copy_at 0 (readable b) b.buffer) ≡ readable b
  moved_queue =
      rw (copy_at_within 0 (readable b) b.buffer moves)
        (take-append _ (readable b) _ (omega (arith, length-readable b v, readable_size_lem b)))
    where
      moves : 0 + length (readable b) ≤ length b.buffer
      moves = omega (arith, length-readable b v, readable_size_lem b, v.ordered, v.bounded)

  readable-normalize : readable (normalize b) ≡ readable b
  readable-normalize =
      normalize_cases (λ n. readable n ≡ readable b) b refl
        (λ e.
          readable_empty (fronted b.buffer b) (omega arith) ∙ sym (readable_empty b (omega arith)))
        (readable-fronted _ b ∙ moved_queue)

-- The two ways to cut the queue out of the vector agree.
readable_lem : (b : Buffer) → readable b ≡ drop b.read_pos (take b.write_pos b.buffer)
unfolding readable
readable_lem b = sym (drop-take b.read_pos b.write_pos b.buffer)

take-resize_bytes :
    (k n : ℕ) (bs : Bytes) → k ≤ n → k ≤ length bs → take k (resize_bytes n bs) ≡ take k bs
unfolding resize_bytes
take-resize_bytes k n bs h l =
    take-append_le k (take n bs) _ (omega (arith, length-take n bs)) ∙ take-take k n bs h

-- Growing keeps the queue, and makes the room that was asked for.
module _ (size : ℕ) (b : Buffer) (v : IsValid b) where
  grow-IsValid : IsValid (grow size b)
  unfolding grow
  grow-IsValid = record {
    ordered = v.ordered;
    bounded = omega (
      arith,
      v.bounded,
      length-resize_bytes (max (2 * length b.buffer) (b.write_pos + size)) b.buffer,
    );
  }

  writable_size-grow : size ≤ writable_size (grow size b)
  unfolding grow writable_size
  writable_size-grow = omega (
    arith,
    v.bounded,
    length-resize_bytes (max (2 * length b.buffer) (b.write_pos + size)) b.buffer,
  )

  readable-grow : readable (grow size b) ≡ readable b
  readable-grow = readable_lem (grow size b) ∙ cut ∙ sym (readable_lem b)
    where
      cut :
          drop (grow size b).read_pos (take (grow size b).write_pos (grow size b).buffer)
          ≡ drop b.read_pos (take b.write_pos b.buffer)
      cut =
          unfold grow in
          ap (drop b.read_pos)
            (take-resize_bytes b.write_pos _ b.buffer (omega (arith, v.bounded)) v.bounded)

-- The three ways through `expand_if_need`.
expand_if_need_cases {ℓ} :
    (P : Buffer → Type ℓ) (size : ℕ) (b : Buffer)
    → (size ≤ writable_size b → P b)
    → (size ≤ writable_size (normalize b) → P (normalize b))
    → P (grow size (normalize b))
    → P (expand_if_need size b)
unfolding expand_if_need
expand_if_need_cases P size b fits moved grown = elim (Bool-cases (ltb (writable_size b) size)) [
  | inl short ↦ elim (Bool-cases (ltb (writable_size (normalize b)) size)) [
    | inl still ↦ rw (short, still, expand_if_need) grown
    | inr room ↦ rw (short, room, expand_if_need) (moved (ground arith))
  ]
  | inr room ↦ rw (room, expand_if_need) (fits (ground arith))
]

module _ (size : ℕ) (b : Buffer) (v : IsValid b) where
  expand_if_need-IsValid : IsValid (expand_if_need size b)
  expand_if_need-IsValid =
      expand_if_need_cases IsValid size b (λ _. v) (λ _. normalize-IsValid b v)
        (grow-IsValid size (normalize b) (normalize-IsValid b v))

  readable-expand_if_need : readable (expand_if_need size b) ≡ readable b
  readable-expand_if_need =
      expand_if_need_cases (λ e. readable e ≡ readable b) size b (λ _. refl)
        (λ _. readable-normalize b v)
        (readable-grow size (normalize b) (normalize-IsValid b v) ∙ readable-normalize b v)

  writable_size-expand_if_need : size ≤ writable_size (expand_if_need size b)
  writable_size-expand_if_need =
      expand_if_need_cases (λ e. size ≤ writable_size e) size b (λ h. h) (λ h. h)
        (writable_size-grow size (normalize b) (normalize-IsValid b v))

-- The copy of `write`, into a buffer with room for it.
abbrev copied : Bytes → Buffer → Buffer
copied bytes e = record e {
  buffer = copy_at e.write_pos bytes e.buffer;
  write_pos = e.write_pos + length bytes;
}

module _ (bytes : Bytes) (e : Buffer) (v : IsValid e) (room : length bytes ≤ writable_size e) where
  fits : e.write_pos + length bytes ≤ length e.buffer
  unfolding writable_size
  fits = omega (arith, v.bounded)

  copied-IsValid : IsValid (copied bytes e)
  copied-IsValid = record {
    ordered = omega (arith, v.ordered);
    bounded = omega (arith, fits, length-copy_at e.write_pos bytes e.buffer fits);
  }

  copied_front :
      take (e.write_pos + length bytes) (copy_at e.write_pos bytes e.buffer)
      ≡ take e.write_pos e.buffer ++ bytes
  copied_front =
      rw
        (
          copy_at_within e.write_pos bytes e.buffer fits,
          sym (
              append_assoc (take e.write_pos e.buffer) bytes
                (drop (e.write_pos + length bytes) e.buffer)),
        )
        (take-append (e.write_pos + length bytes) (take e.write_pos e.buffer ++ bytes) _ (
          omega (
            arith,
            length-append (take e.write_pos e.buffer) bytes,
            length-take e.write_pos e.buffer,
            v.bounded,
          )))

  readable-copied : readable (copied bytes e) ≡ readable e ++ bytes
  readable-copied =
      readable_lem (copied bytes e)
      ∙ ap (drop e.read_pos) copied_front
      ∙ drop-append_le e.read_pos (take e.write_pos e.buffer) bytes
          (omega (arith, length-take e.write_pos e.buffer, v.ordered, v.bounded))
      ∙ ap (λ q. q ++ bytes) (sym (readable_lem e))

write_cases {ℓ} :
    (P : Buffer → Type ℓ) (bytes : Bytes) (b : Buffer)
    → (bytes ≡ [] → P b)
    → P (copied bytes (expand_if_need (length bytes) b))
    → P (write bytes b)
unfolding write move_write_pos
write_cases P [] b empty full = empty refl
write_cases P (x ∷ bytes) b empty full = rw (==_ne (suc (length bytes)) 0 (omega arith), write) full

module _ (bytes : Bytes) (b : Buffer) (v : IsValid b) where
  -- A write to a buffer with read_pos <= write_pos <= size leaves a buffer with read_pos <=
  -- write_pos <= size, although no copy makes the vector longer.
  pub write-IsValid : IsValid (write bytes b)
  write-IsValid =
      write_cases IsValid bytes b (λ _. v)
        (copied-IsValid bytes _ (expand_if_need-IsValid _ b v) (writable_size-expand_if_need _ b v))

  -- As a queue of bytes a valid buffer implements append: after a write, whose copies are all
  -- within the vector, the readable bytes are the old ones followed by the written ones, whether
  -- the buffer had room, was compacted or was grown.
  pub readable-write : readable (write bytes b) ≡ readable b ++ bytes
  readable-write =
      write_cases (λ w. readable w ≡ readable b ++ bytes) bytes b
        (λ e. rw e (sym (append-nil (readable b))))
        (readable-copied bytes _ (expand_if_need-IsValid _ b v) (writable_size-expand_if_need _ b v)
          ∙ ap (λ q. q ++ bytes) (readable-expand_if_need _ b v))
