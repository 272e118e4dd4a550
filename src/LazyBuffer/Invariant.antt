-- ===== src/LazyBuffer/Invariant.antt =====
-- The indices of a LazyBuffer, its construction, and its content.
use lazyserver.Base.{
  ℕ, ◌+◌, ◌-◌, ◌≤◌, ◌<◌, ◌^◌, ◌≡◌, refl, List, [], length, take, drop, length-take, length-drop,
  arith, Yields, yields,
}
use lazyserver.LazyBuffer.{
  LazyBuffer, readable_bytes, writable_bytes, prependable_bytes, new_vector, new_lazy_buffer,
}

-- 0 <= readerIndex <= writerIndex <= size, as the picture above the class says.
pub record IsValid (b : LazyBuffer) : Type 0 where
  pub reader : b.reader_index ≤ b.writer_index
  pub writer : b.writer_index ≤ length b.buffer
  pub roomy : 8 ≤ length b.buffer
  pub bounded : length b.buffer < 2 ^ 63

-- The readable bytes.
abbrev pub contents : LazyBuffer → List ℕ
contents b = drop b.reader_index (take b.writer_index b.buffer)

module _ (b : LazyBuffer) (v : IsValid b) where
  -- The subtractions of `size_t` do not wrap.
  pub readable_bytes_lem : readable_bytes b ≡ b.writer_index - b.reader_index
  unfolding readable_bytes
  readable_bytes_lem = omega (arith, v.reader, v.writer, v.bounded)

  pub writable_bytes_lem : writable_bytes b ≡ length b.buffer - b.writer_index
  unfolding writable_bytes
  writable_bytes_lem = omega (arith, v.writer, v.bounded)

  pub length-contents : length (contents b) ≡ readable_bytes b
  length-contents = omega (
    arith,
    readable_bytes_lem,
    length-drop b.reader_index (take b.writer_index b.buffer),
    length-take b.writer_index b.buffer,
    v.reader,
    v.writer,
  )

  -- The prependable bytes, the readable bytes and the writable bytes of a valid buffer make up its
  -- block.
  pub counts-length :
      prependable_bytes b + (length (contents b) + writable_bytes b) ≡ length b.buffer
  unfolding prependable_bytes
  counts-length =
      omega (arith, length-contents, readable_bytes_lem, writable_bytes_lem, v.reader, v.writer)

pub new_lazy_buffer-IsValid :
    Yields
      (λ b. IsValid b × (contents b ≡ []) × (writable_bytes b ≡ 1024) × (prependable_bytes b ≡ 8))
      new_lazy_buffer
unfolding new_lazy_buffer new_vector readable_bytes writable_bytes prependable_bytes
new_lazy_buffer-IsValid = yields (omega arith, refl, refl, refl)
