-- ===== src/LazyBuffer/Content.antt =====
-- The operations that take bytes out of a LazyBuffer, by its content.
use lazyserver.Base.{
  ℕ, ◌+◌, ◌-◌, ◌≤◌, ◌<◌, ◌≡◌, refl, sym, [], length, length-take, take, drop, arith, assert_failed,
  Yields, yields, leb, true, false, add_size,
}
use lazyserver.Base.Slices.{drop-all, drop-drop, drop-take}
use lazyserver.LazyBuffer.{
  LazyBuffer, readable_bytes, peek, begin_write, retrieve, retrieve_until, retrieve_as_string,
  read_range, prependable_bytes,
}
use lazyserver.LazyBuffer.Invariant.{IsValid, contents, readable_bytes_lem, length-contents}

module _ (b : LazyBuffer) (v : IsValid b) where
  -- `retrieve(len)` takes the first `len` bytes out, and asserts that they are there.
  pub retrieve_correct :
      (len : ℕ)
      → len ≤ length (contents b)
      → Yields (λ b'. IsValid b' × (contents b' ≡ drop len (contents b))) (retrieve b len)
  unfolding retrieve
  retrieve_correct len h =
      let fits : leb len (readable_bytes b) ≡ true = ground (arith, length-contents b v) in
      let sum : add_size b.reader_index len ≡ b.reader_index + len =
        omega (arith, length-contents b v, readable_bytes_lem b v, v.reader, v.writer, v.bounded) in
      rw (fits, sum)
        (yields (
          record {
            reader = omega (arith, length-contents b v, readable_bytes_lem b v, v.reader);
            writer = v.writer;
            roomy = v.roomy;
            bounded = v.bounded;
          },
          sym (drop-drop len b.reader_index (take b.writer_index b.buffer)),
        ))

  pub retrieve-assert_failed :
      (len : ℕ) → length (contents b) < len → retrieve b len ≡ assert_failed
  unfolding retrieve
  retrieve-assert_failed len h =
      let short : leb len (readable_bytes b) ≡ false = ground (arith, length-contents b v) in
      rw short

  -- `retrieveUntil(end)` takes out what stands before `end`.
  pub retrieve_until_correct :
      (end : ℕ)
      → b.reader_index ≤ end
      → end ≤ b.writer_index
      → Yields
          (λ b'. IsValid b' × (contents b' ≡ drop (end - b.reader_index) (contents b)))
          (retrieve_until b end)
  unfolding retrieve_until peek begin_write
  retrieve_until_correct end lo hi =
      let above : leb b.reader_index end ≡ true = ground arith in
      let below : leb end b.writer_index ≡ true = ground arith in
      rw (above, below)
        (retrieve_correct (end - b.reader_index)
          (omega (arith, length-contents b v, readable_bytes_lem b v)))

  -- `retrieveAsString` gives the content, and leaves the buffer empty with its room to prepend.
  pub retrieve_as_string_correct :
      Yields
        (λ (str, b').
          (str ≡ contents b) × IsValid b' × (contents b' ≡ []) × (prependable_bytes b' ≡ 8))
        (retrieve_as_string b)
  unfolding retrieve_as_string peek read_range prependable_bytes
  retrieve_as_string_correct =
      let n = readable_bytes_lem b v in
      let inside : leb (b.reader_index + readable_bytes b) (length b.buffer) ≡ true =
        ground (arith, n, v.reader, v.writer) in
      rw (inside, n)
        (yields (
          sym (drop-take b.reader_index b.writer_index b.buffer),
          record { reader = omega arith; writer = v.roomy; roomy = v.roomy; bounded = v.bounded },
          drop-all 8 (take 8 b.buffer) (omega (arith, length-take 8 b.buffer, v.roomy)),
          refl,
        ))
