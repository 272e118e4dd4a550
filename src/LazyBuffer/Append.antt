-- ===== src/LazyBuffer/Append.antt =====
-- The operations that put bytes into a LazyBuffer, by its content.
use lazyserver.Base.{
  ◌⊎◌, inl, inr, Yields-weaken, ℕ, ◌+◌, ◌-◌, ◌≤◌, ◌<◌, ◌^◌, ◌≡◌, refl, sym, ap, ◌∙◌, List, ◌++◌,
  length, length-take, length-append, length-replicate, take, drop, arith, ok, assert_failed,
  assert, ◌>>=◌, ◌>>◌, Yields, yields, Yields-then, Yields-test, ltb, leb, true, false, sub_size,
  add_size, replicate, if◌then◌else◌, ◌==◌,
}
use lazyserver.Base.Slices.{
  drop-all, drop-take, drop-append_le, take-append_le, take-all, overwrite, length-overwrite,
  take-overwrite, drop-take-overwrite,
}
use lazyserver.LazyBuffer.{
  LazyBuffer, readable_bytes, writable_bytes, prependable_bytes, begin_write, append, prepend,
  make_space, resize, copy_to, copy_within, read_range,
}
use lazyserver.LazyBuffer.Invariant.{
  IsValid, contents, readable_bytes_lem, writable_bytes_lem, length-contents,
}

pub copy_to-ok :
    (xs : List ℕ) (i : ℕ) (part : List ℕ)
    → i + length part ≤ length xs
    → copy_to xs i part ≡ ok (overwrite xs i part)
unfolding copy_to
copy_to-ok xs i part h = ground arith

-- What `makeSpace` leaves: the same content, and room for more.
record HasSpace (more : ℕ) (b b' : LazyBuffer) : Type 0 where
  valid : IsValid b'
  kept : contents b' ≡ contents b
  space : more ≤ writable_bytes b'
  front : (b'.reader_index ≡ b.reader_index) ⊎ (b'.reader_index ≡ 8)
  reach : b'.writer_index ≤ b.writer_index

-- The content after the readable bytes were moved to the offset 8.
pub drop-take-moved :
    (xs part : List ℕ) (n : ℕ)
    → length part ≡ n
    → 8 + n ≤ length xs
    → drop 8 (take (8 + n) (overwrite xs 8 part)) ≡ part
drop-take-moved xs part n e h =
    let inside : 8 + length part ≤ length xs = omega arith in
    let end : 8 + n ≡ 8 + length part = omega arith in
    let front = length-take 8 xs in
    ap (λ k. drop 8 (take k (overwrite xs 8 part))) end
    ∙ ap (drop 8) (take-overwrite xs 8 part inside)
    ∙ drop-append_le 8 (take 8 xs) part (omega (arith, front))
    ∙ ap (λ ys. ys ++ part) (drop-all 8 (take 8 xs) (omega (arith, front)))

module _ (b : LazyBuffer) (v : IsValid b) (more : ℕ) (small : b.writer_index + more < 2 ^ 63) where
  enlarge_space :
      writable_bytes b < more
      → Yields (HasSpace more b) (
          resize b.buffer (add_size b.writer_index more) >>= λ block.
          ok (record b { buffer = block }))
  unfolding resize
  enlarge_space tight =
      let w = writable_bytes_lem b v in
      let n = b.writer_index + more in
      let sum : add_size b.writer_index more ≡ n = omega arith in
      let fits : ltb n (2 ^ 63) ≡ true = ground arith in
      let longer : length b.buffer ≤ n = omega (arith, w, v.writer) in
      let grown = take n b.buffer ++ replicate (n - length b.buffer) 0 in
      let whole : grown ≡ b.buffer ++ replicate (n - length b.buffer) 0 =
        ap (λ xs. xs ++ replicate (n - length b.buffer) 0) (take-all n b.buffer longer) in
      let size : length grown ≡ n = omega (
        arith,
        ap (length {A = ℕ}) whole,
        length-append b.buffer (replicate (n - length b.buffer) 0),
        length-replicate {A = ℕ} (n - length b.buffer) 0,
      ) in
      let v' : IsValid (record b { buffer = grown }) = record {
        reader = v.reader;
        writer = omega (arith, size);
        roomy = omega (arith, size, v.roomy);
        bounded = omega (arith, size);
      } in
      rw (sum, fits)
        (yields (record {
          valid = v';
          kept =
              ap (λ xs. drop b.reader_index (take b.writer_index xs)) whole
              ∙ ap (drop b.reader_index) (take-append_le b.writer_index b.buffer _ v.writer);
          space = omega (arith, writable_bytes_lem (record b { buffer = grown }) v', size);
          front = inl refl;
          reach = omega arith;
        }))

  move_space :
      writable_bytes b < more
      → more + 8 ≤ writable_bytes b + prependable_bytes b
      → Yields (HasSpace more b) (
          copy_within b.buffer b.reader_index (b.writer_index - b.reader_index) 8 >>= λ block.
          let b' = record b {
            buffer = block;
            reader_index = 8;
            writer_index = add_size 8 (readable_bytes b);
          } in
          assert (readable_bytes b == readable_bytes b') >> ok b')
  unfolding copy_within read_range prependable_bytes
  move_space tight room =
      let w = writable_bytes_lem b v in
      let used = b.writer_index - b.reader_index in
      let r : readable_bytes b ≡ used = readable_bytes_lem b v in
      let apart : leb b.reader_index 8 ≡ false = ground (arith, w, v.writer) in
      let inside : leb (b.reader_index + used) (length b.buffer) ≡ true =
        ground (arith, v.reader, v.writer) in
      let part : take used (drop b.reader_index b.buffer) ≡ contents b =
        sym (drop-take b.reader_index b.writer_index b.buffer) in
      let size : length (contents b) ≡ used = length-contents b v ∙ r in
      let fits : 8 + length (contents b) ≤ length b.buffer =
        omega (arith, size, w, v.reader, v.writer) in
      let sum : add_size 8 used ≡ 8 + used = omega (arith, v.writer, v.bounded) in
      let block = overwrite b.buffer 8 (contents b) in
      let b' : LazyBuffer = record { buffer = block; reader_index = 8; writer_index = 8 + used } in
      let same_length = length-overwrite b.buffer 8 (contents b) fits in
      let v' : IsValid b' = record {
        reader = omega arith;
        writer = omega (arith, same_length, size, fits);
        roomy = omega (arith, same_length, v.roomy);
        bounded = omega (arith, same_length, v.bounded);
      } in
      let kept_count : (used == readable_bytes b') ≡ true =
        ground (arith, readable_bytes_lem b' v') in
      rw (apart, inside, part, copy_to-ok b.buffer 8 (contents b) fits, r, sum, kept_count)
        (yields (record {
          valid = v';
          kept = drop-take-moved b.buffer (contents b) used size (omega (arith, size, fits));
          space = omega (arith, writable_bytes_lem b' v', same_length, w, v.reader, v.writer);
          front = inr refl;
          reach = ground (arith, apart, v.reader);
        }))

  make_space-HasSpace : writable_bytes b < more → Yields (HasSpace more b) (make_space b more)
  unfolding make_space prependable_bytes
  make_space-HasSpace tight =
      let w = writable_bytes_lem b v in
      let left : add_size (writable_bytes b) b.reader_index ≡ writable_bytes b + b.reader_index =
        omega (arith, w, v.reader, v.writer, v.bounded) in
      let right : add_size more 8 ≡ more + 8 = omega arith in
      rw (left, right)
        (Yields-test (ltb (writable_bytes b + b.reader_index) (more + 8)) (λ e. enlarge_space tight)
          λ e. move_space tight (ground arith))

-- The content after `append`, and its place in the block.
pub record Appended (b : LazyBuffer) (bytes : List ℕ) (b' : LazyBuffer) : Type 0 where
  pub valid : IsValid b'
  pub content : contents b' ≡ contents b ++ bytes
  pub front : (b'.reader_index ≡ b.reader_index) ⊎ (b'.reader_index ≡ 8)
  pub reach : b'.writer_index ≤ b.writer_index + length bytes

pub append-Appended :
    (b : LazyBuffer) (bytes : List ℕ)
    → IsValid b
    → b.writer_index + length bytes < 2 ^ 63
    → Yields (Appended b bytes) (append b bytes)
unfolding append begin_write
append-Appended b bytes v small = Yields-then space_for λ b' s.
    let v' = s.valid in
    let w = writable_bytes_lem b' v' in
    let len = length bytes in
    let fits : leb len (writable_bytes b') ≡ true = ground (arith, s.space) in
    let inside : b'.writer_index + len ≤ length b'.buffer = omega (arith, w, s.space, v'.writer) in
    let sum : add_size b'.writer_index len ≡ b'.writer_index + len = omega (arith, v'.bounded) in
    let same_length = length-overwrite b'.buffer b'.writer_index bytes inside in
    rw (fits, copy_to-ok b'.buffer b'.writer_index bytes inside, sum)
      (yields (record {
        valid = record {
          reader = omega (arith, v'.reader);
          writer = omega (arith, same_length, inside);
          roomy = omega (arith, same_length, v'.roomy);
          bounded = omega (arith, same_length, v'.bounded);
        };
        content =
            ap (drop b'.reader_index) (take-overwrite b'.buffer b'.writer_index bytes inside)
            ∙ drop-append_le b'.reader_index (take b'.writer_index b'.buffer) bytes
                (omega (arith, length-take b'.writer_index b'.buffer, v'.reader, v'.writer))
            ∙ ap (λ xs. xs ++ bytes) s.kept;
        front = s.front;
        reach = omega (arith, s.reach);
      }))
  where
    space_for :
        Yields
          (HasSpace (length bytes) b)
          (if ltb (writable_bytes b) (length bytes) then make_space b (length bytes) else ok b)
    space_for =
        Yields-test (ltb (writable_bytes b) (length bytes))
          (λ e. make_space-HasSpace b v (length bytes) small (ground arith))
          λ e. yields (record {
            valid = v;
            kept = refl;
            space = ground arith;
            front = inl refl;
            reach = omega arith;
          })

-- `append` fits the bytes in, whether there is room, room once the content moves to the front, or
-- only in a larger block; the content grows by exactly the bytes.
pub append_correct :
    (b : LazyBuffer) (bytes : List ℕ)
    → IsValid b
    → b.writer_index + length bytes < 2 ^ 63
    → Yields (λ b'. IsValid b' × (contents b' ≡ contents b ++ bytes)) (append b bytes)
append_correct b bytes v small =
    Yields-weaken (λ b' a. (a.valid, a.content)) (append-Appended b bytes v small)

module _ (b : LazyBuffer) (v : IsValid b) (bytes : List ℕ) where
  -- `prepend` puts the bytes in front of the content, into the prependable part.
  pub prepend_correct :
      length bytes ≤ prependable_bytes b
      → Yields
          (λ b'.
            IsValid b'
            × (contents b' ≡ bytes ++ contents b)
            × (prependable_bytes b' + length bytes ≡ prependable_bytes b))
          (prepend b bytes)
  unfolding prepend prependable_bytes
  prepend_correct h =
      let len = length bytes in
      let r = b.reader_index in
      let fits : leb len r ≡ true = ground arith in
      let start = r - len in
      let sub : sub_size r len ≡ start = omega (arith, v.reader, v.writer, v.bounded) in
      let inside : start + len ≤ length b.buffer = omega (arith, v.reader, v.writer) in
      let same_length = length-overwrite b.buffer start bytes inside in
      let back : start + len ≡ r = omega arith in
      rw (fits, sub, copy_to-ok b.buffer start bytes inside)
        (yields (
          record {
            reader = omega (arith, v.reader);
            writer = omega (arith, same_length, v.writer);
            roomy = omega (arith, same_length, v.roomy);
            bounded = omega (arith, same_length, v.bounded);
          },
          drop-take-overwrite b.buffer start bytes inside b.writer_index (omega (arith, v.reader))
              ∙ ap (λ k. bytes ++ take (b.writer_index - k) (drop k b.buffer)) back
              ∙ ap (λ xs. bytes ++ xs) (sym (drop-take r b.writer_index b.buffer)),
          back,
        ))

  pub prepend-assert_failed : prependable_bytes b < length bytes → prepend b bytes ≡ assert_failed
  unfolding prepend
  prepend-assert_failed h =
      let short : leb (length bytes) (prependable_bytes b) ≡ false = ground arith in rw short
