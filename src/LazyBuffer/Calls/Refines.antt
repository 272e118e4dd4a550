-- ===== src/LazyBuffer/Calls/Refines.antt =====
-- The calls of a LazyBuffer do what they mean for the bytes in it.
use lazyserver.Base.{
  ℕ, ◌+◌, ◌-◌, ◌≤◌, ◌≡◌, inl, inr, refl, ap, ◌∙◌, List, [], ◌∷◌, ◌++◌, length, drop, arith, Yields,
  yields, Yields-then, Yields-weaken, Yields-both, leb, true, add_size, sub_size, take, length-take,
}
use lazyserver.LazyBuffer.{
  LazyBuffer, begin_write, read_range, prepend, retrieve, retrieve_until, retrieve_all,
  retrieve_as_string, peek, prependable_bytes, new_lazy_buffer, new_vector, readable_bytes,
  writable_bytes,
}
use lazyserver.LazyBuffer.Invariant.{IsValid, contents, length-contents, readable_bytes_lem}
use lazyserver.LazyBuffer.Content.{retrieve_correct, retrieve_as_string_correct}
use lazyserver.LazyBuffer.Append.{append-Appended, prepend_correct, copy_to-ok}
use lazyserver.Base.Slices.{drop-all}
use lazyserver.LazyBuffer.Calls.{Call, perform, perform_all, Text, Means, MeansAll, Represents}

pub new_lazy_buffer-Represents :
    Yields (λ b. Represents b (record { bytes = []; room = 8; reach = 8 })) new_lazy_buffer
unfolding new_lazy_buffer new_vector readable_bytes writable_bytes prependable_bytes
new_lazy_buffer-Represents = yields (record {
  valid = omega arith;
  bytes = refl;
  room = omega arith;
  cheap = omega arith;
  reach = omega arith;
})

module _ (b : LazyBuffer) (v : IsValid b) where
  retrieve-indices :
      (len : ℕ)
      → len ≤ length (contents b)
      → Yields
          (λ b'. (b.reader_index ≤ b'.reader_index) × (b'.writer_index ≡ b.writer_index))
          (retrieve b len)
  unfolding retrieve
  retrieve-indices len h =
      let fits : leb len (readable_bytes b) ≡ true = ground (arith, length-contents b v) in
      let sum : add_size b.reader_index len ≡ b.reader_index + len =
        omega (arith, length-contents b v, readable_bytes_lem b v, v.reader, v.writer, v.bounded) in
      rw (fits, sum) (yields (omega arith, refl))

  retrieve_until-retrieve :
      (n : ℕ) → n ≤ length (contents b) → retrieve_until b (peek b + n) ≡ retrieve b n
  unfolding retrieve_until peek begin_write
  retrieve_until-retrieve n h =
      let above : leb b.reader_index (b.reader_index + n) ≡ true = ground arith in
      let below : leb (b.reader_index + n) b.writer_index ≡ true =
        ground (arith, h, length-contents b v, readable_bytes_lem b v, v.reader) in
      let rest : b.reader_index + n - b.reader_index ≡ n = omega arith in
      rw (above, below, rest) refl

  prepend-indices :
      (bytes : List ℕ)
      → length bytes ≤ b.reader_index
      → Yields
          (λ b'.
            (b'.reader_index ≡ b.reader_index - length bytes) × (b'.writer_index ≡ b.writer_index))
          (prepend b bytes)
  unfolding prepend prependable_bytes
  prepend-indices bytes h =
      let len = length bytes in
      let fits : leb len b.reader_index ≡ true = ground arith in
      let start = b.reader_index - len in
      let sub : sub_size b.reader_index len ≡ start =
        omega (arith, v.reader, v.writer, v.bounded) in
      let inside : start + len ≤ length b.buffer = omega (arith, v.reader, v.writer) in
      rw (fits, sub, copy_to-ok b.buffer start bytes inside) (yields (refl, refl))

  retrieve_as_string-indices :
      Yields (λ (str, b'). (b'.reader_index ≡ 8) × (b'.writer_index ≡ 8)) (retrieve_as_string b)
  unfolding retrieve_as_string read_range peek
  retrieve_as_string-indices =
      let inside : leb (b.reader_index + readable_bytes b) (length b.buffer) ≡ true =
        ground (arith, readable_bytes_lem b v, v.reader, v.writer) in
      rw inside (yields (refl, refl))

-- A call that only skips n bytes.
skipped :
    {t : Text} (b : LazyBuffer) (n : ℕ)
    → n ≤ length t.bytes
    → Represents b t
    → Yields (λ b'. Represents b' (record t { bytes = drop n t.bytes })) (retrieve b n)
skipped b n fits r =
    let h : n ≤ length (contents b) = rw r.bytes fits in
    Yields-weaken
      (λ b' ((v, content), (front, end)). record {
        valid = v;
        bytes = content ∙ ap (drop n) r.bytes;
        room = omega (arith, r.room, front);
        cheap = r.cheap;
        reach = omega (arith, r.reach, end);
      })
      (Yields-both (retrieve_correct b r.valid n h) (retrieve-indices b r.valid n h))

perform-Represents :
    {t t' : Text} {c : Call} {strs : List (List ℕ)} (b : LazyBuffer)
    → Means t c strs t'
    → Represents b t
    → Yields (λ (out, b'). (out ≡ strs) × Represents b' t') (perform c b)
unfolding perform retrieve_all prependable_bytes
perform-Represents b (Means.puts xs small) r =
    Yields-then (append-Appended b xs r.valid (omega (arith, r.reach))) λ b' a. yields (
      refl,
      record {
        valid = a.valid;
        bytes = a.content ∙ ap (λ ys. ys ++ xs) r.bytes;
        room = elim a.front [
          | inl same ↦ omega (arith, r.room)
          | inr eight ↦ omega (arith, r.cheap)
        ];
        cheap = r.cheap;
        reach = omega (arith, a.reach, r.reach);
      },
    )
perform-Represents b (Means.puts_front xs fits) r =
    let h : length xs ≤ b.reader_index = omega (arith, r.room) in
    Yields-then (Yields-both (prepend_correct b r.valid xs h) (prepend-indices b r.valid xs h))
      λ b' ((v, content, room), (front, end)). yields (
        refl,
        record {
          valid = v;
          bytes = content ∙ ap (λ ys. xs ++ ys) r.bytes;
          room = omega (arith, r.room, front);
          cheap = omega (arith, r.cheap);
          reach = omega (arith, r.reach, end);
        },
      )
perform-Represents b (Means.skips n fits) r =
    Yields-then (skipped b n fits r) λ b' r'. yields (refl, r')
perform-Represents b (Means.skips_to n fits) r =
    let h : n ≤ length (contents b) = rw r.bytes fits in
    rw (retrieve_until-retrieve b r.valid n h)
      (Yields-then (skipped b n fits r) λ b' r'. yields (refl, r'))
perform-Represents b Means.clears r =
    let v = r.valid in
    yields (
      refl,
      record {
        valid = record {
          reader = omega arith;
          writer = v.roomy;
          roomy = v.roomy;
          bounded = v.bounded;
        };
        bytes = drop-all 8 (take 8 b.buffer) (omega (arith, length-take 8 b.buffer, v.roomy));
        room = omega arith;
        cheap = omega arith;
        reach = omega arith;
      },
    )
perform-Represents b Means.gets r =
    Yields-then
      (Yields-both (retrieve_as_string_correct b r.valid) (retrieve_as_string-indices b r.valid))
      λ (str, b') ((is_all, v, none_left, room), (front, end)). yields (
        ap (λ xs. xs ∷ []) (is_all ∙ r.bytes),
        record {
          valid = v;
          bytes = none_left;
          room = omega (arith, front);
          cheap = omega arith;
          reach = omega (arith, end);
        },
      )

-- Any sequence of calls of `append`, `prepend`, `retrieve`, `retrieveUntil`, `retrieveAll` and
-- `retrieveAsString`, on a buffer that represents the bytes t: where each call is allowed by what a
-- user knows, all of them return, the strings are those that a plain list of bytes would give, and the
-- buffer represents the bytes that are left.
pub perform_all-Represents :
    {t t' : Text} {calls : List Call} {strs : List (List ℕ)} (b : LazyBuffer)
    → MeansAll t calls strs t'
    → Represents b t
    → Yields (λ (out, b'). (out ≡ strs) × Represents b' t') (perform_all calls b)
unfolding perform_all
perform_all-Represents b MeansAll.done r = yields (refl, r)
perform_all-Represents b (MeansAll.next m rest) r =
    Yields-then (perform-Represents b m r) λ (out, b') (e, r').
      Yields-then (perform_all-Represents b' rest r')
        λ (later, b'') (e', r''). yields (rw (e, e') refl, r'')
