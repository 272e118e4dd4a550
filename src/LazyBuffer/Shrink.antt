-- ===== src/LazyBuffer/Shrink.antt =====
-- `shrink`, which exchanges the block and leaves the indices.
use lazyserver.Base.{
  ◌-◌, ◌⊎◌, inl, inr, bad_alloc, fault, false, Bool-cases, ℕ, ◌+◌, ◌≤◌, ◌<◌, ◌^◌, ◌≡◌, ◌↔◌, refl,
  sym, ap, ◌∙◌, length, length-replicate, take, drop, arith, Yields, yields, ltb, leb, true,
  add_size, replicate,
}
use lazyserver.Base.Slices.{drop-take, overwrite, length-overwrite}
use lazyserver.LazyBuffer.{
  LazyBuffer, readable_bytes, peek, shrink, new_vector, read_range, copy_to,
}
use lazyserver.LazyBuffer.Invariant.{IsValid, contents, readable_bytes_lem, length-contents}
use lazyserver.LazyBuffer.Append.{copy_to-ok, drop-take-moved}

-- What `shrink` leaves. The content stands at the offset 8 of a block that fits it and `reserve`
-- more, and the indices are the old ones: so they fit the block only if the reader index was at
-- most `8 + reserve`, and show the content if it was 8.
pub record Shrunk (b : LazyBuffer) (reserve : ℕ) (b' : LazyBuffer) : Type 0 where
  pub size : length b'.buffer ≡ 8 + readable_bytes b + reserve
  pub reader : b'.reader_index ≡ b.reader_index
  pub writer : b'.writer_index ≡ b.writer_index
  pub placed : drop 8 (take (8 + readable_bytes b) b'.buffer) ≡ contents b
  pub valid : IsValid b' ↔ (b.reader_index ≤ 8 + reserve)
  pub kept : b.reader_index ≡ 8 → contents b' ≡ contents b

module _ (b : LazyBuffer) (v : IsValid b) (reserve : ℕ)
    (small : 8 + readable_bytes b + reserve < 2 ^ 63) where
  shrunk_lem : Yields (Shrunk b reserve) (shrink b reserve)
  unfolding shrink new_vector peek read_range
  shrunk_lem =
      let n = readable_bytes b in
      let r = readable_bytes_lem b v in
      let total = 8 + n + reserve in
      let sum : add_size (add_size 8 n) reserve ≡ total = omega arith in
      let fits : ltb total (2 ^ 63) ≡ true = ground arith in
      let inside : leb (b.reader_index + n) (length b.buffer) ≡ true =
        ground (arith, r, v.reader, v.writer) in
      let part : take n (drop b.reader_index b.buffer) ≡ contents b =
        ap (λ k. take k (drop b.reader_index b.buffer)) r
        ∙ sym (drop-take b.reader_index b.writer_index b.buffer) in
      let blank = replicate total 0 in
      let blank_size = length-replicate {A = ℕ} total 0 in
      let count = length-contents b v in
      let room : 8 + length (contents b) ≤ length blank = omega (arith, blank_size, count) in
      let block = overwrite blank 8 (contents b) in
      let size : length block ≡ total = length-overwrite blank 8 (contents b) room ∙ blank_size in
      let placed = drop-take-moved blank (contents b) n count (omega (arith, blank_size)) in
      rw (sum, fits, inside, part, copy_to-ok blank 8 (contents b) room)
        (yields (record {
          size = size;
          reader = refl;
          writer = refl;
          placed = placed;
          valid = (
            λ v'. omega (arith, v'.writer, size, r, v.reader),
            λ h. record {
              reader = v.reader;
              writer = omega (arith, size, r, v.reader);
              roomy = omega (arith, size);
              bounded = omega (arith, size);
            },
          );
          kept = λ e.
              let end : b.writer_index ≡ 8 + n = omega (arith, r, v.reader) in
              ap (λ k. drop k (take b.writer_index block)) e
              ∙ ap (λ k. drop 8 (take k block)) end
              ∙ placed;
        }))

module _ (b : LazyBuffer) (v : IsValid b) (reserve : ℕ) where
  -- A size of 2^63 or more, which no vector has, throws.
  shrink-large :
      2 ^ 63 ≤ 8 + readable_bytes b + reserve
      → 8 + readable_bytes b + reserve < 2 ^ 64
      → shrink b reserve ≡ bad_alloc
  unfolding shrink new_vector
  shrink-large large fits =
      let total = 8 + readable_bytes b + reserve in
      let sum : add_size (add_size 8 (readable_bytes b)) reserve ≡ total = omega arith in
      let over : ltb total (2 ^ 63) ≡ false = ground (arith, large) in rw (sum, over) refl

  -- A size that wraps is less than the content needs.
  shrink-wraps :
      8 + readable_bytes b ≤ 2 ^ 63
      → 2 ^ 64 ≤ 8 + readable_bytes b + reserve
      → reserve < 2 ^ 64
      → shrink b reserve ≡ fault
  unfolding shrink new_vector peek read_range copy_to
  shrink-wraps room wraps word =
      let n = readable_bytes b in
      let r = readable_bytes_lem b v in
      let total = 8 + n + reserve - 2 ^ 64 in
      let sum : add_size (add_size 8 n) reserve ≡ total = omega (arith, wraps, word, room) in
      let fits : ltb total (2 ^ 63) ≡ true = ground (arith, room, word) in
      let inside : leb (b.reader_index + n) (length b.buffer) ≡ true =
        ground (arith, r, v.reader, v.writer) in
      let part : take n (drop b.reader_index b.buffer) ≡ contents b =
        ap (λ k. take k (drop b.reader_index b.buffer)) r
        ∙ sym (drop-take b.reader_index b.writer_index b.buffer) in
      let count = length-contents b v in
      let blank_size = length-replicate {A = ℕ} total 0 in
      let short : leb (8 + length (contents b)) (length (replicate {A = ℕ} total 0)) ≡ false =
        ground (arith, blank_size, count, word, room) in
      rw (sum, fits, inside, part, short) refl

  -- Every outcome of `shrink` on a valid buffer whose content leaves room for 8 bytes in 2^63, by the
  -- size 8 + content + reserve that it asks for, for any `size_t` as the reserve. A size below 2^63
  -- gives a block that is filled, with the old indices; a size below 2^64 throws; and a larger one wraps,
  -- and the content is copied outside the block that is then made.
  pub shrink-Shrunk :
      8 + readable_bytes b ≤ 2 ^ 63
      → reserve < 2 ^ 64
      → ((8 + readable_bytes b + reserve < 2 ^ 63) × Yields (Shrunk b reserve) (shrink b reserve))
        ⊎ ((2 ^ 63 ≤ 8 + readable_bytes b + reserve)
            × (8 + readable_bytes b + reserve < 2 ^ 64)
            × (shrink b reserve ≡ bad_alloc))
        ⊎ ((2 ^ 64 ≤ 8 + readable_bytes b + reserve) × (shrink b reserve ≡ fault))
  shrink-Shrunk room word =
      let total = 8 + readable_bytes b + reserve in
      elim (Bool-cases (ltb total (2 ^ 63))) [
        | inl e ↦
            let small : total < 2 ^ 63 = ground (arith, e) in
            inl (small, shrunk_lem b v reserve small)
        | inr e ↦
            let large : 2 ^ 63 ≤ total = ground (arith, e) in
            elim (Bool-cases (ltb total (2 ^ 64))) [
              | inl e' ↦
                  let fits : total < 2 ^ 64 = ground (arith, e') in
                  inr (inl (large, fits, shrink-large large fits))
              | inr e' ↦
                  let wraps : 2 ^ 64 ≤ total = ground (arith, e') in
                  inr (inr (wraps, shrink-wraps room wraps word))
            ]
      ]
