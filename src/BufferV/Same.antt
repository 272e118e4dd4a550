-- ===== src/BufferV/Same.antt =====
-- BufferV does what LazyBuffer does.
use lazyserver.Base.{
  ℕ, ◌+◌, ◌-◌, ◌≡◌, refl, List, [], ◌∷◌, ◌++◌, length, Run, ok, ◌>>=◌, ◌>>◌, assert, leb, ltb, ◌==◌,
  add_size, sub_size,
}
use lazyserver.LazyBuffer.{
  LazyBuffer, k_cheap_prepend, k_initial_size, new_vector, resize, read_range, copy_to, copy_within,
  readable_bytes, writable_bytes, prependable_bytes, peek, begin_write, retrieve, retrieve_until,
  retrieve_all, retrieve_as_string, make_space, append, prepend, shrink, find_crlf, find_crlf_from,
  new_lazy_buffer,
}
use lazyserver.LazyBuffer.Calls.{
  Call, put, put_front, skip, skip_to, clear, get_string, perform, perform_all,
}
use lazyserver.BufferV.{
  BufferV, new_buffer_v, readable_bytes as readable_bytes_v, writable_bytes as writable_bytes_v,
  prependable_bytes as prependable_bytes_v, peek as peek_v, begin_write as begin_write_v,
  retrieve as retrieve_v, retrieve_until as retrieve_until_v, retrieve_all as retrieve_all_v,
  retrieve_as_string as retrieve_as_string_v, make_space as make_space_v, append as append_v,
  prepend as prepend_v, shrink as shrink_v, find_crlf as find_crlf_v,
  find_crlf_from as find_crlf_from_v,
}
use lazyserver.BufferV.Alike.{Alike, both_ok, Alike-then, Alike-same, Alike-test}

-- The BufferV with the same block and indices.
abbrev pub to_v : LazyBuffer → BufferV
to_v b = record { buffer = b.buffer; reader_index = b.reader_index; writer_index = b.writer_index }

pub data IsSame : LazyBuffer → BufferV → Type 0 where
  same : (b : LazyBuffer) → IsSame b (to_v b)

-- A result with the same string and buffer.
pub data IsSameOut {ℓ} {S : Type ℓ} : S × LazyBuffer → S × BufferV → Type ℓ where
  same_out : (strs : S) (b : LazyBuffer) → IsSameOut (strs, b) (strs, to_v b)

-- A call on a BufferV, with the string that it gives.
pub perform_v : Call → BufferV → Run (List (List ℕ) × BufferV)
perform_v (put bytes) b = do b' ← append_v b bytes; ok ([], b')
perform_v (put_front bytes) b = do b' ← prepend_v b bytes; ok ([], b')
perform_v (skip len) b = do b' ← retrieve_v b len; ok ([], b')
perform_v (skip_to n) b = do b' ← retrieve_until_v b (peek_v b + n); ok ([], b')
perform_v clear b = ok ([], retrieve_all_v b)
perform_v get_string b = do (str, b') ← retrieve_as_string_v b; ok (str ∷ [], b')

pub perform_all_v : List Call → BufferV → Run (List (List ℕ) × BufferV)
perform_all_v [] b = ok ([], b)
perform_all_v (c ∷ calls) b = do
  (strs, b') ← perform_v c b
  (later, b'') ← perform_all_v calls b'
  ok (strs ++ later, b'')

new_buffer_v-Alike : Alike IsSame new_lazy_buffer new_buffer_v
unfolding new_lazy_buffer new_buffer_v readable_bytes writable_bytes prependable_bytes
    readable_bytes_v writable_bytes_v prependable_bytes_v
new_buffer_v-Alike = Alike-same (new_vector (add_size k_cheap_prepend k_initial_size)) λ block.
    Alike-same (assert (sub_size k_cheap_prepend k_cheap_prepend == 0)) λ readable.
      Alike-same (assert (sub_size (length block) k_cheap_prepend == k_initial_size)) λ writable.
        Alike-same (assert (k_cheap_prepend == k_cheap_prepend)) λ prependable. both_ok (
          same (record {
            buffer = block;
            reader_index = k_cheap_prepend;
            writer_index = k_cheap_prepend;
          }))

module _ (b : LazyBuffer) where
  retrieve-Alike : (len : ℕ) → Alike IsSame (retrieve b len) (retrieve_v (to_v b) len)
  unfolding retrieve retrieve_v readable_bytes readable_bytes_v
  retrieve-Alike len =
      Alike-same (assert (leb len (sub_size b.writer_index b.reader_index)))
        λ u. both_ok (same (record b { reader_index = add_size b.reader_index len }))

  retrieve_until-Alike :
      (end : ℕ) → Alike IsSame (retrieve_until b end) (retrieve_until_v (to_v b) end)
  unfolding retrieve_until retrieve_until_v peek peek_v begin_write begin_write_v
  retrieve_until-Alike end =
      Alike-same (assert (leb b.reader_index end)) λ u.
        Alike-same (assert (leb end b.writer_index)) λ u'. retrieve-Alike (end - b.reader_index)

  retrieve_as_string-Alike : Alike IsSameOut (retrieve_as_string b) (retrieve_as_string_v (to_v b))
  unfolding retrieve_as_string retrieve_as_string_v peek peek_v readable_bytes readable_bytes_v
  retrieve_as_string-Alike =
      let n = sub_size b.writer_index b.reader_index in
      Alike-same (read_range b.buffer b.reader_index n) λ str.
        both_ok (
          same_out str
            (record b { reader_index = k_cheap_prepend; writer_index = k_cheap_prepend }))

  make_space-Alike : (more : ℕ) → Alike IsSame (make_space b more) (make_space_v (to_v b) more)
  unfolding make_space make_space_v readable_bytes readable_bytes_v writable_bytes writable_bytes_v
      prependable_bytes prependable_bytes_v
  make_space-Alike more =
      let used = sub_size b.writer_index b.reader_index in
      let free = sub_size (length b.buffer) b.writer_index in
      let end = add_size k_cheap_prepend used in
      Alike-test (ltb (add_size free b.reader_index) (add_size more k_cheap_prepend))
        (Alike-same (resize b.buffer (add_size b.writer_index more))
          λ block. both_ok (same (record b { buffer = block })))
        (Alike-same
          (copy_within b.buffer b.reader_index (b.writer_index - b.reader_index) k_cheap_prepend)
          λ block. Alike-same (assert (used == sub_size end k_cheap_prepend)) λ u.
            both_ok (
              same (record { buffer = block; reader_index = k_cheap_prepend; writer_index = end })))

  prepend-Alike : (bytes : List ℕ) → Alike IsSame (prepend b bytes) (prepend_v (to_v b) bytes)
  unfolding prepend prepend_v prependable_bytes prependable_bytes_v
  prepend-Alike bytes =
      let start = sub_size b.reader_index (length bytes) in
      Alike-same (assert (leb (length bytes) b.reader_index)) λ u.
        Alike-same (copy_to b.buffer start bytes)
          λ block. both_ok (same (record b { buffer = block; reader_index = start }))

  shrink-Alike : (reserve : ℕ) → Alike IsSame (shrink b reserve) (shrink_v (to_v b) reserve)
  unfolding shrink shrink_v peek peek_v readable_bytes readable_bytes_v
  shrink-Alike reserve =
      let n = sub_size b.writer_index b.reader_index in
      Alike-same (new_vector (add_size (add_size k_cheap_prepend n) reserve)) λ buf.
        Alike-same (read_range b.buffer b.reader_index n) λ part.
          Alike-same (copy_to buf k_cheap_prepend part)
            λ block. both_ok (same (record b { buffer = block }))

appended :
    (bytes : List ℕ) (b : LazyBuffer) (v : BufferV)
    → IsSame b v
    → Alike IsSame
        (assert (leb (length bytes) (writable_bytes b))
          >> (copy_to b.buffer (begin_write b) bytes >>= λ block.
              ok (record b {
                buffer = block;
                writer_index = add_size b.writer_index (length bytes);
              })))
        (assert (leb (length bytes) (writable_bytes_v v))
          >> (copy_to v.buffer (begin_write_v v) bytes >>= λ block.
              ok (record v {
                buffer = block;
                writer_index = add_size v.writer_index (length bytes);
              })))
unfolding writable_bytes writable_bytes_v begin_write begin_write_v
appended bytes _ _ (same b) =
    let n = length bytes in
    Alike-same (assert (leb n (sub_size (length b.buffer) b.writer_index))) λ u.
      Alike-same (copy_to b.buffer b.writer_index bytes) λ block.
        both_ok (same (record b { buffer = block; writer_index = add_size b.writer_index n }))

append-Alike :
    (b : LazyBuffer) (bytes : List ℕ) → Alike IsSame (append b bytes) (append_v (to_v b) bytes)
unfolding append append_v writable_bytes writable_bytes_v
append-Alike b bytes =
    let free = sub_size (length b.buffer) b.writer_index in
    Alike-then
      (Alike-test (ltb free (length bytes)) (make_space-Alike b (length bytes)) (both_ok (same b)))
      (appended bytes)

-- A call that gives no string.
silent :
    (b : LazyBuffer) (v : BufferV)
    → IsSame b v
    → Alike (IsSameOut {S = List (List ℕ)}) (ok ([], b)) (ok ([], v))
silent _ _ (same b) = both_ok (same_out [] b)

one_string :
    (out : List ℕ × LazyBuffer) (out' : List ℕ × BufferV)
    → IsSameOut out out'
    → Alike IsSameOut (ok (out.0 ∷ [], out.1)) (ok (out'.0 ∷ [], out'.1))
one_string _ _ (same_out str b) = both_ok (same_out (str ∷ []) b)

perform-Alike : (c : Call) (b : LazyBuffer) → Alike IsSameOut (perform c b) (perform_v c (to_v b))
unfolding perform perform_v peek peek_v retrieve_all retrieve_all_v
perform-Alike (put bytes) b = Alike-then (append-Alike b bytes) silent
perform-Alike (put_front bytes) b = Alike-then (prepend-Alike b bytes) silent
perform-Alike (skip len) b = Alike-then (retrieve-Alike b len) silent
perform-Alike (skip_to n) b = Alike-then (retrieve_until-Alike b (b.reader_index + n)) silent
perform-Alike clear b =
    both_ok
      (same_out [] (record b { reader_index = k_cheap_prepend; writer_index = k_cheap_prepend }))
perform-Alike get_string b = Alike-then (retrieve_as_string-Alike b) one_string

-- More strings behind those that are there.
more_strings :
    (strs : List (List ℕ)) (out : List (List ℕ) × LazyBuffer) (out' : List (List ℕ) × BufferV)
    → IsSameOut out out'
    → Alike IsSameOut (ok (strs ++ out.0, out.1)) (ok (strs ++ out'.0, out'.1))
more_strings strs _ _ (same_out later b) = both_ok (same_out (strs ++ later) b)

then_calls :
    (calls : List Call)
    → ((b : LazyBuffer) → Alike IsSameOut (perform_all calls b) (perform_all_v calls (to_v b)))
    → (out : List (List ℕ) × LazyBuffer) (out' : List (List ℕ) × BufferV) → IsSameOut out out'
    → Alike IsSameOut
        (perform_all calls out.1 >>= λ (later, b). ok (out.0 ++ later, b))
        (perform_all_v calls out'.1 >>= λ (later, v). ok (out'.0 ++ later, v))
then_calls calls alike _ _ (same_out strs b) = Alike-then (alike b) (more_strings strs)

perform_all-Alike :
    (calls : List Call) (b : LazyBuffer)
    → Alike IsSameOut (perform_all calls b) (perform_all_v calls (to_v b))
unfolding perform_all perform_all_v
perform_all-Alike [] b = both_ok (same_out [] b)
perform_all-Alike (c ∷ calls) b =
    Alike-then (perform-Alike c b) (then_calls calls λ b'. perform_all-Alike calls b')

-- A BufferV ends every sequence of the calls as a LazyBuffer with the same block and indices does:
-- with the same strings, block and indices, or in the same failure. So does its `shrink`, its
-- `findCRLF` finds the same place, and its constructor makes the same buffer.
pub buffer_v_agrees :
    (b : LazyBuffer)
    → ((calls : List Call) → Alike IsSameOut (perform_all calls b) (perform_all_v calls (to_v b)))
      × ((reserve : ℕ) → Alike IsSame (shrink b reserve) (shrink_v (to_v b) reserve))
      × ((cr lf : ℕ) → find_crlf_v cr lf (to_v b) ≡ find_crlf cr lf b)
      × ((cr lf start : ℕ) → find_crlf_from_v cr lf (to_v b) start ≡ find_crlf_from cr lf b start)
      × Alike IsSame new_lazy_buffer new_buffer_v
unfolding find_crlf find_crlf_v find_crlf_from find_crlf_from_v peek peek_v begin_write
    begin_write_v
buffer_v_agrees b = (
  λ calls. perform_all-Alike calls b,
  λ reserve. shrink-Alike b reserve,
  λ cr lf. refl,
  λ cr lf start. refl,
  new_buffer_v-Alike,
)
