-- ===== src/BufferV.antt =====
-- buffer.h: the class BufferV, which nothing in the program uses. The constants and what it calls on
-- the vector are those of LazyBuffer.
pub mod Alike
pub mod Same
mod Tests
use lazyserver.Base.{
  ℕ, zero, suc, ◌+◌, ◌-◌, ◌^◌, List, [], ◌∷◌, ◌++◌, Bool, true, false, Option, none, some, Run, ok,
  assert, ◌>>=◌, ◌>>◌, if◌then◌else◌, ltb, leb, ◌==◌, length, add_size, sub_size,
}
use lazyserver.LazyBuffer.{
  k_cheap_prepend, k_initial_size, new_vector, resize, read_range, copy_to, copy_within,
  search_crlf,
}

pub record BufferV : Type 0 where
  pub buffer : List ℕ
  pub reader_index : ℕ
  pub writer_index : ℕ

pub readable_bytes : BufferV → ℕ
readable_bytes b = sub_size b.writer_index b.reader_index

pub writable_bytes : BufferV → ℕ
writable_bytes b = sub_size (length b.buffer) b.writer_index

pub prependable_bytes : BufferV → ℕ
prependable_bytes b = b.reader_index

pub peek : BufferV → ℕ
peek b = b.reader_index

pub begin_write : BufferV → ℕ
begin_write b = b.writer_index

-- `BufferV()`
pub new_buffer_v : Run BufferV
new_buffer_v = do
  block ← new_vector (add_size k_cheap_prepend k_initial_size)
  let b : BufferV = record {
    buffer = block;
    reader_index = k_cheap_prepend;
    writer_index = k_cheap_prepend;
  }
  assert (readable_bytes b == 0)
  assert (writable_bytes b == k_initial_size)
  assert (prependable_bytes b == k_cheap_prepend)
  ok b

-- `a.swap(b)`: both buffers, after it.
pub swap : BufferV → BufferV → BufferV × BufferV
swap a b = (
  record { buffer = b.buffer; reader_index = b.reader_index; writer_index = b.writer_index },
  record { buffer = a.buffer; reader_index = a.reader_index; writer_index = a.writer_index },
)

pub retrieve : BufferV → ℕ → Run BufferV
retrieve b len = do
  assert (leb len (readable_bytes b))
  ok (record b { reader_index = add_size b.reader_index len })

pub retrieve_until : BufferV → ℕ → Run BufferV
retrieve_until b end = do
  assert (leb (peek b) end)
  assert (leb end (begin_write b))
  retrieve b (end - peek b)

pub retrieve_all : BufferV → BufferV
retrieve_all b = record b { reader_index = k_cheap_prepend; writer_index = k_cheap_prepend }

pub retrieve_as_string : BufferV → Run (List ℕ × BufferV)
retrieve_as_string b = do
  str ← read_range b.buffer (peek b) (readable_bytes b)
  ok (str, record b { reader_index = k_cheap_prepend; writer_index = k_cheap_prepend })

pub make_space : BufferV → ℕ → Run BufferV
make_space b more =
    let enlarge : Run BufferV = do
      block ← resize b.buffer (add_size b.writer_index more)
      ok (record b { buffer = block })
    in let move : Run BufferV = do
      let used = readable_bytes b
      block ← copy_within b.buffer b.reader_index (b.writer_index - b.reader_index) k_cheap_prepend
      let b' = record b {
        buffer = block;
        reader_index = k_cheap_prepend;
        writer_index = add_size k_cheap_prepend used;
      }
      assert (used == readable_bytes b')
      ok b'
      in if ltb (add_size (writable_bytes b) (prependable_bytes b)) (add_size more k_cheap_prepend)
        then enlarge
        else move

-- `append(data, len)` for the `len` bytes at `data`; `append(str)` is the same call.
pub append : BufferV → List ℕ → Run BufferV
append b bytes = do
  let len = length bytes
  b' ← (if ltb (writable_bytes b) len then make_space b len else ok b)
  assert (leb len (writable_bytes b'))
  block ← copy_to b'.buffer (begin_write b') bytes
  ok (record b' { buffer = block; writer_index = add_size b'.writer_index len })

pub prepend : BufferV → List ℕ → Run BufferV
prepend b bytes = do
  let len = length bytes
  assert (leb len (prependable_bytes b))
  let start = sub_size b.reader_index len
  block ← copy_to b.buffer start bytes
  ok (record b { buffer = block; reader_index = start })

-- Only the block is exchanged: the indices stay.
pub shrink : BufferV → ℕ → Run BufferV
shrink b reserve = do
  buf ← new_vector (add_size (add_size k_cheap_prepend (readable_bytes b)) reserve)
  part ← read_range b.buffer (peek b) (readable_bytes b)
  block ← copy_to buf k_cheap_prepend part
  ok (record b { buffer = block })

-- `kCRLF` is declared and nowhere defined, so its two bytes are parameters.
module _ (cr lf : ℕ) where
  -- `findCRLF(start)`, with the null pointer as `none`.
  pub find_crlf_from : BufferV → ℕ → Run (Option ℕ)
  find_crlf_from b start = do
    assert (leb (peek b) start)
    assert (leb start (begin_write b))
    let crlf = search_crlf cr lf b.buffer start (begin_write b - start)
    ok (if crlf == begin_write b then none else some crlf)

  -- `findCRLF()`
  pub find_crlf : BufferV → Option ℕ
  find_crlf b =
      let crlf = search_crlf cr lf b.buffer (peek b) (begin_write b - peek b) in
      if crlf == begin_write b then none else some crlf
