-- ===== src/LazyBuffer.antt =====
-- event_handler.h: the byte buffer LazyBuffer.
-- A pointer into the block of the vector is its offset from `begin()`. An assert is checked.
pub mod Invariant
pub mod Content
pub mod Append
pub mod Shrink
pub mod Search
pub mod Calls
mod Tests
use lazyserver.Base.{
  ℕ, zero, suc, ◌+◌, ◌-◌, ◌^◌, List, [], ◌∷◌, ◌++◌, Bool, true, false, ◌&&◌, ◌||◌, not, Option,
  none, some, Run, ok, fault, bad_alloc, assert, ◌>>=◌, ◌>>◌, if◌then◌else◌, ltb, leb, ◌==◌, length,
  take, drop, replicate, get_or, add_size, sub_size,
}
use lazyserver.Base.Slices.{overwrite}

pub record LazyBuffer : Type 0 where
  pub buffer : List ℕ
  pub reader_index : ℕ
  pub writer_index : ℕ

abbrev pub k_cheap_prepend : ℕ
k_cheap_prepend = 8

abbrev pub k_initial_size : ℕ
k_initial_size = 1024

unfoldable pub readable_bytes : LazyBuffer → ℕ
readable_bytes b = sub_size b.writer_index b.reader_index

unfoldable pub writable_bytes : LazyBuffer → ℕ
writable_bytes b = sub_size (length b.buffer) b.writer_index

unfoldable pub prependable_bytes : LazyBuffer → ℕ
prependable_bytes b = b.reader_index

unfoldable pub peek : LazyBuffer → ℕ
peek b = b.reader_index

unfoldable pub begin_write : LazyBuffer → ℕ
begin_write b = b.writer_index

-- `std::vector<char>(n)` and `resize(n)`: new cells are 0, and a size beyond `max_size()` throws.
pub new_vector : ℕ → Run (List ℕ)
new_vector n = if ltb n (2 ^ 63) then ok (replicate n 0) else bad_alloc

pub resize : List ℕ → ℕ → Run (List ℕ)
resize xs n = if ltb n (2 ^ 63) then ok (take n xs ++ replicate (n - length xs) 0) else bad_alloc

-- The n bytes from an offset on; outside the block it is undefined behaviour.
pub read_range : List ℕ → ℕ → ℕ → Run (List ℕ)
read_range xs from n = if leb (from + n) (length xs) then ok (take n (drop from xs)) else fault

-- `std::copy` into a block at an offset.
unfoldable pub copy_to : List ℕ → ℕ → List ℕ → Run (List ℕ)
copy_to xs to part = if leb (to + length part) (length xs) then ok (overwrite xs to part) else fault

-- `std::copy` within one block, where the target may not begin inside the source.
pub copy_within : List ℕ → ℕ → ℕ → ℕ → Run (List ℕ)
copy_within xs from n to =
    if leb from to && ltb to (from + n)
    then fault
    else do part ← read_range xs from n; copy_to xs to part

-- `LazyBuffer()`
unfoldable pub new_lazy_buffer : Run LazyBuffer
new_lazy_buffer = do
  block ← new_vector (add_size k_cheap_prepend k_initial_size)
  let b : LazyBuffer = record {
    buffer = block;
    reader_index = k_cheap_prepend;
    writer_index = k_cheap_prepend;
  }
  assert (readable_bytes b == 0)
  assert (writable_bytes b == k_initial_size)
  assert (prependable_bytes b == k_cheap_prepend)
  ok b

-- `a.swap(b)`: both buffers, after it.
pub swap : LazyBuffer → LazyBuffer → LazyBuffer × LazyBuffer
swap a b = (
  record { buffer = b.buffer; reader_index = b.reader_index; writer_index = b.writer_index },
  record { buffer = a.buffer; reader_index = a.reader_index; writer_index = a.writer_index },
)

unfoldable pub retrieve : LazyBuffer → ℕ → Run LazyBuffer
retrieve b len = do
  assert (leb len (readable_bytes b))
  ok (record b { reader_index = add_size b.reader_index len })

unfoldable pub retrieve_until : LazyBuffer → ℕ → Run LazyBuffer
retrieve_until b end = do
  assert (leb (peek b) end)
  assert (leb end (begin_write b))
  retrieve b (end - peek b)

unfoldable pub retrieve_all : LazyBuffer → LazyBuffer
retrieve_all b = record b { reader_index = k_cheap_prepend; writer_index = k_cheap_prepend }

unfoldable pub retrieve_as_string : LazyBuffer → Run (List ℕ × LazyBuffer)
retrieve_as_string b = do
  str ← read_range b.buffer (peek b) (readable_bytes b)
  ok (str, record b { reader_index = k_cheap_prepend; writer_index = k_cheap_prepend })

unfoldable pub make_space : LazyBuffer → ℕ → Run LazyBuffer
make_space b more =
    let enlarge : Run LazyBuffer = do
      block ← resize b.buffer (add_size b.writer_index more)
      ok (record b { buffer = block })
    in let move : Run LazyBuffer = do
      let used = readable_bytes b
      block ← copy_within b.buffer b.reader_index (b.writer_index - b.reader_index) k_cheap_prepend
      let b' = record b {
        buffer = block;
        reader_index = k_cheap_prepend;
        writer_index = add_size k_cheap_prepend used;
      }
      assert (used == readable_bytes b')
      ok b'
      in if ltb (add_size (writable_bytes b) (prependable_bytes b)) (add_size more k_cheap_prepend)
        then enlarge
        else move

-- `append(data, len)` for the `len` bytes at `data`; `append(str)` is the same call.
unfoldable pub append : LazyBuffer → List ℕ → Run LazyBuffer
append b bytes = do
  let len = length bytes
  b' ← (if ltb (writable_bytes b) len then make_space b len else ok b)
  assert (leb len (writable_bytes b'))
  block ← copy_to b'.buffer (begin_write b') bytes
  ok (record b' { buffer = block; writer_index = add_size b'.writer_index len })

unfoldable pub prepend : LazyBuffer → List ℕ → Run LazyBuffer
prepend b bytes = do
  let len = length bytes
  assert (leb len (prependable_bytes b))
  let start = sub_size b.reader_index len
  block ← copy_to b.buffer start bytes
  ok (record b { buffer = block; reader_index = start })

-- Only the block is exchanged: the indices stay.
unfoldable pub shrink : LazyBuffer → ℕ → Run LazyBuffer
shrink b reserve = do
  buf ← new_vector (add_size (add_size k_cheap_prepend (readable_bytes b)) reserve)
  part ← read_range b.buffer (peek b) (readable_bytes b)
  block ← copy_to buf k_cheap_prepend part
  ok (record b { buffer = block })

-- `kCRLF` is declared and nowhere defined, so its two bytes are parameters.
module _ (cr lf : ℕ) where
  -- `std::search` for the two bytes in the `n` bytes from offset i on: the first place of a match,
  -- or the end.
  pub search_crlf : List ℕ → ℕ → ℕ → ℕ
  search_crlf xs i zero = i
  search_crlf xs i (suc n) =
      if ltb 0 n && (get_or xs i 0 == cr && get_or xs (i + 1) 0 == lf)
      then i
      else search_crlf xs (i + 1) n

  -- `findCRLF(start)`, with the null pointer as `none`.
  unfoldable pub find_crlf_from : LazyBuffer → ℕ → Run (Option ℕ)
  find_crlf_from b start = do
    assert (leb (peek b) start)
    assert (leb start (begin_write b))
    let crlf = search_crlf b.buffer start (begin_write b - start)
    ok (if crlf == begin_write b then none else some crlf)

  -- `findCRLF()`
  unfoldable pub find_crlf : LazyBuffer → Option ℕ
  find_crlf b =
      let crlf = search_crlf b.buffer (peek b) (begin_write b - peek b) in
      if crlf == begin_write b then none else some crlf
