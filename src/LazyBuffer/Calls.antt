-- ===== src/LazyBuffer/Calls.antt =====
-- Sequences of calls of a LazyBuffer, against plain lists of bytes.
pub mod Refines
use lazyserver.Base.{
  ℕ, ◌+◌, ◌-◌, ◌≤◌, ◌<◌, ◌^◌, ◌≡◌, inl, inr, refl, ap, sym, ◌∙◌, List, [], ◌∷◌, ◌++◌, length, drop,
  arith, Run, ok, ◌>>=◌, Yields, yields, Yields-then, Yields-weaken, Yields-both, leb, true,
  add_size, sub_size, take, length-take,
}
use lazyserver.LazyBuffer.{
  LazyBuffer, begin_write, read_range, append, prepend, retrieve, retrieve_until, retrieve_all,
  retrieve_as_string, peek, prependable_bytes, new_lazy_buffer, new_vector, readable_bytes,
  writable_bytes,
}
use lazyserver.LazyBuffer.Invariant.{IsValid, contents, length-contents, readable_bytes_lem}
use lazyserver.LazyBuffer.Content.{
  retrieve_correct, retrieve_until_correct, retrieve_as_string_correct,
}
use lazyserver.LazyBuffer.Append.{append-Appended, prepend_correct, copy_to-ok}
use lazyserver.Base.Slices.{drop-all}

-- `skip_to n` is `retrieveUntil(peek() + n)`.
pub data Call : Type 0 where
  put : List ℕ → Call
  put_front : List ℕ → Call
  skip : ℕ → Call
  skip_to : ℕ → Call
  clear : Call
  get_string : Call

-- A call, with the string that it gives.
unfoldable pub perform : Call → LazyBuffer → Run (List (List ℕ) × LazyBuffer)
perform (put bytes) b = do b' ← append b bytes; ok ([], b')
perform (put_front bytes) b = do b' ← prepend b bytes; ok ([], b')
perform (skip len) b = do b' ← retrieve b len; ok ([], b')
perform (skip_to n) b = do b' ← retrieve_until b (peek b + n); ok ([], b')
perform clear b = ok ([], retrieve_all b)
perform get_string b = do (str, b') ← retrieve_as_string b; ok (str ∷ [], b')

unfoldable pub perform_all : List Call → LazyBuffer → Run (List (List ℕ) × LazyBuffer)
perform_all [] b = ok ([], b)
perform_all (c ∷ calls) b = do
  (strs, b') ← perform c b
  (later, b'') ← perform_all calls b'
  ok (strs ++ later, b'')

-- What a user knows: the bytes in the buffer, how many bytes `prepend` is sure to take, and a bound
-- of the end of the bytes in the block.
pub record Text : Type 0 where
  pub bytes : List ℕ
  pub room : ℕ
  pub reach : ℕ

-- What a call that is allowed gives and makes of the bytes. Nothing is said of the block.
pub data Means : Text → Call → List (List ℕ) → Text → Type 0 where
  puts :
      {t : Text} (xs : List ℕ)
      → t.reach + length xs < 2 ^ 63
      → Means t (Call.put xs) [] (record t { bytes = t.bytes ++ xs; reach = t.reach + length xs })
  puts_front :
      {t : Text} (xs : List ℕ)
      → length xs ≤ t.room
      → Means t
          (Call.put_front xs)
          []
          (record t { bytes = xs ++ t.bytes; room = t.room - length xs })
  skips :
      {t : Text} (n : ℕ)
      → n ≤ length t.bytes
      → Means t (Call.skip n) [] (record t { bytes = drop n t.bytes })
  skips_to :
      {t : Text} (n : ℕ)
      → n ≤ length t.bytes
      → Means t (Call.skip_to n) [] (record t { bytes = drop n t.bytes })
  clears : {t : Text} → Means t Call.clear [] (record { bytes = []; room = 8; reach = 8 })
  gets :
      {t : Text}
      → Means t Call.get_string (t.bytes ∷ []) (record { bytes = []; room = 8; reach = 8 })

pub data MeansAll : Text → List Call → List (List ℕ) → Text → Type 0 where
  done : {t : Text} → MeansAll t [] [] t
  next :
      {t t' t'' : Text} {c : Call} {calls : List Call} {strs later : List (List ℕ)}
      → Means t c strs t'
      → MeansAll t' calls later t''
      → MeansAll t (c ∷ calls) (strs ++ later) t''

pub record Represents (b : LazyBuffer) (t : Text) : Type 0 where
  pub valid : IsValid b
  pub bytes : contents b ≡ t.bytes
  pub room : t.room ≤ b.reader_index
  pub cheap : t.room ≤ 8
  pub reach : b.writer_index ≤ t.reach
