-- ===== src/BufferV/Tests.antt =====
-- A BufferV beside a LazyBuffer.
use lazyserver.Base.{ℕ, List, [], ◌∷◌, ◌≡◌}
use lazyserver.LazyBuffer.{LazyBuffer, shrink, find_crlf, find_crlf_from, new_lazy_buffer}
use lazyserver.LazyBuffer.Calls.{Call, perform_all}
use lazyserver.BufferV.{
  new_buffer_v, shrink as shrink_v, find_crlf as find_crlf_v, find_crlf_from as find_crlf_from_v,
}
use lazyserver.BufferV.Alike.{Alike}
use lazyserver.BufferV.Same.{to_v, IsSame, IsSameOut, perform_all_v, buffer_v_agrees}

-- "b\r\n" stands behind the consumed byte "a".
abbrev sample : LazyBuffer
sample = record {
  buffer = 0 ∷ 0 ∷ 0 ∷ 0 ∷ 0 ∷ 0 ∷ 0 ∷ 0 ∷ b'a' ∷ b'b' ∷ 13 ∷ 10 ∷ 0 ∷ [];
  reader_index = 9;
  writer_index = 12;
}

buffer_v_agrees_example :
    ((calls : List Call)
      → Alike IsSameOut (perform_all calls sample) (perform_all_v calls (to_v sample)))
    × ((reserve : ℕ) → Alike IsSame (shrink sample reserve) (shrink_v (to_v sample) reserve))
    × ((cr lf : ℕ) → find_crlf_v cr lf (to_v sample) ≡ find_crlf cr lf sample)
    × ((cr lf start : ℕ)
        → find_crlf_from_v cr lf (to_v sample) start ≡ find_crlf_from cr lf sample start)
    × Alike IsSame new_lazy_buffer new_buffer_v
buffer_v_agrees_example = buffer_v_agrees sample
