-- ===== src/LazyBuffer/Tests.antt =====
-- Runs of LazyBuffer on concrete inputs, and the theorems about it at such inputs.
use lazyserver.Base.{
  ℕ, ◌+◌, ◌≤◌, ◌<◌, ◌^◌, ◌⊎◌, bad_alloc, fault, List, ◌≡◌, refl, [], ◌∷◌, arith, some, Yields,
}
use lazyserver.LazyBuffer.{
  LazyBuffer, find_crlf, search_crlf, begin_write, peek, shrink, readable_bytes,
}
use lazyserver.LazyBuffer.Invariant.{IsValid}
use lazyserver.LazyBuffer.Calls.{
  Call, put, put_front, skip, skip_to, get_string, perform_all, Text, MeansAll, Represents, puts,
  puts_front, skips, skips_to, gets, done, next,
}
use lazyserver.LazyBuffer.Calls.Refines.{perform_all-Represents}
use lazyserver.LazyBuffer.Shrink.{Shrunk, shrink-Shrunk}
use lazyserver.LazyBuffer.Search.{IsFirstMatch, find_crlf-IsFirstMatch}

-- "b\r\nc" stands behind the consumed byte "a".
abbrev sample : LazyBuffer
sample = record {
  buffer = 0 ∷ 0 ∷ 0 ∷ 0 ∷ 0 ∷ 0 ∷ 0 ∷ 0 ∷ b'a' ∷ b'b' ∷ 13 ∷ 10 ∷ b'c' ∷ 0 ∷ [];
  reader_index = 9;
  writer_index = 13;
}

sample-IsValid : IsValid sample
sample-IsValid = omega arith

-- The outcomes of `shrink` on the sample.
ReserveOutcome : ℕ → Type 0
ReserveOutcome reserve =
    ((8 + readable_bytes sample + reserve < 2 ^ 63)
      × Yields (Shrunk sample reserve) (shrink sample reserve))
    ⊎ ((2 ^ 63 ≤ 8 + readable_bytes sample + reserve)
        × (8 + readable_bytes sample + reserve < 2 ^ 64)
        × (shrink sample reserve ≡ bad_alloc))
    ⊎ ((2 ^ 64 ≤ 8 + readable_bytes sample + reserve) × (shrink sample reserve ≡ fault))

shrink-Shrunk_example : ReserveOutcome 5
unfolding ReserveOutcome readable_bytes
shrink-Shrunk_example = shrink-Shrunk sample sample-IsValid 5 (omega arith) (omega arith)

find_crlf-IsFirstMatch_example : IsFirstMatch 13 10 sample 9 (find_crlf 13 10 sample)
find_crlf-IsFirstMatch_example = find_crlf-IsFirstMatch 13 10 sample sample-IsValid

found : find_crlf 13 10 sample ≡ some 10
unfolding find_crlf search_crlf begin_write peek
found = refl

-- A line is skipped, a header is put in front, and more comes behind.
abbrev calls : List Call
calls =
    put (b'd' ∷ [])
    ∷ skip_to 3
    ∷ put_front (1 ∷ 2 ∷ [])
    ∷ get_string
    ∷ put (b'e' ∷ [])
    ∷ skip 1
    ∷ get_string
    ∷ []

abbrev sample_text : Text
sample_text = record { bytes = b'b' ∷ 13 ∷ 10 ∷ b'c' ∷ []; room = 8; reach = 13 }

calls-MeansAll :
    MeansAll sample_text calls
      ((1 ∷ 2 ∷ b'c' ∷ b'd' ∷ []) ∷ [] ∷ [])
      (record { bytes = []; room = 8; reach = 8 })
calls-MeansAll = next (puts (b'd' ∷ []) (omega arith)) (
    next (skips_to 3 (omega arith)) (
      next (puts_front (1 ∷ 2 ∷ []) (omega arith)) (
        next gets
          (next (puts (b'e' ∷ []) (omega arith)) (next (skips 1 (omega arith)) (next gets done))))))

sample-Represents : Represents sample sample_text
sample-Represents = record {
  valid = sample-IsValid;
  bytes = refl;
  room = omega arith;
  cheap = omega arith;
  reach = omega arith;
}

perform_all-Represents_example :
    Yields
      (λ (out, b').
        (out ≡ (1 ∷ 2 ∷ b'c' ∷ b'd' ∷ []) ∷ [] ∷ [])
        × Represents b' (record { bytes = []; room = 8; reach = 8 }))
      (perform_all calls sample)
perform_all-Represents_example = perform_all-Represents sample calls-MeansAll sample-Represents
