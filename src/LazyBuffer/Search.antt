-- ===== src/LazyBuffer/Search.antt =====
-- `findCRLF`: the first end of line among the readable bytes.
use lazyserver.Base.{
  ℕ, zero, suc, ◌+◌, ◌-◌, ◌≤◌, ◌<◌, ◌≡◌, ◌⊎◌, inl, inr, List, get_or, arith, Option, none, some,
  true, Yields, yields, ltb, leb, ◌&&◌, ◌==◌, if◌then◌else◌, Bool-cases,
}
use lazyserver.LazyBuffer.{LazyBuffer, peek, begin_write, search_crlf, find_crlf_from, find_crlf}
use lazyserver.LazyBuffer.Invariant.{IsValid}

module _ (cr lf : ℕ) where
  -- The two bytes stand at offset i.
  abbrev pub IsMatch : List ℕ → ℕ → Type 0
  IsMatch xs i = (get_or xs i 0 ≡ cr) × (get_or xs (i + 1) 0 ≡ lf)

  -- `found` is the first match of `xs` that begins at `i` or later and ends by `end`, or `end`.
  abbrev IsFirst : List ℕ → ℕ → ℕ → ℕ → Type 0
  IsFirst xs i end found =
      (i ≤ found)
      × (found ≤ end)
      × ((found ≡ end) ⊎ ((found + 1 < end) × IsMatch xs found))
      × ((j : ℕ) → i ≤ j → j < found → j + 1 < end → ¬ IsMatch xs j)

  search_crlf-IsFirst :
      (xs : List ℕ) (i n end : ℕ) → i + n ≡ end → IsFirst xs i end (search_crlf cr lf xs i n)
  unfolding search_crlf
  search_crlf-IsFirst xs i zero end e =
      (omega arith, omega arith, inl (omega arith), λ j lo hi in_range m. absurd (omega arith))
  search_crlf-IsFirst xs i (suc n) end e =
      let ih = search_crlf-IsFirst xs (i + 1) n end (omega arith) in
      elim (Bool-cases (ltb 0 n && (get_or xs i 0 == cr && get_or xs (i + 1) 0 == lf))) [
        | inl here ↦ rw here (
          omega arith,
          omega arith,
          inr (ground arith, (ground arith, ground arith)),
          λ j lo hi in_range m. absurd (omega arith),
        )
        | inr later ↦ rw later (
          omega (arith, ih.0),
          ih.1,
          ih.2,
          λ j lo hi in_range m. elim (Bool-cases (i == j)) [
            | inl here ↦ ground arith
            | inr past ↦ ih.3 j (ground arith) hi in_range m
          ],
        )
      ]

  -- `none` if no two readable bytes from `start` on match, and else the first that do.
  abbrev pub IsFirstMatch : LazyBuffer → ℕ → Option ℕ → Type 0
  IsFirstMatch b start none = (j : ℕ) → start ≤ j → j + 1 < b.writer_index → ¬ IsMatch b.buffer j
  IsFirstMatch b start (some i) =
      (start ≤ i)
      × (i + 1 < b.writer_index)
      × IsMatch b.buffer i
      × ((j : ℕ) → start ≤ j → j < i → ¬ IsMatch b.buffer j)

  IsFirstMatch-of :
      (b : LazyBuffer) (start found : ℕ)
      → IsFirst b.buffer start b.writer_index found
      → IsFirstMatch b start (if found == b.writer_index then none else some found)
  IsFirstMatch-of b start found f = elim (Bool-cases (found == b.writer_index)) [
    | inl at_end ↦ rw at_end (λ j lo hi. f.3 j lo (ground arith) hi)
    | inr before ↦ rw before (elim f.2 [
      | inl e ↦ absurd (ground arith)
      | inr (inside, m) ↦ (f.0, inside, m, λ j lo hi. f.3 j lo hi (omega arith))
    ])
  ]

  module _ (b : LazyBuffer) (v : IsValid b) where
    -- `findCRLF()` looks through exactly the readable bytes.
    pub find_crlf-IsFirstMatch : IsFirstMatch b b.reader_index (find_crlf cr lf b)
    unfolding find_crlf peek begin_write
    find_crlf-IsFirstMatch = IsFirstMatch-of b b.reader_index _ (
        search_crlf-IsFirst b.buffer b.reader_index (b.writer_index - b.reader_index) b.writer_index
          (omega (arith, v.reader)))

    -- `findCRLF(start)` does so from `start`, which it asserts to stand among the readable bytes.
    pub find_crlf_from-IsFirstMatch :
        (start : ℕ)
        → b.reader_index ≤ start
        → start ≤ b.writer_index
        → Yields (IsFirstMatch b start) (find_crlf_from cr lf b start)
    unfolding find_crlf_from peek begin_write
    find_crlf_from-IsFirstMatch start lo hi =
        let above : leb b.reader_index start ≡ true = ground arith in
        let below : leb start b.writer_index ≡ true = ground arith in
        rw (above, below)
          (yields (
            IsFirstMatch-of b start _ (
              search_crlf-IsFirst b.buffer start (b.writer_index - start) b.writer_index
                (omega arith))))
