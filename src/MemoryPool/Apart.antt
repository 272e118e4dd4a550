-- ===== src/MemoryPool/Apart.antt =====
-- Who has each byte: the free lists, the free heap, or one block in use.
pub mod Get
pub mod Give
pub mod Steps
use lazyserver.Base.{
  ℕ, zero, suc, ◌+◌, ◌-◌, ◌%◌, ◌≤◌, ◌<◌, ◌^◌, ◌≡◌, ◌⊎◌, inl, inr, refl, ap, sym, ◌∙◌, List, [], ◌∷◌,
  ◌++◌, length, arith, Bool-cases, true, false, ok, Yields, yields, Yields-weaken, ok-injective,
  Yields-value, Yields-ok, ltb, leb, if◌then◌else◌,
}
use mathlib.Core.Path.{subst}
use lazyserver.MemoryPool.{Pool, initial, round_up, freelist_index, push_free, allocate, deallocate}
use lazyserver.MemoryPool.Classes.{freelist_index_fits}
use lazyserver.MemoryPool.Total.{Measure, IsMeasure, free, IsValid, Stored, push_free-Stored}
use lazyserver.MemoryPool.Build.{Gives, request, obtained}
use lazyserver.MemoryPool.Reuse.{allocate_correct}

-- Whether the byte at x is in the block of n bytes at p.
abbrev pub at : ℕ → Measure
at x p n = if leb p x then (if ltb x (p + n) then 1 else 0) else 0

pub at-IsMeasure : (x : ℕ) → IsMeasure (at x)
at-IsMeasure x = record { joins = λ p n m. ground arith }

-- The bytes that a request gets.
abbrev pub size_of : ℕ → ℕ
size_of bytes = if ltb 128 bytes then bytes else round_up bytes

-- What a request may ask of the system.
abbrev pub asked : Pool → ℕ → ℕ
asked pool bytes = if ltb 128 bytes then bytes else request pool (round_up bytes)

-- The blocks in use: the address of each, and the bytes of the request.
abbrev pub Blocks : Type 0
Blocks = List (ℕ × ℕ)

abbrev pub in_use : Measure → Blocks → ℕ
in_use w [] = 0
in_use w ((p, bytes) ∷ used) = w p (size_of bytes) + in_use w used

-- The pool is valid, and each byte of the address space is in one block in use, or in one place of the
-- pool, or in neither; and none has the null pointer.
pub record IsApart (pool : Pool) (used : Blocks) : Type 0 where
  pub valid : IsValid pool
  pub once : (x : ℕ) → free (at x) pool + in_use (at x) used ≤ 1
  pub null : free (at 0) pool + in_use (at 0) used ≡ 0

-- `malloc` gives n bytes that nobody has.
pub record IsFresh (malloc : ℕ → ℕ) (pool : Pool) (used : Blocks) (n : ℕ) : Type 0 where
  pub gives : Gives malloc n
  pub new : (x : ℕ) → at x (malloc n) n + (free (at x) pool + in_use (at x) used) ≤ 1

-- A call of `allocate` on a system that may give memory, or of `deallocate` for a block in use with
-- the size of its request.
pub data Step : Pool → Blocks → Pool → Blocks → Type 0 where
  get :
      {pool pool' : Pool} {used : Blocks} {p : ℕ} (malloc : ℕ → ℕ) (bytes : ℕ)
      → 0 < bytes
      → pool.heap_size + asked pool bytes < 2 ^ 64
      → IsFresh malloc pool used (asked pool bytes)
      → allocate malloc pool bytes ≡ ok (p, pool')
      → Step pool used pool' ((p, bytes) ∷ used)
  give :
      {pool pool' : Pool} {used used' : Blocks} (before : Blocks) (p bytes : ℕ) (after : Blocks)
      → 0 < bytes
      → used ≡ before ++ ((p, bytes) ∷ after)
      → used' ≡ before ++ after
      → deallocate pool p bytes ≡ ok pool'
      → Step pool used pool' used'

-- What a program reaches by such calls, from the start.
pub data Reach : Pool → Blocks → Type 0 where
  start : Reach initial []
  later :
      {pool pool' : Pool} {used used' : Blocks}
      → Reach pool used
      → Step pool used pool' used'
      → Reach pool' used'

pub size_of_positive : (bytes : ℕ) → 0 < bytes → 0 < size_of bytes
unfolding round_up
size_of_positive bytes pos = elim (Bool-cases (ltb 128 bytes)) [
  | inl large ↦ rw large pos
  | inr small ↦
      let fits : bytes ≤ 128 = ground arith in
      let some_bytes : 0 < round_up bytes = omega arith in rw small some_bytes
]

pub in_use-split :
    (w : Measure) (before : Blocks) (p bytes : ℕ) (after : Blocks)
    → in_use w (before ++ ((p, bytes) ∷ after)) ≡ w p (size_of bytes) + in_use w (before ++ after)
in_use-split w [] p bytes after = refl
in_use-split w ((q, n) ∷ before) p bytes after = omega (arith, in_use-split w before p bytes after)
