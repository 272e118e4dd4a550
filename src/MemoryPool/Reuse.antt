-- ===== src/MemoryPool/Reuse.antt =====
-- `allocate` and `deallocate` together, and the pool after a failed `malloc`.
use lazyserver.Base.{
  List-cases, ℕ, zero, suc, ◌+◌, ◌≤◌, ◌<◌, ◌^◌, ◌≡◌, ◌⊎◌, refl, ap, ◌∙◌, List, [], ◌∷◌, set, length,
  length-set, arith, inl, inr, ok, Yields, yields, Yields-weaken, ltb, ◌==◌, false, get_or,
}
use lazyserver.MemoryPool.{
  Pool, push_free, class_at, round_up, freelist_index, allocate, deallocate,
}
use lazyserver.MemoryPool.Classes.{freelist_index_fits, blocks_of, class_at-ok}
use lazyserver.MemoryPool.Total.{Measure, IsMeasure, free, IsValid, empty_block, listed-pop}
use lazyserver.MemoryPool.Build.{IsClass, Gives, request, obtained, build_freelist-Served}

-- What a call that asks for a block of `size` bytes does, where `taken` bytes came from the system at
-- `source`. By any measure, what the pool has and the block are what the pool had and what came.
pub record Allocated (pool : Pool) (size source taken : ℕ) (out : ℕ × Pool) : Type 0 where
  pub valid : IsValid out.1
  pub conserved :
      (w : Measure) → IsMeasure w → free w out.1 + w out.0 size ≡ free w pool + w source taken
  pub counted : out.1.heap_size ≡ pool.heap_size + taken

round_up-IsClass : (bytes : ℕ) → 0 < bytes → bytes ≤ 128 → IsClass (round_up bytes)
unfolding round_up
round_up-IsClass bytes pos h = record {
  positive = omega arith;
  small = omega arith;
  aligned = omega arith;
}

set_same : {A : Type 0} (xs : List A) (i : ℕ) (d : A) → set xs i (get_or xs i d) ≡ xs
set_same [] i d = refl
set_same (x ∷ xs) zero d = refl
set_same (x ∷ xs) (suc i) d = ap (λ ys. x ∷ ys) (set_same xs i d)

get_or-set :
    {A : Type 0} (xs : List A) (i : ℕ) (d y : A) → i < length xs → get_or (set xs i y) i d ≡ y
get_or-set [] i d y h = absurd (omega arith)
get_or-set (x ∷ xs) zero d y h = refl
get_or-set (x ∷ xs) (suc i) d y h = get_or-set xs i d y (omega arith)

set-set : {A : Type 0} (xs : List A) (i : ℕ) (x y : A) → set (set xs i x) i y ≡ set xs i y
set-set [] i x y = refl
set-set (z ∷ xs) zero x y = refl
set-set (z ∷ xs) (suc i) x y = ap (λ ys. z ∷ ys) (set-set xs i x y)

module _ (malloc : ℕ → ℕ) (pool : Pool) (v : IsValid pool) (bytes : ℕ) (pos : 0 < bytes)
    (h : bytes ≤ 128) where
  -- A list with a block gives its head.
  take_head :
      (p source : ℕ) (rest : List ℕ)
      → blocks_of pool (freelist_index (round_up bytes)) ≡ p ∷ rest
      → Yields (Allocated pool (round_up bytes) source 0) (allocate malloc pool bytes)
  unfolding allocate
  take_head p source rest e =
      let class = freelist_index_fits bytes pos h in
      let inside : freelist_index (round_up bytes) < length pool.free_list =
        omega (arith, class.0, v.classes) in
      let small : ltb 128 bytes ≡ false = ground arith in
      rw (small, class_at-ok pool (freelist_index (round_up bytes)) inside, e)
        (yields (record {
          valid = record {
            classes = length-set pool.free_list (freelist_index (round_up bytes)) rest ∙ v.classes;
            range = v.range;
            addressable = v.addressable;
            start_aligned = v.start_aligned;
            end_aligned = v.end_aligned;
            real = v.real;
          };
          conserved = λ w m. omega (
            arith,
            listed-pop w 0 (freelist_index (round_up bytes)) (round_up bytes) pool.free_list p rest
                inside (omega (arith, class.1)) e,
            empty_block w m source,
          );
          counted = omega arith;
        }))

  -- An empty list is built from the free heap.
  fill :
      blocks_of pool (freelist_index (round_up bytes)) ≡ []
      → pool.heap_size + request pool (round_up bytes) < 2 ^ 64
      → Gives malloc (request pool (round_up bytes))
      → Yields
          (Allocated pool
            (round_up bytes)
            (malloc (request pool (round_up bytes)))
            (obtained pool (round_up bytes)))
          (allocate malloc pool bytes)
  unfolding allocate
  fill e counted g =
      let class = freelist_index_fits bytes pos h in
      let inside : freelist_index (round_up bytes) < length pool.free_list =
        omega (arith, class.0, v.classes) in
      let small : ltb 128 bytes ≡ false = ground arith in
      let served =
        build_freelist-Served malloc pool v (round_up bytes) (round_up-IsClass bytes pos h) counted
          g in
      rw (small, class_at-ok pool (freelist_index (round_up bytes)) inside, e)
        (Yields-weaken
          (λ out s. record { valid = s.valid; conserved = s.conserved; counted = s.counted })
          served)

  -- From a valid pool, where `malloc` gives the memory that it would be asked for and `heap_size`
  -- does not wrap, a request of 1 to 128 bytes ends well: the pool stays valid. By any measure of
  -- blocks that adds up over adjacent ones, what is free and the block, whose size is rounded up to
  -- a multiple of 8, are what was free before and what the system gave, which is nothing or the
  -- whole request for that size.
  pub allocate_correct :
      pool.heap_size + request pool (round_up bytes) < 2 ^ 64
      → Gives malloc (request pool (round_up bytes))
      → (taken : ℕ) × ((taken ≡ 0) ⊎ (taken ≡ obtained pool (round_up bytes)))
        × Yields
            (Allocated pool (round_up bytes) (malloc (request pool (round_up bytes))) taken)
            (allocate malloc pool bytes)
  allocate_correct counted g =
      elim (List-cases (blocks_of pool (freelist_index (round_up bytes)))) [
        | inl e ↦ (obtained pool (round_up bytes), inr refl, fill e counted g)
        | inr (p, rest, e) ↦
            (0, inl refl, take_head p (malloc (request pool (round_up bytes))) rest e)
      ]

module _ (malloc : ℕ → ℕ) (pool : Pool) (classes : length pool.free_list ≡ 16) (bytes : ℕ)
    (pos : 0 < bytes) (h : bytes ≤ 128) where
  -- A block of 1 to 128 bytes that goes back to a pool of 16 lists is the one that the next request
  -- of that size gets, without a call to the system, and the pool is then the one from before.
  pub deallocate-allocate :
      (p : ℕ)
      → 0 < p
      → Yields (λ pool'. allocate malloc pool' bytes ≡ ok (p, pool)) (deallocate pool p bytes)
  unfolding deallocate allocate push_free
  deallocate-allocate p real =
      let i = freelist_index (round_up bytes) in
      let class = freelist_index_fits bytes pos h in
      let inside : i < length pool.free_list = omega (arith, class.0, classes) in
      let small : ltb 128 bytes ≡ false = ground arith in
      let some_block : (p == 0) ≡ false = ground arith in
      let lists = set pool.free_list i (p ∷ blocks_of pool i) in
      let after : Pool = record pool { free_list = lists } in
      let found : class_at after i ≡ ok (p ∷ blocks_of pool i) =
        class_at-ok after i (omega (arith, length-set pool.free_list i (p ∷ blocks_of pool i)))
        ∙ ap ok (get_or-set pool.free_list i [] (p ∷ blocks_of pool i) inside) in
      let back : set lists i (blocks_of pool i) ≡ pool.free_list =
        set-set pool.free_list i (p ∷ blocks_of pool i) (blocks_of pool i)
        ∙ set_same pool.free_list i [] in
      rw (small, some_block, class_at-ok pool i inside) (yields (rw (found, back) refl))
