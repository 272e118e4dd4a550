-- ===== src/MemoryPool/Apart/Give.antt =====
-- `deallocate` puts a block where nobody else has it.
use lazyserver.Base.{
  ℕ, zero, suc, ◌+◌, ◌-◌, ◌%◌, ◌<◌, ◌≡◌, inl, inr, refl, ap, sym, ◌∙◌, ◌∷◌, ◌++◌, length, arith,
  Bool-cases, false, ok, Yields, yields, Yields-weaken, ok-injective, Yields-ok, ltb,
}
use mathlib.Core.Path.{subst}
use lazyserver.MemoryPool.{Pool, round_up, freelist_index, push_free, deallocate}
use lazyserver.MemoryPool.Classes.{freelist_index_fits}
use lazyserver.MemoryPool.Total.{Measure, Stored, push_free-Stored}
use lazyserver.MemoryPool.Apart.{at, at-IsMeasure, size_of, Blocks, in_use, in_use-split, IsApart}

-- The null pointer cannot be put back.
push_free-real :
    (pool : Pool) (index p : ℕ) (pool' : Pool) → push_free pool index p ≡ ok pool' → 0 < p
unfolding push_free
push_free-real pool index zero pool' e = cc
push_free-real pool index (suc p) pool' e = omega arith

module _ (pool : Pool) (used used' : Blocks) (before : Blocks) (p bytes : ℕ) (after : Blocks)
    (v : IsApart pool used) (pos : 0 < bytes) (had : used ≡ before ++ ((p, bytes) ∷ after))
    (left : used' ≡ before ++ after) where
  -- What the block had is free for others.
  released : (w : Measure) → in_use w used ≡ w p (size_of bytes) + in_use w used'
  released w =
      ap (in_use w) had
      ∙ (in_use-split w before p bytes after
          ∙ ap (λ us. w p (size_of bytes) + in_use w us) (sym left))

  give-Stored :
      (pool' : Pool)
      → ltb 128 bytes ≡ false
      → Stored pool p (round_up bytes) pool'
      → IsApart pool' used'
  give-Stored pool' small s = record {
    valid = record {
      classes = s.classes ∙ v.valid.classes;
      range = omega (arith, v.valid.range, s.start_kept, s.end_kept);
      addressable = omega (arith, v.valid.addressable, s.end_kept);
      start_aligned = ap (λ k. k % 8) s.start_kept ∙ v.valid.start_aligned;
      end_aligned = ap (λ k. k % 8) s.end_kept ∙ v.valid.end_aligned;
      real = λ h.
          let start = s.start_kept in
          let end = s.end_kept in omega (arith, start, v.valid.real (omega (arith, start, end, h)));
    };
    once = λ x.
        let whole : size_of bytes ≡ round_up bytes = rw small refl in
        let here = ap (at x p) whole in
        let heap = free_kept x in
        omega (arith, v.once x, released (at x), s.more (at x) (at-IsMeasure x), here, heap);
    null =
        let whole : size_of bytes ≡ round_up bytes = rw small refl in
        let here = ap (at 0 p) whole in
        let heap = free_kept 0 in
        omega (arith, v.null, released (at 0), s.more (at 0) (at-IsMeasure 0), here, heap);
  }
    where
      free_kept :
          (x : ℕ)
          → at x pool'.start_free (pool'.end_free - pool'.start_free)
            ≡ at x pool.start_free (pool.end_free - pool.start_free)
      free_kept x = rw (s.start_kept, s.end_kept) refl

  pub give-IsApart : (pool' : Pool) → deallocate pool p bytes ≡ ok pool' → IsApart pool' used'
  unfolding deallocate
  give-IsApart pool' e = elim (Bool-cases (ltb 128 bytes)) [
    | inl large ↦
        let same : pool ≡ pool' = ok-injective (rw large at e) in
        subst (λ q. IsApart q used') same
          (record {
            valid = v.valid;
            once = λ x. omega (arith, v.once x, released (at x));
            null = omega (arith, v.null, released (at 0));
          })
    | inr small ↦
        let class = freelist_index_fits bytes pos (ground arith) in
        let pushed : push_free pool (freelist_index (round_up bytes)) p ≡ ok pool' =
          rw small at e in
        let inside : freelist_index (round_up bytes) < length pool.free_list =
          omega (arith, class.0, v.valid.classes) in
        let stored =
          push_free-Stored pool (freelist_index (round_up bytes)) p (round_up bytes) inside class.1
            (push_free-real pool (freelist_index (round_up bytes)) p pool' pushed) in
        give-Stored pool' small (Yields-ok stored pushed)
  ]

  -- Giving back a block that is in use ends well.
  pub deallocate-IsApart : 0 < p → Yields (λ pool'. IsApart pool' used') (deallocate pool p bytes)
  unfolding deallocate
  deallocate-IsApart real = elim (Bool-cases (ltb 128 bytes)) [
    | inl large ↦ let apart = give-IsApart pool (rw large refl) in rw large (yields apart)
    | inr small ↦
        let class = freelist_index_fits bytes pos (ground arith) in
        let inside : freelist_index (round_up bytes) < length pool.free_list =
          omega (arith, class.0, v.valid.classes) in
        rw small (
          Yields-weaken (λ pool' s. give-Stored pool' small s)
            (push_free-Stored pool (freelist_index (round_up bytes)) p (round_up bytes) inside
              class.1 real))
  ]
