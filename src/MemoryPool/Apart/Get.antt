-- ===== src/MemoryPool/Apart/Get.antt =====
-- `allocate` hands out a block that nobody has.
use lazyserver.Base.{
  ℕ, zero, suc, ◌+◌, ◌-◌, ◌≤◌, ◌<◌, ◌^◌, ◌≡◌, ◌⊎◌, inl, inr, refl, ap, sym, ◌∙◌, ◌∷◌, arith,
  Bool-cases, true, false, ok, Yields, yields, ok-injective, Yields-value, Yields-ok, ltb, leb,
}
use mathlib.Core.Path.{subst}
use lazyserver.MemoryPool.{Pool, round_up, allocate}
use lazyserver.MemoryPool.Total.{free}
use lazyserver.MemoryPool.Build.{Gives, request, obtained}
use lazyserver.MemoryPool.Reuse.{allocate_correct}
use lazyserver.MemoryPool.Apart.{
  at, at-IsMeasure, size_of, size_of_positive, asked, Blocks, in_use, IsApart, IsFresh,
}

not_null : (p n : ℕ) → 0 < p → at 0 p n ≡ 0
not_null p n h = ground arith

real_block :
    (p bytes rest heap : ℕ) → 0 < bytes → heap + (at 0 p (size_of bytes) + rest) ≡ 0 → 0 < p
real_block zero bytes rest heap pos e =
    let size = size_of_positive bytes pos in absurd (ground (arith, size, e))
real_block (suc p) bytes rest heap pos e = omega arith

-- What came from the system holds a byte at most where the block that was asked for does.
came :
    (x : ℕ) (pool : Pool) (size source taken : ℕ)
    → (taken ≡ 0) ⊎ (taken ≡ obtained pool size)
    → at x source taken ≤ at x source (request pool size)
unfolding obtained
came x pool size source taken (inl none_taken) = rw none_taken (ground arith)
came x pool size source taken (inr e) =
    elim (Bool-cases (leb size (pool.end_free - pool.start_free))) [
      | inl enough ↦ let zero_taken : taken ≡ 0 = rw enough at e in rw zero_taken (ground arith)
      | inr short ↦ let all : taken ≡ request pool size = rw short at e in rw all (omega arith)
    ]

module _ (malloc : ℕ → ℕ) (pool : Pool) (used : Blocks) (v : IsApart pool used) (bytes p : ℕ)
    (pool' : Pool) (pos : 0 < bytes) (fresh : IsFresh malloc pool used (asked pool bytes))
    (e : allocate malloc pool bytes ≡ ok (p, pool')) where
  get_large : ltb 128 bytes ≡ true → IsApart pool' ((p, bytes) ∷ used)
  unfolding allocate
  get_large large =
      let outcome : allocate malloc pool bytes ≡ ok (malloc bytes, pool) = rw large refl in
      let same = ok-injective (sym outcome ∙ e) in
      let size : asked pool bytes ≡ bytes = rw large refl in
      let whole : size_of bytes ≡ bytes = rw large refl in
      subst (λ q. IsApart q ((p, bytes) ∷ used)) (ap (λ out. out.1) same)
        (subst (λ q. IsApart pool ((q, bytes) ∷ used)) (ap (λ out. out.0) same)
          (record {
            valid = v.valid;
            once = λ x.
                let new = fresh.new x in
                let one : at x (malloc bytes) (size_of bytes)
                    ≡ at x (malloc (asked pool bytes)) (asked pool bytes) =
                  rw (size, whole) refl in
                omega (arith, new, one);
            null =
                let whole_0 : at 0 (malloc bytes) (size_of bytes) ≡ at 0 (malloc bytes) bytes =
                  ap (at 0 (malloc bytes)) whole in
                let real : 0 < malloc bytes = subst (λ k. 0 < malloc k) size fresh.gives.positive in
                omega (arith, v.null, whole_0, not_null (malloc bytes) bytes real);
          }))

  get_small :
      ltb 128 bytes ≡ false
      → pool.heap_size + asked pool bytes < 2 ^ 64
      → IsApart pool' ((p, bytes) ∷ used)
  get_small small counted =
      let size = round_up bytes in
      let asks : asked pool bytes ≡ request pool size = rw small refl in
      let whole : size_of bytes ≡ size = rw small refl in
      let fits : bytes ≤ 128 = ground arith in
      let n = request pool size in
      let (taken, which, made) =
        allocate_correct malloc pool v.valid bytes pos fits
          (subst (λ k. pool.heap_size + k < 2 ^ 64) asks counted)
          (subst (Gives malloc) asks fresh.gives) in
      let out = Yields-ok made e in
      record {
        valid = out.valid;
        once = λ x.
            let m = at-IsMeasure x in
            let new =
              subst (λ k. at x (malloc k) k + (free (at x) pool + in_use (at x) used) ≤ 1) asks
                (fresh.new x) in
            let kept = out.conserved (at x) m in
            let here : at x p (size_of bytes) ≡ at x p size = ap (at x p) whole in
            let from = came x pool size (malloc n) taken which in
            omega (arith, kept, here, from, new, v.once x);
        null =
            let real : 0 < malloc n = subst (λ k. 0 < malloc k) asks fresh.gives.positive in
            let kept = out.conserved (at 0) (at-IsMeasure 0) in
            let here : at 0 p (size_of bytes) ≡ at 0 p size = ap (at 0 p) whole in
            let from = came 0 pool size (malloc n) taken which in
            omega (arith, kept, here, from, v.null, not_null (malloc n) n real);
      }

module _ (malloc : ℕ → ℕ) (pool : Pool) (used : Blocks) (v : IsApart pool used) (bytes : ℕ)
    (pos : 0 < bytes) (counted : pool.heap_size + asked pool bytes < 2 ^ 64)
    (fresh : IsFresh malloc pool used (asked pool bytes)) where
  pub got :
      (p : ℕ) (pool' : Pool)
      → allocate malloc pool bytes ≡ ok (p, pool')
      → IsApart pool' ((p, bytes) ∷ used)
  got p pool' e = elim (Bool-cases (ltb 128 bytes)) [
    | inl large ↦ get_large malloc pool used v bytes p pool' pos fresh e large
    | inr small ↦ get_small malloc pool used v bytes p pool' pos fresh e small counted
  ]

  allocate-ok : (out : ℕ × Pool) × (allocate malloc pool bytes ≡ ok out)
  unfolding allocate
  allocate-ok = elim (Bool-cases (ltb 128 bytes)) [
    | inl large ↦ ((malloc bytes, pool), rw large refl)
    | inr small ↦
        let asks : asked pool bytes ≡ request pool (round_up bytes) = rw small refl in
        let (taken, which, made) =
          allocate_correct malloc pool v.valid bytes pos (ground arith)
            (subst (λ k. pool.heap_size + k < 2 ^ 64) asks counted)
            (subst (Gives malloc) asks fresh.gives) in
        let (out, e, a) = Yields-value made in (out, e)
  ]

  -- A request ends with a block that is not null and that nobody had.
  pub allocate-IsApart :
      Yields
        (λ out. (0 < out.0) × IsApart out.1 ((out.0, bytes) ∷ used))
        (allocate malloc pool bytes)
  allocate-IsApart =
      let ((p, pool'), e) = allocate-ok in
      let apart = got p pool' e in
      rw e
        (yields (real_block p bytes (in_use (at 0) used) (free (at 0) pool') pos apart.null, apart))
