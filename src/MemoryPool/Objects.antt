-- ===== src/MemoryPool/Objects.antt =====
-- stl_memory_pool.h: `MemoryPool<T>`, with the objects that are constructed and not destroyed, by
-- address. `size` is sizeof(T), and `default` what T() makes.
use lazyserver.Base.{
  ℕ, ◌+◌, ◌≤◌, ◌<◌, ◌^◌, ◌≡◌, inl, inr, refl, List, [], ◌∷◌, none, some, arith, Bool-cases, true,
  false, Run, ok, fault, or_fail, ◌>>=◌, Yields, yields, Yields-then, ◌==◌, if◌then◌else◌,
}
use lazyserver.Base.Table.{find, remove}
use lazyserver.MemoryPool.{Pool, allocate, deallocate}
use lazyserver.MemoryPool.Apart.{
  at, size_of, asked, Blocks, in_use, IsApart, IsFresh, size_of_positive,
}
use lazyserver.MemoryPool.Apart.Get.{allocate-IsApart}

pub record Objects {ℓ} (T : Type ℓ) : Type ℓ where
  pub pool : Pool
  pub alive : List (ℕ × T)

module _ {ℓ} {T : Type ℓ} (malloc : ℕ → ℕ) (size : ℕ) where
  -- `Allocate(const T&)`. An object at the null pointer is undefined behaviour.
  pub allocate_copy : T → Objects T → Run (ℕ × Objects T)
  allocate_copy t o = do
    (p, pool) ← allocate malloc o.pool size
    if p == 0 then fault else ok (p, record { pool = pool; alive = (p, t) ∷ o.alive })

  -- `Allocate()`
  pub allocate_default : T → Objects T → Run (ℕ × Objects T)
  allocate_default default o = do
    (p, pool) ← allocate malloc o.pool size
    if p == 0 then fault else ok (p, record { pool = pool; alive = (p, default) ∷ o.alive })

-- `DeAllocate`: the destructor runs on an object that is there.
pub de_allocate {ℓ} : {T : Type ℓ} → ℕ → ℕ → Objects T → Run (Objects T)
de_allocate size p o = do
  t ← or_fail fault (find p o.alive)
  pool ← deallocate o.pool p size
  ok (record { pool = pool; alive = remove p o.alive })

module _ {ℓ} {T : Type ℓ} (size : ℕ) where
  -- The blocks in which the objects are.
  abbrev pub blocks : List (ℕ × T) → Blocks
  blocks [] = []
  blocks ((p, t) ∷ alive) = (p, size) ∷ blocks alive

  -- An object has the first byte of its block.
  pub find-in_use :
      (p : ℕ) (t : T) (alive : List (ℕ × T))
      → 0 < size_of size
      → find p alive ≡ some t
      → 1 ≤ in_use (at p) (blocks alive)
  find-in_use p t [] pos e = cc
  find-in_use p t ((q, u) ∷ alive) pos e = elim (Bool-cases (q == p)) [
    | inl same ↦ ground (arith, same)
    | inr other ↦
        let e' : find p alive ≡ some t = rw other at e in
        omega (arith, find-in_use p t alive pos e')
  ]

  find-not_in_use :
      (p : ℕ) (alive : List (ℕ × T))
      → 0 < size_of size
      → in_use (at p) (blocks alive) ≡ 0
      → find p alive ≡ none
  find-not_in_use p [] pos e = refl
  find-not_in_use p ((q, u) ∷ alive) pos e = elim (Bool-cases (q == p)) [
    | inl same ↦ absurd (ground (arith, same, e))
    | inr other ↦ rw other (find-not_in_use p alive pos (omega (arith, e)))
  ]

-- A new object t: nobody had its address, and all others are as before.
pub record IsNew {ℓ} {T : Type ℓ} (size : ℕ) (o : Objects T) (t : T) (out : ℕ × Objects T)
    : Type ℓ where
  pub apart : IsApart out.1.pool (blocks size out.1.alive)
  pub absent : find out.0 o.alive ≡ none
  pub there : find out.0 out.1.alive ≡ some t
  pub others : (q : ℕ) → (out.0 == q) ≡ false → find q out.1.alive ≡ find q o.alive

-- The object at p is gone, and all others are as before.
pub record IsGone {ℓ} {T : Type ℓ} (size : ℕ) (o : Objects T) (p : ℕ) (o' : Objects T)
    : Type ℓ where
  pub apart : IsApart o'.pool (blocks size o'.alive)
  pub absent : find p o'.alive ≡ none
  pub others : (q : ℕ) → (p == q) ≡ false → find q o'.alive ≡ find q o.alive

module _ {ℓ} {T : Type ℓ} (size : ℕ) (pos : 0 < size) (o : Objects T)
    (v : IsApart o.pool (blocks size o.alive)) where
  construct-IsNew :
      (malloc : ℕ → ℕ) (t : T)
      → o.pool.heap_size + asked o.pool size < 2 ^ 64
      → IsFresh malloc o.pool (blocks size o.alive) (asked o.pool size)
      → Yields (IsNew size o t) (allocate_copy malloc size t o)
  unfolding allocate_copy
  construct-IsNew malloc t counted fresh =
      Yields-then (allocate-IsApart malloc o.pool (blocks size o.alive) v size pos counted fresh)
        λ (p, pool) (real, apart).
          let some_block : (p == 0) ≡ false = ground (arith, real) in
          let here : (p == p) ≡ true = ground arith in
          let bytes = size_of_positive size pos in
          let own : 1 ≤ at p p (size_of size) = ground (arith, bytes) in
          rw some_block (
            yields (record {
              apart = apart;
              absent = find-not_in_use size p o.alive bytes (omega (arith, apart.once p, own));
              there = rw here refl;
              others = λ q other. rw other refl;
            }))

  -- `Allocate(t)`, and `Allocate()` where T() makes t, on a system that gives memory that nobody has,
  -- constructs t at an address at which there was no object. Every other object is as before, and
  -- every byte still belongs to one object, or to the pool, or to neither.
  pub allocate_copy-IsNew :
      (malloc : ℕ → ℕ) (t : T)
      → o.pool.heap_size + asked o.pool size < 2 ^ 64
      → IsFresh malloc o.pool (blocks size o.alive) (asked o.pool size)
      → Yields (IsNew size o t) (allocate_copy malloc size t o)
        × Yields (IsNew size o t) (allocate_default malloc size t o)
  unfolding allocate_copy allocate_default
  allocate_copy-IsNew malloc t counted fresh =
      let placed = construct-IsNew malloc t counted fresh in (placed, placed)
