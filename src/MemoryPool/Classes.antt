-- ===== src/MemoryPool/Classes.antt =====
-- The size classes: rounding, the index of a class, and the access to its free list.
use lazyserver.Base.{
  get_elem?-in, ℕ, zero, suc, ◌+◌, ◌-◌, ◌*◌, ◌%◌, ◌≤◌, ◌<◌, ◌^◌, ◌≡◌, refl, List, [], ◌∷◌, none,
  get_elem?, get_or, length, arith, ok, fault,
}
use lazyserver.MemoryPool.{Pool, round_up, freelist_index, class_at, allocate}

-- `round_up` gives the least multiple of 8 that is no less.
pub round_up_least :
    (bytes : ℕ)
    → bytes + 7 < 2 ^ 64
    → (bytes ≤ round_up bytes)
      × (round_up bytes % 8 ≡ 0)
      × ((m : ℕ) → bytes ≤ m → m % 8 ≡ 0 → round_up bytes ≤ m)
unfolding round_up
round_up_least bytes h = (omega arith, omega arith, λ m lo e. omega arith)

-- Every request from 1 to 128 bytes has one of the 16 classes, whose blocks are just large enough.
pub freelist_index_fits :
    (bytes : ℕ)
    → 0 < bytes
    → bytes ≤ 128
    → (freelist_index (round_up bytes) < 16)
      × (8 * (freelist_index (round_up bytes) + 1) ≡ round_up bytes)
unfolding freelist_index round_up
freelist_index_fits bytes pos h = (omega arith, omega arith)

-- For a size that is a class already, the index is that of the class.
pub freelist_index_class :
    (bytes : ℕ)
    → 0 < bytes
    → bytes ≤ 128
    → bytes % 8 ≡ 0
    → (freelist_index bytes < 16) × (8 * (freelist_index bytes + 1) ≡ bytes)
unfolding freelist_index
freelist_index_class bytes pos h e = (omega arith, omega arith)

get_elem?-out {ℓ} : {A : Type ℓ} (xs : List A) (i : ℕ) → length xs ≤ i → get_elem? xs i ≡ none
get_elem?-out [] i h = refl
get_elem?-out (x ∷ xs) zero h = absurd (omega arith)
get_elem?-out (x ∷ xs) (suc i) h = get_elem?-out xs i (omega arith)

-- The blocks of a class.
abbrev pub blocks_of : Pool → ℕ → List ℕ
blocks_of pool i = get_or pool.free_list i []

pub class_at-ok :
    (pool : Pool) (i : ℕ) → i < length pool.free_list → class_at pool i ≡ ok (blocks_of pool i)
unfolding class_at
class_at-ok pool i h = rw (get_elem?-in pool.free_list i [] h)

-- A request for 0 bytes, which `round_up` leaves at 0, reads far outside the 16 lists, whatever
-- the pool holds.
pub allocate-zero :
    (malloc : ℕ → ℕ) (pool : Pool) → length pool.free_list ≡ 16 → allocate malloc pool 0 ≡ fault
unfolding allocate round_up freelist_index class_at
allocate-zero malloc pool h = rw (get_elem?-out pool.free_list (2 ^ 64 - 1) (omega arith))
