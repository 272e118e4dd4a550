-- ===== src/MemoryPool.antt =====
-- stl_memory_pool.h and stl_memory_pool.cpp: the block allocator with 16 free lists.
-- An address is its number and 0 the null pointer. The blocks that a free list links through
-- `free_list_link` are the list of their addresses, the head first. `malloc` is a parameter: the
-- address that it gives for a size, 0 where it fails.
pub mod Classes
pub mod Total
pub mod Build
pub mod Reuse
pub mod Apart
pub mod Objects
pub mod Failure
mod Tests
use lazyserver.Base.{
  ℕ, zero, suc, ◌+◌, ◌-◌, ◌*◌, ◌/◌, List, [], ◌∷◌, Run, ok, fault, exited, out_of_fuel, or_fail,
  ◌>>=◌, if◌then◌else◌, ltb, leb, ◌==◌, get_elem?, set, replicate, add_size, sub_size, mul_size,
}

pub record Pool : Type 0 where
  pub free_list : List (List ℕ)
  pub start_free : ℕ
  pub end_free : ℕ
  pub heap_size : ℕ

-- The static members before the first call.
abbrev pub initial : Pool
initial = record { free_list = replicate 16 []; start_free = 0; end_free = 0; heap_size = 0 }

-- `(bytes + 7) & ~7` clears the low three bits.
pub round_up : ℕ → ℕ
round_up bytes = add_size bytes 7 / 8 * 8

pub freelist_index : ℕ → ℕ
freelist_index bytes = sub_size (add_size bytes 7 / 8) 1

-- `free_list[index]`; past the 16 lists it is undefined behaviour.
pub class_at : Pool → ℕ → Run (List ℕ)
class_at pool index = or_fail fault (get_elem? pool.free_list index)

-- The block p becomes the head of a free list: its link is written, which wants a block.
pub push_free : Pool → ℕ → ℕ → Run Pool
push_free pool index p =
    let push : Run Pool = do
      blocks ← class_at pool index
      ok (record pool { free_list = set pool.free_list index (p ∷ blocks) })
    in if p == 0 then fault else push

-- The `for` that puts `count` blocks from `base` on into a free list.
pub carve : ℕ → Pool → ℕ → ℕ → ℕ → Run Pool
carve zero pool index base bytes = ok pool
carve (suc count) pool index base bytes = do
  pool' ← push_free pool index base
  carve count pool' index (add_size base bytes) bytes

-- The first block of the free heap for the user, and `nobjs - 1` blocks for the free list. The two
-- branches of `build_freelist` that come here differ by `nobjs` alone.
pub hand_out : Pool → ℕ → ℕ → Run (ℕ × Pool)
hand_out pool bytes nobjs = do
  let total_size = mul_size bytes nobjs
  pool' ←
      carve (sub_size nobjs 1) pool (freelist_index bytes) (add_size pool.start_free bytes) bytes
  ok (pool.start_free, record pool' { start_free = add_size pool.start_free total_size })

-- The head of the first list that has one, of `rounds` lists from `index` on; else `exit(-1)`.
pub borrow : ℕ → ℕ → Pool → Run (ℕ × Pool)
borrow zero index pool = exited
borrow (suc rounds) index pool = class_at pool index >>= λ blocks. elim blocks [
  | [] ↦ borrow rounds (index + 1) pool
  | p ∷ rest ↦ ok (p, record pool { free_list = set pool.free_list index rest })
]

-- What is left of the free heap, too little for one block, goes to the free list of its size.
pub save_rest : Pool → Run Pool
save_rest pool =
    let leftbytes = sub_size pool.end_free pool.start_free in
    let saved : Run Pool = do
      pool' ← push_free pool (freelist_index leftbytes) pool.start_free
      ok (record pool' { start_free = pool.end_free })
    in if ltb 0 leftbytes then saved else ok pool

module _ (malloc : ℕ → ℕ) where
  -- The free heap is too small: the rest is saved and the system is asked. `again` is the recursive
  -- call that follows when it gives memory.
  pub refill : (Pool → Run (ℕ × Pool)) → Pool → ℕ → Run (ℕ × Pool)
  refill again pool bytes = do
    pool' ← save_rest pool
    let bytes2get = add_size (mul_size 2 (mul_size bytes 20)) (round_up (pool'.heap_size / 16))
    let block = malloc bytes2get
    let failed =
        borrow (16 - freelist_index bytes) (freelist_index bytes) (record pool' { start_free = 0 })
    let more = again (record pool' {
      start_free = block;
      end_free = add_size block bytes2get;
      heap_size = add_size pool'.heap_size bytes2get;
    })
    if block == 0 then failed else more

  -- The fuel counts the calls: the recursive call finds a free heap that is large enough.
  pub build_freelist : ℕ → Pool → ℕ → Run (ℕ × Pool)
  build_freelist zero pool bytes = out_of_fuel
  build_freelist (suc k) pool bytes =
      let total_size = mul_size bytes 20 in
      let leftbytes = sub_size pool.end_free pool.start_free in
      let refilled = refill (λ pool'. build_freelist k pool' bytes) pool bytes in
      if leb total_size leftbytes
      then hand_out pool bytes 20
      else if leb bytes leftbytes
      then hand_out pool bytes (leftbytes / bytes)
      else refilled

  pub allocate : Pool → ℕ → Run (ℕ × Pool)
  allocate pool bytes =
      let size = round_up bytes in
      let pooled : Run (ℕ × Pool) = class_at pool (freelist_index size) >>= λ blocks. elim blocks [
        | [] ↦ build_freelist 2 pool size
        | p ∷ rest ↦
            ok (p, record pool { free_list = set pool.free_list (freelist_index size) rest })
      ] in
      if ltb 128 bytes then ok (malloc bytes, pool) else pooled

-- A block above 128 bytes goes back by `free`.
pub deallocate : Pool → ℕ → ℕ → Run Pool
deallocate pool p bytes =
    if ltb 128 bytes then ok pool else push_free pool (freelist_index (round_up bytes)) p
