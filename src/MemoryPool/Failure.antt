-- ===== src/MemoryPool/Failure.antt =====
-- `build_freelist` where `malloc` fails.
use lazyserver.Base.{List, [], ◌∷◌, set, ok, ℕ, ◌≤◌, ◌<◌, ◌≡◌, length}
use lazyserver.MemoryPool.{Pool, save_rest, freelist_index}
use lazyserver.MemoryPool.Classes.{blocks_of}

-- A block p is taken from the head of the first list, of those from `index` on, that has one. The other
-- lists and the free heap are as they were.
pub record Borrowed (index : ℕ) (pool : Pool) (p : ℕ) (pool' : Pool) : Type 0 where
  pub place : ℕ
  pub rest : List ℕ
  pub from : index ≤ place
  pub inside : place < length pool.free_list
  pub passed : (i : ℕ) → index ≤ i → i < place → blocks_of pool i ≡ []
  pub head : blocks_of pool place ≡ p ∷ rest
  pub lists : pool'.free_list ≡ set pool.free_list place rest
  pub start : pool'.start_free ≡ pool.start_free
  pub end : pool'.end_free ≡ pool.end_free
  pub heap : pool'.heap_size ≡ pool.heap_size

-- The rest of the free heap goes to the free lists, and the block comes from a list that is at least as
-- large. The free heap then begins at null, and ends where that of `pool` ended.
pub record IsStale (bytes : ℕ) (pool : Pool) (p : ℕ) (pool' : Pool) : Type 0 where
  pub saved : Pool
  pub save : save_rest pool ≡ ok saved
  pub borrowed : Borrowed (freelist_index bytes) (record saved { start_free = 0 }) p pool'
  pub start : pool'.start_free ≡ 0
  pub end : pool'.end_free ≡ pool.end_free
