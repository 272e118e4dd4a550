-- ===== src/MemoryPool/Apart/Steps.antt =====
-- Any sequence of `allocate` and `deallocate` keeps the blocks apart.
use lazyserver.Base.{refl, [], arith}
use lazyserver.MemoryPool.{Pool, initial}
use lazyserver.MemoryPool.Apart.{Blocks, IsApart, Step, get, give, Reach, start, later}
use lazyserver.MemoryPool.Apart.Get.{got}
use lazyserver.MemoryPool.Apart.Give.{give-IsApart}

-- A step keeps every byte in one place at most.
pub Step-IsApart :
    {pool pool' : Pool} {used used' : Blocks}
    → Step pool used pool' used'
    → IsApart pool used
    → IsApart pool' used'
Step-IsApart {pool} {pool'} {used} (get {p} malloc bytes pos counted fresh e) v =
    got malloc pool used v bytes pos counted fresh p pool' e
Step-IsApart {pool} {pool'} {used} {used'} (give before p bytes after pos had left e) v =
    give-IsApart pool used used' before p bytes after v pos had left pool' e

pub initial-IsApart : IsApart initial []
initial-IsApart = record {
  valid = record {
    classes = refl;
    range = omega arith;
    addressable = omega arith;
    start_aligned = refl;
    end_aligned = refl;
    real = λ h. absurd (omega arith);
  };
  once = λ x. ground arith;
  null = ground arith;
}

-- Whatever a program allocates and gives back, in any order and each block with its own size, on a
-- system that gives only memory that nobody has: the pool stays valid, and each byte of the address
-- space is in at most one of the blocks in use, the blocks of the free lists and the free heap. So
-- no two blocks in use overlap, and none is in the pool.
pub Reach-IsApart : {pool : Pool} {used : Blocks} → Reach pool used → IsApart pool used
Reach-IsApart start = initial-IsApart
Reach-IsApart (later r step) = Step-IsApart step (Reach-IsApart r)
