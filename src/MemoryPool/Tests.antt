-- ===== src/MemoryPool/Tests.antt =====
-- The allocator on its first state, with a system that gives memory at address 4096.
use lazyserver.Base.{
  ℕ, zero, suc, ◌+◌, ◌-◌, ◌*◌, ◌/◌, ◌%◌, ◌≤◌, ◌<◌, ◌^◌, ◌≡◌, ◌⊎◌, refl, length, arith, Run, ok,
  fault, Yields, replicate, List, [], ◌∷◌,
}
use lazyserver.MemoryPool.{Pool, initial, round_up, allocate, deallocate, build_freelist}
use lazyserver.MemoryPool.Classes.{allocate-zero}
use lazyserver.MemoryPool.Total.{IsValid}
use lazyserver.MemoryPool.Build.{IsClass, Served, Gives, request, obtained, build_freelist-Served}
use lazyserver.MemoryPool.Reuse.{Allocated, allocate_correct, deallocate-allocate}
use lazyserver.MemoryPool.Apart.{asked, IsFresh, IsApart, Step, get, give, start, later}
use lazyserver.MemoryPool.Apart.Steps.{initial-IsApart, Reach-IsApart}
use lazyserver.MemoryPool.Objects.{
  Objects, allocate_copy, allocate_default, IsNew, allocate_copy-IsNew,
}

abbrev system : ℕ → ℕ
system n = 4096

initial-IsValid : IsValid initial
initial-IsValid = record {
  classes = refl;
  range = omega arith;
  addressable = omega arith;
  start_aligned = refl;
  end_aligned = refl;
  real = λ h. absurd (omega arith);
}

small-IsClass : IsClass 24
small-IsClass = record { positive = omega arith; small = omega arith; aligned = refl }

request_24 : request initial 24 ≡ 960
unfolding round_up
request_24 = refl

system-Gives : Gives system (request initial 24)
system-Gives = record { positive = omega arith; aligned = refl; inside = omega (arith, request_24) }

build_freelist-Served_example :
    Yields (Served initial 24 4096 (obtained initial 24)) (build_freelist system 2 initial 24)
build_freelist-Served_example =
    build_freelist-Served system initial initial-IsValid 24 small-IsClass
      (omega (arith, request_24)) system-Gives

round_up_20 : round_up 20 ≡ 24
unfolding round_up
round_up_20 = refl

allocate_correct_example :
    (taken : ℕ) × ((taken ≡ 0) ⊎ (taken ≡ obtained initial (round_up 20)))
    × Yields (Allocated initial (round_up 20) 4096 taken) (allocate system initial 20)
allocate_correct_example =
    allocate_correct system initial initial-IsValid 20 (omega arith) (omega arith)
      (rw round_up_20 (omega (arith, request_24))) (rw round_up_20 system-Gives)

deallocate-allocate_example :
    Yields (λ pool. allocate system pool 20 ≡ ok (4096, initial)) (deallocate initial 4096 20)
deallocate-allocate_example =
    deallocate-allocate system initial refl 20 (omega arith) (omega arith) 4096 (omega arith)

allocate-zero_example : allocate system initial 0 ≡ fault
allocate-zero_example = allocate-zero system initial refl

-- 20 blocks of 24 bytes: one for the user, 19 in the list, and as much again in the free heap.
first_allocation :
    Yields
      (λ out. (out.0 ≡ 4096) × (out.1.start_free ≡ 4096 + 480) × (out.1.end_free ≡ 4096 + 960))
      (allocate system initial 20)
unfolding allocate build_freelist lazyserver.MemoryPool.refill lazyserver.MemoryPool.hand_out
    lazyserver.MemoryPool.carve lazyserver.MemoryPool.push_free lazyserver.MemoryPool.class_at
    lazyserver.MemoryPool.save_rest round_up lazyserver.MemoryPool.freelist_index
first_allocation = lazyserver.Base.yields (refl, refl, refl)

-- The pool after the first block of 24 bytes: 19 more in its list, the last carved first.
abbrev down : ℕ → List ℕ
down zero = []
down (suc k) = (4096 + 24 * suc k) ∷ down k

abbrev first_pool : List ℕ → Pool
first_pool blocks = record {
  free_list = [] ∷ [] ∷ blocks ∷ replicate 13 [];
  start_free = 4096 + 480;
  end_free = 4096 + 960;
  heap_size = 960;
}

system-IsFresh : IsFresh system initial [] (asked initial 20)
unfolding round_up
system-IsFresh = record {
  gives = record { positive = omega arith; aligned = refl; inside = omega arith };
  new = λ x. ground arith;
}

got_first : Step initial [] (first_pool (down 19)) ((4096, 20) ∷ [])
unfolding allocate build_freelist lazyserver.MemoryPool.refill lazyserver.MemoryPool.hand_out
    lazyserver.MemoryPool.carve lazyserver.MemoryPool.push_free lazyserver.MemoryPool.class_at
    lazyserver.MemoryPool.save_rest round_up lazyserver.MemoryPool.freelist_index
got_first = get system 20 (omega arith) (omega arith) system-IsFresh refl

gave_first : Step (first_pool (down 19)) ((4096, 20) ∷ []) (first_pool (4096 ∷ down 19)) []
unfolding deallocate lazyserver.MemoryPool.push_free lazyserver.MemoryPool.class_at round_up
    lazyserver.MemoryPool.freelist_index
gave_first = give [] 4096 20 [] (omega arith) refl refl refl

Reach-IsApart_example : IsApart (first_pool (4096 ∷ down 19)) []
Reach-IsApart_example = Reach-IsApart (later (later start got_first) gave_first)

abbrev no_objects : Objects ℕ
no_objects = record { pool = initial; alive = [] }

allocate_copy-IsNew_example :
    Yields (IsNew 20 no_objects 7) (allocate_copy system 20 7 no_objects)
    × Yields (IsNew 20 no_objects 7) (allocate_default system 20 7 no_objects)
unfolding round_up
allocate_copy-IsNew_example =
    allocate_copy-IsNew 20 (omega arith) no_objects initial-IsApart system 7 (omega arith)
      system-IsFresh

abbrev one_object : Objects ℕ
one_object = record { pool = first_pool (down 19); alive = (4096, 7) ∷ [] }
