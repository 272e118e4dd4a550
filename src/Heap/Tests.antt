-- ===== src/Heap/Tests.antt =====
-- Runs of Heap on concrete inputs, and the theorems about it at such inputs.
use mathlib.Core.List.{Perm}
use lazyserver.Base.{
  ℕ, ◌≡◌, refl, ◌≢◌, ◌<◌, ◌^◌, List, [], ◌∷◌, Option, some, none, Run, ok, ◌>>=◌, arith, length,
  replicate, length-replicate, Yields, ltb, if◌then◌else◌,
}
use lazyserver.Arrays.{load, store}
use lazyserver.Heap.{
  Heap, HeapType, CompareFunc, NewArray, new_heap, new_heap_with, insert, pop, top, size, grow,
  rebuild4_insert, rebuild4_delete, rise, sink, swap_cells, has_left, has_right, in_order,
  move_cells,
}
use lazyserver.Heap.Storage.{IsValid, items}
use lazyserver.Heap.Insert.{Inserted, insert_correct}
use lazyserver.Heap.Pop.{Popped, pop_correct}
use lazyserver.Heap.Session.{pops, pops_sorts, IsSorted, insert-compare_func}

-- memory without end: each block is full of sevens
abbrev sevens : ℕ → Option (List ℕ)
sevens n = if ltb n (2 ^ 61) then some (replicate n 7) else none

length-sevens : (n : ℕ) {a : List ℕ} → sevens n ≡ some a → length a ≡ n
length-sevens n e = ground (arith, length-replicate {A = ℕ} n 7)

sevens_bound : (n : ℕ) {a : List ℕ} → sevens n ≡ some a → n < 2 ^ 61
sevens_bound n e = ground arith

abbrev plenty : NewArray
plenty = record {
  new_array = sevens;
  length-new_array = length-sevens;
  new_array_bound = sevens_bound;
}

none-ne-some : {a : List ℕ} → none ≢ some a
none-ne-some e = cc

abbrev sample : Heap
sample = record {
  heap_type = HeapType.small_heap;
  array = 3 ∷ 5 ∷ 4 ∷ 9 ∷ [];
  array_capacity = 4;
  array_size = 4;
  compare_func = CompareFunc.timer_compare;
}

sample-IsValid : IsValid sample
sample-IsValid = grind arith

-- five items through a heap that grows twice, largest first and smallest first
abbrev five : HeapType → Run (List ℕ)
five t = do
  h0 ← new_heap plenty t
  h1 ← insert plenty h0 40
  h2 ← insert plenty h1 10
  h3 ← insert plenty h2 50
  h4 ← insert plenty h3 20
  h5 ← insert plenty h4 30
  (xs, h) ← pops 5 h5
  ok xs

five_out :
    (five HeapType.big_heap ≡ ok (50 ∷ 40 ∷ 30 ∷ 20 ∷ 10 ∷ []))
    × (five HeapType.small_heap ≡ ok (10 ∷ 20 ∷ 30 ∷ 40 ∷ 50 ∷ []))
unfolding new_heap new_heap_with insert grow rebuild4_insert rise pops pop rebuild4_delete sink
    swap_cells has_left has_right in_order move_cells load store
five_out = (refl, refl)

insert_correct_example : Yields (Inserted sample 4) (insert plenty sample 4)
insert_correct_example =
    insert_correct plenty sample 4 sample-IsValid (λ full. (replicate 8 7, refl))

pop_correct_example : Yields (λ (x, g). Popped sample x g × (top sample ≡ ok x)) (pop sample)
pop_correct_example = pop_correct sample sample-IsValid (omega arith)

pops_sorts_example :
    Yields
      (λ (xs, g). IsSorted HeapType.small_heap xs × Perm xs (items sample) × (size g ≡ 0))
      (pops 4 sample)
pops_sorts_example = pops_sorts 4 sample sample-IsValid refl

insert-compare_func_example :
    insert plenty (record sample { compare_func = CompareFunc.custom 8 }) 4
    ≡ (insert plenty sample 4 >>= λ h. ok (record h { compare_func = CompareFunc.custom 8 }))
insert-compare_func_example = insert-compare_func (CompareFunc.custom 8) plenty sample 4
