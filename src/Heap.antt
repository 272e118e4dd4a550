-- ===== src/Heap.antt =====
-- heap.h and heap.cpp: the class Heap, a binary heap of pointers in an array that grows.
-- An address is its number, and 0 is the null pointer. The two branches on `m_nType` differ by the
-- direction of each comparison (and in the order of two writes to distinct cells), so each loop is
-- written once over `in_order`.
pub mod Order
pub mod Rise
pub mod Sink
pub mod Storage
pub mod Insert
pub mod Pop
pub mod Session
mod Tests
use lazyserver.Base.{
  ℕ, zero, suc, ◌+◌, ◌-◌, ◌*◌, ◌/◌, ◌≤◌, ◌<◌, ◌^◌, ◌≡◌, List, [], Bool, true, false, not, ◌&&◌,
  Option, none, some, ◌++◌, Run, ok, fault, bad_alloc, out_of_fuel, ◌>>=◌, or_fail, if◌then◌else◌,
  ltb, leb, ◌==◌, length, take, drop, add_size, sub_size, mul_size,
}
use lazyserver.Arrays.{load, store}

-- `enum { BigHeap, SmallHeap }`
pub data HeapType : Type 0 where
  big_heap small_heap : HeapType

-- What a `HeapDataCompareFunc` returns: -1, 0 or 1.
pub data Sign : Type 0 where
  negative null positive : Sign

-- A pointer to a function of type `HeapDataCompareFunc`: the two of the program, or another.
pub data CompareFunc : Type 0 where
  default_heap_data_compare timer_compare : CompareFunc
  custom : ℕ → CompareFunc

-- `array` is the block that `m_Array` points to.
pub record Heap : Type 0 where
  pub heap_type : HeapType
  pub array : List ℕ
  pub array_capacity : ℕ
  pub array_size : ℕ
  pub compare_func : CompareFunc

-- `new void*[n]`: a block of n cells with unknown contents, or `std::bad_alloc`. A request whose
-- size in bytes does not fit `size_t` is refused.
pub record NewArray : Type 0 where
  pub new_array : ℕ → Option (List ℕ)
  pub length-new_array : (n : ℕ) {a : List ℕ} → new_array n ≡ some a → length a ≡ n
  pub new_array_bound : (n : ℕ) {a : List ℕ} → new_array n ≡ some a → n < 2 ^ 61

-- The last `if` always holds, so the function does not run off its end.
pub default_compare : ℕ → ℕ → Sign
default_compare data1 data2 =
    if ltb data1 data2 then negative else if data1 == data2 then null else positive

-- May `x` stand above `y`? `x >= y` in a big heap, `x <= y` in a small heap.
pub in_order : HeapType → ℕ → ℕ → Bool
in_order big_heap x y = leb y x
in_order small_heap x y = leb x y

-- The exchange through `temp`.
pub swap_cells : List ℕ → ℕ → ℕ → Run (List ℕ)
swap_cells a i j = do x ← load a i; y ← load a j; b ← store a i y; store b j x

-- The loop of ReBuild4Insert. `i >= 0 && halfi >= 0` always holds of a `size_t`.
pub rise : ℕ → HeapType → List ℕ → ℕ → ℕ → Run (List ℕ)
rise zero t a i halfi = out_of_fuel
rise (suc k) t a i halfi = do
  x ← load a i
  y ← load a halfi
  let onwards : Run (List ℕ) = do
    b ← swap_cells a i halfi
    let above = rise k t b halfi (sub_size halfi 1 / 2)
    if leb halfi 0 then ok b else above
  if in_order t y x then ok a else onwards

pub rebuild4_insert : Heap → Run Heap
rebuild4_insert h = if h.array_size == 1 then ok h else do
  let i = sub_size h.array_size 1
  a ← rise (h.array_size + 1) h.heap_type h.array i (sub_size i 1 / 2)
  ok (record h { array = a })

pub has_left : ℕ → ℕ → Bool
has_left size i = not (leb size (add_size (mul_size i 2) 1))

pub has_right : ℕ → ℕ → Bool
has_right size i = not (leb size (add_size (mul_size i 2) 2))

-- The loop of ReBuild4Delete.
pub sink : ℕ → HeapType → ℕ → List ℕ → ℕ → ℕ → Run (List ℕ)
sink zero t n a i doublei = out_of_fuel
sink (suc k) t n a i doublei =
    let descend = λ (j : ℕ). swap_cells a i j >>= λ b. sink k t n b j (mul_size (add_size j 1) 2) in
    let both : Run (List ℕ) = do
      x ← load a i
      right ← load a doublei
      left ← load a (sub_size doublei 1)
      if in_order t x right && in_order t x left
          then ok a
          else if not (in_order t left right)
          then descend doublei
          else descend (sub_size doublei 1)
    in let single : Run (List ℕ) = do
      x ← load a i
      left ← load a (sub_size doublei 1)
      if in_order t x left then ok a else descend (sub_size doublei 1)
      in if ltb i n
        then (if has_right n i then both else if has_left n i then single else ok a)
        else ok a

pub rebuild4_delete : Heap → Run Heap
rebuild4_delete h = do
  a ← sink (h.array_size + 1) h.heap_type h.array_size h.array 0 2
  ok (record h { array = a })

-- `memmove` of n cells between two blocks.
pub move_cells : List ℕ → List ℕ → ℕ → Run (List ℕ)
move_cells to from n =
    if leb n (length from) && leb n (length to) then ok (take n from ++ drop n to) else fault

unfoldable pub size : Heap → ℕ
size h = h.array_size

unfoldable pub empty : Heap → Bool
empty h = if 0 == h.array_size then true else false

unfoldable pub top : Heap → Run ℕ
top h = if 0 == h.array_size then ok 0 else load h.array 0

pub pop : Heap → Run (ℕ × Heap)
pop h =
    let last = sub_size h.array_size 1 in
    let only : Run (ℕ × Heap) = do
      top_item ← load h.array 0
      a ← store h.array 0 0
      ok (top_item, record h { array_size = last; array = a })
    in let several : Run (ℕ × Heap) = do
      top_item ← load h.array 0
      last_item ← load h.array last
      a ← store h.array last 0
      b ← store a 0 last_item
      rest ← rebuild4_delete (record h { array_size = last; array = b })
      ok (top_item, rest)
      in if h.array_size == 0 then ok (0, h) else if h.array_size == 1 then only else several

-- `~Heap`: the block is released and the pointer is null.
pub destroy : Heap → Heap
destroy h = record h { array = []; array_size = 0 }

module _ (memory : NewArray) where
  open memory use {new_array}

  -- `Heap(int type, HeapDataCompareFunc compare)`
  pub new_heap_with : HeapType → CompareFunc → Run Heap
  new_heap_with t compare = do
    block ← or_fail bad_alloc (new_array 2)
    ok (record {
      heap_type = t;
      array = block;
      array_capacity = 2;
      array_size = 0;
      compare_func = compare;
    })

  -- `Heap(int type)`
  pub new_heap : HeapType → Run Heap
  new_heap t = new_heap_with t default_heap_data_compare

  -- The first `if` of Insert: a full block is replaced by one of twice the size.
  pub grow : Heap → Run Heap
  grow h =
      let larger : Run Heap = do
        temp ← or_fail bad_alloc (new_array (mul_size h.array_capacity 2))
        block ← move_cells temp h.array (mul_size h.array_capacity 8 / 8)
        ok (record h { array = block; array_capacity = mul_size h.array_capacity 2 })
      in if h.array_capacity == h.array_size then larger else ok h

  pub insert : Heap → ℕ → Run Heap
  insert h item = do
    h' ← grow h
    a ← store h'.array h'.array_size item
    rebuild4_insert (record h' { array = a; array_size = add_size h'.array_size 1 })
