-- ===== src/MemoryPool/Total.antt =====
-- The bytes that the pool holds: its free lists and its free heap.
use lazyserver.Base.{
  ℕ, zero, suc, ◌+◌, ◌-◌, ◌*◌, ◌%◌, ◌≤◌, ◌<◌, ◌^◌, ◌≡◌, refl, ap, sym, ◌∙◌, List, [], ◌∷◌, get_or,
  set, length, length-set, arith, add_size, Yields, yields, Yields-weaken, ◌==◌, false, Yields-then,
}
use lazyserver.MemoryPool.{Pool, push_free, carve}
use lazyserver.MemoryPool.Classes.{class_at-ok}

-- A way to count what a block at an address holds, which adds up over adjacent blocks: its bytes, for
-- one, or whether it has a given byte.
abbrev pub Measure : Type 0
Measure = ℕ → ℕ → ℕ

pub record IsMeasure (w : Measure) : Type 0 where
  pub joins : (p n m : ℕ) → w p (n + m) ≡ w p n + w (p + n) m

-- The blocks of n bytes at these addresses.
abbrev pub weigh : Measure → ℕ → List ℕ → ℕ
weigh w n [] = 0
weigh w n (p ∷ blocks) = w p n + weigh w n blocks

-- The lists, of which the first has index i.
abbrev pub listed : Measure → ℕ → List (List ℕ) → ℕ
listed w i [] = 0
listed w i (blocks ∷ lists) = weigh w (8 * (i + 1)) blocks + listed w (suc i) lists

-- What the pool can still hand out without asking the system.
abbrev pub free : Measure → Pool → ℕ
free w pool = listed w 0 pool.free_list + w pool.start_free (pool.end_free - pool.start_free)

-- The bytes of a block.
abbrev pub count_bytes : Measure
count_bytes p n = n

pub count_bytes-IsMeasure : IsMeasure count_bytes
count_bytes-IsMeasure = record { joins = λ p n m. refl }

pub empty_block : (w : Measure) → IsMeasure w → (p : ℕ) → w p 0 ≡ 0
empty_block w m p =
    let twice : w p 0 ≡ w p 0 + w p 0 = m.joins p 0 0 ∙ ap (λ q. w p 0 + w q 0) (omega arith) in
    omega (arith, twice)

pub record IsValid (pool : Pool) : Type 0 where
  pub classes : length pool.free_list ≡ 16
  pub range : pool.start_free ≤ pool.end_free
  pub addressable : pool.end_free < 2 ^ 64
  pub start_aligned : pool.start_free % 8 ≡ 0
  pub end_aligned : pool.end_free % 8 ≡ 0
  pub real : pool.start_free < pool.end_free → 0 < pool.start_free

-- A block in two parts, the first of n bytes and the second of `rest`.
pub cut :
    (w : Measure)
    → IsMeasure w
    → (p size n rest : ℕ) → n + rest ≡ size
    → w p size ≡ w p n + w (p + n) rest
cut w m p size n rest e = ap (w p) (sym e) ∙ m.joins p n rest

-- One block more in a list.
listed-push :
    (w : Measure) (i j n : ℕ) (lists : List (List ℕ)) (p : ℕ)
    → j < length lists
    → 8 * (i + j + 1) ≡ n
    → listed w i (set lists j (p ∷ get_or lists j [])) ≡ listed w i lists + w p n
listed-push w i j n [] p h e = absurd (omega arith)
listed-push w i zero n (blocks ∷ lists) p h e =
    let same : 8 * (i + 1) ≡ n = omega (arith, e) in
    let one : w p (8 * (i + 1)) ≡ w p n = ap (w p) same in omega (arith, one)
listed-push w i (suc j) n (blocks ∷ lists) p h e =
    omega (arith, listed-push w (suc i) j n lists p (omega arith) (omega arith))

-- One block less in a list that had one.
pub listed-pop :
    (w : Measure) (i j n : ℕ) (lists : List (List ℕ)) (p : ℕ) (rest : List ℕ)
    → j < length lists
    → 8 * (i + j + 1) ≡ n
    → get_or lists j [] ≡ p ∷ rest
    → listed w i (set lists j rest) + w p n ≡ listed w i lists
listed-pop w i j n [] p rest h size e = absurd (omega arith)
listed-pop w i zero n (blocks ∷ lists) p rest h size e =
    let all : weigh w (8 * (i + 1)) blocks ≡ w p (8 * (i + 1)) + weigh w (8 * (i + 1)) rest =
      ap (weigh w (8 * (i + 1))) e in
    let same : 8 * (i + 1) ≡ n = omega (arith, size) in
    let one : w p (8 * (i + 1)) ≡ w p n = ap (w p) same in omega (arith, all, one)
listed-pop w i (suc j) n (blocks ∷ lists) p rest h size e =
    omega (arith, listed-pop w (suc i) j n lists p rest (omega arith) (omega arith) e)

-- What putting `bytes` from `base` on into the lists does, in blocks, and nothing else.
pub record Stored (pool : Pool) (base bytes : ℕ) (pool' : Pool) : Type 0 where
  pub classes : length pool'.free_list ≡ length pool.free_list
  pub more :
      (w : Measure)
      → IsMeasure w
      → listed w 0 pool'.free_list ≡ listed w 0 pool.free_list + w base bytes
  pub start_kept : pool'.start_free ≡ pool.start_free
  pub end_kept : pool'.end_free ≡ pool.end_free
  pub heap_kept : pool'.heap_size ≡ pool.heap_size

pub push_free-Stored :
    (pool : Pool) (index p bytes : ℕ)
    → index < length pool.free_list
    → 8 * (index + 1) ≡ bytes
    → 0 < p
    → Yields (Stored pool p bytes) (push_free pool index p)
unfolding push_free
push_free-Stored pool index p bytes h e pos =
    let real : (p == 0) ≡ false = ground arith in
    rw (real, class_at-ok pool index h)
      (yields (record {
        classes = length-set pool.free_list index _;
        more = λ w m. listed-push w 0 index bytes pool.free_list p h (omega (arith, e));
        start_kept = refl;
        end_kept = refl;
        heap_kept = refl;
      }))

pub carve-Stored :
    (count : ℕ) (pool : Pool) (index base bytes : ℕ)
    → index < length pool.free_list
    → 8 * (index + 1) ≡ bytes
    → 0 < base
    → base + count * bytes < 2 ^ 64
    → Yields (Stored pool base (count * bytes)) (carve count pool index base bytes)
unfolding carve
carve-Stored zero pool index base bytes h e pos fits = yields (record {
  classes = refl;
  more = λ w m.
      let none_left : 0 * bytes ≡ 0 = omega arith in
      let nothing : w base (0 * bytes) ≡ w base 0 = ap (w base) none_left in
      omega (arith, nothing, empty_block w m base);
  start_kept = refl;
  end_kept = refl;
  heap_kept = refl;
})
carve-Stored (suc count) pool index base bytes h e pos fits =
    let next : add_size base bytes ≡ base + bytes = omega arith in
    Yields-then (push_free-Stored pool index base bytes h e pos) λ pool' one. rw next (
      Yields-weaken
        (λ pool'' rest. record {
          classes = rest.classes ∙ one.classes;
          more = λ w m.
              let sum : suc count * bytes ≡ bytes + count * bytes = omega arith in
              let split : w base (suc count * bytes)
                  ≡ w base bytes + w (base + bytes) (count * bytes) =
                ap (w base) sum ∙ m.joins base bytes (count * bytes) in
              omega (arith, rest.more w m, one.more w m, split);
          start_kept = rest.start_kept ∙ one.start_kept;
          end_kept = rest.end_kept ∙ one.end_kept;
          heap_kept = rest.heap_kept ∙ one.heap_kept;
        })
        (carve-Stored count pool' index (base + bytes) bytes (omega (arith, one.classes)) e
          (omega arith) (omega arith)))
