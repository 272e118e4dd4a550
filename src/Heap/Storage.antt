-- ===== src/Heap/Storage.antt =====
-- The invariant of Heap: its block, its items in order, and the block that `Insert` grows to.
use mathlib.Core.Path.{subst}
use lazyserver.Base.{
  ℕ, zero, suc, ◌-◌, ◌*◌, ◌/◌, ◌≤◌, ◌<◌, ◌^◌, ◌≡◌, refl, sym, ◌∙◌, List, [], ◌∷◌, ◌++◌, take, drop,
  length, arith, some, ok, Yields, yields, Yields-test, mul_size, length-append, length-drop, ap,
  ◌==◌, ==_iff,
}
use lazyserver.Base.Predicates.{All}
use lazyserver.Arrays.{at, at-take, length-take_le}
use lazyserver.Heap.{Heap, HeapType, NewArray, move_cells, grow}
use lazyserver.Heap.Order.{IsOrdered}

-- The items of the heap: the cells in use.
abbrev pub items : Heap → List ℕ
items h = take h.array_size h.array

pub items-nil : (h : Heap) → h.array_size ≡ 0 → items h ≡ []
items-nil h e = subst (λ n. take n h.array ≡ []) (sym e) refl

pub record IsValid (h : Heap) : Type 0 where
  pub block : length h.array ≡ h.array_capacity
  pub fits : h.array_size ≤ h.array_capacity
  pub positive : 0 < h.array_capacity
  pub bounded : h.array_capacity < 2 ^ 61
  pub ordered : IsOrdered h.heap_type h.array_size h.array

-- `operator new[]` gives the block that a full heap asks for.
abbrev pub CanGrow : NewArray → Heap → Type 0
CanGrow memory h =
    h.array_capacity ≡ h.array_size
    → (block : List ℕ) × (memory.new_array (h.array_capacity * 2) ≡ some block)

-- What `Insert` has before it writes: the same items, and a free cell behind them.
pub record HasRoom (h g : Heap) : Type 0 where
  pub valid : IsValid g
  pub room : g.array_size < g.array_capacity
  pub kept : take h.array_size g.array ≡ items h
  pub size_kept : g.array_size ≡ h.array_size
  pub larger : h.array_capacity ≤ g.array_capacity
  pub type_kept : g.heap_type ≡ h.heap_type
  pub compare_kept : g.compare_func ≡ h.compare_func

pub All-take {κ} :
    (P : ℕ → Type κ) (n : ℕ) (a : List ℕ)
    → n ≤ length a
    → ((i : ℕ) → i < n → P (at a i))
    → All P (take n a)
All-take P zero a hn h = tt
All-take P (suc n) [] hn h = absurd (omega arith)
All-take P (suc n) (x ∷ a) hn h =
    (h 0 (omega arith), All-take P n a (omega arith) λ i p. h (suc i) (omega arith))

take-append : (n : ℕ) (a b : List ℕ) → n ≡ length a → take n (a ++ b) ≡ a
take-append zero [] b e = refl
take-append zero (x ∷ a) b e = absurd (omega arith)
take-append (suc n) [] b e = absurd (omega arith)
take-append (suc n) (x ∷ a) b e = ap (◌∷◌ x) (take-append n a b (omega arith))

moved : ℕ → List ℕ → List ℕ → List ℕ
moved n from to = take n from ++ drop n to

-- The copied cells hold what they held.
module _ (n : ℕ) (from to : List ℕ) (whole : length from ≡ n) (larger : n ≤ length to) where
  move_cells-ok : move_cells to from n ≡ ok (moved n from to)
  unfolding move_cells moved
  move_cells-ok = ground arith

  length-moved : length (moved n from to) ≡ length to
  unfolding moved
  length-moved =
      omega
        (arith, length-append (take n from) (drop n to), length-drop n to, length-take_le n from)

  take-moved_all : take n (moved n from to) ≡ take n from
  unfolding moved
  take-moved_all = take-append n (take n from) (drop n to) (omega (arith, length-take_le n from))

  take-moved : (m : ℕ) → n ≡ m → take m (moved n from to) ≡ take m from
  take-moved m e = subst (λ k. take k (moved n from to) ≡ take k from) e take-moved_all

-- An order speaks only of the cells in use.
pub IsOrdered-take :
    (t : HeapType) (n : ℕ) (a b : List ℕ) → take n a ≡ take n b → IsOrdered t n b → IsOrdered t n a
IsOrdered-take HeapType.small_heap n a b e h c hc hcn =
    ground (
      arith,
      h c,
      at-take n a c,
      at-take n b c,
      at-take n a ((c - 1) / 2),
      at-take n b ((c - 1) / 2),
    )
IsOrdered-take _ n a b e h c hc hcn =
    ground (
      arith,
      h c,
      at-take n a c,
      at-take n b c,
      at-take n a ((c - 1) / 2),
      at-take n b ((c - 1) / 2),
    )

module _ (memory : NewArray) (h : Heap) (v : IsValid h) where
  -- With memory for it, a full heap moves to a larger block, and any other stays.
  pub grow-HasRoom : CanGrow memory h → Yields (HasRoom h) (grow memory h)
  unfolding grow
  grow-HasRoom can =
      Yields-test (h.array_capacity == h.array_size)
        (λ full.
          let e : h.array_capacity ≡ h.array_size = (==_iff _ _).0 full in
          let (block, given) = can e in
          let n = h.array_capacity in
          let twice : mul_size n 2 ≡ n * 2 = omega (arith, v.bounded) in
          let cells : mul_size n 8 / 8 ≡ n = omega (arith, v.bounded) in
          let size = memory.length-new_array (n * 2) given in
          let larger : n ≤ length block = omega (arith, size) in
          let same = take-moved n h.array block v.block larger h.array_size e in
          rw (twice, cells, given, move_cells-ok n h.array block v.block larger)
            (yields (record {
              valid = record {
                block = length-moved n h.array block v.block larger ∙ size;
                fits = omega arith;
                positive = omega (arith, v.positive);
                bounded = memory.new_array_bound (n * 2) given;
                ordered = IsOrdered-take h.heap_type h.array_size _ h.array same v.ordered;
              };
              room = omega (arith, v.positive);
              kept = same;
              size_kept = refl;
              larger = omega arith;
              type_kept = refl;
              compare_kept = refl;
            })))
        λ spare. yields (record {
          valid = v;
          room = ground (arith, v.fits);
          kept = refl;
          size_kept = refl;
          larger = omega arith;
          type_kept = refl;
          compare_kept = refl;
        })
