-- ===== src/Heap/Insert.antt =====
-- Heap::Insert: exactly one item more, in order; or no memory for a larger block.
use mathlib.Core.List.{Perm}
use mathlib.Core.List.Perm
use lazyserver.Base.{
  ℕ, suc, ◌+◌, ◌*◌, ◌≤◌, ◌<◌, ◌^◌, ◌≡◌, refl, ◌∙◌, List, ◌∷◌, take, set, length, arith, none, ok,
  bad_alloc, Yields, yields, Yields-then, mul_size, sub_size, add_size, length-set, ◌==◌, ◌>>=◌,
  ==_iff, Yields-use, Bool-cases, inl, inr,
}
use lazyserver.Arrays.{store, at-set_self, store-ok, take-suc-perm, take-set_past}
use lazyserver.Heap.{Heap, HeapType, NewArray, rebuild4_insert, grow, insert}
use lazyserver.Heap.Order.{IsOrdered, Rebuilt}
use lazyserver.Heap.Rise.{IsRising, rise_restores}
use lazyserver.Heap.Storage.{items, IsValid, CanGrow, HasRoom, grow-HasRoom, IsOrdered-take}

-- One item behind an ordered array rises from the end.
IsRising-last : {t : HeapType} (n : ℕ) (a : List ℕ) → IsOrdered t n a → IsRising t (suc n) a n
IsRising-last n a h = record {
  edges = λ c hc hcn ne. h c hc (omega arith);
  bridge = λ c hc hcn p pos. absurd (omega arith);
}

-- ReBuild4Insert puts the array in order and changes nothing else.
rebuild4_insert-restores :
    (h : Heap) (n : ℕ)
    → h.array_size ≡ suc n
    → suc n ≤ length h.array
    → suc n < 2 ^ 63
    → IsOrdered h.heap_type n h.array
    → (a : List ℕ) × (rebuild4_insert h ≡ ok (record h { array = a }))
      × Rebuilt h.heap_type (suc n) h.array a
unfolding rebuild4_insert
rebuild4_insert-restores h n e hn small o =
    let i : sub_size h.array_size 1 ≡ n = omega arith in
    elim (Bool-cases (h.array_size == 1)) [
      | inl one ↦
          let n_zero : n ≡ 0 = ground arith in
          (
            h.array,
            rw one,
            record {
              ordered = λ c hc hcn. absurd (omega arith);
              same = Perm.refl (take (suc n) h.array);
              block = refl;
            },
          )
      | inr more ↦
          Yields-use
            (rise_restores (h.array_size + 1) h.heap_type (suc n) h.array n hn small (omega arith)
              (ground arith) (omega arith) (IsRising-last n h.array o))
            λ a run r. (a, rw (more, i, run), r)
    ]

-- The heap after `Insert` of `x`.
pub record Inserted (h : Heap) (x : ℕ) (g : Heap) : Type 0 where
  pub valid : IsValid g
  pub same : Perm (items g) (x ∷ items h)
  pub size : g.array_size ≡ h.array_size + 1
  pub larger : h.array_capacity ≤ g.array_capacity
  pub type_kept : g.heap_type ≡ h.heap_type
  pub compare_kept : g.compare_func ≡ h.compare_func

-- With a free cell behind the items, the rest of `Insert` cannot fail.
insert_room :
    (h g : Heap) (x : ℕ)
    → HasRoom h g
    → Yields (Inserted h x) (
        store g.array g.array_size x >>= λ a.
        rebuild4_insert (record g { array = a; array_size = add_size g.array_size 1 }))
insert_room h g x r =
    let n = g.array_size in
    let more : add_size n 1 ≡ suc n = omega (arith, r.room, r.valid.bounded) in
    let inside : n < length g.array = omega (arith, r.room, r.valid.block) in
    let b = set g.array n x in
    let past = take-set_past n g.array n x (omega arith) in
    let new_item : Perm (take (suc n) b) (x ∷ take n g.array) =
      rw past at
        (rw (at-set_self g.array n x inside) at (take-suc-perm n b (rw length-set inside))) in
    let kept : take n g.array ≡ items h = rw r.size_kept r.kept in
    let restored =
      rebuild4_insert-restores (record g { array = b; array_size = suc n }) n refl
        (rw length-set inside) (omega (arith, r.room, r.valid.bounded))
        (IsOrdered-take g.heap_type n b g.array past r.valid.ordered) in
    rw (store-ok g.array n x inside, more, restored.1)
      (yields (record {
        valid = record {
          block = restored.2.block ∙ length-set g.array n x ∙ r.valid.block;
          fits = r.room;
          positive = r.valid.positive;
          bounded = r.valid.bounded;
          ordered = restored.2.ordered;
        };
        same = rw kept at (Perm.trans restored.2.same new_item);
        size = omega (arith, r.size_kept);
        larger = r.larger;
        type_kept = r.type_kept;
        compare_kept = r.compare_kept;
      }))

module _ (memory : NewArray) (h : Heap) (x : ℕ) (v : IsValid h) where
  -- With memory for a larger block where the heap is full, `Insert` adds exactly the item, and the
  -- heap stays valid: in order, inside its block, and of the same type.
  pub insert_correct : CanGrow memory h → Yields (Inserted h x) (insert memory h x)
  unfolding insert
  insert_correct can = Yields-then (grow-HasRoom memory h v can) λ g r. insert_room h g x r

  -- A full heap for which `operator new[]` gives no block ends in `std::bad_alloc`.
  pub insert-bad_alloc :
      h.array_capacity ≡ h.array_size
      → memory.new_array (h.array_capacity * 2) ≡ none
      → insert memory h x ≡ bad_alloc
  unfolding insert grow
  insert-bad_alloc full e =
      let twice : mul_size h.array_capacity 2 ≡ h.array_capacity * 2 = omega (arith, v.bounded) in
      rw ((==_iff h.array_capacity h.array_size).1 full, twice, e)
