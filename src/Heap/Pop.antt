-- ===== src/Heap/Pop.antt =====
-- Heap::Top and Heap::Pop: the extreme item, and a valid heap of the others.
use mathlib.Core.Path.{subst}
use mathlib.Core.List.{Perm}
use mathlib.Core.List.Perm
use lazyserver.Base.{
  ℕ, suc, ◌+◌, ◌-◌, ◌/◌, ◌≤◌, ◌<◌, ◌^◌, ◌≡◌, refl, sym, ◌∙◌, List, [], ◌∷◌, take, set, length,
  arith, ok, Yields, yields, Yields-use, sub_size, length-set, ◌==◌, Bool-cases, inl, inr, ==_iff,
  true, false,
}
use lazyserver.Base.Predicates.{All}
use lazyserver.Arrays.{
  at, at-set, at-take, load-ok, store-ok, take-suc-perm, take-set, take-set_past, set-perm,
  length-take_le,
}
use lazyserver.Heap.{Heap, HeapType, rebuild4_delete, top, pop, empty}
use lazyserver.Heap.Order.{Above, IsOrdered, Rebuilt, root-Above}
use lazyserver.Heap.Sink.{IsSinking, sink_restores}
use lazyserver.Heap.Storage.{items, IsValid, All-take}

-- The heap `g` after `Pop` gave `x`.
pub record Popped (h : Heap) (x : ℕ) (g : Heap) : Type 0 where
  pub valid : IsValid g
  pub same : Perm (x ∷ items g) (items h)
  pub extreme : All (Above h.heap_type x) (items h)
  pub size : g.array_size + 1 ≡ h.array_size
  pub capacity_kept : g.array_capacity ≡ h.array_capacity
  pub type_kept : g.heap_type ≡ h.heap_type
  pub compare_kept : g.compare_func ≡ h.compare_func

-- ReBuild4Delete puts the array in order and changes nothing else.
rebuild4_delete-restores :
    (h : Heap)
    → h.array_size ≤ length h.array
    → h.array_size < 2 ^ 62
    → 0 < h.array_size
    → IsSinking h.heap_type h.array_size h.array 0
    → (a : List ℕ) × (rebuild4_delete h ≡ ok (record h { array = a }))
      × Rebuilt h.heap_type h.array_size h.array a
unfolding rebuild4_delete
rebuild4_delete-restores h hn small pos inv =
    Yields-use
      (sink_restores (h.array_size + 1) h.heap_type h.array_size h.array 0 hn small pos
        (omega arith) inv)
      λ a run r. (a, rw run, r)

module _ (a : List ℕ) (n : ℕ) (whole : suc n ≤ length a) (several : 0 < n) where
  -- the array that `Pop` hands to ReBuild4Delete
  abbrev replaced : List ℕ
  replaced = set (set a n 0) 0 (at a n)

  length-replaced : length replaced ≡ length a
  length-replaced = length-set (set a n 0) 0 (at a n) ∙ length-set a n 0

  replaced-perm : Perm (at a 0 ∷ take n replaced) (take (suc n) a)
  replaced-perm =
      let shorter = length-take_le n a (omega arith) in
      let traded = set-perm (take n a) 0 (at a n) (rw shorter several) in
      rw (take-set n (set a n 0) 0 (at a n) several, take-set_past n a n 0 (omega arith))
        (Perm.trans (rw (at-take n a 0 several) at traded) (Perm.symm (take-suc-perm n a whole)))

  replaced-IsSinking : (t : HeapType) → IsOrdered t (suc n) a → IsSinking t n replaced 0
  replaced-IsSinking HeapType.small_heap o = record {
    edges = λ c hc hcn ne.
        let at_b = λ (j : ℕ). at-set (set a n 0) 0 (at a n) j (rw length-set (omega arith)) in
        let at_a = λ (j : ℕ). at-set a n 0 j (omega arith) in
        ground (arith, o c, at_b c, at_b ((c - 1) / 2), at_a c, at_a ((c - 1) / 2));
    bridge = λ c hc hcn p pos. absurd (omega arith);
  }
  replaced-IsSinking _ o = record {
    edges = λ c hc hcn ne.
        let at_b = λ (j : ℕ). at-set (set a n 0) 0 (at a n) j (rw length-set (omega arith)) in
        let at_a = λ (j : ℕ). at-set a n 0 j (omega arith) in
        ground (arith, o c, at_b c, at_b ((c - 1) / 2), at_a c, at_a ((c - 1) / 2));
    bridge = λ c hc hcn p pos. absurd (omega arith);
  }

module _ (h : Heap) (v : IsValid h) where
  extreme_of_root : All (Above h.heap_type (at h.array 0)) (items h)
  extreme_of_root =
      All-take (Above h.heap_type (at h.array 0)) h.array_size h.array
        (omega (arith, v.block, v.fits))
        λ i p. root-Above h.heap_type h.array_size h.array i v.ordered p

  -- On an empty heap `Pop` returns the null pointer and leaves the heap as it is.
  pub pop-empty : empty h ≡ true → pop h ≡ ok (0, h)
  unfolding empty pop
  pop-empty e = ground arith

  pop_several :
      (n : ℕ)
      → h.array_size ≡ suc n
      → 0 < n
      → Yields (λ (x, g). Popped h x g × (top h ≡ ok x)) (pop h)
  unfolding pop top
  pop_several n e several =
      let last : sub_size h.array_size 1 ≡ n = omega (arith, v.fits, v.bounded) in
      let whole : suc n ≤ length h.array = omega (arith, v.fits, v.block) in
      let many : (h.array_size == 0) ≡ false = ground arith in
      let many' : (h.array_size == 1) ≡ false = ground arith in
      let b = replaced h.array n whole several in
      let size = length-replaced h.array n whole several in
      let ordered = replaced-IsSinking h.array n whole several h.heap_type (rw e at v.ordered) in
      let restored =
        rebuild4_delete-restores (record h { array_size = n; array = b }) (rw size (omega arith))
          (omega (arith, v.fits, v.bounded)) several ordered in
      let same : Perm (at h.array 0 ∷ take n b) (items h) =
        subst (λ k. Perm (at h.array 0 ∷ take n b) (take k h.array)) (sym e)
          (replaced-perm h.array n whole several) in
      rw
        (
          many,
          many',
          last,
          load-ok h.array 0 (omega arith),
          load-ok h.array n whole,
          store-ok h.array n 0 whole,
          store-ok (set h.array n 0) 0 (at h.array n) (rw length-set (omega arith)),
          restored.1,
        )
        (yields (
          record {
            valid = record {
              block = restored.2.block ∙ size ∙ v.block;
              fits = omega (arith, v.fits);
              positive = v.positive;
              bounded = v.bounded;
              ordered = restored.2.ordered;
            };
            same = Perm.trans (Perm.cons (at h.array 0) restored.2.same) same;
            extreme = extreme_of_root;
            size = omega arith;
            capacity_kept = refl;
            type_kept = refl;
            compare_kept = refl;
          },
          ground (arith, load-ok h.array 0),
        ))

  pop_only : h.array_size ≡ 1 → Yields (λ (x, g). Popped h x g × (top h ≡ ok x)) (pop h)
  unfolding pop top
  pop_only e =
      let last : sub_size h.array_size 1 ≡ 0 = omega arith in
      let whole : 0 < length h.array = omega (arith, v.fits, v.block) in
      let many : (h.array_size == 0) ≡ false = ground arith in
      let one : (h.array_size == 1) ≡ true = ground arith in
      let same : Perm (at h.array 0 ∷ []) (items h) =
        subst (λ k. Perm (at h.array 0 ∷ []) (take k h.array)) (sym e)
          (Perm.symm (take-suc-perm 0 h.array whole)) in
      rw (many, one, last, load-ok h.array 0 whole, store-ok h.array 0 0 whole)
        (yields (
          record {
            valid = record {
              block = length-set h.array 0 0 ∙ v.block;
              fits = omega arith;
              positive = v.positive;
              bounded = v.bounded;
              ordered = λ c hc hcn. absurd (omega arith);
            };
            same = same;
            extreme = extreme_of_root;
            size = omega arith;
            capacity_kept = refl;
            type_kept = refl;
            compare_kept = refl;
          },
          ground (arith, load-ok h.array 0),
        ))

  -- `Pop` on a heap with items takes out one item that may stand above every other, the one that
  -- `Top` shows, and leaves a valid heap of exactly the others.
  pub pop_correct : 0 < h.array_size → Yields (λ (x, g). Popped h x g × (top h ≡ ok x)) (pop h)
  pop_correct pos = elim (Bool-cases (h.array_size == 1)) [
    | inl one ↦ pop_only ((==_iff h.array_size 1).0 one)
    | inr more ↦ pop_several (h.array_size - 1) (omega arith) (ground arith)
  ]
