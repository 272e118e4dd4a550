-- ===== src/Heap/Session.antt =====
-- Whole uses of a heap: its construction, repeated `Pop`, and the part that `m_CompareFunc` plays.
use mathlib.Core.Path.{subst, fun_ext}
use mathlib.Core.List.{Perm}
use mathlib.Core.List.Perm
use native.Mathlib.Bridge.{le_prop}
use lazyserver.Base.{
  ℕ, zero, suc, ◌≡◌, refl, sym, ap, add_size, List, [], ◌∷◌, take, arith, some, Run, ok, Yields,
  yields, Yields-then, ◌>>=◌, >>=-assoc, Bool-cases, inl, inr, ◌==◌,
}
use lazyserver.Base.Predicates.{All, Perm-All}
use lazyserver.Arrays.{store}
use lazyserver.Heap.{
  Heap, HeapType, CompareFunc, NewArray, new_heap_with, rebuild4_insert, grow, insert, pop,
  rebuild4_delete, size,
}
use lazyserver.Heap.Order.{Above}
use lazyserver.Heap.Storage.{items, IsValid}
use lazyserver.Heap.Pop.{pop_correct}

-- A new heap is valid and empty, if there is memory for its two cells.
pub new_heap_with-IsValid :
    (memory : NewArray) (t : HeapType) (f : CompareFunc) {block : List ℕ}
    → memory.new_array 2 ≡ some block
    → Yields (λ h. IsValid h × (size h ≡ 0) × (h.heap_type ≡ t)) (new_heap_with memory t f)
unfolding new_heap_with size
new_heap_with-IsValid memory t f e =
    let n = memory.length-new_array 2 e in
    rw e (
      yields (
        record {
          block = n;
          fits = omega arith;
          positive = omega arith;
          bounded = omega arith;
          ordered = λ c hc hcn. absurd (omega arith);
        },
        refl,
        refl,
      ))

-- `Pop`, n times: the items in the order in which they come out, and the heap that is left.
unfoldable pub pops : ℕ → Heap → Run (List ℕ × Heap)
pops zero h = ok ([], h)
pops (suc n) h = do (x, g) ← pop h; (xs, f) ← pops n g; ok (x ∷ xs, f)

-- Each item may stand above all that come after it.
abbrev pub IsSorted : HeapType → List ℕ → Type 0
IsSorted t [] = Unit
IsSorted t (x ∷ xs) = All (Above t x) xs × IsSorted t xs

Above-prop : (t : HeapType) (x y : ℕ) → IsProp (Above t x y)
Above-prop HeapType.big_heap x y = le_prop
Above-prop HeapType.small_heap x y = le_prop

-- As many calls of `Pop` as there are items give exactly these items, sorted from the root's end,
-- and leave the heap empty.
pub pops_sorts :
    (n : ℕ) (h : Heap)
    → IsValid h
    → h.array_size ≡ n
    → Yields (λ (xs, g). IsSorted h.heap_type xs × Perm xs (items h) × (size g ≡ 0)) (pops n h)
unfolding pops size
pops_sorts zero h v e = yields (tt, subst (λ k. Perm [] (take k h.array)) (sym e) (Perm.refl []), e)
pops_sorts (suc n) h v e = Yields-then (pop_correct h v (omega arith)) λ (x, g) (p, shown).
    Yields-then (pops_sorts n g p.valid (omega (arith, p.size)))
      λ (xs, f) (sorted, perm, none_left).
        let same = Perm.trans (Perm.cons x perm) p.same in
        let later =
          Perm-All (Above h.heap_type x) (Above-prop h.heap_type x) (Perm.symm same) p.extreme in
        yields ((later.1, subst (λ t. IsSorted t xs) p.type_kept sorted), same, none_left)

module _ (f : CompareFunc) where
  -- The same heap with another comparison function.
  abbrev with_compare : Heap → Heap
  with_compare h = record h { compare_func = f }

  abbrev then_with : Run Heap → Run Heap
  then_with r = r >>= λ h. ok (with_compare h)

  rebuild4_insert-with :
      (h : Heap) → rebuild4_insert (with_compare h) ≡ then_with (rebuild4_insert h)
  unfolding rebuild4_insert
  rebuild4_insert-with h = elim (Bool-cases (h.array_size == 1)) [
    | inl e ↦ rw e
    | inr e ↦ rw e (simp >>=-assoc)
  ]

  grow-with :
      (memory : NewArray) (h : Heap) → grow memory (with_compare h) ≡ then_with (grow memory h)
  unfolding grow
  grow-with memory h = elim (Bool-cases (h.array_capacity == h.array_size)) [
    | inl e ↦ rw e (simp >>=-assoc)
    | inr e ↦ rw e
  ]

  -- `Insert` works alike whatever comparison function the heap was given.
  pub insert-compare_func :
      (memory : NewArray) (h : Heap) (x : ℕ)
      → insert memory (with_compare h) x ≡ then_with (insert memory h x)
  unfolding insert
  insert-compare_func memory h x =
      simp (grow-with memory h, >>=-assoc)
        (ap (λ k. grow memory h >>= k)
          (fun_ext λ g.
            ap (λ k. store g.array g.array_size x >>= k)
              (fun_ext λ a.
                rebuild4_insert-with
                  (record g { array = a; array_size = add_size g.array_size 1 }))))

  -- `Pop` works alike whatever comparison function the heap was given.
  pub pop-compare_func :
      (h : Heap) → pop (with_compare h) ≡ (pop h >>= λ (x, g). ok (x, with_compare g))
  unfolding pop rebuild4_delete
  pop-compare_func h = elim (Bool-cases (h.array_size == 0)) [
    | inl e ↦ rw e
    | inr e ↦ elim (Bool-cases (h.array_size == 1)) [
      | inl e' ↦ rw (e, e') (simp >>=-assoc)
      | inr e' ↦ rw (e, e') (simp >>=-assoc)
    ]
  ]
