-- ===== src/Heap/Rise.antt =====
-- ReBuild4Insert restores the order after one item was put at the end.
use mathlib.Core.List.Perm
use lazyserver.Base.{
  ℕ, zero, suc, ◌/◌, ◌≤◌, ◌<◌, ◌^◌, ◌≡◌, ◌≢◌, refl, ◌∙◌, List, take, set, length, arith, ok, Yields,
  yields, Yields-weaken, Yields-test, length-set, leb, sub_size,
}
use lazyserver.Arrays.{
  load-ok, store-ok, at, exchange, exchange-take-perm, length-exchange, at-exchange,
}
use lazyserver.Heap.{HeapType, small_heap, in_order, swap_cells, rise}
use lazyserver.Heap.Order.{Above, parent, IsOrdered, Rebuilt, in_order-true, in_order-false}

pub swap_cells-ok :
    (a : List ℕ) (i j : ℕ) → i < length a → j < length a → swap_cells a i j ≡ ok (exchange a i j)
unfolding swap_cells
swap_cells-ok a i j hi hj = rw (
  load-ok a i hi,
  load-ok a j hj,
  store-ok a i (at a j) hi,
  store-ok (set a i (at a j)) j (at a i) (rw length-set hj),
)

-- Every item but that at `i` stands below its parent, and the children of `i` below the parent of `i`.
pub record IsRising (t : HeapType) (n : ℕ) (a : List ℕ) (i : ℕ) : Type 0 where
  pub edges : (c : ℕ) → 0 < c → c < n → c ≢ i → Above t (at a (parent c)) (at a c)
  pub bridge : (c : ℕ) → 0 < c → c < n → parent c ≡ i → 0 < i → Above t (at a (parent i)) (at a c)

module _ (n : ℕ) (a : List ℕ) (i : ℕ) (hn : n ≤ length a) (hi : i < n) (pos : 0 < i) where
  abbrev b : List ℕ
  b = exchange a i (parent i)

  rising_edges :
      (t : HeapType)
      → IsRising t n a i
      → Above t (at a i) (at a (parent i))
      → (c : ℕ) → 0 < c
      → c < n
      → c ≢ parent i
      → Above t (at b (parent c)) (at b c)
  rising_edges small_heap inv up c hc hcn ne =
      let at_b = λ (j : ℕ). at-exchange a i (parent i) j (omega arith) (omega arith) in
      ground (arith, at_b c, at_b (parent c), inv.edges c, inv.bridge c)
  rising_edges _ inv up c hc hcn ne =
      let at_b = λ (j : ℕ). at-exchange a i (parent i) j (omega arith) (omega arith) in
      ground (arith, at_b c, at_b (parent c), inv.edges c, inv.bridge c)

  rising_bridge :
      (t : HeapType)
      → IsRising t n a i
      → (c : ℕ) → 0 < c
      → c < n
      → parent c ≡ parent i
      → 0 < parent i
      → Above t (at b (parent (parent i))) (at b c)
  rising_bridge small_heap inv c hc hcn e hp =
      let at_b = λ (j : ℕ). at-exchange a i (parent i) j (omega arith) (omega arith) in
      ground (arith, at_b c, at_b (parent (parent i)), inv.edges c, inv.edges (parent i))
  rising_bridge _ inv c hc hcn e hp =
      let at_b = λ (j : ℕ). at-exchange a i (parent i) j (omega arith) (omega arith) in
      ground (arith, at_b c, at_b (parent (parent i)), inv.edges c, inv.edges (parent i))

  IsRising-step :
      (t : HeapType)
      → IsRising t n a i
      → Above t (at a i) (at a (parent i))
      → IsRising t n b (parent i)
  IsRising-step t inv up = record { edges = rising_edges t inv up; bridge = rising_bridge t inv }

-- At the root nothing is left to do.
rising_done :
    {t : HeapType} {n : ℕ} {a : List ℕ} (i : ℕ) → i ≡ 0 → IsRising t n a i → IsOrdered t n a
rising_done i e inv c hc hcn = inv.edges c hc hcn (omega arith)

-- In order with its parent, the item is in its place.
rising_settled :
    (t : HeapType) (n : ℕ) (a : List ℕ) (i : ℕ)
    → IsRising t n a i
    → Above t (at a (parent i)) (at a i)
    → IsOrdered t n a
rising_settled small_heap n a i inv h c hc hcn = grind (arith, inv.edges c)
rising_settled _ n a i inv h c hc hcn = grind (arith, inv.edges c)

-- The loop of ReBuild4Insert ends, inside the block, with the items in order.
pub rise_restores :
    (k : ℕ) (t : HeapType) (n : ℕ) (a : List ℕ) (i : ℕ)
    → n ≤ length a
    → n < 2 ^ 63
    → i < n
    → 0 < i
    → i < k
    → IsRising t n a i
    → Yields (Rebuilt t n a) (rise k t a i (sub_size i 1 / 2))
unfolding rise
rise_restores zero t n a i hn small hi pos fuel inv = absurd (omega arith)
rise_restores (suc k) t n a i hn small hi pos fuel inv =
    let up : sub_size i 1 / 2 ≡ parent i = omega arith in
    rw (up, load-ok a i (omega arith), load-ok a (parent i) (omega arith))
      (Yields-test (in_order t (at a (parent i)) (at a i))
        (λ e. yields (record {
          ordered = rising_settled t n a i inv (in_order-true t _ _ e);
          same = Perm.refl (take n a);
          block = refl;
        }))
        λ e.
          let inv' = IsRising-step n a i hn hi pos t inv (in_order-false t _ _ e) in
          let size = length-exchange a i (parent i) in
          let same = exchange-take-perm n a i (parent i) hi (omega arith) hn in
          rw (swap_cells-ok a i (parent i) (omega arith) (omega arith)) (
            Yields-test (leb (parent i) 0)
              (λ z. yields (record {
                ordered = rising_done (parent i) (ground arith) inv';
                same = same;
                block = size;
              }))
              λ z.
                Yields-weaken
                  (λ c r. record {
                    ordered = r.ordered;
                    same = Perm.trans r.same same;
                    block = r.block ∙ size;
                  })
                  (rise_restores k t n (exchange a i (parent i)) (parent i) (rw size hn) small
                    (omega arith) (ground arith) (omega arith) inv')))
