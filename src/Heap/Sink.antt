-- ===== src/Heap/Sink.antt =====
-- ReBuild4Delete restores the order after the root was replaced.
use mathlib.Core.List.Perm
use lazyserver.Base.{
  ℕ, zero, suc, ◌+◌, ◌*◌, ◌≤◌, ◌<◌, ◌^◌, ◌≡◌, ◌≢◌, ◌⊎◌, refl, ◌∙◌, List, take, length, arith, true,
  false, Run, ◌&&◌, Yields, yields, Yields-weaken, Yields-test, lt→ltb, ltb→lt, ◌>>=◌, ltb, not,
  not-eq-true, not-eq-false, sub_size, add_size, mul_size,
}
use lazyserver.Arrays.{load-ok, at, exchange, exchange-take-perm, length-exchange, at-exchange}
use lazyserver.Heap.{HeapType, small_heap, in_order, swap_cells, has_left, has_right, sink}
use lazyserver.Heap.Order.{
  Above, Above-refl, parent, IsOrdered, Rebuilt, in_order-true, in_order-false,
}
use lazyserver.Heap.Rise.{swap_cells-ok}

-- Every item but the children of `i` stands below its parent, and the children of `i` below the
-- parent of `i`.
pub record IsSinking (t : HeapType) (n : ℕ) (a : List ℕ) (i : ℕ) : Type 0 where
  pub edges : (c : ℕ) → 0 < c → c < n → parent c ≢ i → Above t (at a (parent c)) (at a c)
  pub bridge : (c : ℕ) → 0 < c → c < n → parent c ≡ i → 0 < i → Above t (at a (parent i)) (at a c)

-- `j` is the child of `i` that may stand above `i` and above its sibling.
record IsChosen (t : HeapType) (n : ℕ) (a : List ℕ) (i j : ℕ) : Type 0 where
  child : parent j ≡ i
  positive : 0 < j
  inside : j < n
  above : Above t (at a j) (at a i)
  sibling : (c : ℕ) → 0 < c → c < n → parent c ≡ i → Above t (at a j) (at a c)

module _ (n : ℕ) (a : List ℕ) (i j : ℕ) (hn : n ≤ length a) where
  abbrev b : List ℕ
  b = exchange a i j

  sinking_edges :
      (t : HeapType)
      → IsSinking t n a i
      → IsChosen t n a i j
      → (c : ℕ) → 0 < c
      → c < n
      → parent c ≢ j
      → Above t (at b (parent c)) (at b c)
  sinking_edges small_heap inv ch c hc hcn ne =
      let at_b = λ (k : ℕ). at-exchange a i j k (omega arith) (omega arith) in
      ground (arith, at_b c, at_b (parent c), inv.edges c, inv.bridge j, ch.sibling c, ch.child)
  sinking_edges _ inv ch c hc hcn ne =
      let at_b = λ (k : ℕ). at-exchange a i j k (omega arith) (omega arith) in
      ground (arith, at_b c, at_b (parent c), inv.edges c, inv.bridge j, ch.sibling c, ch.child)

  sinking_bridge :
      (t : HeapType)
      → IsSinking t n a i
      → IsChosen t n a i j
      → (c : ℕ) → 0 < c
      → c < n
      → parent c ≡ j
      → 0 < j
      → Above t (at b (parent j)) (at b c)
  sinking_bridge small_heap inv ch c hc hcn e hp =
      let at_b = λ (k : ℕ). at-exchange a i j k (omega arith) (omega arith) in
      ground (arith, at_b c, at_b (parent j), inv.edges c, ch.child)
  sinking_bridge _ inv ch c hc hcn e hp =
      let at_b = λ (k : ℕ). at-exchange a i j k (omega arith) (omega arith) in
      ground (arith, at_b c, at_b (parent j), inv.edges c, ch.child)

  IsSinking-step : (t : HeapType) → IsSinking t n a i → IsChosen t n a i j → IsSinking t n b j
  IsSinking-step t inv ch = record {
    edges = sinking_edges t inv ch;
    bridge = sinking_bridge t inv ch;
  }

-- Above all its children, the item is in its place.
sinking_done :
    {t : HeapType} {n : ℕ} {a : List ℕ} (i : ℕ)
    → IsSinking t n a i
    → ((c : ℕ) → 0 < c → c < n → parent c ≡ i → Above t (at a i) (at a c))
    → IsOrdered t n a
sinking_done {t = small_heap} i inv h c hc hcn = grind (arith, inv.edges c, h c)
sinking_done i inv h c hc hcn = grind (arith, inv.edges c, h c)

-- The larger index of two children is chosen where the left one may not stand above it.
IsChosen-right :
    (t : HeapType) (n : ℕ) (a : List ℕ) (i : ℕ)
    → 2 * i + 2 < n
    → (in_order t (at a i) (at a (2 * i + 2)) && in_order t (at a i) (at a (2 * i + 1))) ≡ false
    → in_order t (at a (2 * i + 1)) (at a (2 * i + 2)) ≡ false
    → IsChosen t n a i (2 * i + 2)
unfolding in_order
IsChosen-right small_heap n a i h stuck e = record {
  child = omega arith;
  positive = omega arith;
  inside = h;
  above = ground arith;
  sibling = λ c hc hcn p. let two : (c ≡ 2 * i + 1) ⊎ (c ≡ 2 * i + 2) = omega arith in ground arith;
}
IsChosen-right _ n a i h stuck e = record {
  child = omega arith;
  positive = omega arith;
  inside = h;
  above = ground arith;
  sibling = λ c hc hcn p. let two : (c ≡ 2 * i + 1) ⊎ (c ≡ 2 * i + 2) = omega arith in ground arith;
}

IsChosen-left :
    (t : HeapType) (n : ℕ) (a : List ℕ) (i : ℕ)
    → 2 * i + 2 < n
    → (in_order t (at a i) (at a (2 * i + 2)) && in_order t (at a i) (at a (2 * i + 1))) ≡ false
    → in_order t (at a (2 * i + 1)) (at a (2 * i + 2)) ≡ true
    → IsChosen t n a i (2 * i + 1)
unfolding in_order
IsChosen-left small_heap n a i h stuck e = record {
  child = omega arith;
  positive = omega arith;
  inside = omega arith;
  above = ground arith;
  sibling = λ c hc hcn p. let two : (c ≡ 2 * i + 1) ⊎ (c ≡ 2 * i + 2) = omega arith in ground arith;
}
IsChosen-left _ n a i h stuck e = record {
  child = omega arith;
  positive = omega arith;
  inside = omega arith;
  above = ground arith;
  sibling = λ c hc hcn p. let two : (c ≡ 2 * i + 1) ⊎ (c ≡ 2 * i + 2) = omega arith in ground arith;
}

IsChosen-only :
    (t : HeapType) (n : ℕ) (a : List ℕ) (i : ℕ)
    → 2 * i + 2 ≡ n
    → in_order t (at a i) (at a (2 * i + 1)) ≡ false
    → IsChosen t n a i (2 * i + 1)
IsChosen-only t n a i h e = record {
  child = omega arith;
  positive = omega arith;
  inside = omega arith;
  above = in_order-false t _ _ e;
  sibling = λ c hc hcn p.
      let one : c ≡ 2 * i + 1 = omega arith in rw one (Above-refl t (at a (2 * i + 1)));
}

settled_both :
    (t : HeapType) (n : ℕ) (a : List ℕ) (i : ℕ)
    → (in_order t (at a i) (at a (2 * i + 2)) && in_order t (at a i) (at a (2 * i + 1))) ≡ true
    → (c : ℕ) → 0 < c
    → c < n
    → parent c ≡ i
    → Above t (at a i) (at a c)
unfolding in_order
settled_both small_heap n a i e c hc hcn p =
    let two : (c ≡ 2 * i + 1) ⊎ (c ≡ 2 * i + 2) = omega arith in ground arith
settled_both _ n a i e c hc hcn p =
    let two : (c ≡ 2 * i + 1) ⊎ (c ≡ 2 * i + 2) = omega arith in ground arith

settled_single :
    (t : HeapType) (n : ℕ) (a : List ℕ) (i : ℕ)
    → 2 * i + 2 ≡ n
    → in_order t (at a i) (at a (2 * i + 1)) ≡ true
    → (c : ℕ) → 0 < c
    → c < n
    → parent c ≡ i
    → Above t (at a i) (at a c)
settled_single t n a i h e c hc hcn p =
    let one : c ≡ 2 * i + 1 = omega arith in rw one (in_order-true t _ _ e)

has_right_lem : (n i : ℕ) → i < n → n < 2 ^ 62 → has_right n i ≡ ltb (2 * i + 2) n
unfolding has_right
has_right_lem n i hi small = ground arith

has_left_lem : (n i : ℕ) → i < n → n < 2 ^ 62 → has_left n i ≡ ltb (2 * i + 1) n
unfolding has_left
has_left_lem n i hi small = ground arith

-- What is yielded after an exchange serves the array before it.
Rebuilt-exchange :
    {t : HeapType} {n : ℕ} {r : Run (List ℕ)} (a : List ℕ) (i j : ℕ)
    → n ≤ length a
    → i < n
    → j < n
    → Yields (Rebuilt t n (exchange a i j)) r
    → Yields (Rebuilt t n a) r
Rebuilt-exchange {n} a i j hn hi hj = Yields-weaken λ c r. record {
  ordered = r.ordered;
  same = Perm.trans r.same (exchange-take-perm n a i j hi hj hn);
  block = r.block ∙ length-exchange a i j;
}

Rebuilt-refl : {t : HeapType} {n : ℕ} {a : List ℕ} → IsOrdered t n a → Rebuilt t n a a
Rebuilt-refl {n} {a} h = record { ordered = h; same = Perm.refl (take n a); block = refl }

-- The loop of ReBuild4Delete ends, inside the block, with the items in order.
pub sink_restores :
    (k : ℕ) (t : HeapType) (n : ℕ) (a : List ℕ) (i : ℕ)
    → n ≤ length a
    → n < 2 ^ 62
    → i < n
    → n < k + i
    → IsSinking t n a i
    → Yields (Rebuilt t n a) (sink k t n a i (2 * i + 2))
unfolding sink
sink_restores zero t n a i hn small hi fuel inv = absurd (omega arith)
sink_restores (suc k) t n a i hn small hi fuel inv =
    let next : sub_size (2 * i + 2) 1 ≡ 2 * i + 1 = omega arith in
    let down = λ (j : ℕ) (ch : IsChosen t n a i j).
      let next_j : mul_size (add_size j 1) 2 ≡ 2 * j + 2 = omega (arith, ch.inside) in
      let ih : Yields (Rebuilt t n a) (sink k t n (exchange a i j) j (2 * j + 2)) =
        Rebuilt-exchange a i j hn hi ch.inside (
          sink_restores k t n (exchange a i j) j (rw length-exchange hn) small ch.inside
            (omega (arith, ch.child, ch.positive)) (IsSinking-step n a i j hn t inv ch)) in
      let run : Yields (Rebuilt t n a)
          (swap_cells a i j >>= λ b. sink k t n b j (mul_size (add_size j 1) 2)) =
        rw (swap_cells-ok a i j (omega arith) (omega (arith, ch.inside)), next_j) ih in
      run in
    rw (next, has_right_lem n i hi small, has_left_lem n i hi small, lt→ltb i n hi)
      (Yields-test (ltb (2 * i + 2) n)
        (λ two.
          let right : 2 * i + 2 < n = ltb→lt (2 * i + 2) n two in
          rw
            (
              load-ok a i (omega arith),
              load-ok a (2 * i + 2) (omega arith),
              load-ok a (2 * i + 1) (omega arith),
            )
            (Yields-test
              (in_order t (at a i) (at a (2 * i + 2)) && in_order t (at a i) (at a (2 * i + 1)))
              (λ still. yields (Rebuilt-refl (sinking_done i inv (settled_both t n a i still))))
              λ stuck.
                Yields-test (not (in_order t (at a (2 * i + 1)) (at a (2 * i + 2))))
                  (λ r. down (2 * i + 2) (IsChosen-right t n a i right stuck (not-eq-true _ r)))
                  λ r. down (2 * i + 1) (IsChosen-left t n a i right stuck (not-eq-false _ r))))
        λ e.
          Yields-test (ltb (2 * i + 1) n)
            (λ one.
              let left : 2 * i + 2 ≡ n = ground arith in
              rw (load-ok a i (omega arith), load-ok a (2 * i + 1) (omega arith))
                (Yields-test (in_order t (at a i) (at a (2 * i + 1)))
                  (λ still.
                    yields (Rebuilt-refl (sinking_done i inv (settled_single t n a i left still))))
                  λ stuck. down (2 * i + 1) (IsChosen-only t n a i left stuck)))
            λ e'. yields (Rebuilt-refl (sinking_done i inv λ c hc hcn p. absurd (ground arith))))
