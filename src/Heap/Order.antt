-- ===== src/Heap/Order.antt =====
-- The heap order, for both directions.
use lazyserver.Base.{ℕ, suc, zero, ◌-◌, ◌/◌, ◌≤◌, ◌<◌, ◌≡◌, true, false, List, take, length, arith}
use lazyserver.Arrays.{at}
use lazyserver.Heap.{HeapType, big_heap, small_heap, in_order}
use mathlib.Core.List.{Perm}

-- `x` may stand above `y`.
abbrev pub Above : HeapType → ℕ → ℕ → Type 0
Above big_heap x y = y ≤ x
Above small_heap x y = x ≤ y

abbrev pub parent : ℕ → ℕ
parent c = (c - 1) / 2

-- Each of the first `n` cells but the root stands below its parent.
abbrev pub IsOrdered : HeapType → ℕ → List ℕ → Type 0
IsOrdered t n a = (c : ℕ) → 0 < c → c < n → Above t (at a (parent c)) (at a c)

-- `b` is the array `a` put in order: the same items, in a block of the same length.
pub record Rebuilt (t : HeapType) (n : ℕ) (a b : List ℕ) : Type 0 where
  pub ordered : IsOrdered t n b
  pub same : Perm (take n b) (take n a)
  pub block : length b ≡ length a

pub in_order-true : (t : HeapType) (x y : ℕ) → in_order t x y ≡ true → Above t x y
unfolding in_order
in_order-true small_heap x y h = ground arith
in_order-true _ x y h = ground arith

pub in_order-false : (t : HeapType) (x y : ℕ) → in_order t x y ≡ false → Above t y x
unfolding in_order
in_order-false small_heap x y h = ground arith
in_order-false _ x y h = ground arith

pub Above-refl : (t : HeapType) (x : ℕ) → Above t x x
Above-refl small_heap x = omega arith
Above-refl _ x = omega arith

pub Above-trans : (t : HeapType) (x y z : ℕ) → Above t x y → Above t y z → Above t x z
Above-trans small_heap x y z p q = omega arith
Above-trans _ x y z p q = omega arith

root-Above_below :
    (k : ℕ) (t : HeapType) (n : ℕ) (a : List ℕ) (i : ℕ)
    → IsOrdered t n a
    → i < k
    → i < n
    → Above t (at a 0) (at a i)
root-Above_below zero t n a i h p q = absurd (omega arith)
root-Above_below (suc k) t n a zero h p q = Above-refl t (at a 0)
root-Above_below (suc k) t n a (suc i) h p q =
    Above-trans t (at a 0) (at a (parent (suc i))) (at a (suc i))
      (root-Above_below k t n a (parent (suc i)) h (omega arith) (omega arith))
      (h (suc i) (omega arith) q)

-- The root stands above every item.
pub root-Above :
    (t : HeapType) (n : ℕ) (a : List ℕ) (i : ℕ)
    → IsOrdered t n a
    → i < n
    → Above t (at a 0) (at a i)
root-Above t n a i h p = root-Above_below (suc i) t n a i h (omega arith) p
