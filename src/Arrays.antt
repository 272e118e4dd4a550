-- ===== src/Arrays.antt =====
-- Reads and writes of an array of words, and what they do to the items in a prefix of it.
use mathlib.Core.List.{Perm}
use mathlib.Core.List.Perm
use mathlib.Core.List
use native.Mathlib.Bridge.{from_ℕ}
use lazyserver.Base.{
  ℕ, zero, suc, ◌≤◌, ◌<◌, ◌≡◌, refl, sym, ap, ◌∙◌, List, [], ◌∷◌, arith, length, get_elem?, get_or,
  set, take, some, length-set, Run, ok, fault, or_fail, if◌then◌else◌, ltb, ◌==◌,
}

-- `a[i]` read; out of range it is undefined behaviour.
unfoldable pub load : List ℕ → ℕ → Run ℕ
load a i = or_fail fault (get_elem? a i)

-- `a[i] = v`.
unfoldable pub store : List ℕ → ℕ → ℕ → Run (List ℕ)
store a i v = if ltb i (length a) then ok (set a i v) else fault

-- The value at an index that is in range.
abbrev pub at : List ℕ → ℕ → ℕ
at a i = get_or a i 0

get_elem?-at : (a : List ℕ) (i : ℕ) → i < length a → get_elem? a i ≡ some (at a i)
get_elem?-at [] i h = absurd (omega arith)
get_elem?-at (x ∷ a) zero h = refl
get_elem?-at (x ∷ a) (suc i) h = get_elem?-at a i (omega arith)

pub load-ok : (a : List ℕ) (i : ℕ) → i < length a → load a i ≡ ok (at a i)
unfolding load
load-ok a i h = rw (get_elem?-at a i h)

pub store-ok : (a : List ℕ) (i v : ℕ) → i < length a → store a i v ≡ ok (set a i v)
unfolding store
store-ok a i v h = ground arith

pub at-set :
    (a : List ℕ) (i v j : ℕ) → i < length a → at (set a i v) j ≡ (if i == j then v else at a j)
at-set [] i v j h = absurd (omega arith)
at-set (x ∷ a) zero v zero h = refl
at-set (x ∷ a) zero v (suc j) h = ground arith
at-set (x ∷ a) (suc i) v zero h = ground arith
at-set (x ∷ a) (suc i) v (suc j) h = ground (arith, at-set a i v j)

pub at-set_self : (a : List ℕ) (i v : ℕ) → i < length a → at (set a i v) i ≡ v
at-set_self a i v h = ground (arith, at-set a i v i)

pub at-take : (n : ℕ) (a : List ℕ) (i : ℕ) → i < n → at (take n a) i ≡ at a i
at-take zero a i h = absurd (omega arith)
at-take (suc n) [] i h = refl
at-take (suc n) (x ∷ a) zero h = refl
at-take (suc n) (x ∷ a) (suc i) h = at-take n a i (omega arith)

pub length-take_le : (n : ℕ) (a : List ℕ) → n ≤ length a → length (take n a) ≡ n
length-take_le zero a h = refl
length-take_le (suc n) [] h = absurd (omega arith)
length-take_le (suc n) (x ∷ a) h = ap suc (length-take_le n a (omega arith))

-- A write inside the prefix is a write to the prefix.
pub take-set : (n : ℕ) (a : List ℕ) (i v : ℕ) → i < n → take n (set a i v) ≡ set (take n a) i v
take-set zero a i v h = absurd (omega arith)
take-set (suc n) [] i v h = refl
take-set (suc n) (x ∷ a) zero v h = refl
take-set (suc n) (x ∷ a) (suc i) v h = ap (◌∷◌ x) (take-set n a i v (omega arith))

-- A write past the prefix leaves it alone.
pub take-set_past : (n : ℕ) (a : List ℕ) (i v : ℕ) → n ≤ i → take n (set a i v) ≡ take n a
take-set_past zero a i v h = refl
take-set_past (suc n) [] i v h = refl
take-set_past (suc n) (x ∷ a) zero v h = absurd (omega arith)
take-set_past (suc n) (x ∷ a) (suc i) v h = ap (◌∷◌ x) (take-set_past n a i v (omega arith))

-- A prefix one longer has one item more.
pub take-suc-perm : (n : ℕ) (a : List ℕ) → n < length a → Perm (take (suc n) a) (at a n ∷ take n a)
take-suc-perm n [] h = absurd (omega arith)
take-suc-perm zero (x ∷ a) h = Perm.refl (x ∷ [])
take-suc-perm (suc n) (x ∷ a) h =
    Perm.trans (Perm.cons x (take-suc-perm n a (omega arith))) (Perm.swap (at a n) x (take n a))

-- A write trades one item for another.
pub set-perm : (a : List ℕ) (i v : ℕ) → i < length a → Perm (at a i ∷ set a i v) (v ∷ a)
set-perm [] i w bound = absurd (omega arith)
set-perm (first ∷ others) zero w bound = Perm.swap w first others
set-perm (first ∷ others) (suc i) w bound =
    let below = set-perm others i w (omega arith) in
    let swapped = Perm.swap first (at others i) (set others i w) in
    Perm.trans swapped (Perm.trans (Perm.cons first below) (Perm.swap w first others))

-- The two assignments of an exchange through a temporary.
abbrev pub exchange : List ℕ → ℕ → ℕ → List ℕ
exchange a i j = set (set a i (at a j)) j (at a i)

-- An exchange inside an array keeps its items.
exchange-perm : (a : List ℕ) (i j : ℕ) → i < length a → j < length a → Perm (exchange a i j) a
exchange-perm a i j hi hj =
    let b = set a i (at a j) in
    let kept : at b j ≡ at a j = ground (arith, at-set a i (at a j) j) in
    let back = rw kept at (set-perm b j (at a i) (rw length-set hj)) in
    Perm.cons_inv (Perm.trans back (set-perm a i (at a j) hi))

-- An exchange inside a prefix keeps the items of the prefix.
pub exchange-take-perm :
    (n : ℕ) (a : List ℕ) (i j : ℕ)
    → i < n
    → j < n
    → n ≤ length a
    → Perm (take n (exchange a i j)) (take n a)
exchange-take-perm n a i j hi hj hn =
    let size = length-take_le n a hn in
    rw (take-set n (set a i (at a j)) j (at a i) hj, take-set n a i (at a j) hi)
      (rw (at-take n a i hi, at-take n a j hj) at
        (exchange-perm (take n a) i j (rw size hi) (rw size hj)))

pub length-exchange : (a : List ℕ) (i j : ℕ) → length (exchange a i j) ≡ length a
length-exchange a i j = simp length-set

pub at-exchange :
    (a : List ℕ) (i j c : ℕ)
    → i < length a
    → j < length a
    → at (exchange a i j) c ≡ (if j == c then at a i else if i == c then at a j else at a c)
at-exchange a i j c hi hj =
    rw (at-set (set a i (at a j)) j (at a i) c (rw length-set hj), at-set a i (at a j) c hi)

length-from : (a : List ℕ) → length a ≡ from_ℕ (List.length a)
length-from [] = refl
length-from (x ∷ a) = ap suc (length-from a)

pub length-perm : {a b : List ℕ} → Perm a b → length a ≡ length b
length-perm {a} {b} p = length-from a ∙ ap from_ℕ (Perm.length-eq p) ∙ sym (length-from b)
