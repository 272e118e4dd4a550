-- ===== src/BufferV/Alike.antt =====
-- Two pieces of code that end alike: with related values, or with the same failure.
use lazyserver.Base.{
  Bool, true, false, Run, ok, fault, assert_failed, exited, bad_alloc, out_of_fuel, ◌>>=◌,
  if◌then◌else◌,
}

pub data Alike {ℓ κ ρ} {A : Type ℓ} {B : Type κ} (R : A → B → Type ρ)
    : Run A → Run B → Type (ℓ ⊔ κ ⊔ ρ) where
  both_ok : {a : A} {b : B} → R a b → Alike R (ok a) (ok b)
  both_fault : Alike R fault fault
  both_assert_failed : Alike R assert_failed assert_failed
  both_exited : Alike R exited exited
  both_bad_alloc : Alike R bad_alloc bad_alloc
  both_out_of_fuel : Alike R out_of_fuel out_of_fuel

module _ {ℓ κ ρ} {A : Type ℓ} {B : Type κ} {R : A → B → Type ρ} where
  pub Alike-then {ℓ' κ' ρ'} :
      {A' : Type ℓ'} {B' : Type κ'} {S : A' → B' → Type ρ'} {r : Run A'} {r' : Run B'}
      {k : A' → Run A} {k' : B' → Run B}
      → Alike S r r'
      → ((a : A') (b : B') → S a b → Alike R (k a) (k' b))
      → Alike R (r >>= k) (r' >>= k')
  Alike-then (both_ok s) rest = rest _ _ s
  Alike-then both_fault rest = both_fault
  Alike-then both_assert_failed rest = both_assert_failed
  Alike-then both_exited rest = both_exited
  Alike-then both_bad_alloc rest = both_bad_alloc
  Alike-then both_out_of_fuel rest = both_out_of_fuel

  -- The same piece on both sides.
  pub Alike-same {κ'} :
      {C : Type κ'} (r : Run C) {k : C → Run A} {k' : C → Run B}
      → ((c : C) → Alike R (k c) (k' c))
      → Alike R (r >>= k) (r >>= k')
  Alike-same (ok c) rest = rest c
  Alike-same fault rest = both_fault
  Alike-same assert_failed rest = both_assert_failed
  Alike-same exited rest = both_exited
  Alike-same bad_alloc rest = both_bad_alloc
  Alike-same out_of_fuel rest = both_out_of_fuel

  pub Alike-test :
      (b : Bool) {x y : Run A} {x' y' : Run B}
      → Alike R x x'
      → Alike R y y'
      → Alike R (if b then x else y) (if b then x' else y')
  Alike-test true one two = one
  Alike-test false one two = two
