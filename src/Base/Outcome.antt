-- ===== src/Base/Outcome.antt =====
-- How a piece of the program ends, and the rules for pieces that end well.
use mathlib.Core.Path.{◌≡◌, refl, subst}
use mathlib.Core.Bool.{Bool, true, false}
use mathlib.Core.Option.{Option, none, some}
use lazyserver.Base.Tests.{if◌then◌else◌}

-- A value, undefined behaviour (an access out of range, a null dereference), a failed assert,
-- `exit(-1)`, an uncaught `std::bad_alloc`, or the fuel of the model running out.
pub data Run {ℓ} (A : Type ℓ) : Type ℓ where
  ok : A → Run A
  fault : Run A
  assert_failed : Run A
  exited : Run A
  bad_alloc : Run A
  out_of_fuel : Run A

infixl 5 ◌>>=◌ ◌>>◌
abbrev pub ◌>>=◌ {ℓ κ} : {A : Type ℓ} {B : Type κ} → Run A → (A → Run B) → Run B
ok a >>= k = k a
fault >>= k = fault
assert_failed >>= k = assert_failed
exited >>= k = exited
bad_alloc >>= k = bad_alloc
out_of_fuel >>= k = out_of_fuel

abbrev pub ◌>>◌ {ℓ} : {B : Type ℓ} → Run (Unit {0}) → Run B → Run B
m >> k = m >>= λ _. k

pub >>=-assoc {ℓ κ ρ} :
    {A : Type ℓ} {B : Type κ} {C : Type ρ} (m : Run A) (k : A → Run B) (j : B → Run C)
    → ((m >>= k) >>= j) ≡ (m >>= λ a. k a >>= j)
>>=-assoc (ok a) k j = refl
>>=-assoc _ k j = refl

-- `assert(test)`
abbrev pub assert : Bool → Run (Unit {0})
assert true = ok tt
assert false = assert_failed

-- A value that is there, or the given failure.
abbrev pub or_fail {ℓ} : {A : Type ℓ} → Run A → Option A → Run A
or_fail failure (some a) = ok a
or_fail failure none = failure

-- The piece ends with a value, and `P` holds of the value.
pub data Yields {ℓ κ} {A : Type ℓ} (P : A → Type κ) : Run A → Type (ℓ ⊔ κ) where
  yields : {a : A} → P a → Yields P (ok a)

pub ok-injective {ℓ} : {A : Type ℓ} {a b : A} → ok a ≡ ok b → a ≡ b
ok-injective e = cc

module _ {ℓ κ} {A : Type ℓ} {P : A → Type κ} where
  -- Go on from the value that a piece yields.
  pub Yields-use {κ'} : {C : Type κ'} {r : Run A} → Yields P r → ((a : A) → r ≡ ok a → P a → C) → C
  Yields-use (yields p) rest = rest _ refl p

  -- The value of a piece that yields, with its equation.
  pub Yields-value : {r : Run A} → Yields P r → (a : A) × (r ≡ ok a) × P a
  Yields-value (yields p) = (_, refl, p)

  -- What holds of the value that a piece is known to have.
  pub Yields-ok : {a : A} {r : Run A} → Yields P r → r ≡ ok a → P a
  Yields-ok (yields p) e = subst P (ok-injective e) p

  pub Yields-weaken {κ'} :
      {Q : A → Type κ'} {r : Run A} → ((a : A) → P a → Q a) → Yields P r → Yields Q r
  Yields-weaken f (yields p) = yields (f _ p)

  -- One piece after another.
  pub Yields-then {ℓ' κ'} :
      {B : Type ℓ'} {Q : B → Type κ'} {r : Run A} {k : A → Run B}
      → Yields P r
      → ((a : A) → P a → Yields Q (k a))
      → Yields Q (r >>= k)
  Yields-then (yields p) rest = rest _ p

  -- The same, where the rest has the equation too.
  pub Yields-then-eq {ℓ' κ'} :
      {B : Type ℓ'} {Q : B → Type κ'} {r : Run A} {s : Run B}
      → Yields P r
      → ((a : A) → r ≡ ok a → P a → Yields Q s)
      → Yields Q s
  Yields-then-eq (yields p) rest = rest _ refl p

  -- Either branch of a test.
  pub Yields-test :
      (b : Bool) {x y : Run A}
      → (b ≡ true → Yields P x)
      → (b ≡ false → Yields P y)
      → Yields P (if b then x else y)
  Yields-test true onwards _ = onwards refl
  Yields-test false _ otherwise = otherwise refl

  -- A piece that is known to end in `ok a` yields only what holds of `a`.
  pub Yields-at : {a : A} {r : Run A} → r ≡ ok a → P a → Yields P r
  Yields-at e p = rw e (yields p)

-- Two facts about the same value.
pub Yields-both {ℓ κ κ'} :
    {A : Type ℓ} {P : A → Type κ} {Q : A → Type κ'} {r : Run A}
    → Yields P r
    → Yields Q r
    → Yields (λ a. P a × Q a) r
Yields-both {P = P} p (yields {a = a} q) = yields (Yields-ok p refl, q)

-- The piece ends with a value of which `P` holds, exits the process, or waits for the system for
-- good. It has no undefined behaviour and needs no memory that is not there.
pub data Ends {ℓ κ} {A : Type ℓ} (P : A → Type κ) : Run A → Type (ℓ ⊔ κ) where
  returns : {a : A} → P a → Ends P (ok a)
  exits : Ends P exited
  blocks : Ends P out_of_fuel

module _ {ℓ κ} {A : Type ℓ} {P : A → Type κ} where
  pub Yields-Ends : {r : Run A} → Yields P r → Ends P r
  Yields-Ends (yields p) = returns p

  pub Ends-weaken {κ'} : {Q : A → Type κ'} {r : Run A} → ((a : A) → P a → Q a) → Ends P r → Ends Q r
  Ends-weaken f (returns p) = returns (f _ p)
  Ends-weaken f exits = exits
  Ends-weaken f blocks = blocks

  -- One piece after another, with the equation for the value of the first.
  pub Ends-then {ℓ' κ'} :
      {B : Type ℓ'} {Q : B → Type κ'} {r : Run A} {k : A → Run B}
      → Ends P r
      → ((a : A) → r ≡ ok a → P a → Ends Q (k a))
      → Ends Q (r >>= k)
  Ends-then (returns p) rest = rest _ refl p
  Ends-then exits rest = exits
  Ends-then blocks rest = blocks

  pub Ends-test :
      (b : Bool) {x y : Run A}
      → (b ≡ true → Ends P x)
      → (b ≡ false → Ends P y)
      → Ends P (if b then x else y)
  Ends-test true onwards _ = onwards refl
  Ends-test false _ otherwise = otherwise refl
