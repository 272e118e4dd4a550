-- ===== src/Base/Predicates.antt =====
-- Predicates on lists by recursion, which compute to tuples that the tactics read.
use mathlib.Core.Logic.{∥∥₁_elim}
use mathlib.Core.HLevel.{×_prop, Unit-prop}
use mathlib.Core.Path.{subst, sym}
use mathlib.Core.List.{Perm, Permᴰ, Mem, Memᴰ}
use lazyserver.Base.{List, [], ◌∷◌, ◌++◌}

abbrev pub All {ℓ κ} : {A : Type ℓ} → (A → Type κ) → List A → Type κ
All P [] = Unit
All P (x ∷ xs) = P x × All P xs

module _ {ℓ κ} {A : Type ℓ} (P : A → Type κ) where
  pub All-append : (xs ys : List A) → All P xs → All P ys → All P (xs ++ ys)
  All-append [] ys hx hy = hy
  All-append (x ∷ xs) ys hx hy = (hx.0, All-append xs ys hx.1 hy)

  pub All-append_left : (xs ys : List A) → All P (xs ++ ys) → All P xs
  All-append_left [] ys h = tt
  All-append_left (x ∷ xs) ys h = (h.0, All-append_left xs ys h.1)

  Permᴰ-All : {xs ys : List A} → Permᴰ xs ys → All P xs → All P ys
  Permᴰ-All Permᴰ.nil h = h
  Permᴰ-All (Permᴰ.cons e p) h = (subst P e h.0, Permᴰ-All p h.1)
  Permᴰ-All (Permᴰ.swap d e) h = (subst P e h.1.0, (subst P d h.0, h.1.1))
  Permᴰ-All (Permᴰ.trans p q) h = Permᴰ-All q (Permᴰ-All p h)

  pub All-prop : ((x : A) → IsProp (P x)) → (xs : List A) → IsProp (All P xs)
  All-prop prop [] = Unit-prop
  All-prop prop (x ∷ xs) = ×_prop (prop x) (All-prop prop xs)

  Memᴰ-All : {x : A} {xs : List A} → Memᴰ x xs → All P xs → P x
  Memᴰ-All (Memᴰ.head e) h = subst P (sym e) h.0
  Memᴰ-All (Memᴰ.tail m) h = Memᴰ-All m h.1

  -- What holds of all items holds of one of them.
  pub All-Mem : ((x : A) → IsProp (P x)) → {x : A} {xs : List A} → All P xs → Mem x xs → P x
  All-Mem prop {x = x} h m = ∥∥₁_elim m (prop x) (λ d. Memᴰ-All d h)

  -- What holds of all items holds of them in any order.
  pub Perm-All : ((x : A) → IsProp (P x)) → {xs ys : List A} → Perm xs ys → All P xs → All P ys
  Perm-All prop {ys = ys} p h = ∥∥₁_elim p (All-prop prop ys) (λ q. Permᴰ-All q h)

  pub All-weaken {κ'} :
      {Q : A → Type κ'} → ((x : A) → P x → Q x) → (xs : List A) → All P xs → All Q xs
  All-weaken f [] h = tt
  All-weaken f (x ∷ xs) h = (f x h.0, All-weaken f xs h.1)
