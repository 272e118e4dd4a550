-- ===== src/Session/Store.antt =====
-- The texts that a list of buffers holds, and lists of different addresses.
use lazyserver.Base.{
  ℕ, zero, suc, ◌<◌, ◌≡◌, ◌≢◌, refl, ap, sym, ◌∙◌, List, [], ◌∷◌, ◌++◌, length, take, get_or, set,
  arith,
}
use lazyserver.Base.Predicates.{All, All-append_left, All-prop, Perm-All}
use mathlib.Core.List.{append_assoc, append-nil, Perm, Permᴰ}
use mathlib.Core.Path.{subst}
use mathlib.Core.Logic.{∥∥₁_elim}
use mathlib.Core.HLevel.{×_prop, Unit-prop}
use lazyserver.Session.{Buffer, cleared}

abbrev pub buffer_at : List Buffer → ℕ → Buffer
buffer_at store p = get_or store p cleared

abbrev pub text : Buffer → List ℕ
text b = take b.size b.buffer

-- What the buffers at these addresses hold, one after the other.
abbrev pub texts : List Buffer → List ℕ → List ℕ
texts store [] = []
texts store (p ∷ ps) = text (buffer_at store p) ++ texts store ps

abbrev pub Distinct : List ℕ → Type 0
Distinct [] = Unit
Distinct (p ∷ ps) = All (λ q. q ≢ p) ps × Distinct ps

pub texts-append :
    (store : List Buffer) (ps qs : List ℕ)
    → texts store (ps ++ qs) ≡ texts store ps ++ texts store qs
texts-append store [] qs = refl
texts-append store (p ∷ ps) qs =
    ap (λ xs. text (buffer_at store p) ++ xs) (texts-append store ps qs)
    ∙ sym (append_assoc (text (buffer_at store p)) (texts store ps) (texts store qs))

pub buffer_at-set_other :
    (store : List Buffer) (p q : ℕ) (b : Buffer)
    → q ≢ p
    → buffer_at (set store p b) q ≡ buffer_at store q
buffer_at-set_other [] p q b h = refl
buffer_at-set_other (x ∷ store) zero zero b h = absurd (h refl)
buffer_at-set_other (x ∷ store) zero (suc q) b h = refl
buffer_at-set_other (x ∷ store) (suc p) zero b h = refl
buffer_at-set_other (x ∷ store) (suc p) (suc q) b h =
    buffer_at-set_other store p q b λ e. h (ap suc e)

pub buffer_at-set :
    (store : List Buffer) (p : ℕ) (b : Buffer) → p < length store → buffer_at (set store p b) p ≡ b
buffer_at-set [] p b h = absurd (omega arith)
buffer_at-set (x ∷ store) zero b h = refl
buffer_at-set (x ∷ store) (suc p) b h = buffer_at-set store p b (omega arith)

pub buffer_at-append :
    (store more : List Buffer) (p : ℕ)
    → p < length store
    → buffer_at (store ++ more) p ≡ buffer_at store p
buffer_at-append [] more p h = absurd (omega arith)
buffer_at-append (x ∷ store) more zero h = refl
buffer_at-append (x ∷ store) more (suc p) h = buffer_at-append store more p (omega arith)

pub buffer_at-append_end :
    (store : List Buffer) (b : Buffer) → buffer_at (store ++ (b ∷ [])) (length store) ≡ b
buffer_at-append_end [] b = refl
buffer_at-append_end (x ∷ store) b = buffer_at-append_end store b

pub texts-last :
    (store : List Buffer) (front : List ℕ) (p : ℕ)
    → texts store (front ++ (p ∷ [])) ≡ texts store front ++ text (buffer_at store p)
texts-last store front p =
    texts-append store front (p ∷ []) ∙ rw (append-nil (text (buffer_at store p)))

abbrev pub SameAt : List Buffer → List Buffer → ℕ → Type 0
SameAt store store' q = buffer_at store' q ≡ buffer_at store q

-- The buffers at these addresses are as they were.
abbrev pub Same : List Buffer → List Buffer → List ℕ → Type 0
Same store store' = All (SameAt store store')

pub Same-refl : (store : List Buffer) (ps : List ℕ) → Same store store ps
Same-refl store [] = tt
Same-refl store (q ∷ ps) = (refl, Same-refl store ps)

pub Same-trans : (s t u : List Buffer) (ps : List ℕ) → Same s t ps → Same t u ps → Same s u ps
Same-trans s t u [] h g = tt
Same-trans s t u (q ∷ ps) h g = (g.0 ∙ h.0, Same-trans s t u ps h.1 g.1)

pub texts-Same : (s t : List Buffer) (ps : List ℕ) → Same s t ps → texts t ps ≡ texts s ps
texts-Same s t [] h = refl
texts-Same s t (q ∷ ps) h = rw (h.0, texts-Same s t ps h.1)

pub Same-set :
    (store : List Buffer) (p : ℕ) (b : Buffer) (ps : List ℕ)
    → All (λ q. q ≢ p) ps
    → Same store (set store p b) ps
Same-set store p b [] h = tt
Same-set store p b (q ∷ ps) h = (buffer_at-set_other store p q b h.0, Same-set store p b ps h.1)

pub Same-grow :
    (store more : List Buffer) (ps : List ℕ)
    → All (λ q. q < length store) ps
    → Same store (store ++ more) ps
Same-grow store more [] h = tt
Same-grow store more (q ∷ ps) h = (buffer_at-append store more q h.0, Same-grow store more ps h.1)

-- An address that does not occur goes anywhere into the list.
pub Distinct-insert :
    (xs ys : List ℕ) (p : ℕ)
    → Distinct (xs ++ ys)
    → All (λ q. q ≢ p) (xs ++ ys)
    → Distinct (xs ++ (p ∷ ys))
Distinct-insert [] ys p d h = (h, d)
Distinct-insert (x ∷ xs) ys p d h =
    (All-insert xs ys p d.0 (λ e. h.0 (sym e)), Distinct-insert xs ys p d.1 h.1)
  where
    All-insert :
        {x : ℕ} (xs ys : List ℕ) (p : ℕ)
        → All (λ q. q ≢ x) (xs ++ ys)
        → p ≢ x
        → All (λ q. q ≢ x) (xs ++ (p ∷ ys))
    All-insert [] ys p h e = (e, h)
    All-insert (z ∷ xs) ys p h e = (h.0, All-insert xs ys p h.1 e)

-- The other addresses differ from the one in the middle.
pub Distinct-others :
    (xs ys : List ℕ) (p : ℕ) → Distinct (xs ++ (p ∷ ys)) → All (λ q. q ≢ p) xs × All (λ q. q ≢ p) ys
Distinct-others [] ys p d = (tt, d.0)
Distinct-others (x ∷ xs) ys p d =
    let rest = Distinct-others xs ys p d.1 in
    ((λ e. All-middle xs ys p d.0 (sym e), rest.0), rest.1)
  where
    All-middle : {x : ℕ} (xs ys : List ℕ) (p : ℕ) → All (λ q. q ≢ x) (xs ++ (p ∷ ys)) → p ≢ x
    All-middle [] ys p h = h.0
    All-middle (z ∷ xs) ys p h = All-middle xs ys p h.1

-- Without the address in the middle, the others are still different.
pub Distinct-remove : (xs ys : List ℕ) (p : ℕ) → Distinct (xs ++ (p ∷ ys)) → Distinct (xs ++ ys)
Distinct-remove [] ys p d = d.1
Distinct-remove (x ∷ xs) ys p d = (All-without x xs ys p d.0, Distinct-remove xs ys p d.1)
  where
    All-without :
        (x : ℕ) (xs ys : List ℕ) (p : ℕ)
        → All (λ q. q ≢ x) (xs ++ (p ∷ ys))
        → All (λ q. q ≢ x) (xs ++ ys)
    All-without x [] ys p h = h.1
    All-without x (z ∷ xs) ys p h = (h.0, All-without x xs ys p h.1)

≢-prop : (p q : ℕ) → IsProp (p ≢ q)
≢-prop p q = hlevel

Permᴰ-Distinct : {xs ys : List ℕ} → Permᴰ xs ys → Distinct xs → Distinct ys
Permᴰ-Distinct Permᴰ.nil d = d
Permᴰ-Distinct (Permᴰ.cons {a} {b} {l₁} {l₂} e p) d = (
  subst (λ x. All (λ q. q ≢ x) l₂) e (Perm-All (λ q. q ≢ a) (λ q. ≢-prop q a) ∣ p ∣₁ d.0),
  Permᴰ-Distinct p d.1,
)
Permᴰ-Distinct (Permᴰ.swap {l} d e) h = (
  (λ q. h.0.0 (e ∙ (sym q ∙ sym d)), subst (λ x. All (λ q. q ≢ x) l) e h.1.0),
  (subst (λ x. All (λ q. q ≢ x) l) d h.0.1, h.1.1),
)
Permᴰ-Distinct (Permᴰ.trans p q) d = Permᴰ-Distinct q (Permᴰ-Distinct p d)

Distinct-prop : (xs : List ℕ) → IsProp (Distinct xs)
Distinct-prop [] = Unit-prop
Distinct-prop (x ∷ xs) = ×_prop (All-prop (λ q. q ≢ x) (λ q. ≢-prop q x) xs) (Distinct-prop xs)

pub Perm-Distinct : {xs ys : List ℕ} → Perm xs ys → Distinct xs → Distinct ys
Perm-Distinct {ys} p d = ∥∥₁_elim p (Distinct-prop ys) (λ q. Permᴰ-Distinct q d)

pub Distinct-left : (xs ys : List ℕ) → Distinct (xs ++ ys) → Distinct xs
Distinct-left [] ys d = tt
Distinct-left (x ∷ xs) ys d = (All-append_left (λ q. q ≢ x) xs ys d.0, Distinct-left xs ys d.1)
