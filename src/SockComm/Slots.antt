-- ===== src/SockComm/Slots.antt =====
-- The slots of the two sample servers: a new connection takes the first free one.
use lazyserver.Base.{
  replicate, ℕ, zero, suc, ◌≤◌, ◌<◌, ◌≡◌, ◌⊎◌, refl, ap, sym, ◌∙◌, inl, inr, List, [], ◌∷◌, length,
  set, length-set, get_or, arith, true, ltb, leb, if◌then◌else◌, Bool-cases, leb→le,
}
use lazyserver.Base.Int.{ℤ, pos, negsuc}
use lazyserver.SockComm.{SlotTable, first_free, select_add, poll_add}

-- Slot i holds a descriptor.
abbrev pub IsUsed : List ℤ → ℕ → Type 0
IsUsed fds i = (fd : ℕ) × (get_or fds i (negsuc 0) ≡ pos fd)

-- The greatest index is that of a slot, and no slot behind it is used.
pub record IsValid (s : SlotTable) : Type 0 where
  pub inside : s.max_index < length s.client
  pub covers : (i : ℕ) → IsUsed s.client i → i ≤ s.max_index

abbrev pub IsFull : List ℤ → Type 0
IsFull fds = (i : ℕ) → i < length fds → IsUsed fds i

pub first_free-full : (fds : List ℤ) → IsFull fds → first_free fds ≡ length fds
unfolding first_free
first_free-full [] full = refl
first_free-full (negsuc n ∷ fds) full = let clash = (full 0 (omega arith)).1 in cc
first_free-full (pos fd ∷ fds) full = ap suc (first_free-full fds λ i h. full (suc i) (omega arith))

first_free-length : (fds : List ℤ) → first_free fds ≤ length fds
unfolding first_free
first_free-length [] = omega arith
first_free-length (negsuc n ∷ fds) = omega arith
first_free-length (pos fd ∷ fds) = omega (arith, first_free-length fds)

pub get_or-set_other :
    (fds : List ℤ) (i j : ℕ) (x : ℤ)
    → (get_or (set fds i x) j (negsuc 0) ≡ get_or fds j (negsuc 0)) ⊎ ((j ≡ i) × (i < length fds))
get_or-set_other [] i j x = inl refl
get_or-set_other (y ∷ fds) zero zero x = inr (refl, omega arith)
get_or-set_other (y ∷ fds) zero (suc j) x = inl refl
get_or-set_other (y ∷ fds) (suc i) zero x = inl refl
get_or-set_other (y ∷ fds) (suc i) (suc j) x = elim (get_or-set_other fds i j x) [
  | inl e ↦ inl e
  | inr (e, h) ↦ inr (ap suc e, omega arith)
]

pub get_or-set_same :
    (fds : List ℤ) (i : ℕ) (x : ℤ) → i < length fds → get_or (set fds i x) i (negsuc 0) ≡ x
get_or-set_same [] i x h = absurd (omega arith)
get_or-set_same (y ∷ fds) zero x h = refl
get_or-set_same (y ∷ fds) (suc i) x h = get_or-set_same fds i x (omega arith)

set-out : (fds : List ℤ) (i : ℕ) (x : ℤ) → length fds ≤ i → set fds i x ≡ fds
set-out [] i x h = refl
set-out (y ∷ fds) zero x h = absurd (omega arith)
set-out (y ∷ fds) (suc i) x h = ap (λ ys. y ∷ ys) (set-out fds i x (omega arith))

raised : ℕ → ℕ → ℕ
raised m i = if ltb m i then i else m

raised-least : (m i n : ℕ) → m < n → i < n → (raised m i < n) × (m ≤ raised m i) × (i ≤ raised m i)
unfolding raised
raised-least m i n h g = (ground arith, ground arith, ground arith)

-- A table with the connection in the first free slot.
placed-IsValid :
    (s : SlotTable) (fd : ℕ)
    → IsValid s
    → first_free s.client < length s.client
    → IsValid (record {
      client = set s.client (first_free s.client) (pos fd);
      max_index =
          if ltb s.max_index (first_free s.client) then first_free s.client else s.max_index;
    })
unfolding raised
placed-IsValid s fd v free =
    let i = first_free s.client in
    let r = raised-least s.max_index i (length s.client) v.inside free in
    record {
      inside = omega (arith, r.0, length-set s.client i (pos fd));
      covers = λ j used. elim (get_or-set_other s.client i j (pos fd)) [
        | inl e ↦ let old = v.covers j (used.0, sym e ∙ used.1) in omega (arith, old, r.1)
        | inr (e, h) ↦ omega (arith, r.2)
      ];
    }

-- `SelectServer` keeps the table valid. Where a slot is free, the connection is in it, and where
-- none is, the table stays as it is.
pub select_add_correct :
    (s : SlotTable) (fd : ℕ)
    → IsValid s
    → IsValid (select_add s fd)
      × (first_free s.client < length s.client
          → get_or (select_add s fd).client (first_free s.client) (negsuc 0) ≡ pos fd)
      × (IsFull s.client → select_add s fd ≡ s)
unfolding select_add
select_add_correct s fd v =
    let i = first_free s.client in
    elim (Bool-cases (leb (length s.client) i)) [
      | inl taken ↦ rw taken (v, λ free. absurd (omega (arith, leb→le _ _ taken)), λ full. refl)
      | inr free ↦
          let h : i < length s.client = ground (arith, free) in
          rw free (
            placed-IsValid s fd v h,
            λ _. get_or-set_same s.client i (pos fd) h,
            λ full. absurd (omega (arith, first_free-full s.client full)),
          )
    ]

-- Where `PollServer` has a free slot, a connection goes into it and the table stays valid.
pub poll_add-IsValid :
    (s : SlotTable) (fd : ℕ)
    → IsValid s
    → first_free s.client < length s.client
    → IsValid (poll_add s fd)
      × (get_or (poll_add s fd).client (first_free s.client) (negsuc 0) ≡ pos fd)
unfolding poll_add
poll_add-IsValid s fd v free =
    (placed-IsValid s fd v free, get_or-set_same s.client (first_free s.client) (pos fd) free)

-- Where all slots of `PollServer` are taken, a further connection makes the greatest index the
-- number of slots, so that the next `poll` is told of one slot more than there is.
pub poll_add-full :
    (s : SlotTable) (fd : ℕ)
    → IsValid s
    → IsFull s.client
    → ((poll_add s fd).client ≡ s.client) × ((poll_add s fd).max_index ≡ length s.client)
unfolding poll_add
poll_add-full s fd v full =
    let i = first_free-full s.client full in
    let end : ltb s.max_index (length s.client) ≡ true = ground (arith, v.inside) in
    rw i (set-out s.client (length s.client) (pos fd) (omega arith), rw end refl)

-- In a new table no slot is used.
pub free_unused : (n i fd : ℕ) → get_or (replicate n (negsuc 0)) i (negsuc 0) ≡ pos fd → ⊥
free_unused zero i fd e = cc
free_unused (suc n) zero fd e = cc
free_unused (suc n) (suc i) fd e = free_unused n i fd e
