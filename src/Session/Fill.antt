-- ===== src/Session/Fill.antt =====
-- The last buffer of a list of held ones, and bytes put into it: what the list holds grows by them,
-- and no other buffer changes.
use lazyserver.Base.{
  ℕ, ◌+◌, ◌≤◌, ◌<◌, ◌≡◌, ◌⊎◌, inl, inr, refl, ap, sym, ◌∙◌, List, [], ◌∷◌, ◌++◌, length, arith,
  some, none, Yields, Yields-weaken,
}
use lazyserver.Base.Predicates.{All-append_left}
use mathlib.Core.List.{append_assoc, append-nil}
use mathlib.Core.Path.{subst}
use lazyserver.Session.{Buffers, max_buffer_size, alloc_buffer, last, put, put_all}
use lazyserver.Session.Store.{
  buffer_at, text, texts, texts-last, SameAt, Same, Same-refl, Same-trans, texts-Same,
}
use lazyserver.Session.Alloc.{IsShaped, IsValid, alloc_buffer_correct}
use lazyserver.Session.Put.{All-last, All-right, put-IsPut, put_all-put}

module _ (m : Buffers) (others qs : List ℕ) where
  -- `p` is the last buffer of `qs'`, which holds what `qs` held. The buffers of others are as before.
  pub record IsOpen (p : ℕ) (m' : Buffers) (qs' : List ℕ) : Type 0 where
    pub front : List ℕ
    pub ends : qs' ≡ front ++ (p ∷ [])
    pub valid : IsValid m' (others ++ qs')
    pub kept : Same m.store m'.store others
    pub holds : texts m'.store qs' ≡ texts m.store qs

  -- `qs'` holds what `qs` held and then these bytes. The buffers of others are as before.
  pub record Grown (bytes : List ℕ) (m' : Buffers) (qs' : List ℕ) : Type 0 where
    pub valid : IsValid m' (others ++ qs')
    pub kept : Same m.store m'.store others
    pub holds : texts m'.store qs' ≡ texts m.store qs ++ bytes

  -- A buffer from the pool, put behind the others.
  pub alloc_buffer-IsOpen :
      IsValid m (others ++ qs)
      → Yields
          (λ (p, m'). IsOpen p m' (qs ++ (p ∷ [])) × ((buffer_at m'.store p).size ≡ 0))
          (alloc_buffer m)
  alloc_buffer-IsOpen v =
      Yields-weaken
        (λ (p, m') (valid, same, empty).
          let none_yet : text (buffer_at m'.store p) ≡ [] = rw empty refl in
          let mine = All-right (SameAt m.store m'.store) others qs same in
          (
            record {
              front = qs;
              ends = refl;
              valid = subst (IsValid m') (append_assoc others qs (p ∷ [])) valid;
              kept = All-append_left (SameAt m.store m'.store) others qs same;
              holds =
                  texts-last m'.store qs p
                  ∙ rw (none_yet, append-nil (texts m'.store qs))
                      (texts-Same m.store m'.store qs mine);
            },
            empty,
          ))
        (alloc_buffer_correct m (others ++ qs) v)

  pub last-IsOpen :
      (front : List ℕ) (p : ℕ) → qs ≡ front ++ (p ∷ []) → IsValid m (others ++ qs) → IsOpen p m qs
  last-IsOpen front p e v = record {
    front = front;
    ends = e;
    valid = v;
    kept = Same-refl m.store others;
    holds = refl;
  }

module _ {m : Buffers} {others qs : List ℕ} {p : ℕ} {m1 : Buffers} {qs1 : List ℕ}
    (o : IsOpen m others qs p m1 qs1) where
  IsValid-at_end : IsValid m1 ((others ++ o.front) ++ (p ∷ []))
  IsValid-at_end =
      subst (IsValid m1)
        (ap (λ xs. others ++ xs) o.ends ∙ sym (append_assoc others o.front (p ∷ []))) o.valid

  pub IsOpen-here : p < length m1.store
  IsOpen-here = All-last (λ q. q < length m1.store) (others ++ o.front) p IsValid-at_end.live

  pub IsOpen-IsShaped : IsShaped (buffer_at m1.store p)
  IsOpen-IsShaped = IsValid-at_end.shaped p IsOpen-here

  pub put-Grown :
      (bytes : List ℕ)
      → (buffer_at m1.store p).size + length bytes ≤ max_buffer_size
      → Yields
          (λ m2.
            Grown m others qs bytes m2 qs1
            × ((buffer_at m2.store p).size ≡ (buffer_at m1.store p).size + length bytes))
          (put m1 p bytes)
  put-Grown bytes fits =
      Yields-weaken
        (λ m2 (valid, same, more, size).
          let first =
            texts-Same m1.store m2.store o.front
              (All-right (SameAt m1.store m2.store) others o.front same) in
          let old = text (buffer_at m1.store p) in
          (
            record {
              valid =
                  subst (IsValid m2)
                    (append_assoc others o.front (p ∷ []) ∙ sym (ap (λ xs. others ++ xs) o.ends))
                    valid;
              kept =
                  Same-trans m.store m1.store m2.store others o.kept
                    (All-append_left (SameAt m1.store m2.store) others o.front same);
              holds =
                  ap (texts m2.store) o.ends
                  ∙ (texts-last m2.store o.front p
                      ∙ (rw (first, more) (sym (append_assoc (texts m1.store o.front) old bytes))
                          ∙ ap (λ xs. xs ++ bytes)
                              (sym (texts-last m1.store o.front p)
                                ∙ (sym (ap (texts m1.store) o.ends) ∙ o.holds))));
            },
            size,
          ))
        (put-IsPut m1 (others ++ o.front) p IsValid-at_end bytes fits)

  pub put_all-Grown :
      (bytes : List ℕ)
      → (buffer_at m1.store p).size ≡ 0
      → length bytes ≤ max_buffer_size
      → Yields (λ m2. Grown m others qs bytes m2 qs1) (put_all m1 p bytes)
  put_all-Grown bytes empty fits =
      rw (put_all-put m1 (others ++ o.front) p IsValid-at_end bytes empty fits)
        (Yields-weaken (λ m2 r. r.0) (put-Grown bytes (omega (arith, empty, fits))))

pub Grown-then :
    {m m1 m2 : Buffers} {others qs qs1 qs2 : List ℕ} (first second : List ℕ)
    → Grown m others qs first m1 qs1
    → Grown m1 others qs1 second m2 qs2
    → Grown m others qs (first ++ second) m2 qs2
Grown-then {m} {m1} {m2} {others} {qs} first second w w' = record {
  valid = w'.valid;
  kept = Same-trans m.store m1.store m2.store others w.kept w'.kept;
  holds =
      w'.holds ∙ (ap (λ xs. xs ++ second) w.holds ∙ append_assoc (texts m.store qs) first second);
}

pub last-cases :
    (ps : List ℕ)
    → (last ps ≡ none)
      ⊎ ((front : List ℕ) × (p : ℕ) × (last ps ≡ some p) × (ps ≡ front ++ (p ∷ [])))
unfolding last
last-cases [] = inl refl
last-cases (p ∷ []) = inr ([], p, refl, refl)
last-cases (p ∷ (q ∷ rest)) = elim (last-cases (q ∷ rest)) [
  | inl e ↦ inl e
  | inr (front, r, e, split) ↦ inr (p ∷ front, r, e, ap (λ xs. p ∷ xs) split)
]

pub last-append : (front : List ℕ) (p : ℕ) → last (front ++ (p ∷ [])) ≡ some p
unfolding last
last-append [] p = refl
last-append (q ∷ []) p = refl
last-append (q ∷ (r ∷ rest)) p = last-append (r ∷ rest) p
