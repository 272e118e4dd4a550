-- ===== src/Session/Alloc.antt =====
-- `AllocBuffer`: what it gives is an empty buffer that no one else holds.
use lazyserver.Base.{
  ℕ, zero, suc, ◌+◌, ◌≤◌, ◌<◌, ◌≡◌, ◌≢◌, inl, inr, refl, ap, sym, ◌∙◌, List, [], ◌∷◌, ◌++◌, length,
  length-append, arith, Yields, yields, Yields-weaken, Bool-cases, ◌==◌, ltb, length-replicate,
  ltb→lt,
}
use lazyserver.Base.Predicates.{All, Perm-All, All-append, All-weaken}
use native.Mathlib.Bridge.{le_prop}
use mathlib.Core.List.Perm
use mathlib.Core.List.{Perm, append_assoc, append-nil}
use mathlib.Core.Path.{subst}
use lazyserver.Session.{
  Buffer, Buffers, cleared, max_buffer_size, create_buffers, take_front, alloc_buffer,
}
use lazyserver.Session.Store.{
  buffer_at, Same, Same-refl, Same-trans, Same-grow, Distinct, Perm-Distinct, buffer_at-append,
  buffer_at-append_end, Distinct-insert,
}

pub record IsShaped (b : Buffer) : Type 0 where
  pub block : length b.buffer ≡ max_buffer_size
  pub counted : b.size ≤ max_buffer_size

abbrev pub IsFree : List Buffer → ℕ → Type 0
IsFree store p = (p < length store) × ((buffer_at store p).size ≡ 0)

-- The buffers, where `held` are those that sessions hold: every buffer has its 1024 bytes, the free ones are
-- empty, and no buffer is free and held, or held twice.
pub record IsValid (m : Buffers) (held : List ℕ) : Type 0 where
  pub shaped : (p : ℕ) → p < length m.store → IsShaped (buffer_at m.store p)
  pub free : All (IsFree m.store) m.buffer_list
  pub live : All (λ p. p < length m.store) held
  pub distinct : Distinct (m.buffer_list ++ held)

-- Who holds what, and in which order, does not matter.
pub Perm-IsValid :
    (m : Buffers) {held held' : List ℕ} → Perm held held' → IsValid m held → IsValid m held'
Perm-IsValid m p v = record {
  shaped = v.shaped;
  free = v.free;
  live = Perm-All (λ q. q < length m.store) (λ q. le_prop) p v.live;
  distinct = Perm-Distinct (Perm.append_left m.buffer_list p) v.distinct;
}

pub cleared-IsShaped : IsShaped cleared
unfolding cleared
cleared-IsShaped = record {
  block = length-replicate {A = ℕ} max_buffer_size 0;
  counted = omega arith;
}

pub cleared-size : cleared.size ≡ 0
unfolding cleared
cleared-size = refl

one_more : Buffers → Buffers
one_more m = record {
  store = m.store ++ (cleared ∷ []);
  buffer_list = m.buffer_list ++ (length m.store ∷ []);
  all_buffer_list = m.all_buffer_list ++ (length m.store ∷ []);
}

one_more-IsValid : (m : Buffers) (held : List ℕ) → IsValid m held → IsValid (one_more m) held
unfolding one_more
one_more-IsValid m held v =
    let n = length m.store in
    let longer : length (m.store ++ (cleared ∷ [])) ≡ n + 1 =
      omega (arith, length-append m.store (cleared ∷ [])) in
    let older : (p : ℕ) → IsFree m.store p → IsFree (m.store ++ (cleared ∷ [])) p = λ p f. (
      omega (arith, f.0),
      ap (λ b. b.size) (buffer_at-append m.store (cleared ∷ []) p f.0) ∙ f.1,
    ) in
    let last = buffer_at-append_end m.store cleared in
    let known : All (λ p. p < n) (m.buffer_list ++ held) =
      All-append (λ p. p < n) m.buffer_list held
        (All-weaken (IsFree m.store) (λ p f. f.0) m.buffer_list v.free) v.live in
    record {
      shaped = λ p h. elim (Bool-cases (ltb p n)) [
        | inl old ↦
            subst IsShaped (sym (buffer_at-append m.store (cleared ∷ []) p (ltb→lt p n old)))
              (v.shaped p (ltb→lt p n old))
        | inr new ↦
            let e : n ≡ p = ground (arith, new, longer) in
            subst (λ q. IsShaped (buffer_at (m.store ++ (cleared ∷ [])) q)) e
              (subst IsShaped (sym last) cleared-IsShaped)
      ];
      free =
          All-append (IsFree (m.store ++ (cleared ∷ []))) m.buffer_list (n ∷ [])
            (All-weaken (IsFree m.store) older m.buffer_list v.free)
            ((omega (arith, longer), ap (λ b. b.size) last ∙ cleared-size), tt);
      live = All-weaken (λ p. p < n) (λ p h. omega (arith, h, longer)) held v.live;
      distinct = subst Distinct (sym (append_assoc m.buffer_list (n ∷ []) held)) (
          Distinct-insert m.buffer_list held n v.distinct
            (All-weaken (λ p. p < n) (λ p h e. omega (arith, h, e)) (m.buffer_list ++ held) known));
    }

-- New buffers leave the state valid and what is held as it is.
create_buffers-IsValid :
    (n : ℕ) (m : Buffers) (held : List ℕ)
    → IsValid m held
    → IsValid (create_buffers n m) held
      × Same m.store (create_buffers n m).store held
      × (length m.buffer_list + n ≤ length (create_buffers n m).buffer_list)
unfolding create_buffers one_more
create_buffers-IsValid zero m held v = (v, Same-refl m.store held, omega arith)
create_buffers-IsValid (suc n) m held v =
    let rest = create_buffers-IsValid n (one_more m) held (one_more-IsValid m held v) in
    (
      rest.0,
      Same-trans m.store (m.store ++ (cleared ∷ [])) (create_buffers n (one_more m)).store held
          (Same-grow m.store (cleared ∷ []) held v.live) rest.1,
      omega (arith, rest.2, length-append m.buffer_list (length m.store ∷ [])),
    )

-- The head of the free list, handed to the end of what is held.
take_front-IsValid :
    (m : Buffers) (held free : List ℕ)
    → IsValid m held
    → m.buffer_list ≡ free
    → 0 < length free
    → Yields
        (λ (p, m').
          IsValid m' (held ++ (p ∷ []))
          × Same m.store m'.store held
          × ((buffer_at m'.store p).size ≡ 0))
        (take_front m free)
unfolding take_front
take_front-IsValid m held [] v e h = absurd (omega arith)
take_front-IsValid m held (p ∷ free) v e h =
    let frees = subst (All (IsFree m.store)) e v.free in
    let apart = subst (λ xs. Distinct (xs ++ held)) e v.distinct in
    yields (
      record {
        shaped = v.shaped;
        free = frees.1;
        live = All-append (λ q. q < length m.store) held (p ∷ []) v.live (frees.0.0, tt);
        distinct = subst Distinct (append_assoc free held (p ∷ [])) (
            Distinct-insert (free ++ held) [] p
              (subst Distinct (sym (append-nil (free ++ held))) apart.1)
              (subst (All (λ q. q ≢ p)) (sym (append-nil (free ++ held))) apart.0));
      },
      Same-refl m.store held,
      frees.0.1,
    )

-- From a valid state, `AllocBuffer` always gives a buffer: an empty one, which then stands alone at
-- the end of what is held. The state stays valid, and every buffer that was held is as before.
pub alloc_buffer_correct :
    (m : Buffers) (held : List ℕ)
    → IsValid m held
    → Yields
        (λ (p, m').
          IsValid m' (held ++ (p ∷ []))
          × Same m.store m'.store held
          × ((buffer_at m'.store p).size ≡ 0))
        (alloc_buffer m)
unfolding alloc_buffer
alloc_buffer_correct m held v = elim (Bool-cases (length m.buffer_list == 0)) [
  | inl none_free ↦
      let made = create_buffers-IsValid 8 m held v in
      rw none_free (
        Yields-weaken
          (λ (p, m') (valid, same, empty).
            (valid, Same-trans m.store (create_buffers 8 m).store m'.store held made.1 same, empty))
          (take_front-IsValid (create_buffers 8 m) held (create_buffers 8 m).buffer_list made.0 refl
            (omega (arith, made.2))))
  | inr some_free ↦
      rw some_free (take_front-IsValid m held m.buffer_list v refl (ground (arith, some_free)))
]
