-- ===== src/Session/Put.antt =====
-- event_handler.h: bytes that `Write` puts into the last buffer of a session.
use lazyserver.Base.{
  ℕ, ◌+◌, ◌≤◌, ◌<◌, ◌≡◌, ◌≢◌, inl, inr, refl, ap, sym, ◌∙◌, List, [], ◌∷◌, ◌++◌, length, set,
  length-set, arith, get_elem?-in, ok, Yields, yields, true, Bool-cases, ◌==◌, leb, add_size,
}
use lazyserver.Base.Predicates.{All, All-append_left, All-weaken}
use lazyserver.Base.Slices.{overwrite, length-overwrite, take-overwrite}
use mathlib.Core.List.{append_assoc}
use mathlib.Core.Path.{subst}
use lazyserver.LazyBuffer.{copy_to}
use lazyserver.Session.{Buffer, Buffers, cleared, max_buffer_size, load, update, put, put_all}
use lazyserver.Session.Store.{
  buffer_at, text, Same, Same-set, Distinct, buffer_at-set, buffer_at-set_other, Distinct-others,
}
use lazyserver.Session.Alloc.{IsShaped, IsFree, IsValid}

pub All-last : (P : ℕ → Type 0) (ps : List ℕ) (p : ℕ) → All P (ps ++ (p ∷ [])) → P p
All-last P [] p h = h.0
All-last P (q ∷ ps) p h = All-last P ps p h.1

pub All-right : (P : ℕ → Type 0) (xs ys : List ℕ) → All P (xs ++ ys) → All P ys
All-right P [] ys h = h
All-right P (x ∷ xs) ys h = All-right P xs ys h.1

pub All-both :
    {P Q R : ℕ → Type 0}
    → ((p : ℕ) → P p → Q p → R p)
    → (ps : List ℕ) → All P ps
    → All Q ps
    → All R ps
All-both f [] h g = tt
All-both f (p ∷ ps) h g = (f p h.0 g.0, All-both f ps h.1 g.1)

pub load-ok : (m : Buffers) (p : ℕ) → p < length m.store → load m p ≡ ok (buffer_at m.store p)
unfolding load
load-ok m p h = rw (get_elem?-in m.store p cleared h)

module _ (m : Buffers) (ps : List ℕ) (p : ℕ) (v : IsValid m (ps ++ (p ∷ []))) where
  apart : All (λ q. q ≢ p) (m.buffer_list ++ ps)
  apart =
      (Distinct-others (m.buffer_list ++ ps) [] p
        (subst Distinct (sym (append_assoc m.buffer_list ps (p ∷ []))) v.distinct)).0

  -- Another buffer of the right shape in the last place.
  replace-IsValid : (b : Buffer) → IsShaped b → IsValid (update m p b) (ps ++ (p ∷ []))
  unfolding update
  replace-IsValid b shape =
      let here : p < length m.store = All-last (λ q. q < length m.store) ps p v.live in
      let same = length-set m.store p b in
      record {
        shaped = λ q h. elim (Bool-cases (q == p)) [
          | inl e ↦
              let eq : p ≡ q = ground (arith, e) in
              subst (λ k. IsShaped (buffer_at (set m.store p b) k)) eq
                (subst IsShaped (sym (buffer_at-set m.store p b here)) shape)
          | inr e ↦
              let ne : q ≢ p = λ eq. ground (arith, e, eq) in
              subst IsShaped (sym (buffer_at-set_other m.store p q b ne))
                (v.shaped q (omega (arith, h, same)))
        ];
        free =
            All-both {P = IsFree m.store} {Q = λ q. q ≢ p} {R = IsFree (set m.store p b)}
              (λ q f ne. (
                omega (arith, f.0, same),
                ap (λ c. c.size) (buffer_at-set_other m.store p q b ne) ∙ f.1,
              ))
              m.buffer_list v.free (All-append_left (λ q. q ≢ p) m.buffer_list ps apart);
        live =
            All-weaken (λ q. q < length m.store) (λ q h. omega (arith, h, same)) (ps ++ (p ∷ []))
              v.live;
        distinct = v.distinct;
      }

  -- What putting bytes into the last buffer gives.
  abbrev pub IsPut : List ℕ → Buffers → Type 0
  IsPut bytes m' =
      IsValid m' (ps ++ (p ∷ []))
      × Same m.store m'.store ps
      × (text (buffer_at m'.store p) ≡ text (buffer_at m.store p) ++ bytes)
      × ((buffer_at m'.store p).size ≡ (buffer_at m.store p).size + length bytes)

  pub put-IsPut :
      (bytes : List ℕ)
      → (buffer_at m.store p).size + length bytes ≤ max_buffer_size
      → Yields (IsPut bytes) (put m p bytes)
  unfolding put copy_to update
  put-IsPut bytes fits =
      let b = buffer_at m.store p in
      let here : p < length m.store = All-last (λ q. q < length m.store) ps p v.live in
      let shape = v.shaped p here in
      let inside : b.size + length bytes ≤ length b.buffer = omega (arith, fits, shape.block) in
      let test : leb (b.size + length bytes) (length b.buffer) ≡ true = ground (arith, inside) in
      let more : add_size b.size (length bytes) ≡ b.size + length bytes = omega (arith, fits) in
      let b' : Buffer = record {
        size = b.size + length bytes;
        buffer = overwrite b.buffer b.size bytes;
      } in
      let shape' : IsShaped b' = record {
        block = length-overwrite b.buffer b.size bytes inside ∙ shape.block;
        counted = fits;
      } in
      rw (load-ok m p here, test, more)
        (yields (
          replace-IsValid b' shape',
          Same-set m.store p b' ps (All-right (λ q. q ≢ p) m.buffer_list ps apart),
          ap text (buffer_at-set m.store p b' here) ∙ take-overwrite b.buffer b.size bytes inside,
          ap (λ c. c.size) (buffer_at-set m.store p b' here),
        ))

  -- On an empty buffer, writing from the start is writing behind what is there.
  pub put_all-put :
      (bytes : List ℕ)
      → (buffer_at m.store p).size ≡ 0
      → length bytes ≤ max_buffer_size
      → put_all m p bytes ≡ put m p bytes
  unfolding put put_all
  put_all-put bytes empty fits =
      let here : p < length m.store = All-last (λ q. q < length m.store) ps p v.live in
      let count : add_size 0 (length bytes) ≡ length bytes = omega (arith, fits) in
      rw (load-ok m p here, empty, count) refl
