-- ===== src/Session/Release.antt =====
-- `ReleaseBuffer`: the buffer is empty and free again.
use lazyserver.Base.{
  ℕ, ◌<◌, ◌≡◌, ◌≢◌, refl, inl, inr, ap, sym, ◌∙◌, List, [], ◌∷◌, ◌++◌, length, set, length-set,
  arith, some, Yields, yields, Yields-weaken, Bool-cases, ◌==◌,
}
use lazyserver.Base.Predicates.{All, All-append, All-append_left, All-weaken}
use mathlib.Core.List.{append_assoc}
use mathlib.Core.Path.{subst}
use lazyserver.Session.{Buffers, EventHandler, cleared, update, release_buffer, pop_send_buffer}
use lazyserver.Session.Store.{
  buffer_at, text, texts, SameAt, Same, Same-set, texts-Same, Distinct, buffer_at-set,
  buffer_at-set_other, Distinct-others, Distinct-remove, Distinct-insert,
}
use lazyserver.Session.Alloc.{IsShaped, IsFree, IsValid, cleared-IsShaped, cleared-size}
use lazyserver.Session.Put.{All-both, All-right, load-ok}

module _ (m : Buffers) (p : ℕ) (before after : List ℕ) (v : IsValid m (before ++ (p ∷ after))) where
  -- The buffers that stay with the sessions, and the free ones, are others.
  rest_apart :
      All (λ q. q ≢ p) (m.buffer_list ++ (before ++ after))
      × Distinct (m.buffer_list ++ (before ++ after))
  rest_apart =
      let d = subst Distinct (sym (append_assoc m.buffer_list before (p ∷ after))) v.distinct in
      let others = Distinct-others (m.buffer_list ++ before) after p d in
      let e = append_assoc m.buffer_list before after in
      (
        subst (All (λ q. q ≢ p)) e
            (All-append (λ q. q ≢ p) (m.buffer_list ++ before) after others.0 others.1),
        subst Distinct e (Distinct-remove (m.buffer_list ++ before) after p d),
      )

  rest_live : All (λ q. q < length m.store) (before ++ after) × (p < length m.store)
  rest_live =
      let P = λ (q : ℕ). q < length m.store in
      let back = All-right P before (p ∷ after) v.live in
      (All-append P before after (All-append_left P before (p ∷ after) v.live) back.1, back.0)

  -- A buffer that a valid state's sessions hold can be released: it joins the free buffers, which
  -- stay empty and unshared, and every buffer that is held besides is as before.
  pub release_buffer_correct :
      Yields
        (λ m'.
          IsValid m' (before ++ after)
          × Same m.store m'.store (before ++ after)
          × (m'.buffer_list ≡ m.buffer_list ++ (p ∷ [])))
        (release_buffer m (some p))
  unfolding release_buffer update
  release_buffer_correct =
      let here = rest_live.1 in
      let same = length-set m.store p cleared in
      let apart = rest_apart.0 in
      let store = set m.store p cleared in
      let now = buffer_at-set m.store p cleared here in
      let valid : IsValid (record m { store = store; buffer_list = m.buffer_list ++ (p ∷ []) })
          (before ++ after) =
        record {
          shaped = λ q h. elim (Bool-cases (q == p)) [
            | inl e ↦
                let eq : p ≡ q = ground (arith, e) in
                subst (λ k. IsShaped (buffer_at store k)) eq
                  (subst IsShaped (sym now) cleared-IsShaped)
            | inr e ↦
                let ne : q ≢ p = λ eq. ground (arith, e, eq) in
                subst IsShaped (sym (buffer_at-set_other m.store p q cleared ne))
                  (v.shaped q (omega (arith, h, same)))
          ];
          free =
              All-append (IsFree store) m.buffer_list (p ∷ [])
                (All-both {P = IsFree m.store} {Q = λ q. q ≢ p} {R = IsFree store}
                  (λ q f ne. (
                    omega (arith, f.0, same),
                    ap (λ c. c.size) (buffer_at-set_other m.store p q cleared ne) ∙ f.1,
                  ))
                  m.buffer_list v.free
                  (All-append_left (λ q. q ≢ p) m.buffer_list (before ++ after) apart))
                ((omega (arith, here, same), ap (λ c. c.size) now ∙ cleared-size), tt);
          live =
              All-weaken (λ q. q < length m.store) (λ q h. omega (arith, h, same)) (before ++ after)
                rest_live.0;
          distinct =
              subst Distinct (sym (append_assoc m.buffer_list (p ∷ []) (before ++ after)))
                (Distinct-insert m.buffer_list (before ++ after) p rest_apart.1 apart);
        } in
      rw (load-ok m p here) (
        yields (
          valid,
          Same-set m.store p cleared (before ++ after)
              (All-right (λ q. q ≢ p) m.buffer_list (before ++ after) apart),
          refl,
        ))

-- A buffer that a session takes from the front of its list and releases takes exactly its own bytes
-- with it, the first of what the session has to send. Every buffer that others hold is as before, and
-- the state stays valid.
pub pop_send_buffer-release_buffer :
    (m : Buffers) (others : List ℕ) (h : EventHandler) (p : ℕ) (rest : List ℕ)
    → h.send_buffer_list ≡ p ∷ rest
    → IsValid m (others ++ h.send_buffer_list)
    → Yields
        (λ m'.
          IsValid m' (others ++ (pop_send_buffer h).1.send_buffer_list)
          × (text (buffer_at m.store p) ++ texts m'.store (pop_send_buffer h).1.send_buffer_list
              ≡ texts m.store h.send_buffer_list)
          × Same m.store m'.store others)
        (release_buffer m (pop_send_buffer h).0)
unfolding pop_send_buffer
pop_send_buffer-release_buffer m others h p rest e v = rw e (
    Yields-weaken
      (λ m' (valid, same, list). (
        valid,
        ap (λ xs. text (buffer_at m.store p) ++ xs)
            (texts-Same m.store m'.store rest
              (All-right (SameAt m.store m'.store) others rest same)),
        All-append_left (SameAt m.store m'.store) others rest same,
      ))
      (release_buffer_correct m p others rest (subst (λ xs. IsValid m (others ++ xs)) e v)))
