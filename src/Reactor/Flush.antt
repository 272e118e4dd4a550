-- ===== src/Reactor/Flush.antt =====
-- reactor.cpp: what `lazy_loop` does for a session that can send.
use lazyserver.Base.{
  not_zero, List-cases, ℕ, zero, suc, ◌+◌, List, [], ◌∷◌, ◌++◌, length, take, some, none, Run, ok,
  fault, out_of_fuel, ◌>>=◌, if◌then◌else◌, leb, ◌==◌, ◌<◌, ◌≡◌, inl, inr, refl, ap, sym, ◌∙◌, true,
  arith, Yields, yields, Yields-then, Yields-weaken,
}
use mathlib.Core.List.{append_assoc, append-nil}
use mathlib.Core.Path.{subst}
use lazyserver.Session.{
  Buffer, Buffers, EventHandler, load, release_buffer, pop_send_buffer, get_send_buffer_count,
}
use lazyserver.Session.Store.{text, texts, SameAt, Same, Same-refl, Same-trans, buffer_at}
use lazyserver.Session.Alloc.{IsValid}
use lazyserver.Session.Put.{load-ok, All-right}
use lazyserver.Session.Release.{release_buffer_correct}
use lazyserver.Base.Predicates.{All-append_left}

-- The loop over the buffers to send. `sent` holds the data of each call of `send` so far; what `send`
-- returns is not looked at.
pub flush :
    ℕ → Buffers → EventHandler → List (List ℕ) → Run (Buffers × EventHandler × List (List ℕ))
flush zero m h sent = out_of_fuel
flush (suc k) m h sent =
    let h' = (pop_send_buffer h).1 in
    let next : Run (Buffers × EventHandler × List (List ℕ)) = elim (pop_send_buffer h).0 [
      | none ↦ flush k m h' sent
      | some p ↦ load m p >>= λ b. release_buffer m (some p) >>= λ m'.
          let more = flush k m' h' (sent ++ (take b.size b.buffer ∷ [])) in
          if leb b.size (length b.buffer) then more else fault
    ] in
    if get_send_buffer_count h == 0 then ok (m, h, sent) else next

-- The branch for EPOLLOUT.
pub handle_write : Buffers → EventHandler → Run (Buffers × EventHandler × List (List ℕ))
handle_write m h = flush (get_send_buffer_count h + 1) m h []

-- All data, one part after the other.
abbrev pub joined : List (List ℕ) → List ℕ
joined [] = []
joined (part ∷ parts) = part ++ joined parts

-- The bytes of each buffer.
abbrev pub each : List Buffer → List ℕ → List (List ℕ)
each store [] = []
each store (p ∷ ps) = text (buffer_at store p) ∷ each store ps

pub joined-each : (store : List Buffer) (ps : List ℕ) → joined (each store ps) ≡ texts store ps
joined-each store [] = refl
joined-each store (p ∷ ps) = ap (λ xs. text (buffer_at store p) ++ xs) (joined-each store ps)

each-Same : (s t : List Buffer) (ps : List ℕ) → Same s t ps → each t ps ≡ each s ps
each-Same s t [] h = refl
each-Same s t (q ∷ ps) h = rw (h.0, each-Same s t ps h.1)

-- After the session's buffers `queue` were sent, behind the calls `sent`: one call of `send` for each,
-- with its bytes, and each is free again.
pub record IsFlushed (m : Buffers) (others : List ℕ) (h : EventHandler) (queue : List ℕ)
    (sent : List (List ℕ)) (out : Buffers × EventHandler × List (List ℕ)) : Type 0 where
  pub valid : IsValid out.0 others
  pub kept : Same m.store out.0.store others
  pub none_left : out.1.send_buffer_list ≡ []
  pub recv_kept : out.1.recv_buffer_list ≡ h.recv_buffer_list
  pub fd_kept : out.1.fd ≡ h.fd
  pub calls : out.2 ≡ sent ++ each m.store queue
  pub freed : out.0.buffer_list ≡ m.buffer_list ++ queue

popped_rest :
    (h : EventHandler) (p : ℕ) (rest : List ℕ)
    → h.send_buffer_list ≡ p ∷ rest
    → (pop_send_buffer h).1 ≡ (record h { send_buffer_list = rest })
unfolding pop_send_buffer
popped_rest h p rest e = rw e refl

flush-IsFlushed :
    (k : ℕ) (m : Buffers) (others : List ℕ) (h : EventHandler) (sent : List (List ℕ))
    → IsValid m (others ++ h.send_buffer_list)
    → length h.send_buffer_list < k
    → Yields (IsFlushed m others h h.send_buffer_list sent) (flush k m h sent)
unfolding flush pop_send_buffer get_send_buffer_count
flush-IsFlushed zero m others h sent v few = absurd (omega arith)
flush-IsFlushed (suc k) m others h sent v few = elim (List-cases h.send_buffer_list) [
  | inl e ↦
      let mine : IsValid m others =
        subst (IsValid m) (append-nil others) (subst (λ xs. IsValid m (others ++ xs)) e v) in
      rw e (
        yields (record {
          valid = mine;
          kept = Same-refl m.store others;
          none_left = refl;
          recv_kept = refl;
          fd_kept = refl;
          calls = sym (append-nil sent);
          freed = sym (append-nil m.buffer_list);
        }))
  | inr (p, rest, e) ↦
      let valid = subst (λ xs. IsValid m (others ++ xs)) e v in
      let here = (All-right (λ q. q < length m.store) others (p ∷ rest) valid.live).0 in
      let shape = valid.shaped p here in
      let b = buffer_at m.store p in
      let inside : leb b.size (length b.buffer) ≡ true =
        ground (arith, shape.block, shape.counted) in
      let count : length (p ∷ rest) < suc k = subst (λ xs. length xs < suc k) e few in
      let h' : EventHandler = record h { send_buffer_list = rest } in
      let popped : (pop_send_buffer h).1 ≡ h' = popped_rest h p rest e in
      rw (e, not_zero (length rest), load-ok m p here)
        (Yields-then (release_buffer_correct m p others rest valid) λ m' (v', same, listed).
          let ours = All-right (SameAt m.store m'.store) others rest same in
          let theirs = All-append_left (SameAt m.store m'.store) others rest same in
          rw inside (
            Yields-weaken
              (λ out f. record {
                valid = f.valid;
                kept = Same-trans m.store m'.store out.0.store others theirs f.kept;
                none_left = f.none_left;
                recv_kept = f.recv_kept;
                fd_kept = f.fd_kept;
                calls =
                    f.calls
                    ∙ (ap (λ xs. (sent ++ (text b ∷ [])) ++ xs)
                          (each-Same m.store m'.store rest ours)
                        ∙ append_assoc sent (text b ∷ []) (each m.store rest));
                freed =
                    f.freed
                    ∙ (ap (λ xs. xs ++ rest) listed ∙ append_assoc m.buffer_list (p ∷ []) rest);
              })
              (subst
                (λ g.
                  Yields (IsFlushed m' others h' rest (sent ++ (text b ∷ [])))
                    (flush k m' g (sent ++ (text b ∷ []))))
                (sym popped)
                (flush-IsFlushed k m' others h' (sent ++ (text b ∷ [])) v'
                  (omega (arith, count))))))
]

-- From a valid state, with a session and the buffers that others hold, the branch for EPOLLOUT always
-- ends. It calls `send` once for each buffer that the session had to send, in their order, with exactly
-- the bytes of the buffer. Each of these buffers joins the free ones, empty, and the session then has
-- none to send. Every buffer of the others is as before, the session's received buffers stay, and the
-- state stays valid.
pub handle_write-IsFlushed :
    (m : Buffers) (others : List ℕ) (h : EventHandler)
    → IsValid m (others ++ h.send_buffer_list)
    → Yields (IsFlushed m others h h.send_buffer_list []) (handle_write m h)
unfolding handle_write get_send_buffer_count
handle_write-IsFlushed m others h v =
    flush-IsFlushed (length h.send_buffer_list + 1) m others h [] v (omega arith)
