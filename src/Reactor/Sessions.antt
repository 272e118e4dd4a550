-- ===== src/Reactor/Sessions.antt =====
-- The sessions of a reactor and the buffers that they hold.
use lazyserver.Base.{
  ℕ, ◌≡◌, ◌<◌, refl, ap, sym, length, List, [], ◌∷◌, ◌++◌, some, ◌==◌, Bool-cases, inl, inr,
}
use lazyserver.Base.Predicates.{All-append_left}
use mathlib.Core.List.{Perm, perm_append_comm, append_assoc}
use mathlib.Core.List.Perm
use mathlib.Core.Path.{subst}
use lazyserver.Session.{Buffers, EventHandler}
use lazyserver.Session.Store.{Distinct, Distinct-left}
use lazyserver.Session.Alloc.{IsValid, Perm-IsValid}
use lazyserver.Reactor.{find, replace, remove}

abbrev pub Sessions : Type 0
Sessions = List (ℕ × EventHandler)

abbrev pub held_by : EventHandler → List ℕ
held_by h = h.recv_buffer_list ++ h.send_buffer_list

-- All buffers that the sessions hold.
abbrev pub held : Sessions → List ℕ
held [] = []
held ((p, h) ∷ sessions) = held_by h ++ held sessions

-- The buffers of one session stand apart from those of the others.
pub held-replace :
    (p : ℕ) (h h' : EventHandler) (sessions : Sessions)
    → find p sessions ≡ some h
    → Perm (held (replace p h' sessions)) (held (remove p sessions) ++ held_by h')
held-replace p h h' [] e = cc
held-replace p h h' ((q, g) ∷ sessions) e = elim (Bool-cases (q == p)) [
  | inl same ↦ rw same (perm_append_comm (held_by h') (held sessions))
  | inr other ↦
      let e' : find p sessions ≡ some h = rw other at e in
      rw other (
        subst (λ xs. Perm (held_by g ++ held (replace p h' sessions)) xs)
          (sym (append_assoc (held_by g) (held (remove p sessions)) (held_by h')))
          (Perm.append_left (held_by g) (held-replace p h h' sessions e')))
]

pub replace-same :
    (p : ℕ) (h : EventHandler) (sessions : Sessions)
    → find p sessions ≡ some h
    → held (replace p h sessions) ≡ held sessions
replace-same p h [] e = refl
replace-same p h ((q, g) ∷ sessions) e = elim (Bool-cases (q == p)) [
  | inl same ↦
      let e' : some g ≡ some h = rw same at e in
      let eq : h ≡ g = cc in rw same (ap (λ f. held_by f ++ held sessions) eq)
  | inr other ↦
      let e' : find p sessions ≡ some h = rw other at e in
      rw other (ap (λ xs. held_by g ++ xs) (replace-same p h sessions e'))
]

pub find-replace :
    (p : ℕ) (h h' : EventHandler) (sessions : Sessions)
    → find p sessions ≡ some h
    → find p (replace p h' sessions) ≡ some h'
find-replace p h h' [] e = cc
find-replace p h h' ((q, g) ∷ sessions) e = elim (Bool-cases (q == p)) [
  | inl same ↦ rw same (rw same refl)
  | inr other ↦
      let e' : find p sessions ≡ some h = rw other at e in
      rw other (rw other (find-replace p h h' sessions e'))
]

module _ (m : Buffers) (p : ℕ) (h : EventHandler) (sessions : Sessions)
    (there : find p sessions ≡ some h) where
  -- The buffers of the other sessions.
  abbrev pub others : List ℕ
  others = held (remove p sessions)

  apart : IsValid m (held sessions) → IsValid m (others ++ held_by h)
  apart v =
      Perm-IsValid m (held-replace p h h sessions there)
        (subst (IsValid m) (sym (replace-same p h sessions there)) v)

  -- A valid state, seen from the session: its buffers to send stand last.
  pub send_last :
      IsValid m (held sessions) → IsValid m ((others ++ h.recv_buffer_list) ++ h.send_buffer_list)
  send_last v =
      subst (IsValid m) (sym (append_assoc others h.recv_buffer_list h.send_buffer_list)) (apart v)

  -- Or its received buffers do.
  pub recv_last :
      IsValid m (held sessions) → IsValid m ((others ++ h.send_buffer_list) ++ h.recv_buffer_list)
  recv_last v =
      subst (IsValid m) (sym (append_assoc others h.send_buffer_list h.recv_buffer_list)) (
        Perm-IsValid m
          (Perm.append_left others (perm_append_comm h.recv_buffer_list h.send_buffer_list))
          (apart v))

  -- Without the session, the state stays valid: its buffers are no one's.
  pub remove-IsValid : IsValid m (held sessions) → IsValid m others
  remove-IsValid v =
      let v' = apart v in
      record {
        shaped = v'.shaped;
        free = v'.free;
        live = All-append_left (λ q. q < length m.store) others (held_by h) v'.live;
        distinct =
            Distinct-left (m.buffer_list ++ others) (held_by h)
              (subst Distinct (sym (append_assoc m.buffer_list others (held_by h))) v'.distinct);
      }

module _ (m : Buffers) (p : ℕ) (h h' : EventHandler) (sessions : Sessions)
    (there : find p sessions ≡ some h) where
  together :
      IsValid m (held (remove p sessions) ++ held_by h') → IsValid m (held (replace p h' sessions))
  together v = Perm-IsValid m (Perm.symm (held-replace p h h' sessions there)) v

  pub replace_send :
      IsValid m ((held (remove p sessions) ++ h'.recv_buffer_list) ++ h'.send_buffer_list)
      → IsValid m (held (replace p h' sessions))
  replace_send v = together (
      subst (IsValid m)
        (append_assoc (held (remove p sessions)) h'.recv_buffer_list h'.send_buffer_list) v)

  pub replace_recv :
      IsValid m ((held (remove p sessions) ++ h'.send_buffer_list) ++ h'.recv_buffer_list)
      → IsValid m (held (replace p h' sessions))
  replace_recv v = together (
      Perm-IsValid m
        (Perm.append_left (held (remove p sessions))
          (perm_append_comm h'.send_buffer_list h'.recv_buffer_list))
        (subst (IsValid m)
          (append_assoc (held (remove p sessions)) h'.send_buffer_list h'.recv_buffer_list) v))
