-- ===== src/Reactor/Sound.antt =====
-- What holds of a reactor between two events, and of handlers that keep it.
use lazyserver.Base.{
  ℕ, ◌+◌, ◌<◌, ◌≤◌, ◌≡◌, refl, ◌∙◌, List, List-cases, [], ◌∷◌, ◌++◌, length, Bool, true, false,
  ◌&&◌, some, none, Bool-cases, inl, inr, arith, ok, Yields, yields, Yields-then, Ends, leb, ltb,
  ◌==◌,
}
use mathlib.Core.Path.{subst}
use lazyserver.Session.{EventHandler, read}
use lazyserver.Session.Store.{buffer_at}
use lazyserver.Session.Alloc.{IsValid}
use lazyserver.Session.Put.{load-ok, All-right}
use lazyserver.Session.Release.{release_buffer_correct}
use lazyserver.Timer.Fire.{IsReady, IsQuiet}
use lazyserver.Reactor.{
  World, Environment, Handler, SigHandler, SystemCall, Message, find, replace, remove, session_at,
  log, reset_oneshot, drop_session,
}
use lazyserver.Reactor.Watched.{
  IsPlain, IsWatched, IsWatched-call, IsWatched-replace, IsWatched-remove, find-remove,
}
use lazyserver.Reactor.Sessions.{held, recv_last, remove-IsValid, replace_recv}
use lazyserver.Reactor.Defaults.{print_first, default_read_handler}

-- No buffer is held twice, or held and free, and the free ones are empty; each session that epoll knows
-- is there, with its descriptor, and the next address is new; the timers' heap is valid; and the reactor is
-- the current one.
pub record IsSound (w : World) : Type 0 where
  pub valid : IsValid w.buffers (held w.sessions)
  pub watched : IsWatched w.sessions w.next_session w.calls
  pub timed : IsReady w.timers
  pub current : w.is_current ≡ true

-- The session was made and is not deleted.
abbrev pub IsAlive : ℕ → World → Type 0
IsAlive p w = (h : EventHandler) × (find p w.sessions ≡ some h)

abbrev pub KeepsAlive : World → World → Type 0
KeepsAlive w w' = (p : ℕ) → IsAlive p w → IsAlive p w'

-- The other sessions are not deleted.
abbrev pub KeepsOthers : ℕ → World → World → Type 0
KeepsOthers p w w' = (q : ℕ) → (p == q) ≡ false → IsAlive q w → IsAlive q w'

-- The users' handlers are free to use the reactor, but leave it sound and delete no session, and
-- those of timers leave the timers alone.
pub record IsTame (env : Environment) : Type 0 where
  pub quiet : IsQuiet env.on_timer
  pub on_session_tame :
      (k p : ℕ) (w : World)
      → IsSound w
      → IsAlive p w
      → Ends (λ w'. IsSound w' × KeepsAlive w w') (env.on_session k p w)
  pub on_signal_tame :
      (k sig : ℕ) (w : World)
      → IsSound w
      → Ends (λ w'. IsSound w' × KeepsAlive w w') (env.on_signal k sig w)

pub session_at-ok :
    (w : World) (p : ℕ) (h : EventHandler) → find p w.sessions ≡ some h → session_at w p ≡ ok h
unfolding session_at
session_at-ok w p h e = rw e refl

pub log-IsSound : (w : World) (c : SystemCall) → IsPlain c → IsSound w → IsSound (log w c)
log-IsSound w c plain s = record {
  valid = s.valid;
  watched = IsWatched-call w.sessions w.next_session w.calls s.watched c plain;
  timed = s.timed;
  current = s.current;
}

pub find-replace_alive :
    (p q : ℕ) (h h' : EventHandler) (sessions : List (ℕ × EventHandler))
    → find p sessions ≡ some h
    → (g : EventHandler) × (find q sessions ≡ some g)
    → (g : EventHandler) × (find q (replace p h' sessions) ≡ some g)
find-replace_alive p q h h' [] e a = a
find-replace_alive p q h h' ((r, f) ∷ sessions) e (g, a) = elim (Bool-cases (r == p)) [
  | inl hit ↦ elim (Bool-cases (r == q)) [
    | inl same ↦ rw hit (rw same (h', refl))
    | inr other ↦ rw hit (rw other (g, rw other at a))
  ]
  | inr miss ↦
      let e' : find p sessions ≡ some h = rw miss at e in
      elim (Bool-cases (r == q)) [
        | inl same ↦ rw miss (rw same (f, refl))
        | inr other ↦
            let a' : find q sessions ≡ some g = rw other at a in
            rw miss (rw other (find-replace_alive p q h h' sessions e' (g, a')))
      ]
]

pub find-cons :
    (q p : ℕ) (g : EventHandler) (sessions : List (ℕ × EventHandler))
    → (h : EventHandler) × (find p sessions ≡ some h)
    → (h : EventHandler) × (find p ((q, g) ∷ sessions) ≡ some h)
find-cons q p g sessions (h, e) = elim (Bool-cases (q == p)) [
  | inl same ↦ rw same (g, refl)
  | inr other ↦ rw other (h, e)
]

pub drop-IsSound :
    (w : World) (p : ℕ) (h : EventHandler)
    → find p w.sessions ≡ some h
    → IsSound w
    → IsSound (drop_session w p h)
unfolding drop_session lazyserver.Reactor.removefd_from_epoll
drop-IsSound w p h e s = record {
  valid = remove-IsValid w.buffers p h w.sessions e s.valid;
  watched =
      IsWatched-call _ _ _ (IsWatched-remove w.sessions w.next_session w.calls s.watched p h e)
        (SystemCall.close h.fd) tt;
  timed = s.timed;
  current = s.current;
}

pub drop-KeepsOthers : (w : World) (p : ℕ) (h : EventHandler) → KeepsOthers p w (drop_session w p h)
unfolding drop_session lazyserver.Reactor.removefd_from_epoll
drop-KeepsOthers w p h q ne (g, found) = (g, find-remove p q w.sessions ne ∙ found)

pub few_sigs : (used n : ℕ) → used + n ≤ 1024 → ltb 1024 n ≡ false
few_sigs used n h = ground arith

pub not_both : (b : Bool) → b ≡ true → b ≡ false → ⊥
not_both true on off = cc
not_both false on off = cc

read-none : (h : EventHandler) → h.recv_buffer_list ≡ [] → read h ≡ (none, h)
unfolding read
read-none h e = rw e refl

read-some :
    (h : EventHandler) (q : ℕ) (rest : List ℕ)
    → h.recv_buffer_list ≡ q ∷ rest
    → read h ≡ (some q, record h { recv_buffer_list = rest })
unfolding read
read-some h q rest e = rw e refl

print_first-IsSound :
    (p : ℕ) (w : World) (h : EventHandler)
    → IsSound w
    → find p w.sessions ≡ some h
    → Yields (λ w'. IsSound w' × KeepsAlive w w') (print_first p w (read h))
unfolding print_first
print_first-IsSound p w h s e = elim (List-cases h.recv_buffer_list) [
  | inl nothing ↦ rw (read-none h nothing) (yields (s, λ q a. a))
  | inr (q, rest, first) ↦
      let o = held (remove p w.sessions) in
      let v =
        subst (λ xs. IsValid w.buffers ((o ++ h.send_buffer_list) ++ xs)) first
          (recv_last w.buffers p h w.sessions e s.valid) in
      let here =
        (All-right (λ r. r < length w.buffers.store) (o ++ h.send_buffer_list) (q ∷ rest)
          v.live).0 in
      let shape = v.shaped q here in
      let b = buffer_at w.buffers.store q in
      let fits : (leb b.size (length b.buffer) && leb b.size 2048) ≡ true =
        ground (arith, shape.block, shape.counted) in
      let h' : EventHandler = record h { recv_buffer_list = rest } in
      rw (read-some h q rest first, load-ok w.buffers q here)
        (Yields-then (release_buffer_correct w.buffers q (o ++ h.send_buffer_list) rest v)
          λ m (valid, same, listed). rw fits (
            yields (
              record {
                valid = replace_recv m p h h' w.sessions e valid;
                watched =
                    IsWatched-call _ _ _
                      (IsWatched-replace w.sessions w.next_session w.calls s.watched p h e h' refl)
                      _ tt;
                timed = s.timed;
                current = s.current;
              },
              λ r a. find-replace_alive p r h h' w.sessions e a,
            )))
]

-- The default read handler always ends well for a session that is alive.
pub default_read_handler-IsSound :
    (p : ℕ) (w : World)
    → IsSound w
    → IsAlive p w
    → Yields (λ w'. IsSound w' × KeepsAlive w w') (default_read_handler p w)
unfolding default_read_handler
default_read_handler-IsSound p w s (h, e) =
    let printed = print_first-IsSound p w h s e in rw (session_at-ok w p h e) printed
