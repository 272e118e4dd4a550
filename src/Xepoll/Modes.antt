-- ===== src/Xepoll/Modes.antt =====
-- What the two modes of epoll make of the events of one round.
use lazyserver.Base.{
  ℕ, ◌≡◌, refl, List, [], ◌∷◌, Bool-cases, inl, inr, true, some, none, Run, ok, fault,
}
use lazyserver.Base.Int.{eq_ℤ}
use lazyserver.Base.Table.{find, replace, remove}
use lazyserver.Reactor.Receive.{bytes}
use lazyserver.Xepoll.{
  SocketSession, EpollEvent, EpollCall, Callback, Epoll, log, session_at, remove_fd, leave,
  read_all, read_once, first_buffer, et_read, et_read_end, et_session, lt_session, lt_read_end,
  output_error, output_all, et, lt, server_round,
}

module _ (L : SocketSession) (call : Callback → ℕ → Epoll L → Run (Epoll L)) where
  pub session_at-ok :
      (w : Epoll L) (p : ℕ) (s : L.Session) → find p w.sessions ≡ some s → session_at L w p ≡ ok s
  unfolding session_at
  session_at-ok w p s e = rw e refl

  session_at-fault : (w : Epoll L) (p : ℕ) → find p w.sessions ≡ none → session_at L w p ≡ fault
  unfolding session_at
  session_at-fault w p e = rw e refl

  -- In both modes, the events behind one for the listening descriptor are lost: a round with them is
  -- the same as a round without them, whatever the callbacks do.
  pub server_round-connection :
      (e : EpollEvent) (events : List EpollEvent) (w : Epoll L) (p : ℕ) (s : L.Session)
      → e.pointer ≡ some p
      → find p w.sessions ≡ some s
      → eq_ℤ w.listen_fd (L.fd s) ≡ true
      → server_round L call (some (e ∷ events)) w ≡ server_round L call (some (e ∷ [])) w
  unfolding server_round et lt
  server_round-connection e events w p s pointer there listening = elim (Bool-cases w.et_mode) [
    | inl edge ↦ rw (edge, pointer, session_at-ok w p s there, listening) refl
    | inr level ↦ rw (level, pointer, session_at-ok w p s there, listening) refl
  ]

  -- The state after a session was taken out.
  abbrev pub without : ℕ → L.Session → Epoll L → Epoll L
  without p s w =
      let w' = log L (remove_fd L w s) (EpollCall.close (L.fd s)) in
      record w' { sessions = remove p w'.sessions }

  leave-ok :
      (callback : Callback) (p : ℕ) (s : L.Session) (w w' : Epoll L)
      → call callback p w ≡ ok w'
      → find p w'.sessions ≡ some s
      → leave L call callback p w ≡ ok (without p s w')
  unfolding leave
  leave-ok callback p s w w' e there = rw (e, session_at-ok w' p s there) refl

  -- Where an event has EPOLLIN and EPOLLOUT, and `read` says that the client has left: `LT` takes the
  -- session out and goes on with the next event. `ET` goes on with the branch for EPOLLOUT of the
  -- session that it has just deleted, which is undefined behaviour.
  pub departed_modes :
      (e : EpollEvent) (p : ℕ) (w w' : Epoll L) (s s1 s2 : L.Session) (q : ℕ)
      {rest : List lazyserver.Reactor.Receive.Received}
      → e.input ≡ true
      → e.output ≡ true
      → e.arriving ≡ bytes [] ∷ rest
      → first_buffer L (L.get_buffer_for_recv s) ≡ (some q, s1)
      → call Callback.handle_close p (record w { sessions = replace p s1 w.sessions }) ≡ ok w'
      → find p w'.sessions ≡ some s2
      → find p (remove p w'.sessions) ≡ none
      → (lt_session L call e p s w ≡ ok (without p s2 w')) × (et_session L call e p s w ≡ fault)
  unfolding lt_session lt_read_end et_session et_read et_read_end output_error output_all read_all
      read_once remove_fd
  departed_modes e p w w' s s1 s2 q input output arriving first closed there gone =
      let left =
        leave-ok Callback.handle_close p s2 (record w { sessions = replace p s1 w.sessions }) w'
          closed there in
      let deleted = session_at-fault (without p s2 w') p gone in
      (rw (input, arriving, first) left, rw (input, arriving, first, left, output, deleted) refl)
