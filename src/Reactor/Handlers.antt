-- ===== src/Reactor/Handlers.antt =====
-- Each handler of the reactor keeps it sound.
use lazyserver.Base.{
  ℕ, suc, ◌+◌, ◌≡◌, refl, sym, List, [], ◌∷◌, ◌++◌, length, true, false, Option-cases, some, inl,
  inr, Ends, returns, blocks, Yields-Ends, Ends-then, Ends-weaken, Ends-test, ltb,
}
use lazyserver.Base.Int.{ℤ}
use mathlib.Core.Path.{subst}
use mathlib.Core.List.{append-nil}
use lazyserver.Session.{EventHandler}
use lazyserver.Session.Alloc.{IsValid}
use lazyserver.Timer.Tick.{tick-Ticked}
use lazyserver.Reactor.{
  World, Environment, Handler, SigHandler, SystemCall, Message, find, replace, remove, session_at,
  log, reset_oneshot, drop_session,
}
use lazyserver.Reactor.Watched.{IsWatched-call, IsWatched-add, IsWatched-replace}
use lazyserver.Reactor.Sessions.{
  held, send_last, recv_last, replace_send, replace_recv, find-replace,
}
use lazyserver.Reactor.Receive.{Received, bytes, would_block, failed, ReadEnd, finished, departed}
use lazyserver.Reactor.Receive.Stream.{Within, used_last, used_next, receive-Ends}
use lazyserver.Reactor.Flush.{handle_write-IsFlushed}
use lazyserver.Reactor.Defaults.{
  default_accept_handler, default_close_handler, default_error_handler, default_sigint_handler,
  default_sigalrm_handler, call_handler, call_sig_handler,
}
use lazyserver.Reactor.Loop.{
  find_sig, handle_accept, handle_sig, after_read, handle_sigs, handle_sig_timer, handle_read,
  handle_output, log_sends, handle_error,
}
use lazyserver.Reactor.Sound.{
  IsSound, IsAlive, KeepsAlive, KeepsOthers, find-replace_alive, drop-KeepsOthers, IsTame,
  session_at-ok, log-IsSound, find-cons, drop-IsSound, few_sigs, not_both,
  default_read_handler-IsSound,
}

abbrev new_handler : ℤ → EventHandler
new_handler fd = record { fd = fd; recv_buffer_list = []; send_buffer_list = [] }

module _ (env : Environment) (tame : IsTame env) where
  call_handler-Ends :
      (handler : Handler) (p : ℕ) (w : World)
      → IsSound w
      → IsAlive p w
      → Ends (λ w'. IsSound w' × KeepsAlive w w') (call_handler env handler p w)
  unfolding call_handler default_accept_handler default_close_handler default_error_handler
  call_handler-Ends Handler.default_accept p w s a =
      returns (log-IsSound w (SystemCall.print Message.client_come) tt s, λ q b. b)
  call_handler-Ends Handler.default_read p w s a =
      Yields-Ends (default_read_handler-IsSound p w s a)
  call_handler-Ends Handler.default_error p w s a =
      returns (log-IsSound w (SystemCall.print Message.client_error) tt s, λ q b. b)
  call_handler-Ends Handler.default_close p w s a =
      returns (log-IsSound w (SystemCall.print Message.client_leave) tt s, λ q b. b)
  call_handler-Ends (Handler.user k) p w s a = tame.on_session_tame k p w s a

  call_sig_handler-Ends :
      (handler : SigHandler) (sig : ℕ) (w : World)
      → IsSound w
      → Ends (λ w'. IsSound w' × KeepsAlive w w') (call_sig_handler env handler sig w)
  unfolding call_sig_handler default_sigint_handler default_sigalrm_handler
  call_sig_handler-Ends SigHandler.default_sigint sig w s =
      Ends-test w.is_current
        (λ on. returns (
          record { valid = s.valid; watched = s.watched; timed = s.timed; current = s.current },
          λ q b. b,
        ))
        (λ off. absurd (not_both w.is_current s.current off))
  call_sig_handler-Ends SigHandler.default_sigpipe sig w s =
      returns (log-IsSound w _ tt s, λ q b. b)
  call_sig_handler-Ends SigHandler.default_sigterm sig w s =
      returns (log-IsSound w _ tt s, λ q b. b)
  call_sig_handler-Ends SigHandler.default_sighup sig w s = returns (log-IsSound w _ tt s, λ q b. b)
  call_sig_handler-Ends SigHandler.default_sigchld sig w s =
      returns (log-IsSound w _ tt s, λ q b. b)
  call_sig_handler-Ends SigHandler.default_sigurg sig w s = returns (log-IsSound w _ tt s, λ q b. b)
  call_sig_handler-Ends SigHandler.default_sigalrm sig w s =
      Ends-test w.is_current
        (λ on.
          Ends-then
            (Yields-Ends (
              tick-Ticked env.memory (λ i. env.time w.ticks (i + 1)) env.on_timer tame.quiet
                (env.time w.ticks 0) w.timers s.timed))
            λ timers e (fired, left, t). returns (
              record {
                valid = s.valid;
                watched = IsWatched-call _ _ _ s.watched (SystemCall.alarm 1) tt;
                timed = t.ready;
                current = s.current;
              },
              λ q b. b,
            ))
        (λ off. absurd (not_both w.is_current s.current off))
  call_sig_handler-Ends (SigHandler.user_sig k) sig w s = tame.on_signal_tame k sig w s

  pub handle_accept-Ends :
      (w : World) (p : ℕ) (fd : ℤ)
      → IsSound w
      → IsAlive p w
      → Ends (λ w'. IsSound w' × KeepsOthers p w w') (handle_accept env w p fd)
  unfolding handle_accept lazyserver.Reactor.addfd_to_epoll
  handle_accept-Ends w p fd s (h, e) =
      Ends-weaken (λ w' r. (r.0, λ q ne a. r.1 q (find-cons w.next_session q _ w.sessions a)))
        (call_handler-Ends w.base.accept_handler p _
          (record {
            valid = s.valid;
            watched =
                IsWatched-call _ _ _
                  (IsWatched-add w.sessions w.next_session w.calls s.watched (new_handler fd) true)
                  (SystemCall.set_nonblocking fd) tt;
            timed = s.timed;
            current = s.current;
          })
          (find-cons w.next_session p _ w.sessions (h, e)))

  handle_sig-Ends :
      (sig : ℕ) (w : World)
      → IsSound w
      → Ends (λ w'. IsSound w' × KeepsAlive w w') (handle_sig env sig w)
  unfolding handle_sig
  handle_sig-Ends sig w s =
      Ends-test w.is_current
        (λ on. elim (Option-cases (find_sig sig w.base.sig_handler_map)) [
          | inl e ↦ rw e (returns (s, λ q b. b))
          | inr (handler, e) ↦ let called = call_sig_handler-Ends handler sig w s in rw e called
        ])
        (λ off. absurd (not_both w.is_current s.current off))

  handle_sigs-Ends :
      (sigs : List ℕ) (p : ℕ) (w : World)
      → IsSound w
      → IsAlive p w
      → Ends (λ w'. IsSound w' × KeepsAlive w w') (handle_sigs env sigs p w)
  unfolding handle_sigs reset_oneshot
  handle_sigs-Ends [] p w s a = returns (s, λ q b. b)
  handle_sigs-Ends (sig ∷ sigs) p w s a = Ends-then (handle_sig-Ends sig w s) λ w' e (s', alive).
      let (h, there) = alive p a in
      rw (session_at-ok w' p h there) (
        Ends-weaken (λ w2 r. (r.0, λ q b. r.1 q (alive q b)))
          (handle_sigs-Ends sigs p (reset_oneshot w' p h) (log-IsSound w' _ tt s') (h, there)))

  pub handle_sig_timer-Ends :
      (w : World) (p : ℕ) (answers : List Received) (used : ℕ)
      → Within used answers
      → IsSound w
      → IsAlive p w
      → Ends (λ w'. IsSound w' × KeepsAlive w w') (handle_sig_timer env w p answers)
  unfolding handle_sig_timer
  handle_sig_timer-Ends w p [] used b s a = blocks
  handle_sig_timer-Ends w p (would_block ∷ rest) used b s a = returns (s, λ q c. c)
  handle_sig_timer-Ends w p (failed ∷ rest) used b s a = returns (s, λ q c. c)
  handle_sig_timer-Ends w p (bytes [] ∷ rest) used b s a = handle_sigs-Ends [] p w s a
  handle_sig_timer-Ends w p (bytes (x ∷ xs) ∷ rest) used b s a =
      let few : ltb 1024 (suc (length xs)) ≡ false =
        few_sigs (used_next used) (suc (length xs)) b.0 in
      rw few (handle_sigs-Ends (x ∷ xs) p w s a)

  -- What follows the loop of `handle_read`.
  read_on :
      (w : World) (p : ℕ) (h : EventHandler) (end : ReadEnd)
      → IsSound w
      → find p w.sessions ≡ some h
      → Ends (λ w'. IsSound w' × KeepsOthers p w w') (after_read env w p h end)
  unfolding after_read reset_oneshot
  read_on w p h finished s there =
      Ends-weaken (λ w' r. (r.0, λ q ne a. r.1 q a))
        (Yields-Ends
          (default_read_handler-IsSound p (reset_oneshot w p h) (log-IsSound w _ tt s) (h, there)))
  read_on w p h departed s there =
      Ends-then (call_handler-Ends w.base.close_handler p w s (h, there)) λ w2 e (s2, alive).
        let (g, there2) = alive p (h, there) in
        rw (session_at-ok w2 p g there2) (
          returns
            (drop-IsSound w2 p g there2 s2, λ q ne a. drop-KeepsOthers w2 p g q ne (alive q a)))

  pub handle_read-Ends :
      (w : World) (p : ℕ) (h : EventHandler) (answers : List Received)
      → find p w.sessions ≡ some h
      → Within (used_last w.buffers h.recv_buffer_list) answers
      → IsSound w
      → Ends (λ w'. IsSound w' × KeepsOthers p w w') (handle_read env w p h answers)
  unfolding handle_read
  handle_read-Ends w p h answers there b s =
      let o = held (remove p w.sessions) ++ h.send_buffer_list in
      Ends-then
        (receive-Ends o answers w.buffers h (used_last w.buffers h.recv_buffer_list) b refl
          (recv_last w.buffers p h w.sessions there s.valid))
        λ (end, m, h') e (stream, got).
          let w' : World = record w { buffers = m; sessions = replace p h' w.sessions } in
          let valid = replace_recv m p h h' w.sessions there (
            subst (λ xs. IsValid m ((held (remove p w.sessions) ++ xs) ++ h'.recv_buffer_list))
              (sym got.send_kept) got.grown.valid) in
          let s' : IsSound w' = record {
            valid = valid;
            watched =
                IsWatched-replace w.sessions w.next_session w.calls s.watched p h there h'
                  got.fd_kept;
            timed = s.timed;
            current = s.current;
          } in
          let there' = find-replace p h h' w.sessions there in
          Ends-weaken
            (λ w2 r. (r.0, λ q ne a. r.1 q ne (find-replace_alive p q h h' w.sessions there a)))
            (read_on w' p h' end s' there')

  log_sends-IsSound :
      (fd : ℤ) (parts : List (List ℕ)) (w : World) → IsSound w → IsSound (log_sends fd parts w)
  unfolding log_sends
  log_sends-IsSound fd [] w s = s
  log_sends-IsSound fd (part ∷ parts) w s =
      log_sends-IsSound fd parts (log w (SystemCall.send fd part)) (log-IsSound w _ tt s)

  log_sends-sessions :
      (fd : ℤ) (parts : List (List ℕ)) (w : World) → (log_sends fd parts w).sessions ≡ w.sessions
  unfolding log_sends
  log_sends-sessions fd [] w = refl
  log_sends-sessions fd (part ∷ parts) w =
      log_sends-sessions fd parts (log w (SystemCall.send fd part))

  pub handle_output-Ends :
      (w : World) (p : ℕ) (h : EventHandler)
      → find p w.sessions ≡ some h
      → IsSound w
      → Ends (λ w'. IsSound w' × KeepsOthers p w w') (handle_output env w p h)
  unfolding handle_output
  handle_output-Ends w p h there s =
      let o = held (remove p w.sessions) in
      Ends-then
        (Yields-Ends (
          handle_write-IsFlushed w.buffers (o ++ h.recv_buffer_list) h
            (send_last w.buffers p h w.sessions there s.valid)))
        λ (m, h', sent) e f.
          let w' : World = record w { buffers = m; sessions = replace p h' w.sessions } in
          returns (
            log_sends-IsSound h.fd sent w' (record {
              valid = replace_send m p h h' w.sessions there (
                  subst (λ xs. IsValid m ((o ++ xs) ++ h'.send_buffer_list)) (sym f.recv_kept)
                    (subst (λ xs. IsValid m ((o ++ h.recv_buffer_list) ++ xs)) (sym f.none_left)
                      (subst (IsValid m) (sym (append-nil (o ++ h.recv_buffer_list))) f.valid)));
              watched =
                  IsWatched-replace w.sessions w.next_session w.calls s.watched p h there h'
                    f.fd_kept;
              timed = s.timed;
              current = s.current;
            }),
            λ q ne a.
                subst (λ ss. (g : EventHandler) × (find q ss ≡ some g))
                  (sym (log_sends-sessions h.fd sent w'))
                  (find-replace_alive p q h h' w.sessions there a),
          )

  pub handle_error-Ends :
      (w : World) (p : ℕ)
      → IsSound w
      → IsAlive p w
      → Ends (λ w'. IsSound w' × KeepsOthers p w w') (handle_error env w p)
  unfolding handle_error
  handle_error-Ends w p s a =
      Ends-then (call_handler-Ends w.base.error_handler p w s a) λ w' e (s', alive).
        let (h, there) = alive p a in
        rw (session_at-ok w' p h there) (
          returns
            (drop-IsSound w' p h there s', λ q ne b. drop-KeepsOthers w' p h q ne (alive q b)))
