-- ===== src/Reactor/Loop.antt =====
-- reactor.cpp: the event loop and the handling of each kind of event.
use lazyserver.Base.{
  ℕ, ◌+◌, List, [], ◌∷◌, length, Bool, true, ◌&&◌, Option, some, none, Run, ok, fault, exited,
  out_of_fuel, ◌>>=◌, if◌then◌else◌, ltb, ◌==◌,
}
use lazyserver.Base.Int.{ℤ, eq_ℤ}
use lazyserver.Session.{EventHandler}
use lazyserver.Reactor.{
  World, Environment, SigHandler, SystemCall, replace, session_at, log, addfd_to_epoll,
  reset_oneshot, drop_session,
}
use lazyserver.Reactor.Receive.{
  Received, bytes, would_block, failed, ReadEnd, finished, departed, receive,
}
use lazyserver.Reactor.Flush.{handle_write}
use lazyserver.Reactor.Defaults.{default_read_handler, call_handler, call_sig_handler}

-- An event of `epoll_wait`, with what the system gives to the calls that are made for it: to
-- `accept`, and to `recv`, one after the other.
pub record Event : Type 0 where
  pub pointer : Option ℕ
  pub input : Bool
  pub output : Bool
  pub error : Bool
  pub accepted : ℤ
  pub arriving : List Received

-- What `epoll_wait` gives: EINTR, another failure, or events.
pub data Wait : Type 0 where
  interrupted : Wait
  failure : Wait
  ready : List Event → Wait

unfoldable pub find_sig : ℕ → List (ℕ × SigHandler) → Option SigHandler
find_sig sig [] = none
find_sig sig ((s, handler) ∷ map) = if s == sig then some handler else find_sig sig map

-- The calls of `send` for a session, in the record.
unfoldable pub log_sends : ℤ → List (List ℕ) → World → World
log_sends fd [] w = w
log_sends fd (part ∷ parts) w = log_sends fd parts (log w (SystemCall.send fd part))

module _ (env : Environment) where
  -- `handle_accpet`. The result of `accept` is not looked at, and the handler gets the session that
  -- listens.
  unfoldable pub handle_accept : World → ℕ → ℤ → Run World
  handle_accept w p fd =
      let q = w.next_session in
      let h : EventHandler = record { fd = fd; recv_buffer_list = []; send_buffer_list = [] } in
      let w1 = record w { sessions = (q, h) ∷ w.sessions; next_session = q + 1 } in
      let w2 = addfd_to_epoll w1 q h true in call_handler env w2.base.accept_handler p w2

  -- One signal: the handler that the current reactor has for it, if any.
  unfoldable pub handle_sig : ℕ → World → Run World
  handle_sig sig w =
      let handled : Run World = elim (find_sig sig w.base.sig_handler_map) [
        | none ↦ ok w
        | some handler ↦ call_sig_handler env handler sig w
      ] in
      if w.is_current then handled else fault

  -- The loop over the signals that the pipe brings.
  unfoldable pub handle_sigs : List ℕ → ℕ → World → Run World
  handle_sigs [] p w = ok w
  handle_sigs (sig ∷ sigs) p w = do
    w' ← handle_sig sig w
    h ← session_at w' p
    handle_sigs sigs p (reset_oneshot w' p h)

  -- `handle_sig_timer`, with a block for 1024 signals.
  unfoldable pub handle_sig_timer : World → ℕ → List Received → Run World
  handle_sig_timer w p [] = out_of_fuel
  handle_sig_timer w p (would_block ∷ rest) = ok w
  handle_sig_timer w p (failed ∷ rest) = ok w
  handle_sig_timer w p (bytes sigs ∷ rest) =
      if ltb 1024 (length sigs) then fault else handle_sigs sigs p w

  -- `handle_read` behind its loop. It calls the default handler, whatever the reactor has.
  unfoldable pub after_read : World → ℕ → EventHandler → ReadEnd → Run World
  after_read w p h finished = default_read_handler p (reset_oneshot w p h)
  after_read w p h departed = do
    w' ← call_handler env w.base.close_handler p w
    g ← session_at w' p
    ok (drop_session w' p g)

  unfoldable pub handle_read : World → ℕ → EventHandler → List Received → Run World
  handle_read w p h answers = do
    (end, m, h') ← receive answers w.buffers h
    after_read (record w { buffers = m; sessions = replace p h' w.sessions }) p h' end

  -- The branch for EPOLLOUT, which calls `send` once for each buffer.
  unfoldable pub handle_output : World → ℕ → EventHandler → Run World
  handle_output w p h = do
    (m, h', sent) ← handle_write w.buffers h
    ok (log_sends h.fd sent (record w { buffers = m; sessions = replace p h' w.sessions }))

  -- The branch for EPOLLERR.
  unfoldable pub handle_error : World → ℕ → Run World
  handle_error w p = do
    w' ← call_handler env w.base.error_handler p w
    h ← session_at w' p
    ok (drop_session w' p h)

  -- One event; `listen_fd` is read once for all events of a round.
  unfoldable pub dispatch : ℤ → Event → World → Run World
  dispatch listen_fd e w = elim e.pointer [
    | none ↦ ok w
    | some p ↦ session_at w p >>= λ h.
        if eq_ℤ listen_fd h.fd
        then handle_accept w p e.accepted
        else if eq_ℤ h.fd w.base.pipe_read && e.input
        then handle_sig_timer w p e.arriving
        else if e.input
        then handle_read w p h e.arriving
        else if e.output
        then handle_output w p h
        else if e.error
        then handle_error w p
        else ok w
  ]

  unfoldable pub dispatch_all : ℤ → List Event → World → Run World
  dispatch_all listen_fd [] w = ok w
  dispatch_all listen_fd (e ∷ events) w = do
    w' ← dispatch listen_fd e w
    dispatch_all listen_fd events w'

  -- One call of `epoll_wait`, into a block for 1024 events, and what follows.
  unfoldable pub one_round : Wait → World → Run World
  one_round interrupted w = ok w
  one_round failure w = exited
  one_round (ready events) w =
      if ltb 1024 (length events) then fault else dispatch_all w.base.listen_fd events w

  -- The `while` of `lazy_loop`; a call of `epoll_wait` past the list blocks.
  unfoldable pub rounds : List Wait → World → Run World
  rounds [] w = if w.base.stop_server_flag then ok w else out_of_fuel
  rounds (wait ∷ waits) w =
      let next : Run World = (do w' ← one_round wait w; rounds waits w') in
      if w.base.stop_server_flag then ok w else next

  unfoldable pub lazy_loop : List Wait → World → Run World
  lazy_loop waits w = rounds waits (log w (SystemCall.alarm 1))
