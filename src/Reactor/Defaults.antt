-- ===== src/Reactor/Defaults.antt =====
-- default_func.cpp: the handlers that a reactor has from the start, and the call of a handler.
use lazyserver.Base.{
  ℕ, ◌+◌, List, [], ◌∷◌, take, length, true, ◌&&◌, Option, some, none, Run, ok, fault, ◌>>=◌,
  if◌then◌else◌, leb, ◌==◌,
}
use lazyserver.Session.{EventHandler, load, release_buffer, read}
use lazyserver.Timer
use lazyserver.Reactor.{
  World, Environment, Handler, SigHandler, Message, SystemCall, replace, session_at, log,
}

-- A text in memory ends at its first 0.
pub c_string : List ℕ → List ℕ
c_string [] = []
c_string (x ∷ xs) = let rest = c_string xs in if x == 0 then [] else x ∷ rest

-- The buffer that `Read` gave, if any, is printed as a text, from a copy of 2048 bytes, and released.
unfoldable pub print_first : ℕ → World → Option ℕ × EventHandler → Run World
print_first p w (none, h) = ok w
print_first p w (some q, h) = do
  b ← load w.buffers q
  m ← release_buffer w.buffers (some q)
  let text = Message.received (c_string (take b.size b.buffer))
  let w' = log (record w { buffers = m; sessions = replace p h w.sessions }) (SystemCall.print text)
  if leb b.size (length b.buffer) && leb b.size 2048 then ok w' else fault

unfoldable pub default_read_handler : ℕ → World → Run World
default_read_handler p w = do h ← session_at w p; print_first p w (read h)

unfoldable pub default_accept_handler : ℕ → World → Run World
default_accept_handler p w = ok (log w (SystemCall.print Message.client_come))

unfoldable pub default_close_handler : ℕ → World → Run World
default_close_handler p w = ok (log w (SystemCall.print Message.client_leave))

unfoldable pub default_error_handler : ℕ → World → Run World
default_error_handler p w = ok (log w (SystemCall.print Message.client_error))

-- The server stops before its next round.
unfoldable pub default_sigint_handler : World → Run World
default_sigint_handler w =
    if w.is_current
    then ok (record w { base = record w.base { stop_server_flag = true } })
    else fault

module _ (env : Environment) where
  -- `lazy_get_timer_heap()->tick()`, and the alarm for the next one.
  unfoldable pub default_sigalrm_handler : World → Run World
  default_sigalrm_handler w =
      let n = w.ticks in
      let ticked : Run World = do
        timers ←
            Timer.tick env.on_timer env.memory (λ i. env.time n (i + 1)) (env.time n 0) w.timers
        ok (log (record w { timers = timers; ticks = n + 1 }) (SystemCall.alarm 1))
      in if w.is_current then ticked else fault

  unfoldable pub call_handler : Handler → ℕ → World → Run World
  call_handler Handler.default_accept p w = default_accept_handler p w
  call_handler Handler.default_read p w = default_read_handler p w
  call_handler Handler.default_error p w = default_error_handler p w
  call_handler Handler.default_close p w = default_close_handler p w
  call_handler (Handler.user k) p w = env.on_session k p w

  unfoldable pub call_sig_handler : SigHandler → ℕ → World → Run World
  call_sig_handler SigHandler.default_sigint sig w = default_sigint_handler w
  call_sig_handler SigHandler.default_sigpipe sig w = ok (log w (SystemCall.print Message.sig_pipe))
  call_sig_handler SigHandler.default_sigterm sig w = ok (log w (SystemCall.print Message.sig_term))
  call_sig_handler SigHandler.default_sighup sig w = ok (log w (SystemCall.print Message.sig_hup))
  call_sig_handler SigHandler.default_sigchld sig w = ok (log w (SystemCall.print Message.sig_chld))
  call_sig_handler SigHandler.default_sigurg sig w = ok (log w (SystemCall.print Message.sig_urg))
  call_sig_handler SigHandler.default_sigalrm sig w = default_sigalrm_handler w
  call_sig_handler (SigHandler.user_sig k) sig w = env.on_signal k sig w
