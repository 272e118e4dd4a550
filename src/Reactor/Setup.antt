-- ===== src/Reactor/Setup.antt =====
-- reactor.cpp: the making of a reactor, its handlers and its signals.
use lazyserver.Base.{
  ℕ, ◌+◌, List, [], ◌∷◌, ◌++◌, true, false, Option, some, none, Run, ok, fault, ◌%◌, exited, ◌>>=◌,
  if◌then◌else◌,
}
use lazyserver.Base.Int.{ℤ, pos, negsuc, eq_ℤ, ltb_ℤ}
use lazyserver.Session.{EventHandler}
use lazyserver.Timer.{new_timer_heap}
use lazyserver.Reactor.{
  World, Environment, ReactorBase, Handler, SigHandler, SystemCall, log, addfd_to_epoll,
}
use lazyserver.Reactor.Loop.{find_sig}

-- The reactor that `create_reactor` makes, after its constructor.
unfoldable pub create_reactor : ReactorBase
create_reactor = record {
  epoll_fd = negsuc 0;
  listen_fd = negsuc 0;
  pipe_read = negsuc 0;
  pipe_write = negsuc 0;
  stop_server_flag = false;
  accept_handler = Handler.default_accept;
  read_handler = Handler.default_read;
  error_handler = Handler.default_error;
  close_handler = Handler.default_close;
  sig_handler_map = [];
}

unfoldable pub set_accept_handler : ReactorBase → Handler → ReactorBase
set_accept_handler base handler = record base { accept_handler = handler }

unfoldable pub set_read_handler : ReactorBase → Handler → ReactorBase
set_read_handler base handler = record base { read_handler = handler }

unfoldable pub set_close_handler : ReactorBase → Handler → ReactorBase
set_close_handler base handler = record base { close_handler = handler }

unfoldable pub set_error_handler : ReactorBase → Handler → ReactorBase
set_error_handler base handler = record base { error_handler = handler }

-- `map::insert`, which leaves a key that is there with its value.
unfoldable pub insert_absent :
    Option SigHandler → ℕ → SigHandler → List (ℕ × SigHandler) → List (ℕ × SigHandler)
insert_absent none sig handler map = map ++ ((sig, handler) ∷ [])
insert_absent (some old) sig handler map = map

unfoldable pub insert_sig : ℕ → SigHandler → List (ℕ × SigHandler) → List (ℕ × SigHandler)
insert_sig sig handler map = insert_absent (find_sig sig map) sig handler map

unfoldable pub addsig : ℕ → World → World
addsig sig w = log w (SystemCall.sigaction sig)

-- `lazy_register_sig`
unfoldable pub register_sig : ℕ → SigHandler → World → World
register_sig sig handler w =
    let w' = addsig sig w in
    record w' {
      base = record w'.base { sig_handler_map = insert_sig sig handler w'.base.sig_handler_map };
    }

-- What a caught signal does: its number, as a byte, goes into the pipe of the current reactor.
unfoldable pub sig_handler : ℕ → World → Run World
sig_handler sig w =
    if w.is_current
    then ok (log w (SystemCall.send w.base.pipe_write ((sig % 256) ∷ [])))
    else fault

-- What the system gives to `lazy_create_reactor`.
pub record SetupAnswers : Type 0 where
  pub socket : ℤ
  pub bind : ℤ
  pub listen : ℤ
  pub epoll_create : ℤ
  pub socketpair : Option (ℤ × ℤ)

-- `new EventHandler` with a descriptor.
unfoldable pub new_session : ℤ → World → ℕ × EventHandler × World
new_session fd w =
    let p = w.next_session in
    let h : EventHandler = record { fd = fd; recv_buffer_list = []; send_buffer_list = [] } in
    (p, h, record w { sessions = (p, h) ∷ w.sessions; next_session = p + 1 })

-- `lazy_create_listen_fd`
unfoldable pub create_listen_fd : SetupAnswers → World → Run (ℕ × EventHandler × World)
create_listen_fd a w =
    if ltb_ℤ a.socket (pos 0)
    then exited
    else if eq_ℤ a.bind (negsuc 0)
    then exited
    else if eq_ℤ a.listen (negsuc 0)
    then exited
    else ok (new_session a.socket w)

-- `lazy_create_epoll_fd`
unfoldable pub create_epoll_fd : SetupAnswers → Run ℤ
create_epoll_fd a = if eq_ℤ a.epoll_create (negsuc 0) then exited else ok a.epoll_create

-- `lazy_bind_listen_to_epoll`
unfoldable pub bind_listen_to_epoll : World → ℕ → EventHandler → World
bind_listen_to_epoll w p h = addfd_to_epoll w p h false

-- `lazy_set_current_reactor`
unfoldable pub set_current_reactor : World → World
set_current_reactor w = record w { is_current = true }

-- The numbers of the signals on Linux.
abbrev pub sighup : ℕ
sighup = 1

abbrev pub sigint : ℕ
sigint = 2

abbrev pub sigpipe : ℕ
sigpipe = 13

abbrev pub sigalrm : ℕ
sigalrm = 14

abbrev pub sigterm : ℕ
sigterm = 15

abbrev pub sigchld : ℕ
sigchld = 17

abbrev pub sigurg : ℕ
sigurg = 23

-- The registrations at the end of `lazy_create_reactor`.
unfoldable pub register_defaults : World → World
register_defaults w = register_sig sigalrm SigHandler.default_sigalrm (
    register_sig sigurg SigHandler.default_sigurg (
      register_sig sigpipe SigHandler.default_sigpipe (
        register_sig sigchld SigHandler.default_sigchld (
          register_sig sigterm SigHandler.default_sigterm (
            register_sig sigint SigHandler.default_sigint
              (register_sig sighup SigHandler.default_sighup w))))))

-- `lazy_create_reactor`, from the result of `socketpair`.
unfoldable pub set_up : Option (ℤ × ℤ) → World → Run World
set_up none w = exited
set_up (some (r, s)) w =
    let w1 = record w { base = record w.base { pipe_read = r; pipe_write = s } } in
    let (p, h, w2) = new_session r (log w1 (SystemCall.set_nonblocking s)) in
    ok (register_defaults (addfd_to_epoll w2 p h true))

-- `lazy_create_reactor`, from `create_reactor`, with the session of the listening descriptor.
unfoldable pub make_reactor : Environment → SetupAnswers → EventHandler → World → Run World
make_reactor env a h w = do
  heap ← new_timer_heap env.memory
  set_up a.socketpair (record w {
    base = record create_reactor { epoll_fd = a.epoll_create; listen_fd = h.fd };
    timers = record w.timers { heap = heap };
  })

-- `lazy_create_reactor`
unfoldable pub lazy_create_reactor : Environment → SetupAnswers → World → Run World
lazy_create_reactor env a w = do
  (p, h, w1) ← create_listen_fd a w
  if eq_ℤ a.epoll_create (negsuc 0)
      then exited
      else make_reactor env a h (addfd_to_epoll w1 p h false)
