-- ===== src/Reactor.antt =====
-- reactor.h and reactor.cpp: the reactor, its sessions and the event loop, with the handlers of
-- default_func.cpp. The calls of the system leave a record, in their order, and what they return comes
-- with each event. The users' handlers are parameters.
pub mod Sessions
pub mod Receive
pub mod Flush
pub mod Outgoing
pub mod Setup
pub mod Created
pub mod Defaults
pub mod Loop
pub mod Watched
pub mod Sound
pub mod Handlers
pub mod Safety
pub mod Steady
pub mod Stop
mod Tests
use lazyserver.Base.{
  ℕ, zero, suc, ◌+◌, List, [], ◌∷◌, ◌++◌, Bool, true, false, Option, some, none, Run, fault,
  or_fail, ◌==◌, if◌then◌else◌,
}
use lazyserver.Base.Int.{ℤ}
use lazyserver.Heap.{NewArray}
pub use lazyserver.Base.Table.{find, replace, remove}
use lazyserver.Session.{Buffers, EventHandler}
use lazyserver.Timer

-- A handler of a session: one of default_func.cpp, or a user's.
pub data Handler : Type 0 where
  default_accept : Handler
  default_read : Handler
  default_error : Handler
  default_close : Handler
  user : ℕ → Handler

pub data SigHandler : Type 0 where
  default_sigint : SigHandler
  default_sigpipe : SigHandler
  default_sigterm : SigHandler
  default_sighup : SigHandler
  default_sigchld : SigHandler
  default_sigurg : SigHandler
  default_sigalrm : SigHandler
  user_sig : ℕ → SigHandler

-- `ReactorBase`; its `timerheap` stands in the world below, and `events` are the events of a round.
pub record ReactorBase : Type 0 where
  pub epoll_fd : ℤ
  pub listen_fd : ℤ
  pub pipe_read : ℤ
  pub pipe_write : ℤ
  pub stop_server_flag : Bool
  pub accept_handler : Handler
  pub read_handler : Handler
  pub error_handler : Handler
  pub close_handler : Handler
  pub sig_handler_map : List (ℕ × SigHandler)

-- What the handlers print.
pub data Message : Type 0 where
  client_come : Message
  client_leave : Message
  client_error : Message
  sig_pipe : Message
  sig_term : Message
  sig_hup : Message
  sig_chld : Message
  sig_urg : Message
  received : List ℕ → Message

-- The calls of the system that have an effect. `epoll_add` has EPOLLIN and EPOLLET, with EPOLLONESHOT
-- or without; `epoll_mod` has all three.
pub data SystemCall : Type 0 where
  epoll_add : ℤ → ℕ → Bool → SystemCall
  epoll_mod : ℤ → ℕ → SystemCall
  epoll_del : ℤ → SystemCall
  set_nonblocking : ℤ → SystemCall
  sigaction : ℕ → SystemCall
  close : ℤ → SystemCall
  send : ℤ → List ℕ → SystemCall
  print : Message → SystemCall
  alarm : ℕ → SystemCall

-- The sessions are those that `new` gave and `delete` did not take, by address; `next_session` is the
-- address that the next `new EventHandler` gives. `is_current` is whether `g_current_reactor` is this
-- reactor or null, and `ticks` counts the calls of `tick`.
pub record World : Type 0 where
  pub base : ReactorBase
  pub buffers : Buffers
  pub sessions : List (ℕ × EventHandler)
  pub next_session : ℕ
  pub timers : Timer.World
  pub is_current : Bool
  pub ticks : ℕ
  pub calls : List SystemCall

-- `*pSession`; after `delete` it is undefined behaviour.
pub session_at : World → ℕ → Run EventHandler
session_at w p = or_fail fault (find p w.sessions)

abbrev pub log : World → SystemCall → World
log w c = record w { calls = w.calls ++ (c ∷ []) }

-- What the program does not implement: the users' handlers of sessions, signals and timers, operator
-- new[], and the i-th reading of the clock by the n-th call of `tick`.
pub record Environment : Type 0 where
  pub on_session : ℕ → ℕ → World → Run World
  pub on_signal : ℕ → ℕ → World → Run World
  pub on_timer : ℕ → ℕ → Timer.World → Run Timer.World
  pub memory : NewArray
  pub time : ℕ → ℕ → ℤ

unfoldable pub addfd_to_epoll : World → ℕ → EventHandler → Bool → World
addfd_to_epoll w p h oneshot = log (log w (epoll_add h.fd p oneshot)) (set_nonblocking h.fd)

unfoldable pub reset_oneshot : World → ℕ → EventHandler → World
reset_oneshot w p h = log w (epoll_mod h.fd p)

pub removefd_from_epoll : World → EventHandler → World
removefd_from_epoll w h = log w (epoll_del h.fd)

-- `removefd_from_epoll`, `close` and `delete`, at the end of a session. Its buffers are not released.
pub drop_session : World → ℕ → EventHandler → World
drop_session w p h =
    let w' = log (removefd_from_epoll w h) (close h.fd) in
    record w' { sessions = remove p w'.sessions }
