-- ===== src/Xepoll/Tests.antt =====
-- The two modes, with sessions that receive into one buffer of four bytes and send nothing.
use lazyserver.Base.{ℕ, ◌≡◌, refl, List, [], ◌∷◌, ◌++◌, length, true, false, some, Run, ok, fault}
use lazyserver.Base.Int.{ℤ, pos}
use lazyserver.Reactor.Receive.{bytes}
use lazyserver.Xepoll.{
  SocketSession, EpollEvent, EpollCall, Callback, Epoll, server_round, server_loop, read_all,
  et_session, lt_session, first_buffer,
}
use lazyserver.Xepoll.Modes.{without, server_round-connection, departed_modes}

abbrev library : SocketSession
library = record {
  Session = ℤ × List ℕ;
  new_session = λ fd. (fd, []);
  fd = λ s. s.0;
  get_buffer_for_recv = λ s. (some 0, s);
  alloc_recv_buffer = λ s. (some 0, (s.0, []));
  max_buffer_size = 4;
  len = λ s q. length s.1;
  fill = λ q part s. (s.0, s.1 ++ part);
  content = λ s q. s.1;
  send_buffer = λ s. [];
  clear_send_buffer = λ s. s;
  release_buffer = λ q s. s;
}

-- The handlers of the class itself do nothing.
abbrev nothing : Callback → ℕ → Epoll library → Run (Epoll library)
nothing callback p w = ok w

-- A server with the listening session at 1 and a client at 2.
abbrev server : Epoll library
server = record {
  epoll_fd = pos 3;
  listen_fd = pos 4;
  et_mode = true;
  sessions = (2, (pos 5, [])) ∷ (1, (pos 4, [])) ∷ [];
  next_session = 3;
  calls = [];
}

-- A client comes.
abbrev coming : EpollEvent
coming = record {
  pointer = some 1;
  input = true;
  output = false;
  error = false;
  accepted = pos 6;
  arriving = [];
}

-- The client at 2 leaves.
abbrev leaving : EpollEvent
leaving = record {
  pointer = some 2;
  input = true;
  output = true;
  error = false;
  accepted = pos 0;
  arriving = bytes [] ∷ [];
}

server_round-connection_example :
    server_round library nothing (some (coming ∷ leaving ∷ [])) server
    ≡ server_round library nothing (some (coming ∷ [])) server
server_round-connection_example =
    server_round-connection library nothing coming (leaving ∷ []) server 1 (pos 4, []) refl refl
      refl

departed_modes_example :
    (lt_session library nothing leaving 2 (pos 5, []) server
      ≡ ok (without library nothing 2 (pos 5, []) server))
    × (et_session library nothing leaving 2 (pos 5, []) server ≡ fault)
unfolding first_buffer lazyserver.Xepoll.open_buffer
departed_modes_example =
    departed_modes library nothing leaving 2 server server (pos 5, []) (pos 5, []) (pos 5, []) 0
      refl refl refl refl refl refl refl
