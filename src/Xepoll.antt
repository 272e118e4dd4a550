-- ===== src/Xepoll.antt =====
-- xepoll.h and xepoll.cpp: the class epoll, an event loop with two modes. Its sessions are of the class
-- SocketSession, whose header the repository does not have: their operations are parameters, and so
-- are the handlers, which the class declares virtual.
pub mod Modes
mod Tests
use lazyserver.Base.{
  ℕ, suc, ◌+◌, ◌-◌, List, [], ◌∷◌, ◌++◌, length, Bool, true, false, Option, some, none, Run, ok,
  fault, exited, out_of_fuel, or_fail, ◌>>=◌, if◌then◌else◌, ltb, ◌==◌,
}
use lazyserver.Base.Int.{ℤ, pos, negsuc, eq_ℤ, ltb_ℤ}
use lazyserver.Base.Table.{find, replace, remove}
use lazyserver.Reactor.Receive.{Received, bytes, would_block, failed, ReadEnd, finished, departed}

-- SocketSession: its descriptor, the buffer to receive into, the next such buffer, the bytes that a
-- buffer has and the room for more, bytes that `read` puts there, and what is to be sent, with the
-- release of the buffers. A buffer is an address.
pub record SocketSession : Type 1 where
  pub Session : Type 0
  pub new_session : ℤ → Session
  pub fd : Session → ℤ
  pub get_buffer_for_recv : Session → Option ℕ × Session
  pub alloc_recv_buffer : Session → Option ℕ × Session
  pub max_buffer_size : ℕ
  pub len : Session → ℕ → ℕ
  pub fill : ℕ → List ℕ → Session → Session
  pub content : Session → ℕ → List ℕ
  pub send_buffer : Session → List (Option ℕ)
  pub clear_send_buffer : Session → Session
  pub release_buffer : ℕ → Session → Session

-- The calls of the system that have an effect; `epoll_add` with EPOLLIN and, in this order, EPOLLET and
-- EPOLLONESHOT.
pub data EpollCall : Type 0 where
  epoll_add : ℤ → ℕ → Bool → Bool → EpollCall
  epoll_mod : ℤ → ℕ → EpollCall
  epoll_del : ℤ → EpollCall
  set_nonblocking : ℤ → EpollCall
  close : ℤ → EpollCall
  send : ℤ → List ℕ → EpollCall

-- EPOLLIN, EPOLLOUT and EPOLLERR of one event, with what the system gives to `accept` and to `read`.
pub record EpollEvent : Type 0 where
  pub pointer : Option ℕ
  pub input : Bool
  pub output : Bool
  pub error : Bool
  pub accepted : ℤ
  pub arriving : List Received

-- The virtual functions.
pub data Callback : Type 0 where
  handle_accept : Callback
  handle_error : Callback
  handle_read : Callback
  handle_close : Callback

-- What the constructor is given by the system.
pub record EpollAnswers : Type 0 where
  pub epoll_create : ℤ
  pub socket : ℤ
  pub bind : ℤ
  pub listen : ℤ

module _ (L : SocketSession) where
  -- The object, with the sessions that `new` gave and `delete` did not take, by address.
  pub record Epoll : Type 0 where
    pub epoll_fd : ℤ
    pub listen_fd : ℤ
    pub et_mode : Bool
    pub sessions : List (ℕ × L.Session)
    pub next_session : ℕ
    pub calls : List EpollCall

  abbrev pub log : Epoll → EpollCall → Epoll
  log w c = record w { calls = w.calls ++ (c ∷ []) }

  -- A use of a session that is deleted is undefined behaviour.
  unfoldable pub session_at : Epoll → ℕ → Run L.Session
  session_at w p = or_fail fault (find p w.sessions)

  unfoldable pub add_fd : Epoll → ℕ → L.Session → Bool → Bool → Epoll
  add_fd w p s et oneshot =
      log (log w (epoll_add (L.fd s) p et (if et then oneshot else false)))
        (set_nonblocking (L.fd s))

  unfoldable pub remove_fd : Epoll → L.Session → Epoll
  remove_fd w s = log w (epoll_del (L.fd s))

  unfoldable pub reset_one_shot : Epoll → ℕ → L.Session → Epoll
  reset_one_shot w p s = log w (epoll_mod (L.fd s) p)

  -- `new SocketSession`, with a descriptor.
  unfoldable pub add_session : ℤ → Epoll → ℕ × L.Session × Epoll
  add_session fd w =
      let p = w.next_session in
      let s = L.new_session fd in
      (p, s, record w { sessions = (p, s) ∷ w.sessions; next_session = p + 1 })

  -- The constructor, for an object whose address space has no session yet.
  unfoldable pub new_epoll : EpollAnswers → Bool → Run Epoll
  new_epoll a mode =
      let w : Epoll = record {
        epoll_fd = a.epoll_create;
        listen_fd = a.socket;
        et_mode = mode;
        sessions = [];
        next_session = 1;
        calls = [];
      } in
      let (p, s, w') = add_session a.socket w in
      if eq_ℤ a.epoll_create (negsuc 0)
      then exited
      else if ltb_ℤ a.socket (pos 0)
      then exited
      else if eq_ℤ a.bind (negsuc 0)
      then exited
      else if eq_ℤ a.listen (negsuc 0)
      then exited
      else ok (add_fd w' p s mode false)

  -- The buffer to read into: a full one is replaced by the next one.
  unfoldable pub open_buffer : ℕ → L.Session → Option ℕ × L.Session
  open_buffer q s = if L.len s q == L.max_buffer_size then L.alloc_recv_buffer s else (some q, s)

  -- The loop of `ET` over what `read` gives, from the buffer that it is at; a null one exits.
  unfoldable pub read_all : List Received → Option ℕ × L.Session → Run (ReadEnd × L.Session)
  read_all answers (none, s) = exited
  read_all [] (some q, s) = out_of_fuel
  read_all (would_block ∷ answers) (some q, s) = ok (finished, s)
  read_all (failed ∷ answers) (some q, s) = exited
  read_all (bytes [] ∷ answers) (some q, s) = ok (departed, s)
  read_all (bytes (x ∷ part) ∷ answers) (some q, s) =
      let more = read_all answers (open_buffer q (L.fill q (x ∷ part) s)) in
      if ltb (L.max_buffer_size - L.len s q) (suc (length part)) then fault else more

  unfoldable pub first_buffer : Option ℕ × L.Session → Option ℕ × L.Session
  first_buffer (none, s) = (none, s)
  first_buffer (some q, s) = open_buffer q s

  -- The one `read` of `LT`. A null buffer is undefined behaviour, and EAGAIN exits as well.
  unfoldable pub read_once : List Received → Option ℕ × L.Session → Run (ReadEnd × L.Session)
  read_once answers (none, s) = fault
  read_once [] (some q, s) = out_of_fuel
  read_once (would_block ∷ answers) (some q, s) = exited
  read_once (failed ∷ answers) (some q, s) = exited
  read_once (bytes [] ∷ answers) (some q, s) = ok (departed, s)
  read_once (bytes (x ∷ part) ∷ answers) (some q, s) =
      if ltb (L.max_buffer_size - L.len s q) (suc (length part))
      then fault
      else ok (finished, L.fill q (x ∷ part) s)

  -- The loop over the buffers that were taken from the session, each sent and released.
  unfoldable pub send_all : List (Option ℕ) → L.Session → Epoll → L.Session × Epoll
  send_all [] s w = (s, w)
  send_all (none ∷ temp) s w = send_all temp s w
  send_all (some q ∷ temp) s w =
      send_all temp (L.release_buffer q s) (log w (send (L.fd s) (L.content s q)))

  module _ (call : Callback → ℕ → Epoll → Run Epoll) where
    -- A callback, and the end of the session.
    unfoldable pub leave : Callback → ℕ → Epoll → Run Epoll
    leave callback p w = do
      w1 ← call callback p w
      s ← session_at w1 p
      let w2 = log (remove_fd w1 s) (close (L.fd s))
      ok (record w2 { sessions = remove p w2.sessions })

    -- The branch for the listening descriptor. The callback gets the new session.
    unfoldable pub accept : EpollEvent → Epoll → Run Epoll
    accept e w =
        let (p, s, w1) = add_session e.accepted w in
        call handle_accept p (add_fd w1 p s w1.et_mode true)

    -- After the loop of `ET`.
    unfoldable pub et_read_end : ℕ → Epoll → ReadEnd × L.Session → Run Epoll
    et_read_end p w (finished, s) =
        call handle_read p (reset_one_shot (record w { sessions = replace p s w.sessions }) p s)
    et_read_end p w (departed, s) =
        leave handle_close p (record w { sessions = replace p s w.sessions })

    unfoldable pub et_read : EpollEvent → ℕ → L.Session → Epoll → Run Epoll
    et_read e p s w =
        read_all e.arriving (first_buffer (L.get_buffer_for_recv s)) >>= et_read_end p w

    -- The branch for EPOLLOUT, the same in both modes.
    unfoldable pub output_all : ℕ → Epoll → Run Epoll
    output_all p w = do
      s ← session_at w p
      let (s', w') = send_all (L.send_buffer s) (L.clear_send_buffer s) w
      ok (record w' { sessions = replace p s' w'.sessions })

    -- What stands behind the branch for EPOLLIN in both modes.
    unfoldable pub output_error : EpollEvent → ℕ → Epoll → Run Epoll
    output_error e p w = do
      w' ← (if e.output then output_all p w else ok w)
      if e.error then leave handle_error p w' else ok w'

    -- One event that is not for the listening descriptor, in `ET`.
    unfoldable pub et_session : EpollEvent → ℕ → L.Session → Epoll → Run Epoll
    et_session e p s w = (if e.input then et_read e p s w else ok w) >>= output_error e p

    -- In `LT`, `continue` leaves out the rest for a session that has departed.
    unfoldable pub lt_read_end : EpollEvent → ℕ → Epoll → ReadEnd × L.Session → Run Epoll
    lt_read_end e p w (finished, s) =
        call handle_read p (record w { sessions = replace p s w.sessions }) >>= output_error e p
    lt_read_end e p w (departed, s) =
        leave handle_close p (record w { sessions = replace p s w.sessions })

    unfoldable pub lt_session : EpollEvent → ℕ → L.Session → Epoll → Run Epoll
    lt_session e p s w =
        if e.input
        then read_once e.arriving (first_buffer (L.get_buffer_for_recv s)) >>= lt_read_end e p w
        else output_error e p w

    -- The two loops over the events of one call of `epoll_wait`.
    -- After a connection, both return.
    unfoldable pub et : List EpollEvent → Epoll → Run Epoll
    et [] w = ok w
    et (e ∷ events) w = elim e.pointer [
      | none ↦ et events w
      | some p ↦ session_at w p >>= λ s.
          let next : Run Epoll = et_session e p s w >>= λ w'. et events w' in
          if eq_ℤ w.listen_fd (L.fd s) then accept e w else next
    ]

    -- `LT` does not test for the null session.
    unfoldable pub lt : List EpollEvent → Epoll → Run Epoll
    lt [] w = ok w
    lt (e ∷ events) w = elim e.pointer [
      | none ↦ fault
      | some p ↦ session_at w p >>= λ s.
          let next : Run Epoll = lt_session e p s w >>= λ w'. lt events w' in
          if eq_ℤ w.listen_fd (L.fd s) then accept e w else next
    ]

    -- One round of `ServerLoop`; any failure of `epoll_wait`, also EINTR, exits.
    unfoldable pub server_round : Option (List EpollEvent) → Epoll → Run Epoll
    server_round none w = exited
    server_round (some events) w = if w.et_mode then et events w else lt events w

    -- `ServerLoop`, which has no end but `exit`: the state after these rounds.
    unfoldable pub server_loop : List (Option (List EpollEvent)) → Epoll → Run Epoll
    server_loop [] w = ok w
    server_loop (wait ∷ waits) w = do w' ← server_round wait w; server_loop waits w'
