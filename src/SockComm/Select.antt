-- ===== src/SockComm/Select.antt =====
-- sock_comm.cpp: the loop of `SelectServer`. A round takes what `select` and `accept` give.
pub mod Serve
pub mod Rounds
use lazyserver.Base.{
  ℕ, zero, suc, ◌+◌, ◌-◌, List, [], ◌∷◌, ◌++◌, Bool, true, false, ◌||◌, length, get_elem?,
  replicate, Run, ok, fault, exited, or_fail, ◌>>=◌, if◌then◌else◌, ltb, leb, ◌==◌,
}
use lazyserver.Base.Int.{ℤ, pos, negsuc}
use lazyserver.SockComm.{
  Errno, Answer, eintr, SlotTable, first_free, select_add, open_socket, bind, listen, accept,
}

-- FD_SETSIZE, the number of slots and of descriptors in an fd_set.
abbrev pub fd_setsize : ℕ
fd_setsize = 1024

-- An fd_set, as its descriptors. FD_SET and FD_ISSET of any other number are undefined behaviour.
abbrev pub member : ℕ → List ℕ → Bool
member fd [] = false
member fd (x ∷ set) = (x == fd) || member fd set

pub fd_set : ℕ → List ℕ → Run (List ℕ)
fd_set fd set = if ltb fd fd_setsize then ok (fd ∷ set) else fault

pub fd_isset : ℕ → List ℕ → Run Bool
fd_isset fd set = if ltb fd fd_setsize then ok (member fd set) else fault

-- The local variables of the loop; `write_set` and `error_set` stay empty. `served` are the clients
-- that came to the place of the comment `do something`, in order.
pub record SelectServer : Type 0 where
  pub listen_fd : ℕ
  pub table : SlotTable
  pub read_set : List ℕ
  pub max_fd : ℕ
  pub served : List ℕ

-- What the system gives to the calls before the loop.
pub record Opening : Type 0 where
  pub socket : Answer ℕ
  pub bound : Answer ℕ
  pub listening : Answer ℕ

pub start_select : Opening → Run SelectServer
start_select a = do
  fd ← open_socket a.socket
  _ ← bind a.bound
  _ ← listen a.listening
  set ← fd_set fd []
  ok (record {
    listen_fd = fd;
    table = record { client = replicate fd_setsize (negsuc 0); max_index = 0 };
    read_set = set;
    max_fd = fd;
    served = [];
  })

-- What `select` gives: the number of ready descriptors and `rset`; and what `accept` gives then.
pub record SelectRound : Type 0 where
  pub ready : Answer (ℕ × List ℕ)
  pub accepting : List (Answer ℕ)

-- The `for` over `count` slots from i on, with `ready` descriptors to go.
pub serve : ℕ → ℕ → ℕ → List ℕ → List ℤ → Run (List ℕ)
serve zero i ready rset client = ok []
serve (suc count) i ready rset client = or_fail fault (get_elem? client i) >>= λ fd. elim fd [
  | negsuc n ↦ serve count (i + 1) ready rset client
  | pos fd ↦ fd_isset fd rset >>= λ set.
      let skip = serve count (i + 1) ready rset client in
      let more : Run (List ℕ) = (do
        rest ← serve count (i + 1) (ready - 1) rset client
        ok (fd ∷ rest)) in
      if set then (if ready - 1 == 0 then ok (fd ∷ []) else more) else skip
]

-- What stands behind the branch for the listening descriptor.
pub serve_all : ℕ → List ℕ → SelectServer → Run SelectServer
serve_all ready rset s = do
  fds ← serve (s.table.max_index + 1) 0 ready rset s.table.client
  ok (record s { served = s.served ++ fds })

-- A new connection, with a slot for it or without.
pub admit : ℕ → ℕ → List ℕ → SelectServer → Run SelectServer
admit conn_fd ready rset s =
    let place : Run SelectServer = do
      set ← fd_set conn_fd s.read_set
      let s' = record s {
        table = select_add s.table conn_fd;
        read_set = set;
        max_fd = if ltb s.max_fd conn_fd then conn_fd else s.max_fd;
      }
      if ready - 1 == 0 then ok s' else serve_all (ready - 1) rset s'
    in if leb fd_setsize (first_free s.table.client) then ok s else place

-- What stands behind `select`.
pub after_select : Answer (ℕ × List ℕ) → List (Answer ℕ) → SelectServer → Run SelectServer
after_select (Answer.error eintr) accepting s = ok s
after_select (Answer.error _) accepting s = exited
after_select (Answer.value (ready, rset)) accepting s =
    let arrival : Run SelectServer = (do
      (conn_fd, answers) ← accept accepting
      admit conn_fd ready rset s) in
    let handle : Run SelectServer = (do
      set ← fd_isset s.listen_fd rset
      if set then arrival else serve_all ready rset s) in
    if ready == 0 then ok s else handle

pub select_round : SelectRound → SelectServer → Run SelectServer
select_round r s = after_select r.ready r.accepting s

-- The loop has no end but `exit`: the state after these rounds.
pub select_rounds : List SelectRound → SelectServer → Run SelectServer
select_rounds [] s = ok s
select_rounds (r ∷ rounds) s = do s' ← select_round r s; select_rounds rounds s'
