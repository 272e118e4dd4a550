-- ===== src/SockComm/Poll.antt =====
-- sock_comm.cpp: the loop of `PollServer`. A round takes what `poll` and `accept` give.
pub mod Scan
pub mod Rounds
use lazyserver.Base.{
  ℕ, zero, suc, ◌+◌, List, [], ◌∷◌, Bool, true, false, ◌||◌, set, get_elem?, replicate, Run, ok,
  fault, exited, or_fail, ◌>>=◌, if◌then◌else◌, ltb,
}
use lazyserver.Base.Int.{ℤ, pos, negsuc, eq_ℤ, ◌+ℤ◌}
use lazyserver.SockComm.{Answer, SlotTable, poll_add, open_socket, bind, listen, accept}
use lazyserver.SockComm.Select.{Opening}

-- OPEN_MAX, the number of slots.
abbrev pub open_max : ℕ
open_max = 1024

-- POLLRDNORM and POLLERR in the `revents` of a slot.
pub record Revents : Type 0 where
  pub rdnorm : Bool
  pub err : Bool

-- The local variables of the loop; the slot 0 is that of the listening descriptor.
pub record PollServer : Type 0 where
  pub listen_fd : ℕ
  pub table : SlotTable

pub start_poll : Opening → Run PollServer
start_poll a = do
  fd ← open_socket a.socket
  _ ← bind a.bound
  _ ← listen a.listening
  ok (record {
    listen_fd = fd;
    table = record { client = set (replicate open_max (negsuc 0)) 0 (pos fd); max_index = 0 };
  })

-- What `poll` gives, which is not looked at for failure, and what stands in the `revents` after it; what
-- `accept` gives; and whether `errno` is ECONNRESET when the loop is at a slot.
pub record PollRound : Type 0 where
  pub ready : ℤ
  pub revents : ℕ → Revents
  pub accepting : List (Answer ℕ)
  pub reset : ℕ → Bool

-- The `for` over `count` slots from i on. Its `nReadBytes` is always -1.
pub scan : PollRound → ℕ → ℕ → ℤ → List ℤ → Run (List ℤ)
scan r zero i ready client = ok client
scan r (suc count) i ready client = or_fail fault (get_elem? client i) >>= λ fd. elim fd [
  | negsuc n ↦ scan r count (i + 1) ready client
  | pos fd ↦
      let skip = scan r count (i + 1) ready client in
      let left = ready +ℤ negsuc 0 in
      let closed = set client i (negsuc 0) in
      let next = scan r count (i + 1) left closed in
      let handle : Run (List ℤ) =
        if r.reset i then (if eq_ℤ left (pos 0) then ok closed else next) else exited in
      if (r.revents i).rdnorm || (r.revents i).err then handle else skip
]

pub scan_all : PollRound → ℤ → PollServer → Run PollServer
scan_all r ready s = do
  client ← scan r (s.table.max_index + 1) 0 ready s.table.client
  ok (record s { table = record s.table { client = client } })

-- A new connection; with all slots taken it is closed again.
pub arrive : PollRound → ℕ → PollServer → Run PollServer
arrive r conn_fd s =
    let s' : PollServer = record s { table = poll_add s.table conn_fd } in
    let left = r.ready +ℤ negsuc 0 in if eq_ℤ left (pos 0) then ok s' else scan_all r left s'

-- `poll` reads and writes as many slots as it is told of.
pub poll_round : PollRound → PollServer → Run PollServer
poll_round r s =
    let arrival : Run PollServer = (do
      (conn_fd, answers) ← accept r.accepting
      arrive r conn_fd s) in
    let polled : Run PollServer = if (r.revents 0).rdnorm then arrival else scan_all r r.ready s in
    if ltb open_max (s.table.max_index + 1) then fault else polled

-- The loop has no end but `exit`: the state after these rounds.
pub poll_rounds : List PollRound → PollServer → Run PollServer
poll_rounds [] s = ok s
poll_rounds (r ∷ rounds) s = do s' ← poll_round r s; poll_rounds rounds s'
