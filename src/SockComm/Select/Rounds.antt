-- ===== src/SockComm/Select/Rounds.antt =====
-- `SelectServer` over any number of rounds: its variables fit together, and each ready client is served.
use lazyserver.Base.{
  ℕ, zero, suc, ◌+◌, ◌-◌, ◌≤◌, ◌<◌, ◌≡◌, inl, inr, refl, ap, sym, ◌∙◌, List, [], ◌∷◌, ◌++◌,
  Bool-cases, true, false, length, set, length-set, replicate, length-replicate, take, arith, ok,
  fault, Yields, yields, Yields-then, Yields-test, Yields-Ends, Ends, returns, exits, blocks,
  Ends-then, Ends-test, ltb, leb, ◌==◌, if◌then◌else◌,
}
use mathlib.Core.Path.{subst}
use lazyserver.Base.Int.{ℤ, pos, negsuc}
use lazyserver.SockComm.{
  Answer, value, error, eintr, econnaborted, SlotTable, first_free, select_add, accept, open_socket,
  bind, listen,
}
use lazyserver.Base.Predicates.{All, All-weaken}
use lazyserver.SockComm.Slots.{IsValid, select_add_correct}
use lazyserver.SockComm.Select.{
  fd_setsize, member, fd_set, SelectServer, SelectRound, serve_all, admit, after_select,
  select_round, select_rounds, Opening, start_select,
}
use lazyserver.SockComm.Select.Serve.{
  waiting, OfClient, IsLow, fd_isset-ok, serve_lem, serve-Yields, waiting-take,
}
use lazyserver.SockComm.Slots.{free_unused}

All-set : (P : ℤ → Type 0) (xs : List ℤ) (i : ℕ) (x : ℤ) → All P xs → P x → All P (set xs i x)
All-set P [] i x h p = tt
All-set P (y ∷ xs) zero x h p = (p, h.1)
All-set P (y ∷ xs) (suc i) x h p = (h.0, All-set P xs i x h.1 p)

-- A descriptor is asked for by `select`.
pub record IsWatched (read_set : List ℕ) (max_fd fd : ℕ) : Type 0 where
  pub low : IsLow fd
  pub asked : member fd read_set ≡ true
  pub below : fd ≤ max_fd

-- The table has FD_SETSIZE slots and its greatest index covers the clients; each client and the
-- listening descriptor are asked for.
pub record IsServing (s : SelectServer) : Type 0 where
  pub slots : length s.table.client ≡ fd_setsize
  pub valid : IsValid s.table
  pub clients : All (OfClient (IsWatched s.read_set s.max_fd)) s.table.client
  pub listening : IsWatched s.read_set s.max_fd s.listen_fd

OfClient-weaken :
    {P Q : ℕ → Type 0} → ((fd : ℕ) → P fd → Q fd) → (c : ℤ) → OfClient P c → OfClient Q c
OfClient-weaken f (pos fd) p = f fd p
OfClient-weaken f (negsuc n) p = tt

clients-IsLow : (s : SelectServer) → IsServing s → All (OfClient IsLow) s.table.client
clients-IsLow s v =
    All-weaken (OfClient (IsWatched s.read_set s.max_fd)) (OfClient-weaken λ fd w. w.low)
      s.table.client v.clients

inside : (s : SelectServer) → IsServing s → s.table.max_index + 1 ≤ length s.table.client
inside s v = omega (arith, v.valid.inside)

serve_all-IsServing :
    (ready : ℕ) (rset : List ℕ) (s : SelectServer)
    → IsServing s
    → Yields IsServing (serve_all ready rset s)
unfolding serve_all
serve_all-IsServing ready rset s v =
    Yields-then
      (serve-Yields (s.table.max_index + 1) 0 ready rset s.table.client s.table.client refl
        (inside s v) (clients-IsLow s v))
      λ fds u.
        yields (record {
          slots = v.slots;
          valid = v.valid;
          clients = v.clients;
          listening = v.listening;
        })

select_add-client :
    (t : SlotTable) (fd : ℕ)
    → first_free t.client < length t.client
    → (select_add t fd).client ≡ set t.client (first_free t.client) (pos fd)
unfolding select_add
select_add-client t fd h =
    let free : leb (length t.client) (first_free t.client) ≡ false = ground arith in rw free refl

-- What was asked for before is asked for still, and the new descriptor too.
IsWatched-more :
    (set : List ℕ) (max_fd conn_fd fd : ℕ)
    → IsWatched set max_fd fd
    → IsWatched (conn_fd ∷ set) (if ltb max_fd conn_fd then conn_fd else max_fd) fd
IsWatched-more set max_fd conn_fd fd w = record {
  low = w.low;
  asked = elim (Bool-cases (conn_fd == fd)) [ inl e ↦ rw e refl | inr e ↦ rw (e, w.asked) refl ];
  below = ground (arith, w.below);
}

IsWatched-new :
    (set : List ℕ) (max_fd conn_fd : ℕ)
    → IsLow conn_fd
    → IsWatched (conn_fd ∷ set) (if ltb max_fd conn_fd then conn_fd else max_fd) conn_fd
IsWatched-new set max_fd conn_fd low =
    let same : (conn_fd == conn_fd) ≡ true = ground arith in
    record { low = low; asked = rw same refl; below = ground arith }

admitted :
    (conn_fd : ℕ) (s : SelectServer)
    → IsLow conn_fd
    → first_free s.table.client < fd_setsize
    → IsServing s
    → IsServing (record s {
      table = select_add s.table conn_fd;
      read_set = conn_fd ∷ s.read_set;
      max_fd = if ltb s.max_fd conn_fd then conn_fd else s.max_fd;
    })
admitted conn_fd s low free v =
    let i = first_free s.table.client in
    let client = select_add-client s.table conn_fd (omega (arith, v.slots)) in
    let more = IsWatched-more s.read_set s.max_fd conn_fd in
    let new = IsWatched-new s.read_set s.max_fd conn_fd low in
    let P =
      OfClient
        (IsWatched (conn_fd ∷ s.read_set) (if ltb s.max_fd conn_fd then conn_fd else s.max_fd)) in
    record {
      slots = ap length client ∙ (length-set s.table.client i (pos conn_fd) ∙ v.slots);
      valid = (select_add_correct s.table conn_fd v.valid).0;
      clients = subst (All P) (sym client) (
          All-set P s.table.client i (pos conn_fd)
            (All-weaken (OfClient (IsWatched s.read_set s.max_fd)) (OfClient-weaken more)
              s.table.client v.clients)
            new);
      listening = more s.listen_fd v.listening;
    }

admit-IsServing :
    (conn_fd ready : ℕ) (rset : List ℕ) (s : SelectServer)
    → IsLow conn_fd
    → IsServing s
    → Yields IsServing (admit conn_fd ready rset s)
unfolding admit fd_set
admit-IsServing conn_fd ready rset s low v =
    Yields-test (leb fd_setsize (first_free s.table.client)) (λ full. yields v)
      λ free.
        let fits : ltb conn_fd fd_setsize ≡ true = ground (arith, low) in
        let next = admitted conn_fd s low (ground (arith, free)) v in
        rw fits (
          Yields-test (ready - 1 == 0) (λ last. yields next)
            λ more. serve_all-IsServing (ready - 1) rset _ next)

-- The system gives descriptors that fit into an fd_set.
abbrev pub GivesLow : List (Answer ℕ) → Type 0
GivesLow [] = Unit
GivesLow (value fd ∷ answers) = IsLow fd × GivesLow answers
GivesLow (error e ∷ answers) = GivesLow answers

accept-Ends :
    (answers : List (Answer ℕ)) → GivesLow answers → Ends (λ out. IsLow out.0) (accept answers)
unfolding accept
accept-Ends [] low = blocks
accept-Ends (value fd ∷ answers) low = returns low.0
accept-Ends (error econnaborted ∷ answers) low = accept-Ends answers low
accept-Ends (error eintr ∷ answers) low = accept-Ends answers low
accept-Ends (error _ ∷ answers) low = exits

after_select-Ends :
    (ready : Answer (ℕ × List ℕ)) (accepting : List (Answer ℕ)) (s : SelectServer)
    → GivesLow accepting
    → IsServing s
    → Ends IsServing (after_select ready accepting s)
unfolding after_select
after_select-Ends (error eintr) accepting s low v = returns v
after_select-Ends (error _) accepting s low v = exits
after_select-Ends (value (ready, rset)) accepting s low v =
    Ends-test (ready == 0) (λ timeout. returns v)
      λ some_ready. rw (fd_isset-ok s.listen_fd rset v.listening.low) (
        Ends-test (member s.listen_fd rset)
          (λ arrival.
            Ends-then (accept-Ends accepting low)
              λ (fd, answers) e h. Yields-Ends (admit-IsServing fd ready rset s h v))
          λ none_new. Yields-Ends (serve_all-IsServing ready rset s v))

-- `SelectServer`, on a system that gives descriptors below FD_SETSIZE: whatever the rounds bring, no
-- slot and no fd_set is left, and where the rounds return, every client stands in a slot that the loop
-- looks at, and every client and the listening descriptor are among those that `select` is asked for.
-- Else it exits by `exit` or waits for the system.
pub select_rounds-IsServing :
    (rounds : List SelectRound) (s : SelectServer)
    → All (λ r. GivesLow r.accepting) rounds
    → IsServing s
    → Ends IsServing (select_rounds rounds s)
unfolding select_rounds select_round
select_rounds-IsServing [] s low v = returns v
select_rounds-IsServing (r ∷ rounds) s low v =
    Ends-then (after_select-Ends r.ready r.accepting s low.0 v)
      λ s' e v'. select_rounds-IsServing rounds s' low.1 v'

-- No slot is used.
pub free_slots : (P : ℕ → Type 0) (n : ℕ) → All (OfClient P) (replicate n (negsuc 0))
free_slots P zero = tt
free_slots P (suc n) = (tt, free_slots P n)

pub new_server-IsServing :
    (n fd : ℕ)
    → n ≡ fd_setsize
    → IsLow fd
    → IsServing (record {
      listen_fd = fd;
      table = record { client = replicate n (negsuc 0); max_index = 0 };
      read_set = fd ∷ [];
      max_fd = fd;
      served = [];
    })
new_server-IsServing n fd e low =
    let same : (fd == fd) ≡ true = ground arith in
    record {
      slots = length-replicate n (negsuc 0) ∙ e;
      valid = record {
        inside = omega (arith, length-replicate n (negsuc 0), e);
        covers = λ i (q, used). absurd (free_unused n i q used);
      };
      clients = free_slots (IsWatched (fd ∷ []) fd) n;
      listening = record { low = low; asked = rw same refl; below = omega arith };
    }

-- The calls before the loop, where they succeed with a descriptor below FD_SETSIZE, make such a server.
pub start_select-IsServing :
    (a : Opening) (fd ret code : ℕ)
    → IsLow fd
    → a.socket ≡ value fd
    → a.bound ≡ value ret
    → a.listening ≡ value code
    → Yields IsServing (start_select a)
unfolding start_select fd_set open_socket bind listen
start_select-IsServing a fd ret code low e f g =
    let fits : ltb fd fd_setsize ≡ true = ground arith in
    rw (e, f, g, fits) (yields (new_server-IsServing fd_setsize fd refl low))

-- A round without a new connection, where `select` gives as many ready descriptors as there are: each
-- client that is ready is served, once and in the order of the slots, and no other.
pub select_round-serves :
    (ready : ℕ) (rset : List ℕ) (accepting : List (Answer ℕ)) (s : SelectServer)
    → IsServing s
    → member s.listen_fd rset ≡ false
    → 0 < ready
    → length (waiting rset s.table.client) ≡ ready
    → select_round (record { ready = value (ready, rset); accepting = accepting }) s
      ≡ ok (record s { served = s.served ++ waiting rset s.table.client })
unfolding select_round after_select serve_all
select_round-serves ready rset accepting s v no_new some_ready all_ready =
    let k = s.table.max_index + 1 in
    let all : waiting rset (take k s.table.client) ≡ waiting rset s.table.client =
      waiting-take rset k s.table.client λ i used. omega (arith, v.valid.covers i used) in
    let few : length (waiting rset (take k s.table.client)) ≤ ready =
      omega (arith, ap (length {A = ℕ}) all) in
    let not_zero : (ready == 0) ≡ false = ground arith in
    let served =
      serve_lem k 0 ready rset s.table.client s.table.client refl (inside s v) (clients-IsLow s v)
        some_ready few in
    rw (not_zero, fd_isset-ok s.listen_fd rset v.listening.low, no_new, served, all) refl

-- A descriptor of FD_SETSIZE or more, which `accept` gives while a slot is free, is put into an fd_set
-- for which it is too large.
pub select_round-large :
    (ready : ℕ) (rset : List ℕ) (fd : ℕ) (answers : List (Answer ℕ)) (s : SelectServer)
    → IsServing s
    → member s.listen_fd rset ≡ true
    → 0 < ready
    → first_free s.table.client < fd_setsize
    → fd_setsize ≤ fd
    → select_round (record { ready = value (ready, rset); accepting = value fd ∷ answers }) s
      ≡ fault
unfolding select_round after_select accept admit fd_set
select_round-large ready rset fd answers s v arrival some_ready free large =
    let not_zero : (ready == 0) ≡ false = ground arith in
    let some_free : leb fd_setsize (first_free s.table.client) ≡ false = ground arith in
    let out : ltb fd fd_setsize ≡ false = ground arith in
    rw (not_zero, fd_isset-ok s.listen_fd rset v.listening.low, arrival, some_free, out) refl
