-- ===== src/SockComm/Poll/Rounds.antt =====
-- `PollServer` over its rounds: when its table stays valid, and how it stops to listen or leaves it.
use lazyserver.Base.{
  ℕ, suc, ◌+◌, ◌<◌, ◌≡◌, inl, inr, refl, sym, ◌∙◌, List, [], ◌∷◌, true, false, length, set,
  length-set, replicate, length-replicate, yields, get_or, arith, ok, fault, Yields, Ends, returns,
  exits, blocks, Ends-then, Ends-test, ltb,
}
use lazyserver.Base.Int.{ℤ, pos, negsuc, eq_ℤ, ◌+ℤ◌}
use lazyserver.SockComm.{
  SlotTable, Answer, value, error, eintr, econnaborted, first_free, open_socket, bind, listen,
  poll_add, accept,
}
use lazyserver.SockComm.Slots.{IsValid, IsFull, get_or-set_other, poll_add-IsValid, poll_add-full}
use lazyserver.SockComm.Poll.{
  start_poll, open_max, PollServer, PollRound, scan, scan_all, arrive, poll_round, poll_rounds,
}
use lazyserver.SockComm.Select.{Opening}
use lazyserver.SockComm.Poll.Scan.{negsuc_pos, scan-Freed, scan-first}
use lazyserver.SockComm.Slots.{free_unused}

-- The table has OPEN_MAX slots and its greatest index covers the connections.
pub record IsPolling (s : PollServer) : Type 0 where
  pub slots : length s.table.client ≡ open_max
  pub valid : IsValid s.table

scan_all-IsPolling :
    (r : PollRound) (ready : ℤ) (s : PollServer) → IsPolling s → Ends IsPolling (scan_all r ready s)
unfolding scan_all
scan_all-IsPolling r ready s v =
    Ends-then
      (scan-Freed r (s.table.max_index + 1) 0 ready s.table.client (omega (arith, v.valid.inside)))
      λ client e f. returns (record {
        slots = f.slots ∙ v.slots;
        valid = record {
          inside = omega (arith, v.valid.inside, f.slots);
          covers = λ i used. v.valid.covers i (f.left i used);
        };
      })

accept-Ends : (answers : List (Answer ℕ)) → Ends (λ out. Unit {0}) (accept answers)
unfolding accept
accept-Ends [] = blocks
accept-Ends (value fd ∷ answers) = returns tt
accept-Ends (error econnaborted ∷ answers) = accept-Ends answers
accept-Ends (error eintr ∷ answers) = accept-Ends answers
accept-Ends (error _ ∷ answers) = exits

poll_add-slots : (t : SlotTable) (fd : ℕ) → length (poll_add t fd).client ≡ length t.client
unfolding poll_add
poll_add-slots t fd = length-set t.client (first_free t.client) (pos fd)

added-IsPolling :
    (s : PollServer) (fd : ℕ)
    → first_free s.table.client < open_max
    → IsPolling s
    → IsPolling (record s { table = poll_add s.table fd })
added-IsPolling s fd free v = record {
  slots = poll_add-slots s.table fd ∙ v.slots;
  valid = (poll_add-IsValid s.table fd v.valid (omega (arith, v.slots))).0;
}

arrive-IsPolling :
    (r : PollRound) (fd : ℕ) (s : PollServer)
    → first_free s.table.client < open_max
    → IsPolling s
    → Ends IsPolling (arrive r fd s)
unfolding arrive
arrive-IsPolling r fd s free v =
    let next = added-IsPolling s fd free v in
    Ends-test (eq_ℤ (r.ready +ℤ negsuc 0) (pos 0)) (λ last. returns next)
      λ more. scan_all-IsPolling r (r.ready +ℤ negsuc 0) _ next

told : (s : PollServer) → IsPolling s → ltb open_max (s.table.max_index + 1) ≡ false
told s v = let inside = v.valid.inside in ground (arith, inside, v.slots)

-- A round of `PollServer` with a free slot leaves no array: where it returns, the table is valid, so
-- that the loop looks at every connection. Else it exits by `exit` or waits for the system.
pub poll_round-IsPolling :
    (r : PollRound) (s : PollServer)
    → first_free s.table.client < open_max
    → IsPolling s
    → Ends IsPolling (poll_round r s)
unfolding poll_round
poll_round-IsPolling r s free v = rw (told s v) (
    Ends-test (r.revents 0).rdnorm
      (λ arrival.
        Ends-then (accept-Ends r.accepting) λ (fd, answers) e u. arrive-IsPolling r fd s free v)
      λ none_new. scan_all-IsPolling r r.ready s v)

-- Where all slots are taken, and a round brings a connection and nothing else, the next round tells
-- `poll` of one slot more than there is, whatever it brings.
pub poll_rounds-full :
    (r next : PollRound) (rounds : List PollRound) (s : PollServer) (fd : ℕ)
    (answers : List (Answer ℕ))
    → IsPolling s
    → IsFull s.table.client
    → (r.revents 0).rdnorm ≡ true
    → r.ready ≡ pos 1
    → accept r.accepting ≡ ok (fd, answers)
    → poll_rounds (r ∷ next ∷ rounds) s ≡ fault
unfolding poll_rounds poll_round arrive ◌+ℤ◌
poll_rounds-full r next rounds s fd answers v full arrival one connection =
    let after = poll_add-full s.table fd v.valid full in
    let over : ltb open_max ((poll_add s.table fd).max_index + 1) ≡ true =
      ground (arith, after.1, v.slots) in
    rw (told s v, arrival, connection, one, over) refl

scan_all-first :
    (r : PollRound) (ready : ℤ) (s : PollServer) (fd : ℕ)
    → IsPolling s
    → get_or s.table.client 0 (negsuc 0) ≡ pos fd
    → (r.revents 0).rdnorm ≡ true
    → Ends (λ s'. get_or s'.table.client 0 (negsuc 0) ≡ negsuc 0) (scan_all r ready s)
unfolding scan_all
scan_all-first r ready s fd v used event =
    let count : s.table.max_index + 1 ≡ suc s.table.max_index = omega arith in
    let ends : Ends (λ out. get_or out 0 (negsuc 0) ≡ negsuc 0)
        (scan r (s.table.max_index + 1) 0 ready s.table.client) =
      rw count (
        scan-first r s.table.max_index ready s.table.client fd (omega (arith, v.valid.inside)) used
          event) in
    Ends-then ends λ client e freed. returns freed

-- The first free slot is not a slot that is used.
set-first_free :
    (client : List ℤ) (new : ℤ) (fd : ℕ)
    → get_or client 0 (negsuc 0) ≡ pos fd
    → get_or (set client (first_free client) new) 0 (negsuc 0) ≡ pos fd
unfolding first_free
set-first_free [] new fd used = used
set-first_free (negsuc n ∷ rest) new fd used = absurd (negsuc_pos n fd used)
set-first_free (pos old ∷ rest) new fd used = used

poll_add-other :
    (t : SlotTable) (new fd : ℕ)
    → get_or t.client 0 (negsuc 0) ≡ pos fd
    → get_or (poll_add t new).client 0 (negsuc 0) ≡ pos fd
unfolding poll_add
poll_add-other t new fd used = set-first_free t.client (pos new) fd used

several_left : (more : ℕ) → eq_ℤ (pos (suc (suc more)) +ℤ negsuc 0) (pos 0) ≡ false
unfolding ◌+ℤ◌
several_left more = ground arith

-- In a round that brings a connection, for which there is a free slot, and another event, the loop
-- also takes the slot 0 of the listening descriptor for that of a client: where the round returns,
-- that slot has been freed and the server listens no more. Else it exits by `exit` or waits.
pub poll_round-listening :
    (r : PollRound) (s : PollServer) (fd more : ℕ) (answers : List (Answer ℕ))
    → IsPolling s
    → first_free s.table.client < open_max
    → get_or s.table.client 0 (negsuc 0) ≡ pos s.listen_fd
    → (r.revents 0).rdnorm ≡ true
    → r.ready ≡ pos (suc (suc more))
    → accept r.accepting ≡ ok (fd, answers)
    → Ends (λ s'. get_or s'.table.client 0 (negsuc 0) ≡ negsuc 0) (poll_round r s)
unfolding poll_round arrive
poll_round-listening r s fd more answers v free listening arrival several connection =
    let goes_on : eq_ℤ (r.ready +ℤ negsuc 0) (pos 0) ≡ false = rw several (several_left more) in
    rw (told s v, arrival, connection, goes_on)
      (scan_all-first r (r.ready +ℤ negsuc 0) (record s { table = poll_add s.table fd }) s.listen_fd
        (added-IsPolling s fd free v) (poll_add-other s.table fd s.listen_fd listening) arrival)

-- A new table, with the listening descriptor in its slot 0.
pub new_table-IsPolling :
    (n fd : ℕ)
    → n ≡ open_max
    → IsPolling (record {
      listen_fd = fd;
      table = record { client = set (replicate n (negsuc 0)) 0 (pos fd); max_index = 0 };
    })
new_table-IsPolling n fd e =
    let slots =
      length-set (replicate n (negsuc 0)) 0 (pos fd) ∙ (length-replicate n (negsuc 0) ∙ e) in
    record {
      slots = slots;
      valid = record {
        inside = omega (arith, slots);
        covers = λ i (q, used). elim (get_or-set_other (replicate n (negsuc 0)) 0 i (pos fd)) [
          | inl same ↦ absurd (free_unused n i q (sym same ∙ used))
          | inr (first, lt) ↦ omega (arith, first)
        ];
      };
    }

-- The calls before the loop, where they succeed, make such a server.
pub start_poll-IsPolling :
    (a : Opening) (fd ret code : ℕ)
    → a.socket ≡ value fd
    → a.bound ≡ value ret
    → a.listening ≡ value code
    → Yields IsPolling (start_poll a)
unfolding start_poll open_socket bind listen
start_poll-IsPolling a fd ret code e f g =
    rw (e, f, g) (yields (new_table-IsPolling open_max fd refl))
