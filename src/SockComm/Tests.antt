-- ===== src/SockComm/Tests.antt =====
-- The wrappers on concrete answers of the system.
use lazyserver.Base.{
  ◌++◌, map, exited, inl, inr, ◌∙◌, ℕ, zero, suc, ◌≡◌, ◌≤◌, ◌<◌, refl, List, [], ◌∷◌, length,
  get_or, set, replicate, length-replicate, true, false, ap, Ends, fault, arith, ok,
}
use lazyserver.Base.Int.{ℤ, pos, negsuc}
use lazyserver.SockComm.{
  first_free, eintr, econnaborted, other, Answer, value, error, accept, read_n, write_n,
}
use lazyserver.SockComm.Streams.{
  Delivers, Takes, read_n-Delivers, write_n-Takes, IsTransient, accept_correct,
}
use lazyserver.SockComm.Slots.{IsUsed, IsFull, free_unused}
use lazyserver.SockComm.Select.{fd_setsize, SelectServer, select_round, select_rounds}
use lazyserver.SockComm.Select.Serve.{waiting}
use lazyserver.SockComm.Select.Rounds.{
  IsWatched, IsServing, select_rounds-IsServing, select_round-serves, select_round-large,
  new_server-IsServing, free_slots,
}
use lazyserver.SockComm.Poll.{open_max, PollServer, PollRound, poll_round, poll_rounds}
use lazyserver.SockComm.Poll.Rounds.{
  IsPolling, poll_round-IsPolling, poll_rounds-full, poll_round-listening, new_table-IsPolling,
}

-- "ab", an interruption, "c", and a byte that is not asked for.
abbrev arriving : List (Answer (List ℕ))
arriving = value (b'a' ∷ b'b' ∷ []) ∷ error eintr ∷ value (b'c' ∷ []) ∷ value (b'd' ∷ []) ∷ []

arriving-Delivers : Delivers 3 arriving (b'a' ∷ b'b' ∷ b'c' ∷ []) (value (b'd' ∷ []) ∷ [])
arriving-Delivers =
    Delivers.part b'a' (b'b' ∷ []) (Delivers.interrupted (Delivers.part b'c' [] Delivers.full))

other-fatal : IsTransient (other 24) → ⊥
other-fatal (inl e) = cc
other-fatal (inr e) = cc

accept_correct_example :
    (accept (map error (econnaborted ∷ eintr ∷ []) ++ (value 7 ∷ [])) ≡ ok (7, []))
    × (accept (map error (econnaborted ∷ eintr ∷ []) ++ (error (other 24) ∷ [])) ≡ exited)
accept_correct_example =
    accept_correct (econnaborted ∷ eintr ∷ []) [] 7 (other 24) (inr refl, (inl refl, tt))
      other-fatal

read_n-Delivers_example :
    read_n arriving (pos 3) ≡ ok (pos 3, b'a' ∷ b'b' ∷ b'c' ∷ [], value (b'd' ∷ []) ∷ [])
read_n-Delivers_example = read_n-Delivers arriving-Delivers

-- The stream ends after one byte of three.
short_read : read_n (value (b'a' ∷ []) ∷ value [] ∷ []) (pos 3) ≡ ok (pos 1, b'a' ∷ [], [])
short_read = read_n-Delivers (Delivers.part b'a' [] (Delivers.ended {n = 1}))

write_n-Takes_example :
    write_n (value 2 ∷ error eintr ∷ value 1 ∷ []) (pos 3) (b'a' ∷ b'b' ∷ b'c' ∷ [])
    ≡ ok (pos 3, b'a' ∷ b'b' ∷ b'c' ∷ [], [])
write_n-Takes_example =
    write_n-Takes (Takes.part b'a' (b'b' ∷ []) (Takes.interrupted (Takes.part b'c' [] Takes.all)))

-- A table of n clients, and one with a client in front.
abbrev full_table : ℕ → List ℤ
full_table n = replicate n (pos 5)

full_table-IsUsed : (n i : ℕ) → i < n → IsUsed (full_table n) i
full_table-IsUsed zero i h = absurd (omega arith)
full_table-IsUsed (suc n) zero h = (5, refl)
full_table-IsUsed (suc n) (suc i) h = full_table-IsUsed n i (omega arith)

used_in_table : (n i fd : ℕ) → get_or (full_table n) i (negsuc 0) ≡ pos fd → i < n
used_in_table zero i fd e = absurd (cc e)
used_in_table (suc n) zero fd e = omega arith
used_in_table (suc n) (suc i) fd e = omega (arith, used_in_table n i fd e)

full_table-IsFull : (n : ℕ) → IsFull (full_table n)
full_table-IsFull n i h = full_table-IsUsed n i (omega (arith, length-replicate n (pos 5)))

-- A `PollServer` with no client, and one with all slots taken.
abbrev idle : PollServer
idle = record {
  listen_fd = 3;
  table = record { client = set (replicate open_max (negsuc 0)) 0 (pos 3); max_index = 0 };
}

abbrev crowded : PollServer
crowded = record {
  listen_fd = 5;
  table = record { client = full_table open_max; max_index = 1023 };
}

full_table-IsPolling :
    (n fd : ℕ)
    → suc n ≡ open_max
    → IsPolling
        (record { listen_fd = fd; table = record { client = full_table (suc n); max_index = n } })
full_table-IsPolling n fd e =
    let slots : length (full_table (suc n)) ≡ suc n = length-replicate (suc n) (pos 5) in
    record {
      slots = slots ∙ e;
      valid = record {
        inside = omega (arith, slots);
        covers = λ i (q, used). omega (arith, used_in_table (suc n) i q used);
      };
    }

idle-free : first_free idle.table.client < open_max
unfolding first_free
idle-free = omega arith

-- One connection, or a connection and one more event.
abbrev arrival : ℤ → PollRound
arrival ready = record {
  ready = ready;
  revents = λ i. record { rdnorm = true; err = false };
  accepting = error eintr ∷ value 7 ∷ [];
  reset = λ i. true;
}

arrival-connection : accept (arrival (pos 1)).accepting ≡ ok (7, [])
unfolding accept
arrival-connection = refl

poll_round-IsPolling_example : Ends IsPolling (poll_round (arrival (pos 2)) idle)
poll_round-IsPolling_example =
    poll_round-IsPolling (arrival (pos 2)) idle idle-free (new_table-IsPolling open_max 3 refl)

poll_rounds-full_example : poll_rounds (arrival (pos 1) ∷ arrival (pos 2) ∷ []) crowded ≡ fault
poll_rounds-full_example =
    poll_rounds-full (arrival (pos 1)) (arrival (pos 2)) [] crowded 7 []
      (full_table-IsPolling 1023 5 refl) (full_table-IsFull open_max) refl refl arrival-connection

poll_round-listening_example :
    Ends (λ s'. get_or s'.table.client 0 (negsuc 0) ≡ negsuc 0) (poll_round (arrival (pos 2)) idle)
poll_round-listening_example =
    poll_round-listening (arrival (pos 2)) idle 7 0 [] (new_table-IsPolling open_max 3 refl)
      idle-free refl refl refl arrival-connection

-- A `SelectServer` without clients, and one with the client 7 in its first slot.
abbrev no_clients : SelectServer
no_clients = record {
  listen_fd = 3;
  table = record { client = replicate fd_setsize (negsuc 0); max_index = 0 };
  read_set = 3 ∷ [];
  max_fd = 3;
  served = [];
}

no_clients-IsServing : IsServing no_clients
no_clients-IsServing = new_server-IsServing fd_setsize 3 refl (omega arith)

no_clients-free : first_free no_clients.table.client < fd_setsize
unfolding first_free
no_clients-free = omega arith

abbrev one_client : SelectServer
one_client = record {
  listen_fd = 3;
  table = record { client = pos 7 ∷ replicate 1023 (negsuc 0); max_index = 0 };
  read_set = 7 ∷ 3 ∷ [];
  max_fd = 7;
  served = 7 ∷ [];
}

one_client-IsServing : IsServing one_client
one_client-IsServing = record {
  slots = ap suc (length-replicate 1023 (negsuc 0));
  valid = record { inside = omega arith; covers = λ i (q, used). covered 1023 i q used };
  clients = (
    record { low = omega arith; asked = refl; below = omega arith },
    free_slots (IsWatched (7 ∷ 3 ∷ []) 7) 1023,
  );
  listening = record { low = omega arith; asked = refl; below = omega arith };
}
  where
    covered : (n i fd : ℕ) → get_or (pos 7 ∷ replicate n (negsuc 0)) i (negsuc 0) ≡ pos fd → i ≤ 0
    covered n zero fd e = omega arith
    covered n (suc i) fd e = absurd (free_unused n i fd e)

one_waits : (n : ℕ) → length (waiting (7 ∷ []) (replicate n (negsuc 0))) ≡ 0
one_waits zero = refl
one_waits (suc n) = one_waits n

-- An interruption, a connection, and a round in which that client is ready.
select_rounds-IsServing_example : Ends IsServing (
    select_rounds
      (record { ready = error eintr; accepting = [] }
        ∷ record { ready = value (1, 3 ∷ []); accepting = value 7 ∷ [] }
        ∷ record { ready = value (1, 7 ∷ []); accepting = [] }
        ∷ [])
      no_clients)
select_rounds-IsServing_example =
    select_rounds-IsServing _ no_clients (tt, (((omega arith, tt), (tt, tt)))) no_clients-IsServing

select_round-serves_example :
    select_round (record { ready = value (1, 7 ∷ []); accepting = [] }) one_client
    ≡ ok (record one_client { served = 7 ∷ waiting (7 ∷ []) one_client.table.client })
select_round-serves_example =
    select_round-serves 1 (7 ∷ []) [] one_client one_client-IsServing refl (omega arith)
      (ap suc (one_waits 1023))

select_round-large_example :
    select_round (record { ready = value (1, 3 ∷ []); accepting = value 1024 ∷ [] }) no_clients
    ≡ fault
select_round-large_example =
    select_round-large 1 (3 ∷ []) 1024 [] no_clients no_clients-IsServing refl (omega arith)
      no_clients-free (omega arith)
