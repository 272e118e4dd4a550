-- ===== src/Reactor/Tests.antt =====
-- A reactor with a session that has received one buffer and sends another, and a new reactor.
use lazyserver.Base.{
  sym, ℕ, zero, suc, List, ◌<◌, ◌^◌, ◌≡◌, refl, [], ◌∷◌, length, replicate, length-replicate, arith,
  true, false, Option, some, none, ok, Yields, Ends, returns, ltb, if◌then◌else◌,
}
use lazyserver.Base.Int.{pos}
use mathlib.Core.Path.{subst}
use lazyserver.Heap.{HeapType, CompareFunc}
use lazyserver.Session.{Buffer, Buffers, EventHandler}
use lazyserver.Session.Store.{buffer_at}
use lazyserver.Session.Alloc.{IsShaped, IsValid}
use lazyserver.Timer
use lazyserver.Timer.Fire.{IsReady}
use lazyserver.Reactor.{epoll_add, find, World, Environment, SystemCall, SigHandler, log}
use lazyserver.Reactor.Receive.{bytes, would_block, finished, receive}
use lazyserver.Reactor.Receive.Stream.{
  Within, used_last, part, all_read, HasReceived, receive-HasReceived,
}
use lazyserver.Reactor.Flush.{IsFlushed, handle_write, handle_write-IsFlushed}
use lazyserver.Reactor.Outgoing.{
  Action, put_data, output, State, Queue, run, promises, Simulates, run-Implements,
}
use lazyserver.Reactor.Loop.{Event, Wait, failure, interrupted, ready, one_round, rounds, lazy_loop}
use lazyserver.Reactor.Setup.{
  create_reactor, register_sig, register_defaults, SetupAnswers, lazy_create_reactor, sigint,
  sighup,
}
use lazyserver.Reactor.Sound.{IsSound, IsTame}
use lazyserver.Reactor.Stop.{interrupt, rounds-interrupt}
use lazyserver.Reactor.Steady.{Returns, Follows, IsSteady}
use lazyserver.Reactor.Safety.{AllKnown, IsFair, lazy_loop-Ends}
use lazyserver.Reactor.Watched.{knows, registered}
use lazyserver.Reactor.Created.{
  IsCreated, lazy_create_reactor_correct, handler_of, register_sig-handler_of,
}

-- "hi", in a buffer of 1024 bytes.
abbrev greeting : Buffer
greeting = record { size = 2; buffer = b'h' ∷ b'i' ∷ replicate 1022 0 }

abbrev held : Buffers
held = record { store = greeting ∷ greeting ∷ []; buffer_list = []; all_buffer_list = 0 ∷ 1 ∷ [] }

greeting-IsShaped : IsShaped greeting
greeting-IsShaped = record {
  block = omega (arith, length-replicate {A = ℕ} 1022 0);
  counted = omega arith;
}

all_greetings : (p : ℕ) → p < 2 → greeting ≡ buffer_at held.store p
all_greetings zero h = refl
all_greetings (suc zero) h = refl
all_greetings (suc (suc p)) h = absurd (omega (arith, h))

held-IsValid : IsValid held (1 ∷ 0 ∷ [])
held-IsValid = record {
  shaped = λ p h. subst IsShaped (all_greetings p h) greeting-IsShaped;
  free = tt;
  live = (omega arith, (omega arith, tt));
  distinct = ((omega arith, tt), (tt, tt));
}

abbrev sending : EventHandler
sending = record { fd = pos 5; recv_buffer_list = 1 ∷ []; send_buffer_list = 0 ∷ [] }

handle_write-IsFlushed_example :
    Yields (IsFlushed held (1 ∷ []) sending sending.send_buffer_list []) (handle_write held sending)
handle_write-IsFlushed_example = handle_write-IsFlushed held (1 ∷ []) sending held-IsValid

-- A call of Write between two events EPOLLOUT.
abbrev talk : List Action
talk = output ∷ put_data (b'y' ∷ b'o' ∷ []) ∷ output ∷ []

abbrev start : State
start = record { buffers = held; session = sending; passed = [] }

abbrev queue : Queue
queue = record { waiting = b'h' ∷ b'i' ∷ []; left = [] }

run-Implements_example : Yields (Simulates (1 ∷ []) start (promises talk queue)) (run talk start)
run-Implements_example =
    run-Implements (1 ∷ []) talk start queue (omega arith, tt)
      (record { valid = held-IsValid; waiting = refl; left = refl })

abbrev receiving : EventHandler
receiving = record { fd = pos 5; recv_buffer_list = 0 ∷ []; send_buffer_list = [] }

receive-HasReceived_example :
    Yields
      (λ out. HasReceived held (1 ∷ []) receiving (b'y' ∷ b'o' ∷ []) out × (out.0 ≡ finished))
      (receive (bytes (b'y' ∷ b'o' ∷ []) ∷ would_block ∷ []) held receiving)
unfolding lazyserver.Session.last
receive-HasReceived_example =
    receive-HasReceived (1 ∷ []) held receiving (part b'y' (b'o' ∷ []) (omega arith) all_read) refl
      held-IsValid

abbrev sevens : ℕ → Option (List ℕ)
sevens n = if ltb n (2 ^ 61) then some (replicate n 7) else none

length-sevens : (n : ℕ) {a : List ℕ} → sevens n ≡ some a → length a ≡ n
length-sevens n e = ground (arith, length-replicate {A = ℕ} n 7)

sevens_bound : (n : ℕ) {a : List ℕ} → sevens n ≡ some a → n < 2 ^ 61
sevens_bound n e = ground arith

-- The users' handlers do nothing, and there is memory for any block.
abbrev environment : Environment
environment = record {
  on_session = λ k p w. ok w;
  on_signal = λ k sig w. ok w;
  on_timer = λ k p w. ok w;
  memory = record {
    new_array = sevens;
    length-new_array = length-sevens;
    new_array_bound = sevens_bound;
  };
  time = λ n i. pos 0;
}

quiet-IsTame : IsTame environment
quiet-IsTame = record {
  quiet = λ handler session w. refl;
  on_session_tame = λ k p w s a. returns (s, λ q alive. alive);
  on_signal_tame = λ k sig w s. returns (s, λ q alive. alive);
}

abbrev no_timers : Timer.World
no_timers = record {
  heap = record {
    heap_type = HeapType.small_heap;
    array = 7 ∷ 7 ∷ [];
    array_capacity = 2;
    array_size = 0;
    compare_func = CompareFunc.timer_compare;
  };
  timers =
      λ p. record { expire = pos 0; repeat = false; interval = pos 0; handler = 0; session = 0 };
  calls = [];
}

no_timers-IsReady : IsReady no_timers
no_timers-IsReady = record { valid = grind arith; small = refl; real = tt }

-- A running reactor with one session, registered with epoll, which listens nowhere.
abbrev running : World
running = record {
  base = create_reactor;
  buffers = held;
  sessions = (4, sending) ∷ [];
  next_session = 5;
  timers = no_timers;
  is_current = true;
  ticks = 0;
  calls = epoll_add (pos 5) 4 true ∷ [];
}

running-IsSound : IsSound running
running-IsSound = record {
  valid = held-IsValid;
  watched = record { watched = ((sending, refl, refl), tt); young = (omega arith, tt) };
  timed = no_timers-IsReady;
  current = refl;
}

-- The session receives "yo".
abbrev arrival : Event
arrival = record {
  pointer = some 4;
  input = true;
  output = true;
  error = false;
  accepted = pos 0;
  arriving = bytes (b'y' ∷ b'o' ∷ []) ∷ would_block ∷ [];
}

some-same : {A : Type 0} {x y : A} → some x ≡ some y → x ≡ y
some-same e = cc

arrival-IsFair : IsFair environment quiet-IsTame arrival (log running (SystemCall.alarm 1))
unfolding lazyserver.Session.last
arrival-IsFair p h e found =
    let at4 : find 4 running.sessions ≡ some h =
      subst (λ q. find q running.sessions ≡ some h) (sym (some-same e)) found in
    subst (λ g. Within (used_last held g.recv_buffer_list) arrival.arriving) (some-same at4)
      (omega arith, tt)

arrival-known : AllKnown environment quiet-IsTame (arrival ∷ []) (log running (SystemCall.alarm 1))
arrival-known = (
  λ p e.
      subst (λ q. knows (registered (log running (SystemCall.alarm 1)).calls) q ≡ true)
        (some-same e) refl,
  tt,
)

lazy_loop-Ends_example :
    Ends
      (λ w'. IsSound w' × (w'.base.stop_server_flag ≡ true))
      (lazy_loop environment (ready (arrival ∷ []) ∷ interrupted ∷ []) running)
lazy_loop-Ends_example =
    lazy_loop-Ends environment quiet-IsTame (ready (arrival ∷ []) ∷ interrupted ∷ []) running
      running-IsSound
      (
        (omega arith, arrival-known, (tt, tt), (arrival-IsFair, λ w' e. tt)),
        λ w' e. (tt, λ w2 e2. tt),
      )

abbrev answers : SetupAnswers
answers = record {
  socket = pos 3;
  bind = pos 0;
  listen = pos 0;
  epoll_create = pos 4;
  socketpair = some (pos 5, pos 6);
}

lazy_create_reactor_correct_example :
    Yields
      (IsCreated running answers (pos 5) (pos 6))
      (lazy_create_reactor environment answers running)
lazy_create_reactor_correct_example =
    lazy_create_reactor_correct environment answers running {block = 7 ∷ 7 ∷ []} refl held-IsValid
      running-IsSound.watched

-- A second handler for SIGHUP has no effect.
register_sig-handler_of_example :
    handler_of (register_sig sighup (SigHandler.user_sig 1) (register_defaults running)) sighup
    ≡ some SigHandler.default_sighup
unfolding register_defaults register_sig lazyserver.Reactor.Setup.addsig
    lazyserver.Reactor.Setup.insert_sig lazyserver.Reactor.Setup.insert_absent
    lazyserver.Reactor.Loop.find_sig create_reactor
register_sig-handler_of_example =
    register_sig-handler_of sighup sighup (SigHandler.user_sig 1) (register_defaults running)

-- The session at 4 is that of the pipe.
abbrev signalled : World
signalled = record running {
  base = record create_reactor {
    listen_fd = pos 3;
    pipe_read = pos 5;
    sig_handler_map = (sigint, SigHandler.default_sigint) ∷ [];
  };
}

steady_ok : (w : World) → Returns (λ w'. Follows w.base w'.base) (ok w)
steady_ok w = Returns.returns (record { catches = λ c. c; stops = λ t. t })

environment-IsSteady : IsSteady environment
environment-IsSteady = record {
  on_session_steady = λ k p w. steady_ok w;
  on_signal_steady = λ k sig w. steady_ok w;
}

abbrev nothing_more : Event
nothing_more = record {
  pointer = none;
  input = true;
  output = false;
  error = false;
  accepted = pos 0;
  arriving = [];
}

-- SIGINT comes behind SIGHUP, after an event without a session and before another.
abbrev last_wait : List Event
last_wait = nothing_more ∷ interrupt 4 (sighup ∷ sigint ∷ []) ∷ nothing_more ∷ []

rounds-interrupt_example :
    rounds environment (ready last_wait ∷ failure ∷ []) signalled
    ≡ one_round environment (ready last_wait) signalled
unfolding create_reactor lazyserver.Reactor.Loop.find_sig lazyserver.Reactor.Loop.dispatch
    lazyserver.Reactor.Loop.dispatch_all
rounds-interrupt_example =
    rounds-interrupt environment environment-IsSteady (failure ∷ []) signalled signalled
      (nothing_more ∷ []) (nothing_more ∷ []) (sighup ∷ []) [] 4 sending refl refl refl refl refl
      refl
