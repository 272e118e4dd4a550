-- ===== src/Reactor/Safety.antt =====
-- The event loop as a whole: nothing is undefined, and no deleted session is used.
use lazyserver.Base.{
  Bool, Option, ◌==◌, Ends-weaken, ℕ, ◌≤◌, ◌≡◌, List, [], ◌∷◌, length, true, false, ◌&&◌,
  Option-cases, some, inl, inr, arith, ok, Ends, returns, exits, blocks, Ends-then, Ends-test, ltb,
}
use lazyserver.Base.Int.{ℤ, eq_ℤ}
use mathlib.Core.Path.{subst}
use lazyserver.Base.Predicates.{All, All-weaken}
use lazyserver.Reactor.Watched.{knows, registered, knows-there}
use lazyserver.Session.{EventHandler}
use lazyserver.Reactor.{World, Environment, SystemCall, find, log}
use lazyserver.Reactor.Receive.Stream.{Within, used_last}
use lazyserver.Reactor.Loop.{
  Event, Wait, interrupted, failure, ready, dispatch, dispatch_all, one_round, rounds, lazy_loop,
}
use lazyserver.Reactor.Sound.{IsSound, IsAlive, IsTame, session_at-ok, log-IsSound}
use lazyserver.Reactor.Handlers.{
  handle_accept-Ends, handle_sig_timer-Ends, handle_read-Ends, handle_output-Ends,
  handle_error-Ends,
}

module _ (env : Environment) (tame : IsTame env) where
  -- What the system promises of the events of a round: each is of a session that is registered with
  -- epoll when the round begins,
  abbrev pub AllKnown : List Event → World → Type 0
  AllKnown events w =
      All (λ e. (p : ℕ) → e.pointer ≡ some p → knows (registered w.calls) p ≡ true) events

  abbrev pub same_pointer : Option ℕ → Option ℕ → Bool
  same_pointer (some p) (some q) = p == q
  same_pointer _ _ = false

  -- there is at most one event for each session,
  abbrev pub Apart : List Event → Type 0
  Apart [] = Unit
  Apart (e ∷ events) = All (λ d. same_pointer e.pointer d.pointer ≡ false) events × Apart events

  -- and `recv` gives at most what it is asked for.
  abbrev pub IsFair : Event → World → Type 0
  IsFair e w =
      (p : ℕ) (h : EventHandler)
      → e.pointer ≡ some p
      → find p w.sessions ≡ some h
      → Within (used_last w.buffers h.recv_buffer_list) e.arriving

  abbrev pub HasSession : Event → World → Type 0
  HasSession e w = (p : ℕ) → e.pointer ≡ some p → IsAlive p w

  -- Only the session of the event may be deleted.
  abbrev pub KeepsOther : Event → World → World → Type 0
  KeepsOther e w w' = (q : ℕ) → same_pointer e.pointer (some q) ≡ false → IsAlive q w → IsAlive q w'

  -- One event of a session that is there never has undefined behaviour: the reactor is sound again, and
  -- the sessions of the other events are still there, unless the process exits or waits for the system.
  pub dispatch-Ends :
      (listen_fd : ℤ) (e : Event) (w : World)
      → IsSound w
      → HasSession e w
      → IsFair e w
      → Ends (λ w'. IsSound w' × KeepsOther e w w') (dispatch env listen_fd e w)
  unfolding dispatch
  dispatch-Ends listen_fd e w s alive fair = elim (Option-cases e.pointer) [
    | inl nothing ↦ rw nothing (returns (s, λ q ne a. a))
    | inr (p, some_p) ↦
        let (h, there) = alive p some_p in
        let b = fair p h some_p there in
        let a : IsAlive p w = (h, there) in
        rw (some_p, session_at-ok w p h there)
          (Ends-test (eq_ℤ listen_fd h.fd)
            (λ listening. handle_accept-Ends env tame w p e.accepted s a)
            λ c.
              Ends-test (eq_ℤ h.fd w.base.pipe_read && e.input)
                (λ signals.
                  Ends-weaken (λ w' r. (r.0, λ q ne c. r.1 q c))
                    (handle_sig_timer-Ends env tame w p e.arriving _ b s a))
                λ c.
                  Ends-test e.input (λ input. handle_read-Ends env tame w p h e.arriving there b s)
                    λ c.
                      Ends-test e.output (λ output. handle_output-Ends env tame w p h there s)
                        λ c.
                          Ends-test e.error (λ error. handle_error-Ends env tame w p s a)
                            λ c. returns (s, λ q ne d. d))
  ]

  -- Each event is fair when its turn comes.
  abbrev pub AllFair : ℤ → List Event → World → Type 0
  AllFair listen_fd [] w = Unit
  AllFair listen_fd (e ∷ events) w =
      IsFair e w × ((w' : World) → dispatch env listen_fd e w ≡ ok w' → AllFair listen_fd events w')

  later-HasSession :
      (e : Event) (w w' : World) (events : List Event)
      → KeepsOther e w w'
      → All (λ d. same_pointer e.pointer d.pointer ≡ false) events
      → All (λ d. HasSession d w) events
      → All (λ d. HasSession d w') events
  later-HasSession e w w' [] keeps apart alive = tt
  later-HasSession e w w' (d ∷ events) keeps apart alive = (
    λ q eq. keeps q (subst (λ o. same_pointer e.pointer o ≡ false) eq apart.0) (alive.0 q eq),
    later-HasSession e w w' events keeps apart.1 alive.1,
  )

  dispatch_all-Ends :
      (listen_fd : ℤ) (events : List Event) (w : World)
      → IsSound w
      → All (λ d. HasSession d w) events
      → Apart events
      → AllFair listen_fd events w
      → Ends IsSound (dispatch_all env listen_fd events w)
  unfolding dispatch_all
  dispatch_all-Ends listen_fd [] w s alive apart fair = returns s
  dispatch_all-Ends listen_fd (e ∷ events) w s alive apart fair =
      Ends-then (dispatch-Ends listen_fd e w s alive.0 fair.0) λ w' eq (s', keeps).
        dispatch_all-Ends listen_fd events w' s'
          (later-HasSession e w w' events keeps apart.0 alive.1) apart.1 (fair.1 w' eq)

  -- Each call of `epoll_wait` gives at most as many events as there is room for, and keeps these
  -- promises.
  abbrev pub FairWait : Wait → World → Type 0
  FairWait interrupted w = Unit
  FairWait failure w = Unit
  FairWait (ready events) w =
      (length events ≤ 1024) × AllKnown events w × Apart events × AllFair w.base.listen_fd events w

  abbrev pub FairWaits : List Wait → World → Type 0
  FairWaits [] w = Unit
  FairWaits (wait ∷ waits) w =
      FairWait wait w × ((w' : World) → one_round env wait w ≡ ok w' → FairWaits waits w')

  one_round-Ends :
      (wait : Wait) (w : World) → IsSound w → FairWait wait w → Ends IsSound (one_round env wait w)
  unfolding one_round
  one_round-Ends interrupted w s fair = returns s
  one_round-Ends failure w s fair = exits
  one_round-Ends (ready events) w s fair =
      let (room, known, apart, fair_events) = fair in
      let few : ltb 1024 (length events) ≡ false = ground (arith, room) in
      rw few (
        dispatch_all-Ends w.base.listen_fd events w s
          (All-weaken _
            (λ e k p eq. knows-there w.sessions (registered w.calls) p s.watched.watched (k p eq))
            events known)
          apart fair_events)

  rounds-Ends :
      (waits : List Wait) (w : World)
      → IsSound w
      → FairWaits waits w
      → Ends (λ w'. IsSound w' × (w'.base.stop_server_flag ≡ true)) (rounds env waits w)
  unfolding rounds
  rounds-Ends [] w s fair =
      Ends-test w.base.stop_server_flag (λ stop. returns (s, stop)) λ on. blocks
  rounds-Ends (wait ∷ waits) w s fair =
      Ends-test w.base.stop_server_flag (λ stop. returns (s, stop))
        λ on.
          Ends-then (one_round-Ends wait w s fair.0)
            λ w' eq s'. rounds-Ends waits w' s' (fair.1 w' eq)

  -- The event loop of a sound reactor, with tame handlers, on a system that gives events only of
  -- sessions registered with epoll and at most one of each in a round, and no more bytes than asked
  -- for: it has no undefined behaviour and no failed assertion, whatever the rounds bring. In
  -- particular it uses no deleted session. Where it returns, the server was told to stop and the
  -- reactor is sound: no buffer is held twice, or held and free, and every free buffer is empty; and
  -- each session that epoll knows is there. Else it exits by `exit` or waits for the system.
  pub lazy_loop-Ends :
      (waits : List Wait) (w : World)
      → IsSound w
      → FairWaits waits (log w (SystemCall.alarm 1))
      → Ends (λ w'. IsSound w' × (w'.base.stop_server_flag ≡ true)) (lazy_loop env waits w)
  unfolding lazy_loop
  lazy_loop-Ends waits w s fair =
      rounds-Ends waits (log w (SystemCall.alarm 1)) (log-IsSound w (SystemCall.alarm 1) tt s) fair
