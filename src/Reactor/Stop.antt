-- ===== src/Reactor/Stop.antt =====
-- The way of SIGINT through the pipe of a reactor, to the end of its loop.
use lazyserver.Base.{
  if-false, sym, ap, ◌∙◌, >>=-assoc, ℕ, List, ◌≡◌, refl, [], ◌∷◌, ◌++◌, true, false, some, ok,
  ◌>>=◌, ltb, length,
}
use lazyserver.Base.Int.{ℤ, negsuc, eq_ℤ}
use mathlib.Core.Path.{subst, fun_ext}
use lazyserver.Session.{EventHandler}
use lazyserver.Reactor.{World, Environment, reset_oneshot, session_at, find}
use lazyserver.Reactor.Receive.{bytes}
use lazyserver.Reactor.Loop.{
  Event, Wait, ready, handle_sig, handle_sigs, handle_sig_timer, dispatch, dispatch_all, one_round,
  rounds,
}
use lazyserver.Reactor.Defaults.{default_sigint_handler, call_sig_handler}
use lazyserver.Reactor.Setup.{sigint}
use lazyserver.Reactor.Sound.{session_at-ok}
use lazyserver.Reactor.Steady.{
  Returns, Returns-then, Returns-after, Returns-test, Returns-weaken, Returns-last, returns,
  no_fault, CatchesInt, IsStopped, IsSteady, handle_sig-Follows, handle_sigs-Follows,
  dispatch_all-Follows,
}

-- The event by which the pipe brings signals to the session at `p`.
abbrev pub interrupt : ℕ → List ℕ → Event
interrupt p sigs = record {
  pointer = some p;
  input = true;
  output = false;
  error = false;
  accepted = negsuc 0;
  arriving = bytes sigs ∷ [];
}

rounds-stopped :
    (env : Environment) (waits : List Wait) (w : World)
    → w.base.stop_server_flag ≡ true
    → rounds env waits w ≡ ok w
unfolding rounds
rounds-stopped env [] w e = rw e refl
rounds-stopped env (wait ∷ waits) w e = rw e refl

module _ (env : Environment) (steady : IsSteady env) where
  handle_sig-sigint :
      (w : World) → CatchesInt w.base → Returns (λ w'. IsStopped w'.base) (handle_sig env sigint w)
  unfolding handle_sig call_sig_handler default_sigint_handler
  handle_sig-sigint w caught =
      rw caught
        (Returns-test w.is_current (Returns-test w.is_current (returns refl) no_fault) no_fault)

  -- A SIGINT among the signals stops the server.
  handle_sigs-sigint :
      (before after : List ℕ) (p : ℕ) (w : World)
      → CatchesInt w.base
      → Returns (λ w'. IsStopped w'.base) (handle_sigs env (before ++ (sigint ∷ after)) p w)
  unfolding handle_sigs reset_oneshot
  handle_sigs-sigint [] after p w caught = Returns-after (handle_sig-sigint w caught) λ w' stopped.
      Returns-then (session_at w' p) λ h.
        Returns-weaken (λ w2 g. g.stops stopped)
          (handle_sigs-Follows env steady after p (reset_oneshot w' p h))
  handle_sigs-sigint (sig ∷ before) after p w caught =
      Returns-after (handle_sig-Follows env steady sig w) λ w' f.
        Returns-then (session_at w' p)
          λ h. handle_sigs-sigint before after p (reset_oneshot w' p h) (f.catches caught)

  dispatch-interrupt :
      (listen_fd : ℤ) (before after : List ℕ) (p : ℕ) (w : World) (h : EventHandler)
      → CatchesInt w.base
      → find p w.sessions ≡ some h
      → eq_ℤ h.fd w.base.pipe_read ≡ true
      → eq_ℤ listen_fd h.fd ≡ false
      → Returns
          (λ w'. IsStopped w'.base)
          (dispatch env listen_fd (interrupt p (before ++ (sigint ∷ after))) w)
  unfolding dispatch handle_sig_timer
  dispatch-interrupt listen_fd before after p w h caught there pipe other =
      rw (session_at-ok w p h there, other, pipe)
        (Returns-test (ltb 1024 (length (before ++ (sigint ∷ after)))) no_fault
          (handle_sigs-sigint before after p w caught))

  dispatch_all-append :
      (listen_fd : ℤ) (earlier later : List Event) (w : World)
      → dispatch_all env listen_fd (earlier ++ later) w
        ≡ (dispatch_all env listen_fd earlier w >>= dispatch_all env listen_fd later)
  unfolding dispatch_all
  dispatch_all-append listen_fd [] later w = refl
  dispatch_all-append listen_fd (e ∷ earlier) later w =
      ap (λ k. dispatch env listen_fd e w >>= k)
        (fun_ext (λ w'. dispatch_all-append listen_fd earlier later w'))
      ∙ sym (
          >>=-assoc (dispatch env listen_fd e w) (dispatch_all env listen_fd earlier)
            (dispatch_all env listen_fd later))

  last_events :
      (fd : ℤ) (later : List Event) (w : World) (e : Event)
      → Returns (λ w'. IsStopped w'.base) (dispatch env fd e w)
      → Returns (λ w'. IsStopped w'.base) (dispatch_all env fd (e ∷ later) w)
  unfolding dispatch_all
  last_events fd later w e r = Returns-after r λ w' stopped.
      Returns-weaken (λ w2 g. g.stops stopped) (dispatch_all-Follows env steady fd later w')

  in_block :
      (events : List Event) (w : World)
      → Returns (λ w'. IsStopped w'.base) (dispatch_all env w.base.listen_fd events w)
      → Returns (λ w'. IsStopped w'.base) (one_round env (ready events) w)
  unfolding one_round
  in_block events w r = Returns-test (ltb 1024 (length events)) no_fault r

  last_round :
      (waits : List Wait) (wait : Wait) (w : World)
      → w.base.stop_server_flag ≡ false
      → Returns (λ w'. IsStopped w'.base) (one_round env wait w)
      → rounds env (wait ∷ waits) w ≡ one_round env wait w
  unfolding rounds
  last_round waits wait w on r =
      if-false w.base.stop_server_flag _ _ on
      ∙ Returns-last r (λ w' stopped. rounds-stopped env waits w' stopped)

  -- In any round of the loop: where, after the earlier events, the pipe brings any signals with SIGINT
  -- among them to its session, which is not the listening one, and the reactor has the default handler
  -- for SIGINT, this round is the last. Whatever events follow in it and whatever the system would
  -- give later, the loop does what the round does and nothing else. The users' handlers may do all but
  -- clear the flag or take away the handler.
  pub rounds-interrupt :
      (waits : List Wait) (w w1 : World) (earlier later : List Event) (before after : List ℕ)
      (p : ℕ) (h : EventHandler)
      → w.base.stop_server_flag ≡ false
      → dispatch_all env w.base.listen_fd earlier w ≡ ok w1
      → CatchesInt w1.base
      → find p w1.sessions ≡ some h
      → eq_ℤ h.fd w1.base.pipe_read ≡ true
      → eq_ℤ w.base.listen_fd h.fd ≡ false
      → rounds env (ready (earlier ++ (interrupt p (before ++ (sigint ∷ after)) ∷ later)) ∷ waits) w
        ≡ one_round env (ready (earlier ++ (interrupt p (before ++ (sigint ∷ after)) ∷ later))) w
  rounds-interrupt waits w w1 earlier later before after p h on reached caught there pipe other =
      let fd = w.base.listen_fd in
      let e = interrupt p (before ++ (sigint ∷ after)) in
      let rest : Returns (λ w'. IsStopped w'.base) (dispatch_all env fd (e ∷ later) w1) =
        last_events fd later w1 e
          (dispatch-interrupt fd before after p w1 h caught there pipe other) in
      let whole = dispatch_all-append fd earlier (e ∷ later) w in
      let round : Returns (λ w'. IsStopped w'.base)
          (dispatch_all env fd (earlier ++ (e ∷ later)) w) =
        subst (Returns (λ w'. IsStopped w'.base))
          (sym (whole ∙ ap (λ r. r >>= dispatch_all env fd (e ∷ later)) reached)) rest in
      last_round waits (ready (earlier ++ (e ∷ later))) w on
        (in_block (earlier ++ (e ∷ later)) w round)
