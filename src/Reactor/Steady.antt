-- ===== src/Reactor/Steady.antt =====
-- What every handler of a round keeps of a reactor: the handler of SIGINT, and the flag that stops it.
use lazyserver.Base.{
  Option, none, leb, ◌+◌, sym, ℕ, List, ◌≡◌, refl, [], ◌∷◌, true, false, some, inl, inr,
  Option-cases, Run, ok, fault, assert_failed, exited, bad_alloc, out_of_fuel, ◌>>=◌, Bool,
  if◌then◌else◌, ltb, length, ◌&&◌,
}
use lazyserver.Base.Int.{ℤ, eq_ℤ}
use mathlib.Core.Path.{subst}
use lazyserver.Session.{EventHandler, load, release_buffer, read}
use lazyserver.Timer
use lazyserver.Reactor.Flush.{handle_write}
use lazyserver.Reactor.{
  ReactorBase, World, Environment, Handler, SigHandler, SystemCall, reset_oneshot, session_at, find,
  log, drop_session,
}
use lazyserver.Reactor.Receive.{
  Received, bytes, would_block, failed, ReadEnd, finished, departed, receive,
}
use lazyserver.Reactor.Loop.{
  Event, find_sig, log_sends, handle_accept, handle_sig, handle_sigs, handle_sig_timer, after_read,
  handle_read, handle_output, handle_error, dispatch, dispatch_all,
}
use lazyserver.Reactor.Defaults.{
  print_first, default_read_handler, default_accept_handler, default_close_handler,
  default_error_handler, default_sigint_handler, default_sigalrm_handler, call_handler,
  call_sig_handler,
}
use lazyserver.Reactor.Setup.{sigint}

-- Where the piece returns, `P` holds of the value.
pub data Returns {ℓ κ} {A : Type ℓ} (P : A → Type κ) : Run A → Type (ℓ ⊔ κ) where
  returns : {a : A} → P a → Returns P (ok a)
  no_fault : Returns P fault
  no_assert : Returns P assert_failed
  no_exit : Returns P exited
  no_alloc : Returns P bad_alloc
  no_fuel : Returns P out_of_fuel

module _ {ℓ κ} {A : Type ℓ} {P : A → Type κ} where
  pub Returns-then {ℓ'} :
      {B : Type ℓ'} (r : Run B) {k : B → Run A} → ((b : B) → Returns P (k b)) → Returns P (r >>= k)
  Returns-then (ok b) rest = rest b
  Returns-then fault rest = no_fault
  Returns-then assert_failed rest = no_assert
  Returns-then exited rest = no_exit
  Returns-then bad_alloc rest = no_alloc
  Returns-then out_of_fuel rest = no_fuel

  pub Returns-after {ℓ' κ'} :
      {B : Type ℓ'} {Q : B → Type κ'} {r : Run B} {k : B → Run A}
      → Returns Q r
      → ((b : B) → Q b → Returns P (k b))
      → Returns P (r >>= k)
  Returns-after (returns q) rest = rest _ q
  Returns-after no_fault rest = no_fault
  Returns-after no_assert rest = no_assert
  Returns-after no_exit rest = no_exit
  Returns-after no_alloc rest = no_alloc
  Returns-after no_fuel rest = no_fuel

  pub Returns-test :
      (b : Bool) {x y : Run A} → Returns P x → Returns P y → Returns P (if b then x else y)
  Returns-test true one two = one
  Returns-test false one two = two

pub Returns-weaken {ℓ κ κ'} :
    {A : Type ℓ} {P : A → Type κ} {Q : A → Type κ'} {r : Run A}
    → ((a : A) → P a → Q a)
    → Returns P r
    → Returns Q r
Returns-weaken f (returns p) = returns (f _ p)
Returns-weaken f no_fault = no_fault
Returns-weaken f no_assert = no_assert
Returns-weaken f no_exit = no_exit
Returns-weaken f no_alloc = no_alloc
Returns-weaken f no_fuel = no_fuel

-- A piece after which nothing happens.
pub Returns-last {ℓ κ} :
    {A : Type ℓ} {P : A → Type κ} {r : Run A} {k : A → Run A}
    → Returns P r
    → ((a : A) → P a → k a ≡ ok a)
    → (r >>= k) ≡ r
Returns-last (returns p) rest = rest _ p
Returns-last no_fault rest = refl
Returns-last no_assert rest = refl
Returns-last no_exit rest = refl
Returns-last no_alloc rest = refl
Returns-last no_fuel rest = refl

-- The reactor has the default handler for SIGINT.
abbrev pub CatchesInt : ReactorBase → Type 0
CatchesInt base = find_sig sigint base.sig_handler_map ≡ some SigHandler.default_sigint

abbrev pub IsStopped : ReactorBase → Type 0
IsStopped base = base.stop_server_flag ≡ true

-- A reactor that still catches SIGINT if the first one does, and is still stopped.
pub record Follows (base base' : ReactorBase) : Type 0 where
  pub catches : CatchesInt base → CatchesInt base'
  pub stops : IsStopped base → IsStopped base'

-- The users' handlers do not clear the flag, nor take away the handler of SIGINT.
pub record IsSteady (env : Environment) : Type 0 where
  pub on_session_steady :
      (k p : ℕ) (w : World) → Returns (λ w'. Follows w.base w'.base) (env.on_session k p w)
  pub on_signal_steady :
      (k sig : ℕ) (w : World) → Returns (λ w'. Follows w.base w'.base) (env.on_signal k sig w)

Follows-refl : (base : ReactorBase) → Follows base base
Follows-refl base = record { catches = λ c. c; stops = λ t. t }

Follows-trans : {a b c : ReactorBase} → Follows a b → Follows b c → Follows a c
Follows-trans f g = record {
  catches = λ x. g.catches (f.catches x);
  stops = λ x. g.stops (f.stops x);
}

-- A piece that follows on the reactor that it starts from.
abbrev Steady : World → Run World → Type 0
Steady w = Returns (λ w'. Follows w.base w'.base)

log_sends-base : (fd : ℤ) (parts : List (List ℕ)) (w : World) → (log_sends fd parts w).base ≡ w.base
unfolding log_sends
log_sends-base fd [] w = refl
log_sends-base fd (part ∷ parts) w = log_sends-base fd parts (log w (SystemCall.send fd part))

print_first-Follows :
    (p : ℕ) (w : World) (out : Option ℕ × EventHandler) → Steady w (print_first p w out)
unfolding print_first
print_first-Follows p w (none, h) = returns (Follows-refl w.base)
print_first-Follows p w (some q, h) = Returns-then (load w.buffers q) λ b.
    Returns-then (release_buffer w.buffers (some q)) λ m.
      Returns-test (leb b.size (length b.buffer) && leb b.size 2048) (returns (Follows-refl w.base))
        no_fault

read_handler-Follows : (p : ℕ) (w : World) → Steady w (default_read_handler p w)
unfolding default_read_handler
read_handler-Follows p w = Returns-then (session_at w p) λ h. print_first-Follows p w (read h)

module _ (env : Environment) (steady : IsSteady env) where
  call_handler-Follows :
      (handler : Handler) (p : ℕ) (w : World) → Steady w (call_handler env handler p w)
  unfolding call_handler default_accept_handler default_close_handler default_error_handler
  call_handler-Follows Handler.default_accept p w = returns (Follows-refl w.base)
  call_handler-Follows Handler.default_read p w = read_handler-Follows p w
  call_handler-Follows Handler.default_error p w = returns (Follows-refl w.base)
  call_handler-Follows Handler.default_close p w = returns (Follows-refl w.base)
  call_handler-Follows (Handler.user k) p w = steady.on_session_steady k p w

  sigint_handler-Follows : (w : World) → Steady w (default_sigint_handler w)
  unfolding default_sigint_handler
  sigint_handler-Follows w =
      Returns-test w.is_current (returns (record { catches = λ c. c; stops = λ t. refl })) no_fault

  sigalrm_handler-Follows : (w : World) → Steady w (default_sigalrm_handler env w)
  unfolding default_sigalrm_handler
  sigalrm_handler-Follows w =
      let n = w.ticks in
      Returns-test w.is_current
        (Returns-then
          (Timer.tick env.on_timer env.memory (λ i. env.time n (i + 1)) (env.time n 0) w.timers)
          λ timers. returns (Follows-refl w.base))
        no_fault

  call_sig_handler-Follows :
      (handler : SigHandler) (sig : ℕ) (w : World) → Steady w (call_sig_handler env handler sig w)
  unfolding call_sig_handler
  call_sig_handler-Follows SigHandler.default_sigint sig w = sigint_handler-Follows w
  call_sig_handler-Follows SigHandler.default_sigpipe sig w = returns (Follows-refl w.base)
  call_sig_handler-Follows SigHandler.default_sigterm sig w = returns (Follows-refl w.base)
  call_sig_handler-Follows SigHandler.default_sighup sig w = returns (Follows-refl w.base)
  call_sig_handler-Follows SigHandler.default_sigchld sig w = returns (Follows-refl w.base)
  call_sig_handler-Follows SigHandler.default_sigurg sig w = returns (Follows-refl w.base)
  call_sig_handler-Follows SigHandler.default_sigalrm sig w = sigalrm_handler-Follows w
  call_sig_handler-Follows (SigHandler.user_sig k) sig w = steady.on_signal_steady k sig w

  pub handle_sig-Follows : (sig : ℕ) (w : World) → Steady w (handle_sig env sig w)
  unfolding handle_sig
  handle_sig-Follows sig w = elim (Option-cases (find_sig sig w.base.sig_handler_map)) [
    | inl e ↦ rw e (Returns-test w.is_current (returns (Follows-refl w.base)) no_fault)
    | inr (handler, e) ↦
        let called = call_sig_handler-Follows handler sig w in
        rw e (Returns-test w.is_current called no_fault)
  ]

  pub handle_sigs-Follows :
      (sigs : List ℕ) (p : ℕ) (w : World) → Steady w (handle_sigs env sigs p w)
  unfolding handle_sigs reset_oneshot
  handle_sigs-Follows [] p w = returns (Follows-refl w.base)
  handle_sigs-Follows (sig ∷ sigs) p w = Returns-after (handle_sig-Follows sig w) λ w' f.
      Returns-then (session_at w' p) λ h.
        Returns-weaken (λ w2 g. Follows-trans f g)
          (handle_sigs-Follows sigs p (reset_oneshot w' p h))

  handle_sig_timer-Follows :
      (w : World) (p : ℕ) (answers : List Received) → Steady w (handle_sig_timer env w p answers)
  unfolding handle_sig_timer
  handle_sig_timer-Follows w p [] = no_fuel
  handle_sig_timer-Follows w p (would_block ∷ rest) = returns (Follows-refl w.base)
  handle_sig_timer-Follows w p (failed ∷ rest) = returns (Follows-refl w.base)
  handle_sig_timer-Follows w p (bytes sigs ∷ rest) =
      Returns-test (ltb 1024 (length sigs)) no_fault (handle_sigs-Follows sigs p w)

  handle_accept-Follows : (w : World) (p : ℕ) (fd : ℤ) → Steady w (handle_accept env w p fd)
  unfolding handle_accept lazyserver.Reactor.addfd_to_epoll
  handle_accept-Follows w p fd = call_handler-Follows w.base.accept_handler p _

  after_read-Follows :
      (w : World) (p : ℕ) (h : EventHandler) (end : ReadEnd) → Steady w (after_read env w p h end)
  unfolding after_read reset_oneshot drop_session lazyserver.Reactor.removefd_from_epoll
  after_read-Follows w p h finished = read_handler-Follows p (reset_oneshot w p h)
  after_read-Follows w p h departed =
      Returns-after (call_handler-Follows w.base.close_handler p w)
        λ w' f. Returns-then (session_at w' p) λ g. returns f

  handle_read-Follows :
      (w : World) (p : ℕ) (h : EventHandler) (answers : List Received)
      → Steady w (handle_read env w p h answers)
  unfolding handle_read
  handle_read-Follows w p h answers =
      Returns-then (receive answers w.buffers h) λ (end, m, h'). after_read-Follows _ p h' end

  handle_output-Follows :
      (w : World) (p : ℕ) (h : EventHandler) → Steady w (handle_output env w p h)
  unfolding handle_output
  handle_output-Follows w p h = Returns-then (handle_write w.buffers h) λ (m, h', sent).
      returns (subst (Follows w.base) (sym (log_sends-base h.fd sent _)) (Follows-refl w.base))

  handle_error-Follows : (w : World) (p : ℕ) → Steady w (handle_error env w p)
  unfolding handle_error drop_session lazyserver.Reactor.removefd_from_epoll
  handle_error-Follows w p =
      Returns-after (call_handler-Follows w.base.error_handler p w)
        λ w' f. Returns-then (session_at w' p) λ h. returns f

  pub dispatch-Follows :
      (listen_fd : ℤ) (e : Event) (w : World) → Steady w (dispatch env listen_fd e w)
  unfolding dispatch
  dispatch-Follows listen_fd e w = elim (Option-cases e.pointer) [
    | inl nothing ↦ rw nothing (returns (Follows-refl w.base))
    | inr (p, some_p) ↦ rw some_p (
        Returns-then (session_at w p) λ h.
          Returns-test (eq_ℤ listen_fd h.fd) (handle_accept-Follows w p e.accepted) (
            Returns-test (eq_ℤ h.fd w.base.pipe_read && e.input)
              (handle_sig_timer-Follows w p e.arriving)
              (Returns-test e.input (handle_read-Follows w p h e.arriving) (
                Returns-test e.output (handle_output-Follows w p h) (
                  Returns-test e.error (handle_error-Follows w p)
                    (returns (Follows-refl w.base)))))))
  ]

  pub dispatch_all-Follows :
      (listen_fd : ℤ) (events : List Event) (w : World)
      → Steady w (dispatch_all env listen_fd events w)
  unfolding dispatch_all
  dispatch_all-Follows listen_fd [] w = returns (Follows-refl w.base)
  dispatch_all-Follows listen_fd (e ∷ events) w =
      Returns-after (dispatch-Follows listen_fd e w) λ w' f.
        Returns-weaken (λ w2 g. Follows-trans f g) (dispatch_all-Follows listen_fd events w')
