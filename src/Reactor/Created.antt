-- ===== src/Reactor/Created.antt =====
-- What a new reactor is, and what registering a signal does to it.
use lazyserver.Base.{
  ℕ, ◌+◌, ◌≡◌, refl, ap, sym, ◌∙◌, List, [], ◌∷◌, ◌++◌, true, false, Option, Option-cases, some,
  none, Run, exited, if◌then◌else◌, ◌==◌, arith, ==_iff, Bool-cases, inl, inr, Yields, yields,
  Yields-use, ◌<◌,
}
use lazyserver.Base.Int.{ℤ, pos, negsuc, eq_ℤ, ltb_ℤ}
use lazyserver.Session.{EventHandler}
use lazyserver.Session.Alloc.{IsValid}
use lazyserver.Reactor.Sessions.{held}
use lazyserver.Heap.Storage.{items-nil}
use lazyserver.Base.Predicates.{All}
use mathlib.Core.Path.{subst}
use lazyserver.Timer.Fire.{IsReady}
use lazyserver.Heap.{Heap, size, HeapType, CompareFunc}
use lazyserver.Heap.Session.{new_heap_with-IsValid}
use lazyserver.Timer.{new_timer_heap}
use lazyserver.Reactor.{
  World, Environment, SigHandler, SystemCall, epoll_add, set_nonblocking, sigaction, addfd_to_epoll,
}
use lazyserver.Reactor.Loop.{find_sig}
use lazyserver.Reactor.Sound.{IsSound}
use lazyserver.Reactor.Watched.{IsWatched, IsWatched-add, IsWatched-call}
use mathlib.Core.List.{append_assoc}
use lazyserver.Reactor.Setup.{
  SetupAnswers, insert_sig, insert_absent, register_sig, register_defaults, new_session,
  create_listen_fd, create_reactor, lazy_create_reactor, make_reactor, set_up, set_current_reactor,
  sighup, sigint, sigpipe, sigalrm, sigterm, sigchld, sigurg,
}

-- The handler that a reactor has for a signal.
abbrev pub handler_of : World → ℕ → Option SigHandler
handler_of w sig = find_sig sig w.base.sig_handler_map

find_sig-append :
    (sig s : ℕ) (handler : SigHandler) (map : List (ℕ × SigHandler))
    → find_sig s map ≡ none
    → find_sig s (map ++ ((sig, handler) ∷ [])) ≡ (if sig == s then some handler else none)
unfolding find_sig
find_sig-append sig s handler [] e = refl
find_sig-append sig s handler ((q, old) ∷ map) e = elim (Bool-cases (q == s)) [
  | inl same ↦ absurd (ground (arith, e, same))
  | inr other ↦
      let e' : find_sig s map ≡ none = rw other at e in
      rw other (find_sig-append sig s handler map e')
]

find_sig-append_there :
    (sig s : ℕ) (handler old : SigHandler) (map : List (ℕ × SigHandler))
    → find_sig s map ≡ some old
    → find_sig s (map ++ ((sig, handler) ∷ [])) ≡ some old
unfolding find_sig
find_sig-append_there sig s handler old [] e = cc
find_sig-append_there sig s handler old ((q, f) ∷ map) e = elim (Bool-cases (q == s)) [
  | inl same ↦ rw same (rw same at e)
  | inr other ↦
      let e' : find_sig s map ≡ some old = rw other at e in
      rw other (find_sig-append_there sig s handler old map e')
]

insert_sig-none :
    (sig : ℕ) (handler : SigHandler) (map : List (ℕ × SigHandler))
    → find_sig sig map ≡ none
    → insert_sig sig handler map ≡ map ++ ((sig, handler) ∷ [])
unfolding insert_sig insert_absent
insert_sig-none sig handler map e = rw e refl

insert_sig-some :
    (sig : ℕ) (handler old : SigHandler) (map : List (ℕ × SigHandler))
    → find_sig sig map ≡ some old
    → insert_sig sig handler map ≡ map
unfolding insert_sig insert_absent
insert_sig-some sig handler old map e = rw e refl

none-some : {h : SigHandler} → none ≡ some h → ⊥
none-some e = cc

-- The first of two handlers, if there is one.
abbrev pub or_else : Option SigHandler → Option SigHandler → Option SigHandler
or_else none other = other
or_else (some handler) other = some handler

kept :
    (sig s : ℕ) (handler old : SigHandler) (map : List (ℕ × SigHandler))
    → find_sig sig map ≡ some old
    → find_sig s map ≡ or_else (find_sig s map) (if sig == s then some handler else none)
kept sig s handler old map there = elim (Option-cases (find_sig s map)) [
  | inr (o, e) ↦ rw e refl
  | inl e ↦ elim (Bool-cases (sig == s)) [
    | inl same ↦
        let eq : sig ≡ s = (==_iff sig s).0 same in
        absurd (none-some (sym e ∙ (ap (λ k. find_sig k map) (sym eq) ∙ there)))
    | inr other ↦ rw (e, other) refl
  ]
]

-- After `lazy_register_sig`, each signal has the handler that it had before. Only where it had none,
-- and is the signal of the call, it has the new one: a second registration of a signal has no effect.
pub register_sig-handler_of :
    (sig s : ℕ) (handler : SigHandler) (w : World)
    → handler_of (register_sig sig handler w) s
      ≡ or_else (handler_of w s) (if sig == s then some handler else none)
unfolding register_sig lazyserver.Reactor.Setup.addsig
register_sig-handler_of sig s handler w =
    let map = w.base.sig_handler_map in
    elim (Option-cases (handler_of w sig)) [
      | inl nothing ↦ elim (Option-cases (handler_of w s)) [
        | inl e ↦
            rw (insert_sig-none sig handler map nothing, e) (find_sig-append sig s handler map e)
        | inr (old, e) ↦
            rw (insert_sig-none sig handler map nothing, e)
              (find_sig-append_there sig s handler old map e)
      ]
      | inr (old, there) ↦
          rw (insert_sig-some sig handler old map there) (kept sig s handler old map there)
    ]

-- The pipe, where `socket`, `bind`, `listen`, `epoll_create` and `socketpair` succeed; none if one of
-- them fails.
abbrev pub granted : SetupAnswers → Option (ℤ × ℤ)
granted a =
    if ltb_ℤ a.socket (pos 0)
    then none
    else if eq_ℤ a.bind (negsuc 0)
    then none
    else if eq_ℤ a.listen (negsuc 0)
    then none
    else if eq_ℤ a.epoll_create (negsuc 0)
    then none
    else a.socketpair

-- Each of the seven signals has its default handler.
abbrev pub HasDefaults : World → Type 0
HasDefaults w =
    (handler_of w sighup ≡ some SigHandler.default_sighup)
    × (handler_of w sigint ≡ some SigHandler.default_sigint)
    × (handler_of w sigterm ≡ some SigHandler.default_sigterm)
    × (handler_of w sigchld ≡ some SigHandler.default_sigchld)
    × (handler_of w sigpipe ≡ some SigHandler.default_sigpipe)
    × (handler_of w sigurg ≡ some SigHandler.default_sigurg)
    × (handler_of w sigalrm ≡ some SigHandler.default_sigalrm)

abbrev pub new_handler : ℤ → EventHandler
new_handler fd = record { fd = fd; recv_buffer_list = []; send_buffer_list = [] }

-- The calls for a new reactor, in order: the descriptor that listens, as the session p, and the read end
-- of the pipe, as the next session and with EPOLLONESHOT, are registered with epoll; both, and the
-- write end, do not block; and the seven signals are caught.
abbrev pub setup_calls : ℤ → ℤ → ℤ → ℕ → List SystemCall
setup_calls fd r s p =
    epoll_add fd p false
    ∷ set_nonblocking fd
    ∷ set_nonblocking s
    ∷ epoll_add r (p + 1) true
    ∷ set_nonblocking r
    ∷ sigaction sighup
    ∷ sigaction sigint
    ∷ sigaction sigterm
    ∷ sigaction sigchld
    ∷ sigaction sigpipe
    ∷ sigaction sigurg
    ∷ sigaction sigalrm
    ∷ []

-- The reactor that is made from the world `before`.
pub record IsCreated (before : World) (a : SetupAnswers) (r s : ℤ) (w : World) : Type 0 where
  pub listen_fd : w.base.listen_fd ≡ a.socket
  pub epoll_fd : w.base.epoll_fd ≡ a.epoll_create
  pub pipes : (w.base.pipe_read ≡ r) × (w.base.pipe_write ≡ s)
  pub running : w.base.stop_server_flag ≡ false
  pub signals : HasDefaults w
  pub sessions :
      w.sessions
      ≡ (before.next_session + 1, new_handler r)
        ∷ (before.next_session, new_handler a.socket)
        ∷ before.sessions
  pub calls : w.calls ≡ before.calls ++ setup_calls a.socket r s before.next_session
  pub sound : IsSound (set_current_reactor w)

-- What is left of `lazy_create_reactor`: an exit where a call of the system failed, else a reactor.
abbrev pub IsSetUp : World → SetupAnswers → Option (ℤ × ℤ) → Run World → Type 0
IsSetUp before a none run = run ≡ exited
IsSetUp before a (some (r, s)) run = Yields (IsCreated before a r s) run

-- The reactor before its pipe is made.
abbrev opened : SetupAnswers → World → Heap → World
opened a w heap =
    let (p, h, w1) = new_session a.socket w in
    let w2 = addfd_to_epoll w1 p h false in
    record w2 {
      base = record create_reactor { epoll_fd = a.epoll_create; listen_fd = h.fd };
      timers = record w2.timers { heap = heap };
    }

set_up-IsSetUp :
    (a : SetupAnswers) (pipe : Option (ℤ × ℤ)) (w : World) (heap : Heap)
    → IsValid w.buffers (held w.sessions)
    → IsWatched w.sessions w.next_session w.calls
    → IsReady (record w.timers { heap = heap })
    → IsSetUp w a pipe (set_up pipe (opened a w heap))
unfolding set_up new_session register_defaults register_sig lazyserver.Reactor.Setup.addsig
    insert_sig insert_absent find_sig create_reactor set_current_reactor addfd_to_epoll
set_up-IsSetUp a none w heap v k r = refl
set_up-IsSetUp a (some (r, s)) w heap v k ready =
    let w1 = IsWatched-add _ _ _ k (new_handler a.socket) false in
    let w2 = IsWatched-call _ _ _ w1 (set_nonblocking a.socket) tt in
    let w3 = IsWatched-call _ _ _ w2 (set_nonblocking s) tt in
    let w4 = IsWatched-add _ _ _ w3 (new_handler r) true in
    let w5 = IsWatched-call _ _ _ w4 (set_nonblocking r) tt in
    let w6 = IsWatched-call _ _ _ w5 (sigaction sighup) tt in
    let w7 = IsWatched-call _ _ _ w6 (sigaction sigint) tt in
    let w8 = IsWatched-call _ _ _ w7 (sigaction sigterm) tt in
    let w9 = IsWatched-call _ _ _ w8 (sigaction sigchld) tt in
    let w10 = IsWatched-call _ _ _ w9 (sigaction sigpipe) tt in
    let w11 = IsWatched-call _ _ _ w10 (sigaction sigurg) tt in
    let w12 = IsWatched-call _ _ _ w11 (sigaction sigalrm) tt in
    yields (record {
      listen_fd = refl;
      epoll_fd = refl;
      pipes = (refl, refl);
      running = refl;
      signals = (refl, refl, refl, refl, refl, refl, refl);
      sessions = refl;
      calls = simp append_assoc;
      sound = record { valid = v; watched = w12; timed = ready; current = refl };
    })

-- Where there is memory for the heap of the timers, the pool of buffers is valid, and the sessions that
-- epoll knows are there: `lazy_create_reactor` exits if `socket`, `bind`, `listen`, `epoll_create` or
-- `socketpair` fails; what its other calls give is not looked at. Else the reactor has the descriptors
-- that the system gave, exactly two new sessions, for the listening descriptor and the read end of the
-- pipe, and the default handler of each of the seven signals. It has made exactly the calls that
-- register both sessions with epoll, set the descriptors not to block and catch the seven signals. It is
-- sound once it is the current one.
pub lazy_create_reactor_correct :
    (env : Environment) (a : SetupAnswers) (w : World) {block : List ℕ}
    → env.memory.new_array 2 ≡ some block
    → IsValid w.buffers (held w.sessions)
    → IsWatched w.sessions w.next_session w.calls
    → IsSetUp w a (granted a) (lazy_create_reactor env a w)
unfolding lazy_create_reactor create_listen_fd make_reactor new_timer_heap new_session size
lazy_create_reactor_correct env a w memory v k = elim (Bool-cases (ltb_ℤ a.socket (pos 0))) [
  | inl e ↦ rw e refl
  | inr e ↦ elim (Bool-cases (eq_ℤ a.bind (negsuc 0))) [
    | inl b ↦ rw (e, b) refl
    | inr b ↦ elim (Bool-cases (eq_ℤ a.listen (negsuc 0))) [
      | inl l ↦ rw (e, b, l) refl
      | inr l ↦ elim (Bool-cases (eq_ℤ a.epoll_create (negsuc 0))) [
        | inl p ↦ rw (e, b, l, p) refl
        | inr p ↦
            Yields-use
              (new_heap_with-IsValid env.memory HeapType.small_heap CompareFunc.timer_compare
                memory)
              λ heap eq (valid, empty, small).
                let r : IsReady (record w.timers { heap = heap }) = record {
                  valid = valid;
                  small = small;
                  real = subst (λ xs. All (λ q. 0 < q) xs) (sym (items-nil heap empty)) tt;
                } in
                rw (e, b, l, p, eq) (set_up-IsSetUp a a.socketpair w heap v k r)
      ]
    ]
  ]
]
