-- ===== src/Reactor/Watched.antt =====
-- The sessions that epoll knows, from the calls of `epoll_ctl`, and that they are not deleted.
use lazyserver.Base.{
  ℕ, ◌+◌, ◌<◌, ◌≡◌, refl, sym, ap, ◌∙◌, List, [], ◌∷◌, ◌++◌, Bool, Bool-cases, true, false, ◌||◌,
  inl, inr, arith, some, ◌==◌, if◌then◌else◌, ==_iff,
}
use lazyserver.Base.Int.{ℤ, pos, negsuc, eq_ℤ}
use lazyserver.Base.Predicates.{All, All-weaken}
use mathlib.Core.Path.{subst}
use lazyserver.Session.{EventHandler}
use lazyserver.Reactor.{
  SystemCall, epoll_add, epoll_mod, epoll_del, set_nonblocking, sigaction, close, send, print,
  alarm, find, replace, remove,
}
use lazyserver.Reactor.Sessions.{Sessions, find-replace}

abbrev pub unwatch : ℤ → List (ℤ × ℕ) → List (ℤ × ℕ)
unwatch fd [] = []
unwatch fd ((g, p) ∷ es) = let rest = unwatch fd es in if eq_ℤ g fd then rest else (g, p) ∷ rest

-- What `epoll_ctl` does to the descriptors that epoll waits for, each with its session.
abbrev pub watch : List (ℤ × ℕ) → SystemCall → List (ℤ × ℕ)
watch es (epoll_add fd p oneshot) = (fd, p) ∷ es
watch es (epoll_del fd) = unwatch fd es
watch es _ = es

abbrev pub watched_from : List (ℤ × ℕ) → List SystemCall → List (ℤ × ℕ)
watched_from es [] = es
watched_from es (c ∷ calls) = watched_from (watch es c) calls

-- All that epoll waits for, after these calls.
abbrev pub registered : List SystemCall → List (ℤ × ℕ)
registered calls = watched_from [] calls

watched_from-append :
    (es : List (ℤ × ℕ)) (calls : List SystemCall) (c : SystemCall)
    → watched_from es (calls ++ (c ∷ [])) ≡ watch (watched_from es calls) c
watched_from-append es [] c = refl
watched_from-append es (d ∷ calls) c = watched_from-append (watch es d) calls c

-- Epoll has a session by this address.
abbrev pub knows : List (ℤ × ℕ) → ℕ → Bool
knows [] p = false
knows ((fd, q) ∷ es) p = (q == p) || knows es p

-- The session of a registration is there, and has its descriptor.
abbrev pub IsOf : Sessions → ℤ × ℕ → Type 0
IsOf sessions (fd, p) = (h : EventHandler) × (find p sessions ≡ some h) × (h.fd ≡ fd)

abbrev pub IsYoung : ℕ → ℕ × EventHandler → Type 0
IsYoung next (p, h) = p < next

-- Every session that epoll knows is there with its descriptor, and the next address is new.
pub record IsWatched (sessions : Sessions) (next : ℕ) (calls : List SystemCall) : Type 0 where
  pub watched : All (IsOf sessions) (registered calls)
  pub young : All (IsYoung next) sessions

-- A call that adds no registration.
abbrev pub IsPlain : SystemCall → Type 0
IsPlain (epoll_add fd p oneshot) = ⊥
IsPlain _ = Unit

find-young :
    (sessions : Sessions) (next p : ℕ) (h : EventHandler)
    → All (IsYoung next) sessions
    → find p sessions ≡ some h
    → p < next
find-young [] next p h y e = cc
find-young ((q, g) ∷ sessions) next p h y e = elim (Bool-cases (q == p)) [
  | inl same ↦ ground (arith, same, y.0)
  | inr other ↦
      let e' : find p sessions ≡ some h = rw other at e in find-young sessions next p h y.1 e'
]

pub find-remove :
    (p q : ℕ) (sessions : Sessions)
    → (p == q) ≡ false
    → find q (remove p sessions) ≡ find q sessions
find-remove p q [] ne = refl
find-remove p q ((r, g) ∷ sessions) ne = elim (Bool-cases (r == p)) [
  | inl same ↦ let other : (r == q) ≡ false = ground (arith, same, ne) in rw (same, other) refl
  | inr miss ↦ elim (Bool-cases (r == q)) [
    | inl here ↦ rw (miss, here) refl
    | inr other ↦ rw (miss, other) (find-remove p q sessions ne)
  ]
]

find-replace_other :
    (p q : ℕ) (h : EventHandler) (sessions : Sessions)
    → (p == q) ≡ false
    → find q (replace p h sessions) ≡ find q sessions
find-replace_other p q h [] ne = refl
find-replace_other p q h ((r, g) ∷ sessions) ne = elim (Bool-cases (r == p)) [
  | inl same ↦ let other : (r == q) ≡ false = ground (arith, same, ne) in rw (same, other) refl
  | inr miss ↦ elim (Bool-cases (r == q)) [
    | inl here ↦ rw (miss, here) refl
    | inr other ↦ rw (miss, other) (find-replace_other p q h sessions ne)
  ]
]

unwatch-All : (P : ℤ × ℕ → Type 0) (fd : ℤ) (es : List (ℤ × ℕ)) → All P es → All P (unwatch fd es)
unwatch-All P fd [] h = tt
unwatch-All P fd ((g, p) ∷ es) h = elim (Bool-cases (eq_ℤ g fd)) [
  | inl same ↦ rw same (unwatch-All P fd es h.1)
  | inr other ↦ rw other (h.0, unwatch-All P fd es h.1)
]

watch-All :
    (P : ℤ × ℕ → Type 0) (c : SystemCall) (es : List (ℤ × ℕ))
    → IsPlain c
    → All P es
    → All P (watch es c)
watch-All P (epoll_add fd p oneshot) es plain h = absurd plain
watch-All P (epoll_mod fd p) es plain h = h
watch-All P (epoll_del fd) es plain h = unwatch-All P fd es h
watch-All P (set_nonblocking fd) es plain h = h
watch-All P (sigaction sig) es plain h = h
watch-All P (close fd) es plain h = h
watch-All P (send fd bytes) es plain h = h
watch-All P (print message) es plain h = h
watch-All P (alarm n) es plain h = h

-- Only the sessions with another descriptor are still registered.
unwatch-IsOf :
    (p : ℕ) (h : EventHandler) (sessions : Sessions) (es : List (ℤ × ℕ))
    → find p sessions ≡ some h
    → All (IsOf sessions) es
    → All (IsOf (remove p sessions)) (unwatch h.fd es)
unwatch-IsOf p h sessions [] there w = tt
unwatch-IsOf p h sessions ((fd, q) ∷ es) there ((g, found, own), w) =
    elim (Bool-cases (eq_ℤ fd h.fd)) [
      | inl same ↦ rw same (unwatch-IsOf p h sessions es there w)
      | inr other ↦
          let apart : (p == q) ≡ false = elim (Bool-cases (p == q)) [
            | inr e ↦ e
            | inl e ↦
                let eq : p ≡ q = (==_iff p q).0 e in
                let twice : some h ≡ some g = sym there ∙ (ap (λ k. find k sessions) eq ∙ found) in
                let one : h ≡ g = cc in
                let fds : fd ≡ h.fd = sym own ∙ sym (ap (λ k. k.fd) one) in
                absurd (not_equal fd h.fd fds other)
          ] in
          rw other
            ((g, find-remove p q sessions apart ∙ found, own), unwatch-IsOf p h sessions es there w)
    ]
  where
    not_equal : (x y : ℤ) → x ≡ y → eq_ℤ x y ≡ false → ⊥
    not_equal x y e ne = eq_ℤ-self x (subst (λ z. eq_ℤ x z ≡ false) (sym e) ne)
      where
        eq_ℤ-self : (x : ℤ) → eq_ℤ x x ≡ false → ⊥
        eq_ℤ-self (pos n) ne = ground (arith, ne)
        eq_ℤ-self (negsuc n) ne = ground (arith, ne)

All-remove :
    (P : ℕ × EventHandler → Type 0) (p : ℕ) (sessions : Sessions)
    → All P sessions
    → All P (remove p sessions)
All-remove P p [] h = tt
All-remove P p ((q, g) ∷ sessions) h = elim (Bool-cases (q == p)) [
  | inl same ↦ rw same h.1
  | inr other ↦ rw other (h.0, All-remove P p sessions h.1)
]

IsYoung-replace :
    (next p : ℕ) (h : EventHandler) (sessions : Sessions)
    → All (IsYoung next) sessions
    → All (IsYoung next) (replace p h sessions)
IsYoung-replace next p h [] y = tt
IsYoung-replace next p h ((q, g) ∷ sessions) y = elim (Bool-cases (q == p)) [
  | inl same ↦ rw same (y.0, y.1)
  | inr other ↦ rw other (y.0, IsYoung-replace next p h sessions y.1)
]

module _ (sessions : Sessions) (next : ℕ) (calls : List SystemCall)
    (w : IsWatched sessions next calls) where
  pub IsWatched-call : (c : SystemCall) → IsPlain c → IsWatched sessions next (calls ++ (c ∷ []))
  IsWatched-call c plain = record {
    watched =
        subst (All (IsOf sessions)) (sym (watched_from-append [] calls c))
          (watch-All (IsOf sessions) c (registered calls) plain w.watched);
    young = w.young;
  }

  -- A new session at the next address, with its registration.
  pub IsWatched-add :
      (h : EventHandler) (oneshot : Bool)
      → IsWatched ((next, h) ∷ sessions) (next + 1) (calls ++ (epoll_add h.fd next oneshot ∷ []))
  IsWatched-add h oneshot =
      let self : (next == next) ≡ true = ground arith in
      record {
        watched =
            subst (All (IsOf ((next, h) ∷ sessions)))
              (sym (watched_from-append [] calls (epoll_add h.fd next oneshot)))
              (
                (h, rw self refl, refl),
                All-weaken (IsOf sessions)
                    (λ (fd, p) (g, found, own).
                      let lower = find-young sessions next p g w.young found in
                      let other : (next == p) ≡ false = ground (arith, lower) in
                      (g, rw other found, own))
                    (registered calls) w.watched,
              );
        young = (
          omega arith,
          All-weaken (IsYoung next) (λ (p, g) lt. omega (arith, lt)) sessions w.young,
        );
      }

  module _ (p : ℕ) (h : EventHandler) (there : find p sessions ≡ some h) where
    -- A session that keeps its descriptor.
    pub IsWatched-replace :
        (h' : EventHandler) → h'.fd ≡ h.fd → IsWatched (replace p h' sessions) next calls
    IsWatched-replace h' same = record {
      watched =
          All-weaken (IsOf sessions)
            (λ (fd, q) (g, found, own). elim (Bool-cases (p == q)) [
              | inl e ↦
                  let eq : p ≡ q = (==_iff p q).0 e in
                  let twice : some h ≡ some g =
                    sym there ∙ (ap (λ k. find k sessions) eq ∙ found) in
                  let one : h ≡ g = cc in
                  (
                    h',
                    ap (λ k. find k (replace p h' sessions)) (sym eq)
                        ∙ find-replace p h h' sessions there,
                    same ∙ (ap (λ k. k.fd) one ∙ own),
                  )
              | inr e ↦ (g, find-replace_other p q h' sessions e ∙ found, own)
            ])
            (registered calls) w.watched;
      young = IsYoung-replace next p h' sessions w.young;
    }

    -- A session that is taken out of epoll and deleted.
    pub IsWatched-remove : IsWatched (remove p sessions) next (calls ++ (epoll_del h.fd ∷ []))
    IsWatched-remove = record {
      watched =
          subst (All (IsOf (remove p sessions)))
            (sym (watched_from-append [] calls (epoll_del h.fd)))
            (unwatch-IsOf p h sessions (registered calls) there w.watched);
      young = All-remove (IsYoung next) p sessions w.young;
    }

-- What epoll knows is there.
pub knows-there :
    (sessions : Sessions) (es : List (ℤ × ℕ)) (p : ℕ)
    → All (IsOf sessions) es
    → knows es p ≡ true
    → (h : EventHandler) × (find p sessions ≡ some h)
knows-there sessions [] p w e = absurd (cc e)
knows-there sessions ((fd, q) ∷ es) p ((h, found, own), w) e = elim (Bool-cases (q == p)) [
  | inl same ↦
      let eq : q ≡ p = (==_iff q p).0 same in (h, subst (λ k. find k sessions ≡ some h) eq found)
  | inr other ↦ let e' : knows es p ≡ true = rw other at e in knows-there sessions es p w e'
]
