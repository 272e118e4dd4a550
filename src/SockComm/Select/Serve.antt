-- ===== src/SockComm/Select/Serve.antt =====
-- The inner loop of `SelectServer`: which clients it serves.
use lazyserver.Base.{
  ℕ, zero, suc, ◌+◌, ◌-◌, ◌≤◌, ◌<◌, ◌≡◌, inl, inr, refl, ap, List, [], ◌∷◌, Bool-cases, true,
  length, set, get_elem?, take, drop, some, arith, ok, Yields, yields, Yields-then, Yields-test,
  ltb, ◌==◌, if◌then◌else◌,
}
use lazyserver.Base.Int.{ℤ, pos, negsuc}
use lazyserver.Base.Predicates.{All}
use lazyserver.SockComm.Slots.{IsUsed}
use lazyserver.SockComm.Select.{fd_setsize, member, fd_isset, serve}

-- The clients in these slots that `rset` has, in order.
abbrev pub waiting : List ℕ → List ℤ → List ℕ
waiting rset [] = []
waiting rset (negsuc n ∷ client) = waiting rset client
waiting rset (pos fd ∷ client) =
    let rest = waiting rset client in if member fd rset then fd ∷ rest else rest

-- What holds of the descriptor in a slot, if one is there.
abbrev pub OfClient : (ℕ → Type 0) → ℤ → Type 0
OfClient P (negsuc n) = Unit
OfClient P (pos fd) = P fd

-- The descriptor fits into an fd_set.
abbrev pub IsLow : ℕ → Type 0
IsLow fd = fd < fd_setsize

drop_next :
    (client : List ℤ) (i : ℕ) (c : ℤ) (rest : List ℤ)
    → drop i client ≡ c ∷ rest
    → (get_elem? client i ≡ some c) × (drop (i + 1) client ≡ rest)
drop_next [] zero c rest e = cc
drop_next [] (suc i) c rest e = cc
drop_next (d ∷ client) zero c rest e =
    let same : d ≡ c = cc in let others : client ≡ rest = cc in (ap some same, others)
drop_next (d ∷ client) (suc i) c rest e =
    let next : suc i + 1 ≡ suc (i + 1) = omega arith in rw next (drop_next client i c rest e)

nothing_left : (xs : List ℕ) → length xs ≤ 0 → xs ≡ []
nothing_left [] h = refl
nothing_left (x ∷ xs) h = absurd (omega arith)

pub fd_isset-ok : (fd : ℕ) (set : List ℕ) → fd < fd_setsize → fd_isset fd set ≡ ok (member fd set)
unfolding fd_isset
fd_isset-ok fd set h = let low : ltb fd fd_setsize ≡ true = ground arith in rw low refl

pub serve_lem :
    (count i ready : ℕ) (rset : List ℕ) (client cs : List ℤ)
    → drop i client ≡ cs
    → count ≤ length cs
    → All (OfClient IsLow) cs
    → 0 < ready
    → length (waiting rset (take count cs)) ≤ ready
    → serve count i ready rset client ≡ ok (waiting rset (take count cs))
unfolding serve
serve_lem zero i ready rset client cs e h low some_ready few = refl
serve_lem (suc count) i ready rset client [] e h low some_ready few = absurd (omega arith)
serve_lem (suc count) i ready rset client (negsuc n ∷ cs) e h low some_ready few =
    let (here, rest) = drop_next client i (negsuc n) cs e in
    let served =
      serve_lem count (i + 1) ready rset client cs rest (omega arith) low.1 some_ready few in
    rw here served
serve_lem (suc count) i ready rset client (pos fd ∷ cs) e h low some_ready few =
    let (here, rest) = drop_next client i (pos fd) cs e in
    elim (Bool-cases (member fd rset)) [
      | inr out ↦
          let few' : length (waiting rset (take count cs)) ≤ ready = rw out at few in
          let served =
            serve_lem count (i + 1) ready rset client cs rest (omega arith) low.1 some_ready few' in
          rw (here, fd_isset-ok fd rset low.0, out) served
      | inl in_set ↦
          let few' : suc (length (waiting rset (take count cs))) ≤ ready = rw in_set at few in
          elim (Bool-cases (ready - 1 == 0)) [
            | inl last ↦
                let end : waiting rset (take count cs) ≡ [] =
                  nothing_left _ (ground (arith, last, few')) in
                rw (here, fd_isset-ok fd rset low.0, in_set, last, end) refl
            | inr more ↦
                let served =
                  serve_lem count (i + 1) (ready - 1) rset client cs rest (omega arith) low.1
                    (ground (arith, more)) (omega (arith, few')) in
                rw (here, fd_isset-ok fd rset low.0, in_set, more, served) refl
          ]
    ]

pub serve-Yields :
    (count i ready : ℕ) (rset : List ℕ) (client cs : List ℤ)
    → drop i client ≡ cs
    → count ≤ length cs
    → All (OfClient IsLow) cs
    → Yields (λ fds. Unit {0}) (serve count i ready rset client)
unfolding serve
serve-Yields zero i ready rset client cs e h low = yields tt
serve-Yields (suc count) i ready rset client [] e h low = absurd (omega arith)
serve-Yields (suc count) i ready rset client (negsuc n ∷ cs) e h low =
    let (here, rest) = drop_next client i (negsuc n) cs e in
    let later = serve-Yields count (i + 1) ready rset client cs rest (omega arith) low.1 in
    rw here later
serve-Yields (suc count) i ready rset client (pos fd ∷ cs) e h low =
    let (here, rest) = drop_next client i (pos fd) cs e in
    let later = λ (n : ℕ). serve-Yields count (i + 1) n rset client cs rest (omega arith) low.1 in
    rw (here, fd_isset-ok fd rset low.0)
      (Yields-test (member fd rset)
        (λ in_set.
          Yields-test (ready - 1 == 0) (λ last. yields tt)
            λ more. Yields-then (later (ready - 1)) λ fds u. yields tt)
        λ out. later ready)

-- Behind the greatest index no client waits.
pub waiting-take :
    (rset : List ℕ) (k : ℕ) (client : List ℤ)
    → ((i : ℕ) → IsUsed client i → i < k)
    → waiting rset (take k client) ≡ waiting rset client
waiting-take rset zero [] covers = refl
waiting-take rset (suc k) [] covers = refl
waiting-take rset zero (negsuc n ∷ client) covers =
    waiting-take rset zero client λ i (fd, e). absurd (omega (arith, covers (suc i) (fd, e)))
waiting-take rset zero (pos fd ∷ client) covers = absurd (omega (arith, covers 0 (fd, refl)))
waiting-take rset (suc k) (negsuc n ∷ client) covers =
    waiting-take rset k client λ i (fd, e). omega (arith, covers (suc i) (fd, e))
waiting-take rset (suc k) (pos fd ∷ client) covers =
    let rest = waiting-take rset k client λ i (fd, e). omega (arith, covers (suc i) (fd, e)) in
    rw rest refl
