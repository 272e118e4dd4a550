-- ===== src/SockComm/Poll/Scan.antt =====
-- The inner loop of `PollServer`: which slots it frees.
use lazyserver.Base.{
  ℕ, zero, suc, ◌+◌, ◌≤◌, ◌<◌, ◌≡◌, ◌⊎◌, inl, inr, refl, sym, ◌∙◌, List, true, ◌||◌, length, set,
  length-set, get_elem?-in, get_or, arith, Ends, returns, exits, Ends-test, Ends-weaken,
}
use lazyserver.Base.Int.{ℤ, pos, negsuc, eq_ℤ, ◌+ℤ◌}
use lazyserver.SockComm.Slots.{IsUsed, get_or-set_other, get_or-set_same}
use lazyserver.SockComm.Poll.{PollRound, scan}

-- The loop changes no slot but by freeing it, and none below the one that it starts at.
pub record Freed (from : ℕ) (client client' : List ℤ) : Type 0 where
  pub slots : length client' ≡ length client
  pub left : (i : ℕ) → IsUsed client' i → IsUsed client i
  pub below : (i : ℕ) → i < from → get_or client' i (negsuc 0) ≡ get_or client i (negsuc 0)

not_free : (fd : ℕ) → negsuc 0 ≡ pos fd → ⊥
not_free fd e = cc

pub negsuc_pos : (n fd : ℕ) → negsuc n ≡ pos fd → ⊥
negsuc_pos n fd e = cc

ℤ-cases : (z : ℤ) → ((fd : ℕ) × (z ≡ pos fd)) ⊎ ((n : ℕ) × (z ≡ negsuc n))
ℤ-cases (pos fd) = inl (fd, refl)
ℤ-cases (negsuc n) = inr (n, refl)

Freed-refl : (from : ℕ) (client : List ℤ) → Freed from client client
Freed-refl from client = record { slots = refl; left = λ j used. used; below = λ j lt. refl }

Freed-later : {from : ℕ} {client out : List ℤ} → Freed (from + 1) client out → Freed from client out
Freed-later f = record { slots = f.slots; left = f.left; below = λ i lt. f.below i (omega arith) }

-- The slot i is freed first.
Freed-set :
    (i : ℕ) (client out : List ℤ)
    → i < length client
    → Freed (i + 1) (set client i (negsuc 0)) out
    → Freed i client out
Freed-set i client out h f = record {
  slots = f.slots ∙ length-set client i (negsuc 0);
  left = λ j used.
      let (fd, before) = f.left j used in
      elim (get_or-set_other client i j (negsuc 0)) [
        | inl same ↦ (fd, sym same ∙ before)
        | inr (eq, lt) ↦
            let gone : get_or (set client i (negsuc 0)) j (negsuc 0) ≡ negsuc 0 =
              rw eq (get_or-set_same client i (negsuc 0) h) in
            absurd (not_free fd (sym gone ∙ before))
      ];
  below = λ j lt. f.below j (omega arith) ∙ elim (get_or-set_other client i j (negsuc 0)) [
    | inl same ↦ same
    | inr (eq, in_list) ↦ absurd (omega arith)
  ];
}

pub scan-Freed :
    (r : PollRound) (count i : ℕ) (ready : ℤ) (client : List ℤ)
    → i + count ≤ length client
    → Ends (Freed i client) (scan r count i ready client)
unfolding scan
scan-Freed r zero i ready client h = returns (Freed-refl i client)
scan-Freed r (suc count) i ready client h =
    let here = get_elem?-in client i (negsuc 0) (omega (arith, h)) in
    let closed = set client i (negsuc 0) in
    let skip =
      Ends-weaken (λ out f. Freed-later f)
        (scan-Freed r count (i + 1) ready client (omega arith)) in
    let next =
      Ends-weaken (λ out f. Freed-set i client out (omega arith) f)
        (scan-Freed r count (i + 1) (ready +ℤ negsuc 0) closed
          (omega (arith, length-set client i (negsuc 0)))) in
    let last_freed = Freed-set i client closed (omega arith) (Freed-refl (i + 1) closed) in
    elim (ℤ-cases (get_or client i (negsuc 0))) [
      | inr (n, free) ↦ rw (here, free) skip
      | inl (fd, used) ↦
          rw (here, used)
            (Ends-test ((r.revents i).rdnorm || (r.revents i).err)
              (λ event.
                Ends-test (r.reset i)
                  (λ reset.
                    Ends-test (eq_ℤ (ready +ℤ negsuc 0) (pos 0)) (λ last. returns last_freed)
                      λ more. next)
                  λ other. exits)
              λ none_here. skip)
    ]

-- A scan that comes to a slot 0 with an event frees it, or the process exits.
pub scan-first :
    (r : PollRound) (count : ℕ) (ready : ℤ) (client : List ℤ) (fd : ℕ)
    → suc count ≤ length client
    → get_or client 0 (negsuc 0) ≡ pos fd
    → (r.revents 0).rdnorm ≡ true
    → Ends (λ out. get_or out 0 (negsuc 0) ≡ negsuc 0) (scan r (suc count) 0 ready client)
unfolding scan
scan-first r count ready client fd h used event =
    let here = get_elem?-in client 0 (negsuc 0) (omega (arith, h)) in
    let closed = set client 0 (negsuc 0) in
    let freed = get_or-set_same client 0 (negsuc 0) (omega (arith, h)) in
    rw (here, used, event)
      (Ends-test (r.reset 0)
        (λ reset.
          Ends-test (eq_ℤ (ready +ℤ negsuc 0) (pos 0)) (λ last. returns freed)
            λ more.
              Ends-weaken (λ out f. f.below 0 (omega arith) ∙ freed)
                (scan-Freed r count 1 (ready +ℤ negsuc 0) closed
                  (omega (arith, length-set client 0 (negsuc 0)))))
        λ other. exits)
