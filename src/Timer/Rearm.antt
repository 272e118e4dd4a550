-- ===== src/Timer/Rearm.antt =====
-- The re-arming loop of `tick`: the repeating timers that fired go back into the heap.
use mathlib.Core.List.{Perm, Mem, mem-cons_self, mem-cons_of_mem, perm_middle}
use mathlib.Core.Path.{subst}
use mathlib.Core.List.Perm
use native.Mathlib.Bridge.{le_prop}
use lazyserver.Base.{
  ℕ, ◌+◌, ◌≤◌, ◌<◌, ◌≡◌, ◌⊎◌, inl, inr, refl, ap, sym, ◌∙◌, List, [], ◌∷◌, ◌++◌, arith, length,
  true, false, Yields, yields, if-true, Yields-then-eq, Yields-weaken, if◌then◌else◌, ◌==◌,
  Bool-cases, ==_iff,
}
use lazyserver.Base.Int.{ℤ, ◌+ℤ◌}
use lazyserver.Base.Predicates.{All, All-weaken, Perm-All}
use lazyserver.Heap.{Heap, NewArray}
use lazyserver.Heap.Storage.{items}
use lazyserver.Heap.Insert.{Inserted, insert_correct}
use lazyserver.Timer.{World, UtilTimer, update, add_timer, rearm}
use lazyserver.Timer.Fire.{IsReady, deref-ok}

-- The timers of a list that are to fire again.
abbrev pub repeating : (ℕ → UtilTimer) → List ℕ → List ℕ
repeating timers [] = []
repeating timers (p ∷ ps) =
    if (timers p).repeat then p ∷ repeating timers ps else repeating timers ps

-- The flags and intervals of the timers are those they were.
abbrev pub SameFlags : (ℕ → UtilTimer) → (ℕ → UtilTimer) → Type 0
SameFlags timers' timers =
    (q : ℕ)
    → ((timers' q).repeat ≡ (timers q).repeat) × ((timers' q).interval ≡ (timers q).interval)

repeating-same :
    (timers' timers : ℕ → UtilTimer) (xs : List ℕ)
    → SameFlags timers' timers
    → repeating timers' xs ≡ repeating timers xs
repeating-same timers' timers [] h = refl
repeating-same timers' timers (x ∷ xs) h = rw ((h x).0, repeating-same timers' timers xs h)

module _ (clock : ℕ → ℤ) where
  -- The timer was armed anew: one interval after some reading of the clock.
  abbrev pub IsArmed : UtilTimer → UtilTimer → Type 0
  IsArmed t' t = (j : ℕ) × (t' ≡ record t { expire = clock j +ℤ t.interval })

  abbrev armed_at : ℕ → UtilTimer → UtilTimer
  armed_at j t = record t { expire = clock j +ℤ t.interval }

  -- Arming a timer that was armed before.
  IsArmed-twice : (a b c : UtilTimer) → IsArmed c b → IsArmed b a → IsArmed c a
  IsArmed-twice a b c (j, e) (i, d) = (j, e ∙ ap (armed_at j) d)

  IsArmed-same : (a b c : UtilTimer) → IsArmed c b → b ≡ a → IsArmed c a
  IsArmed-same a b c (j, e) d = (j, e ∙ ap (armed_at j) d)

  -- A timer is as it was, or it is one of `xs` and was armed anew.
  abbrev pub IsTouched : (ℕ → UtilTimer) → (ℕ → UtilTimer) → List ℕ → ℕ → Type 0
  IsTouched timers' timers xs q =
      (timers' q ≡ timers q) ⊎ (Mem q xs × IsArmed (timers' q) (timers q))

  -- What the loop did with the timers `temp`.
  pub record Rearmed (temp : List ℕ) (w w' : World) : Type 0 where
    pub ready : IsReady w'
    pub same : Perm (items w'.heap) (repeating w.timers temp ++ items w.heap)
    pub flags : SameFlags w'.timers w.timers
    pub touched : (q : ℕ) → IsTouched w'.timers w.timers (repeating w.timers temp) q
    pub armed : All (λ p. (w.timers p).repeat ≡ true → IsArmed (w'.timers p) (w.timers p)) temp
    pub called : w'.calls ≡ w.calls

  pub Rearmed-none : (w : World) → IsReady w → Rearmed [] w w
  Rearmed-none w r = record {
    ready = r;
    same = Perm.refl (items w.heap);
    flags = λ q. (refl, refl);
    touched = λ q. inl refl;
    armed = tt;
    called = refl;
  }

  module _ (p : ℕ) (temp : List ℕ) (w : World) where
    -- A timer that does not repeat is left out.
    Rearmed-skip :
        {w' : World} → (w.timers p).repeat ≡ false → Rearmed temp w w' → Rearmed (p ∷ temp) w w'
    Rearmed-skip e r = record {
      ready = r.ready;
      same = rw e r.same;
      flags = r.flags;
      touched = rw e r.touched;
      armed = (λ again. absurd (cc), r.armed);
      called = r.called;
    }

    module _ (i : ℕ) (g : Heap) (inserted : Inserted w.heap p g) where
      abbrev again : World
      again = record w {
        heap = g;
        timers =
            update w.timers p (record (w.timers p) { expire = clock i +ℤ (w.timers p).interval });
      }

      again-flags : SameFlags again.timers w.timers
      again-flags q = ground arith

      again-IsReady : 0 < p → IsReady w → IsReady again
      again-IsReady h r = record {
        valid = inserted.valid;
        small = inserted.type_kept ∙ r.small;
        real = Perm-All (λ q. 0 < q) (λ q. le_prop) (Perm.symm inserted.same) (h, r.real);
      }

      again_cases :
          (q : ℕ)
          → (again.timers q ≡ w.timers q) ⊎ ((q ≡ p) × IsArmed (again.timers q) (w.timers q))
      again_cases q = elim (Bool-cases (p == q)) [
        | inl e ↦
            let e' : p ≡ q = (==_iff p q).0 e in
            inr (sym e', (i, rw e (ap (λ k. armed_at i (w.timers k)) e')))
        | inr e ↦ inl (rw e)
      ]

      again_self : IsArmed (again.timers p) (w.timers p)
      again_self = (i, rw ((==_iff p p).1 refl))

      module _ {w' : World} (r : Rearmed temp again w') where
        IsArmed-after :
            (q : ℕ) → IsArmed (again.timers q) (w.timers q) → IsArmed (w'.timers q) (w.timers q)
        IsArmed-after q (j, e) = elim (r.touched q) [
          | inl kept ↦ (j, kept ∙ e)
          | inr (m, a) ↦ IsArmed-twice (w.timers q) (again.timers q) (w'.timers q) a (j, e)
        ]

        IsArmed-before :
            (q : ℕ) → IsArmed (w'.timers q) (again.timers q) → IsArmed (w'.timers q) (w.timers q)
        IsArmed-before q a = elim (again_cases q) [
          | inl kept ↦ IsArmed-same (w.timers q) (again.timers q) (w'.timers q) a kept
          | inr (self, before) ↦ IsArmed-twice (w.timers q) (again.timers q) (w'.timers q) a before
        ]

        IsTouched-after : (q : ℕ) → IsTouched w'.timers w.timers (p ∷ repeating w.timers temp) q
        IsTouched-after q = elim (again_cases q) [
          | inr (self, a) ↦
              let rest = repeating w.timers temp in
              inr (
                subst (λ k. Mem k (p ∷ rest)) (sym self) (mem-cons_self {l = rest}),
                IsArmed-after q a,
              )
          | inl kept ↦ elim (r.touched q) [
            | inl kept' ↦ inl (kept' ∙ kept)
            | inr (m, a) ↦
                let m' = subst (Mem q) (repeating-same again.timers w.timers temp again-flags) m in
                inr (
                  mem-cons_of_mem p m',
                  IsArmed-same (w.timers q) (again.timers q) (w'.timers q) a kept,
                )
          ]
        ]

        still-IsArmed :
            (q : ℕ)
            → ((again.timers q).repeat ≡ true → IsArmed (w'.timers q) (again.timers q))
            → (w.timers q).repeat ≡ true
            → IsArmed (w'.timers q) (w.timers q)
        still-IsArmed q h e = IsArmed-before q (h ((again-flags q).0 ∙ e))

        same-after : Perm (items w'.heap) (p ∷ repeating w.timers temp ++ items w.heap)
        same-after =
            let rest = repeating w.timers temp in
            let back : Perm (items w'.heap) (rest ++ items g) =
              rw (repeating-same again.timers w.timers temp again-flags) at r.same in
            Perm.trans back (
              Perm.trans (Perm.append (Perm.refl rest) inserted.same)
                (perm_middle rest (items w.heap)))

        -- A timer that repeats goes back into the heap.
        Rearmed-again : (w.timers p).repeat ≡ true → Rearmed (p ∷ temp) w w'
        Rearmed-again e =
            let put_back : repeating w.timers (p ∷ temp) ≡ p ∷ repeating w.timers temp =
              rw e refl in
            record {
              ready = r.ready;
              same = rw e same-after;
              flags = λ q. ((r.flags q).0 ∙ (again-flags q).0, (r.flags q).1 ∙ (again-flags q).1);
              touched = λ q.
                  subst (λ xs. IsTouched w'.timers w.timers xs q) (sym put_back)
                    (IsTouched-after q);
              armed = (λ _. IsArmed-after p again_self, All-weaken _ still-IsArmed temp r.armed);
              called = r.called;
            }

module _ (memory : NewArray) (clock : ℕ → ℤ) where
  -- With cells for all of them, the loop puts back exactly the repeating timers, and asks for no
  -- memory.
  pub rearm-Rearmed :
      (temp : List ℕ) (i : ℕ) (w : World)
      → length temp + w.heap.array_size ≤ w.heap.array_capacity
      → All (λ p. 0 < p) temp
      → IsReady w
      → Yields (Rearmed clock temp w) (rearm memory clock temp i w)
  unfolding rearm add_timer
  rearm-Rearmed [] i w room real r = yields (Rearmed-none clock w r)
  rearm-Rearmed (p ∷ temp) i w room real r =
      rw (deref-ok w p real.0) (elim (Bool-cases (w.timers p).repeat) [
        | inl e ↦ rw (if-true (w.timers p).repeat _ _ e) (
            Yields-then-eq (insert_correct memory w.heap p r.valid λ full. absurd (omega arith))
              λ g run ins. rw run (
                Yields-weaken (λ w' done. Rearmed-again clock p temp w i g ins done e)
                  (rearm-Rearmed temp (i + 1) (again clock p temp w i g ins)
                    (omega (arith, ins.size, ins.larger)) real.1
                    (again-IsReady clock p temp w i g ins real.0 r))))
        | inr e ↦ rw e (
            Yields-weaken (λ w' done. Rearmed-skip clock p temp w e done)
              (rearm-Rearmed temp (i + 1) w (omega arith) real.1 r))
      ])
