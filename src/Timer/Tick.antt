-- ===== src/Timer/Tick.antt =====
-- `timer_heap::tick` as a whole, and `lazy_register_timer`.
use mathlib.Core.Path.{subst}
use mathlib.Core.List.{Perm, Mem, not-mem-nil}
use mathlib.Core.List.Perm
use native.Mathlib.Bridge.{le_prop}
use lazyserver.Base.{
  ℕ, suc, ◌+◌, ◌≤◌, ◌<◌, ◌≡◌, ◌⊎◌, inl, inr, refl, ◌∙◌, List, [], ◌∷◌, ◌++◌, arith, length,
  length-append, Bool, true, false, Run, ok, Yields, yields, Yields-use, Yields-then, Yields-weaken,
  ◌==◌, Bool-cases, not, Yields-test, if-false, if-true, ==_iff,
}
use lazyserver.Base.Int.{ℤ, ◌+ℤ◌, ltb_ℤ}
use lazyserver.Heap.Pop.{pop_correct}
use lazyserver.Base.Predicates.{All, All-Mem, Perm-All, All-append_left}
use lazyserver.Arrays.{length-perm, length-take_le}
use lazyserver.Heap.{NewArray, top, size, empty}
use lazyserver.Heap.Storage.{items, items-nil, CanGrow}
use lazyserver.Heap.Insert.{insert_correct}
use lazyserver.Timer.{World, fire, rearm, tick, add_timer, register_timer}
use lazyserver.Timer.Fire.{
  popped_least, popped_mem, IsReady, deref-ok, IsQuiet, calls_of, Fired, Fired-none, fire-Fired,
}
use lazyserver.Timer.Rearm.{IsArmed, Rearmed, repeating, IsTouched, Rearmed-none, rearm-Rearmed}

-- What one `tick` does: `fired` are the timers that it fires, and `left` those that it leaves.
pub record Ticked (clock : ℕ → ℤ) (now : ℤ) (w w' : World) (fired left : List ℕ) : Type 0 where
  pub ready : IsReady w'
  pub same : Perm (fired ++ left) (items w.heap)
  pub expired : All (λ p. ltb_ℤ now (w.timers p).expire ≡ false) fired
  pub called : w'.calls ≡ w.calls ++ calls_of w.timers fired
  pub rest :
      (left ≡ [])
      ⊎ ((p : ℕ) × Mem p left × All (λ q. p ≤ q) left × (ltb_ℤ now (w.timers p).expire ≡ true))
  pub back : Perm (items w'.heap) (repeating w.timers fired ++ left)
  pub touched : (q : ℕ) → IsTouched clock w'.timers w.timers (repeating w.timers fired) q
  pub armed : All (λ p. (w.timers p).repeat ≡ true → IsArmed clock (w'.timers p) (w.timers p)) fired

Ticked-of :
    {clock : ℕ → ℤ} {now : ℤ} {w w1 w' : World} {fired : List ℕ}
    → Fired now w fired w1
    → Rearmed clock fired w1 w'
    → Ticked clock now w w' fired (items w1.heap)
Ticked-of {clock} {now} {w} {w1} {w'} {fired} f d =
    let kept = f.timers_kept in
    record {
      ready = d.ready;
      same = f.same;
      expired = f.expired;
      called = d.called ∙ f.called;
      rest = elim f.stopped [
        | inl e ↦ inl e
        | inr (p, mem, least, late) ↦
            inr (p, mem, least, subst (λ ts. ltb_ℤ now (ts p).expire ≡ true) kept late)
      ];
      back = subst (λ ts. Perm (items w'.heap) (repeating ts fired ++ items w1.heap)) kept d.same;
      touched =
          λ q. subst (λ ts. IsTouched clock w'.timers ts (repeating ts fired) q) kept (d.touched q);
      armed =
          subst (λ ts. All (λ p. (ts p).repeat ≡ true → IsArmed clock (w'.timers p) (ts p)) fired)
            kept d.armed;
    }

-- The cells that the fired timers leave are enough for all of them.
Fired-room :
    (now : ℤ) (w w1 : World) (fired : List ℕ)
    → IsReady w
    → Fired now w fired w1
    → length fired + w1.heap.array_size ≤ w1.heap.array_capacity
Fired-room now w w1 fired r f =
    let v1 = f.ready.valid in
    omega (
      arith,
      length-perm f.same,
      length-append fired (items w1.heap),
      length-take_le w.heap.array_size w.heap.array,
      length-take_le w1.heap.array_size w1.heap.array,
      r.valid.block,
      r.valid.fits,
      v1.block,
      v1.fits,
      f.capacity_kept,
    )

module _ (memory : NewArray) (clock : ℕ → ℤ) (call : ℕ → ℕ → World → Run World)
    (quiet : IsQuiet call) where
  -- With handlers that leave the timers alone, `tick` on a valid heap of timers ends without a fault
  -- and asks for no memory. It splits the timers into those that it fires, all expired, and those
  -- that it leaves, of which there are none or whose least address has a timer not expired; it calls
  -- each fired handler once, in order, and puts back exactly the fired timers that repeat. Each of
  -- these is due one interval after a reading of the clock and else as before; every other timer,
  -- fired or not, is exactly as before. The heap is valid again.
  pub tick-Ticked :
      (now : ℤ) (w : World)
      → IsReady w
      → Yields
          (λ w'. (fired : List ℕ) × (left : List ℕ) × Ticked clock now w w' fired left)
          (tick call memory clock now w)
  unfolding tick size
  tick-Ticked now w r =
      Yields-test (w.heap.array_size == 0)
        (λ none_left.
          let stop = inl (items-nil w.heap ((==_iff w.heap.array_size 0).0 none_left)) in
          yields ([], items w.heap, Ticked-of (Fired-none now w r stop) (Rearmed-none clock w r)))
        λ some_left.
          Yields-then (fire-Fired call quiet (w.heap.array_size + 1) now w [] (omega arith) r)
            λ (w1, out) (fired, e, f). rw e (
              Yields-weaken (λ w' d. (fired, items w1.heap, Ticked-of f d))
                (rearm-Rearmed memory clock fired 0 w1 (Fired-room now w w1 fired r f)
                  (All-append_left (λ p. 0 < p) fired (items w1.heap)
                    (Perm-All (λ p. 0 < p) (λ p. le_prop) (Perm.symm f.same) r.real))
                  f.ready))

-- The firing loop stops at once where the timer at the root has not expired.
fire-blocked :
    (call : ℕ → ℕ → World → Run World) (k : ℕ) (now : ℤ) (w : World) (p : ℕ)
    → 0 < p
    → top w.heap ≡ ok p
    → ltb_ℤ now (w.timers p).expire ≡ true
    → fire call (suc k) now w [] ≡ ok (w, [])
unfolding fire empty
fire-blocked call k now w p real shown late = elim (Bool-cases (not (empty w.heap))) [
  | inl e ↦ rw (e, shown, deref-ok w p real, late)
  | inr e ↦ if-false (not (empty w.heap)) _ _ e
]

-- The least address of a heap of timers is at its root.
top-least :
    (w : World) (p : ℕ)
    → IsReady w
    → Mem p (items w.heap)
    → All (λ q. p ≤ q) (items w.heap)
    → top w.heap ≡ ok p
top-least w p r mem least =
    let some_left : 0 < w.heap.array_size = elim (Bool-cases (w.heap.array_size == 0)) [
      | inl e ↦
          absurd
            (not-mem-nil (subst (Mem p) (items-nil w.heap ((==_iff w.heap.array_size 0).0 e)) mem))
      | inr e ↦ ground (arith, e)
    ] in
    Yields-use (pop_correct w.heap r.valid some_left) λ (x, g) run (popped, shown).
      let above = popped_least w r x g popped in
      let x_low = All-Mem (λ q. x ≤ q) (λ q. le_prop) above mem in
      let p_low = All-Mem (λ q. p ≤ q) (λ q. le_prop) least (popped_mem w r x g popped) in
      let same : x ≡ p = omega (arith, x_low, p_low) in subst (λ k. top w.heap ≡ ok k) same shown

-- In a valid heap of timers, while the one at the least address has not expired, `tick` changes
-- nothing and calls no handler, whatever other timers of the heap have expired.
pub tick-blocked :
    (call : ℕ → ℕ → World → Run World) (memory : NewArray) (clock : ℕ → ℤ) (now : ℤ) (w : World)
    (p : ℕ)
    → IsReady w
    → Mem p (items w.heap)
    → All (λ q. p ≤ q) (items w.heap)
    → ltb_ℤ now (w.timers p).expire ≡ true
    → tick call memory clock now w ≡ ok w
unfolding tick size rearm
tick-blocked call memory clock now w p r mem least late =
    let shown = top-least w p r mem least in
    let real = All-Mem (λ q. 0 < q) (λ q. le_prop) r.real mem in
    elim (Bool-cases (w.heap.array_size == 0)) [
      | inl e ↦ if-true (w.heap.array_size == 0) _ _ e
      | inr e ↦
          let one_more : w.heap.array_size + 1 ≡ suc w.heap.array_size = omega arith in
          rw (e, one_more, fire-blocked call w.heap.array_size now w p real shown late)
    ]

module _ (memory : NewArray) (p : ℕ) (now : ℤ) (handler session : ℕ) (interval : ℤ) (again : Bool)
    (w : World) where
  -- What `lazy_register_timer` leaves: the new timer in the heap, due one interval from now, and
  -- the others as they were.
  pub record Registered (w' : World) : Type 0 where
    pub ready : IsReady w'
    pub same : Perm (items w'.heap) (p ∷ items w.heap)
    pub due : (w'.timers p).expire ≡ now +ℤ interval
    pub flags : ((w'.timers p).repeat ≡ again) × ((w'.timers p).interval ≡ interval)
    pub callback : ((w'.timers p).handler ≡ handler) × ((w'.timers p).session ≡ session)
    pub others : (q : ℕ) → (p == q) ≡ false → w'.timers q ≡ w.timers q
    pub called : w'.calls ≡ w.calls

  -- Registering a timer at a fresh address keeps the heap ready and adds exactly that timer.
  pub register_timer-Registered :
      0 < p
      → IsReady w
      → CanGrow memory w.heap
      → Yields Registered (register_timer memory p now handler session interval again w)
  unfolding register_timer add_timer
  register_timer-Registered real r can =
      let self : (p == p) ≡ true = (==_iff p p).1 refl in
      Yields-then (insert_correct memory w.heap p r.valid can) λ g ins. yields (record {
        ready = record {
          valid = ins.valid;
          small = ins.type_kept ∙ r.small;
          real = Perm-All (λ q. 0 < q) (λ q. le_prop) (Perm.symm ins.same) (real, r.real);
        };
        same = ins.same;
        due = rw self;
        flags = (rw self, rw self);
        callback = (rw self, rw self);
        others = λ q e. rw e;
        called = refl;
      })
