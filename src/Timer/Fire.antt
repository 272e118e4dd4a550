-- ===== src/Timer/Fire.antt =====
-- The firing loop of `tick`, for handlers that leave the timers alone.
use mathlib.Core.Path.{subst}
use mathlib.Core.Bool.{not}
use mathlib.Core.List.{Perm, Mem, mem-cons_self, append-nil, append_assoc}
use mathlib.Core.List.Perm
use native.Mathlib.Bridge.{le_prop}
use lazyserver.Base.{
  ℕ, zero, suc, ◌≤◌, ◌<◌, ◌≡◌, ◌⊎◌, inl, inr, refl, sym, ◌∙◌, List, [], ◌∷◌, ◌++◌, map, arith, true,
  false, Run, ok, Yields, yields, Yields-then-eq, Yields-weaken, Yields-test,
}
use lazyserver.Base.Int.{ℤ, ltb_ℤ}
use lazyserver.Base.Predicates.{All, Perm-All}
use lazyserver.Heap.{Heap, HeapType, empty}
use lazyserver.Heap.Order.{Above}
use lazyserver.Heap.Storage.{items, items-nil, IsValid}
use lazyserver.Heap.Pop.{Popped, pop_correct}
use lazyserver.Timer.{World, UtilTimer, deref, fire}

-- Handlers that print, as those of main.cpp do, leave the world of the timers as it is.
abbrev pub IsQuiet : (ℕ → ℕ → World → Run World) → Type 0
IsQuiet call = (handler session : ℕ) (w : World) → call handler session w ≡ ok w

-- A valid small heap of timers, none of them null.
pub record IsReady (w : World) : Type 0 where
  pub valid : IsValid w.heap
  pub small : w.heap.heap_type ≡ HeapType.small_heap
  pub real : All (λ p. 0 < p) (items w.heap)

-- The handler and the session of each timer, in order.
abbrev pub calls_of : (ℕ → UtilTimer) → List ℕ → List (ℕ × ℕ)
calls_of timers = map λ p. ((timers p).handler, (timers p).session)

-- The loop stopped: no timer is left, or the one at the least address has not expired.
abbrev pub HasStopped : ℤ → World → Type 0
HasStopped now w =
    (items w.heap ≡ [])
    ⊎ ((p : ℕ) × Mem p (items w.heap)
        × All (λ q. p ≤ q) (items w.heap)
        × (ltb_ℤ now (w.timers p).expire ≡ true))

-- What the loop did, started at `w`: it took out the timers `fired`.
pub record Fired (now : ℤ) (w : World) (fired : List ℕ) (w' : World) : Type 0 where
  pub ready : IsReady w'
  pub timers_kept : w'.timers ≡ w.timers
  pub same : Perm (fired ++ items w'.heap) (items w.heap)
  pub expired : All (λ p. ltb_ℤ now (w.timers p).expire ≡ false) fired
  pub called : w'.calls ≡ w.calls ++ calls_of w.timers fired
  pub capacity_kept : w'.heap.array_capacity ≡ w.heap.array_capacity
  pub stopped : HasStopped now w'

pub deref-ok : (w : World) (p : ℕ) → 0 < p → deref w p ≡ ok (w.timers p)
unfolding deref
deref-ok w p h = ground arith

-- What `Pop` leaves is ready again, and the timer that it took out is real and least.
module _ (w : World) (r : IsReady w) (x : ℕ) (g : Heap) (p : Popped w.heap x g) where
  popped_real : All (λ q. 0 < q) (x ∷ items g)
  popped_real = Perm-All (λ q. 0 < q) (λ q. le_prop) (Perm.symm p.same) r.real

  pub popped_mem : Mem x (items w.heap)
  popped_mem = (Perm.mem_iff p.same).0 mem-cons_self

  pub popped_least : All (λ q. x ≤ q) (items w.heap)
  popped_least = subst (λ t. All (Above t x) (items w.heap)) r.small p.extreme

  popped-IsReady : (c : List (ℕ × ℕ)) → IsReady (record w { heap = g; calls = c })
  popped-IsReady c = record { valid = p.valid; small = p.type_kept ∙ r.small; real = popped_real.1 }

not-empty : (h : Heap) → not (empty h) ≡ true → 0 < h.array_size
unfolding empty
not-empty h e = ground arith

items-empty : (h : Heap) → not (empty h) ≡ false → items h ≡ []
unfolding empty
items-empty h e = items-nil h (ground arith)

-- Nothing is taken out when the loop stops.
pub Fired-none : (now : ℤ) (w : World) → IsReady w → HasStopped now w → Fired now w [] w
Fired-none now w r s = record {
  ready = r;
  timers_kept = refl;
  same = Perm.refl (items w.heap);
  expired = tt;
  called = sym (append-nil w.calls);
  capacity_kept = refl;
  stopped = s;
}

-- One timer taken out, and then those that the rest of the loop takes out.
module _ (now : ℤ) (w w' : World) (x : ℕ) (g : Heap) (p : Popped w.heap x g) (fired : List ℕ)
    (due : ltb_ℤ now (w.timers x).expire ≡ false) where
  abbrev after : World
  after = record w {
    heap = g;
    calls = w.calls ++ (((w.timers x).handler, (w.timers x).session) ∷ []);
  }

  Fired-cons : Fired now after fired w' → Fired now w (x ∷ fired) w'
  Fired-cons f = record {
    ready = f.ready;
    timers_kept = f.timers_kept;
    same = Perm.trans (Perm.cons x f.same) p.same;
    expired = (due, f.expired);
    called = f.called ∙ append_assoc w.calls _ (calls_of w.timers fired);
    capacity_kept = f.capacity_kept ∙ p.capacity_kept;
    stopped = f.stopped;
  }

module _ (call : ℕ → ℕ → World → Run World) (quiet : IsQuiet call) where
  -- With fuel for each timer, the loop ends, and it fires exactly the timers that it takes out.
  pub fire-Fired :
      (k : ℕ) (now : ℤ) (w : World) (temp : List ℕ)
      → w.heap.array_size < k
      → IsReady w
      → Yields
          (λ (w', out). (fired : List ℕ) × (out ≡ temp ++ fired) × Fired now w fired w')
          (fire call k now w temp)
  unfolding fire
  fire-Fired zero now w temp h r = absurd (omega arith)
  fire-Fired (suc k) now w temp h r =
      Yields-test (not (empty w.heap))
        (λ some_left.
          Yields-then-eq (pop_correct w.heap r.valid (not-empty w.heap some_left))
            λ (x, g) run (p, shown).
              rw (shown, deref-ok w x (popped_real w r x g p).0)
                (Yields-test (ltb_ℤ now (w.timers x).expire)
                  (λ late. yields (
                    [],
                    sym (append-nil temp),
                    Fired-none now w r
                        (inr (x, popped_mem w r x g p, popped_least w r x g p, late)),
                  ))
                  λ due.
                    rw (quiet (w.timers x).handler (w.timers x).session _, run)
                      (Yields-weaken
                        (λ (w', out) (fired, e, f). (
                          x ∷ fired,
                          e ∙ append_assoc temp (x ∷ []) fired,
                          Fired-cons now w w' x g p fired due f,
                        ))
                        (fire-Fired k now _ (temp ++ (x ∷ [])) (omega (arith, p.size))
                          (popped-IsReady w r x g p _)))))
        λ none_left.
          yields
            ([], sym (append-nil temp), Fired-none now w r (inl (items-empty w.heap none_left)))
