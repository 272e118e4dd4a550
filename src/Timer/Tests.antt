-- ===== src/Timer/Tests.antt =====
-- Runs of the timers on concrete inputs, and the theorems about them at such inputs.
use lazyserver.Base.{
  ℕ, ◌≡◌, refl, ◌≢◌, ◌-◌, List, [], ◌∷◌, some, none, true, false, Run, ok, arith, Yields, ◌==◌,
  if◌then◌else◌,
}
use lazyserver.Base.Int.{pos}
use lazyserver.Heap.{HeapType, CompareFunc, NewArray}
use lazyserver.Timer.{World, UtilTimer, tick, register_timer}
use lazyserver.Timer.Fire.{IsReady}
use mathlib.Core.List.{mem-cons_self}
use lazyserver.Timer.Tick.{Ticked, tick-Ticked, tick-blocked, Registered, register_timer-Registered}

none-ne-some : {a : List ℕ} → none ≢ some a
none-ne-some e = cc

-- no memory at all: `tick` needs none
abbrev nothing : NewArray
nothing = record {
  new_array = λ n. none;
  length-new_array = λ n e. absurd (none-ne-some e);
  new_array_bound = λ n e. absurd (none-ne-some e);
}

abbrev prints : ℕ → ℕ → World → Run World
prints handler session w = ok w

-- the timers at 8 and 24 repeat every 2 seconds; that at 16 does not
abbrev timer : ℕ → UtilTimer
timer p = record {
  expire = pos (if p == 24 then 90 else 5);
  repeat = if p == 16 then false else true;
  interval = pos 2;
  handler = 1;
  session = p;
}

abbrev world : World
world = record {
  heap = record {
    heap_type = HeapType.small_heap;
    array = 8 ∷ 16 ∷ 24 ∷ 0 ∷ [];
    array_capacity = 4;
    array_size = 3;
    compare_func = CompareFunc.timer_compare;
  };
  timers = timer;
  calls = [];
}

world-IsReady : IsReady world
world-IsReady = record { valid = grind arith; small = refl; real = omega arith }

tick-Ticked_example :
    Yields
      (λ w'. (fired : List ℕ) × (left : List ℕ) × Ticked (λ i. pos 10) (pos 10) world w' fired left)
      (tick prints nothing (λ i. pos 10) (pos 10) world)
tick-Ticked_example =
    tick-Ticked nothing (λ i. pos 10) prints (λ f s w. refl) (pos 10) world world-IsReady

-- the timer at the least address is late, and the other two are due
abbrev blocked : World
blocked = record world { timers = λ p. timer (32 - p) }

tick-blocked_example : tick prints nothing (λ i. pos 10) (pos 10) blocked ≡ ok blocked
tick-blocked_example =
    tick-blocked prints nothing (λ i. pos 10) (pos 10) blocked 8
      (record { valid = grind arith; small = refl; real = omega arith }) mem-cons_self (omega arith)
      refl

register_timer-Registered_example :
    Yields
      (Registered nothing 32 (pos 10) 1 0 (pos 2) true world)
      (register_timer nothing 32 (pos 10) 1 0 (pos 2) true world)
register_timer-Registered_example =
    register_timer-Registered nothing 32 (pos 10) 1 0 (pos 2) true world (omega arith) world-IsReady
      (λ full. absurd (omega arith))
