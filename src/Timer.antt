-- ===== src/Timer.antt =====
-- util_timer.h and util_timer.cpp: timers, their comparison, and `timer_heap` with its `tick`.
-- A timer is the address of a `util_timer`; handlers and sessions are addresses too. Values of
-- `time_t` and `int` are integers that do not overflow.
pub mod Fire
pub mod Rearm
pub mod Tick
mod Tests
use lazyserver.Base.{
  ℕ, zero, suc, ◌+◌, ◌≡◌, List, [], ◌∷◌, ◌++◌, Bool, true, false, not, Run, ok, fault, out_of_fuel,
  ◌>>=◌, if◌then◌else◌, ◌==◌,
}
use lazyserver.Base.Int.{ℤ, pos, ◌+ℤ◌, ltb_ℤ}
use lazyserver.Heap.{
  Heap, HeapType, CompareFunc, Sign, NewArray, new_heap_with, insert, pop, top, size, empty,
}

pub record UtilTimer : Type 0 where
  pub expire : ℤ
  pub repeat : Bool
  pub interval : ℤ
  pub handler : ℕ
  pub session : ℕ

-- The heap of a `timer_heap`, the timers by address, and, for the statements only, the calls of
-- handlers made so far with their sessions.
pub record World : Type 0 where
  pub heap : Heap
  pub timers : ℕ → UtilTimer
  pub calls : List (ℕ × ℕ)

abbrev pub update : (ℕ → UtilTimer) → ℕ → UtilTimer → ℕ → UtilTimer
update timers p t q = if p == q then t else timers q

-- `*pTimer`; the null pointer is undefined behaviour.
pub deref : World → ℕ → Run UtilTimer
deref w p = if p == 0 then fault else ok (w.timers p)

pub timer_compare : (ℕ → UtilTimer) → ℕ → ℕ → Sign
timer_compare timers data1 data2 =
    if ltb_ℤ (timers data1).expire (timers data2).expire
    then Sign.negative
    else if ltb_ℤ (timers data2).expire (timers data1).expire
    then Sign.positive
    else Sign.null

-- `timer_heap()`
unfoldable pub new_timer_heap : NewArray → Run Heap
new_timer_heap memory = new_heap_with memory HeapType.small_heap CompareFunc.timer_compare

pub add_timer : NewArray → World → ℕ → Run World
add_timer memory w p = do h ← insert memory w.heap p; ok (record w { heap = h })

-- `delete_timer` returns on both paths without a change.
pub delete_timer : World → ℕ → World
delete_timer w p = w

-- `lazy_register_timer`, on the reactor's `timerheap`: `p` is the address that `new util_timer`
-- gives, and `now` what `time(0)` returns.
pub register_timer : NewArray → (p : ℕ) → ℤ → ℕ → ℕ → ℤ → Bool → World → Run World
register_timer memory p now handler session interval repeat w =
    let fresh : UtilTimer = record {
      expire = now +ℤ interval;
      repeat = repeat;
      interval = interval;
      handler = handler;
      session = session;
    } in
    add_timer memory (record w { timers = update w.timers p fresh }) p

module _ (memory : NewArray) (clock : ℕ → ℤ) where
  -- The `for` of `tick`; `clock i` is what `time(0)` returns in round i.
  pub rearm : List ℕ → ℕ → World → Run World
  rearm [] i w = ok w
  rearm (p ∷ temp) i w = do
    t ← deref w p
    let again = record t { expire = clock i +ℤ t.interval }
    w' ←
        (if t.repeat
          then add_timer memory (record w { timers = update w.timers p again }) p
          else ok w)
    rearm temp (i + 1) w'

-- What a call of a handler with a session does to the world. The handlers are the users' code.
module _ (call : ℕ → ℕ → World → Run World) where
  -- The `while` of `tick`, with the timers that it has put into `temp`.
  pub fire : ℕ → ℤ → World → List ℕ → Run (World × List ℕ)
  fire zero now w temp = out_of_fuel
  fire (suc k) now w temp =
      let body : Run (World × List ℕ) = do
        p ← top w.heap
        t ← deref w p
        let onwards : Run (World × List ℕ) = do
          w' ←
              call t.handler t.session
                (record w { calls = w.calls ++ ((t.handler, t.session) ∷ []) })
          (x, rest) ← pop w'.heap
          fire k now (record w' { heap = rest }) (temp ++ (p ∷ []))
        if ltb_ℤ now t.expire then ok (w, temp) else onwards
      in if not (empty w.heap) then body else ok (w, temp)

  module _ (memory : NewArray) (clock : ℕ → ℤ) where
    -- Handlers that add no timer leave the loop no more rounds than there are timers.
    pub tick : ℤ → World → Run World
    tick now w =
        if size w.heap == 0
        then ok w
        else do (w', temp) ← fire (size w.heap + 1) now w []; rearm memory clock temp 0 w'
