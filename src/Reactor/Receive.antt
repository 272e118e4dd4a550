-- ===== src/Reactor/Receive.antt =====
-- reactor.cpp: the loop of `handle_read`, which takes all that has arrived for a session.
pub mod Stream
use lazyserver.Base.{
  ℕ, suc, ◌+◌, ◌-◌, List, [], ◌∷◌, ◌++◌, length, Option, some, none, Run, ok, Bool-cases, fault,
  exited, out_of_fuel, ◌>>=◌, if◌then◌else◌, ltb, ◌==◌, ◌≤◌, ◌≡◌, inl, inr, refl, ap, sym, ◌∙◌,
  false, arith, Yields, yields, Yields-then, Yields-weaken, Ends, exits, blocks, Yields-Ends,
  Ends-then, Ends-weaken, sub_size,
}
use mathlib.Core.List.{append-nil}
use lazyserver.Session.{
  Buffers, Cursor, EventHandler, max_buffer_size, load, alloc_buffer, put, last,
  get_last_recv_buffer, push_recv_buffer,
}
use lazyserver.Session.Store.{buffer_at, texts}
use lazyserver.Session.Alloc.{IsValid}
use lazyserver.Session.Fill.{
  IsOpen, Grown, Grown-then, alloc_buffer-IsOpen, last-IsOpen, IsOpen-here, put-Grown, last-cases,
  last-append,
}
use lazyserver.Session.Put.{load-ok}

-- What `recv` gives: bytes, of which there are none at the end of the stream, EAGAIN or EWOULDBLOCK,
-- or another failure.
pub data Received : Type 0 where
  bytes : List ℕ → Received
  would_block : Received
  failed : Received

pub data ReadEnd : Type 0 where
  finished : ReadEnd
  departed : ReadEnd

-- The last buffer, or a new one if there is none or it is full.
pub open_recv : Buffers → EventHandler → Option ℕ → Run Cursor
open_recv m h none = do (p, m') ← alloc_buffer m; ok (p, m', push_recv_buffer h (some p))
open_recv m h (some p) = do
  b ← load m p
  let new : Run Cursor = do (q, m') ← alloc_buffer m; ok (q, m', push_recv_buffer h (some q))
  if b.size == max_buffer_size then new else ok (p, m, h)

-- The loop, over what `recv` gives. More bytes than it was asked for are undefined behaviour.
pub receive : List Received → Buffers → EventHandler → Run (ReadEnd × Buffers × EventHandler)
receive [] m h = out_of_fuel
receive (would_block ∷ answers) m h = do
  (p, m1, h1) ← open_recv m h (get_last_recv_buffer h)
  b ← load m1 p
  ok (finished, m1, h1)
receive (failed ∷ answers) m h = do
  (p, m1, h1) ← open_recv m h (get_last_recv_buffer h)
  b ← load m1 p
  exited
receive (bytes [] ∷ answers) m h = do
  (p, m1, h1) ← open_recv m h (get_last_recv_buffer h)
  b ← load m1 p
  ok (departed, m1, h1)
receive (bytes (x ∷ part) ∷ answers) m h = do
  (p, m1, h1) ← open_recv m h (get_last_recv_buffer h)
  b ← load m1 p
  let more : Run (ReadEnd × Buffers × EventHandler) = do
    m2 ← put m1 p (x ∷ part)
    receive answers m2 h1
  if ltb (sub_size max_buffer_size b.size) (suc (length part)) then fault else more
