-- ===== src/Session.antt =====
-- buffer.h, buffer.cpp and the struct EventHandler of event_handler.h: the shared buffers of 1024
-- bytes, and a session with its lists of them. A buffer's address is its index in `store`, where
-- `new Buffer` adds a place. The socket's address, which no method reads, is left out.
pub mod Store
pub mod Alloc
pub mod Put
pub mod Fill
pub mod Write
pub mod Chunks
pub mod Release
mod Tests
use lazyserver.Base.{
  ℕ, zero, suc, ◌+◌, ◌/◌, ◌%◌, ◌^◌, List, [], ◌∷◌, ◌++◌, length, take, drop, replicate, set,
  get_elem?, Option, some, none, Bool, true, false, ◌||◌, Run, ok, fault, or_fail, ◌>>=◌,
  if◌then◌else◌, ltb, leb, ◌==◌, add_size, sub_size,
}
use lazyserver.Base.Int.{ℤ}
use lazyserver.LazyBuffer.{copy_to}

abbrev pub max_buffer_size : ℕ
max_buffer_size = 1024

pub record Buffer : Type 0 where
  pub size : ℕ
  pub buffer : List ℕ

-- A buffer after `Clear`.
pub cleared : Buffer
cleared = record { size = 0; buffer = replicate max_buffer_size 0 }

-- The buffers that exist, and the two static lists of `BufferPool`.
pub record Buffers : Type 0 where
  pub store : List Buffer
  pub buffer_list : List ℕ
  pub all_buffer_list : List ℕ

-- The loop that makes new buffers.
pub create_buffers : ℕ → Buffers → Buffers
create_buffers zero m = m
create_buffers (suc n) m = create_buffers n (record {
  store = m.store ++ (cleared ∷ []);
  buffer_list = m.buffer_list ++ (length m.store ∷ []);
  all_buffer_list = m.all_buffer_list ++ (length m.store ∷ []);
})

-- `front` and `pop_front`, which on an empty list are undefined behaviour.
pub take_front : Buffers → List ℕ → Run (ℕ × Buffers)
take_front m [] = fault
take_front m (p ∷ free) = ok (p, record m { buffer_list = free })

pub alloc_buffer : Buffers → Run (ℕ × Buffers)
alloc_buffer m =
    let m' = if length m.buffer_list == 0 then create_buffers 8 m else m in
    take_front m' m'.buffer_list

pub load : Buffers → ℕ → Run Buffer
load m p = or_fail fault (get_elem? m.store p)

pub update : Buffers → ℕ → Buffer → Buffers
update m p b = record m { store = set m.store p b }

pub release_buffer : Buffers → Option ℕ → Run Buffers
release_buffer m none = ok m
release_buffer m (some p) = do
  b ← load m p
  let m' = update m p cleared
  ok (record m' { buffer_list = m'.buffer_list ++ (p ∷ []) })

pub record EventHandler : Type 0 where
  pub fd : ℤ
  pub recv_buffer_list : List ℕ
  pub send_buffer_list : List ℕ

-- `front` with `pop_front`, where there is a buffer.
unfoldable pub read : EventHandler → Option ℕ × EventHandler
read h = elim h.recv_buffer_list [
  | [] ↦ (none, h)
  | p ∷ rest ↦ (some p, record h { recv_buffer_list = rest })
]

-- `back`, where there is a buffer.
unfoldable pub last : List ℕ → Option ℕ
last [] = none
last (p ∷ []) = some p
last (p ∷ (q ∷ rest)) = last (q ∷ rest)

unfoldable pub get_last_recv_buffer : EventHandler → Option ℕ
get_last_recv_buffer h = last h.recv_buffer_list

pub get_last_send_buffer : EventHandler → Option ℕ
get_last_send_buffer h = last h.send_buffer_list

unfoldable pub push_recv_buffer : EventHandler → Option ℕ → EventHandler
push_recv_buffer h none = h
push_recv_buffer h (some p) = record h { recv_buffer_list = h.recv_buffer_list ++ (p ∷ []) }

pub push_send_buffer : EventHandler → Option ℕ → EventHandler
push_send_buffer h none = h
push_send_buffer h (some p) = record h { send_buffer_list = h.send_buffer_list ++ (p ∷ []) }

unfoldable pub pop_send_buffer : EventHandler → Option ℕ × EventHandler
pop_send_buffer h = elim h.send_buffer_list [
  | [] ↦ (none, h)
  | p ∷ rest ↦ (some p, record h { send_buffer_list = rest })
]

unfoldable pub get_send_buffer_count : EventHandler → ℕ
get_send_buffer_count h = length h.send_buffer_list

-- The buffers with a session, and the buffer that `Write` is at.
abbrev pub Cursor : Type 0
Cursor = ℕ × Buffers × EventHandler

-- `AllocBuffer` and `PushSendBuffer`.
pub extend : Buffers → EventHandler → Run Cursor
extend m h = do (p, m') ← alloc_buffer m; ok (p, m', push_send_buffer h (some p))

-- Where `Write` begins: at the last buffer, or at a new one if there is none or it is full.
pub begin_at : Buffers → EventHandler → Option ℕ → Run Cursor
begin_at m h none = extend m h
begin_at m h (some p) = do
  b ← load m p
  let new = extend m h
  if b.size == max_buffer_size then new else ok (p, m, h)

-- Bytes behind those of a buffer.
pub put : Buffers → ℕ → List ℕ → Run Buffers
put m p bytes = do
  b ← load m p
  block ← copy_to b.buffer b.size bytes
  ok (update m p (record { size = add_size b.size (length bytes); buffer = block }))

-- A buffer that is written over from its start.
pub put_all : Buffers → ℕ → List ℕ → Run Buffers
put_all m p bytes = do
  b ← load m p
  block ← copy_to b.buffer 0 bytes
  ok (update m p (record { size = length bytes; buffer = block }))

-- How often a loop up to an `int` count runs, where the count is converted from a `size_t`.
pub rounds : ℕ → ℕ
rounds n = let low = n % 2 ^ 32 in if ltb low (2 ^ 31) then low else 0

-- The loop of `Write`. Before its last round it moves 1024 bytes, which are there.
pub write_rest : ℕ → Buffers → EventHandler → List ℕ → Run (Buffers × EventHandler)
write_rest zero m h bytes = ok (m, h)
write_rest (suc n) m h bytes = do
  (p, m1, h1) ← extend m h
  let final = put_all m1 p bytes
  let whole =
      if ltb (length bytes) max_buffer_size
      then fault
      else put_all m1 p (take max_buffer_size bytes)
  m2 ← if n == 0 then final else whole
  write_rest n m2 h1 (if n == 0 then bytes else drop max_buffer_size bytes)

pub write : Buffers → EventHandler → List ℕ → Run (Buffers × EventHandler)
write m h bytes = do
  (p, m1, h1) ← begin_at m h (get_last_send_buffer h)
  b ← load m1 p
  let room = sub_size max_buffer_size b.size
  let small : Run (Buffers × EventHandler) = do m2 ← put m1 p bytes; ok (m2, h1)
  let large : Run (Buffers × EventHandler) = do
    m2 ← put m1 p (take room bytes)
    let rest = drop room bytes
    write_rest (rounds (add_size (length rest / max_buffer_size) 1)) m2 h1 rest
  if leb (length bytes) room then small else large
