-- ===== src/SockComm.antt =====
-- sock_comm.cpp: the wrappers of the system calls. The system is the list of what its calls give,
-- in their order: a value, or a failure with its `errno`. A call past the end of the list blocks.
pub mod Streams
pub mod Slots
pub mod Select
pub mod Poll
mod Tests
use lazyserver.Base.{
  ℕ, zero, suc, ◌+◌, ◌-◌, List, [], ◌∷◌, ◌++◌, length, take, drop, set, Bool, true, false, Run, ok,
  fault, exited, out_of_fuel, if◌then◌else◌, ltb, leb, ◌==◌,
}
use lazyserver.Base.Int.{ℤ, pos, negsuc}

-- The values of `errno` that the wrappers tell apart, and any other.
pub data Errno : Type 0 where
  eintr : Errno
  econnaborted : Errno
  etimedout : Errno
  econnrefused : Errno
  ehostunreach : Errno
  enetunreach : Errno
  eaddrinuse : Errno
  other : ℕ → Errno

pub data Answer (A : Type 0) : Type 0 where
  value : A → Answer A
  error : Errno → Answer A

-- `Socket`
pub open_socket : Answer ℕ → Run ℕ
open_socket (value fd) = ok fd
open_socket (error e) = exited

-- `Connect`: a server that is slow, absent or unreachable gives -1.
pub connect : Answer ℕ → Run ℤ
connect (value ret) = ok (pos ret)
connect (error etimedout) = ok (negsuc 0)
connect (error econnrefused) = ok (negsuc 0)
connect (error ehostunreach) = ok (negsuc 0)
connect (error enetunreach) = ok (negsuc 0)
connect (error _) = exited

-- `Bind`
pub bind : Answer ℕ → Run ℕ
bind (value ret) = ok ret
bind (error e) = exited

-- `Listen`
pub listen : Answer ℕ → Run ℕ
listen (value ret) = ok ret
listen (error e) = exited

-- `Accept`, with the answers that it leaves.
pub accept : List (Answer ℕ) → Run (ℕ × List (Answer ℕ))
accept [] = out_of_fuel
accept (value fd ∷ answers) = ok (fd, answers)
accept (error econnaborted ∷ answers) = accept answers
accept (error eintr ∷ answers) = accept answers
accept (error _ ∷ answers) = exited

-- The loop of `ReadN`, with `left` bytes to go and `buf` filled so far: its result, what stands in
-- `buf`, and the answers that it leaves. A `read` that gives more than it was asked for writes
-- behind `buf`.
pub read_loop : ℕ → List (Answer (List ℕ)) → ℕ → List ℕ → Run (ℤ × List ℕ × List (Answer (List ℕ)))
read_loop len answers zero buf = ok (pos len, buf, answers)
read_loop len [] (suc left) buf = out_of_fuel
read_loop len (error eintr ∷ answers) (suc left) buf = read_loop len answers (suc left) buf
read_loop len (error _ ∷ answers) (suc left) buf = ok (negsuc 0, buf, answers)
read_loop len (value [] ∷ answers) (suc left) buf = ok (pos (len - suc left), buf, answers)
read_loop len (value (b ∷ bytes) ∷ answers) (suc left) buf =
    let rest = read_loop len answers (left - length bytes) (buf ++ (b ∷ bytes)) in
    if ltb left (length bytes) then fault else rest

-- `ReadN`
pub read_n : List (Answer (List ℕ)) → ℤ → Run (ℤ × List ℕ × List (Answer (List ℕ)))
read_n answers (negsuc n) = ok (negsuc 0, [], answers)
read_n answers (pos len) = read_loop len answers len []

-- The loop of `WriteN`: what is left of the data, and what the system has taken. A `write` that
-- takes 0 bytes ends it like an error.
pub write_loop : ℕ → List (Answer ℕ) → List ℕ → List ℕ → Run (ℤ × List ℕ × List (Answer ℕ))
write_loop len answers [] taken = ok (pos len, taken, answers)
write_loop len [] (b ∷ left) taken = out_of_fuel
write_loop len (error eintr ∷ answers) (b ∷ left) taken = write_loop len answers (b ∷ left) taken
write_loop len (error _ ∷ answers) (b ∷ left) taken = ok (negsuc 0, taken, answers)
write_loop len (value zero ∷ answers) (b ∷ left) taken = ok (negsuc 0, taken, answers)
write_loop len (value (suc n) ∷ answers) (b ∷ left) taken =
    write_loop len answers (drop n left) (taken ++ (b ∷ take n left))

-- `WriteN`: `len` is the length of the data, or negative.
pub write_n : List (Answer ℕ) → ℤ → List ℕ → Run (ℤ × List ℕ × List (Answer ℕ))
write_n answers (negsuc n) bytes = ok (negsuc 0, [], answers)
write_n answers (pos len) bytes = write_loop len answers (take len bytes) []

-- The slots of `SelectServer` and `PollServer`, where a negative descriptor is a free slot, and the
-- greatest index in use.
pub record SlotTable : Type 0 where
  pub client : List ℤ
  pub max_index : ℕ

-- The first free slot, or the number of slots.
pub first_free : List ℤ → ℕ
first_free [] = 0
first_free (negsuc n ∷ fds) = 0
first_free (pos fd ∷ fds) = suc (first_free fds)

-- A new connection in `SelectServer`. With all slots taken it is closed.
pub select_add : SlotTable → ℕ → SlotTable
select_add s conn_fd =
    let i = first_free s.client in
    if leb (length s.client) i then s else record {
      client = set s.client i (pos conn_fd);
      max_index = if ltb s.max_index i then i else s.max_index;
    }

-- A new connection in `PollServer`. With all slots taken it is closed, but the index counts.
pub poll_add : SlotTable → ℕ → SlotTable
poll_add s conn_fd =
    let i = first_free s.client in
    record {
      client = set s.client i (pos conn_fd);
      max_index = if ltb s.max_index i then i else s.max_index;
    }
