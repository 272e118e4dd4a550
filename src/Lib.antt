-- ===== src/Lib.antt =====
-- The verification library of lazyserver, a small event-driven TCP server library in C++.
--
-- The program. A reactor (reactor.h, reactor.cpp) waits with epoll and calls the users' handlers
-- with a session (event_handler.h). A session sends and receives through fixed buffers from one
-- shared pool (buffer.h). Timers (util_timer.h, util_timer.cpp) stand in a binary heap of pointers
-- (heap.h, heap.cpp), and the reactor calls `tick` on SIGALRM. Beside these stand a growing byte
-- buffer (LazyBuffer, event_handler.h), a block allocator (stl_memory_pool.h, stl_memory_pool.cpp)
-- and wrappers of the system calls (sock_comm.h, sock_comm.cpp).
--
-- The files.
-- Base: shared names. Base/Outcome is the result of a piece of code: a value, undefined behaviour,
--   a failed assert, exit(-1), std::bad_alloc, or the end of the fuel. Base/Size is arithmetic on
--   size_t, modulo 2^64, and Base/Int the signed integers. Base/Slices, Base/Lists and
--   Base/Predicates are about lists.
-- Arrays: heap blocks of pointers as lists with checked loads and stores.
-- Heap: the class Heap. `insert`, `pop`, `top` are Insert, Pop, Top; `rise` and `sink` the loops of
--   ReBuild4Insert and ReBuild4Delete. Heap/Order, Rise, Sink, Storage, Insert, Pop: the proofs;
--   Heap/Session: sequences of operations.
-- Timer: util_timer, timer_heap and lazy_register_timer, over Heap. A timer's address is a number,
--   and the timers are a map from it. `fire` and `rearm` are the two loops of tick.
-- LazyBuffer: the class LazyBuffer, with the vector as a list of bytes and the two indices.
--   LazyBuffer/Calls: sequences of its calls, and what they mean for a plain list of bytes.
-- BufferV: the class BufferV of buffer.h. BufferV/Alike relates two pieces of code by how they end,
--   and BufferV/Same compares the class with LazyBuffer.
-- MemoryPool: stl_memory_pool with `allocate`, `deallocate`, `build_freelist`. A free list is the
--   list of the addresses of its blocks. MemoryPool/Total counts its memory by any measure, and Apart
--   says who has each byte. MemoryPool/Objects: the template MemoryPool<T>.
-- Session: Buffer, BufferPool and EventHandler. A buffer's address is its place in a store, and the
--   lists of the pool and of the session hold addresses, so that sharing can be stated.
-- Reactor: reactor.h, reactor.cpp and default_func.cpp. A session's address is a number, and the
--   sessions are a list by address. Reactor/Setup: the making of a reactor, its handlers and signals.
--   Reactor/Receive and Reactor/Flush: the loops of handle_read and of EPOLLOUT in lazy_loop.
--   Reactor/Defaults: the default handlers. Reactor/Loop: lazy_loop, with handle_accpet, handle_read
--   and handle_sig_timer. Reactor/Outgoing: the way of the bytes from Write to send. Reactor/Watched:
--   the sessions that epoll knows, from the calls of epoll_ctl. Reactor/Sessions, Sound, Handlers,
--   Safety, Created, Steady, Stop: the proofs.
-- SockComm: Socket to Accept, ReadN and WriteN over the sequence of answers that the system gives,
--   and the tables of connections. SockComm/Select and SockComm/Poll: the loops of SelectServer and
--   PollServer.
-- Xepoll: the class epoll of xepoll.h and xepoll.cpp, a second event loop, with its modes ET and LT.
--   The class of its sessions, whose header the repository does not have, and its virtual functions
--   are parameters. Xepoll/Modes: the proofs.
--
-- Bounds and fuel. `rise` and `sink` have one unit of fuel more than the heap has items, and an
-- index at least doubles or halves in each round. `fire` has one more than there are timers, which
-- is enough where the handlers register none. `flush` has one more than there are buffers.
-- `build_freelist` calls itself at most once and has fuel 2. The theorems that a result is given
-- show that the fuel suffices. The loops of ReadN, WriteN and Accept, of handle_read, ET, lazy_loop,
-- ServerLoop, SelectServer and PollServer run over the answers of the system: a call after the last
-- answer blocks.
--
-- Parameters. operator new[], malloc, time(0), the answers of the system and the users' handlers are
-- arguments, as are sizeof(T) and T() of MemoryPool<T>. The users' handlers of timers
-- act on the timers only. `new` of one object, and a vector below 2^63 bytes, are taken to succeed.
-- A write into memory that the allocator does not own is a fault only at the null pointer.
--
-- Not modelled: readFd, which is declared and nowhere defined; Signal, ByteOrder, CreateSockaddr,
-- Close and the signal handlers of sock_comm.cpp, which only call the C library; main.cpp and
-- client.cpp, the example programs.
pub mod Base
pub mod Arrays
pub mod Heap
pub mod Timer
pub mod LazyBuffer
pub mod BufferV
pub mod MemoryPool
pub mod SockComm
pub mod Session
pub mod Reactor
pub mod Xepoll
