-- ===== src/Session/Tests.antt =====
-- A session on its first state, and one with a buffer that is not full.
use lazyserver.Base.{◌<◌, ℕ, ◌≡◌, [], ◌∷◌, arith, Yields}
use lazyserver.Session.{cleared, Buffers, EventHandler, alloc_buffer, write}
use lazyserver.Base.Int.{pos}
use mathlib.Core.Path.{subst}
use lazyserver.Session.Store.{Same, buffer_at}
use lazyserver.Session.Alloc.{IsShaped, cleared-IsShaped, IsValid, alloc_buffer_correct}
use lazyserver.Session.Write.{IsWritten}
use lazyserver.Session.Chunks.{write_correct}

abbrev no_buffers : Buffers
no_buffers = record { store = []; buffer_list = []; all_buffer_list = [] }

no_buffers-IsValid : IsValid no_buffers []
no_buffers-IsValid = record {
  shaped = λ p h. absurd (omega arith);
  free = tt;
  live = tt;
  distinct = tt;
}

abbrev connected : EventHandler
connected = record { fd = pos 5; recv_buffer_list = []; send_buffer_list = [] }

alloc_buffer_correct_example :
    Yields
      (λ (p, m).
        IsValid m (p ∷ []) × Same no_buffers.store m.store [] × ((buffer_at m.store p).size ≡ 0))
      (alloc_buffer no_buffers)
alloc_buffer_correct_example = alloc_buffer_correct no_buffers [] no_buffers-IsValid

-- One buffer, which the session holds.
abbrev held : Buffers
held = record { store = cleared ∷ []; buffer_list = []; all_buffer_list = 0 ∷ [] }

held-IsValid : IsValid held (0 ∷ [])
held-IsValid = record {
  shaped = λ p h. subst (λ q. IsShaped (buffer_at (cleared ∷ []) q)) (first p h) cleared-IsShaped;
  free = tt;
  live = (omega arith, tt);
  distinct = (tt, tt);
}
  where
    first : (p : ℕ) → p < 1 → 0 ≡ p
    first p h = omega arith

abbrev sending : EventHandler
sending = record { fd = pos 5; recv_buffer_list = []; send_buffer_list = 0 ∷ [] }

-- The buffer 0 is another session's.
write_correct_example :
    Yields
      (IsWritten held (0 ∷ []) connected (b'a' ∷ b'b' ∷ []))
      (write held connected (b'a' ∷ b'b' ∷ []))
write_correct_example =
    write_correct held (0 ∷ []) connected (b'a' ∷ b'b' ∷ []) held-IsValid (omega arith)
