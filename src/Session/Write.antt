-- ===== src/Session/Write.antt =====
-- The steps of `Write` on a session: where it begins, and the buffers it adds.
use lazyserver.Base.{
  ℕ, ◌+◌, ◌≤◌, ◌≡◌, inl, inr, refl, ◌∙◌, List, ◌++◌, length, Yields, yields, Yields-then,
  Yields-weaken, Yields-test, ◌==◌,
}
use lazyserver.Session.{
  Buffers, EventHandler, Cursor, max_buffer_size, get_last_send_buffer, push_send_buffer, extend,
  begin_at, put, put_all,
}
use lazyserver.Session.Store.{buffer_at}
use lazyserver.Session.Alloc.{IsValid}
use lazyserver.Session.Fill.{
  IsOpen, Grown, Grown-then, alloc_buffer-IsOpen, last-IsOpen, IsOpen-here, put-Grown,
  put_all-Grown, last-cases,
}
use lazyserver.Session.Put.{load-ok}

module _ (m : Buffers) (others : List ℕ) (h : EventHandler) where
  -- Where a step of `Write` stands: at the last buffer of the session, which holds what it held.
  pub record IsAt (c : Cursor) : Type 0 where
    pub at : IsOpen m others h.send_buffer_list c.0 c.1 c.2.send_buffer_list
    pub recv_kept : c.2.recv_buffer_list ≡ h.recv_buffer_list
    pub fd_kept : c.2.fd ≡ h.fd

  -- What `Write` leaves. The session holds what it held and then the bytes, the buffers that others
  -- hold are as before, and no buffer is shared.
  pub record IsWritten (bytes : List ℕ) (out : Buffers × EventHandler) : Type 0 where
    pub grown : Grown m others h.send_buffer_list bytes out.0 out.1.send_buffer_list
    pub recv_kept : out.1.recv_buffer_list ≡ h.recv_buffer_list
    pub fd_kept : out.1.fd ≡ h.fd

  pub extend_correct :
      IsValid m (others ++ h.send_buffer_list)
      → Yields (λ c. IsAt c × ((buffer_at c.1.store c.0).size ≡ 0)) (extend m h)
  unfolding extend push_send_buffer
  extend_correct v =
      Yields-then (alloc_buffer-IsOpen m others h.send_buffer_list v)
        λ out (o, empty). yields (record { at = o; recv_kept = refl; fd_kept = refl }, empty)

  pub begin_at_correct :
      IsValid m (others ++ h.send_buffer_list) → Yields IsAt (begin_at m h (get_last_send_buffer h))
  unfolding begin_at get_last_send_buffer
  begin_at_correct v =
      let new = Yields-weaken (λ c r. r.0) (extend_correct v) in
      elim (last-cases h.send_buffer_list) [
        | inl e ↦ rw e new
        | inr (front, p, e, split) ↦
            let o = last-IsOpen m others h.send_buffer_list front p split v in
            rw (e, load-ok m p (IsOpen-here o))
              (Yields-test ((buffer_at m.store p).size == max_buffer_size) (λ full. new)
                λ room. yields (record { at = o; recv_kept = refl; fd_kept = refl }))
      ]

  -- Bytes for the buffer that `Write` is at.
  pub put-IsWritten :
      (bytes : List ℕ) (c : Cursor)
      → IsAt c
      → (buffer_at c.1.store c.0).size + length bytes ≤ max_buffer_size
      → Yields (λ m'. IsWritten bytes (m', c.2)) (put c.1 c.0 bytes)
  put-IsWritten bytes c a fits =
      Yields-weaken (λ m' g. record { grown = g.0; recv_kept = a.recv_kept; fd_kept = a.fd_kept })
        (put-Grown a.at bytes fits)

  pub put_all-IsWritten :
      (bytes : List ℕ) (c : Cursor)
      → IsAt c
      → (buffer_at c.1.store c.0).size ≡ 0
      → length bytes ≤ max_buffer_size
      → Yields (λ m'. IsWritten bytes (m', c.2)) (put_all c.1 c.0 bytes)
  put_all-IsWritten bytes c a empty fits =
      Yields-weaken (λ m' g. record { grown = g; recv_kept = a.recv_kept; fd_kept = a.fd_kept })
        (put_all-Grown a.at bytes empty fits)

-- Bytes, and then more bytes.
pub IsWritten-then :
    (m : Buffers) (others : List ℕ) (h : EventHandler) (out next : Buffers × EventHandler)
    (first second : List ℕ)
    → IsWritten m others h first out
    → IsWritten out.0 others out.1 second next
    → IsWritten m others h (first ++ second) next
IsWritten-then m others h out next first second w w' = record {
  grown = Grown-then first second w.grown w'.grown;
  recv_kept = w'.recv_kept ∙ w.recv_kept;
  fd_kept = w'.fd_kept ∙ w.fd_kept;
}
