-- ===== src/Reactor/Receive/Stream.antt =====
-- reactor.cpp: that the loop of `handle_read` takes in exactly the stream that arrives.
use lazyserver.Base.{
  ℕ, suc, ◌+◌, ◌-◌, List, [], ◌∷◌, ◌++◌, length, Option, some, none, ok, Bool-cases, ◌>>=◌,
  if◌then◌else◌, ltb, ◌==◌, ◌≤◌, ◌≡◌, inl, inr, refl, ap, sym, ◌∙◌, false, arith, Yields, yields,
  Yields-then, Yields-weaken, Ends, exits, blocks, Yields-Ends, Ends-then, Ends-weaken, sub_size,
}
use mathlib.Core.List.{append-nil}
use lazyserver.Session.{
  Buffers, Cursor, EventHandler, max_buffer_size, alloc_buffer, last, get_last_recv_buffer,
  push_recv_buffer,
}
use lazyserver.Session.Store.{buffer_at, texts}
use lazyserver.Session.Alloc.{IsValid}
use lazyserver.Session.Fill.{
  IsOpen, Grown, Grown-then, alloc_buffer-IsOpen, last-IsOpen, IsOpen-here, put-Grown, last-cases,
  last-append,
}
use lazyserver.Session.Put.{load-ok}
use lazyserver.Reactor.Receive.{
  Received, bytes, would_block, failed, ReadEnd, finished, departed, open_recv, receive,
}

-- How full the buffer is that the next `recv` writes to, where `used` bytes stand in the last one.
abbrev pub used_next : ℕ → ℕ
used_next used = if used == max_buffer_size then 0 else used

-- `Arrives used answers stream end`: with `used` bytes in the last buffer, the answers bring the
-- bytes of the stream, each time at most as many as the buffer has room for, until they end so.
pub data Arrives : ℕ → List Received → List ℕ → ReadEnd → Type 0 where
  all_read : {used : ℕ} {answers : List Received} → Arrives used (would_block ∷ answers) [] finished
  closed : {used : ℕ} {answers : List Received} → Arrives used (bytes [] ∷ answers) [] departed
  part :
      {used : ℕ} {answers : List Received} {stream : List ℕ} {end : ReadEnd} (x : ℕ) (xs : List ℕ)
      → used_next used + suc (length xs) ≤ max_buffer_size
      → Arrives (used_next used + suc (length xs)) answers stream end
      → Arrives used (bytes (x ∷ xs) ∷ answers) (x ∷ (xs ++ stream)) end

-- How full the last buffer is; without one, the next bytes go to a new one, as after a full one.
abbrev pub used_at : Buffers → Option ℕ → ℕ
used_at m none = max_buffer_size
used_at m (some p) = (buffer_at m.store p).size

abbrev pub used_last : Buffers → List ℕ → ℕ
used_last m qs = used_at m (last qs)

last_size :
    (m : Buffers) (qs front : List ℕ) (p : ℕ)
    → qs ≡ front ++ (p ∷ [])
    → used_last m qs ≡ (buffer_at m.store p).size
last_size m qs front p e = ap (used_at m) (ap last e ∙ last-append front p)

few_enough :
    (size n : ℕ) → size + n ≤ max_buffer_size → ltb (sub_size max_buffer_size size) n ≡ false
few_enough size n h =
    let room : sub_size max_buffer_size size ≡ max_buffer_size - size = omega arith in
    rw room (ground arith)

module _ (m : Buffers) (others : List ℕ) (h : EventHandler) where
  -- Where `recv` writes to.
  pub record IsReady (c : Cursor) : Type 0 where
    pub at : IsOpen m others h.recv_buffer_list c.0 c.1 c.2.recv_buffer_list
    pub used : (buffer_at c.1.store c.0).size ≡ used_next (used_last m h.recv_buffer_list)
    pub send_kept : c.2.send_buffer_list ≡ h.send_buffer_list
    pub fd_kept : c.2.fd ≡ h.fd

  -- After the loop: the session holds what it held and then these bytes.
  pub record HasReceived (stream : List ℕ) (out : ReadEnd × Buffers × EventHandler) : Type 0 where
    pub grown : Grown m others h.recv_buffer_list stream out.1 out.2.recv_buffer_list
    pub send_kept : out.2.send_buffer_list ≡ h.send_buffer_list
    pub fd_kept : out.2.fd ≡ h.fd

  new-IsReady :
      IsValid m (others ++ h.recv_buffer_list)
      → used_next (used_last m h.recv_buffer_list) ≡ 0
      → Yields IsReady (alloc_buffer m >>= λ (p, m'). ok (p, m', push_recv_buffer h (some p)))
  unfolding push_recv_buffer
  new-IsReady v fresh =
      Yields-then (alloc_buffer-IsOpen m others h.recv_buffer_list v) λ (p, m') (o, empty).
        yields (record { at = o; used = empty ∙ sym fresh; send_kept = refl; fd_kept = refl })

  open_recv-IsReady :
      IsValid m (others ++ h.recv_buffer_list)
      → Yields IsReady (open_recv m h (get_last_recv_buffer h))
  unfolding open_recv get_last_recv_buffer
  open_recv-IsReady v = elim (last-cases h.recv_buffer_list) [
    | inl e ↦
        let fresh : used_next (used_last m h.recv_buffer_list) ≡ 0 =
          ap (λ o. used_next (used_at m o)) e in
        let new = new-IsReady v fresh in rw e new
    | inr (front, p, e, split) ↦
        let o = last-IsOpen m others h.recv_buffer_list front p split v in
        let size : used_last m h.recv_buffer_list ≡ (buffer_at m.store p).size = ap (used_at m) e in
        elim (Bool-cases ((buffer_at m.store p).size == max_buffer_size)) [
          | inl full ↦
              let fresh : used_next (used_last m h.recv_buffer_list) ≡ 0 = rw (size, full) refl in
              let new = new-IsReady v fresh in rw (e, load-ok m p (IsOpen-here o), full) new
          | inr room ↦
              let used : (buffer_at m.store p).size ≡ used_next (used_last m h.recv_buffer_list) =
                rw (size, room) refl in
              rw (e, load-ok m p (IsOpen-here o), room)
                (yields (record { at = o; used = used; send_kept = refl; fd_kept = refl }))
        ]
  ]

module _ (others : List ℕ) where
  -- Where the loop stops without further bytes.
  stopped :
      (m : Buffers) (h : EventHandler) (end : ReadEnd) (c : Cursor)
      → IsReady m others h c
      → HasReceived m others h [] (end, c.1, c.2)
  stopped m h end c r = record {
    grown = record {
      valid = r.at.valid;
      kept = r.at.kept;
      holds = r.at.holds ∙ sym (append-nil (texts m.store h.recv_buffer_list));
    };
    send_kept = r.send_kept;
    fd_kept = r.fd_kept;
  }

  -- From a valid state, with a session and the buffers that others hold: where `recv` brings a stream
  -- of bytes, in parts of any size up to what it is asked for, until it would block or the stream
  -- ends, the loop ends so too, and what the session's received buffers hold is what they held and
  -- then exactly the stream. Every buffer of the others is as before, the session's buffers to send
  -- stay, and the state stays valid.
  pub receive-HasReceived :
      (m : Buffers) (h : EventHandler) {used : ℕ} {answers : List Received} {stream : List ℕ}
      {end : ReadEnd}
      → Arrives used answers stream end
      → used ≡ used_last m h.recv_buffer_list
      → IsValid m (others ++ h.recv_buffer_list)
      → Yields (λ out. HasReceived m others h stream out × (out.0 ≡ end)) (receive answers m h)
  unfolding receive
  receive-HasReceived m h all_read e v =
      Yields-then (open_recv-IsReady m others h v)
        λ c r. rw (load-ok c.1 c.0 (IsOpen-here r.at)) (yields (stopped m h finished c r, refl))
  receive-HasReceived m h closed e v =
      Yields-then (open_recv-IsReady m others h v)
        λ c r. rw (load-ok c.1 c.0 (IsOpen-here r.at)) (yields (stopped m h departed c r, refl))
  receive-HasReceived m h (part {used} {stream} {end} x xs fits rest) e v =
      Yields-then (open_recv-IsReady m others h v) λ (p, m1, h1) r.
        let size : (buffer_at m1.store p).size ≡ used_next used = r.used ∙ ap used_next (sym e) in
        let room : (buffer_at m1.store p).size + suc (length xs) ≤ max_buffer_size = rw size fits in
        let few : ltb (sub_size max_buffer_size (buffer_at m1.store p).size) (suc (length xs))
            ≡ false =
          few_enough (buffer_at m1.store p).size (suc (length xs)) room in
        rw (load-ok m1 p (IsOpen-here r.at), few)
          (Yields-then (put-Grown r.at (x ∷ xs) room) λ m2 (g, grew).
            let last : used_last m2 h1.recv_buffer_list ≡ (buffer_at m2.store p).size =
              last_size m2 h1.recv_buffer_list r.at.front p r.at.ends in
            Yields-weaken
              (λ out (got, ended). (
                record {
                  grown = Grown-then (x ∷ xs) stream g got.grown;
                  send_kept = got.send_kept ∙ r.send_kept;
                  fd_kept = got.fd_kept ∙ r.fd_kept;
                },
                ended,
              ))
              (receive-HasReceived m2 h1 rest
                (sym (last ∙ (grew ∙ ap (λ k. k + suc (length xs)) size))) g.valid))

-- `recv` gives at most as many bytes as it is asked for, with `used` bytes in the last buffer.
abbrev pub Within : ℕ → List Received → Type 0
Within used [] = Unit
Within used (would_block ∷ answers) = Unit
Within used (failed ∷ answers) = Unit
Within used (bytes [] ∷ answers) = Unit
Within used (bytes (x ∷ xs) ∷ answers) =
    (used_next used + suc (length xs) ≤ max_buffer_size)
    × Within (used_next used + suc (length xs)) answers

module _ (others : List ℕ) where
  abbrev pub IsKept : Buffers → EventHandler → ReadEnd × Buffers × EventHandler → Type 0
  IsKept m h out = (stream : List ℕ) × HasReceived m others h stream out

  -- Whatever `recv` gives within its bounds, the loop has no undefined behaviour.
  pub receive-Ends :
      (answers : List Received) (m : Buffers) (h : EventHandler) (used : ℕ)
      → Within used answers
      → used ≡ used_last m h.recv_buffer_list
      → IsValid m (others ++ h.recv_buffer_list)
      → Ends (IsKept m h) (receive answers m h)
  unfolding receive
  receive-Ends [] m h used b e v = blocks
  receive-Ends (would_block ∷ answers) m h used b e v = Yields-Ends (
      Yields-weaken (λ out r. ([], r.0))
        (receive-HasReceived others m h (all_read {used = used} {answers = answers}) e v))
  receive-Ends (failed ∷ answers) m h used b e v =
      Ends-then (Yields-Ends (open_recv-IsReady m others h v))
        λ c eq r. rw (load-ok c.1 c.0 (IsOpen-here r.at)) exits
  receive-Ends (bytes [] ∷ answers) m h used b e v = Yields-Ends (
      Yields-weaken (λ out r. ([], r.0))
        (receive-HasReceived others m h (closed {used = used} {answers = answers}) e v))
  receive-Ends (bytes (x ∷ xs) ∷ answers) m h used b e v =
      Ends-then (Yields-Ends (open_recv-IsReady m others h v)) λ (p, m1, h1) eq r.
        let size : (buffer_at m1.store p).size ≡ used_next used = r.used ∙ ap used_next (sym e) in
        let room : (buffer_at m1.store p).size + suc (length xs) ≤ max_buffer_size = rw size b.0 in
        let few : ltb (sub_size max_buffer_size (buffer_at m1.store p).size) (suc (length xs))
            ≡ false =
          few_enough (buffer_at m1.store p).size (suc (length xs)) room in
        rw (load-ok m1 p (IsOpen-here r.at), few)
          (Ends-then (Yields-Ends (put-Grown r.at (x ∷ xs) room)) λ m2 eq2 (g, grew).
            let last : used_last m2 h1.recv_buffer_list ≡ (buffer_at m2.store p).size =
              last_size m2 h1.recv_buffer_list r.at.front p r.at.ends in
            Ends-weaken
              (λ out (stream, got). (
                (x ∷ xs) ++ stream,
                record {
                  grown = Grown-then (x ∷ xs) stream g got.grown;
                  send_kept = got.send_kept ∙ r.send_kept;
                  fd_kept = got.fd_kept ∙ r.fd_kept;
                },
              ))
              (receive-Ends answers m2 h1 (used_next used + suc (length xs)) b.1
                (sym (last ∙ (grew ∙ ap (λ k. k + suc (length xs)) size))) g.valid))
