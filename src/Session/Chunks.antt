-- ===== src/Session/Chunks.antt =====
-- `Write` as a whole: the last buffer is filled, and the rest goes into new ones.
use lazyserver.Base.{
  not_zero, ℕ, zero, suc, ◌+◌, ◌-◌, ◌*◌, ◌/◌, ◌%◌, ◌^◌, ◌≤◌, ◌<◌, ◌≡◌, refl, List, ◌++◌, length,
  take, drop, length-take, length-drop, take-append-drop, arith, Yields, yields, Yields-then,
  Yields-weaken, Yields-test, true, false, ◌==◌, ltb, leb, leb→le, add_size, sub_size,
}
use mathlib.Core.Path.{subst}
use lazyserver.Session.{Buffers, EventHandler, max_buffer_size, rounds, write_rest, write}
use lazyserver.Session.Store.{buffer_at}
use lazyserver.Session.Write.{
  extend_correct, begin_at_correct, IsWritten, IsWritten-then, put-IsWritten, put_all-IsWritten,
}
use lazyserver.Session.Fill.{IsOpen-here, IsOpen-IsShaped}
use lazyserver.Session.Put.{load-ok}
use lazyserver.Session.Alloc.{IsValid}

enough : (n : ℕ) → max_buffer_size ≤ n → ltb n max_buffer_size ≡ false
enough n h = ground arith

-- With one round for each whole buffer and one for the rest, the loop writes all bytes.
write_rest_correct :
    (k : ℕ) (m : Buffers) (others : List ℕ) (h : EventHandler) (bytes : List ℕ)
    → IsValid m (others ++ h.send_buffer_list)
    → k * 1024 ≤ length bytes
    → length bytes < k * 1024 + 1024
    → Yields (IsWritten m others h bytes) (write_rest (suc k) m h bytes)
unfolding write_rest
write_rest_correct zero m others h bytes v lo hi =
    Yields-then (extend_correct m others h v) λ c (a, empty).
      Yields-then (put_all-IsWritten m others h bytes c a empty (omega arith)) λ m' w. yields w
write_rest_correct (suc k) m others h bytes v lo hi =
    Yields-then (extend_correct m others h v) λ c (a, empty).
      let part = take max_buffer_size bytes in
      let size : length part ≡ 1024 = omega (arith, length-take max_buffer_size bytes) in
      let left = length-drop max_buffer_size bytes in
      let more : (suc k == 0) ≡ false = not_zero k in
      let there : ltb (length bytes) max_buffer_size ≡ false =
        enough (length bytes) (omega arith) in
      rw (more, there)
        (Yields-then (put_all-IsWritten m others h part c a empty (omega (arith, size))) λ m' w.
          Yields-weaken
            (λ out w'.
              subst (λ xs. IsWritten m others h xs out) (take-append-drop max_buffer_size bytes)
                (IsWritten-then m others h (m', c.2) out part (drop max_buffer_size bytes) w w'))
            (write_rest_correct k m' others c.2 (drop max_buffer_size bytes) w.grown.valid
              (omega (arith, left)) (omega (arith, left))))

rounds_of_rest : (n : ℕ) → n < 2 ^ 40 → rounds (add_size (n / 1024) 1) ≡ suc (n / 1024)
unfolding rounds
rounds_of_rest n h =
    let same : add_size (n / 1024) 1 % 2 ^ 32 ≡ suc (n / 1024) = omega arith in
    let low : ltb (suc (n / 1024)) (2 ^ 31) ≡ true = ground arith in rw (same, low) refl

-- From a valid state, with a session and the buffers that others hold, `Write` of fewer than 2^40
-- bytes always ends well. What the session's buffers to send hold, one after the other, is what they
-- held before and then exactly the data. Every buffer of the others is as before, the session's
-- received buffers stay, and the state stays valid, so that no buffer is shared or overfull.
pub write_correct :
    (m : Buffers) (others : List ℕ) (h : EventHandler) (bytes : List ℕ)
    → IsValid m (others ++ h.send_buffer_list)
    → length bytes < 2 ^ 40
    → Yields (IsWritten m others h bytes) (write m h bytes)
unfolding write
write_correct m others h bytes v few = Yields-then (begin_at_correct m others h v) λ (p, m1, h1) a.
    let b = buffer_at m1.store p in
    let shape = IsOpen-IsShaped a.at in
    let room = max_buffer_size - b.size in
    let e : sub_size max_buffer_size b.size ≡ room = omega (arith, shape.counted) in
    rw (load-ok m1 p (IsOpen-here a.at), e)
      (Yields-test (leb (length bytes) room)
        (λ small.
          Yields-then
            (put-IsWritten m others h bytes (p, m1, h1) a
              (omega (arith, shape.counted, leb→le _ _ small)))
            λ m2 w. yields w)
        λ large.
          let many : room < length bytes = ground (arith, large) in
          let size : length (take room bytes) ≡ room = omega (arith, length-take room bytes) in
          let rest = drop room bytes in
          let left = length-drop room bytes in
          Yields-then
            (put-IsWritten m others h (take room bytes) (p, m1, h1) a
              (omega (arith, shape.counted, size)))
            λ m2 w. rw (rounds_of_rest (length rest) (omega (arith, left))) (
              Yields-weaken
                (λ out w'.
                  subst (λ xs. IsWritten m others h xs out) (take-append-drop room bytes)
                    (IsWritten-then m others h (m2, h1) out (take room bytes) rest w w'))
                (write_rest_correct (length rest / 1024) m2 others h1 rest w.grown.valid
                  (omega arith) (omega arith))))
