-- ===== src/Reactor/Outgoing.antt =====
-- A session's way out, from `Write` to `send`, as a queue of bytes.
use lazyserver.Base.{
  ℕ, ◌≡◌, ◌<◌, ◌^◌, refl, ap, sym, ◌∙◌, List, [], ◌∷◌, ◌++◌, length, Run, ok, ◌>>=◌, Yields, yields,
  Yields-then, Yields-weaken,
}
use mathlib.Core.List.{append-nil}
use mathlib.Core.Path.{subst}
use lazyserver.Session.{Buffers, EventHandler, write}
use lazyserver.Session.Store.{texts, Same, Same-refl, Same-trans}
use lazyserver.Session.Alloc.{IsValid}
use lazyserver.Session.Chunks.{write_correct}
use lazyserver.Reactor.Flush.{joined, joined-each, handle_write, handle_write-IsFlushed}

-- A call of `Write` by a handler, or an event EPOLLOUT in the loop.
pub data Action : Type 0 where
  put_data : List ℕ → Action
  output : Action

-- The program: the pool, the session, and what it has passed to `send`.
pub record State : Type 0 where
  pub buffers : Buffers
  pub session : EventHandler
  pub passed : List ℕ

pub step : Action → State → Run State
step (put_data bytes) s = do
  (m, h) ← write s.buffers s.session bytes
  ok (record { buffers = m; session = h; passed = s.passed })
step output s = do
  (m, h, parts) ← handle_write s.buffers s.session
  ok (record { buffers = m; session = h; passed = s.passed ++ joined parts })

pub run : List Action → State → Run State
run [] s = ok s
run (a ∷ actions) s = do s' ← step a s; run actions s'

-- What a user of the server sees: a queue of bytes, and what has left it.
pub record Queue : Type 0 where
  pub waiting : List ℕ
  pub left : List ℕ

abbrev pub promise : Action → Queue → Queue
promise (put_data bytes) q = record q { waiting = q.waiting ++ bytes }
promise output q = record { waiting = []; left = q.left ++ q.waiting }

abbrev pub promises : List Action → Queue → Queue
promises [] q = q
promises (a ∷ actions) q = promises actions (promise a q)

-- The program stands for a queue, next to buffers that others hold.
pub record Implements (others : List ℕ) (s : State) (q : Queue) : Type 0 where
  pub valid : IsValid s.buffers (others ++ s.session.send_buffer_list)
  pub waiting : texts s.buffers.store s.session.send_buffer_list ≡ q.waiting
  pub left : s.passed ≡ q.left

-- Each `Write` has fewer than 2^40 bytes.
abbrev pub AllSmall : List Action → Type 0
AllSmall [] = Unit
AllSmall (put_data bytes ∷ actions) = (length bytes < 2 ^ 40) × AllSmall actions
AllSmall (output ∷ actions) = AllSmall actions

-- One step keeps what the program stands for, and the others' buffers.
abbrev pub Simulates : List ℕ → State → Queue → State → Type 0
Simulates others s q s' = Implements others s' q × Same s.buffers.store s'.buffers.store others

module _ (others : List ℕ) where
  step-put_data :
      (bytes : List ℕ) (s : State) (q : Queue)
      → length bytes < 2 ^ 40
      → Implements others s q
      → Yields (Simulates others s (promise (put_data bytes) q)) (step (put_data bytes) s)
  unfolding step
  step-put_data bytes s q few i =
      Yields-then (write_correct s.buffers others s.session bytes i.valid few) λ (m, h) w. yields (
        record {
          valid = w.grown.valid;
          waiting = w.grown.holds ∙ ap (λ xs. xs ++ bytes) i.waiting;
          left = i.left;
        },
        w.grown.kept,
      )

  step-output :
      (s : State) (q : Queue)
      → Implements others s q
      → Yields (Simulates others s (promise output q)) (step output s)
  unfolding step
  step-output s q i =
      Yields-then (handle_write-IsFlushed s.buffers others s.session i.valid) λ (m, h, parts) f.
        yields (
          record {
            valid =
                subst (λ xs. IsValid m (others ++ xs)) (sym f.none_left)
                  (subst (IsValid m) (sym (append-nil others)) f.valid);
            waiting = ap (texts m.store) f.none_left;
            left =
                rw
                  (
                    ap joined f.calls ∙ joined-each s.buffers.store s.session.send_buffer_list,
                    i.left,
                    i.waiting,
                  )
                  refl;
          },
          f.kept,
        )

  -- A session refines a queue of bytes. Whatever calls of `Write` and events EPOLLOUT come, in any
  -- order, each with fewer than 2^40 bytes: the program ends each of them, and then the session holds
  -- what is in the queue and has passed to `send` what has left it, each byte once and in the order of
  -- the calls. The buffers that others hold, in other sessions or received, are as before.
  pub run-Implements :
      (actions : List Action) (s : State) (q : Queue)
      → AllSmall actions
      → Implements others s q
      → Yields (Simulates others s (promises actions q)) (run actions s)
  unfolding run
  run-Implements [] s q few i = yields (i, Same-refl s.buffers.store others)
  run-Implements (put_data bytes ∷ actions) s q few i =
      Yields-then (step-put_data bytes s q few.0 i) λ s1 (i1, kept).
        Yields-weaken
          (λ s' r.
            (r.0, Same-trans s.buffers.store s1.buffers.store s'.buffers.store others kept r.1))
          (run-Implements actions s1 (promise (put_data bytes) q) few.1 i1)
  run-Implements (output ∷ actions) s q few i = Yields-then (step-output s q i) λ s1 (i1, kept).
      Yields-weaken
        (λ s' r.
          (r.0, Same-trans s.buffers.store s1.buffers.store s'.buffers.store others kept r.1))
        (run-Implements actions s1 (promise output q) few i1)
