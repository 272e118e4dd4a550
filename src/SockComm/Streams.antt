-- ===== src/SockComm/Streams.antt =====
-- `ReadN`, `WriteN` and `Accept` against what the system does.
use lazyserver.Base.{
  ℕ, suc, ◌+◌, ◌-◌, ◌≡◌, ◌⊎◌, refl, ap, ◌∙◌, inl, inr, List, [], ◌∷◌, ◌++◌, map, length, take, drop,
  arith, length-append, ok, exited, ltb, false,
}
use lazyserver.Base.Int.{pos}
use lazyserver.Base.Predicates.{All}
use lazyserver.Base.Slices.{take-all}
use mathlib.Core.List.{append-nil, append_assoc}
use lazyserver.SockComm.{
  Errno, eintr, econnaborted, Answer, value, error, accept, read_loop, read_n, write_loop, write_n,
}

-- `Delivers n answers bytes rest`: to a reader that wants n bytes, the answers up to `rest` bring
-- exactly `bytes`, in parts and with interruptions, until there are n or the stream ends.
pub data Delivers : ℕ → List (Answer (List ℕ)) → List ℕ → List (Answer (List ℕ)) → Type 0 where
  full : {rest : List (Answer (List ℕ))} → Delivers 0 rest [] rest
  ended : {n : ℕ} {rest : List (Answer (List ℕ))} → Delivers (suc n) (value [] ∷ rest) [] rest
  interrupted :
      {n : ℕ} {answers rest : List (Answer (List ℕ))} {bytes : List ℕ}
      → Delivers (suc n) answers bytes rest
      → Delivers (suc n) (error eintr ∷ answers) bytes rest
  part :
      {n : ℕ} {answers rest : List (Answer (List ℕ))} {bytes : List ℕ} (b : ℕ) (bs : List ℕ)
      → Delivers n answers bytes rest
      → Delivers (suc (length bs + n)) (value (b ∷ bs) ∷ answers) (b ∷ (bs ++ bytes)) rest

read_loop-Delivers :
    {n : ℕ} {answers rest : List (Answer (List ℕ))} {bytes : List ℕ} (len : ℕ) (buf : List ℕ)
    → Delivers n answers bytes rest
    → len ≡ length buf + n
    → read_loop len answers n buf ≡ ok (pos (length buf + length bytes), buf ++ bytes, rest)
unfolding read_loop
read_loop-Delivers len buf full e = rw (append-nil buf, e) refl
read_loop-Delivers len buf (ended {n}) e =
    let count : len - suc n ≡ length buf + 0 = omega arith in rw (count, append-nil buf) refl
read_loop-Delivers len buf (interrupted d) e = read_loop-Delivers len buf d e
read_loop-Delivers {rest} len buf (part {n} {bytes} b bs d) e =
    let fits : ltb (length bs + n) (length bs) ≡ false = ground arith in
    let left : length bs + n - length bs ≡ n = omega arith in
    let longer = length-append buf (b ∷ bs) in
    let ih = read_loop-Delivers len (buf ++ (b ∷ bs)) d (omega (arith, longer)) in
    let count : length (buf ++ (b ∷ bs)) + length bytes ≡ length buf + suc (length (bs ++ bytes)) =
      omega (arith, longer, length-append bs bytes) in
    rw (fits, left)
      (ih
        ∙ ap (λ k. ok (pos k, (buf ++ (b ∷ bs)) ++ bytes, rest)) count
        ∙ ap (λ xs. ok (pos (length buf + suc (length (bs ++ bytes))), xs, rest))
            (append_assoc buf (b ∷ bs) bytes))

-- Where the system delivers `bytes` to a reader that wants n, in parts of any size and with any
-- number of interruptions, `ReadN` returns their number and puts exactly them into the buffer: n
-- bytes, or fewer where the stream ends.
pub read_n-Delivers :
    {n : ℕ} {answers rest : List (Answer (List ℕ))} {bytes : List ℕ}
    → Delivers n answers bytes rest
    → read_n answers (pos n) ≡ ok (pos (length bytes), bytes, rest)
unfolding read_n
read_n-Delivers {n} {rest} {bytes} d =
    let count : 0 + length bytes ≡ length bytes = omega arith in
    read_loop-Delivers n [] d (omega arith) ∙ ap (λ k. ok (pos k, bytes, rest)) count

-- `Takes bytes answers rest`: the answers up to `rest` take exactly `bytes` from a writer, in parts
-- and with interruptions.
pub data Takes : List ℕ → List (Answer ℕ) → List (Answer ℕ) → Type 0 where
  all : {rest : List (Answer ℕ)} → Takes [] rest rest
  interrupted :
      {b : ℕ} {bytes : List ℕ} {answers rest : List (Answer ℕ)}
      → Takes (b ∷ bytes) answers rest
      → Takes (b ∷ bytes) (error eintr ∷ answers) rest
  part :
      {bytes : List ℕ} {answers rest : List (Answer ℕ)} (b : ℕ) (bs : List ℕ)
      → Takes bytes answers rest
      → Takes (b ∷ (bs ++ bytes)) (value (suc (length bs)) ∷ answers) rest

take-prefix : (xs ys : List ℕ) → take (length xs) (xs ++ ys) ≡ xs
take-prefix [] ys = refl
take-prefix (x ∷ xs) ys = ap (λ zs. x ∷ zs) (take-prefix xs ys)

drop-prefix : (xs ys : List ℕ) → drop (length xs) (xs ++ ys) ≡ ys
drop-prefix [] ys = refl
drop-prefix (x ∷ xs) ys = drop-prefix xs ys

write_loop-Takes :
    {bytes : List ℕ} {answers rest : List (Answer ℕ)} (len : ℕ) (taken : List ℕ)
    → Takes bytes answers rest
    → write_loop len answers bytes taken ≡ ok (pos len, taken ++ bytes, rest)
unfolding write_loop
write_loop-Takes len taken all = rw (append-nil taken) refl
write_loop-Takes len taken (interrupted t) = write_loop-Takes len taken t
write_loop-Takes {rest} len taken (part {bytes} {answers} b bs t) =
    let ih = write_loop-Takes len (taken ++ (b ∷ bs)) t in
    ap (λ xs. write_loop len answers xs (taken ++ (b ∷ take (length bs) (bs ++ bytes))))
      (drop-prefix bs bytes)
    ∙ ap (λ xs. write_loop len answers bytes (taken ++ (b ∷ xs))) (take-prefix bs bytes)
    ∙ (ih ∙ ap (λ xs. ok (pos len, xs, rest)) (append_assoc taken (b ∷ bs) bytes))

-- Where the system takes the data in parts of any size and with any number of interruptions,
-- `WriteN` returns its length, and what the system has taken is the data.
pub write_n-Takes :
    {bytes : List ℕ} {answers rest : List (Answer ℕ)}
    → Takes bytes answers rest
    → write_n answers (pos (length bytes)) bytes ≡ ok (pos (length bytes), bytes, rest)
unfolding write_n
write_n-Takes {bytes} t =
    rw (take-all (length bytes) bytes (omega arith)) (write_loop-Takes (length bytes) [] t)

-- The failures after which `Accept` tries again.
abbrev pub IsTransient : Errno → Type 0
IsTransient e = (e ≡ eintr) ⊎ (e ≡ econnaborted)

fatal-exited :
    (e : Errno) (answers : List (Answer ℕ))
    → (IsTransient e → ⊥)
    → accept (error e ∷ answers) ≡ exited
unfolding accept
fatal-exited eintr answers fatal = absurd (fatal (inl refl))
fatal-exited econnaborted answers fatal = absurd (fatal (inr refl))
fatal-exited _ answers fatal = refl

-- After any number of interrupted calls and aborted connections, `Accept` returns the descriptor of
-- the first connection, and where another failure comes first, it ends the process.
pub accept_correct :
    (errors : List Errno) (answers : List (Answer ℕ)) (fd : ℕ) (e : Errno)
    → All IsTransient errors
    → (IsTransient e → ⊥)
    → (accept (map error errors ++ (value fd ∷ answers)) ≡ ok (fd, answers))
      × (accept (map error errors ++ (error e ∷ answers)) ≡ exited)
unfolding accept
accept_correct [] answers fd e h fatal = (refl, fatal-exited e answers fatal)
accept_correct (f ∷ errors) answers fd e h fatal = elim h.0 [
  | inl i ↦ rw i (accept_correct errors answers fd e h.1 fatal)
  | inr i ↦ rw i (accept_correct errors answers fd e h.1 fatal)
]
