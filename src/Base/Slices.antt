-- ===== src/Base/Slices.antt =====
-- Parts of a list: prefixes, suffixes, and a part written over another.
use lazyserver.Base.{
  ℕ, zero, suc, ◌+◌, ◌-◌, ◌≤◌, ◌≡◌, refl, ap, sym, ◌∙◌, List, [], ◌∷◌, ◌++◌, arith, length, take,
  drop, length-append, length-take, length-drop,
}

module _ {ℓ} {A : Type ℓ} where
  pub take-append_ge :
      (m : ℕ) (xs ys : List A) → length xs ≤ m → take m (xs ++ ys) ≡ xs ++ take (m - length xs) ys
  take-append_ge m [] ys h = let e : m - 0 ≡ m = omega arith in rw e
  take-append_ge zero (x ∷ xs) ys h = absurd (omega arith)
  take-append_ge (suc m) (x ∷ xs) ys h =
      let e : suc m - suc (length xs) ≡ m - length xs = omega arith in
      rw e (ap (◌∷◌ x) (take-append_ge m xs ys (omega arith)))

  pub take-append_le : (m : ℕ) (xs ys : List A) → m ≤ length xs → take m (xs ++ ys) ≡ take m xs
  take-append_le zero xs ys h = refl
  take-append_le (suc m) [] ys h = absurd (omega arith)
  take-append_le (suc m) (x ∷ xs) ys h = ap (◌∷◌ x) (take-append_le m xs ys (omega arith))

  pub drop-append_le :
      (m : ℕ) (xs ys : List A) → m ≤ length xs → drop m (xs ++ ys) ≡ drop m xs ++ ys
  drop-append_le zero xs ys h = refl
  drop-append_le (suc m) [] ys h = absurd (omega arith)
  drop-append_le (suc m) (x ∷ xs) ys h = drop-append_le m xs ys (omega arith)

  pub drop-all : (m : ℕ) (xs : List A) → length xs ≤ m → drop m xs ≡ []
  drop-all zero [] h = refl
  drop-all zero (x ∷ xs) h = absurd (omega arith)
  drop-all (suc m) [] h = refl
  drop-all (suc m) (x ∷ xs) h = drop-all m xs (omega arith)

  pub take-all : (m : ℕ) (xs : List A) → length xs ≤ m → take m xs ≡ xs
  take-all zero [] h = refl
  take-all zero (x ∷ xs) h = absurd (omega arith)
  take-all (suc m) [] h = refl
  take-all (suc m) (x ∷ xs) h = ap (◌∷◌ x) (take-all m xs (omega arith))

  pub drop-drop : (m n : ℕ) (xs : List A) → drop m (drop n xs) ≡ drop (n + m) xs
  drop-drop m zero xs = let e : 0 + m ≡ m = omega arith in rw e
  drop-drop zero (suc n) [] = sym (drop-all (suc n + 0) [] (omega arith))
  drop-drop (suc m) (suc n) [] = sym (drop-all (suc n + suc m) [] (omega arith))
  drop-drop m (suc n) (x ∷ xs) =
      let e : suc n + m ≡ suc (n + m) = omega arith in rw e (drop-drop m n xs)

  pub drop-take : (r w : ℕ) (xs : List A) → drop r (take w xs) ≡ take (w - r) (drop r xs)
  drop-take zero w xs = let e : w - 0 ≡ w = omega arith in rw e
  drop-take (suc r) zero xs = let e : 0 - suc r ≡ 0 = omega arith in rw e
  drop-take (suc r) (suc w) [] = sym (take-all (suc w - suc r) [] (omega arith))
  drop-take (suc r) (suc w) (x ∷ xs) =
      let e : suc w - suc r ≡ w - r = omega arith in rw e (drop-take r w xs)

  -- `data` written over the part of `xs` that begins at `i`.
  abbrev pub overwrite : List A → ℕ → List A → List A
  overwrite xs i part = take i xs ++ (part ++ drop (i + length part) xs)

  module _ (xs : List A) (i : ℕ) (part : List A) (inside : i + length part ≤ length xs) where
    pub length-overwrite : length (overwrite xs i part) ≡ length xs
    length-overwrite = omega (
      arith,
      length-append (take i xs) (part ++ drop (i + length part) xs),
      length-append part (drop (i + length part) xs),
      length-take i xs,
      length-drop (i + length part) xs,
    )

    length-front : length (take i xs) ≡ i
    length-front = omega (arith, length-take i xs)

    -- Up to the end of the part that was written.
    pub take-overwrite : take (i + length part) (overwrite xs i part) ≡ take i xs ++ part
    take-overwrite =
        let n = i + length part in
        let e : n - length (take i xs) ≡ length part = omega (arith, length-front) in
        take-append_ge n (take i xs) _ (omega (arith, length-front))
        ∙ rw e (
            ap (λ ys. take i xs ++ ys)
              (take-append_le (length part) part _ (omega arith)
                ∙ take-all (length part) part (omega arith)))

    -- From the start of the part that was written, up to an end behind it.
    pub drop-take-overwrite :
        (w : ℕ)
        → i + length part ≤ w
        → drop i (take w (overwrite xs i part))
          ≡ part ++ take (w - (i + length part)) (drop (i + length part) xs)
    drop-take-overwrite w h =
        let rest = drop (i + length part) xs in
        let e : w - i - length part ≡ w - (i + length part) = omega arith in
        let front : drop i (take i xs) ≡ [] =
          drop-all i (take i xs) (omega (arith, length-front)) in
        let behind : drop i (overwrite xs i part) ≡ part ++ rest =
          drop-append_le i (take i xs) (part ++ rest) (omega (arith, length-front))
          ∙ ap (λ ys. ys ++ (part ++ rest)) front in
        drop-take i w (overwrite xs i part)
        ∙ ap (take (w - i)) behind
        ∙ take-append_ge (w - i) part rest (omega arith)
        ∙ ap (λ k. part ++ take k rest) e
