-- ===== src/Prelude/Slices.antt =====
-- `take` and `drop` against `++` and against one another.
use Prim.Native.Nat.{ℕ, zero, suc, ◌+◌, ◌-◌, ◌≤◌}
use mathlib.Core.Path.{◌≡◌, refl, sym, ap, ◌∙◌}
use mathlib.Core.List.{List, [], ◌∷◌, ◌++◌}
use native.Mathlib.Omega.{arith}
use replica_wbcache.Prelude.Lists.{length, take, drop, length-take, length-drop}

module _ {ℓ} {A : Type ℓ} where
  pub take-append-drop : (n : ℕ) (xs : List A) → take n xs ++ drop n xs ≡ xs
  take-append-drop zero xs = refl
  take-append-drop (suc n) [] = refl
  take-append-drop (suc n) (x ∷ xs) = ap (λ r. x ∷ r) (take-append-drop n xs)

  pub take_all : (n : ℕ) (xs : List A) → length xs ≤ n → take n xs ≡ xs
  take_all zero [] h = refl
  take_all zero (x ∷ xs) h = absurd (omega arith)
  take_all (suc n) [] h = refl
  take_all (suc n) (x ∷ xs) h = ap (λ r. x ∷ r) (take_all n xs (omega arith))

  pub drop_all : (n : ℕ) (xs : List A) → length xs ≤ n → drop n xs ≡ []
  drop_all zero [] h = refl
  drop_all zero (x ∷ xs) h = absurd (omega arith)
  drop_all (suc n) [] h = refl
  drop_all (suc n) (x ∷ xs) h = drop_all n xs (omega arith)

  pub take-append_left : (n : ℕ) (xs ys : List A) → n ≤ length xs → take n (xs ++ ys) ≡ take n xs
  take-append_left zero xs ys h = refl
  take-append_left (suc n) [] ys h = absurd (omega arith)
  take-append_left (suc n) (x ∷ xs) ys h = ap (λ r. x ∷ r) (take-append_left n xs ys (omega arith))

  pub take-append_right :
      (n : ℕ) (xs ys : List A) → length xs ≤ n → take n (xs ++ ys) ≡ xs ++ take (n - length xs) ys
  take-append_right n [] ys h = ap (λ (k : ℕ). take k ys) (omega arith)
  take-append_right zero (x ∷ xs) ys h = absurd (omega arith)
  take-append_right (suc n) (x ∷ xs) ys h =
      ap (λ r. x ∷ r)
        (take-append_right n xs ys (omega arith) ∙ ap (λ (k : ℕ). xs ++ take k ys) (omega arith))

  pub drop-append_left :
      (n : ℕ) (xs ys : List A) → n ≤ length xs → drop n (xs ++ ys) ≡ drop n xs ++ ys
  drop-append_left zero xs ys h = refl
  drop-append_left (suc n) [] ys h = absurd (omega arith)
  drop-append_left (suc n) (x ∷ xs) ys h = drop-append_left n xs ys (omega arith)

  pub drop-append_right :
      (n : ℕ) (xs ys : List A) → length xs ≤ n → drop n (xs ++ ys) ≡ drop (n - length xs) ys
  drop-append_right n [] ys h = ap (λ (k : ℕ). drop k ys) (omega arith)
  drop-append_right zero (x ∷ xs) ys h = absurd (omega arith)
  drop-append_right (suc n) (x ∷ xs) ys h =
      drop-append_right n xs ys (omega arith) ∙ ap (λ (k : ℕ). drop k ys) (omega arith)

  pub drop-drop : (n m : ℕ) (xs : List A) → drop n (drop m xs) ≡ drop (n + m) xs
  drop-drop n zero xs = ap (λ (k : ℕ). drop k xs) (omega arith)
  drop-drop zero (suc m) xs =
      let e : suc m ≡ zero + suc m = omega arith in ap (λ (k : ℕ). drop k xs) e
  drop-drop (suc n) (suc m) [] = sym (drop_all (suc n + suc m) [] (omega arith))
  drop-drop (suc n) (suc m) (x ∷ xs) =
      let e : suc n + suc m ≡ suc (suc n + m) = omega arith in
      drop-drop (suc n) m xs ∙ sym (ap (λ (k : ℕ). drop k (x ∷ xs)) e)

  pub take-take : (n m : ℕ) (xs : List A) → n ≤ m → take n (take m xs) ≡ take n xs
  take-take zero m xs h = refl
  take-take (suc n) zero xs h = absurd (omega arith)
  take-take (suc n) (suc m) [] h = refl
  take-take (suc n) (suc m) (x ∷ xs) h = ap (λ r. x ∷ r) (take-take n m xs (omega arith))

  -- A slice of a prefix that it fits in is a slice of the whole.
  pub slice-take :
      (o n m : ℕ) (xs : List A) → o + n ≤ m → take n (drop o (take m xs)) ≡ take n (drop o xs)
  slice-take zero n m xs h = take-take n m xs (omega arith)
  slice-take (suc o) n zero xs h = absurd (omega arith)
  slice-take (suc o) n (suc m) [] h = refl
  slice-take (suc o) n (suc m) (x ∷ xs) h = slice-take o n m xs (omega arith)

  -- Two slices that touch are one.
  pub take-add : (n m : ℕ) (xs : List A) → take (n + m) xs ≡ take n xs ++ take m (drop n xs)
  take-add zero m xs = ap (λ (k : ℕ). take k xs) (omega arith)
  take-add (suc n) m [] = take_all (suc n + m) [] (omega arith) ∙ sym (take_all m [] (omega arith))
  take-add (suc n) m (x ∷ xs) =
      let e : suc n + m ≡ suc (n + m) = omega arith in
      ap (λ (k : ℕ). take k (x ∷ xs)) e ∙ ap (λ r. x ∷ r) (take-add n m xs)

  -- A slice that the first of two lists holds, and one that begins in it and goes on.
  pub slice-append_left :
      (off len : ℕ) (xs ys : List A)
      → off + len ≤ length xs
      → take len (drop off (xs ++ ys)) ≡ take len (drop off xs)
  slice-append_left off len xs ys h =
      ap (take len) (drop-append_left off xs ys (omega arith))
      ∙ take-append_left len (drop off xs) ys (omega (arith, length-drop off xs))

  pub slice-append_over :
      (off len : ℕ) (xs ys : List A)
      → off ≤ length xs
      → length xs ≤ off + len
      → take len (drop off (xs ++ ys)) ≡ drop off xs ++ take (len - (length xs - off)) ys
  slice-append_over off len xs ys h k =
      ap (take len) (drop-append_left off xs ys h)
      ∙ take-append_right len (drop off xs) ys (omega (arith, length-drop off xs))
      ∙ ap (λ (j : ℕ). drop off xs ++ take (len - j) ys) (length-drop off xs)

  pub length-slice :
      (off len : ℕ) (xs : List A) → off + len ≤ length xs → length (take len (drop off xs)) ≡ len
  length-slice off len xs h = omega (arith, length-take len (drop off xs), length-drop off xs)
