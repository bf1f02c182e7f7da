-- ===== src/Buffer/Memory.antt =====
-- Lemmas on blocks of memory.
use usbfluxd.Prelude.{
  ℕ, zero, suc, ◌+◌, ◌≤◌, ◌≡◌, refl, ap, List, [], ◌∷◌, ◌++◌, length, take, drop, replicate, arith,
}

module _ {ℓ} {A : Type ℓ} where
  pub take-append : (n : ℕ) (xs ys : List A) → length xs ≡ n → take n (xs ++ ys) ≡ xs
  take-append zero [] ys h = refl
  take-append zero (x ∷ xs) ys h = absurd (omega arith)
  take-append (suc n) [] ys h = absurd (omega arith)
  take-append (suc n) (x ∷ xs) ys h = ap (λ r. x ∷ r) (take-append n xs ys (omega arith))

  pub drop-append : (n : ℕ) (xs ys : List A) → length xs ≡ n → drop n (xs ++ ys) ≡ ys
  drop-append zero [] ys h = refl
  drop-append zero (x ∷ xs) ys h = absurd (omega arith)
  drop-append (suc n) [] ys h = absurd (omega arith)
  drop-append (suc n) (x ∷ xs) ys h = drop-append n xs ys (omega arith)

  pub take-append_le : (n : ℕ) (xs ys : List A) → n ≤ length xs → take n (xs ++ ys) ≡ take n xs
  take-append_le zero xs ys h = refl
  take-append_le (suc n) [] ys h = absurd (omega arith)
  take-append_le (suc n) (x ∷ xs) ys h = ap (λ r. x ∷ r) (take-append_le n xs ys (omega arith))

  pub take-all : (n : ℕ) (xs : List A) → length xs ≤ n → take n xs ≡ xs
  take-all zero [] h = refl
  take-all zero (x ∷ xs) h = absurd (omega arith)
  take-all (suc n) [] h = refl
  take-all (suc n) (x ∷ xs) h = ap (λ r. x ∷ r) (take-all n xs (omega arith))

  pub take-take : (m n : ℕ) (xs : List A) → m ≤ n → take m (take n xs) ≡ take m xs
  take-take zero n xs h = refl
  take-take (suc m) zero xs h = absurd (omega arith)
  take-take (suc m) (suc n) [] h = refl
  take-take (suc m) (suc n) (x ∷ xs) h = ap (λ r. x ∷ r) (take-take m n xs (omega arith))

  pub take-drop : (k n m : ℕ) (xs : List A) → m ≡ n + k → take k (drop n xs) ≡ drop n (take m xs)
  take-drop k zero m xs e = ap (λ (j : ℕ). take j xs) (omega arith)
  take-drop k (suc n) zero xs e = absurd (omega arith)
  take-drop zero (suc n) (suc m) [] e = refl
  take-drop (suc k) (suc n) (suc m) [] e = refl
  take-drop zero (suc n) (suc m) (x ∷ xs) e = take-drop zero n m xs (omega arith)
  take-drop (suc k) (suc n) (suc m) (x ∷ xs) e = take-drop (suc k) n m xs (omega arith)

  pub drop-replicate : (n : ℕ) (a : A) → drop n (replicate (suc n) a) ≡ a ∷ []
  drop-replicate zero a = refl
  drop-replicate (suc n) a = drop-replicate n a
