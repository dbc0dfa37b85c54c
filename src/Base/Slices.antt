-- ===== src/Base/Slices.antt =====
-- Pieces of a list: what stands before a position, from one position to another, and after it.
use Prim.Native.Nat.{ℕ, zero, suc, ◌-◌, ◌≤◌, min}
use mathlib.Core.Path.{◌≡◌, refl, ap, ◌∙◌, sym}
use mathlib.Core.List.{List, [], ◌∷◌, ◌++◌}
use native.Mathlib.Omega.{arith}
use role_provider_service.Base.Lists.{length, take, drop}

module _ {ℓ} {A : Type ℓ} where
  -- `xs[start:end]`
  unfoldable pub slice : ℕ → ℕ → List A → List A
  slice start end xs = drop start (take end xs)

  pub take-drop : (n : ℕ) (xs : List A) → take n xs ++ drop n xs ≡ xs
  take-drop zero xs = refl
  take-drop (suc n) [] = refl
  take-drop (suc n) (x ∷ xs) = ap (λ ys. x ∷ ys) (take-drop n xs)

  pub length-take : (n : ℕ) (xs : List A) → length (take n xs) ≡ min n (length xs)
  length-take zero xs = ground arith
  length-take (suc n) [] = ground arith
  length-take (suc n) (x ∷ xs) = ground (arith, length-take n xs)

  pub length-drop : (n : ℕ) (xs : List A) → length (drop n xs) ≡ length xs - n
  length-drop zero xs = omega arith
  length-drop (suc n) [] = omega arith
  length-drop (suc n) (x ∷ xs) = omega (arith, length-drop n xs)

  pub take-take : (m n : ℕ) (xs : List A) → m ≤ n → take m (take n xs) ≡ take m xs
  take-take zero n xs h = refl
  take-take (suc m) zero xs h = absurd (omega arith)
  take-take (suc m) (suc n) [] h = refl
  take-take (suc m) (suc n) (x ∷ xs) h = ap (λ ys. x ∷ ys) (take-take m n xs (omega arith))

  pub drop_all : (n : ℕ) (xs : List A) → length xs ≤ n → drop n xs ≡ []
  drop_all zero [] h = refl
  drop_all zero (x ∷ xs) h = absurd (omega arith)
  drop_all (suc n) [] h = refl
  drop_all (suc n) (x ∷ xs) h = drop_all n xs (omega arith)

  pub slice-split : (m n : ℕ) (xs : List A) → m ≤ n → take m xs ++ slice m n xs ++ drop n xs ≡ xs
  unfolding slice
  slice-split m n xs h =
      ap (λ ys. (ys ++ drop m (take n xs)) ++ drop n xs) (sym (take-take m n xs h))
      ∙ ap (λ ys. ys ++ drop n xs) (take-drop m (take n xs))
      ∙ take-drop n xs

  pub length-slice : (m n : ℕ) (xs : List A) → length (slice m n xs) ≡ min n (length xs) - m
  unfolding slice
  length-slice m n xs = omega (arith, length-drop m (take n xs), length-take n xs)
