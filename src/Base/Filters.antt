-- ===== src/Base/Filters.antt =====
-- Filters by a Boolean test, and their laws.
use Prim.Native.Nat.{◌≤◌}
use mathlib.Core.Path.{◌≡◌, refl}
use mathlib.Core.Logic.{◌↔◌, inl, inr}
use mathlib.Core.Bool.{Bool, true, false, ◌||◌, ◌&&◌}
use mathlib.Core.List.{List, [], ◌∷◌, Memᴰ}
use mathlib.Core.List.Memᴰ
use native.Mathlib.Omega.{arith}
use role_provider_service.Base.Tests.{if◌then◌else◌, Bool-cases}
use role_provider_service.Base.Lists.{length, Memᴰ-cons, All}

module _ {ℓ} {A : Type ℓ} where
  -- What a loop that skips by `continue` and appends the rest leaves.
  unfoldable pub filter : (A → Bool) → List A → List A
  filter p [] = []
  filter p (x ∷ xs) = let rest = filter p xs in if p x then x ∷ rest else rest

  -- `slices.ContainsFunc`.
  unfoldable pub any : (A → Bool) → List A → Bool
  any p [] = false
  any p (x ∷ xs) = p x || any p xs

  -- A regular expression's class repeated over the whole list.
  unfoldable pub all : (A → Bool) → List A → Bool
  all p [] = true
  all p (x ∷ xs) = p x && all p xs

module _ {ℓ} {A : Type ℓ} (p : A → Bool) where
  pub mem-filter : (a : A) (xs : List A) → Memᴰ a (filter p xs) ↔ (Memᴰ a xs × (p a ≡ true))
  unfolding filter
  mem-filter a [] = (λ m. absurd (Memᴰ.not-nil m), λ m. absurd (Memᴰ.not-nil m.0))
  mem-filter a (x ∷ xs) =
      ground (arith, Memᴰ-cons a x xs, Memᴰ-cons a x (filter p xs), mem-filter a xs)

  pub length-filter-le : (xs : List A) → length (filter p xs) ≤ length xs
  unfolding filter
  length-filter-le [] = omega arith
  length-filter-le (x ∷ xs) = ground (arith, length-filter-le xs)

  pub any-false : (xs : List A) → any p xs ≡ false → (a : A) → Memᴰ a xs → p a ≡ false
  unfolding any
  any-false [] h a m = absurd (Memᴰ.not-nil m)
  any-false (x ∷ xs) h a m =
      ground (arith, any-false xs, Memᴰ-cons a x xs, any-false xs (ground arith) a)

  pub any_of_mem : (xs : List A) (a : A) → Memᴰ a xs → p a ≡ true → any p xs ≡ true
  unfolding any
  any_of_mem [] a m h = absurd (Memᴰ.not-nil m)
  any_of_mem (x ∷ xs) a m h = ground (arith, any_of_mem xs a, Memᴰ-cons a x xs)

  pub any-true : (xs : List A) → any p xs ≡ true → (a : A) × Memᴰ a xs × (p a ≡ true)
  unfolding any
  any-true [] h = absurd (cc)
  any-true (x ∷ xs) h = elim (Bool-cases (p x)) [
    | inl e ↦ (x, Memᴰ.head refl, e)
    | inr e ↦ let (a, m, q) = any-true xs (ground arith) in (a, Memᴰ.tail m, q)
  ]

  pub all-mem : (xs : List A) → all p xs ≡ true → (a : A) → Memᴰ a xs → p a ≡ true
  unfolding all
  all-mem [] h a m = absurd (Memᴰ.not-nil m)
  all-mem (x ∷ xs) h a m = ground (arith, all-mem xs (ground arith) a, Memᴰ-cons a x xs)

  pub all_of_mem : (xs : List A) → ((a : A) → Memᴰ a xs → p a ≡ true) → all p xs ≡ true
  unfolding all
  all_of_mem [] h = refl
  all_of_mem (x ∷ xs) h =
      ground (arith, h x (Memᴰ.head refl), all_of_mem xs (λ a m. h a (Memᴰ.tail m)))

pub All-of_all {ℓ κ} :
    {A : Type ℓ} (P : A → Type κ) (p : A → Bool)
    → ((a : A) → p a ≡ true → P a)
    → (xs : List A) → all p xs ≡ true
    → All P xs
unfolding all
All-of_all P p k [] h = tt
All-of_all P p k (x ∷ xs) h = (k x (ground arith), All-of_all P p k xs (ground arith))
