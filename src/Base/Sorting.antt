-- ===== src/Base/Sorting.antt =====
-- Insertion sort by a Boolean order, which is what Go's sorts give up to equal elements, and the
-- order of texts.
use mathlib.Core.Path.{◌≡◌, refl}
use mathlib.Core.Logic.{◌↔◌, inl, inr}
use mathlib.Core.Bool.{Bool, true, false, ◌||◌, ◌&&◌}
use mathlib.Core.List.{List, [], ◌∷◌, Memᴰ}
use native.Mathlib.Omega.{arith}
use role_provider_service.Base.Tests.{if◌then◌else◌, Bool-cases, ltb, nat_beq}
use role_provider_service.Base.Equality.{Text}
use role_provider_service.Base.Lists.{Memᴰ-cons, All}

unfoldable pub text_leb : Text → Text → Bool
text_leb [] t = true
text_leb (c ∷ s) [] = false
text_leb (c ∷ s) (d ∷ t) = let rest = text_leb s t in ltb c d || (nat_beq c d && rest)

pub text_leb_total : (s t : Text) → text_leb s t ≡ false → text_leb t s ≡ true
unfolding text_leb
text_leb_total [] t h = absurd (cc)
text_leb_total (c ∷ s) [] h = refl
text_leb_total (c ∷ s) (d ∷ t) h = ground (arith, text_leb_total s t)

pub text_leb_trans :
    (s t u : Text) → text_leb s t ≡ true → text_leb t u ≡ true → text_leb s u ≡ true
unfolding text_leb
text_leb_trans [] t u h k = refl
text_leb_trans (c ∷ s) [] u h k = absurd (cc)
text_leb_trans (c ∷ s) (d ∷ t) [] h k = absurd (cc)
text_leb_trans (c ∷ s) (d ∷ t) (e ∷ u) h k = ground (arith, text_leb_trans s t u)

module _ {ℓ} {A : Type ℓ} (le : A → A → Bool) where
  unfoldable pub insert_sorted : A → List A → List A
  insert_sorted a [] = a ∷ []
  insert_sorted a (x ∷ xs) =
      let rest = insert_sorted a xs in if le a x then a ∷ x ∷ xs else x ∷ rest

  unfoldable pub sort : List A → List A
  unfolding insert_sorted
  sort [] = []
  sort (x ∷ xs) = insert_sorted x (sort xs)

  -- Each element comes before all that follow it.
  abbrev pub Sorted : List A → Type ℓ
  Sorted [] = Unit
  Sorted (x ∷ xs) = All (λ y. le x y ≡ true) xs × Sorted xs

  pub mem-insert_sorted : (b a : A) (xs : List A) → Memᴰ b (insert_sorted a xs) ↔ Memᴰ b (a ∷ xs)
  unfolding insert_sorted
  mem-insert_sorted b a [] = (λ m. m, λ m. m)
  mem-insert_sorted b a (x ∷ xs) = ground (
    arith,
    mem-insert_sorted b a xs,
    Memᴰ-cons b a xs,
    Memᴰ-cons b x xs,
    Memᴰ-cons b a (x ∷ xs),
    Memᴰ-cons b x (insert_sorted a xs),
  )

  pub mem-sort : (b : A) (xs : List A) → Memᴰ b (sort xs) ↔ Memᴰ b xs
  unfolding sort
  mem-sort b [] = (λ m. m, λ m. m)
  mem-sort b (x ∷ xs) = ground (
    arith,
    mem-insert_sorted b x (sort xs),
    mem-sort b xs,
    Memᴰ-cons b x xs,
    Memᴰ-cons b x (sort xs),
  )

  module _ (total : (a b : A) → le a b ≡ false → le b a ≡ true)
      (trans : (a b c : A) → le a b ≡ true → le b c ≡ true → le a c ≡ true) where
    All-insert_sorted :
        (b a : A) (xs : List A)
        → le b a ≡ true
        → All (λ y. le b y ≡ true) xs
        → All (λ y. le b y ≡ true) (insert_sorted a xs)
    unfolding insert_sorted
    All-insert_sorted b a [] h k = (h, tt)
    All-insert_sorted b a (x ∷ xs) h k = elim (Bool-cases (le a x)) [
      | inl e ↦ rw e (h, k)
      | inr e ↦ rw e (k.0, All-insert_sorted b a xs h k.1)
    ]

    All-mono :
        (a b : A) (xs : List A)
        → le a b ≡ true
        → All (λ y. le b y ≡ true) xs
        → All (λ y. le a y ≡ true) xs
    All-mono a b [] h k = tt
    All-mono a b (x ∷ xs) h k = (trans a b x h k.0, All-mono a b xs h k.1)

    insert_sorted-Sorted : (a : A) (xs : List A) → Sorted xs → Sorted (insert_sorted a xs)
    unfolding insert_sorted
    insert_sorted-Sorted a [] h = (tt, tt)
    insert_sorted-Sorted a (x ∷ xs) h = elim (Bool-cases (le a x)) [
      | inl e ↦ rw e ((e, All-mono a x xs e h.0), h)
      | inr e ↦ rw e (All-insert_sorted x a xs (total a x e) h.0, insert_sorted-Sorted a xs h.1)
    ]

    pub sort-Sorted : (xs : List A) → Sorted (sort xs)
    unfolding sort
    sort-Sorted [] = tt
    sort-Sorted (x ∷ xs) = insert_sorted-Sorted x (sort xs) (sort-Sorted xs)
