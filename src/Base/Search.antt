-- ===== src/Base/Search.antt =====
-- Counting what a search has not seen yet, which bounds how long it runs.
use mathlib.Core.List.Memᴰ
use Prim.Native.Nat.{ℕ, suc, ◌+◌, ◌*◌, ◌≤◌}
use mathlib.Core.Path.{◌≡◌}
use mathlib.Core.Bool.{false}
use mathlib.Core.List.{List, [], ◌∷◌, Memᴰ}
use native.Mathlib.Omega.{arith}
use role_provider_service.Base.Tests.{if◌then◌else◌}
use role_provider_service.Base.Equality.{Eq}
use role_provider_service.Base.Lists.{length, contains, contains_iff, Memᴰ-cons}

-- How many of the candidates are not in `seen`.
pub unseen {ℓ} : {A : Type ℓ} ⦃e : Eq A⦄ → List A → List A → ℕ
unseen seen [] = 0
unseen seen (c ∷ cs) = let rest = unseen seen cs in if contains seen c then rest else suc rest

pub unseen-le-length {ℓ} : {A : Type ℓ} ⦃e : Eq A⦄ (seen cs : List A) → unseen seen cs ≤ length cs
unfolding unseen
unseen-le-length seen [] = omega arith
unseen-le-length seen (c ∷ cs) = ground (arith, unseen-le-length seen cs)

-- What is in one list and not in the other is seen by more.
pub unseen_mono {ℓ} :
    {A : Type ℓ} ⦃e : Eq A⦄ (seen more cs : List A)
    → ((a : A) → Memᴰ a seen → Memᴰ a more)
    → unseen more cs ≤ unseen seen cs
unfolding unseen
unseen_mono seen more [] h = omega arith
unseen_mono seen more (c ∷ cs) h =
    ground (arith, unseen_mono seen more cs h, h c, contains_iff seen c, contains_iff more c)

-- A candidate that is seen now and was not before counts one less.
pub unseen-lt {ℓ} :
    {A : Type ℓ} ⦃e : Eq A⦄ (seen more cs : List A) (c : A)
    → ((a : A) → Memᴰ a seen → Memᴰ a more)
    → Memᴰ c cs
    → contains seen c ≡ false
    → Memᴰ c more
    → suc (unseen more cs) ≤ unseen seen cs
unfolding unseen
unseen-lt seen more [] c h m n k = absurd (Memᴰ.not-nil m)
unseen-lt seen more (x ∷ cs) c h m n k = ground (
  arith,
  unseen-lt seen more cs c h,
  unseen_mono seen more cs h,
  Memᴰ-cons c x cs,
  contains_iff more c,
  contains_iff more x,
  contains_iff seen x,
  h x,
)

pub mul_step : (n a b : ℕ) → suc a ≤ b → n * a + n ≤ n * b
mul_step n a b h = grind arith

pub mul_mono : (n a b : ℕ) → a ≤ b → n * a ≤ n * b
mul_mono n a b h = grind arith
