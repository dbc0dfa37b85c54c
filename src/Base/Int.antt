-- ===== src/Base/Int.antt =====
-- Go's `int`, where a number may be negative, and the decimal numbers of a request.
use Prim.Native.Nat.{ℕ, zero, suc, ◌+◌, ◌*◌, ◌-◌, ◌≤◌, ◌<◌}
use mathlib.Core.Path.{◌≡◌}
use native.Mathlib.Omega.{arith}
use mathlib.Core.Bool.{Bool, true, false, ◌&&◌}
use mathlib.Core.Option.{Option, none, some}
use mathlib.Core.List.{[], ◌∷◌}
use role_provider_service.Base.Tests.{leb, if◌then◌else◌}
use role_provider_service.Base.Equality.{Text}

-- `negsuc n` is -(n + 1).
pub data ℤ : Type 0 where
  pos negsuc : ℕ → ℤ

-- `max(n, 0)`
abbrev pub at_least_zero : ℤ → ℕ
at_least_zero (pos n) = n
at_least_zero (negsuc _) = 0

-- `2 ^ 63 - 1`
abbrev pub max_int : ℕ
max_int = 9223372036854775807

-- The sum of two numbers that are not negative; past `max_int` it wraps to `a + b - 2 ^ 64`.
unfoldable pub add_int : ℕ → ℕ → ℤ
add_int a b = if leb (a + b) max_int then pos (a + b) else negsuc (18446744073709551615 - (a + b))

pub add_int-pos : (a b : ℕ) → a + b ≤ max_int → add_int a b ≡ pos (a + b)
unfolding add_int
add_int-pos a b h = ground arith

pub add_int-negsuc :
    (a b : ℕ) → max_int < a + b → add_int a b ≡ negsuc (18446744073709551615 - (a + b))
unfolding add_int
add_int-negsuc a b h = ground arith

unfoldable pub digits : ℕ → Text → Option ℕ
digits n [] = some n
digits n (c ∷ s) =
    let rest = digits (n * 10 + (c - b'0')) s in if leb b'0' c && leb c b'9' then rest else none

unfoldable pub magnitude : Text → Option ℕ
unfolding digits
magnitude [] = none
magnitude (c ∷ s) = digits 0 (c ∷ s)

-- A number in the range of 64 bits, with its sign.
unfoldable pub signed_int : Bool → ℕ → Option ℤ
signed_int false n = if leb n max_int then some (pos n) else none
signed_int true zero = some (pos 0)
signed_int true (suc n) = if leb n max_int then some (negsuc n) else none

unfoldable pub to_int : Bool → Option ℕ → Option ℤ
unfolding signed_int
to_int negative none = none
to_int negative (some n) = signed_int negative n

-- `strconv.Atoi`
unfoldable pub atoi : Text → Option ℤ
unfolding to_int magnitude
atoi [] = none
atoi (c ∷ s) =
    if leb c b'-' && leb b'-' c
    then to_int true (magnitude s)
    else (if leb c b'+' && leb b'+' c
        then to_int false (magnitude s)
        else to_int false (magnitude (c ∷ s)))
