-- ===== src/Common/Strings.antt =====
-- What the packages use of Go's `strings`, over code points. Letters change case in ASCII and
-- Latin-1 only; `is_space` is `unicode.IsSpace`.
use role_provider_service.Base.{
  ℕ, ◌+◌, Bool, true, false, not, ◌&&◌, ◌||◌, Option, none, some, List, [], ◌∷◌, map, leb, nat_beq,
  if◌then◌else◌, ◌==◌, nat_eq, is_empty, Text,
}

is_upper : ℕ → Bool
is_upper c = (leb b'A' c && leb c b'Z') || (leb 0xC0 c && leb c 0xDE && not (nat_beq c 0xD7))

unfoldable pub lower_char : ℕ → ℕ
unfolding is_upper
lower_char c = if is_upper c then c + 32 else c

abbrev pub to_lower : Text → Text
to_lower = map lower_char

unfoldable pub is_space : ℕ → Bool
is_space c =
    (leb 9 c && leb c 13)
    || nat_beq c 32
    || nat_beq c 0x85
    || nat_beq c 0xA0
    || nat_beq c 0x1680
    || (leb 0x2000 c && leb c 0x200A)
    || nat_beq c 0x2028
    || nat_beq c 0x2029
    || nat_beq c 0x202F
    || nat_beq c 0x205F
    || nat_beq c 0x3000

unfoldable pub trim_left : Text → Text
trim_left [] = []
trim_left (c ∷ s) = let rest = trim_left s in if is_space c then rest else c ∷ s

unfoldable pub trim_right : Text → Text
trim_right [] = []
trim_right (c ∷ s) = let rest = trim_right s in if is_space c && is_empty rest then [] else c ∷ rest

unfoldable pub trim_space : Text → Text
unfolding trim_left trim_right is_space
trim_space s = trim_right (trim_left s)

unfoldable pub cut_prefix : Text → Text → Option Text
cut_prefix [] s = some s
cut_prefix (p ∷ ps) [] = none
cut_prefix (p ∷ ps) (c ∷ s) = let rest = cut_prefix ps s in if p == c then rest else none

unfoldable pub has_prefix : Text → Text → Bool
unfolding cut_prefix
has_prefix p s = elim (cut_prefix p s) [ none ↦ false | some _ ↦ true ]

unfoldable pub trim_prefix : Text → Text → Text
unfolding cut_prefix
trim_prefix p s = elim (cut_prefix p s) [ none ↦ s | some rest ↦ rest ]

-- `strings.Cut` at a separator of one character.
unfoldable pub cut : ℕ → Text → Option (Text × Text)
cut sep [] = none
cut sep (c ∷ s) =
    let rest : Option (Text × Text) = elim (cut sep s) [
      | none ↦ none
      | some (a, b) ↦ some (c ∷ a, b)
    ] in
    if c == sep then some ([], s) else rest

-- `strings.Split` at a separator of one character: there is always a first piece.
unfoldable pub split : ℕ → Text → Text × List Text
split sep [] = ([], [])
split sep (c ∷ s) =
    let (first, rest) = split sep s in if c == sep then ([], first ∷ rest) else (c ∷ first, rest)

abbrev pub pieces : ℕ → Text → List Text
pieces sep s = let (first, rest) = split sep s in first ∷ rest

-- `strings.Contains`.
unfoldable pub is_infix : Text → Text → Bool
unfolding has_prefix
is_infix p [] = is_empty p
is_infix p (c ∷ s) = has_prefix p (c ∷ s) || is_infix p s
