-- ===== src/Common/Quote.antt =====
-- `strconv.Quote`, the format of `%q`. A character beyond Latin-1 counts as printable.
use Prim.Native.Nat.{◌/◌, ◌%◌}
use role_provider_service.Base.{
  ℕ, ◌+◌, ◌-◌, Bool, not, ◌&&◌, ◌||◌, List, [], ◌∷◌, ◌++◌, Option, none, some, Text, codes, ltb,
  leb, nat_beq, if◌then◌else◌,
}

-- What stands after the backslash.
abbrev short_escapes : List (ℕ × Text)
short_escapes =
    (b'"', codes "\"")
    ∷ (0x5C, 0x5C ∷ [])
    ∷ (7, codes "a")
    ∷ (8, codes "b")
    ∷ (12, codes "f")
    ∷ (10, codes "n")
    ∷ (13, codes "r")
    ∷ (9, codes "t")
    ∷ (11, codes "v")
    ∷ []

unfoldable find_escape : ℕ → List (ℕ × Text) → Option Text
find_escape c [] = none
find_escape c ((x, s) ∷ escapes) =
    let rest = find_escape c escapes in if nat_beq x c then some s else rest

unfoldable is_print : ℕ → Bool
is_print c = (leb 32 c && leb c 126) || (leb 0xA1 c && not (nat_beq c 0xAD))

unfoldable hex_digit : ℕ → ℕ
hex_digit d = if ltb d 10 then b'0' + d else b'a' + (d - 10)

unfoldable hex_escape : ℕ → Text
unfolding hex_digit
hex_escape c =
    (if ltb c 128 then codes "x" else codes "u00") ++ hex_digit (c / 16) ∷ hex_digit (c % 16) ∷ []

unfoldable quote_char : ℕ → Text
unfolding find_escape is_print hex_escape
quote_char c = elim (find_escape c short_escapes) [
  | some s ↦ 0x5C ∷ s
  | none ↦ if is_print c then c ∷ [] else 0x5C ∷ hex_escape c
]

unfoldable quote_body : Text → Text
unfolding quote_char
quote_body [] = []
quote_body (c ∷ s) = quote_char c ++ quote_body s

unfoldable pub quote : Text → Text
unfolding quote_body
quote s = codes "\"" ++ quote_body s ++ codes "\""
