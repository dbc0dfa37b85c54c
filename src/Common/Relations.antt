-- ===== src/Common/Relations.antt =====
-- internal/common/relations.go: the relations that a group can carry.
pub mod Laws
use role_provider_service.Base.{
  ℕ, Bool, true, false, not, ◌&&◌, ◌||◌, List, [], ◌∷◌, if◌then◌else◌, ◌==◌, nat_eq, list_eq, Text,
  is_empty, leb, nat_beq, contains, filter, sort, text_leb, all, list_beq,
}
use role_provider_service.Base.Result.{Result, ok, err, Error, other}
use role_provider_service.Common.Strings.{trim_space}
use role_provider_service.Common.Token.{relation_member, normalize_relation}

abbrev pub is_lower : ℕ → Bool
is_lower c = leb b'a' c && leb c b'z'

abbrev pub is_digit : ℕ → Bool
is_digit c = leb b'0' c && leb c b'9'

relation_char : ℕ → Bool
relation_char c = is_lower c || is_digit c || nat_beq c b'_' || nat_beq c b'-'

-- `^[a-z][a-z0-9_-]*$`
unfoldable pub relation_name : Text → Bool
unfolding all relation_char
relation_name [] = false
relation_name (c ∷ s) = is_lower c && all relation_char s

-- `allowed` lists the keys of the map.
pub record Relations : Type 0 where
  pub allowed : List Text

add_allowed : List Text → Text → List Text
unfolding contains list_beq
add_allowed allowed n = if contains allowed n then allowed else n ∷ allowed

add_names : List Text → List Text → Result (List Text)
unfolding add_allowed relation_name trim_space
add_names allowed [] = ok allowed
add_names allowed (name ∷ names) =
    let n = trim_space name in
    let skip = add_names allowed names in
    let add = add_names (add_allowed allowed n) names in
    if is_empty n then skip else (if relation_name n then add else err other)

unfoldable pub new_relations : List Text → Result Relations
unfolding add_names
new_relations names = elim (add_names (relation_member ∷ []) names) [
  | ok allowed ↦ ok (record { allowed = allowed })
  | err e ↦ err e
]

unfoldable pub check : Relations → Text → Result Text
unfolding contains list_beq normalize_relation trim_space
check r relation =
    let rel = normalize_relation (trim_space relation) in
    if contains r.allowed rel then ok rel else err other

unfoldable pub list : Relations → List Text
unfolding filter sort text_leb list_beq
list r = relation_member ∷ sort text_leb (filter (λ n. not (n == relation_member)) r.allowed)
