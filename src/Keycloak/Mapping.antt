-- ===== src/Keycloak/Mapping.antt =====
-- internal/keycloak/mapping.go: from a person's attribute values to memberships. The code's maps are lists
-- of pairs; where the code takes a map's order, which Go leaves open, the list's order counts.
pub mod Derive
pub mod Held
pub mod Derived
use role_provider_service.Base.{
  ℕ, suc, Bool, true, false, not, ◌&&◌, ◌||◌, List, [], ◌∷◌, ◌++◌, Option, none, some, Text, codes,
  ◌==◌, nat_eq, list_eq, if◌then◌else◌, is_empty, contains, map, sort, text_leb, nat_beq, ltb,
}
use role_provider_service.Base.Result.{Result, Error, ok, err, ◌>>=◌, ◌>>◌, guard, other}
use role_provider_service.Common.Types.{TuplePair}
use role_provider_service.Common.Token.{normalize_id, relation_member, user_type}
use role_provider_service.Common.Strings.{trim_space, cut}
use role_provider_service.Common.Relations.{Relations, check}
use role_provider_service.Common.Validate.{validate_group_id}
use role_provider_service.Store.Import.{Descriptions}
use role_provider_service.Sync.Checks.{put_description}

pub record MappedGroup : Type 0 where
  pub group : Text
  pub description : Text

pub record Mapping : Type 0 where
  pub attribute : Text
  pub all_group : Option MappedGroup
  pub locations : List (Text × MappedGroup)
  pub roles : List (Text × Text)
  pub ignored_scopes : List Text
  pub ignored_values : List Text

unfoldable pub lookup {ℓ} : {A : Type ℓ} → Text → List (Text × A) → Option A
lookup k [] = none
lookup k ((x, a) ∷ m) = let rest = lookup k m in if x == k then some a else rest

-- A map's assignment.
unfoldable pub put {ℓ} : {A : Type ℓ} → Text → A → List (Text × A) → List (Text × A)
put k a [] = (k, a) ∷ []
put k a ((x, b) ∷ m) = let rest = put k a m in if x == k then (x, a) ∷ m else (x, b) ∷ rest

unfoldable pub check_group : MappedGroup → Result MappedGroup
check_group g =
    let id = normalize_id g.group in
    guard (not (is_empty id)) other >> validate_group_id id >> ok (record g { group = id })

unfoldable pub check_locations :
    List (Text × MappedGroup) → List (Text × MappedGroup) → Result (List (Text × MappedGroup))
unfolding check_group put
check_locations out [] = ok out
check_locations out ((scope, g) ∷ locations) =
    check_group g >>= λ g'. check_locations (put (normalize_id scope) g' out) locations

unfoldable pub check_all_group : Option MappedGroup → Result (Option MappedGroup)
unfolding check_group
check_all_group none = ok none
check_all_group (some g) = check_group g >>= λ g'. ok (some g')

unfoldable pub check_roles :
    Relations → List (Text × Text) → List (Text × Text) → Result (List (Text × Text))
unfolding put
check_roles relations out [] = ok out
check_roles relations out ((value, relation) ∷ roles) = check relations relation >>= λ rel.
    check_roles relations (put (normalize_id value) rel out) roles

abbrev pub value_leb : Text × Text → Text × Text → Bool
value_leb a b = text_leb a.0 b.0

-- The checks of a mapping that is decoded.
unfoldable pub parse_mapping : Relations → Mapping → Result Mapping
unfolding check_locations check_all_group check_roles sort
parse_mapping relations m =
    guard (not (is_empty (trim_space m.attribute))) other
    >> guard (not (is_empty m.locations)) other
    >> check_locations [] m.locations
    >>= λ locations. check_all_group m.all_group >>= λ all_group.
        check_roles relations [] (sort value_leb m.roles) >>= λ roles. ok (record {
          attribute = m.attribute;
          all_group = all_group;
          locations = locations;
          roles = roles;
          ignored_scopes = map normalize_id m.ignored_scopes;
          ignored_values = map normalize_id m.ignored_values;
        })

unfoldable pub describe : MappedGroup → Descriptions → Descriptions
describe g out = if is_empty g.description then out else put_description g.group g.description out

unfoldable pub describe_all : List (Text × MappedGroup) → Descriptions → Descriptions
unfolding describe
describe_all [] out = out
describe_all ((_, g) ∷ locations) out = describe_all locations (describe g out)

unfoldable pub descriptions : Mapping → Descriptions
unfolding describe_all
descriptions m =
    let out = describe_all m.locations [] in
    elim m.all_group [ none ↦ out | some all ↦ describe all out ]

-- `slices.Compact`
unfoldable pub compact : List Text → List Text
compact [] = []
compact (x ∷ []) = x ∷ []
compact (x ∷ y ∷ xs) = let rest = compact (y ∷ xs) in if x == y then rest else x ∷ rest

unfoldable pub groups : Mapping → List Text
unfolding compact sort
groups m =
    let located = map (λ (l : Text × MappedGroup). l.1.group) m.locations in
    compact (sort text_leb (located ++ elim m.all_group [ none ↦ [] | some all ↦ all.group ∷ [] ]))
