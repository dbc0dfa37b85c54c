-- ===== src/Sync/Checks.antt =====
-- internal/sync/engine.go: putting an import into the one spelling, and what makes it refused.
pub mod Ownership
pub mod Accepted
use role_provider_service.Base.{
  ℕ, Bool, true, false, not, ◌&&◌, ◌||◌, List, [], ◌∷◌, ◌++◌, Option, none, some, Text, ◌==◌,
  nat_eq, list_eq, option_eq, if◌then◌else◌, is_empty, any, all, filter, contains, map,
}
use role_provider_service.Base.Result.{
  Result, ok, err, ◌>>=◌, ◌>>◌, guard, import_error, reservation_conflict,
}
use role_provider_service.Common.Types.{Uuid, Group, Source, TuplePair}
use role_provider_service.Common.Token.{
  group_prefix, group_type, normalize_id, member_group, join_group_relation,
}
use role_provider_service.Common.Strings.{trim_space, trim_prefix}
use role_provider_service.Common.Glob.{match_glob}
use role_provider_service.Common.Relations.{Relations, check}
use role_provider_service.Common.Validate.{validate_reserved_name}
use role_provider_service.Store.State.{MemoryStore}
use role_provider_service.Store.Listing.{add_new}
use role_provider_service.Store.Groups.{group_owners, list_groups}
use role_provider_service.Store.Sources.{list_sources}
use role_provider_service.Store.Import.{Descriptions}

-- A map's assignment.
unfoldable pub put_description : Text → Text → Descriptions → Descriptions
put_description id d [] = (id, d) ∷ []
put_description id d ((g, old) ∷ m) =
    let rest = put_description id d m in if g == id then (g, d) ∷ m else (g, old) ∷ rest

-- Two ids with one spelling: the later one of the list counts, where the code takes the map's order.
unfoldable pub normalize_descriptions : Descriptions → Descriptions → Descriptions
normalize_descriptions out [] = out
normalize_descriptions out ((g, d) ∷ m) =
    normalize_descriptions (put_description (normalize_id g) d out) m

unfoldable pub normalize_pair : TuplePair → TuplePair
normalize_pair p = record p {
  group_id = normalize_id p.group_id;
  member_id = normalize_id p.member_id;
}

unfoldable pub normalize_ids : List TuplePair → Descriptions → List TuplePair × Descriptions
normalize_ids ps ds = (map normalize_pair ps, normalize_descriptions [] ds)

-- Relations that are not configured are refused as an `ImportError`.
unfoldable pub check_import_relation : Relations → Text → Result Text
check_import_relation r relation = elim (check r relation) [
  | ok rel ↦ ok rel
  | err _ ↦ err import_error
]

unfoldable pub check_pair : Relations → TuplePair → Result TuplePair
check_pair r p = check_import_relation r p.relation >>= λ rel.
    if p.member_type == group_type
    then (let (group, member_rel) = member_group p.member_id in
        check_import_relation r member_rel >>= λ rel'.
        ok (record p { relation = rel; member_id = join_group_relation group rel' }))
    else ok (record p { relation = rel })

unfoldable pub check_relations : Relations → List TuplePair → Result (List TuplePair)
check_relations r [] = ok []
check_relations r (p ∷ ps) =
    let rest = check_relations r ps in check_pair r p >>= λ q. rest >>= λ qs. ok (q ∷ qs)

unfoldable pub add_group_ids : List Text → List TuplePair → List Text
add_group_ids out [] = out
add_group_ids out (p ∷ ps) = add_group_ids (add_new out p.group_id) ps

unfoldable pub group_ids : List TuplePair → List Text
group_ids = add_group_ids []

-- `owners[id]`
unfoldable pub owner_of : Text → List (Text × Option Uuid) → Option (Option Uuid)
owner_of id [] = none
owner_of id ((g, o) ∷ m) = let rest = owner_of id m in if g == id then some o else rest

unfoldable pub owned_elsewhere : Uuid → Text → List (Text × Option Uuid) → Bool
owned_elsewhere source id owners = elim (owner_of id owners) [
  | none ↦ false
  | some owner ↦ not (owner == some source)
]

unfoldable pub reserved_elsewhere : Uuid → Text → Source → Bool
reserved_elsewhere source id src =
    not (src.id == source) && any (λ glob. match_glob glob id) src.reserved_names

unfoldable pub check_ownership : Uuid → List Text → MemoryStore → Result (Unit {0})
check_ownership source groups s =
    let owners = group_owners groups s in
    let sources = list_sources s in
    guard
      (all
        (λ id.
          not (owned_elsewhere source id owners)
          && not (any (reserved_elsewhere source id) sources))
        groups)
      import_error

unfoldable pub add_reserved : List Text → List Text → Result (List Text)
add_reserved out [] = ok out
add_reserved out (glob ∷ globs) =
    let g = normalize_id (trim_prefix group_prefix (trim_space glob)) in
    let rest = add_reserved (if is_empty g || contains out g then out else out ++ g ∷ []) globs in
    if is_empty g then rest else validate_reserved_name g >> rest

unfoldable pub normalize_reserved_names : List Text → Result (List Text)
normalize_reserved_names = add_reserved []

unfoldable pub check_reservation : Uuid → List Text → MemoryStore → Result (Unit {0})
check_reservation source globs s =
    guard
      (is_empty globs
        || is_empty (
            filter
              (λ g. not (g.source_id == some source) && any (λ glob. match_glob glob g.id) globs)
              (list_groups [] none 0 s)))
      reservation_conflict
