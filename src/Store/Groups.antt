-- ===== src/Store/Groups.antt =====
-- The groups of the store: creating, reading, listing, updating and deleting them, and who owns them.
pub mod Deletion
use role_provider_service.Base.{
  ℕ, Bool, true, not, ◌&&◌, ◌||◌, ◌++◌, List, [], ◌∷◌, Option, none, some, Text, ◌==◌, nat_eq,
  list_eq, option_eq, if◌then◌else◌, is_empty, any, filter, sort, text_leb, map,
}
use role_provider_service.Base.Result.{Result, ok, err, record_not_found, already_exists, or_fail}
use role_provider_service.Common.Types.{Uuid, Time, Group, Manager}
use role_provider_service.Common.Token.{
  group_prefix, group_type, split_group_relation, normalize_id,
}
use role_provider_service.Common.Strings.{is_infix, to_lower, has_prefix, trim_prefix}
use role_provider_service.Store.State.{Entry, MemoryStore, limited}

unfoldable pub find_group : Text → List Group → Option Group
find_group id [] = none
find_group id (g ∷ gs) = let rest = find_group id gs in if g.id == id then some g else rest

unfoldable pub group_owners : List Text → MemoryStore → List (Text × Option Uuid)
group_owners [] s = []
group_owners (id ∷ ids) s = elim (find_group id s.groups) [
  | none ↦ group_owners ids s
  | some g ↦ (id, g.source_id) ∷ group_owners ids s
]

-- The group that the caller passed in is returned too, since the code fills in its fields.
unfoldable pub create_group : Time → Group → MemoryStore → Result (MemoryStore × Group)
create_group now g s = elim (find_group g.id s.groups) [
  | some _ ↦ err already_exists
  | none ↦
      let g' = record g { token = group_prefix ++ g.id; created_at = now; updated_at = now } in
      ok (record s { groups = s.groups ++ g' ∷ [] }, g')
]

unfoldable pub get_group : Text → MemoryStore → Result Group
get_group id s = or_fail (find_group id s.groups) record_not_found

matches_query : Text → Group → Bool
matches_query needle g =
    is_empty needle
    || is_infix needle (to_lower g.id)
    || is_infix needle (to_lower g.display_name)
    || is_infix needle (to_lower g.description)

-- A group of the source, or one that holds an entry of the source.
of_source : List Entry → Option Uuid → Group → Bool
of_source tuples none g = true
of_source tuples (some src) g =
    (g.source_id == some src) || any (λ t. (t.obj_id == g.id) && (t.source_id == some src)) tuples

unfoldable pub group_leb : Group → Group → Bool
group_leb a b = text_leb a.id b.id

unfoldable pub list_groups : Text → Option Uuid → ℕ → MemoryStore → List Group
unfolding matches_query of_source group_leb
list_groups query source_id limit s =
    let needle = normalize_id query in
    limited limit (
      sort group_leb
        (filter (λ g. matches_query needle g && of_source s.tuples source_id g) s.groups))

unfoldable pub update_where : (Group → Bool) → (Group → Group) → List Group → List Group
update_where p f = map (λ g. if p g then f g else g)

unfoldable pub update_group : Time → Text → Text → Text → MemoryStore → Result MemoryStore
update_group now id display_name description s = elim (find_group id s.groups) [
  | none ↦ err record_not_found
  | some _ ↦ ok (record s {
    groups =
        update_where (λ g. g.id == id)
          (λ g. record g {
            display_name = display_name;
            description = description;
            updated_at = now;
          })
          s.groups;
  })
]

-- A manager's token that names the group, with whatever relation.
unfoldable pub names_group : Text → Manager → Bool
names_group id m =
    has_prefix group_prefix m.token
    && ((split_group_relation (trim_prefix group_prefix m.token)).0 == id)

-- An entry of the group, or one with the group as subject.
unfoldable pub touches : Text → Entry → Bool
touches id t = (t.obj_id == id) || ((t.subj_type == group_type) && (t.subj_id == id))

unfoldable pub delete_group : Text → MemoryStore → MemoryStore
delete_group id s = record s {
  groups = filter (λ g. not (g.id == id)) s.groups;
  managers =
      map (λ (gid, ms). (gid, filter (λ m. not (names_group id m)) ms))
        (filter (λ (gid, ms). not (gid == id)) s.managers);
  tuples = filter (λ t. not (touches id t)) s.tuples;
}

-- Hands what `from` owns to another source.
unfoldable pub own : Option Uuid → Uuid → Option Uuid → Option Uuid
own from to owner = if owner == from then some to else owner

unfoldable pub move_to_source : Option Uuid → Uuid → MemoryStore → MemoryStore × List Text
unfolding own
move_to_source from to s = (
  record s {
    groups = map {A = Group} (λ g. record g { source_id = own from to g.source_id }) s.groups;
    tuples = map {A = Entry} (λ t. record t { source_id = own from to t.source_id }) s.tuples;
  },
  sort text_leb
      (map {A = Group} (λ g. g.id) (filter {A = Group} (λ g. g.source_id == from) s.groups)),
)
