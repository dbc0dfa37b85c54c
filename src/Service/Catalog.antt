-- ===== src/Service/Catalog.antt =====
-- internal/groupmgmt/service.go: creating, changing, deleting and taking over groups. The cache that is
-- loaded again after a change is no part of the store.
pub mod Creation
use role_provider_service.Base.{
  ℕ, suc, ◌++◌, List, [], ◌∷◌, Option, none, some, Text, codes, ◌==◌, nat_eq, list_eq,
  if◌then◌else◌,
}
use role_provider_service.Base.Result.{Result, ok, err, ◌>>=◌, ◌>>◌, guard, forbidden, invalid_id}
use role_provider_service.Common.Types.{
  Uuid, Group, Manager, Change, group_created, group_updated, group_deleted, group_adopted,
  manager_added, Action,
}
use role_provider_service.Common.Token.{
  group_prefix, group_type, user_type, normalize_id, build_token, split_group_relation, group_token,
}
use role_provider_service.Common.Strings.{trim_space, trim_prefix}
use role_provider_service.Common.Validate.{validate_group_id}
use role_provider_service.Store.State.{MemoryStore}
use role_provider_service.Store.Sources.{find_source}
use role_provider_service.Store.Groups
use role_provider_service.Store.Managers
use role_provider_service.Service.State.{
  Caller, Service, World, Handled, attempt, check_relation, record_change, parse_member_token,
  if_empty,
}
use role_provider_service.Service.Access.{get_known_group, local_group, check_not_reserved}

-- A change of the history with what its action names; the rest is empty.
abbrev pub change : Text → Action → Change
change group_id action = record {
  id = 0;
  group_id = group_id;
  at = 0;
  actor = [];
  on_behalf_of = [];
  action = action;
  member = [];
  relation = [];
  expires_at = none;
  detail = [];
}

-- The name of the source, empty for a source that is not there.
unfoldable pub source_name_of : Uuid → MemoryStore → Text
source_name_of id s = elim (find_source id s.sources) [ some src ↦ src.name | none ↦ [] ]

unfoldable pub with_source_name : MemoryStore → Group → Group
with_source_name s g = elim g.source_id [
  | none ↦ g
  | some id ↦ record g { source_name = source_name_of id s }
]

unfoldable pub check_manager_token : Service → Text → MemoryStore → Result Text
check_manager_token svc token s = parse_member_token token >>= λ (typ, id).
    if typ == user_type
    then ok (build_token typ id)
    else (if typ == group_type
        then (let (group, relation) = split_group_relation id in
            validate_group_id group >> check_relation svc relation >>= λ rel.
            get_known_group group s >>= λ _. ok (group_token group rel))
        else err invalid_id)

unfoldable pub check_manager_tokens : Service → List Text → MemoryStore → Result (List Text)
check_manager_tokens svc [] s = ok []
check_manager_tokens svc (m ∷ ms) s =
    let rest = check_manager_tokens svc ms s in
    check_manager_token svc m s >>= λ token. rest >>= λ tokens. ok (token ∷ tokens)

-- The n-th change is the next to record.
unfoldable pub add_managers : World → ℕ → Caller → Text → List Text → MemoryStore → MemoryStore
add_managers w n caller id [] s = s
add_managers w n caller id (token ∷ tokens) s =
    let m : Manager = record { token = token; created_by = caller.actor; created_at = 0 } in
    let s1 = Managers.add_manager w.now id m s in
    add_managers w (suc n) caller id tokens
      (record_change w n caller (record (change id manager_added) { member = token }) s1)

-- What is checked before anything changes: the group's id and the managers' tokens.
unfoldable pub check_new_group :
    Service → Caller → Text → List Text → MemoryStore → Result (Text × List Text)
check_new_group svc caller id managers s =
    let id' = normalize_id (trim_prefix group_prefix (trim_space id)) in
    guard caller.admin forbidden
    >> validate_group_id id'
    >> check_not_reserved svc id' s
    >> check_manager_tokens svc managers s
    >>= λ tokens. ok (id', tokens)

unfoldable pub new_local_group : Service → Text → Text → Text → Group
new_local_group svc id display_name description = record {
  id = id;
  token = group_prefix ++ id;
  display_name = if_empty display_name id;
  description = description;
  source_id = some svc.local_id;
  source_name = [];
  relations = [];
  created_at = 0;
  updated_at = 0;
}

-- The history and the managers of the group that was just created.
unfoldable pub with_new_group : World → Caller → List Text → MemoryStore × Group → MemoryStore
with_new_group w caller tokens (s, g) =
    add_managers w 1 caller g.id tokens
      (record_change w 0 caller (record (change g.id group_created) { detail = g.display_name }) s)

unfoldable pub create_group :
    World → Service → Caller → Text → Text → Text → List Text → MemoryStore → Handled Group
create_group w svc caller id display_name description managers s =
    attempt s (check_new_group svc caller id managers s) λ (id', tokens).
      attempt s (Groups.create_group w.now (new_local_group svc id' display_name description) s)
        λ (s1, g).
          let s2 = with_new_group w caller tokens (s1, g) in
          (s2, ok (record g { source_name = source_name_of svc.local_id s2 }))

unfoldable pub update_group :
    World → Service → Caller → Text → Text → Text → MemoryStore → Handled Group
update_group w svc caller token display_name description s =
    attempt s (local_group svc caller token s) λ g.
      let name = if_empty display_name g.id in
      attempt s (Groups.update_group w.now g.id name description s) λ s1.
        let s2 =
          record_change w 0 caller
            (record (change g.id group_updated) { detail = name ++ codes " · " ++ description })
            s1 in
        attempt s2 (Groups.get_group g.id s2) λ updated. (s2, ok (with_source_name s2 updated))

unfoldable pub delete_group : World → Service → Caller → Text → MemoryStore → Handled (Unit {0})
delete_group w svc caller token s =
    attempt s (local_group svc caller token s >>= λ g. guard caller.admin forbidden >> ok g) λ g. (
      record_change w 0 caller (record (change g.id group_deleted) { detail = g.display_name })
          (Groups.delete_group g.id s),
      ok tt,
    )

unfoldable pub record_adopted : World → ℕ → Caller → Text → List Text → MemoryStore → MemoryStore
record_adopted w n caller detail [] s = s
record_adopted w n caller detail (id ∷ ids) s =
    record_adopted w (suc n) caller detail ids
      (record_change w n caller (record (change id group_adopted) { detail = detail }) s)

-- The store in memory never fails to move the groups.
unfoldable pub adopt :
    World → Service → Caller → Option Uuid → Text → MemoryStore → MemoryStore × List Text
adopt w svc caller from detail s =
    let (s1, ids) = Groups.move_to_source from svc.local_id s in
    (record_adopted w 0 caller detail ids s1, ids)
