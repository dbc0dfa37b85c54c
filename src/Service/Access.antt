-- ===== src/Service/Access.antt =====
-- internal/groupmgmt/service.go: which group a caller may change, and which one they may look at.
pub mod Rights
use role_provider_service.Base.{
  ℕ, Bool, true, false, not, ◌&&◌, ◌||◌, List, [], ◌∷◌, Option, none, some, Text, ◌==◌, nat_eq,
  list_eq, option_eq, if◌then◌else◌, any, contains,
}
use role_provider_service.Base.Result.{
  Result, ok, err, ◌>>=◌, ◌>>◌, guard, not_found, owned_by_source, forbidden, reserved,
}
use role_provider_service.Common.Types.{Uuid, Group, Source, Manager}
use role_provider_service.Common.Glob.{match_glob}
use role_provider_service.Store.State.{MemoryStore}
use role_provider_service.Store.Groups.{find_group}
use role_provider_service.Store.Managers.{list_managers}
use role_provider_service.Store.Sources.{list_sources}
use role_provider_service.Service.State.{Caller, Service, parse_group_token}

-- A group that the store does not have is `ErrNotFound`.
unfoldable pub get_known_group : Text → MemoryStore → Result Group
get_known_group id s = elim (find_group id s.groups) [ some g ↦ ok g | none ↦ err not_found ]

unfoldable pub may_manage : Caller → Text → MemoryStore → Bool
may_manage caller group_id s =
    caller.admin || any (λ m. contains caller.tokens m.token) (list_managers group_id s)

unfoldable pub is_local : Service → Group → Bool
is_local svc g = g.source_id == some svc.local_id

unfoldable pub local_group : Service → Caller → Text → MemoryStore → Result Group
local_group svc caller token s = parse_group_token token >>= λ id. get_known_group id s >>= λ g.
    guard (is_local svc g) owned_by_source >> guard (may_manage caller g.id s) forbidden >> ok g

-- An admin looks at every group, anyone else at the groups that they maintain.
unfoldable pub readable_group : Service → Caller → Text → MemoryStore → Result Group
readable_group svc caller token s =
    if caller.admin
    then (parse_group_token token >>= λ id. get_known_group id s)
    else local_group svc caller token s

-- A glob of another source covers the id.
unfoldable pub reserved_by : Service → Text → Source → Bool
reserved_by svc id src =
    not (src.id == svc.local_id) && any (λ glob. match_glob glob id) src.reserved_names

unfoldable pub check_not_reserved : Service → Text → MemoryStore → Result (Unit {0})
check_not_reserved svc id s = guard (not (any (reserved_by svc id) (list_sources s))) reserved
