-- ===== src/Store/Managers.antt =====
-- Who maintains a group.
use role_provider_service.Base.{
  Bool, not, List, [], ◌∷◌, ◌++◌, Text, ◌==◌, nat_eq, list_eq, if◌then◌else◌, any, filter, sort,
  text_leb, map, contains,
}
use role_provider_service.Common.Types.{Time, Manager}
use role_provider_service.Store.State.{MemoryStore}

-- A missing key reads as no managers.
unfoldable pub managers_of : Text → List (Text × List Manager) → List Manager
managers_of group_id [] = []
managers_of group_id ((g, ms) ∷ m) =
    let rest = managers_of group_id m in if g == group_id then ms else rest

unfoldable pub put_managers :
    Text → List Manager → List (Text × List Manager) → List (Text × List Manager)
put_managers group_id ms [] = (group_id, ms) ∷ []
put_managers group_id ms ((g, old) ∷ m) =
    let rest = put_managers group_id ms m in if g == group_id then (g, ms) ∷ m else (g, old) ∷ rest

manager_leb : Manager → Manager → Bool
manager_leb a b = text_leb a.token b.token

unfoldable pub list_managers : Text → MemoryStore → List Manager
unfolding manager_leb
list_managers group_id s = sort manager_leb (managers_of group_id s.managers)

unfoldable pub add_manager : Time → Text → Manager → MemoryStore → MemoryStore
add_manager now group_id m s =
    let ms = managers_of group_id s.managers in
    if any (λ existing. existing.token == m.token) ms then s else record s {
      managers = put_managers group_id (ms ++ record m { created_at = now } ∷ []) s.managers;
    }

unfoldable pub remove_manager : Text → Text → MemoryStore → MemoryStore
remove_manager group_id token s =
    let ms = managers_of group_id s.managers in
    record s {
      managers = put_managers group_id (filter (λ m. not (m.token == token)) ms) s.managers;
    }

unfoldable pub managed_groups : List Text → MemoryStore → List Text
managed_groups tokens s = sort text_leb (
    map (λ (gid, ms). gid) (filter (λ (gid, ms). any (λ m. contains tokens m.token) ms) s.managers))
