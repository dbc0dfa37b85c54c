-- ===== src/Store/History.antt =====
-- The history of the groups.
use role_provider_service.Base.{
  ℕ, List, [], ◌∷◌, ◌++◌, Text, ◌==◌, nat_eq, list_eq, if◌then◌else◌, filter,
}
use mathlib.Core.List.{reverse}
use role_provider_service.Common.Types.{Uuid, Time, Change}
use role_provider_service.Store.State.{MemoryStore, limited}

-- A change with no id or no time gets one.
unfoldable pub stamped : Time → Uuid → Change → Change
stamped now fresh c = record c {
  id = (if c.id == 0 then fresh else c.id);
  at = (if c.at == 0 then now else c.at);
}

unfoldable pub add_change : Time → Uuid → Change → MemoryStore → MemoryStore
add_change now fresh c s = record s { changes = s.changes ++ stamped now fresh c ∷ [] }

-- The newest first.
unfoldable pub list_changes : Text → ℕ → MemoryStore → List Change
list_changes group_id limit s =
    limited limit (filter (λ c. c.group_id == group_id) (reverse s.changes))
