-- ===== src/Service/Cycle.antt =====
-- internal/groupmgmt/service.go: the search that keeps a group from containing itself.
pub mod Meaning
pub mod Visit
pub mod Correct
use role_provider_service.Base.{
  ℕ, zero, suc, Bool, List, [], ◌∷◌, ◌++◌, Text, ◌==◌, nat_eq, list_eq, if◌then◌else◌, map, filter,
  contains, length,
}
use role_provider_service.Base.Result.{Result, ok, err, cycle, other, ◌>>=◌}
use role_provider_service.Common.Types.{Time}
use role_provider_service.Store.State.{MemoryStore}
use role_provider_service.Store.Listing.{Edge, group_edges}

-- `children[id]`
unfoldable pub children : List Edge → Text → List Text
children edges id = map (λ (e : Edge). e.1) (filter (λ (e : Edge). e.0 == id) edges)

-- The inner loop: the group itself among the children is a cycle, a child not seen yet is queued.
unfoldable pub visit : Text → List Text → List Text → List Text → Result (List Text × List Text)
visit group_id [] seen queue = ok (seen, queue)
visit group_id (c ∷ cs) seen queue =
    let known = contains seen c in
    let rest =
      visit group_id cs (if known then seen else c ∷ seen)
        (if known then queue else queue ++ c ∷ []) in
    if c == group_id then err cycle else rest

-- The outer loop; with enough fuel it never gives `other`.
unfoldable pub search_cycle : ℕ → List Edge → Text → List Text → List Text → Result (Unit {0})
search_cycle zero edges group_id seen queue = err other
search_cycle (suc fuel) edges group_id seen [] = ok tt
search_cycle (suc fuel) edges group_id seen (id ∷ queue) =
    visit group_id (children edges id) seen queue >>= λ (seen', queue').
    search_cycle fuel edges group_id seen' queue'

abbrev pub cycle_fuel : List Edge → ℕ
cycle_fuel edges = suc (suc (length edges))

unfoldable pub check_no_cycle : Time → Text → Text → MemoryStore → Result (Unit {0})
check_no_cycle now group_id member_id s =
    if group_id == member_id
    then err cycle
    else (let edges = group_edges now s in
        search_cycle (cycle_fuel edges) edges group_id (member_id ∷ []) (member_id ∷ []))
