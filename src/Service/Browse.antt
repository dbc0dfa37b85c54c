-- ===== src/Service/Browse.antt =====
-- internal/groupmgmt/browse.go: the group pages. Groups are read from the store, as in a service without
-- a cache. The ids of the groups are the store's keys, so that a map by id is a search for the group.
pub mod Path
pub mod Page
use role_provider_service.Base.{
  ℕ, zero, suc, ◌+◌, min, ℤ, pos, negsuc, at_least_zero, add_int, Bool, true, false, not, ◌&&◌,
  ◌||◌, List, [], ◌∷◌, ◌++◌, Option, none, some, Text, ◌==◌, nat_eq, list_eq, if◌then◌else◌,
  is_empty, length, slice, map, filter, any, contains, sort, text_leb, leb,
}
use role_provider_service.Base.Result.{
  Result, ok, err, ◌>>=◌, ◌>>◌, guard, or_fail, not_found, forbidden, other,
}
use role_provider_service.Common.Types.{Uuid, Time, Group, Source}
use role_provider_service.Common.Token.{group_prefix, relation_separator}
use role_provider_service.Common.Strings.{trim_space, trim_prefix, to_lower}
use role_provider_service.Store.State.{MemoryStore}
use role_provider_service.Store.Listing.{Edge, group_edges}
use role_provider_service.Store.Groups.{find_group, list_groups, group_leb}
use role_provider_service.Store.Sources.{list_sources}
use role_provider_service.Service.State.{Caller, Service}
use role_provider_service.Service.Access.{is_local}
use role_provider_service.Service.Catalog.{with_source_name}
use role_provider_service.Service.Reading.{managed_groups}

pub record BrowsedGroup : Type 0 where
  pub group : Group
  pub editable : Bool
  pub child_groups : ℕ

pub record GroupPage : Type 0 where
  pub items : List BrowsedGroup
  pub total : ℕ

pub record BrowseQuery : Type 0 where
  pub query : Text
  pub source : Text
  pub parent : Text
  pub path_to : Text
  pub limit : ℤ
  pub offset : ℤ

-- The ends of the edges that start at a group, and the starts of those that end there.
unfoldable pub children_of : List Edge → Text → List Text
unfolding filter
children_of edges id = map (λ (e : Edge). e.1) (filter (λ (e : Edge). e.0 == id) edges)

unfoldable pub parents_of : List Edge → Text → List Text
unfolding filter
parents_of edges id = map (λ (e : Edge). e.0) (filter (λ (e : Edge). e.1 == id) edges)

unfoldable pub at_most : ℤ → ℕ → ℤ
at_most (pos n) total = pos (min n total)
at_most (negsuc n) total = negsuc n

-- The end of the page, which is negative where the sum wraps; `total` is the number of groups.
unfoldable pub page_end : ℤ → ℕ → ℕ → ℤ
unfolding at_most add_int
page_end (pos zero) start total = pos total
page_end (pos (suc n)) start total = at_most (add_int start (suc n)) total
page_end (negsuc _) start total = pos total

unfoldable pub browsed : Service → List Edge → Group → BrowsedGroup
browsed svc edges g = record {
  group = g;
  editable = is_local svc g;
  child_groups = length (children_of edges g.id);
}

-- `groups[start:end]`, which panics with `none` where the end is negative.
unfoldable pub cut_out : ℕ → ℤ → List Group → Option (List Group)
unfolding slice
cut_out start (pos end) groups = some (slice start end groups)
cut_out start (negsuc _) groups = none

-- The edges are the store's, whether they are counted before or here; `none` is a panic.
unfoldable pub page : Service → List Edge → List Group → BrowseQuery → Option GroupPage
unfolding page_end browsed cut_out
page svc edges groups q =
    let total = length groups in
    let start = min (at_least_zero q.offset) total in
    elim (cut_out start (page_end q.limit start total) groups) [
      | some shown ↦ some (record { items = map (browsed svc edges) shown; total = total })
      | none ↦ none
    ]

unfoldable pub search : Text → MemoryStore → List Group
unfolding filter contains
search query s =
    filter (λ (g : Group). not (contains g.id relation_separator))
      (map (with_source_name s) (list_groups query none 0 s))

abbrev pub all_groups : MemoryStore → List Group
all_groups s = search [] s

-- A map's zero value has no source.
unfoldable pub source_name_at : List Group → Text → Text
source_name_at all id = elim (find_group id all) [ some g ↦ g.source_name | none ↦ [] ]

unfoldable pub same_source : List Group → List Edge → Group → Text → List Text
unfolding filter sort
same_source all edges g id =
    sort text_leb
      (filter (λ (p : Text). source_name_at all p == g.source_name) (parents_of edges id))

-- The way back from each group that the search has seen.
abbrev pub Steps : Type 0
Steps = List (Text × Text)

unfoldable pub step_of : Text → Steps → Option Text
step_of id [] = none
step_of id ((x, y) ∷ steps) = let rest = step_of id steps in if x == id then some y else rest

-- The loop over the parents of `id`.
unfoldable pub visit_ups : Text → List Text → Steps → List Text → Steps × List Text
visit_ups id [] next queue = (next, queue)
visit_ups id (p ∷ ps) next queue = elim (step_of p next) [
  | some _ ↦ visit_ups id ps next queue
  | none ↦ visit_ups id ps ((p, id) ∷ next) (queue ++ p ∷ [])
]

-- The way from `at` on; a missing key gives the empty id, which ends it.
unfoldable pub way_from : ℕ → Steps → Text → List Text
way_from zero next at = []
way_from (suc fuel) next at =
    let rest : List Text = elim (step_of at next) [ some to ↦ way_from fuel next to | none ↦ [] ] in
    if is_empty at then [] else at ∷ rest

-- Breadth-first upwards; `fuel` is the rounds left.
unfoldable pub climb : (ups : Text → List Text) → Text → ℕ → Steps → List Text → Option (List Text)
unfolding visit_ups way_from
climb ups g zero next queue = none
climb ups g (suc fuel) next [] = some (g ∷ [])
climb ups g (suc fuel) next (id ∷ queue) =
    let (next', queue') = visit_ups id (ups id) next queue in
    let deeper = climb ups g fuel next' queue' in
    if is_empty (ups id) then some (way_from (suc (length next)) next id) else deeper

unfoldable pub path_down : List Group → List Edge → Group → Option (List Text)
unfolding climb same_source
path_down all edges g =
    climb (same_source all edges g) g.id (suc (suc (length edges))) ((g.id, []) ∷ []) (g.id ∷ [])

-- The zero value of a group, which a map gives for an id without a group.
abbrev no_group : Group
no_group = record {
  id = [];
  token = [];
  display_name = [];
  description = [];
  source_id = none;
  source_name = [];
  relations = [];
  created_at = 0;
  updated_at = 0;
}

unfoldable group_at : List Group → Text → Group
group_at all id = elim (find_group id all) [ some g ↦ g | none ↦ no_group ]

-- The groups of a list of ids, without the ids that have no group.
unfoldable pub groups_at : List Group → List Text → List Group
groups_at all [] = []
groups_at all (id ∷ ids) =
    let rest = groups_at all ids in elim (find_group id all) [ some g ↦ g ∷ rest | none ↦ rest ]

-- The top of a source's tree: no group of the same source contains it.
unfoldable pub is_top : List Group → List Edge → Text → Group → Bool
unfolding any
is_top all edges source g =
    (g.source_name == source)
    && not (any (λ p. source_name_at all p == source) (parents_of edges g.id))

-- The switch of an admin's query.
unfoldable pub browse_all : Service → BrowseQuery → List Edge → MemoryStore → Result (List Group)
unfolding path_down group_at groups_at is_top
browse_all svc q edges s =
    let all = all_groups s in
    if not (is_empty q.path_to)
    then elim (find_group (trim_prefix group_prefix q.path_to) all) [
      | none ↦ err not_found
      | some g ↦ or_fail (path_down all edges g) not_found >>= λ ids. ok (map (group_at all) ids)
    ]
    else (if not (is_empty q.parent)
        then (let parent = trim_prefix group_prefix q.parent in
            elim (find_group parent all) [
              | none ↦ err not_found
              | some _ ↦ ok (sort group_leb (groups_at all (children_of edges parent)))
            ])
        else (if not (is_empty (trim_space q.query))
            then ok (
                filter (λ (g : Group). is_empty q.source || (g.source_name == q.source))
                  (search q.query s))
            else (if not (is_empty q.source)
                then ok (filter (is_top all edges q.source) all)
                else ok (filter (is_local svc) all))))

-- A panic of the page stands as an error: the router answers either with the status 500.
unfoldable pub browse : Time → Service → Caller → BrowseQuery → MemoryStore → Result GroupPage
unfolding browse_all page
browse now svc caller q s =
    let edges = group_edges now s in
    if caller.admin
    then (browse_all svc q edges s >>= λ groups. or_fail (page svc edges groups q) other)
    else or_fail (page svc edges (managed_groups svc caller q.query s) q) other

pub record SourceSummary : Type 0 where
  pub name : Text
  pub typ : Text
  pub local : Bool
  pub groups : ℕ
  pub last_synced_at : Option Time
  pub last_sync_status : Text

-- The local source first, then by name.
unfoldable pub summary_leb : SourceSummary → SourceSummary → Bool
summary_leb a b =
    if a.local && not b.local
    then true
    else (if b.local && not a.local then false else text_leb (to_lower a.name) (to_lower b.name))

unfoldable pub summary : Service → List Group → Source → SourceSummary
summary svc all src = record {
  name = src.name;
  typ = src.typ;
  local = src.id == svc.local_id;
  groups = length (filter (λ (g : Group). g.source_name == src.name) all);
  last_synced_at = src.last_synced_at;
  last_sync_status = src.last_sync_status;
}

unfoldable pub sources : Service → Caller → MemoryStore → Result (List SourceSummary)
unfolding summary_leb summary sort
sources svc caller s =
    guard caller.admin forbidden
    >> ok (sort summary_leb (map (summary svc (all_groups s)) (list_sources s)))
