-- ===== src/Startup.antt =====
-- internal/app.go: what the service does to the store before it answers requests.
pub mod Config
pub mod Owned
mod Tests
use role_provider_service.Base.{
  ℕ, ◌+◌, Bool, true, false, not, ◌&&◌, ◌||◌, List, [], ◌∷◌, ◌++◌, Option, none, some, Text, codes,
  ◌==◌, nat_eq, list_eq, if◌then◌else◌, map, length,
}
use role_provider_service.Base.Result.{Result, ok, err, ◌>>=◌, ◌>>◌, Error, other}
use role_provider_service.Common.Types.{Uuid, Time, Group, Source}
use role_provider_service.Common.Quote.{quote}
use role_provider_service.Store.State.{MemoryStore}
use role_provider_service.Store.Sources
use role_provider_service.Store.Groups
use role_provider_service.Store.Listing.{group_relations}
use role_provider_service.Service.State.{Caller, Service, World}
use role_provider_service.Service.Catalog.{adopt, with_source_name}
use role_provider_service.Sync.Run.{
  source_type_local, source_type_csv, source_type_ldif, source_type_keycloak,
}
use role_provider_service.Sync.Checks.{check_ownership}

-- What the cache's loader answers: every group with its source's name and the relations held in it.
unfoldable pub relations_of : Text → List (Text × List Text) → List Text
relations_of id [] = []
relations_of id ((g, rels) ∷ m) = let rest = relations_of id m in if g == id then rels else rest

unfoldable pub load_groups : Time → MemoryStore → List Group
unfolding relations_of
load_groups now s =
    let relations = group_relations now s in
    map (λ (g : Group). with_source_name s (record g { relations = relations_of g.id relations }))
      (Groups.list_groups [] none 0 s)

unfoldable pub find_typed : Text → List Source → Option Source
find_typed typ [] = none
find_typed typ (src ∷ srcs) =
    let rest = find_typed typ srcs in if src.typ == typ then some src else rest

-- A source that the service creates for itself.
unfoldable pub own_source : Uuid → Text → Text → Text → List Text → Source
own_source id name typ schedule reserved = record {
  id = id;
  name = name;
  typ = typ;
  schedule = schedule;
  dn_email_regexp = [];
  group_relation_regexp = [];
  file_path = [];
  last_synced_at = none;
  last_sync_status = [];
  created_at = 0;
  updated_at = 0;
  reserved_names = reserved;
}

unfoldable pub setup_local_source : World → Text → MemoryStore → MemoryStore × Result Uuid
unfolding find_typed own_source
setup_local_source w name s = elim (find_typed source_type_local (Sources.list_sources s)) [
  | some src ↦
      if src.name == name
      then (s, ok src.id)
      else elim (Sources.update_source w.now (record src { name = name }) s) [
        | ok s1 ↦ (s1, ok src.id)
        | err e ↦ (s, err e)
      ]
  | none ↦ (
    Sources.create_source w.now (own_source (w.fresh 0) name source_type_local [] []) s,
    ok (w.fresh 0),
  )
]

-- The store part of `setupKeycloakSource`, once the schedule is accepted; `reserved` are the groups that
-- the mapping names.
unfoldable pub put_keycloak_source :
    World → Text → List Text → MemoryStore → Result (MemoryStore × Uuid)
unfolding find_typed own_source
put_keycloak_source w schedule reserved s =
    elim (find_typed source_type_keycloak (Sources.list_sources s)) [
      | none ↦ ok (
        Sources.create_source w.now
            (own_source (w.fresh 0) (codes "keycloak") source_type_keycloak schedule reserved) s,
        w.fresh 0,
      )
      | some src ↦
          if (src.schedule == schedule) && (src.reserved_names == reserved)
          then ok (s, src.id)
          else (Sources.update_source w.now
                (record src { schedule = schedule; reserved_names = reserved }) s
              >>= λ s1. ok (s1, src.id))
    ]

-- The source stays when the groups turn out to be somebody else's, which stops the start.
unfoldable pub setup_keycloak_source :
    World → Text → List Text → MemoryStore → MemoryStore × Result Uuid
unfolding put_keycloak_source
setup_keycloak_source w schedule reserved s = elim (put_keycloak_source w schedule reserved s) [
  | err e ↦ (s, err e)
  | ok (s1, id) ↦ elim (check_ownership id reserved s1) [ err e ↦ (s1, err e) | ok _ ↦ (s1, ok id) ]
]

abbrev pub system_caller : Caller
system_caller = record { actor = codes "system"; on_behalf_of = []; tokens = []; admin = true }

-- The world once some new ids are taken.
abbrev pub after_ids : ℕ → World → World
after_ids n w = record w { fresh = λ k. w.fresh (n + k) }

unfoldable pub find_named : Text → List Source → Option Source
find_named name [] = none
find_named name (src ∷ srcs) =
    let rest = find_named name srcs in if src.name == name then some src else rest

-- A source's groups pass to the local source, then the source goes.
unfoldable pub adopt_source : World → Service → Source → MemoryStore → MemoryStore × List Text
adopt_source w svc src s =
    let detail = codes "taken over from source " ++ quote src.name in
    let (s1, ids) = adopt w svc system_caller (some src.id) detail s in
    (Sources.delete_source src.id s1, ids)

abbrev pub is_file_type : Text → Bool
is_file_type typ = (typ == source_type_csv) || (typ == source_type_ldif)

-- The loop over the configured names; `sources` was read before it.
unfoldable pub adopt_named :
    World → Service → List Source → List Text → MemoryStore → MemoryStore × Result (Unit {0})
unfolding find_named adopt_source
adopt_named w svc sources [] s = (s, ok tt)
adopt_named w svc sources (name ∷ names) s = elim (find_named name sources) [
  | none ↦ adopt_named w svc sources names s
  | some src ↦
      let (s1, ids) = adopt_source w svc src s in
      let rest = adopt_named (after_ids (length ids) w) svc sources names s1 in
      if is_file_type src.typ then rest else (s, err other)
]

unfoldable pub adopt_into_local :
    World → Service → List Text → MemoryStore → MemoryStore × Result (Unit {0})
unfolding adopt_named
adopt_into_local w svc names s =
    let (s1, ids) = adopt w svc system_caller none (codes "belonged to no source") s in
    adopt_named (after_ids (length ids) w) svc (Sources.list_sources s1) names s1
