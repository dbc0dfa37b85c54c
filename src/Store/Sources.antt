-- ===== src/Store/Sources.antt =====
-- The sources of the store and the logs of their runs.
pub mod Frame
use role_provider_service.Base.{
  ℕ, Bool, not, List, [], ◌∷◌, ◌++◌, Option, none, some, Text, ◌==◌, nat_eq, list_eq, option_eq,
  if◌then◌else◌, filter, sort, text_leb, leb, map,
}
use role_provider_service.Base.Result.{Result, ok, err, record_not_found, other, or_fail}
use role_provider_service.Common.Types.{Uuid, Time, Source, SyncLog}
use role_provider_service.Store.State.{MemoryStore, limited}

unfoldable pub find_source : Uuid → List Source → Option Source
find_source id [] = none
find_source id (src ∷ srcs) =
    let rest = find_source id srcs in if src.id == id then some src else rest

-- A map's assignment: a source with this id is replaced.
unfoldable pub put_source : Source → List Source → List Source
put_source src [] = src ∷ []
put_source src (x ∷ srcs) =
    let rest = put_source src srcs in if x.id == src.id then src ∷ srcs else x ∷ rest

unfoldable pub create_source : Time → Source → MemoryStore → MemoryStore
create_source now src s = record s {
  sources = put_source (record src { created_at = now; updated_at = now }) s.sources;
}

unfoldable pub get_source : Uuid → MemoryStore → Result Source
get_source id s = or_fail (find_source id s.sources) record_not_found

source_leb : Source → Source → Bool
source_leb a b = text_leb a.name b.name

unfoldable pub list_sources : MemoryStore → List Source
unfolding source_leb
list_sources s = sort source_leb s.sources

update_source_where : Uuid → (Source → Source) → MemoryStore → Result MemoryStore
update_source_where id f s = elim (find_source id s.sources) [
  | none ↦ err record_not_found
  | some _ ↦ ok (record s { sources = map (λ x. if x.id == id then f x else x) s.sources })
]

unfoldable pub update_source : Time → Source → MemoryStore → Result MemoryStore
unfolding update_source_where
update_source now upd s =
    update_source_where upd.id
      (λ src. record src {
        name = upd.name;
        schedule = upd.schedule;
        dn_email_regexp = upd.dn_email_regexp;
        group_relation_regexp = upd.group_relation_regexp;
        file_path = upd.file_path;
        reserved_names = upd.reserved_names;
        updated_at = now;
      })
      s

-- Its entries go with it, and its groups belong to nobody.
unfoldable pub delete_source : Uuid → MemoryStore → MemoryStore
delete_source id s = record s {
  tuples = filter (λ t. not (t.source_id == some id)) s.tuples;
  groups = map (λ g. if g.source_id == some id then record g { source_id = none } else g) s.groups;
  sources = filter (λ src. not (src.id == id)) s.sources;
}

unfoldable pub update_source_sync_status :
    Time → Uuid → Text → Time → MemoryStore → Result MemoryStore
unfolding update_source_where
update_source_sync_status now id status synced_at s =
    update_source_where id
      (λ src. record src {
        last_sync_status = status;
        last_synced_at = some synced_at;
        updated_at = now;
      })
      s

unfoldable pub create_sync_log : SyncLog → MemoryStore → MemoryStore
create_sync_log l s = record s { sync_logs = s.sync_logs ++ l ∷ [] }

-- Replaces the first log with this id.
set_sync_log : SyncLog → List SyncLog → Option (List SyncLog)
set_sync_log l [] = none
set_sync_log l (x ∷ logs) =
    let rest : Option (List SyncLog) = elim (set_sync_log l logs) [
      | none ↦ none
      | some logs' ↦ some (x ∷ logs')
    ] in
    if x.id == l.id then some (l ∷ logs) else rest

unfoldable pub update_sync_log : SyncLog → MemoryStore → Result MemoryStore
unfolding set_sync_log
update_sync_log l s = elim (set_sync_log l s.sync_logs) [
  | none ↦ err other
  | some logs ↦ ok (record s { sync_logs = logs })
]

-- The newest first.
log_leb : SyncLog → SyncLog → Bool
log_leb a b = leb b.started_at a.started_at

unfoldable pub list_sync_logs : Uuid → ℕ → MemoryStore → List SyncLog
unfolding log_leb
list_sync_logs source_id limit s =
    limited limit (sort log_leb (filter (λ l. l.source_id == source_id) s.sync_logs))
