-- ===== src/Sync/Run.antt =====
-- internal/sync/engine.go: one run for a source.
pub mod Outcome
pub mod Exact
use role_provider_service.Base.{
  ℕ, Bool, List, [], ◌∷◌, Option, none, some, Text, codes, ◌==◌, nat_eq, list_eq, if◌then◌else◌,
  is_empty, map,
}
use role_provider_service.Base.Result.{Result, Error, ok, err, ◌>>=◌, ◌>>◌, import_error, other}
use role_provider_service.Common.Types.{Uuid, Time, Source, SyncLog, TuplePair}
use role_provider_service.Common.Relations.{Relations}
use role_provider_service.Store.State.{MemoryStore}
use role_provider_service.Store.Sources.{
  get_source, create_sync_log, update_sync_log, update_source_sync_status,
}
use role_provider_service.Store.Import.{Descriptions, replace_tuples}
use role_provider_service.Sync.Checks.{normalize_ids, check_relations, group_ids, check_ownership}

abbrev pub source_type_local : Text
source_type_local = codes "local"

abbrev pub source_type_keycloak : Text
source_type_keycloak = codes "keycloak"

abbrev pub source_type_csv : Text
source_type_csv = codes "csv"

abbrev pub source_type_ldif : Text
source_type_ldif = codes "ldif"

abbrev pub sync_status_ok : Text
sync_status_ok = codes "ok"

abbrev pub sync_status_error : Text
sync_status_error = codes "error"

-- What a source delivers: tuples, group descriptions and notes.
abbrev pub Delivered : Type 0
Delivered = List TuplePair × (Descriptions × List Text)

-- What the engine reads by: files, the two formats, Keycloak if one is configured; and the text of an
-- error.
pub record Readers : Type 0 where
  pub open_file : Text → Result Text
  pub parse_csv : Text → Result (List TuplePair × Descriptions)
  pub parse_ldif : Text → Text → Text → Result (List TuplePair × Descriptions)
  pub keycloak : Option (Result Delivered)
  pub message : Error → Text

unfoldable pub fetch_keycloak : Readers → Option Text → Result Delivered
fetch_keycloak rd (some _) = err import_error
fetch_keycloak rd none = elim rd.keycloak [ none ↦ err other | some r ↦ r ]

-- Every error of it becomes an `ImportError` in `RunSync`.
unfoldable pub read_content : Readers → Source → Option Text → Result Text
read_content rd src (some text) = ok text
read_content rd src none = if is_empty src.file_path then err other else rd.open_file src.file_path

unfoldable pub parse_tuples :
    Readers → Source → Option Text → Result (List TuplePair × Descriptions)
parse_tuples rd src content = read_content rd src content >>= λ text.
    if src.typ == source_type_csv
    then rd.parse_csv text
    else (if src.typ == source_type_ldif
        then (if is_empty src.dn_email_regexp
            then err other
            else rd.parse_ldif text src.dn_email_regexp src.group_relation_regexp)
        else err other)

unfoldable pub deliver : Readers → Source → Option Text → Result Delivered
deliver rd src content =
    if src.typ == source_type_keycloak
    then fetch_keycloak rd content
    else elim (parse_tuples rd src content) [
      | ok (ps, ds) ↦ ok (ps, (ds, []))
      | err _ ↦ err import_error
    ]

-- The tuples to store and the descriptions, once nothing is to be refused.
unfoldable pub accept :
    Relations → Uuid → MemoryStore → Delivered → Result (List TuplePair × Descriptions)
accept relations source s (ps, (ds, notes)) =
    let (ps', ds') = normalize_ids ps ds in
    check_relations relations ps' >>= λ qs. check_ownership source (group_ids qs) s >> ok (qs, ds')

-- `_ = err`: the store stays as it was.
unfoldable pub or_ignore : MemoryStore → Result MemoryStore → MemoryStore
or_ignore s (ok s') = s'
or_ignore s (err _) = s

-- The log and the source's status at the end of a run.
unfoldable pub finish : Time → Uuid → SyncLog → Text → MemoryStore → MemoryStore
finish now source log status s =
    let s1 = or_ignore s (update_sync_log log s) in
    or_ignore s1 (update_source_sync_status now source status now s1)

abbrev pub notes_of : Result Delivered → List Text
notes_of (ok (ps, (ds, notes))) = notes
notes_of (err _) = []

-- A run once it is in the log.
unfoldable pub run_logged :
    Readers
    → Relations
    → Time
    → (ℕ → Uuid)
    → Source
    → Option Text
    → SyncLog
    → MemoryStore
    → MemoryStore × Result (Unit {0})
run_logged rd relations now fresh src content log s =
    let delivered = deliver rd src content in
    let finished = record log { finished_at = some now; notes = notes_of delivered } in
    elim (delivered >>= accept relations src.id s) [
      | err e ↦ (
        finish now src.id (record finished { error_message = rd.message e }) sync_status_error s,
        err e,
      )
      | ok (ps, ds) ↦
          let (s1, added, removed) = replace_tuples now fresh src.id ps ds s in
          (
            finish now src.id (record finished { tuples_added = added; tuples_removed = removed })
                sync_status_ok s1,
            ok tt,
          )
    ]

-- The first new id is the log's; the store in memory never fails to add the log.
unfoldable pub run_sync :
    Readers
    → Relations
    → Time
    → (ℕ → Uuid)
    → Uuid
    → Uuid
    → Option Text
    → MemoryStore
    → MemoryStore × Result (Unit {0})
run_sync rd relations now fresh log_id source content s = elim (get_source source s) [
  | err e ↦ (s, err e)
  | ok src ↦
      if src.typ == source_type_local
      then (s, err import_error)
      else (let log : SyncLog = record {
        id = log_id;
        source_id = source;
        started_at = now;
        finished_at = none;
        tuples_added = 0;
        tuples_removed = 0;
        error_message = [];
        notes = [];
      } in
          run_logged rd relations now fresh src content log (create_sync_log log s))
]
