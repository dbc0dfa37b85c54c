-- ===== src/Web/Sources.antt =====
-- internal/webserver/api_sync.go: the routes of the API tokens on the sources that leave the scheduler
-- alone. `parse` is `uuid.Parse`.
pub mod Changes
pub mod Atomic
use role_provider_service.Base.{
  ℕ, suc, ◌++◌, Bool, not, true, false, List, [], ◌∷◌, Option, none, some, Text, codes, ◌==◌,
  nat_eq, list_eq, if◌then◌else◌, is_empty, ◌&&◌, ◌||◌,
}
use role_provider_service.Base.Result.{Result, ok, err, Error, import_error, reservation_conflict}
use role_provider_service.Common.Types.{Uuid, Time, Source, SyncLog}
use role_provider_service.Common.Strings.{to_lower}
use role_provider_service.Common.Quote.{quote}
use role_provider_service.Store.State.{MemoryStore}
use role_provider_service.Store.Sources
use role_provider_service.Service.State.{Service, World, api_token_caller}
use role_provider_service.Service.Catalog
use role_provider_service.Sync.Checks.{normalize_reserved_names, check_reservation}
use role_provider_service.Sync.Run.{
  Readers, run_sync, source_type_csv, source_type_ldif, source_type_local,
}
use role_provider_service.Sync.Scheduler.{Cron, Scheduler, validate_schedule, register, unregister}
use role_provider_service.Web.Reply.{
  Reply, Checked, stop, found, refuse, error_status, respond_error, Body, too_large, malformed,
  decoded,
}
use role_provider_service.Web.Groups.{status_ok, status_created, status_no_content}

pub record CreateSourceRequest : Type 0 where
  pub name : Text
  pub typ : Text
  pub schedule : Text
  pub dn_email_regexp : Text
  pub file_path : Text
  pub group_relation_regexp : Text
  pub reserved_names : List Text

pub record UpdateSourceRequest : Type 0 where
  pub name : Text
  pub schedule : Text
  pub dn_email_regexp : Text
  pub file_path : Text
  pub group_relation_regexp : Text
  pub reserved_names : List Text

-- What the multipart form holds under "file".
pub data Upload : Type 0 where
  form_too_large no_file unreadable : Upload
  file : Text → Upload

abbrev pub answer : {A : Type 0} → ℕ → A → Reply A
answer status a = record { status = status; body = some a }

unfoldable pub respond_sync_error : {A : Type 0} → Error → Reply A
respond_sync_error import_error = refuse 422
respond_sync_error e = respond_error e

unfoldable pub changeable_source : Uuid → MemoryStore → Checked Source
changeable_source id s = elim (Sources.get_source id s) [
  | err e ↦ stop (error_status e)
  | ok src ↦ if src.typ == source_type_local then stop 409 else found src
]

unfoldable pub reserved_names : Uuid → List Text → MemoryStore → Checked (List Text)
reserved_names id globs s = elim (normalize_reserved_names globs) [
  | err _ ↦ stop 400
  | ok reserved ↦ elim (check_reservation id reserved s) [
    | err reservation_conflict ↦ stop 409
    | err _ ↦ stop 500
    | ok _ ↦ found reserved
  ]
]

unfoldable pub list_sources : MemoryStore → Reply (List Source)
list_sources s = answer status_ok (Sources.list_sources s)

module _ (parse : Text → Option Uuid) where
  unfoldable pub get_source : Text → MemoryStore → Reply Source
  get_source param s = elim (parse param) [
    | none ↦ refuse 400
    | some id ↦ elim (Sources.get_source id s) [
      | err e ↦ respond_error e
      | ok src ↦ answer status_ok src
    ]
  ]

  abbrev pub sync_logs_limit : ℕ
  sync_logs_limit = 20

  unfoldable pub get_sync_log : Text → MemoryStore → Reply (List SyncLog)
  get_sync_log param s = elim (parse param) [
    | none ↦ refuse 400
    | some id ↦ answer status_ok (Sources.list_sync_logs id sync_logs_limit s)
  ]

  module _ (rd : Readers) (w : World) (svc : Service) where
    -- The first new id is the log's.
    unfoldable pub sync_reply : Uuid → Option Text → MemoryStore → MemoryStore × Reply (Unit {0})
    unfolding respond_sync_error
    sync_reply id content s =
        let (s1, r) =
          run_sync rd svc.relations w.now (λ n. w.fresh (suc n)) (w.fresh 0) id content s in
        elim r [ err e ↦ (s1, respond_sync_error e) | ok _ ↦ (s1, answer status_ok tt) ]

    unfoldable pub upload_and_sync : Text → Upload → MemoryStore → MemoryStore × Reply (Unit {0})
    unfolding sync_reply
    upload_and_sync param upload s = elim (parse param) [
      | none ↦ (s, refuse 400)
      | some id ↦ elim upload [
        | form_too_large ↦ (s, refuse 413)
        | no_file ↦ (s, refuse 400)
        | unreadable ↦ (s, refuse 500)
        | file text ↦ sync_reply id (some text) s
      ]
    ]

    unfoldable pub trigger_sync : Text → MemoryStore → MemoryStore × Reply (Unit {0})
    unfolding sync_reply
    trigger_sync param s = elim (parse param) [
      | none ↦ (s, refuse 400)
      | some id ↦ sync_reply id none s
    ]
