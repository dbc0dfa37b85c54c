-- ===== src/Web/Sources/Changes.antt =====
-- internal/webserver/api_sync.go: the routes that create, change and delete a source. They change the
-- store and the scheduler.
use role_provider_service.Base.{
  ◌++◌, Bool, not, List, [], Option, none, some, Text, codes, ◌==◌, nat_eq, list_eq, if◌then◌else◌,
  is_empty, ◌&&◌, ◌||◌,
}
use role_provider_service.Base.Result.{ok, err}
use role_provider_service.Common.Types.{Uuid, Time, Source}
use role_provider_service.Common.Strings.{to_lower}
use role_provider_service.Common.Quote.{quote}
use role_provider_service.Store.State.{MemoryStore}
use role_provider_service.Store.Sources
use role_provider_service.Service.State.{Service, World, api_token_caller}
use role_provider_service.Service.Catalog
use role_provider_service.Sync.Run.{source_type_csv, source_type_ldif}
use role_provider_service.Sync.Scheduler.{Cron, Scheduler, register, unregister}
use role_provider_service.Web.Reply.{
  Reply, Checked, stop, found, refuse, respond_error, Body, too_large, malformed, decoded,
}
use role_provider_service.Web.Groups.{status_ok, status_created, status_no_content}
use role_provider_service.Web.Sources.{
  CreateSourceRequest, UpdateSourceRequest, answer, changeable_source, reserved_names,
}

module _ (C : Cron) where
  -- The store and the scheduler.
  abbrev pub Scheduled : Type 0
  Scheduled = MemoryStore × Scheduler C

  abbrev pub valid_schedule : Text → Bool
  valid_schedule schedule = is_empty schedule || C.valid schedule

  unfoldable pub new_source : Uuid → Text → List Text → CreateSourceRequest → Source
  new_source id typ reserved req = record {
    id = id;
    name = req.name;
    typ = typ;
    schedule = req.schedule;
    dn_email_regexp = req.dn_email_regexp;
    group_relation_regexp = req.group_relation_regexp;
    file_path = req.file_path;
    last_synced_at = none;
    last_sync_status = [];
    created_at = 0;
    updated_at = 0;
    reserved_names = reserved;
  }

  -- Storing a source sets its times, in the code's own copy too.
  abbrev pub stamped : Time → Source → Source
  stamped now src = record src { created_at = now; updated_at = now }

  -- The source is stored before its schedule is registered.
  unfoldable pub store_source : World → Source → Scheduled → Scheduled × Reply Source
  store_source w src (s, sch) =
      let s1 = Sources.create_source w.now src s in
      if is_empty src.schedule
      then ((s1, sch), answer status_created (stamped w.now src))
      else elim (register C src.id src.schedule sch) [
        | ok sch' ↦ ((s1, sch'), answer status_created (stamped w.now src))
        | err _ ↦ ((s1, sch), refuse 500)
      ]

  -- Once the names that the source reserves are checked.
  unfoldable pub store_named :
      World
      → Text
      → CreateSourceRequest
      → Scheduled
      → Checked (List Text)
      → Scheduled × Reply Source
  unfolding new_source store_source
  store_named w typ req st (stop status) = (st, refuse status)
  store_named w typ req st (found reserved) =
      store_source w (new_source (w.fresh 0) typ reserved req) st

  unfoldable pub create_source :
      World → Body CreateSourceRequest → Scheduled → Scheduled × Reply Source
  unfolding store_named reserved_names
  create_source w too_large st = (st, refuse 413)
  create_source w malformed st = (st, refuse 400)
  create_source w (decoded req) (s, sch) =
      let typ = to_lower req.typ in
      if not (typ == source_type_csv) && not (typ == source_type_ldif)
      then ((s, sch), refuse 400)
      else (if not (valid_schedule req.schedule)
          then ((s, sch), refuse 400)
          else store_named w typ req (s, sch) (reserved_names 0 req.reserved_names s))

  unfoldable pub with_request : Source → List Text → UpdateSourceRequest → Source
  with_request src reserved req = record src {
    name = req.name;
    schedule = req.schedule;
    dn_email_regexp = req.dn_email_regexp;
    group_relation_regexp = req.group_relation_regexp;
    file_path = req.file_path;
    reserved_names = reserved;
  }

  -- After the source is updated: it is read again, and its schedule put in place.
  unfoldable pub reschedule : Uuid → Scheduled → Scheduled × Reply Source
  reschedule id (s, sch) = elim (Sources.get_source id s) [
    | err e ↦ ((s, sch), respond_error e)
    | ok src ↦
        if is_empty src.schedule
        then ((s, unregister C id sch), answer status_ok src)
        else elim (register C id src.schedule sch) [
          | ok sch' ↦ ((s, sch'), answer status_ok src)
          | err _ ↦ ((s, sch), refuse 500)
        ]
  ]

  unfoldable pub store_update :
      World → Uuid → Source → UpdateSourceRequest → Scheduled → Scheduled × Reply Source
  unfolding with_request reschedule reserved_names
  store_update w id src req (s, sch) = elim (reserved_names id req.reserved_names s) [
    | stop status ↦ ((s, sch), refuse status)
    | found reserved ↦ elim (Sources.update_source w.now (with_request src reserved req) s) [
      | err _ ↦ ((s, sch), refuse 500)
      | ok s1 ↦ reschedule id (s1, sch)
    ]
  ]

  unfoldable pub update_source :
      (parse : Text → Option Uuid)
      → World
      → Text
      → Body UpdateSourceRequest
      → Scheduled
      → Scheduled × Reply Source
  unfolding store_update changeable_source
  update_source parse w param body (s, sch) = elim (parse param) [
    | none ↦ ((s, sch), refuse 400)
    | some id ↦ elim body [
      | too_large ↦ ((s, sch), refuse 413)
      | malformed ↦ ((s, sch), refuse 400)
      | decoded req ↦
          if not (valid_schedule req.schedule)
          then ((s, sch), refuse 400)
          else elim (changeable_source id s) [
            | stop status ↦ ((s, sch), refuse status)
            | found src ↦ store_update w id src req (s, sch)
          ]
    ]
  ]

  -- The text of the history's entries.
  abbrev pub deleted_detail : Source → Text
  deleted_detail src = codes "source " ++ quote src.name ++ codes " was deleted"

  unfoldable pub delete_source :
      (parse : Text → Option Uuid)
      → World
      → Service
      → Text
      → Scheduled
      → Scheduled × Reply (Unit {0})
  unfolding changeable_source
  delete_source parse w svc param (s, sch) = elim (parse param) [
    | none ↦ ((s, sch), refuse 400)
    | some id ↦ elim (changeable_source id s) [
      | stop status ↦ ((s, sch), refuse status)
      | found src ↦
          let (s1, _) =
            Catalog.adopt w svc api_token_caller none (deleted_detail src)
              (Sources.delete_source id s) in
          ((s1, unregister C id sch), answer status_no_content tt)
    ]
  ]
