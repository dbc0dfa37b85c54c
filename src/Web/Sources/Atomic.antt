-- ===== src/Web/Sources/Atomic.antt =====
-- A request for a new source is carried out as a whole or not at all.
use role_provider_service.Base.{ℕ, true, false, ◌≤◌, ◌≡◌, List, Text, is_empty, nat_eq, list_eq}
use role_provider_service.Base.Result.{ok}
use role_provider_service.Common.Types.{Source}
use role_provider_service.Common.Strings.{to_lower}
use role_provider_service.Store.State.{MemoryStore}
use role_provider_service.Store.Sources
use role_provider_service.Service.State.{World}
use role_provider_service.Sync.Scheduler.{Cron, Scheduler, register}
use role_provider_service.Web.Reply.{Reply, found, refuse, Body, decoded}
use role_provider_service.Web.Groups.{status_created}
use role_provider_service.Web.Sources.{CreateSourceRequest, reserved_names, answer}
use role_provider_service.Web.Sources.Changes.{Scheduled, new_source, stamped, create_source}

module _ (C : Cron) where
  -- What a request for a new source leaves: its source in the store, and a job if it has a schedule.
  pub data Created (w : World) (src : Source) (st : Scheduled C)
      : Scheduled C × Reply Source → Type 0 where
    unscheduled :
        is_empty src.schedule ≡ true
        → Created w src st (
          (Sources.create_source w.now src st.0, st.1),
          answer status_created (stamped C w.now src),
        )
    scheduled :
        (sch : Scheduler C)
        → is_empty src.schedule ≡ false
        → register C src.id src.schedule st.1 ≡ ok sch
        → Created w src st (
          (Sources.create_source w.now src st.0, sch),
          answer status_created (stamped C w.now src),
        )

  -- An answer of an error's status that changes nothing.
  pub data Refused (st : Scheduled C) : Scheduled C × Reply Source → Type 0 where
    refused : (status : ℕ) → 400 ≤ status → Refused st (st, refuse status)

  -- The source that a request asks for, with its type in lower case and the names it reserves.
  abbrev pub IsRequested : World → Body CreateSourceRequest → MemoryStore → Source → Type 0
  IsRequested w body s src =
      (req : CreateSourceRequest) × (reserved : List Text) × (body ≡ decoded req)
      × (reserved_names 0 req.reserved_names s ≡ found reserved)
      × (src ≡ new_source C (w.fresh 0) (to_lower req.typ) reserved req)
