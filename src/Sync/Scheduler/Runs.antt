-- ===== src/Sync/Scheduler/Runs.antt =====
-- Every scheduler that the calls of `Start`, `Register` and `Unregister` lead to.
use mathlib.Core.List.Memᴰ
use role_provider_service.Base.{ℕ, true, ◌≡◌, ◌↔◌, ◌⊎◌, refl, [], ◌∷◌, Text, Memᴰ}
use role_provider_service.Base.Result.{ok}
use role_provider_service.Common.Types.{Uuid}
use role_provider_service.Store.State.{MemoryStore}
use role_provider_service.Store.Sources.{list_sources}
use role_provider_service.Sync.Scheduler.{
  Cron, CronEntry, find_job, Scheduler, unregister, register, start,
}
use role_provider_service.Sync.Scheduler.Jobs.{
  OneJob, Without, register-mem, unregister-OneJob, register_all-OneJob,
}

module _ (C : Cron) where
  -- From a new scheduler, over a cron table that has nothing in it.
  pub data Reached : Scheduler C → Type 0 where
    new : (c : C.Table) → C.entries c ≡ [] → Reached (record { cron = c; jobs = [] })
    registered :
        {s s' : Scheduler C} (src : Uuid) (schedule : Text)
        → Reached s
        → register C src schedule s ≡ ok s'
        → Reached s'
    started : {s : Scheduler C} (store : MemoryStore) → Reached s → Reached (start C store s)
    unregistered : {s : Scheduler C} (src : Uuid) → Reached s → Reached (unregister C src s)

  new-OneJob : (c : C.Table) → C.entries c ≡ [] → OneJob C (record { cron = c; jobs = [] })
  unfolding find_job
  new-OneJob c none_yet = record {
    job_of = λ e m. absurd (Memᴰ.not-nil (rw none_yet at m));
    entry_of = λ src id found. absurd (cc);
    same_source = λ e f m. absurd (Memᴰ.not-nil (rw none_yet at m));
  }

  Reached-OneJob : (s : Scheduler C) → Reached s → OneJob C s
  unfolding start
  Reached-OneJob _ (new c none_yet) = new-OneJob c none_yet
  Reached-OneJob _ (registered {s} {s'} src schedule r e) =
      (register-mem C src schedule s s' (Reached-OneJob s r) e).0
  Reached-OneJob _ (started {s} store r) =
      register_all-OneJob C (list_sources store) s (Reached-OneJob s r)
  Reached-OneJob _ (unregistered {s} src r) = unregister-OneJob C src s (Reached-OneJob s r)

  -- In every scheduler that calls of Start, Register and Unregister lead to, a schedule that the cron library
  -- accepts is registered: afterwards the source has the entry with this schedule and no other, and the
  -- entries of all other sources are as they were.
  pub register_scheduled :
      (src : Uuid) (schedule : Text) (s : Scheduler C)
      → Reached s
      → C.valid schedule ≡ true
      → (s' : Scheduler C) × (register C src schedule s ≡ ok s')
        × Reached s'
        × ((id : ℕ) × ((e : CronEntry)
              → Memᴰ e (C.entries s'.cron) ↔ ((e ≡ (id, (schedule, src))) ⊎ Without C src s e)))
  unfolding register
  register_scheduled src schedule s r v =
      let ((c, id), added) = C.add_ok schedule src s.cron v in
      let s1 = unregister C src (record { cron = c; jobs = s.jobs }) in
      let s' : Scheduler C = record { cron = s1.cron; jobs = (src, id) ∷ s1.jobs } in
      let e : register C src schedule s ≡ ok s' = rw added refl in
      (
        s',
        e,
        registered {s = s} {s' = s'} src schedule r e,
        (register-mem C src schedule s s' (Reached-OneJob s r) e).1,
      )
