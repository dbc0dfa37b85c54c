-- ===== src/Sync/Scheduler.antt =====
-- internal/sync/scheduler.go: the cron jobs of the sources. The cron library is a parameter; what the
-- code relies on are its laws. An entry's function runs the sync of one source, so the source stands for
-- it.
pub mod Jobs
pub mod Runs
pub mod Samples
use role_provider_service.Base.{
  ℕ, Bool, true, not, ◌≡◌, ◌≢◌, ◌↔◌, ◌⊎◌, List, [], ◌∷◌, Option, none, some, Text, ◌==◌, nat_eq,
  if◌then◌else◌, is_empty, filter, Memᴰ,
}
use role_provider_service.Base.Result.{Result, ok, err, ◌>>=◌, other}
use role_provider_service.Common.Types.{Uuid, Source}
use role_provider_service.Store.State.{MemoryStore}
use role_provider_service.Store.Sources.{list_sources}

-- An entry's id, its schedule, and the source that it syncs.
abbrev pub CronEntry : Type 0
CronEntry = ℕ × (Text × Uuid)

abbrev pub source_of : CronEntry → Uuid
source_of e = e.1.1

-- `add` is `AddFunc`, `valid` whether `ParseStandard` accepts a schedule.
pub record Cron : Type 1 where
  pub Table : Type 0
  pub entries : Table → List CronEntry
  pub valid : Text → Bool
  pub add : Text → Uuid → Table → Result (Table × ℕ)
  pub remove : ℕ → Table → Table
  pub add_ok :
      (schedule : Text) (src : Uuid) (c : Table)
      → valid schedule ≡ true
      → (r : Table × ℕ) × (add schedule src c ≡ ok r)
  pub add_mem :
      (schedule : Text) (src : Uuid) (c c' : Table) (id : ℕ)
      → add schedule src c ≡ ok (c', id)
      → (e : CronEntry) → Memᴰ e (entries c') ↔ ((e ≡ (id, (schedule, src))) ⊎ Memᴰ e (entries c))
  pub add_fresh :
      (schedule : Text) (src : Uuid) (c c' : Table) (id : ℕ)
      → add schedule src c ≡ ok (c', id)
      → (e : CronEntry) → Memᴰ e (entries c)
      → e.0 ≢ id
  pub remove_mem :
      (id : ℕ) (c : Table) (e : CronEntry)
      → Memᴰ e (entries (remove id c)) ↔ (Memᴰ e (entries c) × (e.0 ≢ id))

-- The map from a source to the entry of its job.
abbrev pub Jobs : Type 0
Jobs = List (Uuid × ℕ)

unfoldable pub find_job : Uuid → Jobs → Option ℕ
find_job src [] = none
find_job src ((x, id) ∷ jobs) = let rest = find_job src jobs in if x == src then some id else rest

unfoldable pub delete_job : Uuid → Jobs → Jobs
unfolding filter
delete_job src jobs = filter (λ (j : Uuid × ℕ). not (j.0 == src)) jobs

module _ (C : Cron) where
  pub record Scheduler : Type 0 where
    pub cron : C.Table
    pub jobs : Jobs

  unfoldable pub validate_schedule : Text → Result (Unit {0})
  validate_schedule schedule = if C.valid schedule then ok tt else err other

  unfoldable pub unregister : Uuid → Scheduler → Scheduler
  unregister src s = elim (find_job src s.jobs) [
    | none ↦ s
    | some id ↦ record { cron = C.remove id s.cron; jobs = delete_job src s.jobs }
  ]

  -- An error leaves the scheduler as it was.
  unfoldable pub register : Uuid → Text → Scheduler → Result Scheduler
  unfolding unregister
  register src schedule s = C.add schedule src s.cron >>= λ (c, id).
      let s1 = unregister src (record { cron = c; jobs = s.jobs }) in
      ok (record { cron = s1.cron; jobs = (src, id) ∷ s1.jobs })

  -- A schedule that cannot be registered is only logged.
  unfoldable pub register_all : List Source → Scheduler → Scheduler
  unfolding register
  register_all [] s = s
  register_all (src ∷ srcs) s =
      if is_empty src.schedule then register_all srcs s else elim (register src.id src.schedule s) [
        | ok s' ↦ register_all srcs s'
        | err _ ↦ register_all srcs s
      ]

  unfoldable pub start : MemoryStore → Scheduler → Scheduler
  unfolding register_all
  start store s = register_all (list_sources store) s
