-- ===== src/Sync/Scheduler/Samples.antt =====
-- A cron table that is the list of its entries, which has the laws that the scheduler relies on.
use mathlib.Core.List.Memᴰ
use role_provider_service.Base.{
  ℕ, suc, max, ◌≤◌, true, not, ◌≡◌, ◌≢◌, ◌↔◌, ◌⊎◌, refl, arith, List, [], ◌∷◌, Text, ◌==◌, nat_eq,
  nat_beq_iff, is_empty, filter, Memᴰ, Memᴰ-cons, mem-filter, if◌then◌else◌,
}
use role_provider_service.Base.Result.{Result, ok, err, other}
use role_provider_service.Common.Types.{Uuid}
use role_provider_service.Sync.Scheduler.{Cron, CronEntry}

pub last_id : List CronEntry → ℕ
last_id [] = 0
last_id (e ∷ es) = max e.0 (last_id es)

pub mem-le-last_id : (es : List CronEntry) (e : CronEntry) → Memᴰ e es → e.0 ≤ last_id es
unfolding last_id
mem-le-last_id [] e m = absurd (Memᴰ.not-nil m)
mem-le-last_id (x ∷ es) e m = ground (arith, mem-le-last_id es e, Memᴰ-cons e x es)

pub add_entry : Text → Uuid → List CronEntry → Result (List CronEntry × ℕ)
unfolding last_id
add_entry schedule src es =
    let id = suc (last_id es) in
    if is_empty schedule then err other else ok ((id, (schedule, src)) ∷ es, id)

pub add_entry-eq :
    (schedule : Text) (src : Uuid) (es es' : List CronEntry) (id : ℕ)
    → add_entry schedule src es ≡ ok (es', id)
    → (es' ≡ (id, (schedule, src)) ∷ es) × (id ≡ suc (last_id es))
unfolding add_entry
add_entry-eq [] src es es' id h = absurd (cc)
add_entry-eq (c ∷ schedule) src es es' id h = (cc, cc)

pub add_entry_ok :
    (schedule : Text) (src : Uuid) (es : List CronEntry)
    → not (is_empty schedule) ≡ true
    → (r : List CronEntry × ℕ) × (add_entry schedule src es ≡ ok r)
unfolding add_entry
add_entry_ok [] src es v = absurd (cc)
add_entry_ok (c ∷ schedule) src es v =
    (((suc (last_id es), (c ∷ schedule, src)) ∷ es, suc (last_id es)), refl)

pub add_entry_mem :
    (schedule : Text) (src : Uuid) (es es' : List CronEntry) (id : ℕ)
    → add_entry schedule src es ≡ ok (es', id)
    → (e : CronEntry) → Memᴰ e es' ↔ ((e ≡ (id, (schedule, src))) ⊎ Memᴰ e es)
add_entry_mem schedule src es es' id h e =
    rw ((add_entry-eq schedule src es es' id h).0) (Memᴰ-cons e (id, (schedule, src)) es)

pub add_entry_fresh :
    (schedule : Text) (src : Uuid) (es es' : List CronEntry) (id : ℕ)
    → add_entry schedule src es ≡ ok (es', id)
    → (e : CronEntry) → Memᴰ e es
    → e.0 ≢ id
add_entry_fresh schedule src es es' id h e m =
    ground (arith, mem-le-last_id es e m, (add_entry-eq schedule src es es' id h).1)

pub remove_entry : ℕ → List CronEntry → List CronEntry
unfolding filter
remove_entry id es = filter (λ (e : CronEntry). not (e.0 == id)) es

pub remove_entry_mem :
    (id : ℕ) (es : List CronEntry) (e : CronEntry)
    → Memᴰ e (remove_entry id es) ↔ (Memᴰ e es × (e.0 ≢ id))
unfolding remove_entry
remove_entry_mem id es e =
    ground (arith, mem-filter (λ (x : CronEntry). not (x.0 == id)) e es, nat_beq_iff e.0 id)

unfoldable pub list_cron : Cron
list_cron = record {
  Table = List CronEntry;
  entries = λ es. es;
  valid = λ schedule. not (is_empty schedule);
  add = add_entry;
  remove = remove_entry;
  add_ok = add_entry_ok;
  add_mem = add_entry_mem;
  add_fresh = add_entry_fresh;
  remove_mem = remove_entry_mem;
}
