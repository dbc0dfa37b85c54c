-- ===== src/Store/Sources/Frame.antt =====
-- The operations on sources and logs leave the groups, entries, managers and the history alone.
use role_provider_service.Base.{
  ◌≡◌, ◌↔◌, Memᴰ, mem-sort, inl, inr, sym, ap, Option-cases, List, Text,
}
use role_provider_service.Base.Result.{ok, ok-inj}
use role_provider_service.Common.Types.{Uuid, Time, Group, Manager, Change, SyncLog, Source}
use role_provider_service.Store.State.{Entry, MemoryStore}
use role_provider_service.Store.Sources.{
  find_source, source_leb, list_sources, update_source_where, set_sync_log, update_sync_log,
  update_source_sync_status,
}

-- All of the store but the sources and their logs.
abbrev pub Data : Type 0
Data = List Group × (List Entry × (List (Text × List Manager) × List Change))

abbrev pub data_of : MemoryStore → Data
data_of s = (s.groups, (s.tuples, (s.managers, s.changes)))

update_source_where-data :
    (id : Uuid) (f : Source → Source) (s s' : MemoryStore)
    → update_source_where id f s ≡ ok s'
    → data_of s' ≡ data_of s
unfolding update_source_where
update_source_where-data id f s s' h = elim (Option-cases (find_source id s.sources)) [
  | inl e ↦ absurd (cc (h, e))
  | inr (x, e) ↦ sym (ap data_of (ok-inj (rw (e, update_source_where) at h)))
]

pub update_source_sync_status-data :
    (now : Time) (id : Uuid) (status : Text) (at : Time) (s s' : MemoryStore)
    → update_source_sync_status now id status at s ≡ ok s'
    → data_of s' ≡ data_of s
unfolding update_source_sync_status
update_source_sync_status-data now id status at s s' h = update_source_where-data id _ s s' h

pub update_sync_log-data :
    (l : SyncLog) (s s' : MemoryStore) → update_sync_log l s ≡ ok s' → data_of s' ≡ data_of s
unfolding update_sync_log
update_sync_log-data l s s' h = elim (Option-cases (set_sync_log l s.sync_logs)) [
  | inl e ↦ absurd (cc (h, e))
  | inr (x, e) ↦ sym (ap data_of (ok-inj (rw (e, update_sync_log) at h)))
]

pub mem-list_sources :
    (src : Source) (s : MemoryStore) → Memᴰ src (list_sources s) ↔ Memᴰ src s.sources
unfolding list_sources
mem-list_sources src s = mem-sort source_leb src s.sources
