-- ===== src/Sync/Run/Outcome.antt =====
-- What a run leaves of the groups, the entries, the managers and the history.
use role_provider_service.Base.{
  ℕ, ◌≡◌, ◌≢◌, inl, inr, refl, ◌∙◌, Option, List, Text, Bool-cases, ◌==◌, list_beq_iff, nat_eq,
  list_eq,
}
use role_provider_service.Base.Result.{
  Result, Error, ok, err, Result-cases, >>=-eq-ok, import_error, ◌>>=◌,
}
use role_provider_service.Common.Types.{Uuid, Time, Source, SyncLog, TuplePair}
use role_provider_service.Common.Relations.{Relations}
use role_provider_service.Store.State.{MemoryStore}
use role_provider_service.Store.Sources.{get_source, create_sync_log, update_sync_log}
use role_provider_service.Store.Sources.Frame.{
  data_of, update_source_sync_status-data, update_sync_log-data,
}
use role_provider_service.Store.Import.{Descriptions, replace_tuples}
use role_provider_service.Sync.Run.{
  Readers, Delivered, deliver, accept, or_ignore, finish, run_logged, run_sync, source_type_local,
}

or_ignore-data :
    (s : MemoryStore) (r : Result MemoryStore)
    → ((s' : MemoryStore) → r ≡ ok s' → data_of s' ≡ data_of s)
    → data_of (or_ignore s r) ≡ data_of s
unfolding or_ignore
or_ignore-data s (ok s') h = h s' refl
or_ignore-data s (err e) h = refl

finish-data :
    (now : Time) (source : Uuid) (log : SyncLog) (status : Text) (s : MemoryStore)
    → data_of (finish now source log status s) ≡ data_of s
unfolding finish
finish-data now source log status s =
    let s1 = or_ignore s (update_sync_log log s) in
    or_ignore-data s1 _ (update_source_sync_status-data now source status now s1)
    ∙ or_ignore-data s _ (update_sync_log-data log s)

-- The outcome of a run: refused, with the store's data as they were, or done, with the data that
-- `ReplaceTuples` leaves of what was accepted.
pub data Outcome (rd : Readers) (relations : Relations) (now : Time) (fresh : ℕ → Uuid)
    (source : Uuid) (content : Option Text) (s : MemoryStore)
    (out : MemoryStore × Result (Unit {0})) : Type 0 where
  refused :
      (e : Error)
      → out.1 ≡ err e
      → data_of out.0 ≡ data_of s
      → Outcome rd relations now fresh source content s out
  done :
      (src : Source) (log : SyncLog) (d : Delivered) (ps : List TuplePair) (ds : Descriptions)
      → out.1 ≡ ok tt
      → get_source source s ≡ ok src
      → src.typ ≢ source_type_local
      → deliver rd src content ≡ ok d
      → accept relations src.id (create_sync_log log s) d ≡ ok (ps, ds)
      → data_of out.0 ≡ data_of (replace_tuples now fresh src.id ps ds s).0
      → Outcome rd relations now fresh source content s out

run_logged-cases :
    (rd : Readers) (relations : Relations) (now : Time) (fresh : ℕ → Uuid) (source : Uuid)
    (content : Option Text) (src : Source) (log : SyncLog) (s : MemoryStore)
    → get_source source s ≡ ok src
    → src.typ ≢ source_type_local
    → Outcome rd relations now fresh source content s
        (run_logged rd relations now fresh src content log (create_sync_log log s))
unfolding run_logged create_sync_log replace_tuples
run_logged-cases rd relations now fresh source content src log s found typed =
    let s0 = create_sync_log log s in
    elim (Result-cases (deliver rd src content >>= accept relations src.id s0)) [
      | inr (e, q) ↦
          refused e (rw (q, run_logged) refl) (rw (q, run_logged) (finish-data now src.id _ _ s0))
      | inl ((ps, ds), q) ↦
          let (d, a, b) = >>=-eq-ok (deliver rd src content) (accept relations src.id s0) q in
          done src log d ps ds (rw (q, run_logged) refl) found typed a b (
            rw (q, run_logged)
              (finish-data now src.id _ _ (replace_tuples now fresh src.id ps ds s0).0))
    ]

-- `RunSync` has one of two outcomes. It refuses: then groups, entries, managers and the history are what
-- they were. Or it is done: then the source is there and not the local one, what it delivers is
-- accepted, and groups, entries, managers and the history are what `ReplaceTuples` makes of it.
pub run_sync-cases :
    (rd : Readers) (relations : Relations) (now : Time) (fresh : ℕ → Uuid) (log_id source : Uuid)
    (content : Option Text) (s : MemoryStore)
    → Outcome rd relations now fresh source content s
        (run_sync rd relations now fresh log_id source content s)
unfolding run_sync
run_sync-cases rd relations now fresh log_id source content s =
    elim (Result-cases (get_source source s)) [
      | inr (e, q) ↦ refused e (rw (q, run_sync) refl) (rw (q, run_sync) refl)
      | inl (src, q) ↦ elim (Bool-cases (src.typ == source_type_local)) [
        | inl t ↦ refused import_error (rw (q, t, run_sync) refl) (rw (q, t, run_sync) refl)
        | inr t ↦
            rw (q, t, run_sync)
              (run_logged-cases rd relations now fresh source content src _ s q
                (λ z. cc (t, (list_beq_iff src.typ source_type_local).1 z)))
      ]
    ]
