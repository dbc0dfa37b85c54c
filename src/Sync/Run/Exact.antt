-- ===== src/Sync/Run/Exact.antt =====
-- What a run that is done means for the source's entries, and for everyone else's.
use mathlib.Core.List.Memᴰ
use role_provider_service.Base.{
  ℕ, ◌≡◌, ◌≢◌, ◌↔◌, ◌⊎◌, inl, inr, ⊎_elim, sym, subst, ap, ◌∙◌, Option, some, List, [], ◌∷◌, Memᴰ,
  Memᴰ-cons, Memᴰ-concat, Text, map, arith, nat_eq, list_eq, contains_iff, Distinct, Option-cases,
  list_beq_iff, nat_beq_iff,
}
use role_provider_service.Base.Result.{Error, ok, err, >>=-eq-ok, ok-inj}
use role_provider_service.Common.Types.{Uuid, Time, Source, Group, SyncLog, TuplePair}
use role_provider_service.Common.Relations.{Relations}
use role_provider_service.Store.State.{MemoryStore}
use role_provider_service.Store.Entries.{Key}
use role_provider_service.Store.Listing.{add_new}
use role_provider_service.Store.Groups.{find_group}
use role_provider_service.Store.Sources.{get_source, find_source, create_sync_log}
use role_provider_service.Store.Sources.Frame.{Data, data_of}
use role_provider_service.Store.Import.{Descriptions, pair_key, replace_tuples}
use role_provider_service.Store.Import.Keep.{Has, others}
use role_provider_service.Store.Import.Exact.{replace_tuples_exact}
use role_provider_service.Store.Import.Foreign.{replace_tuples-groups}
use role_provider_service.Sync.Checks.{
  normalize_ids, normalize_pair, check_relations, add_group_ids, group_ids, check_ownership,
}
use role_provider_service.Sync.Checks.Ownership.{Free, check_ownership_iff}
use role_provider_service.Sync.Run.{
  Readers, Delivered, deliver, accept, run_sync, source_type_local,
}
use role_provider_service.Sync.Checks.Accepted.{AllAccepted, check_relations-AllAccepted}
use role_provider_service.Sync.Run.Outcome.{refused, done, run_sync-cases}

mem-add_group_ids :
    (out : List Text) (ps : List TuplePair) (id : Text)
    → Memᴰ id (add_group_ids out ps) ↔ (Memᴰ id out ⊎ Memᴰ id (map (λ p. p.group_id) ps))
unfolding add_group_ids add_new
mem-add_group_ids out [] id = (inl, λ h. ⊎_elim (λ m. m) (λ m. absurd (Memᴰ.not-nil m)) h)
mem-add_group_ids out (p ∷ ps) id = ground (
  arith,
  mem-add_group_ids (add_new out p.group_id) ps id,
  contains_iff out p.group_id,
  Memᴰ-concat id p.group_id out,
  Memᴰ-cons id p.group_id (map (λ (p : TuplePair). p.group_id) ps),
)

-- What is accepted names only groups that are free for the source.
accept-Free :
    (relations : Relations) (source : Uuid) (log : SyncLog) (s : MemoryStore) (d : Delivered)
    (ps : List TuplePair) (ds : Descriptions)
    → accept relations source (create_sync_log log s) d ≡ ok (ps, ds)
    → (id : Text) → Memᴰ id (map (λ p. p.group_id) ps)
    → Free source s id
unfolding accept create_sync_log group_ids
accept-Free relations source log s (raw, (descriptions, notes)) ps ds h id m =
    let s0 = create_sync_log log s in
    let (qs, a, h1) =
      >>=-eq-ok (check_relations relations (normalize_ids raw descriptions).0) _ h in
    let (_, b, h2) = >>=-eq-ok (check_ownership source (group_ids qs) s0) _ h1 in
    let same : qs ≡ ps = ap (λ (x : List TuplePair × Descriptions). x.0) (ok-inj h2) in
    let f = (check_ownership_iff source (group_ids qs) s0).0 b id (
      (mem-add_group_ids [] qs id).1
        (inr (subst (λ x. Memᴰ id (map (λ p. p.group_id) x)) (sym same) m))) in
    record { owned = f.owned; unreserved = f.unreserved }

-- What is accepted are the delivered tuples in their accepted forms.
accept-AllAccepted :
    (relations : Relations) (source : Uuid) (s : MemoryStore) (d : Delivered) (ps : List TuplePair)
    (ds : Descriptions)
    → accept relations source s d ≡ ok (ps, ds)
    → AllAccepted relations d.0 ps
unfolding accept normalize_ids
accept-AllAccepted relations source s (raw, (descriptions, notes)) ps ds h =
    let (qs, a, h1) = >>=-eq-ok (check_relations relations (map normalize_pair raw)) _ h in
    let (_, _, h2) = >>=-eq-ok (check_ownership source (group_ids qs) s) _ h1 in
    let same : qs ≡ ps = ap (λ (x : List TuplePair × Descriptions). x.0) (ok-inj h2) in
    subst (AllAccepted relations raw) same (check_relations-AllAccepted relations raw qs a)

find_source-id :
    (id : Uuid) (srcs : List Source) (src : Source) → find_source id srcs ≡ some src → src.id ≡ id
unfolding find_source
find_source-id id [] src h = absurd (cc)
find_source-id id (x ∷ srcs) src h = ground (arith, find_source-id id srcs src, nat_beq_iff x.id id)

get_source-id :
    (id : Uuid) (s : MemoryStore) (src : Source) → get_source id s ≡ ok src → src.id ≡ id
unfolding get_source
get_source-id id s src h = elim (Option-cases (find_source id s.sources)) [
  | inl e ↦ absurd (cc (h, e))
  | inr (x, e) ↦
      subst (λ y. y.id ≡ id) (ok-inj (rw (e, get_source) at h)) (find_source-id id s.sources x e)
]

-- The groups that an import names are free for the source; its entries have exactly the keys that the import says;
-- everyone else's entries, the managers and the history are as they were.
pub record Imported (source : Uuid) (ps : List TuplePair) (s after : MemoryStore) : Type 0 where
  pub free : (id : Text) → Memᴰ id (map (λ p. p.group_id) ps) → Free source s id
  pub exact : (k : Key) → Has source after.tuples k ↔ Memᴰ k (map pair_key ps)
  pub foreign : others source after.tuples ≡ others source s.tuples
  pub managers : after.managers ≡ s.managers
  pub history : after.changes ≡ s.changes

replaced-Imported :
    (relations : Relations) (now : Time) (fresh : ℕ → Uuid) (source : Uuid) (log : SyncLog)
    (s after : MemoryStore) (d : Delivered) (ps : List TuplePair) (ds : Descriptions)
    → accept relations source (create_sync_log log s) d ≡ ok (ps, ds)
    → data_of after ≡ data_of (replace_tuples now fresh source ps ds s).0
    → Imported source ps s after
unfolding replace_tuples
replaced-Imported relations now fresh source log s after d ps ds c q =
    let (exact, foreign, _) = replace_tuples_exact now fresh source ps ds s in
    let entries : (replace_tuples now fresh source ps ds s).0.tuples ≡ after.tuples =
      sym (ap (λ (x : Data). x.1.0) q) in
    record {
      free = accept-Free relations source log s d ps ds c;
      exact = λ k. subst (λ ts. Has source ts k ↔ Memᴰ k (map pair_key ps)) entries (exact k);
      foreign = subst (λ ts. others source ts ≡ others source s.tuples) entries foreign;
      managers = ap (λ (x : Data). x.1.1.0) q;
      history = ap (λ (x : Data). x.1.1.1) q;
    }

-- What a run that is done took over: the source is there and is not the local one, and the import is what the
-- source delivers, each tuple in its accepted form and none left out.
pub record Taken (rd : Readers) (relations : Relations) (source : Uuid) (content : Option Text)
    (s : MemoryStore) (ps : List TuplePair) : Type 0 where
  pub src : Source
  pub known : get_source source s ≡ ok src
  pub foreign : src.typ ≢ source_type_local
  pub delivered : Delivered
  pub delivery : deliver rd src content ≡ ok delivered
  pub accepted : AllAccepted relations delivered.0 ps

-- After `RunSync`, either the run was refused and groups, entries, managers and the history are what they
-- were, or it was done: then the import is what the source delivers, in its order and no tuple left out, each
-- with its ids normalized and with relations that are configured; each group named in it is free for the
-- source (it is the source's or does not exist yet, and no other source has reserved its id), the source's
-- entries have exactly the keys that the import says, and the entries of everyone else, the managers and
-- the history are what they were.
pub run_sync_exact :
    (rd : Readers) (relations : Relations) (now : Time) (fresh : ℕ → Uuid) (log_id source : Uuid)
    (content : Option Text) (s : MemoryStore)
    → let (after, answer) = run_sync rd relations now fresh log_id source content s in
      ((e : Error) × (answer ≡ err e) × (data_of after ≡ data_of s))
      ⊎ ((ps : List TuplePair) × (answer ≡ ok tt)
          × Taken rd relations source content s ps
          × Imported source ps s after)
run_sync_exact rd relations now fresh log_id source content s =
    elim (run_sync-cases rd relations now fresh log_id source content s) [
      | refused e a d ↦ inl (e, a, d)
      | done src log d ps ds a found typed b c q ↦ inr (
        ps,
        a,
        record {
          src = src;
          known = found;
          foreign = typed;
          delivered = d;
          delivery = b;
          accepted = accept-AllAccepted relations src.id (create_sync_log log s) d ps ds c;
        },
        subst (λ id. Imported id ps s (run_sync rd relations now fresh log_id source content s).0)
            (get_source-id source s src found)
            (replaced-Imported relations now fresh src.id log s _ d ps ds c q),
      )
    ]

find_group-mem :
    (gs : List Group) (g : Group)
    → Distinct (map (λ x. x.id) gs)
    → Memᴰ g gs
    → find_group g.id gs ≡ some g
unfolding find_group
find_group-mem [] g u m = absurd (Memᴰ.not-nil m)
find_group-mem (x ∷ gs) g u m = elim (Memᴰ.cases_cons m) [
  | inl e ↦ rw e (ground (arith, list_beq_iff x.id x.id))
  | inr n ↦
      let apart : x.id ≢ g.id = λ e. u.0 (Memᴰ.cast e (Memᴰ.map (λ (y : Group). y.id) n)) in
      ground (arith, find_group-mem gs g u.1 n, list_beq_iff x.id g.id)
]

-- Where no two groups have one id: a group of the store that is not the source's is, after `RunSync`
-- for the source and whatever comes of it, in the store with everything as it was.
pub run_sync-groups :
    (rd : Readers) (relations : Relations) (now : Time) (fresh : ℕ → Uuid) (log_id source : Uuid)
    (content : Option Text) (s : MemoryStore) (g : Group)
    → Distinct (map (λ x. x.id) s.groups)
    → Memᴰ g s.groups
    → g.source_id ≢ some source
    → Memᴰ g (run_sync rd relations now fresh log_id source content s).0.groups
run_sync-groups rd relations now fresh log_id source content s g u m n =
    elim (run_sync-cases rd relations now fresh log_id source content s) [
      | refused e a d ↦ subst (Memᴰ g) (sym (ap (λ (x : Data). x.0) d)) m
      | done src log d ps ds a found typed b c q ↦
          let same = get_source-id source s src found in
          let apart : g.source_id ≢ some src.id = λ e. n (e ∙ ap some same) in
          subst (Memᴰ g) (sym (ap (λ (x : Data). x.0) q)) (
            replace_tuples-groups now fresh src.id ps ds s g m apart (λ k. apart (
              (accept-Free relations src.id log s d ps ds c g.id k).owned g
                (find_group-mem s.groups g u m))))
    ]
