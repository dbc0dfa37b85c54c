-- ===== src/Startup/Owned.antt =====
-- No group is nobody's after the start.
use role_provider_service.Base.{
  ℕ, true, false, ◌≡◌, ◌≢◌, ◌⊎◌, inl, inr, ⊎_elim, refl, sym, arith, List, [], ◌∷◌, Option, none,
  some, Text, suc, codes, subst, mem-sort, Memᴰ, map, All, length, ◌==◌, nat_eq, list_eq, option_eq,
  option_beq_iff, list_beq, Bool-cases, Option-cases, if◌then◌else◌,
}
use role_provider_service.Common.Types.{Uuid, Group, Source}
use role_provider_service.Store.State.{MemoryStore}
use role_provider_service.Store.Sources
use role_provider_service.Store.Groups.{own, move_to_source}
use role_provider_service.Store.History.{add_change}
use role_provider_service.Service.State.{Caller, Service, World, record_change}
use role_provider_service.Service.Catalog.{adopt, record_adopted}
use role_provider_service.Sync.Run.{source_type_local}
use role_provider_service.Startup.{
  system_caller, adopt_source, adopt_named, adopt_into_local, find_named, after_ids, is_file_type,
}

-- The owner of each group is not this one.
abbrev pub NotOwnedBy : Option Uuid → MemoryStore → Type 0
NotOwnedBy owner s = All (λ (g : Group). g.source_id ≢ owner) s.groups

own_other :
    (from owner x : Option Uuid) (to : Uuid)
    → (owner ≡ from) ⊎ (x ≢ owner)
    → owner ≢ some to
    → own from to x ≢ owner
unfolding own
own_other from owner x to h n e = elim (Bool-cases (x == from)) [
  | inl same ↦ n (sym (rw (same, own) at e))
  | inr other ↦
      let e' = rw (other, own) at e in
      ⊎_elim (λ k. absurd (ground (arith, option_beq_iff x from))) (λ k. k e') h
]

moved_groups :
    (from owner : Option Uuid) (to : Uuid) (gs : List Group)
    → (owner ≡ from) ⊎ All (λ (g : Group). g.source_id ≢ owner) gs
    → owner ≢ some to
    → All
        (λ (g : Group). g.source_id ≢ owner)
        (map (λ (g : Group). record g { source_id = own from to g.source_id }) gs)
moved_groups from owner to [] h n = tt
moved_groups from owner to (g ∷ gs) h n = (
  own_other from owner g.source_id to (⊎_elim inl (λ k. inr k.0) h) n,
  moved_groups from owner to gs (⊎_elim inl (λ k. inr k.1) h) n,
)

record_adopted-groups :
    (w : World) (n : ℕ) (caller : Caller) (detail : Text) (ids : List Text) (s : MemoryStore)
    → (record_adopted w n caller detail ids s).groups ≡ s.groups
unfolding record_adopted record_change add_change
record_adopted-groups w n caller detail [] s = refl
record_adopted-groups w n caller detail (id ∷ ids) s =
    record_adopted-groups w (suc n) caller detail ids _

record_adopted-sources :
    (w : World) (n : ℕ) (caller : Caller) (detail : Text) (ids : List Text) (s : MemoryStore)
    → (record_adopted w n caller detail ids s).sources ≡ s.sources
unfolding record_adopted record_change add_change
record_adopted-sources w n caller detail [] s = refl
record_adopted-sources w n caller detail (id ∷ ids) s =
    record_adopted-sources w (suc n) caller detail ids _

module _ (w : World) (svc : Service) (caller : Caller) (from : Option Uuid) (detail : Text)
    (s : MemoryStore) where
  adopt-NotOwnedBy :
      (owner : Option Uuid)
      → (owner ≡ from) ⊎ NotOwnedBy owner s
      → owner ≢ some svc.local_id
      → NotOwnedBy owner (adopt w svc caller from detail s).0
  unfolding adopt move_to_source
  adopt-NotOwnedBy owner h n =
      rw
        (record_adopted-groups w 0 caller detail (move_to_source from svc.local_id s).1
          (move_to_source from svc.local_id s).0)
        (moved_groups from owner svc.local_id s.groups h n)

  adopt-sources : (adopt w svc caller from detail s).0.sources ≡ s.sources
  unfolding adopt move_to_source
  adopt-sources =
      record_adopted-sources w 0 caller detail (move_to_source from svc.local_id s).1
        (move_to_source from svc.local_id s).0

-- The groups that the deleted source owned would be nobody's, but it owns none.
deleted_groups :
    (id : Uuid) (gs : List Group)
    → All (λ (g : Group). g.source_id ≢ none) gs
    → All (λ (g : Group). g.source_id ≢ some id) gs
    → All
        (λ (g : Group). g.source_id ≢ none)
        (map
          (λ (g : Group). if g.source_id == some id then record g { source_id = none } else g)
          gs)
deleted_groups id [] h k = tt
deleted_groups id (g ∷ gs) (h, hs) (k, ks) = elim (Bool-cases (g.source_id == some id)) [
  | inl e ↦ absurd (k ((option_beq_iff g.source_id (some id)).0 e))
  | inr e ↦ (rw e h, deleted_groups id gs hs ks)
]

adopt_source-Owned :
    (w : World) (svc : Service) (src : Source) (s : MemoryStore)
    → src.id ≢ svc.local_id
    → NotOwnedBy none s
    → NotOwnedBy none (adopt_source w svc src s).0
unfolding adopt_source Sources.delete_source
adopt_source-Owned w svc src s other h =
    deleted_groups src.id _
      (adopt-NotOwnedBy w svc _ (some src.id) _ s none (inr h) (λ e. absurd (cc)))
      (adopt-NotOwnedBy w svc _ (some src.id) _ s (some src.id) (inl refl)
        (λ e. other (let same : src.id ≡ svc.local_id = cc in same)))

mem-find_named :
    (name : Text) (srcs : List Source) (src : Source)
    → find_named name srcs ≡ some src
    → Memᴰ src srcs
unfolding find_named
mem-find_named name [] src e = absurd (cc)
mem-find_named name (x ∷ srcs) src e = elim (Bool-cases (x.name == name)) [
  | inl same ↦ Memᴰ.head (let e' = rw (same, find_named) at e in cc)
  | inr other ↦ Memᴰ.tail (mem-find_named name srcs src (rw (other, find_named) at e))
]

-- Only the local source has the local source's id.
abbrev pub LocalOnly : Service → List Source → Type 0
LocalOnly svc srcs =
    (src : Source) → Memᴰ src srcs → src.id ≡ svc.local_id → src.typ ≡ source_type_local

local_no_file : is_file_type source_type_local ≡ false
unfolding list_beq
local_no_file = refl

file_type_other : (typ : Text) → is_file_type typ ≡ true → typ ≢ source_type_local
file_type_other typ h e = absurd (let h' = rw (e, local_no_file) at h in cc)

adopt_named-Owned :
    (w : World) (svc : Service) (srcs : List Source) (names : List Text) (s : MemoryStore)
    → LocalOnly svc srcs
    → NotOwnedBy none s
    → NotOwnedBy none (adopt_named w svc srcs names s).0
unfolding adopt_named
adopt_named-Owned w svc srcs [] s l h = h
adopt_named-Owned w svc srcs (name ∷ names) s l h = elim (Option-cases (find_named name srcs)) [
  | inl e ↦ rw (e, adopt_named) (adopt_named-Owned w svc srcs names s l h)
  | inr (src, e) ↦ elim (Bool-cases (is_file_type src.typ)) [
    | inr other ↦ rw (e, other, adopt_named) h
    | inl file ↦
        rw (e, file, adopt_named)
          (adopt_named-Owned (after_ids (length (adopt_source w svc src s).1) w) svc srcs names
            (adopt_source w svc src s).0 l
            (adopt_source-Owned w svc src s
              (λ same. file_type_other src.typ file (l src (mem-find_named name srcs src e) same))
              h))
  ]
]

-- However the adoption at the start ends, afterwards no group belongs to no source, although sources are
-- deleted by it. The hypothesis says that a source with the local source's id is of the local type.
pub adopt_into_local-Owned :
    (w : World) (svc : Service) (names : List Text) (s : MemoryStore)
    → LocalOnly svc s.sources
    → NotOwnedBy none (adopt_into_local w svc names s).0
unfolding adopt_into_local Sources.list_sources
adopt_into_local-Owned w svc names s l =
    let s1 = (adopt w svc system_caller none (codes "belonged to no source") s).0 in
    adopt_named-Owned _ svc (Sources.list_sources s1) names s1
      (λ src m. l src (
        subst (λ srcs. Memᴰ src srcs)
          (adopt-sources w svc system_caller none (codes "belonged to no source") s)
          ((mem-sort _ src s1.sources).0 m)))
      (adopt-NotOwnedBy w svc system_caller none (codes "belonged to no source") s none (inl refl)
        (λ e. absurd (cc)))
