-- ===== src/Sync/Checks/Ownership.antt =====
-- When a source may write into groups.
use mathlib.Core.Option
use role_provider_service.Base.{
  ◌≡◌, ◌≢◌, ◌↔◌, inl, inr, refl, sym, subst, Bool, true, false, not, ◌&&◌, List, [], ◌∷◌, Memᴰ,
  arith, Text, none, some, nat_eq, list_eq, option_eq, list_beq_iff, option_beq_iff, Bool-cases,
  Option-cases, any, all, any-true, any-false, any_of_mem, all-mem, all_of_mem, nat_beq_iff,
  if◌then◌else◌, contains, contains_iff,
}
use role_provider_service.Base.Result.{ok, guard_iff, import_error}
use role_provider_service.Common.Types.{Uuid, Group, Source}
use role_provider_service.Common.Glob.{match_glob}
use role_provider_service.Store.State.{MemoryStore}
use role_provider_service.Store.Groups.{find_group, group_owners}
use role_provider_service.Store.Sources.{list_sources}
use role_provider_service.Store.Sources.Frame.{mem-list_sources}
use role_provider_service.Sync.Checks.{
  owner_of, owned_elsewhere, reserved_elsewhere, check_ownership,
}

-- What the map of owners says of an id.
owner_of-group_owners :
    (id : Text) (ids : List Text) (s : MemoryStore)
    → owner_of id (group_owners ids s)
      ≡ (if contains ids id then Option.map (λ g. g.source_id) (find_group id s.groups) else none)
unfolding owner_of group_owners contains
owner_of-group_owners id [] s = refl
owner_of-group_owners id (x ∷ ids) s = elim (Option-cases (find_group x s.groups)) [
  | inl e ↦
      rw (e, group_owners)
        (ground (
          arith,
          owner_of-group_owners id ids s,
          list_beq_iff id x,
          list_beq_iff x id,
          λ (q : id ≡ x). subst (λ y. find_group y s.groups ≡ none) (sym q) e,
        ))
  | inr (g, e) ↦
      rw (e, group_owners)
        (ground (
          arith,
          owner_of-group_owners id ids s,
          list_beq_iff id x,
          list_beq_iff x id,
          λ (q : id ≡ x). subst (λ y. find_group y s.groups ≡ some g) (sym q) e,
        ))
]

-- The group with this id is the source's, or there is none; and no other source has reserved the id.
pub record Free (source : Uuid) (s : MemoryStore) (id : Text) : Type 0 where
  pub owned : (g : Group) → find_group id s.groups ≡ some g → g.source_id ≡ some source
  pub unreserved :
      (src : Source)
      → Memᴰ src s.sources
      → src.id ≢ source
      → (glob : Text) → Memᴰ glob src.reserved_names
      → match_glob glob id ≡ false

some-inj : {A : Type 0} {a b : A} → some a ≡ some b → a ≡ b
some-inj h = cc

owned_elsewhere_iff :
    (source : Uuid) (id : Text) (ids : List Text) (s : MemoryStore)
    → Memᴰ id ids
    → (owned_elsewhere source id (group_owners ids s) ≡ false)
      ↔ ((g : Group) → find_group id s.groups ≡ some g → g.source_id ≡ some source)
unfolding owned_elsewhere
owned_elsewhere_iff source id ids s m =
    rw (owned_elsewhere, owner_of-group_owners id ids s, (contains_iff ids id).1 m)
      (elim (Option-cases (find_group id s.groups)) [
        | inl e ↦ rw e (λ h g q. absurd (cc), λ h. refl)
        | inr (g, e) ↦ rw e (
          λ h g' q.
              subst (λ y. y.source_id ≡ some source) (some-inj q)
                (ground (arith, option_beq_iff g.source_id (some source))),
          λ h. ground (arith, h g refl, option_beq_iff g.source_id (some source)),
        )
      ])

unmatched :
    (source : Uuid) (id : Text) (src : Source)
    → reserved_elsewhere source id src ≡ false
    → src.id ≢ source
    → (glob : Text) → Memᴰ glob src.reserved_names
    → match_glob glob id ≡ false
unfolding reserved_elsewhere
unmatched source id src h d glob n = elim (Bool-cases (match_glob glob id)) [
  | inr e ↦ e
  | inl e ↦
      let found = any_of_mem (λ (y : Text). match_glob y id) src.reserved_names glob n e in
      ground (arith, nat_beq_iff src.id source)
]

matched :
    (source : Uuid) (id : Text) (src : Source)
    → reserved_elsewhere source id src ≡ true
    → (src.id ≢ source)
      × ((glob : Text) × Memᴰ glob src.reserved_names × (match_glob glob id ≡ true))
unfolding reserved_elsewhere
matched source id src h = (
  ground (arith, nat_beq_iff src.id source),
  any-true (λ (y : Text). match_glob y id) src.reserved_names
      (ground (arith, nat_beq_iff src.id source)),
)

reserved_elsewhere_iff :
    (source : Uuid) (id : Text) (s : MemoryStore)
    → (any (reserved_elsewhere source id) (list_sources s) ≡ false) ↔ (
        (src : Source)
        → Memᴰ src s.sources
        → src.id ≢ source
        → (glob : Text) → Memᴰ glob src.reserved_names
        → match_glob glob id ≡ false)
reserved_elsewhere_iff source id s = (
  λ h src m d glob n.
      let quiet =
        any-false (reserved_elsewhere source id) (list_sources s) h src
          ((mem-list_sources src s).1 m) in
      unmatched source id src quiet d glob n,
  λ h. elim (Bool-cases (any (reserved_elsewhere source id) (list_sources s))) [
    | inr e ↦ e
    | inl e ↦
        let (src, m, r) = any-true (reserved_elsewhere source id) (list_sources s) e in
        let (d, (glob, n, q)) = matched source id src r in
        absurd (cc (q, h src ((mem-list_sources src s).0 m) d glob n))
  ],
)

-- A source may write into groups exactly if each of them is free for it.
pub check_ownership_iff :
    (source : Uuid) (ids : List Text) (s : MemoryStore)
    → (check_ownership source ids s ≡ ok tt) ↔ ((id : Text) → Memᴰ id ids → Free source s id)
unfolding check_ownership
check_ownership_iff source ids s = (
  λ h id m.
      let both = all-mem free ids ((guard_iff (all free ids) import_error).0 h) id m in
      record {
        owned = (owned_elsewhere_iff source id ids s m).0 (ground arith);
        unreserved = (reserved_elsewhere_iff source id s).0 (ground arith);
      },
  λ h. (guard_iff (all free ids) import_error).1 (
      all_of_mem free ids (λ id m.
        let f = h id m in
        let a = (owned_elsewhere_iff source id ids s m).1 f.owned in
        let b = (reserved_elsewhere_iff source id s).1 f.unreserved in ground arith)),
)
  where
    free : Text → Bool
    free id =
        not (owned_elsewhere source id (group_owners ids s))
        && not (any (reserved_elsewhere source id) (list_sources s))
