-- ===== src/Service/Membership/Effect.antt =====
-- What adding a member changes, and when it is refused.
use role_provider_service.Base.{
  ◌≡◌, ◌⊎◌, inl, inr, refl, [], ◌∷◌, ◌++◌, Text, Option, some, nat_eq, list_eq, pair_eq, Bool-cases,
  any, ◌==◌, if◌then◌else◌,
}
use role_provider_service.Base.Result.{Error, ok, err, Result-cases}
use role_provider_service.Common.Types.{Uuid, Time, Group, member_added}
use role_provider_service.Common.Token.{build_token, normalize_relation}
use role_provider_service.Store.State.{MemoryStore}
use role_provider_service.Store.Entries
use role_provider_service.Store.Entries.{key, key_of, is_entry, set_expires}
use role_provider_service.Store.Entries.Keys.{validity}
use role_provider_service.Store.Entries.Changes.{validity-add_member}
use role_provider_service.Store.History.{add_change, stamped}
use role_provider_service.Service.State.{Caller, Service, World, record_change, signed}
use role_provider_service.Service.Catalog.{change}
use role_provider_service.Service.Membership.{check_add_member, with_member, add_member}
use role_provider_service.Service.Membership.Checks.{MayAdd, check_add_member-ok}

add_member-rest :
    (now : Time) (fresh : Uuid) (group_id relation member_type member_id : Text)
    (source : Option Uuid) (e : Option Time) (s : MemoryStore)
    → (let s' = Entries.add_member now fresh group_id relation member_type member_id source e s in
        (s'.groups ≡ s.groups)
        × ((s'.sources ≡ s.sources) × ((s'.managers ≡ s.managers) × (s'.changes ≡ s.changes))))
unfolding Entries.add_member
add_member-rest now fresh group_id relation member_type member_id source e s =
    let k = key group_id (normalize_relation relation) member_type member_id in
    elim (Bool-cases (any (is_entry k) s.tuples)) [
      | inl q ↦ rw (q, Entries.add_member) (refl, (refl, (refl, refl)))
      | inr q ↦ rw (q, Entries.add_member) (refl, (refl, (refl, refl)))
    ]

-- The group may be changed, and of the store only the member's entry and the history are changed:
-- the entry with the relation now stops counting at the expiry, and one change of the group is added.
pub record Added (w : World) (svc : Service) (caller : Caller)
    (group_token relation member_token : Text) (expires_at : Option Time) (s s' : MemoryStore)
    (x : Group × (Text × (Text × Text))) : Type 0 where
  pub checked : MayAdd w svc caller group_token relation member_token expires_at s x
  pub entries :
      (j : Entries.Key)
      → validity j s'.tuples ≡ (
          if j == key x.0.id (normalize_relation x.1.0) x.1.1.0 x.1.1.1
          then some expires_at
          else validity j s.tuples)
  pub groups : s'.groups ≡ s.groups
  pub sources : s'.sources ≡ s.sources
  pub managers : s'.managers ≡ s.managers
  pub history :
      s'.changes
      ≡ s.changes
        ++ stamped w.now (w.fresh 1) (
            signed caller (record (change x.0.id member_added) {
              member = build_token x.1.1.0 x.1.1.1;
              relation = x.1.0;
              expires_at = expires_at;
            }))
          ∷ []

-- `AddMember` either refuses and leaves the store as it was, or the caller may add the member (the group
-- is a local one that they maintain, the relation is configured, the member's token is valid, the
-- expiry lies ahead, and no cycle comes about), and then exactly the member's entry with the relation
-- stops counting at the expiry, every other entry counts as before, groups, sources and managers stay, and
-- one change of the group by the caller is added to the history.
pub add_member_correct :
    (w : World) (svc : Service) (caller : Caller) (group_token relation member_token : Text)
    (expires_at : Option Time) (s : MemoryStore)
    → ((e : Error) × (add_member w svc caller group_token relation member_token expires_at s
          ≡ (s, err e)))
      ⊎ ((x : Group × (Text × (Text × Text))) × (s' : MemoryStore) × (add_member w svc caller
              group_token relation member_token expires_at s
            ≡ (s', ok tt))
          × Added w svc caller group_token relation member_token expires_at s s' x)
unfolding add_member with_member record_change add_change
add_member_correct w svc caller group_token relation member_token expires_at s =
    elim (Result-cases
      (check_add_member w svc caller group_token relation member_token expires_at s)) [
        | inr (e, q) ↦ inl (e, rw (q, add_member) refl)
        | inl (x, q) ↦
            let (g, (rel, (member_type, member_id))) = x in
            let rest =
              add_member-rest w.now (w.fresh 0) g.id rel member_type member_id (some svc.local_id)
                expires_at s in
            inr (
              x,
              with_member w svc caller expires_at x s,
              rw (q, add_member) refl,
              record {
                checked =
                    check_add_member-ok w svc caller group_token relation member_token expires_at s
                      x q;
                entries =
                    validity-add_member w.now (w.fresh 0) g.id rel member_type member_id
                      (some svc.local_id) expires_at s;
                groups = rest.0;
                sources = rest.1.0;
                managers = rest.1.1.0;
                history = rw rest.1.1.1 refl;
              },
            )
      ]
