-- ===== src/Service/Membership.antt =====
-- internal/groupmgmt/service.go: adding and removing the members of a group, and changing how they
-- belong to it.
pub mod Checks
pub mod Nesting
pub mod Adding
pub mod Effect
pub mod Shape
use role_provider_service.Base.{
  ℕ, Bool, true, false, not, ◌&&◌, List, [], ◌∷◌, Option, none, some, Text, ltb, ◌==◌, nat_eq,
  list_eq, if◌then◌else◌,
}
use role_provider_service.Base.Result.{
  Result, Error, ok, err, ◌>>=◌, ◌>>◌, guard, invalid_expiry, not_found, record_not_found,
}
use role_provider_service.Common.Types.{Time, Group, member_added, member_removed, relation_changed}
use role_provider_service.Common.Token.{group_type, relation_member, member_group, build_token}
use role_provider_service.Store.State.{MemoryStore}
use role_provider_service.Store.Entries
use role_provider_service.Service.State.{
  Caller, Service, World, Handled, attempt, check_relation, record_change, parse_member_token,
}
use role_provider_service.Service.Access.{local_group}
use role_provider_service.Service.Cycle.{check_no_cycle}
use role_provider_service.Service.Catalog.{change}

-- The relation that a member that is a group names has to be configured too.
unfoldable pub check_member_relation : Service → Text → Text → Result (Unit {0})
check_member_relation svc member_type member_id =
    let (child, rel) = member_group member_id in
    if (member_type == group_type) && not (rel == relation_member)
    then (check_relation svc rel >>= λ _. ok tt)
    else ok tt

-- `expiresAt` is after `time.Now()`; no expiry is fine.
unfoldable pub check_expiry : Time → Option Time → Result (Unit {0})
check_expiry now none = ok tt
check_expiry now (some e) = guard (ltb now e) invalid_expiry

unfoldable pub check_nesting : Time → Text → Text → Text → MemoryStore → Result (Unit {0})
check_nesting now group_id member_type member_id s =
    if member_type == group_type
    then check_no_cycle now group_id (member_group member_id).0 s
    else ok tt

-- All that is checked before the member is added: the group's id, the relation, and the member.
unfoldable pub check_add_member :
    World
    → Service
    → Caller
    → Text
    → Text
    → Text
    → Option Time
    → MemoryStore
    → Result (Group × (Text × (Text × Text)))
check_add_member w svc caller group_token relation member_token expires_at s =
    check_relation svc relation >>= λ rel.
    parse_member_token member_token >>= λ (member_type, member_id).
    check_member_relation svc member_type member_id
    >> check_expiry w.now expires_at
    >> local_group svc caller group_token s
    >>= λ g.
        check_nesting w.now g.id member_type member_id s >> ok (g, (rel, (member_type, member_id)))

-- The store once the checks are passed.
unfoldable pub with_member :
    World
    → Service
    → Caller
    → Option Time
    → Group × (Text × (Text × Text))
    → MemoryStore
    → MemoryStore
with_member w svc caller expires_at (g, (rel, (member_type, member_id))) s =
    record_change w 1 caller
      (record (change g.id member_added) {
        member = build_token member_type member_id;
        relation = rel;
        expires_at = expires_at;
      })
      (Entries.add_member w.now (w.fresh 0) g.id rel member_type member_id (some svc.local_id)
        expires_at s)

unfoldable pub add_member :
    World → Service → Caller → Text → Text → Text → Option Time → MemoryStore → Handled (Unit {0})
add_member w svc caller group_token relation member_token expires_at s =
    attempt s (check_add_member w svc caller group_token relation member_token expires_at s)
      λ x. (with_member w svc caller expires_at x s, ok tt)

unfoldable pub check_remove_member :
    Service → Caller → Text → Text → Text → MemoryStore → Result (Group × (Text × (Text × Text)))
check_remove_member svc caller group_token relation member_token s =
    check_relation svc relation >>= λ rel.
    parse_member_token member_token >>= λ (member_type, member_id).
    local_group svc caller group_token s >>= λ g. ok (g, (rel, (member_type, member_id)))

unfoldable pub without_member :
    World → Caller → Group × (Text × (Text × Text)) → MemoryStore → MemoryStore
without_member w caller (g, (rel, (member_type, member_id))) s =
    record_change w 0 caller
      (record (change g.id member_removed) {
        member = build_token member_type member_id;
        relation = rel;
      })
      (Entries.remove_member g.id rel member_type member_id s)

unfoldable pub remove_member :
    World → Service → Caller → Text → Text → Text → MemoryStore → Handled (Unit {0})
remove_member w svc caller group_token relation member_token s =
    attempt s (check_remove_member svc caller group_token relation member_token s)
      λ x. (without_member w caller x s, ok tt)

unfoldable pub check_change_relation :
    Service
    → Caller
    → Text
    → Text
    → Text
    → Text
    → MemoryStore
    → Result (Group × ((Text × Text) × (Text × Text)))
check_change_relation svc caller group_token member_token from to s =
    check_relation svc from >>= λ from'. check_relation svc to >>= λ to'.
    parse_member_token member_token >>= λ member.
    local_group svc caller group_token s >>= λ g. ok (g, ((from', to'), member))

-- The store's `gorm.ErrRecordNotFound` is `ErrNotFound` here.
unfoldable pub as_not_found : {A : Type 0} → Result A → Result A
as_not_found (ok a) = ok a
as_not_found (err record_not_found) = err not_found
as_not_found (err e) = err e

unfoldable pub change_relation :
    World → Service → Caller → Text → Text → Text → Text → MemoryStore → Handled (Unit {0})
change_relation w svc caller group_token member_token from to s =
    attempt s (check_change_relation svc caller group_token member_token from to s)
      λ (g, ((from', to'), (member_type, member_id))).
        if from' == to'
        then (s, ok tt)
        else attempt s
            (as_not_found (Entries.change_relation g.id member_type member_id from' to' s))
            λ s1. (
              record_change w 0 caller
                  (record (change g.id relation_changed) {
                    member = build_token member_type member_id;
                    relation = to';
                    detail = from';
                  })
                  s1,
              ok tt,
            )
