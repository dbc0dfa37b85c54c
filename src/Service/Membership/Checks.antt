-- ===== src/Service/Membership/Checks.antt =====
-- What has been checked when a member is added.
use role_provider_service.Base.{◌≡◌, ◌<◌, subst, Text, Option, none, some, Memᴰ, arith, inl, inr}
use role_provider_service.Common.Relations.{check}
use role_provider_service.Common.Relations.Laws.{AsksFor, check_iff}
use role_provider_service.Base.Result.{ok, ok-inj, Result-cases, >>=-eq-ok, ◌>>◌}
use role_provider_service.Common.Types.{Time, Group}
use role_provider_service.Store.State.{MemoryStore}
use role_provider_service.Service.State.{Caller, Service, World, check_relation, parse_member_token}
use role_provider_service.Service.Access.{local_group}
use role_provider_service.Service.Access.Rights.{MayChange, local_group_iff}
use role_provider_service.Service.Membership.{
  check_member_relation, check_expiry, check_nesting, check_add_member, check_remove_member,
}

-- The group, the relation, and the member's type and id.
abbrev pub Checked : Type 0
Checked = Group × (Text × (Text × Text))

-- The group may be changed, the relation is configured, the member is one, its expiry lies ahead, and no
-- cycle comes about.
pub record MayAdd (w : World) (svc : Service) (caller : Caller)
    (group_token relation member_token : Text) (expires_at : Option Time) (s : MemoryStore)
    (x : Checked) : Type 0 where
  pub allowed : MayChange svc caller group_token s x.0
  pub configured : check_relation svc relation ≡ ok x.1.0
  -- The relation that was asked for, which is an allowed one.
  pub asked : AsksFor relation x.1.0 × Memᴰ x.1.0 svc.relations.allowed
  pub member : parse_member_token member_token ≡ ok x.1.1
  pub later : (e : Time) → expires_at ≡ some e → w.now < e
  pub ahead : check_expiry w.now expires_at ≡ ok tt
  pub no_cycle : check_nesting w.now x.0.id x.1.1.0 x.1.1.1 s ≡ ok tt

check_expiry_later :
    (now e : Time) (expires_at : Option Time)
    → check_expiry now expires_at ≡ ok tt
    → expires_at ≡ some e
    → now < e
unfolding check_expiry
check_expiry_later now e none h q = absurd (cc)
check_expiry_later now e (some a) h q = ground arith

check_relation-AsksFor :
    (svc : Service) (relation rel : Text)
    → check_relation svc relation ≡ ok rel
    → AsksFor relation rel × Memᴰ rel svc.relations.allowed
unfolding check_relation
check_relation-AsksFor svc relation rel h = elim (Result-cases (check svc.relations relation)) [
  | inl (x, e) ↦
      let same = ok-inj (rw (e, check_relation) at h) in
      (check_iff svc.relations relation rel).0
        (subst (λ y. check svc.relations relation ≡ ok y) same e)
  | inr (why, e) ↦ absurd (let h' = rw (e, check_relation) at h in cc)
]

pub check_add_member-ok :
    (w : World) (svc : Service) (caller : Caller) (group_token relation member_token : Text)
    (expires_at : Option Time) (s : MemoryStore) (x : Checked)
    → check_add_member w svc caller group_token relation member_token expires_at s ≡ ok x
    → MayAdd w svc caller group_token relation member_token expires_at s x
unfolding check_add_member
check_add_member-ok w svc caller group_token relation member_token expires_at s x h =
    let (r, a, h1) = >>=-eq-ok (check_relation svc relation) _ h in
    let (m, b, h2) = >>=-eq-ok (parse_member_token member_token) _ h1 in
    let (g, c, h3) =
      >>=-eq-ok
        (check_member_relation svc m.0 m.1
          >> check_expiry w.now expires_at
          >> local_group svc caller group_token s)
        _ h2 in
    let (_, d, h4) = >>=-eq-ok (check_nesting w.now g.id m.0 m.1 s) _ h3 in
    let (_, e, l) =
      >>=-eq-ok (check_member_relation svc m.0 m.1 >> check_expiry w.now expires_at) _ c in
    let (_, _, t) = >>=-eq-ok (check_member_relation svc m.0 m.1) _ e in
    let same : (let y : Checked = (g, (r, m)) in y) ≡ x = cc in
    subst (MayAdd w svc caller group_token relation member_token expires_at s) same (record {
      allowed = (local_group_iff svc caller group_token s g).0 l;
      configured = a;
      asked = check_relation-AsksFor svc relation r a;
      member = b;
      later = λ e' q. check_expiry_later w.now e' expires_at t q;
      ahead = t;
      no_cycle = d;
    })

pub check_remove_member-ok :
    (svc : Service) (caller : Caller) (group_token relation member_token : Text) (s : MemoryStore)
    (x : Checked)
    → check_remove_member svc caller group_token relation member_token s ≡ ok x
    → MayChange svc caller group_token s x.0
      × ((check_relation svc relation ≡ ok x.1.0) × (parse_member_token member_token ≡ ok x.1.1))
unfolding check_remove_member
check_remove_member-ok svc caller group_token relation member_token s x h =
    let (r, a, h1) = >>=-eq-ok (check_relation svc relation) _ h in
    let (m, b, h2) = >>=-eq-ok (parse_member_token member_token) _ h1 in
    let (g, l, h3) = >>=-eq-ok (local_group svc caller group_token s) _ h2 in
    let same : (let y : Checked = (g, (r, m)) in y) ≡ x = cc in
    subst
      (λ y.
        MayChange svc caller group_token s y.0
        × ((check_relation svc relation ≡ ok y.1.0) × (parse_member_token member_token ≡ ok y.1.1)))
      same ((local_group_iff svc caller group_token s g).0 l, (a, b))
