-- ===== src/Service/Access/Rights.antt =====
-- Who may change a group, and when the group is one that can be changed here.
use role_provider_service.Base.{
  ◌≡◌, ◌↔◌, ◌⊎◌, inl, inr, refl, subst, Bool, true, false, Memᴰ, arith, Text, some, Option-cases,
  contains, contains_iff, any-true, any_of_mem, nat_eq, list_eq, option_eq, option_beq_iff,
  Bool-cases,
}
use role_provider_service.Base.Result.{
  Error, ok, >>=-eq-ok, guard, owned_by_source, forbidden, ◌>>◌,
}
use role_provider_service.Common.Types.{Group, Manager}
use role_provider_service.Store.State.{MemoryStore}
use role_provider_service.Store.Groups.{find_group}
use role_provider_service.Store.Managers.{list_managers}
use role_provider_service.Service.State.{Caller, Service, parse_group_token}
use role_provider_service.Service.Access.{get_known_group, may_manage, is_local, local_group}

-- An admin, or someone with a token among those of the group's managers.
abbrev pub Maintains : Caller → Text → MemoryStore → Type 0
Maintains caller id s =
    (caller.admin ≡ true)
    ⊎ ((m : Manager) × Memᴰ m (list_managers id s) × Memᴰ m.token caller.tokens)

pub may_manage_iff :
    (caller : Caller) (id : Text) (s : MemoryStore)
    → (may_manage caller id s ≡ true) ↔ Maintains caller id s
unfolding may_manage
may_manage_iff caller id s = (
  λ h. elim (Bool-cases caller.admin) [
    | inl e ↦ inl e
    | inr e ↦
        let (m, n, c) =
          any-true (λ (m : Manager). contains caller.tokens m.token) (list_managers id s)
            (rw e at h) in
        inr (m, n, (contains_iff caller.tokens m.token).0 c)
  ],
  λ r. elim r [
    | inl e ↦ rw e refl
    | inr (m, n, c) ↦
        let found =
          any_of_mem (λ (m : Manager). contains caller.tokens m.token) (list_managers id s) m n
            ((contains_iff caller.tokens m.token).1 c) in
        ground (arith, found)
  ],
)

-- The group that the token names is there, belongs to the local source, and the caller maintains it.
pub record MayChange (svc : Service) (caller : Caller) (token : Text) (s : MemoryStore) (g : Group)
    : Type 0 where
  pub id : Text
  pub named : parse_group_token token ≡ ok id
  pub found : find_group id s.groups ≡ some g
  pub local : g.source_id ≡ some svc.local_id
  pub maintained : Maintains caller g.id s

get_known_group_iff :
    (id : Text) (s : MemoryStore) (g : Group)
    → (get_known_group id s ≡ ok g) ↔ (find_group id s.groups ≡ some g)
unfolding get_known_group
get_known_group_iff id s g = elim (Option-cases (find_group id s.groups)) [
  | inl e ↦ rw e (λ h. absurd (cc), λ h. absurd (cc))
  | inr (x, e) ↦ rw e (λ h. cc, λ h. cc)
]

guards :
    {A : Type 0} (a b : Bool) (e e' : Error) (x g : A)
    → (guard a e >> guard b e' >> ok x) ≡ ok g
    → (a ≡ true) × ((b ≡ true) × (x ≡ g))
guards true true e e' x g h = (refl, (refl, cc))
guards true false e e' x g h = absurd (cc)
guards false b e e' x g h = absurd (cc)

-- `localGroup` gives a group exactly if the token names it, it belongs to the local source, and the
-- caller is an admin or has a token among those of its managers.
pub local_group_iff :
    (svc : Service) (caller : Caller) (token : Text) (s : MemoryStore) (g : Group)
    → (local_group svc caller token s ≡ ok g) ↔ MayChange svc caller token s g
unfolding local_group is_local
local_group_iff svc caller token s g = (
  λ h.
      let (id, p, h1) = >>=-eq-ok (parse_group_token token) _ h in
      let (x, q, h2) = >>=-eq-ok (get_known_group id s) _ h1 in
      let (l, (m, same)) =
        guards (is_local svc x) (may_manage caller x.id s) owned_by_source forbidden x g h2 in
      subst (MayChange svc caller token s) same (record {
        id = id;
        named = p;
        found = (get_known_group_iff id s x).0 q;
        local = (option_beq_iff x.source_id (some svc.local_id)).0 l;
        maintained = (may_manage_iff caller x.id s).0 m;
      }),
  λ c.
      let own : is_local svc g ≡ true =
        (option_beq_iff g.source_id (some svc.local_id)).1 c.local in
      rw
        (
          c.named,
          (get_known_group_iff c.id s g).1 c.found,
          own,
          (may_manage_iff caller g.id s).1 c.maintained,
        )
        refl,
)
