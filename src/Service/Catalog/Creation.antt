-- ===== src/Service/Catalog/Creation.antt =====
-- What creating a group asks for, and what it leaves.
use role_provider_service.Base.{
  ℕ, suc, ◌≡◌, ◌≢◌, ◌⊎◌, inl, inr, refl, subst, ap, ◌∙◌, true, List, [], ◌∷◌, ◌++◌, Text, none,
  some, arith, Option-cases, Bool-cases, nat_eq, list_eq, list_beq_iff, ◌==◌, any, if◌then◌else◌,
  false, not, any-false, Memᴰ, mem-sort, is_empty_iff, nat_beq_iff,
}
use role_provider_service.Base.Result.{
  Error, ok, err, forbidden, reserved, already_exists, >>=-eq-ok, guard_iff, ok-inj, Result-cases,
}
use role_provider_service.Common.Types.{Time, Group, Source, Manager, manager_added}
use role_provider_service.Common.Token.{group_prefix, normalize_id}
use role_provider_service.Common.Strings.{trim_space, trim_prefix}
use role_provider_service.Common.Glob.{match_glob}
use role_provider_service.Store.Sources.{list_sources}
use role_provider_service.Common.Validate.{validate_group_id}
use role_provider_service.Store.State.{Entry, MemoryStore}
use role_provider_service.Store.Groups
use role_provider_service.Store.Groups.{find_group}
use role_provider_service.Store.Managers
use role_provider_service.Store.Managers.{managers_of}
use role_provider_service.Store.History.{add_change}
use role_provider_service.Service.State.{Caller, Service, World, record_change, if_empty}
use role_provider_service.Service.Access.{check_not_reserved, reserved_by}
use role_provider_service.Service.Catalog.{
  check_new_group, create_group, add_managers, change, new_local_group, with_new_group,
  source_name_of,
}

-- The groups and entries of a store.
abbrev groups_and_entries : MemoryStore → List Group × List Entry
groups_and_entries s = (s.groups, s.tuples)

add_manager-groups_and_entries :
    (now : Time) (id : Text) (m : Manager) (s : MemoryStore)
    → groups_and_entries (Managers.add_manager now id m s) ≡ groups_and_entries s
unfolding Managers.add_manager
add_manager-groups_and_entries now id m s =
    elim (Bool-cases (any (λ (x : Manager). x.token == m.token) (managers_of id s.managers))) [
      | inl e ↦ rw (e, Managers.add_manager) refl
      | inr e ↦ rw (e, Managers.add_manager) refl
    ]

add_managers-groups_and_entries :
    (w : World) (n : ℕ) (caller : Caller) (id : Text) (tokens : List Text) (s : MemoryStore)
    → groups_and_entries (add_managers w n caller id tokens s) ≡ groups_and_entries s
unfolding add_managers record_change add_change
add_managers-groups_and_entries w n caller id [] s = refl
add_managers-groups_and_entries w n caller id (token ∷ tokens) s =
    let m : Manager = record { token = token; created_by = caller.actor; created_at = 0 } in
    let s1 = Managers.add_manager w.now id m s in
    add_managers-groups_and_entries w (suc n) caller id tokens
      (record_change w n caller (record (change id manager_added) { member = token }) s1)
    ∙ add_manager-groups_and_entries w.now id m s

find_group-append :
    (j : Text) (g : Group) (gs : List Group)
    → find_group g.id gs ≡ none
    → find_group j (gs ++ g ∷ []) ≡ (if j == g.id then some g else find_group j gs)
unfolding find_group
find_group-append j g [] h = ground (arith, list_beq_iff j g.id, list_beq_iff g.id j)
find_group-append j g (x ∷ gs) h = ground (
  arith,
  find_group-append j g gs,
  list_beq_iff j g.id,
  list_beq_iff x.id j,
  list_beq_iff x.id g.id,
)

-- No other source has reserved the id.
abbrev pub Unreserved : Service → Text → MemoryStore → Type 0
Unreserved svc id s =
    (src : Source)
    → Memᴰ src s.sources
    → src.id ≢ svc.local_id
    → (glob : Text) → Memᴰ glob src.reserved_names
    → match_glob glob id ≡ false

-- An admin asked; the new group has the id asked for, without the spaces around it and a "group:" before
-- it and in lower case, the description asked for, and the name asked for or its id for a blank one. The id is
-- valid, no other source has reserved it, and no group had it. The group belongs to the local source, it is
-- what its id finds, every other id finds what it found before, and no entry is changed.
pub record Created (svc : Service) (caller : Caller) (id display_name description : Text)
    (s s' : MemoryStore) (g : Group) : Type 0 where
  pub admin : caller.admin ≡ true
  pub asked : g.id ≡ normalize_id (trim_prefix group_prefix (trim_space id))
  pub described : g.description ≡ description
  pub named : trim_space display_name ≢ [] → g.display_name ≡ display_name
  pub unnamed : trim_space display_name ≡ [] → g.display_name ≡ g.id
  pub valid : validate_group_id g.id ≡ ok tt
  pub unreserved : Unreserved svc g.id s
  pub fresh : find_group g.id s.groups ≡ none
  pub local : g.source_id ≡ some svc.local_id
  pub found : find_group g.id s'.groups ≡ some (record g { source_name = [] })
  pub others : (j : Text) → j ≢ g.id → find_group j s'.groups ≡ find_group j s.groups
  pub entries : s'.tuples ≡ s.tuples

check_new_group-ok :
    (svc : Service) (caller : Caller) (id : Text) (managers : List Text) (s : MemoryStore)
    (x : Text × List Text)
    → check_new_group svc caller id managers s ≡ ok x
    → (caller.admin ≡ true)
      × ((validate_group_id x.0 ≡ ok tt) × (check_not_reserved svc x.0 s ≡ ok tt))
      × (x.0 ≡ normalize_id (trim_prefix group_prefix (trim_space id)))
unfolding check_new_group
check_new_group-ok svc caller id managers s x h =
    let (ts, a, e) = >>=-eq-ok _ _ h in
    let (_, b, _) = >>=-eq-ok _ _ a in
    let (_, c, r) = >>=-eq-ok _ _ b in
    let (_, g, v) = >>=-eq-ok _ _ c in
    subst
      (λ (y : Text × List Text).
        (caller.admin ≡ true)
        × ((validate_group_id y.0 ≡ ok tt) × (check_not_reserved svc y.0 s ≡ ok tt))
        × (y.0 ≡ normalize_id (trim_prefix group_prefix (trim_space id))))
      (ok-inj e) ((guard_iff caller.admin forbidden).0 g, (v, r), refl)

check_not_reserved-Unreserved :
    (svc : Service) (id : Text) (s : MemoryStore)
    → check_not_reserved svc id s ≡ ok tt
    → Unreserved svc id s
unfolding check_not_reserved reserved_by list_sources
check_not_reserved-Unreserved svc id s h src m other glob k =
    let none_reserved : any (reserved_by svc id) (list_sources s) ≡ false =
      ground (arith, guard_iff (not (any (reserved_by svc id) (list_sources s))) reserved) in
    let free : reserved_by svc id src ≡ false =
      any-false (reserved_by svc id) (list_sources s) none_reserved src
        ((mem-sort _ src s.sources).1 m) in
    any-false (λ g. match_glob g id) src.reserved_names
      (ground (arith, nat_beq_iff src.id svc.local_id)) glob k

if_empty-named : (name fallback : Text) → trim_space name ≢ [] → if_empty name fallback ≡ name
unfolding if_empty
if_empty-named name fallback h = ground (arith, is_empty_iff (trim_space name))

if_empty-unnamed : (name fallback : Text) → trim_space name ≡ [] → if_empty name fallback ≡ fallback
unfolding if_empty
if_empty-unnamed name fallback h = ground (arith, is_empty_iff (trim_space name))

-- The group as the store keeps it.
abbrev stored_group : Time → Group → Group
stored_group now g = record g { token = group_prefix ++ g.id; created_at = now; updated_at = now }

store-create_group :
    (now : Time) (g : Group) (s : MemoryStore)
    → find_group g.id s.groups ≡ none
    → Groups.create_group now g s
      ≡ ok (record s { groups = s.groups ++ stored_group now g ∷ [] }, stored_group now g)
unfolding Groups.create_group
store-create_group now g s f = rw (f, Groups.create_group) refl

store-taken :
    (now : Time) (g : Group) (s : MemoryStore) (x : Group)
    → find_group g.id s.groups ≡ some x
    → Groups.create_group now g s ≡ err already_exists
unfolding Groups.create_group
store-taken now g s x f = rw (f, Groups.create_group) refl

-- What the new group's store is, given that only managers and the history came after it.
created :
    (svc : Service) (caller : Caller) (id display_name : Text) (s s' : MemoryStore) (g : Group)
    (name : Text)
    → caller.admin ≡ true
    → g.id ≡ normalize_id (trim_prefix group_prefix (trim_space id))
    → g.display_name ≡ if_empty display_name g.id
    → g.source_name ≡ []
    → validate_group_id g.id ≡ ok tt
    → check_not_reserved svc g.id s ≡ ok tt
    → find_group g.id s.groups ≡ none
    → g.source_id ≡ some svc.local_id
    → groups_and_entries s'
      ≡ (let k : List Group × List Entry = (s.groups ++ g ∷ [], s.tuples) in k)
    → Created svc caller id display_name g.description s s' (record g { source_name = name })
created svc caller id display_name s s' g name admin asked named blank valid unreserved fresh local
      kept =
    let groups : s'.groups ≡ s.groups ++ g ∷ [] = ap (λ (k : List Group × List Entry). k.0) kept in
    let look : (j : Text)
        → find_group j s'.groups ≡ (if j == g.id then some g else find_group j s.groups) =
      λ j. ap (find_group j) groups ∙ find_group-append j g s.groups fresh in
    record {
      admin = admin;
      asked = asked;
      described = refl;
      named = λ h. named ∙ if_empty-named display_name g.id h;
      unnamed = λ h. named ∙ if_empty-unnamed display_name g.id h;
      valid = valid;
      unreserved = check_not_reserved-Unreserved svc g.id s unreserved;
      fresh = fresh;
      local = local;
      found =
          look g.id
          ∙ rw ((list_beq_iff g.id g.id).1 refl) refl
          ∙ ap (λ (n : Text). some (record g { source_name = n })) blank;
      others = λ j d. ground (arith, look j, list_beq_iff j g.id);
      entries = ap (λ (k : List Group × List Entry). k.1) kept;
    }

-- `CreateGroup` either refuses and leaves the whole store as it was, or an admin asked for a group with a
-- valid id that no other source has reserved and no group had: then the group has the id asked for, normalized,
-- and the name and description asked for, belongs to the local source and is found under its id, every other
-- id finds the group that it found before, and no entry is changed.
pub create_group_correct :
    (w : World) (svc : Service) (caller : Caller) (id display_name description : Text)
    (managers : List Text) (s : MemoryStore)
    → ((e : Error) × (create_group w svc caller id display_name description managers s
          ≡ (s, err e)))
      ⊎ ((g : Group) × (s' : MemoryStore) × (create_group w svc caller id display_name description
              managers s
            ≡ (s', ok g))
          × Created svc caller id display_name description s s' g)
unfolding create_group Groups.create_group with_new_group new_local_group record_change add_change
create_group_correct w svc caller id display_name description managers s =
    elim (Result-cases (check_new_group svc caller id managers s)) [
      | inr (e, q) ↦ inl (e, rw (q, create_group) refl)
      | inl ((id', tokens), q) ↦ elim (Option-cases (find_group id' s.groups)) [
        | inr (x, f) ↦ inl (
          already_exists,
          rw
              (
                q,
                store-taken w.now (new_local_group svc id' display_name description) s x f,
                create_group,
              )
              refl,
        )
        | inl f ↦
            let new = new_local_group svc id' display_name description in
            let g = stored_group w.now new in
            let s1 : MemoryStore = record s { groups = s.groups ++ g ∷ [] } in
            let s2 = with_new_group w caller tokens (s1, g) in
            let (admin, (valid, free), asked) =
              check_new_group-ok svc caller id managers s (id', tokens) q in
            inr (
              record g { source_name = source_name_of svc.local_id s2 },
              s2,
              rw (q, store-create_group w.now new s f, create_group) refl,
              created svc caller id display_name s s2 g _ admin asked refl refl valid free f refl
                  (add_managers-groups_and_entries w 1 caller id' tokens _),
            )
      ]
    ]
