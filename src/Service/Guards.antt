-- ===== src/Service/Guards.antt =====
-- Every handler that changes a group either refuses and changes nothing, or the caller may change it.
use role_provider_service.Base.{
  ◌≡◌, ◌⊎◌, inl, inr, refl, sym, subst, Bool, true, false, List, [], ◌∷◌, Text, some, Option-cases,
  Bool-cases, nat_eq, list_eq, ◌==◌, if◌then◌else◌,
}
use role_provider_service.Base.Result.{
  Result, Error, ok, err, ◌>>=◌, ◌>>◌, guard, forbidden, >>=-eq-ok, ok-inj,
}
use role_provider_service.Common.Types.{Time, Group}
use role_provider_service.Store.State.{MemoryStore}
use role_provider_service.Store.Groups
use role_provider_service.Store.Groups.{find_group, update_where}
use role_provider_service.Store.Entries
use role_provider_service.Store.History.{add_change}
use role_provider_service.Service.State.{
  if_empty, Caller, Service, World, Handled, attempt, record_change, check_relation,
  parse_member_token,
}
use role_provider_service.Service.Access.{local_group}
use role_provider_service.Service.Access.Rights.{MayChange, local_group_iff}
use role_provider_service.Service.Catalog.{update_group, delete_group}
use role_provider_service.Service.Membership.{
  remove_member, change_relation, check_remove_member, check_change_relation, as_not_found,
}
use role_provider_service.Service.Membership.Checks.{check_remove_member-ok}
use role_provider_service.Service.Managing.{add_manager, check_add_manager, remove_manager}

-- The store is as it was and the answer is an error, or the answer is good and the caller may change
-- the group.
abbrev pub Guarded : {A : Type 0} → Service → Caller → Text → MemoryStore → Handled A → Type 0
Guarded {A} svc caller token s h =
    ((e : Error) × (h ≡ (s, err e)))
    ⊎ ((a : A) × (h.1 ≡ ok a) × ((g : Group) × MayChange svc caller token s g))

find_group-update_where :
    (id : Text) (p : Group → Bool) (f : Group → Group) (gs : List Group) (x : Group)
    → ((g : Group) → (f g).id ≡ g.id)
    → find_group id gs ≡ some x
    → (y : Group) × (find_group id (update_where p f gs) ≡ some y)
unfolding find_group update_where
find_group-update_where id p f [] x h e = absurd (cc)
find_group-update_where id p f (g ∷ gs) x h e =
    let same : (if p g then f g else g).id ≡ g.id = elim (Bool-cases (p g)) [
      | inl q ↦ rw q (h g)
      | inr q ↦ rw q refl
    ] in
    elim (Bool-cases (g.id == id)) [
      | inl q ↦
          let hit : ((if p g then f g else g).id == id) ≡ true =
            subst (λ i. (i == id) ≡ true) (sym same) q in
          ((if p g then f g else g), rw hit refl)
      | inr q ↦
          let miss : ((if p g then f g else g).id == id) ≡ false =
            subst (λ i. (i == id) ≡ false) (sym same) q in
          let (y, r) = find_group-update_where id p f gs x h (rw q at e) in (y, rw miss r)
    ]

update_group-found :
    (now : Time) (id display_name description : Text) (s s1 : MemoryStore)
    → Groups.update_group now id display_name description s ≡ ok s1
    → (x : Group) × (find_group id s1.groups ≡ some x)
unfolding Groups.update_group
update_group-found now id display_name description s s1 h =
    elim (Option-cases (find_group id s.groups)) [
      | inl e ↦ absurd (cc (h, e))
      | inr (x, e) ↦
          let (y, q) = find_group-update_where id (λ g. g.id == id) _ s.groups x (λ g. refl) e in
          (
            y,
            subst (λ z. find_group id z.groups ≡ some y) (ok-inj (rw (e, Groups.update_group) at h))
                q,
          )
    ]

attempt-Guarded :
    {X A : Type 0} {svc : Service} {caller : Caller} {token : Text} {s : MemoryStore} (r : Result X)
    (f : X → Handled A)
    → ((x : X) → r ≡ ok x → Guarded svc caller token s (f x))
    → Guarded svc caller token s (attempt s r f)
attempt-Guarded (ok x) f h = h x refl
attempt-Guarded (err e) f h = inl (e, refl)

module _ (w : World) (svc : Service) (caller : Caller) (token : Text) (s : MemoryStore) where
  allowed : (g : Group) → local_group svc caller token s ≡ ok g → MayChange svc caller token s g
  allowed g h = (local_group_iff svc caller token s g).0 h

  remove_member-Guarded :
      (relation member : Text)
      → Guarded svc caller token s (remove_member w svc caller token relation member s)
  unfolding remove_member
  remove_member-Guarded relation member =
      attempt-Guarded (check_remove_member svc caller token relation member s) _ (λ x q.
        inr (tt, refl, (x.0, (check_remove_member-ok svc caller token relation member s x q).0)))

  change_relation-Guarded :
      (member from to : Text)
      → Guarded svc caller token s (change_relation w svc caller token member from to s)
  unfolding change_relation check_change_relation
  change_relation-Guarded member from to =
      attempt-Guarded (check_change_relation svc caller token member from to s) _ (λ x q.
        let (_, _, h1) = >>=-eq-ok (check_relation svc from) _ q in
        let (_, _, h2) = >>=-eq-ok (check_relation svc to) _ h1 in
        let (_, _, h3) = >>=-eq-ok (parse_member_token member) _ h2 in
        let (g, a, _) = >>=-eq-ok (local_group svc caller token s) _ h3 in
        elim (Bool-cases (x.1.0.0 == x.1.0.1)) [
          | inl e ↦ rw e (inr (tt, refl, (g, allowed g a)))
          | inr e ↦ rw e (
              attempt-Guarded
                (as_not_found (Entries.change_relation x.0.id x.1.1.0 x.1.1.1 x.1.0.0 x.1.0.1 s)) _
                (λ s1 r. inr (tt, refl, (g, allowed g a))))
        ])

  add_manager-Guarded :
      (manager : Text) → Guarded svc caller token s (add_manager w svc caller token manager s)
  unfolding add_manager check_add_manager
  add_manager-Guarded manager =
      attempt-Guarded (check_add_manager svc caller token manager s) _ (λ x q.
        let (g, a, _) = >>=-eq-ok (local_group svc caller token s) _ q in
        inr (tt, refl, (g, allowed g a)))

  remove_manager-Guarded :
      (manager : Text) → Guarded svc caller token s (remove_manager w svc caller token manager s)
  unfolding remove_manager
  remove_manager-Guarded manager =
      attempt-Guarded (local_group svc caller token s) _ (λ g q. inr (tt, refl, (g, allowed g q)))

  delete_group-Guarded : Guarded svc caller token s (delete_group w svc caller token s)
  unfolding delete_group
  delete_group-Guarded =
      attempt-Guarded (local_group svc caller token s >>= λ g. guard caller.admin forbidden >> ok g)
        _
        (λ x q.
          let (g, a, _) = >>=-eq-ok (local_group svc caller token s) _ q in
          inr (tt, refl, (g, allowed g a)))

  update_group-Guarded :
      (display_name description : Text)
      → Guarded svc caller token s (update_group w svc caller token display_name description s)
  unfolding update_group record_change add_change Groups.get_group
  update_group-Guarded display_name description =
      attempt-Guarded (local_group svc caller token s) _ (λ g q.
        attempt-Guarded (Groups.update_group w.now g.id (if_empty display_name g.id) description s)
          _
          (λ s1 r.
            let (x, e) =
              update_group-found w.now g.id (if_empty display_name g.id) description s s1 r in
            rw e (inr (_, refl, (g, allowed g q)))))

-- Each of the handlers RemoveMember, ChangeRelation, AddManager, RemoveManager, UpdateGroup and DeleteGroup, asked by
-- any caller and with whatever arguments, either answers with an error and leaves the whole store as
-- it was, or answers well, and then the group is a local one that the caller maintains.
pub handlers-Guarded :
    (w : World) (svc : Service) (caller : Caller) (token : Text) (s : MemoryStore)
    → ((relation member : Text)
        → Guarded svc caller token s (remove_member w svc caller token relation member s))
      × ((member from to : Text)
          → Guarded svc caller token s (change_relation w svc caller token member from to s))
      × ((manager : Text) → Guarded svc caller token s (add_manager w svc caller token manager s))
      × ((manager : Text)
          → Guarded svc caller token s (remove_manager w svc caller token manager s))
      × ((name description : Text)
          → Guarded svc caller token s (update_group w svc caller token name description s))
      × Guarded svc caller token s (delete_group w svc caller token s)
handlers-Guarded w svc caller token s = (
  remove_member-Guarded w svc caller token s,
  change_relation-Guarded w svc caller token s,
  add_manager-Guarded w svc caller token s,
  remove_manager-Guarded w svc caller token s,
  update_group-Guarded w svc caller token s,
  delete_group-Guarded w svc caller token s,
)
