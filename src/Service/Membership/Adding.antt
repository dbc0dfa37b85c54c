-- ===== src/Service/Membership/Adding.antt =====
-- What adding a member does, whatever comes of it.
use mathlib.Core.List.Memᴰ
use role_provider_service.Base.{
  ◌≡◌, ◌≢◌, ◌⊎◌, inl, inr, ⊎_elim, sym, ap, ◌∙◌, List, [], ◌∷◌, Memᴰ, Memᴰ-concat, Text, Option,
  some, nat_eq, list_eq, pair_eq, Bool-cases, any, ◌==◌, list_beq_iff,
}
use role_provider_service.Base.Result.{ok, Result-cases}
use role_provider_service.Common.Types.{Uuid, Time, Group}
use role_provider_service.Common.Token.{group_type, member_group, normalize_relation}
use role_provider_service.Store.State.{Entry, MemoryStore, subject}
use role_provider_service.Store.Entries
use role_provider_service.Store.Entries.{key, key_of, is_entry, set_expires}
use role_provider_service.Store.Entries.Keys.{is_entry_iff}
use role_provider_service.Store.Listing.Edges.{Contains}
use role_provider_service.Store.History.{add_change}
use role_provider_service.Service.State.{Caller, Service, World, record_change}
use role_provider_service.Service.Cycle.Meaning.{Below, Below-map}
use role_provider_service.Service.Cycle.Correct.{check_no_cycle_correct}
use role_provider_service.Service.Membership.{
  check_nesting, check_add_member, with_member, add_member,
}
use role_provider_service.Service.Membership.Checks.{MayAdd, check_add_member-ok}
use role_provider_service.Service.Membership.Nesting.{Acyclic, Acyclic-With}

mem-set_expires :
    (k : Entries.Key) (e : Option Time) (ts : List Entry) (t : Entry)
    → Memᴰ t (set_expires k e ts)
    → Memᴰ t ts ⊎ (key_of t ≡ k)
unfolding set_expires
mem-set_expires k e [] t m = inl m
mem-set_expires k e (x ∷ ts) t m = elim (Bool-cases (is_entry k x)) [
  | inl q ↦
      ⊎_elim (λ z. inr (ap key_of z ∙ (is_entry_iff k x).0 q)) (λ n. inl (Memᴰ.tail n))
        (Memᴰ.cases_cons (rw (q, set_expires) at m))
  | inr q ↦
      ⊎_elim (λ z. inl (Memᴰ.head z))
        (λ n. ⊎_elim (λ o. inl (Memᴰ.tail o)) inr (mem-set_expires k e ts t n))
        (Memᴰ.cases_cons (rw (q, set_expires) at m))
]

-- Each entry was there before, or has the key of the one that was added.
pub mem-add_member :
    (now : Time) (fresh : Uuid) (group_id relation member_type member_id : Text)
    (source : Option Uuid) (e : Option Time) (s : MemoryStore) (t : Entry)
    → Memᴰ t
        (Entries.add_member now fresh group_id relation member_type member_id source e s).tuples
    → Memᴰ t s.tuples
      ⊎ (key_of t ≡ key group_id (normalize_relation relation) member_type member_id)
unfolding Entries.add_member
mem-add_member now fresh group_id relation member_type member_id source e s t m =
    let k = key group_id (normalize_relation relation) member_type member_id in
    elim (Bool-cases (any (is_entry k) s.tuples)) [
      | inl q ↦ mem-set_expires k e s.tuples t (rw (q, Entries.add_member) at m)
      | inr q ↦
          ⊎_elim inl (λ z. inr (ap key_of z))
            ((Memᴰ-concat t _ s.tuples).0 (rw (q, Entries.add_member) at m))
    ]

Contains-add_member :
    (now : Time) (fresh : Uuid) (group_id relation member_type member_id : Text)
    (source : Option Uuid) (e : Option Time) (s : MemoryStore) (a b : Text)
    → Contains now
        (Entries.add_member now fresh group_id relation member_type member_id source e s).tuples
        a
        b
    → Contains now s.tuples a b
      ⊎ (member_type ≡ group_type) × ((a ≡ group_id) × (b ≡ (subject member_type member_id).0))
Contains-add_member now fresh group_id relation member_type member_id source e s a b (t, m, n) =
    elim (mem-add_member now fresh group_id relation member_type member_id source e s t m) [
      | inl k ↦ inl (t, k, n)
      | inr q ↦ inr (
        sym (ap (λ (k : Entries.Key). k.1.1.0) q) ∙ n.by_group,
        (
          sym n.outer ∙ ap (λ (k : Entries.Key). k.0) q,
          sym n.inner ∙ ap (λ (k : Entries.Key). k.1.1.1.0) q,
        ),
      )
    ]

-- A member that passed the check leads nowhere back to the group.
nesting-Acyclic :
    (now : Time) (group_id member_type member_id : Text) (s : MemoryStore)
    → check_nesting now group_id member_type member_id s ≡ ok tt
    → member_type ≡ group_type
    → (group_id ≢ (subject member_type member_id).0)
      × (¬ Below (Contains now s.tuples) (subject member_type member_id).0 group_id)
unfolding check_nesting subject
nesting-Acyclic now group_id member_type member_id s h e =
    let typed = (list_beq_iff member_type group_type).1 e in
    rw typed (elim (check_no_cycle_correct now group_id (member_group member_id).0 s) [
      | inl (q, d, n) ↦ (d, n)
      | inr (q, r) ↦ absurd (cc (q, rw typed at h))
    ])

-- If no group contains itself by its live entries, then none does after `AddMember`, whatever is
-- asked for and whatever the answer is.
pub add_member-Acyclic :
    (w : World) (svc : Service) (caller : Caller) (group_token relation member_token : Text)
    (expires_at : Option Time) (s : MemoryStore)
    → Acyclic (Contains w.now s.tuples)
    → Acyclic (
        Contains w.now
          (add_member w svc caller group_token relation member_token expires_at s).0.tuples)
unfolding add_member with_member record_change add_change
add_member-Acyclic w svc caller group_token relation member_token expires_at s h =
    elim (Result-cases
      (check_add_member w svc caller group_token relation member_token expires_at s)) [
        | inl (x, q) ↦
            let c =
              check_add_member-ok w svc caller group_token relation member_token expires_at s x q in
            rw (q, add_member) (after x c)
        | inr (e, q) ↦ rw (q, add_member) h
      ]
  where
    after :
        (x : Group × (Text × (Text × Text)))
        → MayAdd w svc caller group_token relation member_token expires_at s x
        → Acyclic (
            Contains w.now
              (Entries.add_member w.now
                (w.fresh 0)
                x.0.id
                x.1.0
                x.1.1.0
                x.1.1.1
                (some svc.local_id)
                expires_at
                s).tuples)
    after (g, (rel, (member_type, member_id))) c a p =
        elim (Bool-cases (member_type == group_type)) [
          | inl e ↦
              let is_group = (list_beq_iff member_type group_type).0 e in
              let (d, n) = nesting-Acyclic w.now g.id member_type member_id s c.no_cycle is_group in
              Acyclic-With h d n a (
                Below-map
                  (λ x y k.
                    ⊎_elim inl (λ (_, r). inr r)
                      (Contains-add_member w.now (w.fresh 0) g.id rel member_type member_id
                        (some svc.local_id) expires_at s x y k))
                  p)
          | inr e ↦ h a (
              Below-map
                (λ x y k.
                  ⊎_elim (λ z. z)
                    (λ (t, _). absurd (cc (e, (list_beq_iff member_type group_type).1 t)))
                    (Contains-add_member w.now (w.fresh 0) g.id rel member_type member_id
                      (some svc.local_id) expires_at s x y k))
                p)
        ]
