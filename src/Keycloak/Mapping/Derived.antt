-- ===== src/Keycloak/Mapping/Derived.antt =====
-- Which memberships follow from a person's values.
use mathlib.Core.List.Memᴰ
use role_provider_service.Base.{
  ◌≡◌, ◌≢◌, ◌↔◌, ◌⊎◌, inl, inr, ⊎_elim, refl, sym, ap, subst, ◌∙◌, arith, List, [], ◌∷◌, ◌++◌,
  Option, none, some, Text, map, Memᴰ, Memᴰ-cons, Memᴰ-append, Memᴰ-nil, is_empty_iff, sort,
  mem-sort, text_leb,
}
use role_provider_service.Common.Types.{TuplePair}
use role_provider_service.Common.Token.{relation_member}
use role_provider_service.Keycloak.Mapping.{Mapping, lookup}
use role_provider_service.Keycloak.Mapping.Derive.{
  Held, Unmapped, Progress, read_value, placements, join_all, derive_loop, user_tuple, tuples_in,
  tuples_of, derive,
}
use role_provider_service.Keycloak.Mapping.Held.{
  Exactly, OrIn, join_all-Holds, join_all-Distinct, mem-lookup, roles_or_none,
}

-- What a person's values place them in, one pair of a group and a role for each join.
abbrev pub placed : Mapping → List Text → List (Text × Text)
placed m [] = []
placed m (raw ∷ raws) = placements m (read_value m raw) ++ placed m raws

-- A role that some value of the person has for the group; plain membership where values place the person in
-- the group and none of them has a role there.
abbrev pub Granted : List (Text × Text) → Text → Text → Type 0
Granted ps g relation =
    ((relation ≢ []) × Memᴰ (g, relation) ps)
    ⊎ ((relation ≡ relation_member)
        × ((r : Text) × Memᴰ (g, r) ps)
        × ((r : Text) → Memᴰ (g, r) ps → r ≡ []))

join_all-append :
    (ps qs : List (Text × Text)) (held : Held)
    → join_all (ps ++ qs) held ≡ join_all qs (join_all ps held)
unfolding join_all
join_all-append [] qs held = refl
join_all-append ((g, role) ∷ ps) qs held = join_all-append ps qs _

held_of_loop :
    (m : Mapping) (raws : List Text) (p : Progress)
    → (derive_loop m raws p).held ≡ join_all (placed m raws) p.held
unfolding derive_loop join_all
held_of_loop m [] p = refl
held_of_loop m (raw ∷ raws) p =
    held_of_loop m raws _
    ∙ sym (join_all-append (placements m (read_value m raw)) (placed m raws) p.held)

user_tuple_iff :
    (email g h r s : Text) → (user_tuple email g r ≡ user_tuple email h s) ↔ ((g ≡ h) × (r ≡ s))
unfolding user_tuple
user_tuple_iff email g h r s = (
  λ (e : Path TuplePair _ _).
      (ap (λ (t : TuplePair). t.group_id) e, ap (λ (t : TuplePair). t.relation) e),
  λ e. cc,
)

mem-map-user_tuple :
    (email g h r : Text) (roles : List Text)
    → Memᴰ (user_tuple email g r) (map (user_tuple email h) roles) ↔ ((g ≡ h) × Memᴰ r roles)
mem-map-user_tuple email g h r [] = (λ m. absurd (Memᴰ.not-nil m), λ m. absurd (Memᴰ.not-nil m.1))
mem-map-user_tuple email g h r (s ∷ roles) = ground (
  arith,
  mem-map-user_tuple email g h r roles,
  Memᴰ-cons (user_tuple email g r) (user_tuple email h s) (map (user_tuple email h) roles),
  Memᴰ-cons r s roles,
  user_tuple_iff email g h r s,
)

-- What the roles in a group give there.
abbrev InRoles : List Text → Text → Type 0
InRoles [] relation = relation ≡ relation_member
InRoles (r ∷ roles) relation = Memᴰ relation (r ∷ roles)

mem-tuples_in :
    (email g h r : Text) (roles : List Text)
    → Memᴰ (user_tuple email g r) (tuples_in email (h, roles)) ↔ ((g ≡ h) × InRoles roles r)
unfolding tuples_in
mem-tuples_in email g h r [] = ground (
  arith,
  Memᴰ-cons (user_tuple email g r) (user_tuple email h relation_member) [],
  Memᴰ-nil (user_tuple email g r),
  user_tuple_iff email g h r relation_member,
)
mem-tuples_in email g h r (s ∷ roles) = ground (
  arith,
  mem-map-user_tuple email g h r (sort text_leb (s ∷ roles)),
  mem-sort text_leb r (s ∷ roles),
)

mem-tuples_of :
    (email g r : Text) (held : Held)
    → Memᴰ (user_tuple email g r) (tuples_of email held)
      ↔ ((roles : List Text) × Memᴰ (g, roles) held × InRoles roles r)
unfolding tuples_of
mem-tuples_of email g r [] =
    (λ m. absurd (Memᴰ.not-nil m), λ (roles, m, x). absurd (Memᴰ.not-nil m))
mem-tuples_of email g r ((h, roles) ∷ held) =
    let both =
      Memᴰ-append (user_tuple email g r) (tuples_in email (h, roles)) (tuples_of email held) in
    let here = mem-tuples_in email g h r roles in
    let later = mem-tuples_of email g r held in
    (
      λ m.
          ⊎_elim
            (λ n. (let (same, x) = here.0 n in (roles, Memᴰ.head (ap (λ y. (y, roles)) same), x)))
            (λ n. (let (rs, k, x) = later.0 n in (rs, Memᴰ.tail k, x))) (both.0 m),
      λ (rs, m, x).
          ⊎_elim
            (λ e.
              both.1
                (inl (here.1 (ap (λ y. y.0) e, subst (λ ys. InRoles ys r) (ap (λ y. y.1) e) x))))
            (λ n. both.1 (inr (later.1 (rs, n, x)))) ((Memᴰ-cons (g, rs) (h, roles) held).0 m),
    )

-- Each tuple is one of the person's.
abbrev pub OfPerson : Text → TuplePair → Type 0
OfPerson email t = t ≡ user_tuple email t.group_id t.relation

map-OfPerson :
    (email h : Text) (roles : List Text) (t : TuplePair)
    → Memᴰ t (map (user_tuple email h) roles)
    → OfPerson email t
unfolding user_tuple
map-OfPerson email h [] t m = absurd (Memᴰ.not-nil m)
map-OfPerson email h (r ∷ roles) t (Memᴰ.head e) = rw e refl
map-OfPerson email h (r ∷ roles) t (Memᴰ.tail m) = map-OfPerson email h roles t m

tuples_of-OfPerson :
    (email : Text) (held : Held) (t : TuplePair) → Memᴰ t (tuples_of email held) → OfPerson email t
unfolding tuples_of tuples_in
tuples_of-OfPerson email [] t m = absurd (Memᴰ.not-nil m)
tuples_of-OfPerson email ((h, []) ∷ held) t m =
    ⊎_elim (map-OfPerson email h (relation_member ∷ []) t) (tuples_of-OfPerson email held t)
      ((Memᴰ-append t (user_tuple email h relation_member ∷ []) (tuples_of email held)).0 m)
tuples_of-OfPerson email ((h, r ∷ roles) ∷ held) t m =
    ⊎_elim (map-OfPerson email h (sort text_leb (r ∷ roles)) t) (tuples_of-OfPerson email held t) (
      (Memᴰ-append t (map (user_tuple email h) (sort text_leb (r ∷ roles)))
          (tuples_of email held)).0
        m)

-- Nothing is placed yet.
abbrev Nowhere : Text → Text → Type 0
Nowhere g r = ⊥

or_Nowhere : (ps : List (Text × Text)) (g r : Text) → OrIn Nowhere ps g r ↔ Memᴰ (g, r) ps
or_Nowhere ps g r = (⊎_elim (λ z. absurd z) (λ m. m), inr)

Granted-by :
    (ps : List (Text × Text)) (g relation : Text) (o : Option (List Text))
    → Exactly (OrIn Nowhere ps) g o
    → ((roles : List Text) × (o ≡ some roles) × InRoles roles relation) ↔ Granted ps g relation
Granted-by ps g relation none x = (
  λ (roles, e, k). absurd (cc),
  ⊎_elim (λ k. absurd (x relation (inr k.1))) (λ k. absurd (x k.1.0 (inr k.1.1))),
)
Granted-by ps g relation (some []) ((r0, p0), x) = (
  λ (roles, e, k). inr (
    subst (λ ys. InRoles ys relation) (sym (ap roles_or_none e)) k,
    (r0, (or_Nowhere ps g r0).0 p0),
    λ r m. ground (arith, x r, Memᴰ-nil r, is_empty_iff r, or_Nowhere ps g r),
  ),
  ⊎_elim (λ k. absurd (ground (arith, x relation, Memᴰ-nil relation, or_Nowhere ps g relation)))
      (λ k. ([], refl, k.0)),
)
Granted-by ps g relation (some (s ∷ roles)) ((r0, p0), x) = (
  λ (rs, e, k).
      (let k' = subst (λ ys. InRoles ys relation) (sym (ap roles_or_none e)) k in
        let (some_role, at) = (x relation).0 k' in
        inl (some_role, (or_Nowhere ps g relation).0 at)),
  ⊎_elim (λ k. (s ∷ roles, refl, ground (arith, x relation, or_Nowhere ps g relation)))
      (λ k.
        (let (some_role, at) = (x s).0 (Memᴰ.head refl) in
          absurd (some_role (k.2 s ((or_Nowhere ps g s).0 at))))),
)

mem-joined :
    (email g r : Text) (ps : List (Text × Text))
    → Memᴰ (user_tuple email g r) (tuples_of email (join_all ps [])) ↔ Granted ps g r
unfolding lookup
mem-joined email g r ps =
    let held = join_all ps [] in
    let keyed = λ (roles : List Text). mem-lookup held g roles (join_all-Distinct ps [] tt) in
    let tuples = mem-tuples_of email g r held in
    let granted = Granted-by ps g r (lookup g held) (join_all-Holds ps Nowhere [] (λ h s z. z) g) in
    (
      λ m. (let (roles, k, x) = tuples.0 m in granted.0 (roles, (keyed roles).0 k, x)),
      λ h. (let (roles, k, x) = granted.1 h in tuples.1 (roles, (keyed roles).1 k, x)),
    )

-- A person gets exactly these entries, all with their own address: a role in a group where one of their values
-- has it, and plain membership where values place them in the group and none of these has a role there.
pub derive_correct :
    (m : Mapping) (email : Text) (raws : List Text) (unmapped : Unmapped) (t : TuplePair)
    → Memᴰ t (derive m email raws unmapped).0
      ↔ (OfPerson email t × Granted (placed m raws) t.group_id t.relation)
unfolding derive
derive_correct m email raws unmapped t =
    let ps = placed m raws in
    let member = mem-joined email t.group_id t.relation ps in
    rw (held_of_loop m raws _) (
      λ k.
          (let p = tuples_of-OfPerson email (join_all ps []) t k in
            (p, member.0 (subst (λ u. Memᴰ u (tuples_of email (join_all ps []))) p k))),
      λ (p, h). subst (λ u. Memᴰ u (tuples_of email (join_all ps []))) (sym p) (member.1 h),
    )
