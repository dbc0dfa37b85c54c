-- ===== src/Keycloak/Mapping/Held.antt =====
-- What a person holds after joining groups one after another.
use mathlib.Core.List.Memᴰ
use role_provider_service.Base.{
  ◌≡◌, ◌≢◌, ◌↔◌, ◌⊎◌, inl, inr, ⊎_elim, refl, ap, arith, List, [], ◌∷◌, Option, none, some, Text,
  map, Memᴰ, Memᴰ-cons, Memᴰ-concat, Memᴰ-nil, Distinct, contains_iff, is_empty_iff, list_beq_iff,
  ◌==◌, nat_eq, list_eq, Bool-cases,
}
use role_provider_service.Keycloak.Mapping.{lookup}
use role_provider_service.Keycloak.Mapping.Derive.{Held, add_role, join, join_all}

pub pair_iff {ℓ κ} :
    {A : Type ℓ} {B : Type κ} (a c : A) (b d : B)
    → (Path (A × B) (a, b) (c, d)) ↔ ((a ≡ c) × (b ≡ d))
pair_iff a c b d = (λ e. (ap (λ x. x.0) e, ap (λ x. x.1) e), λ e. cc)

mem-add_role :
    (role : Text) (roles : List Text) (r : Text)
    → Memᴰ r (add_role role roles) ↔ (Memᴰ r roles ⊎ ((r ≡ role) × (role ≢ [])))
unfolding add_role
mem-add_role role roles r =
    ground (arith, is_empty_iff role, contains_iff roles role, Memᴰ-concat r role roles)

-- The roles in a group; nothing for a group that is not joined.
abbrev pub roles_or_none : Option (List Text) → List Text
roles_or_none none = []
roles_or_none (some roles) = roles

lookup-join_same :
    (g role : Text) (held : Held)
    → lookup g (join g role held) ≡ some (add_role role (roles_or_none (lookup g held)))
unfolding lookup join
lookup-join_same g role [] = ground (arith, list_beq_iff g g)
lookup-join_same g role ((x, roles) ∷ held) =
    ground (arith, list_beq_iff x g, lookup-join_same g role held)

lookup-join_other :
    (g h role : Text) (held : Held) → h ≢ g → lookup h (join g role held) ≡ lookup h held
unfolding lookup join
lookup-join_other g h role [] n = ground (arith, list_beq_iff g h)
lookup-join_other g h role ((x, roles) ∷ held) n =
    ground (arith, list_beq_iff x g, list_beq_iff x h, lookup-join_other g h role held n)

-- The groups are joined and the roles held that a relation says.
abbrev pub Exactly : (placed : Text → Text → Type 0) → Text → Option (List Text) → Type 0
Exactly placed g none = (r : Text) → ¬ placed g r
Exactly placed g (some roles) =
    ((r : Text) × placed g r) × ((r : Text) → Memᴰ r roles ↔ ((r ≢ []) × placed g r))

abbrev pub Holds : (placed : Text → Text → Type 0) → Held → Type 0
Holds placed held = (g : Text) → Exactly placed g (lookup g held)

abbrev pub Or : (placed : Text → Text → Type 0) → Text → Text → Text → Text → Type 0
Or placed g role h r = placed h r ⊎ ((h ≡ g) × (r ≡ role))

Exactly-add_role :
    (placed : Text → Text → Type 0) (g role : Text) (o : Option (List Text))
    → Exactly placed g o
    → Exactly (Or placed g role) g (some (add_role role (roles_or_none o)))
Exactly-add_role placed g role none x =
    ((role, inr (refl, refl)), λ r. ground (arith, mem-add_role role [] r, Memᴰ-nil r, x r))
Exactly-add_role placed g role (some roles) ((r0, p0), x) =
    ((r0, inl p0), λ r. ground (arith, mem-add_role role roles r, x r))

Exactly-other :
    (placed : Text → Text → Type 0) (g h role : Text) (o : Option (List Text))
    → h ≢ g
    → Exactly placed h o
    → Exactly (Or placed g role) h o
Exactly-other placed g h role none n x = λ r. ⊎_elim (x r) (λ k. n k.0)
Exactly-other placed g h role (some roles) n ((r0, p0), x) =
    ((r0, inl p0), λ r. ground (arith, x r, n))

join-Holds :
    (placed : Text → Text → Type 0) (g role : Text) (held : Held)
    → Holds placed held
    → Holds (Or placed g role) (join g role held)
join-Holds placed g role held x h = elim (Bool-cases (h == g)) [
  | inl same ↦
      rw ((list_beq_iff h g).0 same, lookup-join_same g role held)
        (Exactly-add_role placed g role (lookup g held) (x g))
  | inr other ↦
      let n : h ≢ g = λ e. absurd (ground (arith, list_beq_iff h g)) in
      rw (lookup-join_other g h role held n) (Exactly-other placed g h role (lookup h held) n (x h))
]

-- What a list of joins adds.
abbrev pub OrIn : (placed : Text → Text → Type 0) → List (Text × Text) → Text → Text → Type 0
OrIn placed ps g r = placed g r ⊎ Memᴰ (g, r) ps

Exactly-iff :
    (p q : Text → Text → Type 0) (g : Text) (o : Option (List Text))
    → ((r : Text) → p g r ↔ q g r)
    → Exactly p g o
    → Exactly q g o
Exactly-iff p q g none k x = λ r z. x r ((k r).1 z)
Exactly-iff p q g (some roles) k ((r0, p0), x) = ((r0, (k r0).0 p0), λ r. ground (arith, x r, k r))

OrIn-cons :
    (placed : Text → Text → Type 0) (g role : Text) (ps : List (Text × Text)) (h r : Text)
    → OrIn (Or placed g role) ps h r ↔ OrIn placed ((g, role) ∷ ps) h r
OrIn-cons placed g role ps h r = ground (arith, Memᴰ-cons (h, r) (g, role) ps, pair_iff h g r role)

pub join_all-Holds :
    (ps : List (Text × Text)) (placed : Text → Text → Type 0) (held : Held)
    → Holds placed held
    → Holds (OrIn placed ps) (join_all ps held)
unfolding join_all
join_all-Holds [] placed held x g =
    Exactly-iff placed (OrIn placed []) g (lookup g held)
      (λ r. (inl, ⊎_elim (λ p. p) (λ m. absurd (Memᴰ.not-nil m)))) (x g)
join_all-Holds ((g, role) ∷ ps) placed held x h =
    Exactly-iff (OrIn (Or placed g role) ps) (OrIn placed ((g, role) ∷ ps)) h _
      (OrIn-cons placed g role ps h)
      (join_all-Holds ps (Or placed g role) (join g role held) (join-Holds placed g role held x) h)

-- A group is joined once.
mem-held_groups-join :
    (g role : Text) (held : Held) (k : Text)
    → Memᴰ k (map (λ (h : Text × List Text). h.0) (join g role held))
      ↔ ((k ≡ g) ⊎ Memᴰ k (map (λ (h : Text × List Text). h.0) held))
unfolding join
mem-held_groups-join g role [] k = Memᴰ-cons k g []
mem-held_groups-join g role ((x, roles) ∷ held) k = ground (
  arith,
  mem-held_groups-join g role held k,
  list_beq_iff x g,
  Memᴰ-cons k x (map (λ (h : Text × List Text). h.0) held),
  Memᴰ-cons k x (map (λ (h : Text × List Text). h.0) (join g role held)),
)

abbrev pub held_groups : Held → List Text
held_groups held = map (λ (h : Text × List Text). h.0) held

join-Distinct :
    (g role : Text) (held : Held)
    → Distinct (held_groups held)
    → Distinct (held_groups (join g role held))
unfolding join
join-Distinct g role [] d = (Memᴰ.not-nil, tt)
join-Distinct g role ((x, roles) ∷ held) d = elim (Bool-cases (x == g)) [
  | inl e ↦ rw (e, join) d
  | inr e ↦
      rw (e, join)
        (
          λ m.
              ⊎_elim (λ k. absurd (ground (arith, list_beq_iff x g))) d.0
                ((mem-held_groups-join g role held x).0 m),
          join-Distinct g role held d.1,
        )
]

pub join_all-Distinct :
    (ps : List (Text × Text)) (held : Held)
    → Distinct (held_groups held)
    → Distinct (held_groups (join_all ps held))
unfolding join_all
join_all-Distinct [] held d = d
join_all-Distinct ((g, role) ∷ ps) held d =
    join_all-Distinct ps (join g role held) (join-Distinct g role held d)

mem-keys :
    (held : Held) (g : Text) (roles : List Text) → Memᴰ (g, roles) held → Memᴰ g (held_groups held)
mem-keys [] g roles m = absurd (Memᴰ.not-nil m)
mem-keys ((x, xs) ∷ held) g roles (Memᴰ.head e) = Memᴰ.head (ap (λ h. h.0) e)
mem-keys ((x, xs) ∷ held) g roles (Memᴰ.tail m) = Memᴰ.tail (mem-keys held g roles m)

pub mem-lookup :
    (held : Held) (g : Text) (roles : List Text)
    → Distinct (held_groups held)
    → Memᴰ (g, roles) held ↔ (lookup g held ≡ some roles)
unfolding lookup
mem-lookup [] g roles d = (λ m. absurd (Memᴰ.not-nil m), λ e. absurd (cc))
mem-lookup ((x, xs) ∷ held) g roles d = ground (
  arith,
  mem-lookup held g roles d.1,
  Memᴰ-cons (g, roles) (x, xs) held,
  pair_iff g x roles xs,
  list_beq_iff x g,
  mem-keys held g roles,
  d.0,
)
