-- ===== src/Sync/Checks/Accepted.antt =====
-- What becomes of a delivered tuple that is accepted.
use role_provider_service.Base.{
  ◌≡◌, ◌≢◌, refl, List, [], ◌∷◌, Text, ◌==◌, nat_eq, list_eq, list_beq_iff, Memᴰ, subst, Bool-cases,
  inl, inr, map,
}
use role_provider_service.Base.Result.{ok, ok-inj, >>=-eq-ok, Result-cases}
use role_provider_service.Common.Types.{TuplePair}
use role_provider_service.Common.Token.{group_type, normalize_id, member_group, join_group_relation}
use role_provider_service.Common.Relations.{Relations, check}
use role_provider_service.Common.Relations.Laws.{AsksFor, check_iff}
use role_provider_service.Sync.Checks.{
  normalize_pair, check_import_relation, check_pair, check_relations,
}

-- The relation that a text asks for, where it is allowed.
abbrev pub Allows : Relations → Text → Text → Type 0
Allows r relation rel = AsksFor relation rel × Memᴰ rel r.allowed

-- The accepted form of a tuple: the ids normalized, the relation one that is allowed; and of a group as
-- member, the relation that its id names too.
pub record Accepted (r : Relations) (p q : TuplePair) : Type 0 where
  pub group : q.group_id ≡ normalize_id p.group_id
  pub typ : q.member_type ≡ p.member_type
  pub relation : Allows r p.relation q.relation
  pub person : p.member_type ≢ group_type → q.member_id ≡ normalize_id p.member_id
  pub subgroup :
      p.member_type ≡ group_type
      → let (group, relation) = member_group (normalize_id p.member_id) in
        (rel : Text) × Allows r relation rel × (q.member_id ≡ join_group_relation group rel)

-- Each tuple has its accepted form, in the order of the delivery, and there are no others.
abbrev pub AllAccepted : Relations → List TuplePair → List TuplePair → Type 0
AllAccepted r [] [] = Unit {0}
AllAccepted r [] (q ∷ qs) = ⊥
AllAccepted r (p ∷ ps) [] = ⊥
AllAccepted r (p ∷ ps) (q ∷ qs) = Accepted r p q × AllAccepted r ps qs

check_import_relation-Allows :
    (r : Relations) (relation rel : Text)
    → check_import_relation r relation ≡ ok rel
    → Allows r relation rel
unfolding check_import_relation
check_import_relation-Allows r relation rel h = elim (Result-cases (check r relation)) [
  | inl (x, e) ↦
      let same = ok-inj (rw (e, check_import_relation) at h) in
      (check_iff r relation rel).0 (subst (λ y. check r relation ≡ ok y) same e)
  | inr (why, e) ↦ absurd (let h' = rw (e, check_import_relation) at h in cc)
]

check_pair-Accepted :
    (r : Relations) (p q : TuplePair) → check_pair r (normalize_pair p) ≡ ok q → Accepted r p q
unfolding check_pair normalize_pair
check_pair-Accepted r p q h =
    let (rel, a, later) = >>=-eq-ok (check_import_relation r p.relation) _ h in
    let allowed = check_import_relation-Allows r p.relation rel a in
    elim (Bool-cases (p.member_type == group_type)) [
      | inr other ↦
          let same = ok-inj (rw other at later) in
          subst (Accepted r p) same (record {
            group = refl;
            typ = refl;
            relation = allowed;
            person = λ n. refl;
            subgroup = λ e. absurd (let e' = (list_beq_iff p.member_type group_type).1 e in cc);
          })
      | inl grouped ↦
          let later' = rw grouped at later in
          let (rel', b, h2) =
            >>=-eq-ok (check_import_relation r (member_group (normalize_id p.member_id)).1) _
              later' in
          subst (Accepted r p) (ok-inj h2) (record {
            group = refl;
            typ = refl;
            relation = allowed;
            person = λ n. absurd (n ((list_beq_iff p.member_type group_type).0 grouped));
            subgroup = λ e. (rel', check_import_relation-Allows r _ rel' b, refl);
          })
    ]

pub check_relations-AllAccepted :
    (r : Relations) (ps qs : List TuplePair)
    → check_relations r (map normalize_pair ps) ≡ ok qs
    → AllAccepted r ps qs
unfolding check_relations
check_relations-AllAccepted r [] [] h = tt
check_relations-AllAccepted r [] (q ∷ qs) h = absurd (cc (ok-inj h))
check_relations-AllAccepted r (p ∷ ps) qs h =
    let (q, a, h1) = >>=-eq-ok (check_pair r (normalize_pair p)) _ h in
    let (rest, b, h2) = >>=-eq-ok (check_relations r (map normalize_pair ps)) _ h1 in
    subst (AllAccepted r (p ∷ ps)) (ok-inj h2)
      (check_pair-Accepted r p q a, check_relations-AllAccepted r ps rest b)
