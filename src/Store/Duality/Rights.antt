-- ===== src/Store/Duality/Rights.antt =====
-- A token of a group with a relation names one group and one relation.
use role_provider_service.Base.{
  ◌≡◌, ◌≢◌, ◌⊎◌, inl, inr, refl, sym, ap, ◌∙◌, subst, List, [], ◌∷◌, ◌++◌, Memᴰ, arith, Text, All,
  All-mem, nat_eq, list_eq, list_beq_iff, Bool-cases, ◌==◌, is_empty_iff,
}
use role_provider_service.Common.Types.{Time}
use role_provider_service.Common.Token.{
  group_prefix, relation_member, relation_separator, group_token, join_group_relation,
  normalize_relation, split_group_relation,
}
use role_provider_service.Common.Token.RoundTrip.{split-join}
use role_provider_service.Store.State.{Entry}
use role_provider_service.Store.Tokens.{Pair}
use role_provider_service.Store.Tokens.Meaning.{
  Holds, named, through, TokenFor, person, in_group, in_relation,
}
use role_provider_service.Store.Duality.Pairs.{Normal, cancel, group_token-ne-user}

join-member : (g r : Text) → normalize_relation r ≡ relation_member → join_group_relation g r ≡ g
unfolding join_group_relation normalize_relation
join-member g r h = ground (arith, list_beq_iff r relation_member, is_empty_iff r)

join-normalize :
    (g r : Text) → join_group_relation g (normalize_relation r) ≡ join_group_relation g r
unfolding join_group_relation normalize_relation
join-normalize g [] = ground (arith, list_beq_iff relation_member relation_member)
join-normalize g (c ∷ r) = refl

pub normalize_relation-ne-nil : (r : Text) → normalize_relation r ≢ []
unfolding normalize_relation
normalize_relation-ne-nil [] e = absurd (cc)
normalize_relation-ne-nil (c ∷ r) e = absurd (cc)

normalize_relation-eq : (r : Text) → r ≢ [] → normalize_relation r ≡ r
unfolding normalize_relation
normalize_relation-eq [] h = absurd (h refl)
normalize_relation-eq (c ∷ r) h = refl

group_token_inj :
    (g r h q : Text)
    → ¬ Memᴰ relation_separator g
    → ¬ Memᴰ relation_separator h
    → group_token g r ≡ group_token h q
    → (g ≡ h) × (normalize_relation r ≡ normalize_relation q)
unfolding group_token
group_token_inj g r h q n m e =
    let same =
      sym (split-join g r n)
      ∙ ap split_group_relation (cancel group_prefix _ _ e)
      ∙ split-join h q m in
    (ap (λ (x : Pair). x.0) same, ap (λ (x : Pair). x.1) same)

Holds-plain_id :
    (now : Time) (email : Text) (ts : List Entry)
    → All Normal ts
    → {p : Pair} → Holds now email ts p
    → ¬ Memᴰ relation_separator p.0
Holds-plain_id now email ts valid (named t m n e) =
    subst (λ (x : Pair). ¬ Memᴰ relation_separator x.0) (sym e) (All-mem Normal ts valid m).plain_id
Holds-plain_id now email ts valid (through q t m b e h) =
    subst (λ (x : Pair). ¬ Memᴰ relation_separator x.0) (sym e) (All-mem Normal ts valid m).plain_id

-- A group's token with a relation is a person's exactly if they hold something there that gives it.
module _ (now : Time) (email : Text) (ts : List Entry) (valid : All Normal ts) where
  pub Holds-of_TokenFor :
      (g r : Text)
      → ¬ Memᴰ relation_separator g
      → TokenFor now email ts (group_token g r)
      → (held : Text) × Holds now email ts (g, held)
        × ((normalize_relation r ≡ relation_member) ⊎ (held ≡ normalize_relation r))
  unfolding normalize_relation group_token
  Holds-of_TokenFor g r n (person e) = absurd (group_token-ne-user g r email e)
  Holds-of_TokenFor g r n (in_group p h e) =
      let (same, rel) =
        group_token_inj g r p.0 relation_member n (Holds-plain_id now email ts valid h)
          (e ∙ ap (λ x. group_prefix ++ x) (sym (join-member p.0 relation_member refl))) in
      (p.1, subst (λ x. Holds now email ts (x, p.1)) (sym same) h, inl rel)
  Holds-of_TokenFor g r n (in_relation p h d e) =
      let (same, rel) = group_token_inj g r p.0 p.1 n (Holds-plain_id now email ts valid h) e in
      (p.1, subst (λ x. Holds now email ts (x, p.1)) (sym same) h, ground (arith, rel))

  pub TokenFor-of_Holds :
      (g r held : Text)
      → Holds now email ts (g, held)
      → (normalize_relation r ≡ relation_member) ⊎ (held ≡ normalize_relation r)
      → TokenFor now email ts (group_token g r)
  unfolding group_token
  TokenFor-of_Holds g r held h (inl e) =
      in_group (g, held) h (ap (λ x. group_prefix ++ x) (join-member g r e))
  TokenFor-of_Holds g r held h (inr e) =
      elim (Bool-cases (normalize_relation r == relation_member)) [
        | inl m ↦
            in_group (g, held) h
              (ap (λ x. group_prefix ++ x)
                (join-member g r ((list_beq_iff (normalize_relation r) relation_member).0 m)))
        | inr m ↦
            in_relation (g, held) h
              (λ k. cc (m, (list_beq_iff (normalize_relation r) relation_member).1 (sym e ∙ k)))
              (ap (λ x. group_prefix ++ x)
                (sym (join-normalize g r) ∙ ap (join_group_relation g) (sym e)))
      ]
