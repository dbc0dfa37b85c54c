-- ===== src/Store/Duality/Pairs.antt =====
-- A person is in a group by a chain of entries, and holds pairs by the same chain
-- the other way round.
use role_provider_service.Base.{
  ℕ, ◌≡◌, ◌≢◌, ◌⊎◌, inl, inr, ⊎_elim, refl, sym, ap, ◌∙◌, subst, false, List, [], ◌∷◌, ◌++◌, Memᴰ,
  arith, Text, All, All-mem, nat_eq, list_eq, list_beq,
}
use role_provider_service.Common.Types.{Time}
use role_provider_service.Common.Token.{
  group_type, user_type, pattern_type, user_prefix, relation_member, relation_separator,
  group_token, build_token,
}
use role_provider_service.Common.Token.RoundTrip.{IsTokenType}
use role_provider_service.Common.Glob.{match_email_pattern}
use role_provider_service.Store.State.{Entry, member_token}
use role_provider_service.Store.Members.{Step}
use role_provider_service.Store.Members.Meaning.{IsLive, AsksFor, Counts, InGroup, entry, nested}
use role_provider_service.Store.Tokens.{Pair}
use role_provider_service.Store.Tokens.Meaning.{Holds, named, through}

-- How the service writes entries: a known type of subject, a relation for each group subject, and no
-- "#" in a group's id.
pub record Normal (t : Entry) : Type 0 where
  pub typed : IsTokenType t.subj_type
  pub group_rel : t.subj_type ≡ group_type → t.subj_rel ≢ []
  pub plain_id : ¬ Memᴰ relation_separator t.obj_id

-- No pattern rule brings the person in.
abbrev pub NoPatternFor : Text → Entry → Type 0
NoPatternFor email t = t.subj_type ≡ pattern_type → match_email_pattern t.subj_id email ≡ false

-- Tells two texts apart by their first characters.
abbrev first_code : Text → ℕ
first_code [] = 0
first_code (c ∷ s) = c

pub cancel : (p a b : Text) → p ++ a ≡ p ++ b → a ≡ b
cancel [] a b h = h
cancel (c ∷ p) a b h = cancel p a b (cc)

member_token-user : (id rel : Text) → member_token user_type id rel ≡ user_prefix ++ id
unfolding member_token build_token list_beq
member_token-user id rel = refl

member_token-group : (id rel : Text) → member_token group_type id rel ≡ group_token id rel
unfolding member_token list_beq
member_token-group id rel = refl

pub group_token-ne-user : (id rel email : Text) → group_token id rel ≡ user_prefix ++ email → ⊥
unfolding group_token
group_token-ne-user id rel email e = omega (arith, ap first_code e)

user_type-ne-pattern : user_type ≢ pattern_type
user_type-ne-pattern e = omega (arith, ap first_code e)

group_type-ne-pattern : group_type ≢ pattern_type
group_type-ne-pattern e = omega (arith, ap first_code e)

user_of_token :
    (t : Entry) (email : Text)
    → Normal t
    → t.subj_type ≢ pattern_type
    → member_token t.subj_type t.subj_id t.subj_rel ≡ user_prefix ++ email
    → (t.subj_type ≡ user_type) × (t.subj_id ≡ email)
user_of_token t email h n e = elim h.typed [
  | inl g ↦ absurd (
      group_token-ne-user t.subj_id t.subj_rel email
        (sym (member_token-group t.subj_id t.subj_rel) ∙ (rw g at e)))
  | inr (inl u) ↦ (
    u,
    cancel user_prefix t.subj_id email (sym (member_token-user t.subj_id t.subj_rel) ∙ (rw u at e)),
  )
  | inr (inr p) ↦ absurd (n p)
]

module _ (now : Time) (email : Text) (ts : List Entry) (valid : All Normal ts) where
  pub Holds-of_InGroup :
      {q : Step} {tok : Text}
      → InGroup now ts q tok
      → tok ≡ user_prefix ++ email
      → q.1 ≢ []
      → (r : Text) × Holds now email ts (q.0, r) × ((q.1 ≡ relation_member) ⊎ (r ≡ q.1))
  Holds-of_InGroup (entry {q = q} t m c e) u d = (
    t.relation,
    named t m
        (record {
          is_live = c.is_live;
          subject =
              inl (user_of_token t email (All-mem Normal ts valid m) c.no_pattern (sym e ∙ u));
        })
        (ap (λ (g : Text). (let p : Pair = (g, t.relation) in p)) (sym c.in_group)),
    ground (arith, c.asked),
  )
  Holds-of_InGroup (nested {q = q} t m c g i) u d =
      let (r, h, a) = Holds-of_InGroup i u ((All-mem Normal ts valid m).group_rel g) in
      (
        t.relation,
        through (t.subj_id, r) t m
            (record {
              is_live = c.is_live;
              by_group = g;
              of_group = refl;
              meant = ⊎_elim inl (λ e. inr (sym e)) a;
            })
            (ap (λ (x : Text). (let p : Pair = (x, t.relation) in p)) (sym c.in_group)) h,
        ground (arith, c.asked),
      )

  Counts-entry :
      (t : Entry) (q : Step) {p : Pair}
      → q.0 ≡ p.0
      → p ≡ (t.obj_id, t.relation)
      → AsksFor q.1 p.1
      → IsLive now t
      → t.subj_type ≢ pattern_type
      → Counts now q t
  Counts-entry t q s e a l n = record {
    in_group = sym (s ∙ ap (λ (x : Pair). x.0) e);
    no_pattern = n;
    is_live = l;
    asked = subst (AsksFor q.1) (ap (λ (x : Pair). x.1) e) a;
  }

  pub InGroup-of_Holds :
      All (NoPatternFor email) ts
      → {p : Pair} → Holds now email ts p
      → (q : Step) → q.0 ≡ p.0
      → AsksFor q.1 p.1
      → InGroup now ts q (user_prefix ++ email)
  InGroup-of_Holds free (named t m n e) q s a = elim n.subject [
    | inl (u, i) ↦
        entry t m (Counts-entry t q s e a n.is_live (λ k. user_type-ne-pattern (sym u ∙ k)))
          (sym (rw (u, i) (member_token-user email t.subj_rel)))
    | inr (k, x) ↦ absurd (cc (x, All-mem (NoPatternFor email) ts free m k))
  ]
  InGroup-of_Holds free (through r t m b e h) q s a =
      nested t m
        (Counts-entry t q s e a b.is_live (λ k. group_type-ne-pattern (sym b.by_group ∙ k)))
        b.by_group
        (InGroup-of_Holds free h (t.subj_id, t.subj_rel) b.of_group
          (⊎_elim inl (λ x. inr (inr (sym x))) b.meant))
