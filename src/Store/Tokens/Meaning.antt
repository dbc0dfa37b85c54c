-- ===== src/Store/Tokens/Meaning.antt =====
-- What a person holds: the relation that `GetUserTokens` decides.
use role_provider_service.Base.{
  ◌≡◌, ◌≢◌, ◌++◌, ◌↔◌, ◌⊎◌, true, List, Memᴰ, arith, Text, list_beq_iff, nat_eq, list_eq,
}
use role_provider_service.Common.Types.{Time}
use role_provider_service.Common.Token.{
  group_type, user_type, pattern_type, relation_member, user_prefix, group_prefix, group_token,
}
use role_provider_service.Common.Glob.{match_email_pattern}
use role_provider_service.Store.State.{Entry}
use role_provider_service.Store.Members.Meaning.{IsLive, live_iff}
use role_provider_service.Store.Tokens.{Pair, names, hands_on}

-- A live entry with the person as subject, or a pattern that matches their address.
pub record Names (now : Time) (email : Text) (t : Entry) : Type 0 where
  pub is_live : IsLive now t
  pub subject :
      (t.subj_type ≡ user_type) × (t.subj_id ≡ email)
      ⊎ (t.subj_type ≡ pattern_type) × (match_email_pattern t.subj_id email ≡ true)

pub names_iff :
    (now : Time) (email : Text) (t : Entry) → (names now email t ≡ true) ↔ Names now email t
unfolding names
names_iff now email t = (
  λ h. record {
    is_live = (live_iff now t).0 (ground arith);
    subject = ground (
      arith,
      list_beq_iff t.subj_type user_type,
      list_beq_iff t.subj_id email,
      list_beq_iff t.subj_type pattern_type,
    );
  },
  λ n. ground (
    arith,
    (live_iff now t).1 n.is_live,
    list_beq_iff t.subj_type user_type,
    list_beq_iff t.subj_id email,
    list_beq_iff t.subj_type pattern_type,
  ),
)

-- A live entry with a group as subject, meant for the holders of this pair.
pub record HandsOn (now : Time) (p : Pair) (t : Entry) : Type 0 where
  pub is_live : IsLive now t
  pub by_group : t.subj_type ≡ group_type
  pub of_group : t.subj_id ≡ p.0
  pub meant : (t.subj_rel ≡ relation_member) ⊎ (t.subj_rel ≡ p.1)

pub hands_on_iff : (now : Time) (p : Pair) (t : Entry) → (hands_on now p t ≡ true) ↔ HandsOn now p t
unfolding hands_on
hands_on_iff now (g, r) t = (
  λ h. record {
    is_live = (live_iff now t).0 (ground arith);
    by_group = ground (arith, list_beq_iff t.subj_type group_type);
    of_group = ground (arith, list_beq_iff t.subj_id g);
    meant = ground (arith, list_beq_iff t.subj_rel relation_member, list_beq_iff t.subj_rel r);
  },
  λ n. ground (
    arith,
    (live_iff now t).1 n.is_live,
    list_beq_iff t.subj_type group_type,
    list_beq_iff t.subj_id g,
    list_beq_iff t.subj_rel relation_member,
    list_beq_iff t.subj_rel r,
  ),
)

-- The pairs of a group and a relation that a person holds.
pub data Holds (now : Time) (email : Text) (ts : List Entry) : Pair → Type 0 where
  named :
      {p : Pair} (t : Entry)
      → Memᴰ t ts
      → Names now email t
      → p ≡ (t.obj_id, t.relation)
      → Holds now email ts p
  through :
      {p : Pair} (q : Pair) (t : Entry)
      → Memᴰ t ts
      → HandsOn now q t
      → p ≡ (t.obj_id, t.relation)
      → Holds now email ts q
      → Holds now email ts p

-- The tokens of a person: their own, one for each group, and one for each relation but "member".
pub data TokenFor (now : Time) (email : Text) (ts : List Entry) (token : Text) : Type 0 where
  person : token ≡ user_prefix ++ email → TokenFor now email ts token
  in_group :
      (p : Pair) → Holds now email ts p → token ≡ group_prefix ++ p.0 → TokenFor now email ts token
  in_relation :
      (p : Pair)
      → Holds now email ts p
      → p.1 ≢ relation_member
      → token ≡ group_token p.0 p.1
      → TokenFor now email ts token
