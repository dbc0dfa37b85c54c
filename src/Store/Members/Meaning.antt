-- ===== src/Store/Members/Meaning.antt =====
-- Who is in a group: the relation that `GetAllMembers` decides.
use role_provider_service.Base.{
  ◌<◌, ◌≡◌, ◌≢◌, ◌↔◌, ◌⊎◌, inl, inr, true, List, [], Memᴰ, arith, Text, none, some, list_beq_iff,
  is_empty_iff, nat_eq, list_eq, Option-cases,
}
use role_provider_service.Common.Types.{Time}
use role_provider_service.Common.Token.{group_type, pattern_type, relation_member}
use role_provider_service.Store.State.{Entry, live, member_token, filter_for, relation_matches}
use role_provider_service.Store.Members.{Step, counts}

-- An entry with no end, or with an end still ahead.
pub data IsLive (now : Time) (t : Entry) : Type 0 where
  forever : t.expires ≡ none → IsLive now t
  until : (e : Time) → t.expires ≡ some e → now < e → IsLive now t

IsLive-live : {now : Time} (t : Entry) → IsLive now t → live now t ≡ true
unfolding live
IsLive-live t (forever e) = ground arith
IsLive-live t (until e q h) = ground arith

pub live_iff : (now : Time) (t : Entry) → (live now t ≡ true) ↔ IsLive now t
unfolding live
live_iff now t = elim (Option-cases t.expires) [
  | inl e ↦ (λ _. forever e, IsLive-live t)
  | inr (x, e) ↦ (λ h. until x e (ground arith), IsLive-live t)
]

-- "member", and no relation, ask for everyone.
abbrev pub AsksFor : Text → Text → Type 0
AsksFor relation held = (relation ≡ relation_member) ⊎ (relation ≡ []) ⊎ (held ≡ relation)

pub record Counts (now : Time) (q : Step) (t : Entry) : Type 0 where
  pub in_group : t.obj_id ≡ q.0
  pub no_pattern : t.subj_type ≢ pattern_type
  pub is_live : IsLive now t
  pub asked : AsksFor q.1 t.relation

pub counts_iff : (now : Time) (q : Step) (t : Entry) → (counts now q t ≡ true) ↔ Counts now q t
unfolding counts filter_for relation_matches
counts_iff now (g, r) t = (
  λ h. record {
    in_group = ground (arith, list_beq_iff t.obj_id g);
    no_pattern = ground (arith, list_beq_iff t.subj_type pattern_type);
    is_live = (live_iff now t).0 (ground arith);
    asked =
        ground (arith, list_beq_iff r relation_member, list_beq_iff t.relation r, is_empty_iff r);
  },
  λ c. ground (
    arith,
    (live_iff now t).1 c.is_live,
    list_beq_iff t.obj_id g,
    list_beq_iff t.subj_type pattern_type,
    list_beq_iff r relation_member,
    list_beq_iff t.relation r,
    is_empty_iff r,
  ),
)

-- The tokens in a group asked for with a relation: those of its entries, and those of the groups
-- among them with the relation that the entry names.
pub data InGroup (now : Time) (ts : List Entry) : Step → Text → Type 0 where
  entry :
      {q : Step} {token : Text} (t : Entry)
      → Memᴰ t ts
      → Counts now q t
      → token ≡ member_token t.subj_type t.subj_id t.subj_rel
      → InGroup now ts q token
  nested :
      {q : Step} {token : Text} (t : Entry)
      → Memᴰ t ts
      → Counts now q t
      → t.subj_type ≡ group_type
      → InGroup now ts (t.subj_id, t.subj_rel) token
      → InGroup now ts q token
