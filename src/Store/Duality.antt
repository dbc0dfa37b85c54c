-- ===== src/Store/Duality.antt =====
-- The two ways round of the group graph agree: who is in a group, and what a person holds.
pub mod Pairs
pub mod Rights
use mathlib.Core.List.Memᴰ
use role_provider_service.Base.{
  ℕ, ◌≡◌, ◌≢◌, ◌↔◌, ◌⊎◌, inl, inr, ⊎_elim, refl, sym, ap, ◌∙◌, subst, Bool, true, false, List, [],
  ◌∷◌, ◌++◌, Memᴰ, arith, Text, Option, none, some, All, All-mem, nat_eq, list_eq, list_beq_iff,
  list_beq, Bool-cases, ◌==◌, is_empty_iff,
}
use role_provider_service.Common.Types.{Time}
use role_provider_service.Common.Token.{
  group_type, user_type, pattern_type, group_prefix, user_prefix, relation_member,
  relation_separator, group_token, join_group_relation, normalize_relation, build_token,
  split_group_relation,
}
use role_provider_service.Common.Token.RoundTrip.{IsTokenType, split-join}
use role_provider_service.Common.Glob.{match_email_pattern}
use role_provider_service.Store.State.{Entry, MemoryStore, member_token}
use role_provider_service.Store.Members.{Step, get_all_members}
use role_provider_service.Store.Members.Meaning.{IsLive, AsksFor, Counts, InGroup, entry, nested}
use role_provider_service.Store.Members.Correct.{get_all_members_correct}
use role_provider_service.Store.Tokens.{Pair, get_user_tokens}
use role_provider_service.Store.Tokens.Meaning.{
  Names, HandsOn, Holds, named, through, TokenFor, person, in_group, in_relation,
}
use role_provider_service.Store.Tokens.Answer.{get_user_tokens_correct}
use Pairs.{Normal, NoPatternFor, Holds-of_InGroup, InGroup-of_Holds}
use Rights.{normalize_relation-ne-nil, Holds-of_TokenFor, TokenFor-of_Holds}

-- For a person that no pattern rule brings in, and a group whose id has no "#": `GetAllMembers` of the
-- group with a relation lists the person exactly if `GetUserTokens` gives them the token of the group
-- with that relation. Entries are as the service writes them.
pub members_agree_tokens :
    (now : Time) (s : MemoryStore) (group_id relation email : Text) (members tokens : List Text)
    → All Normal s.tuples
    → All (NoPatternFor email) s.tuples
    → ¬ Memᴰ relation_separator group_id
    → get_all_members now group_id relation s ≡ some members
    → get_user_tokens now email s ≡ some tokens
    → Memᴰ (user_prefix ++ email) members ↔ Memᴰ (group_token group_id relation) tokens
members_agree_tokens now s group_id relation email members tokens valid free plain hm ht =
    let (out, eq, _, in_group_iff) = get_all_members_correct now group_id relation s in
    let (out', eq', token_iff) = get_user_tokens_correct now email s in
    let same : out ≡ members = cc in
    let same' : out' ≡ tokens = cc in
    let rel = normalize_relation relation in
    (
      λ m.
          let i =
            (in_group_iff (user_prefix ++ email)).0
              (subst (Memᴰ (user_prefix ++ email)) (sym same) m) in
          let (held, h, a) =
            Holds-of_InGroup now email s.tuples valid i refl (normalize_relation-ne-nil relation) in
          subst (Memᴰ (group_token group_id relation)) same' (
            (token_iff (group_token group_id relation)).1
              (TokenFor-of_Holds now email s.tuples valid group_id relation held h a)),
      λ m.
          let t =
            (token_iff (group_token group_id relation)).0
              (subst (Memᴰ (group_token group_id relation)) (sym same') m) in
          let (held, h, a) = Holds-of_TokenFor now email s.tuples valid group_id relation plain t in
          subst (Memᴰ (user_prefix ++ email)) same (
            (in_group_iff (user_prefix ++ email)).1 (
              InGroup-of_Holds now email s.tuples valid free h (group_id, rel) refl
                (⊎_elim inl (λ e. inr (inr e)) a))),
    )
