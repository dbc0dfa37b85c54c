-- ===== src/Service/Membership/Shape.antt =====
-- Adding a member keeps the entries in the shape that the searches rely on.
use role_provider_service.Base.{
  ◌≡◌, ◌≢◌, inl, inr, ⊎_elim, refl, sym, subst, ap, ◌∙◌, List, [], ◌∷◌, Memᴰ, Memᴰ-cons, All,
  All-mem, All-of_mem, Text, Option, some, Bool-cases, nat_eq, list_eq, list_beq_iff, is_empty,
  is_empty_iff, arith, ◌==◌, if◌then◌else◌,
}
use role_provider_service.Base.Result.{ok, Result-cases, >>=-eq-ok, ok-inj}
use role_provider_service.Common.Types.{Time, Group}
use role_provider_service.Common.Token.{
  group_type, relation_separator, normalize_relation, normalize_id, parse_token, member_group,
  split_group_relation,
}
use role_provider_service.Common.Token.RoundTrip.{IsTokenType, build_token-parse_token}
use role_provider_service.Common.Strings.{trim_space}
use role_provider_service.Common.Validate.{validate_member}
use role_provider_service.Store.State.{Entry, MemoryStore, subject}
use role_provider_service.Store.Entries
use role_provider_service.Store.Entries.{key, key_of}
use role_provider_service.Store.Groups.{find_group}
use role_provider_service.Store.History.{add_change}
use role_provider_service.Store.Duality.Pairs.{Normal}
use role_provider_service.Service.State.{Caller, Service, World, record_change, parse_member_token}
use role_provider_service.Service.Membership.{check_add_member, with_member, add_member}
use role_provider_service.Service.Membership.Checks.{check_add_member-ok}
use role_provider_service.Service.Membership.Adding.{mem-add_member}

-- A group's id has no "#".
abbrev pub PlainId : Group → Type 0
PlainId g = ¬ Memᴰ relation_separator g.id

find_group-mem : (id : Text) (gs : List Group) (g : Group) → find_group id gs ≡ some g → Memᴰ g gs
unfolding find_group
find_group-mem id [] g h = absurd (cc)
find_group-mem id (x ∷ gs) g h = ground (arith, find_group-mem id gs g, Memᴰ-cons g x gs)

parse_member_token-IsTokenType :
    (token typ id : Text) → parse_member_token token ≡ ok (typ, id) → IsTokenType typ
unfolding parse_member_token
parse_member_token-IsTokenType token typ id h =
    let (t, i) = parse_token (trim_space token) in
    elim (Bool-cases (is_empty t)) [
      | inl e ↦ absurd (cc (h, e))
      | inr e ↦
          let (_, _, r) = >>=-eq-ok (validate_member t (normalize_id i)) _ (rw e at h) in
          let same : t ≡ typ = ap (λ (x : Text × Text). x.0) (ok-inj r) in
          let given : t ≢ [] = λ z. cc (e, (is_empty_iff t).1 z) in
          subst IsTokenType same (build_token-parse_token (trim_space token) t i refl given).0
    ]

member_group-relation : (id : Text) → (member_group id).1 ≢ []
unfolding member_group normalize_relation
member_group-relation id = ground (arith, is_empty_iff (split_group_relation id).1)

subj_rel-key :
    (group_id relation member_type member_id : Text) (t : Entry)
    → key_of t ≡ key group_id relation member_type member_id
    → t.subj_rel ≡ (if member_type == group_type then member_group member_id else (member_id, [])).1
unfolding subject
subj_rel-key group_id relation member_type member_id t e = ap (λ (k : Entries.Key). k.1.1.1.1) e

-- An entry with the key of a member that was read is in the right shape.
key-Normal :
    (group_id relation member_type member_id : Text) (t : Entry)
    → ¬ Memᴰ relation_separator group_id
    → IsTokenType member_type
    → key_of t ≡ key group_id relation member_type member_id
    → Normal t
unfolding subject
key-Normal group_id relation member_type member_id t plain typed e =
    let same_type : t.subj_type ≡ member_type = ap (λ (k : Entries.Key). k.1.1.0) e in
    record {
      typed = subst IsTokenType (sym same_type) typed;
      group_rel = λ g z.
          let hit = (list_beq_iff member_type group_type).1 (sym same_type ∙ g) in
          let held : t.subj_rel ≡ (member_group member_id).1 =
            rw hit at (subj_rel-key group_id relation member_type member_id t e) in
          member_group-relation member_id (sym held ∙ z);
      plain_id =
          subst (λ i. ¬ Memᴰ relation_separator i) (sym (ap (λ (k : Entries.Key). k.0) e)) plain;
    }

-- If all entries have the shape that the service writes (a known type of subject, a relation for a
-- group as subject, no "#" in the group's id) and no group's id has a "#", then all entries have it after
-- `AddMember`, whatever is asked for and whatever the answer is.
pub add_member-Normal :
    (w : World) (svc : Service) (caller : Caller) (group_token relation member_token : Text)
    (expires_at : Option Time) (s : MemoryStore)
    → All PlainId s.groups
    → All Normal s.tuples
    → All Normal (add_member w svc caller group_token relation member_token expires_at s).0.tuples
unfolding add_member with_member record_change add_change
add_member-Normal w svc caller group_token relation member_token expires_at s plain h =
    elim (Result-cases
      (check_add_member w svc caller group_token relation member_token expires_at s)) [
        | inr (e, q) ↦ rw (q, add_member) h
        | inl (x, q) ↦
            let c =
              check_add_member-ok w svc caller group_token relation member_token expires_at s x q in
            let known =
              All-mem PlainId s.groups plain
                (find_group-mem c.allowed.id s.groups x.0 c.allowed.found) in
            let typed = parse_member_token-IsTokenType member_token x.1.1.0 x.1.1.1 c.member in
            rw (q, add_member)
              (All-of_mem Normal _ (λ t m.
                ⊎_elim (All-mem Normal s.tuples h)
                  (key-Normal x.0.id (normalize_relation x.1.0) x.1.1.0 x.1.1.1 t known typed)
                  (mem-add_member w.now (w.fresh 0) x.0.id x.1.0 x.1.1.0 x.1.1.1 (some svc.local_id)
                    expires_at s t m)))
      ]
