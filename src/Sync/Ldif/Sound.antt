-- ===== src/Sync/Ldif/Sound.antt =====
-- What `ParseLDIF` delivers.
use role_provider_service.Base.{
  ltb, ap, ◌≡◌, refl, List, [], ◌∷◌, Option, none, some, Text, is_empty, All, All-append,
  Bool-cases, inl, inr, nat_eq, list_eq,
}
use role_provider_service.Base.Result.{Result, ok, guard, other, ◌>>◌, ◌>>=◌, >>=-eq-ok, ok-inj}
use role_provider_service.Common.Types.{TuplePair}
use role_provider_service.Common.Token.{user_type, normalize_id}
use role_provider_service.Common.Validate.{
  validate_group_id, validate_email, validate_tuple, validate_member,
}
use role_provider_service.Sync.Csv.{Imported}
use role_provider_service.Sync.Ldif.{
  Regexp, LdifEntry, extract_via_regexp, add_members, target_of, member_dns, is_skipped, read_entry,
  read_entries, compile_group_relation_regexp, parse_ldif,
}

-- A person's entry in a group, both with accepted ids.
abbrev pub UserTuple : TuplePair → Type 0
UserTuple t = (t.member_type ≡ user_type) × (validate_tuple t ≡ ok tt)

UserTuple-valid :
    (group relation email : Text)
    → validate_group_id group ≡ ok tt
    → validate_email email ≡ ok tt
    → UserTuple (record {
      group_id = group;
      relation = relation;
      member_type = user_type;
      member_id = email;
    })
unfolding validate_tuple validate_member
UserTuple-valid group relation email g e = (refl, rw g e)

add_members-UserTuple :
    (re : Regexp) (group relation : Text) (dns : List Text) (ts out : List TuplePair)
    → validate_group_id group ≡ ok tt
    → All UserTuple ts
    → add_members re group relation dns ts ≡ ok out
    → All UserTuple out
unfolding add_members
add_members-UserTuple re group relation [] ts out g before h = rw (ok-inj h) at before
add_members-UserTuple re group relation (dn ∷ dns) ts out g before h =
    let email = normalize_id (extract_via_regexp re dn) in
    elim (Bool-cases (is_empty email)) [
      | inl nobody ↦ add_members-UserTuple re group relation dns ts out g before (rw nobody at h)
      | inr somebody ↦
          let (tt, valid, later) = >>=-eq-ok (validate_email email) _ (rw somebody at h) in
          add_members-UserTuple re group relation dns _ out g
            (All-append UserTuple ts _ before (UserTuple-valid group relation email g valid, tt))
            later
    ]

read_entry-UserTuple :
    (re : Regexp) (rel_re : Option Regexp) (e : LdifEntry) (before after : Imported)
    → All UserTuple before.0
    → read_entry re rel_re e before ≡ ok after
    → All UserTuple after.0
unfolding read_entry
read_entry-UserTuple re rel_re e (ts, ds) after u h =
    let (group, relation) = target_of rel_re e in
    let (ts', added, last) = >>=-eq-ok _ _ h in
    let (tt, g, members) = >>=-eq-ok (validate_group_id group) _ added in
    rw (ap (λ o. o.0) (ok-inj last)) at
      (add_members-UserTuple re group relation (member_dns e) ts ts' g u members)

read_entries-UserTuple :
    (re : Regexp) (rel_re : Option Regexp) (es : List (Option LdifEntry)) (before after : Imported)
    → All UserTuple before.0
    → read_entries re rel_re es before ≡ ok after
    → All UserTuple after.0
unfolding read_entries
read_entries-UserTuple re rel_re [] before after u h = rw (ok-inj h) at u
read_entries-UserTuple re rel_re (none ∷ es) before after u h =
    read_entries-UserTuple re rel_re es before after u h
read_entries-UserTuple re rel_re (some e ∷ es) before after u h = elim (Bool-cases (is_skipped e)) [
  | inl skipped ↦ read_entries-UserTuple re rel_re es before after u (rw skipped at h)
  | inr group ↦
      let (next, read, later) = >>=-eq-ok (read_entry re rel_re e before) _ (rw group at h) in
      read_entries-UserTuple re rel_re es next after
        (read_entry-UserTuple re rel_re e before next u read) later
]

-- Each tuple of an accepted LDIF file is a person's, with an accepted e-mail address, in a group with an
-- accepted id.
pub parse_ldif-UserTuple :
    (compile : Text → Result Regexp) (unmarshal : Text → Result (List (Option LdifEntry)))
    (text dn_email_regexp group_relation_regexp : Text) (after : Imported)
    → parse_ldif compile unmarshal text dn_email_regexp group_relation_regexp ≡ ok after
    → All UserTuple after.0
unfolding parse_ldif
parse_ldif-UserTuple compile unmarshal text dn_email_regexp group_relation_regexp after h =
    let (re, c, h1) = >>=-eq-ok (compile dn_email_regexp) _ h in
    let (rel_re, r, h2) =
      >>=-eq-ok
        (guard (ltb 0 re.num_subexp) other
          >> compile_group_relation_regexp compile group_relation_regexp)
        (λ rel_re. unmarshal text >>= λ entries. read_entries re rel_re entries ([], [])) h1 in
    let (entries, u, read) = >>=-eq-ok (unmarshal text) _ h2 in
    read_entries-UserTuple re rel_re entries ([], []) after tt read
