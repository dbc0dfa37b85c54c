-- ===== src/Sync/Ldif.antt =====
-- internal/sync/ldif_importer.go: `ParseLDIF` over the entries that the LDIF library reads. A regular
-- expression that a source configures is compiled by a function that is a parameter.
pub mod Sound
use role_provider_service.Base.{
  ℕ, Bool, true, false, not, ◌&&◌, ◌||◌, List, [], ◌∷◌, ◌++◌, Option, none, some, Text, codes, ◌==◌,
  nat_eq, list_eq, if◌then◌else◌, is_empty, any, drop, ltb, nat_beq,
}
use role_provider_service.Base.Result.{Result, ok, err, ◌>>=◌, ◌>>◌, guard, other}
use role_provider_service.Common.Types.{TuplePair}
use role_provider_service.Common.Token.{group_prefix, user_type, normalize_id, relation_member}
use role_provider_service.Common.Strings.{trim_space, trim_prefix, to_lower, has_prefix}
use role_provider_service.Common.Validate.{validate_group_id, validate_email}
use role_provider_service.Store.Import.{Descriptions}
use role_provider_service.Sync.Checks.{put_description}
use role_provider_service.Sync.Csv.{Imported, nth_cell, is_present}

-- A compiled expression: its captures on a text (the whole match first), how many groups it has, and
-- where a named one stands.
pub record Regexp : Type 0 where
  pub find_submatch : Text → Option (List Text)
  pub num_subexp : ℕ
  pub subexp_index : Text → Option ℕ

-- An entry of the LDIF library: its DN, and the values of an attribute.
pub record LdifEntry : Type 0 where
  pub dn : Text
  pub attribute_values : Text → List Text

unfoldable pub submatch : Regexp → Option ℕ → List Text → Text
unfolding nth_cell
submatch re none m = []
submatch re (some i) m = nth_cell m i

unfoldable pub split_by_relation_regexp : Option Regexp → Text → Text × Text
unfolding submatch
split_by_relation_regexp none cn = (cn, relation_member)
split_by_relation_regexp (some re) cn = elim (re.find_submatch cn) [
  | none ↦ (cn, relation_member)
  | some m ↦
      let group = submatch re (re.subexp_index (codes "group")) m in
      let relation = submatch re (re.subexp_index (codes "relation")) m in
      if is_empty group || is_empty relation then (cn, relation_member) else (group, relation)
]

unfoldable pub first_value : List Text → Text
first_value [] = []
first_value (v ∷ vs) = v

unfoldable pub is_group_object_class : List Text → Bool
is_group_object_class classes =
    any
      (λ c.
        let cls = to_lower c in
        (cls == codes "groupofnames")
        || (cls == codes "groupofuniquenames")
        || (cls == codes "posixgroup")
        || (cls == codes "group"))
      classes

unfoldable pub until_comma : Text → Text
until_comma [] = []
until_comma (c ∷ s) = let rest = until_comma s in if nat_beq c b',' then [] else c ∷ rest

-- The leftmost match of `(?i)cn=([^,]+)`.
unfoldable pub extract_cn : Text → Text
unfolding until_comma
extract_cn [] = []
extract_cn (c ∷ s) =
    let rest = extract_cn s in
    let value = until_comma (drop 3 (c ∷ s)) in
    if has_prefix (codes "cn=") (to_lower (c ∷ s)) && not (is_empty value) then value else rest

unfoldable pub extract_via_regexp : Regexp → Text → Text
extract_via_regexp re dn = elim (re.find_submatch dn) [
  | none ↦ []
  | some [] ↦ []
  | some (_ ∷ []) ↦ []
  | some (_ ∷ m ∷ _) ↦ trim_space m
]

-- The loop over an entry's member DNs.
unfoldable pub add_members :
    Regexp → Text → Text → List Text → List TuplePair → Result (List TuplePair)
add_members re group relation [] ts = ok ts
add_members re group relation (dn ∷ dns) ts =
    let email = normalize_id (extract_via_regexp re dn) in
    let skip = add_members re group relation dns ts in
    let t : TuplePair = record {
      group_id = group;
      relation = relation;
      member_type = user_type;
      member_id = email;
    } in
    let add = add_members re group relation dns (ts ++ t ∷ []) in
    if is_empty email then skip else (validate_email email >> add)

unfoldable pub describe_entry : LdifEntry → Text → Text → Descriptions → Descriptions
unfolding first_value
describe_entry e group relation ds =
    let desc = trim_space (first_value (e.attribute_values (codes "description"))) in
    if not (is_empty desc) && (relation == relation_member)
    then put_description group desc ds
    else ds

-- The entry's group and the relation that its members hold there.
unfoldable pub target_of : Option Regexp → LdifEntry → Text × Text
target_of rel_re e =
    let (group, relation) =
      split_by_relation_regexp rel_re (trim_prefix group_prefix (extract_cn e.dn)) in
    (normalize_id group, relation)

unfoldable pub member_dns : LdifEntry → List Text
member_dns e = e.attribute_values (codes "member") ++ e.attribute_values (codes "uniqueMember")

-- An entry that is no group, or has no name, is skipped.
unfoldable pub is_skipped : LdifEntry → Bool
unfolding is_group_object_class extract_cn
is_skipped e =
    not (is_group_object_class (e.attribute_values (codes "objectClass")))
    || is_empty (extract_cn e.dn)

unfoldable pub read_entry : Regexp → Option Regexp → LdifEntry → Imported → Result Imported
read_entry re rel_re e (ts, ds) =
    let (group, relation) = target_of rel_re e in
    validate_group_id group >> add_members re group relation (member_dns e) ts >>= λ ts'.
    ok (ts', describe_entry e group relation ds)

unfoldable pub read_entries :
    Regexp → Option Regexp → List (Option LdifEntry) → Imported → Result Imported
read_entries re rel_re [] done = ok done
read_entries re rel_re (none ∷ es) done = read_entries re rel_re es done
read_entries re rel_re (some e ∷ es) done =
    let skip = read_entries re rel_re es done in
    let read = read_entry re rel_re e done >>= λ next. read_entries re rel_re es next in
    if is_skipped e then skip else read

module _ (compile : Text → Result Regexp) where
  unfoldable pub compile_group_relation_regexp : Text → Result (Option Regexp)
  unfolding is_present
  compile_group_relation_regexp [] = ok none
  compile_group_relation_regexp (c ∷ expr) = compile (c ∷ expr) >>= λ re.
      guard
        (is_present (re.subexp_index (codes "group"))
          && is_present (re.subexp_index (codes "relation")))
        other
      >> ok (some re)

  -- `unmarshal` is what the LDIF library reads from the text.
  unfoldable pub parse_ldif :
      (unmarshal : Text → Result (List (Option LdifEntry))) → Text → Text → Text → Result Imported
  unfolding compile_group_relation_regexp read_entries
  parse_ldif unmarshal text dn_email_regexp group_relation_regexp =
      compile dn_email_regexp >>= λ re.
      guard (ltb 0 re.num_subexp) other
      >> compile_group_relation_regexp group_relation_regexp
      >>= λ rel_re. unmarshal text >>= λ entries. read_entries re rel_re entries ([], [])
