-- ===== src/Common/Token.antt =====
-- internal/common/types.go: normalized ids, tokens, and a group with one of its relations.
pub mod Normal
pub mod RoundTrip
use role_provider_service.Base.{
  ℕ, Bool, ◌||◌, Option, none, some, List, [], ◌∷◌, ◌++◌, if◌then◌else◌, ◌==◌, nat_eq, list_eq,
  list_beq, is_empty, Text, codes,
}
use role_provider_service.Common.Strings.{to_lower, trim_space, cut_prefix, cut}

abbrev pub group_prefix : Text
group_prefix = codes "group:"

abbrev pub user_prefix : Text
user_prefix = codes "user:"

abbrev pub pattern_prefix : Text
pattern_prefix = codes "pattern:"

abbrev pub relation_member : Text
relation_member = codes "member"

abbrev pub relation_separator : ℕ
relation_separator = b'#'

abbrev pub group_type : Text
group_type = codes "group"

abbrev pub user_type : Text
user_type = codes "user"

abbrev pub pattern_type : Text
pattern_type = codes "pattern"

unfoldable pub normalize_id : Text → Text
unfolding trim_space
normalize_id id = to_lower (trim_space id)

-- An invalid format gives two empty texts.
unfoldable pub parse_token : Text → Text × Text
unfolding cut_prefix
parse_token token = elim (cut_prefix group_prefix token) [
  | some after ↦ (group_type, after)
  | none ↦ elim (cut_prefix user_prefix token) [
    | some after ↦ (user_type, after)
    | none ↦ elim (cut_prefix pattern_prefix token) [
      | some after ↦ (pattern_type, after)
      | none ↦ ([], [])
    ]
  ]
]

unfoldable pub build_token : Text → Text → Text
build_token typ id = typ ++ (b':' ∷ id)

unfoldable pub split_group_relation : Text → Text × Text
unfolding cut
split_group_relation id = elim (cut relation_separator id) [
  | some (g, rel) ↦ (g, rel)
  | none ↦ (id, relation_member)
]

unfoldable pub join_group_relation : Text → Text → Text
unfolding list_beq
join_group_relation group relation =
    if is_empty relation || (relation == relation_member)
    then group
    else group ++ (relation_separator ∷ relation)

unfoldable pub normalize_relation : Text → Text
normalize_relation relation = if is_empty relation then relation_member else relation

unfoldable pub member_group : Text → Text × Text
unfolding split_group_relation normalize_relation
member_group id =
    let (group, relation) = split_group_relation id in (group, normalize_relation relation)

unfoldable pub group_token : Text → Text → Text
unfolding join_group_relation
group_token group_id relation = group_prefix ++ join_group_relation group_id relation
