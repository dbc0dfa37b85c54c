-- ===== src/Common/Validate.antt =====
-- internal/common/validate.go: the shapes of ids. Each regular expression is written as a test on
-- the code points. All the functions take ids that are normalized.
pub mod GroupId
pub mod Pattern
use role_provider_service.Base.{
  ℕ, Bool, true, false, not, ◌&&◌, ◌||◌, ◌++◌, Option, none, some, List, [], ◌∷◌, if◌then◌else◌,
  ◌==◌, nat_eq, list_eq, Text, is_empty, leb, nat_beq, length, all, contains, codes, list_beq,
}
use role_provider_service.Base.Result.{Result, ok, err, Error, invalid_id, ◌>>◌, guard}
use role_provider_service.Common.Types.{TuplePair}
use role_provider_service.Common.Strings.{cut, split, pieces, cut_prefix}
use role_provider_service.Common.Token.{group_type, user_type, pattern_type, relation_separator}
use role_provider_service.Common.Relations.{is_lower, is_digit, relation_name}
use role_provider_service.Common.Glob.{star}

abbrev is_alnum : ℕ → Bool
is_alnum c = is_lower c || is_digit c

group_id_char : ℕ → Bool
group_id_char c = is_alnum c || nat_beq c b'.' || nat_beq c b'_' || nat_beq c b'-'

-- `^[a-z0-9][a-z0-9._-]{0,127}$`
unfoldable pub group_id_re : Text → Bool
unfolding all group_id_char
group_id_re [] = false
group_id_re (c ∷ s) = is_alnum c && all group_id_char s && leb (length s) 127

unfoldable pub validate_group_id : Text → Result (Unit {0})
unfolding group_id_re
validate_group_id id = if group_id_re id then ok tt else err invalid_id

atext : ℕ → Bool
atext c = is_alnum c || contains (codes "!#$%&'*+/=?^_`{|}~-") c

-- `[a-z0-9!#$%&'*+/=?^_`{|}~-]+`
atom : Text → Bool
unfolding all atext contains
atom s = not (is_empty s) && all atext s

ends_alnum : Text → Bool
ends_alnum [] = false
ends_alnum (c ∷ []) = is_alnum c
ends_alnum (_ ∷ c ∷ s) = ends_alnum (c ∷ s)

starts_alnum : Text → Bool
starts_alnum [] = false
starts_alnum (c ∷ _) = is_alnum c

ldh : ℕ → Bool
ldh c = is_alnum c || nat_beq c b'-'

-- `[a-z0-9]([a-z0-9-]{0,61}[a-z0-9])?`
label : Text → Bool
unfolding all ldh ends_alnum starts_alnum
label s = starts_alnum s && all ldh s && ends_alnum s && leb (length s) 63

-- A domain of labels between dots.
unfoldable pub domain_re : Text → Bool
unfolding all label split
domain_re s = all label (pieces b'.' s)

-- Neither the local part nor the domain can hold an "@", so the expression splits at the first one.
unfoldable pub email_re : Text → Bool
unfolding all atom split cut domain_re
email_re s = elim (cut b'@' s) [
  | none ↦ false
  | some (l, d) ↦ all atom (pieces b'.' l) && domain_re d
]

abbrev max_email_length : ℕ
max_email_length = 254

unfoldable pub validate_email : Text → Result (Unit {0})
unfolding email_re
validate_email email =
    if not (leb (length email) max_email_length) || not (email_re email)
    then err invalid_id
    else ok tt

reserved_char : ℕ → Bool
unfolding group_id_char
reserved_char c = group_id_char c || nat_beq c star

-- `^[a-z0-9*][a-z0-9._*-]{0,127}$`
reserved_name_re : Text → Bool
unfolding all reserved_char
reserved_name_re [] = false
reserved_name_re (c ∷ s) =
    (is_alnum c || nat_beq c star) && all reserved_char s && leb (length s) 127

-- What `strings.Trim` cuts off.
separator_char : ℕ → Bool
separator_char c = nat_beq c star || nat_beq c b'.' || nat_beq c b'-' || nat_beq c b'_'

unfoldable pub validate_reserved_name : Text → Result (Unit {0})
unfolding reserved_name_re separator_char all
validate_reserved_name glob =
    if not (reserved_name_re glob) || all separator_char glob then err invalid_id else ok tt

is_ok : Result (Unit {0}) → Bool
is_ok (ok _) = true
is_ok (err _) = false

unfoldable pub validate_pattern : Text → Result (Unit {0})
unfolding cut_prefix domain_re contains is_ok validate_email
validate_pattern pattern = elim (cut_prefix (codes "*@") pattern) [
  | some domain ↦ if domain_re domain then ok tt else err invalid_id
  | none ↦
      if not (contains pattern star) && is_ok (validate_email pattern)
      then ok tt
      else err invalid_id
]

-- `strings.Cut` gives the whole id as the group when there is no "#".
unfoldable pub validate_member : Text → Text → Result (Unit {0})
unfolding list_beq cut validate_email validate_group_id relation_name validate_pattern
validate_member member_type id =
    if member_type == user_type
    then validate_email id
    else (if member_type == group_type
        then elim (cut relation_separator id) [
          | none ↦ validate_group_id id
          | some (group, relation) ↦ do
            validate_group_id group
            guard (relation_name relation) invalid_id
        ]
        else (if member_type == pattern_type then validate_pattern id else err invalid_id))

unfoldable pub validate_tuple : TuplePair → Result (Unit {0})
unfolding validate_group_id validate_member
validate_tuple t = validate_group_id t.group_id >> validate_member t.member_type t.member_id
