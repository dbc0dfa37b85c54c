-- ===== src/Common/Tests.antt =====
-- Runs and instances of the theorems on ids, tokens, globs and relations.
use role_provider_service.Base.{
  ◌≡◌, ◌≢◌, ◌↔◌, ◌⊎◌, refl, Bool, true, false, List, [], ◌∷◌, ◌++◌, Memᴰ, All, Text, codes, length,
  ◌<◌, ◌≤◌, list_beq, contains, all, map,
}
use role_provider_service.Base.Result.{other, ok, err, invalid_id}
use role_provider_service.Common.Strings.{lower_char, is_space, trim_space, cut}
use role_provider_service.Common.Quote.{quote}
use role_provider_service.Common.Token.{
  relation_separator, normalize_id, join_group_relation, member_group, relation_member,
}
use role_provider_service.Common.Token.RoundTrip.{Says, Stored, member_group-join}
use role_provider_service.Common.Glob.{match_glob, match_email_pattern}
use role_provider_service.Common.Glob.Meaning.{Globs, match_glob_iff}
use role_provider_service.Common.Relations.{Relations, new_relations, relation_name, check}
use role_provider_service.Common.Relations.Laws.{AsksFor, Configured, Joinable, check-new_relations}
use role_provider_service.Common.Validate.{
  validate_group_id, validate_pattern, validate_email, domain_re, validate_member,
}
use role_provider_service.Common.Validate.GroupId.{Safe, validate_group_id-Safe}
use role_provider_service.Common.Validate.Pattern.{InDomain, validate_pattern_means}

normalized : normalize_id (codes "  Leiter-ZWR ") ≡ codes "leiter-zwr"
unfolding normalize_id lower_char
normalized = refl

member_group-join_example :
    let (group, relation) = member_group (codes "wwi#dozent") in
    let stored = join_group_relation group relation in
    (¬ Memᴰ relation_separator group)
    × Says (codes "wwi#dozent") group relation
    × Stored group relation stored
    × (member_group stored ≡ (group, relation))
member_group-join_example = member_group-join (codes "wwi#dozent")

quoted : quote (codes "a\"b") ≡ codes "\"a\\\"b\""
unfolding quote
quoted = refl

globs_run :
    ◌≡◌ {A = List Bool}
      (map
        (match_glob (codes "*@dhbw.de"))
        (codes " Anna@DHBW.de" ∷ codes "anna@dhbw.de.evil" ∷ codes "" ∷ []))
      (true ∷ false ∷ false ∷ [])
unfolding match_glob trim_space lower_char
globs_run = refl

match_glob_iff_example : (match_glob (codes "a*") (codes "AB") ≡ true) ↔ (
    (normalize_id (codes "a*") ≢ [])
    × (normalize_id (codes "AB") ≢ [])
    × Globs (normalize_id (codes "a*")) (normalize_id (codes "AB")))
match_glob_iff_example = match_glob_iff (codes "a*") (codes "AB")

abbrev course_relations : Relations
course_relations = record { allowed = codes "dozent" ∷ relation_member ∷ [] }

made : new_relations (codes " dozent " ∷ codes "" ∷ codes "member" ∷ []) ≡ ok course_relations
unfolding new_relations trim_space is_space list_beq contains all relation_name
made = refl

check-new_relations_example :
    ((check course_relations (codes " dozent") ≡ ok (codes "dozent")) ↔ (
      AsksFor (codes " dozent") (codes "dozent")
      × Configured (codes " dozent " ∷ codes "" ∷ codes "member" ∷ []) (codes "dozent")))
    × (check course_relations (codes " dozent") ≡ ok (codes "dozent")
        → (codes "dozent" ≢ [])
          × All Joinable (codes "dozent")
          × (check course_relations (codes "dozent") ≡ ok (codes "dozent")))
check-new_relations_example =
    check-new_relations (codes " dozent " ∷ codes "" ∷ codes "member" ∷ []) course_relations
      (codes " dozent") (codes "dozent") made

relations_checked :
    (check course_relations (codes " dozent") ≡ ok (codes "dozent"))
    × (check course_relations (codes "tutor") ≡ err other)
unfolding check trim_space is_space list_beq contains
relations_checked = (refl, refl)

validate_group_id-Safe_example :
    (normalize_id (codes "wwi23-seb") ≡ codes "wwi23-seb")
    × All Safe (codes "wwi23-seb")
    × (0 < length (codes "wwi23-seb"))
    × (length (codes "wwi23-seb") ≤ 128)
unfolding validate_group_id
validate_group_id-Safe_example = validate_group_id-Safe (codes "wwi23-seb") refl

members_checked :
    (validate_member (codes "group") (codes "wwi#dozent") ≡ ok tt)
    × (validate_member (codes "group") (codes "wwi#Dozent") ≡ err invalid_id)
    × (validate_member (codes "user") (codes "anna@dhbw.de") ≡ ok tt)
    × (validate_member (codes "user") (codes "anna@-dhbw.de") ≡ err invalid_id)
    × (validate_member (codes "pattern") (codes "*") ≡ err invalid_id)
    × (validate_member (codes "role") (codes "wwi") ≡ err invalid_id)
unfolding validate_member list_beq cut
members_checked = (refl, refl, refl, refl, refl, refl)

validate_pattern_means_example :
    ((d : Text) × (codes "*@dhbw.de" ≡ codes "*@" ++ d)
      × (domain_re d ≡ true)
      × ((email : Text)
          → (match_email_pattern (codes "*@dhbw.de") email ≡ true)
            ↔ InDomain d (normalize_id email)))
    ⊎ (validate_email (codes "*@dhbw.de") ≡ ok tt)
      × ((email : Text)
          → (match_email_pattern (codes "*@dhbw.de") email ≡ true)
            ↔ (normalize_id email ≡ codes "*@dhbw.de"))
unfolding validate_pattern
validate_pattern_means_example = validate_pattern_means (codes "*@dhbw.de") refl
