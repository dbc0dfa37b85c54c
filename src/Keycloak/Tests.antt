-- ===== src/Keycloak/Tests.antt =====
-- Runs and instances of the theorems on the mapping.
use role_provider_service.Base.{
  ℕ, ◌≡◌, ◌↔◌, refl, true, none, List, [], ◌∷◌, some, Text, codes, Memᴰ, list_beq, contains, sort,
}
use role_provider_service.Base.Result.{ok}
use role_provider_service.Common.Types.{TuplePair}
use role_provider_service.Common.Token.{normalize_id}
use role_provider_service.Common.Strings.{
  cut, is_space, trim_space, trim_left, trim_right, lower_char,
}
use role_provider_service.Keycloak.Mapping.{Mapping, lookup, descriptions}
use role_provider_service.Keycloak.Mapping.Derive.{
  new_unmapped, derive, derive_loop, read_value, placements, role_of, join_all, join, add_role,
  tuples_of, tuples_in, user_tuple, unknown_scopes, unknown_values, is_mapped, add_unknown,
}
use role_provider_service.Keycloak.Mapping.Derived.{OfPerson, Granted, placed, derive_correct}
use role_provider_service.Keycloak.Source.{User, Users, fetch, new_source}
use role_provider_service.Keycloak.Source.Fetched.{Gives, fetch_correct}

abbrev mapping : Mapping
mapping = record {
  attribute = codes "affiliation";
  all_group = some (record { group = codes "all"; description = [] });
  locations = (codes "dhbw-ma.de", record { group = codes "ma"; description = [] }) ∷ [];
  roles = (codes "student", codes "studierende") ∷ [];
  ignored_scopes = [];
  ignored_values = [];
}

abbrev anna : Text
anna = codes "anna@dhbw.de"

abbrev values : List Text
values = codes "Student@dhbw-ma.de" ∷ codes "member@dhbw-ma.de" ∷ codes "student@elsewhere" ∷ []

-- The role stands, and no plain membership beside it.
derived :
    (derive mapping anna values new_unmapped).0
    ≡ user_tuple anna (codes "ma") (codes "studierende")
      ∷ user_tuple anna (codes "all") (codes "studierende")
      ∷ []
unfolding derive derive_loop read_value lookup placements role_of join_all join add_role tuples_of
    tuples_in unknown_scopes unknown_values is_mapped add_unknown normalize_id cut is_space
    trim_space trim_left trim_right lower_char list_beq contains sort
derived = refl

derive_correct_example :
    Memᴰ
      (user_tuple anna (codes "ma") (codes "studierende"))
      (derive mapping anna values new_unmapped).0
    ↔ (OfPerson anna (user_tuple anna (codes "ma") (codes "studierende"))
        × Granted
            (placed mapping values)
            (user_tuple anna (codes "ma") (codes "studierende")).group_id
            (user_tuple anna (codes "ma") (codes "studierende")).relation)
derive_correct_example =
    derive_correct mapping anna values new_unmapped
      (user_tuple anna (codes "ma") (codes "studierende"))

abbrev account : User
account = record { email = codes "Anna@dhbw.de"; enabled = true; attributes = λ a. values }

abbrev users : Users
users = record { list_users = ok (account ∷ []); find_user_by_email = λ email. ok none }

abbrev no_note : Text → Text → ℕ → Text
no_note kind key n = []

abbrev none_skipped : ℕ → Text
none_skipped n = []

fetch_correct_example :
    let (src', answer) = fetch no_note none_skipped users mapping new_source in
    (ts : List TuplePair) × (log : List Text) × (answer ≡ ok (ts, (descriptions mapping, log)))
    × ((t : TuplePair) → Memᴰ t ts ↔ ((u : User) × Memᴰ u (account ∷ []) × Gives mapping u t))
    × (src'.tried ≡ [])
fetch_correct_example =
    fetch_correct no_note none_skipped users mapping new_source (account ∷ []) refl
