-- ===== src/Keycloak/Source.antt =====
-- internal/keycloak/source.go: the full read of all users, and the read of one whom it did not know.
-- What Keycloak answers is a parameter.
pub mod Fetched
use role_provider_service.Base.{
  ℕ, zero, suc, ◌+◌, ◌-◌, Bool, true, false, not, ◌&&◌, ◌||◌, List, [], ◌∷◌, ◌++◌, Option, none,
  some, Text, ◌==◌, nat_eq, list_eq, if◌then◌else◌, is_empty, contains, ltb,
}
use role_provider_service.Base.Result.{Result, ok, err}
use role_provider_service.Common.Types.{Uuid, Time, TuplePair}
use role_provider_service.Common.Token.{normalize_id}
use role_provider_service.Common.Validate.{validate_email}
use role_provider_service.Store.State.{MemoryStore}
use role_provider_service.Store.Entries.{add_member}
use role_provider_service.Sync.Run.{Delivered}
use role_provider_service.Keycloak.Mapping.{Mapping, lookup, put, descriptions}
use role_provider_service.Keycloak.Mapping.Derive.{
  Unmapped, new_unmapped, add_unknown, notes, derive,
}

pub record User : Type 0 where
  pub email : Text
  pub enabled : Bool
  pub attributes : Text → List Text

pub record Users : Type 0 where
  pub list_users : Result (List User)
  pub find_user_by_email : Text → Result (Option User)

-- What the source keeps; `known` lists the keys of the map.
pub record KeycloakSource : Type 0 where
  pub source_id : Option Uuid
  pub known : List Text
  pub tried : List (Text × Time)

abbrev pub new_source : KeycloakSource
new_source = record { source_id = none; known = []; tried = [] }

unfoldable pub set_source_id : Uuid → KeycloakSource → KeycloakSource
set_source_id id src = record src { source_id = some id }

unfoldable pub is_valid_email : Text → Bool
is_valid_email email = elim (validate_email email) [ ok _ ↦ true | err _ ↦ false ]

-- The loop over the users.
pub record Fetching : Type 0 where
  pub tuples : List TuplePair
  pub unmapped : Unmapped
  pub known : List Text
  pub invalid : ℕ

unfoldable pub fetch_valid : Mapping → Text → User → Fetching → Fetching
unfolding add_unknown
fetch_valid m email u f =
    let (ts, unmapped) = derive m email (u.attributes m.attribute) f.unmapped in
    record {
      tuples = f.tuples ++ ts;
      unmapped = unmapped;
      known = add_unknown email f.known;
      invalid = f.invalid;
    }

-- A disabled account, or one without an address, is left out; one with an odd address is counted.
unfoldable pub fetch_user : Mapping → User → Fetching → Fetching
unfolding fetch_valid is_valid_email
fetch_user m u f =
    let email = normalize_id u.email in
    if is_empty email || not u.enabled
    then f
    else (if is_valid_email email
        then fetch_valid m email u f
        else record f { invalid = suc f.invalid })

unfoldable pub fetch_users : Mapping → List User → Fetching → Fetching
unfolding fetch_user
fetch_users m [] f = f
fetch_users m (u ∷ us) f = fetch_users m us (fetch_user m u f)

abbrev pub nothing_fetched : Fetching
nothing_fetched = record { tuples = []; unmapped = new_unmapped; known = []; invalid = 0 }

-- The formats of the notes are parameters.
unfoldable pub invalid_notes : (skipped : ℕ → Text) → ℕ → List Text
invalid_notes skipped zero = []
invalid_notes skipped (suc n) = skipped (suc n) ∷ []

unfoldable pub fetch :
    (render : Text → Text → ℕ → Text)
    → (skipped : ℕ → Text) → Users
    → Mapping
    → KeycloakSource
    → KeycloakSource × Result Delivered
unfolding fetch_users invalid_notes
fetch render skipped users m src = elim users.list_users [
  | err e ↦ (src, err e)
  | ok us ↦
      let f = fetch_users m us nothing_fetched in
      (
        record src { known = f.known; tried = [] },
        ok (f.tuples, (descriptions m, notes render f.unmapped ++ invalid_notes skipped f.invalid)),
      )
]

-- Ten minutes in nanoseconds, the unit of the times here.
abbrev pub retry_after : ℕ
retry_after = 600000000000

-- An address that was not tried has the zero time, which is long ago.
unfoldable pub tried_lately : Time → Text → KeycloakSource → Bool
unfolding lookup
tried_lately now email src = elim (lookup email src.tried) [
  | none ↦ false
  | some at ↦ ltb (now - at) retry_after
]

-- The store in memory never fails to add a member. The n-th entry gets the n-th new id.
unfoldable pub write_tuples :
    Time → (ℕ → Uuid) → ℕ → Uuid → List TuplePair → MemoryStore → MemoryStore
write_tuples now fresh n source [] s = s
write_tuples now fresh n source (t ∷ ts) s =
    write_tuples now fresh (suc n) source ts (
      add_member now (fresh n) t.group_id t.relation t.member_type t.member_id (some source) none s)

-- Once the address may be looked up for a source.
unfoldable pub look_up :
    Users
    → Mapping
    → Time
    → (ℕ → Uuid)
    → Uuid
    → Text
    → KeycloakSource
    → MemoryStore
    → KeycloakSource × MemoryStore
unfolding write_tuples put
look_up users m now fresh source email src s =
    let src1 : KeycloakSource = record src { tried = put email now src.tried } in
    elim (users.find_user_by_email email) [
      | err _ ↦ (src1, s)
      | ok none ↦ (src1, s)
      | ok (some u) ↦
          if u.enabled
          then (
            record src1 { known = email ∷ src1.known },
            write_tuples now fresh 0 source
                (derive m email (u.attributes m.attribute) new_unmapped).0 s,
          )
          else (src1, s)
    ]

unfoldable pub ensure_user :
    Users
    → Mapping
    → Time
    → (ℕ → Uuid)
    → Text
    → KeycloakSource
    → MemoryStore
    → KeycloakSource × MemoryStore
unfolding is_valid_email tried_lately look_up
ensure_user users m now fresh raw src s =
    let email = normalize_id raw in
    elim src.source_id [
      | none ↦ (src, s)
      | some source ↦
          if not (is_valid_email email) || contains src.known email || tried_lately now email src
          then (src, s)
          else look_up users m now fresh source email src s
    ]
