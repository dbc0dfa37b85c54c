-- ===== src/Service/Reading.antt =====
-- internal/groupmgmt/service.go: what a caller reads of the groups. Groups are read from the store, as
-- in a service without a cache.
use role_provider_service.Base.{
  ℕ, Bool, not, ◌&&◌, ◌||◌, List, [], Option, none, some, Text, nat_eq, list_eq, if◌then◌else◌,
  is_empty, map, filter, contains,
}
use role_provider_service.Base.Result.{
  Result, ok, err, ◌>>=◌, ◌>>◌, guard, or_fail, other, forbidden,
}
use role_provider_service.Common.Types.{Uuid, Time, Group, Membership, Manager, Change}
use role_provider_service.Common.Token.{user_prefix, normalize_id, relation_separator}
use role_provider_service.Common.Strings.{trim_space, has_prefix}
use role_provider_service.Store.State.{MemoryStore}
use role_provider_service.Store.Listing
use role_provider_service.Store.Groups
use role_provider_service.Store.Managers
use role_provider_service.Store.Members
use role_provider_service.Store.Tokens
use role_provider_service.Store.History
use role_provider_service.Service.State.{Caller, Service, check_relation, parse_group_token}
use role_provider_service.Service.Access.{get_known_group, is_local, readable_group}
use role_provider_service.Service.Catalog.{with_source_name}

unfoldable pub get_group : Text → MemoryStore → Result Group
get_group token s =
    parse_group_token token >>= λ id. get_known_group id s >>= λ g. ok (with_source_name s g)

-- `parse` is `uuid.Parse`.
unfoldable pub list_groups :
    (parse : Text → Option Uuid) → Text → Text → ℕ → MemoryStore → Result (List Group)
list_groups parse query source_id limit s =
    if is_empty source_id
    then ok (map (with_source_name s) (Groups.list_groups query none limit s))
    else or_fail (parse source_id) other >>= λ id.
        ok (map (with_source_name s) (Groups.list_groups query (some id) limit s))

unfoldable pub managed_groups : Service → Caller → Text → MemoryStore → List Group
managed_groups svc caller query s =
    let managed = Managers.managed_groups caller.tokens s in
    let candidates = map (with_source_name s) (Groups.list_groups query (some svc.local_id) 0 s) in
    if not caller.admin && is_empty managed
    then []
    else filter
        (λ g.
          not (contains g.id relation_separator)
          && is_local svc g
          && (caller.admin || contains managed g.id))
        candidates

unfoldable pub get_all_members :
    Time → Service → Text → Text → Bool → MemoryStore → Result (List Text)
get_all_members now svc group_token relation recursive s = parse_group_token group_token >>= λ id.
    check_relation svc relation >>= λ rel.
    if recursive
    then or_fail (Members.get_all_members now id rel s) other
    else ok (Listing.get_direct_members now id rel s)

pub record GroupDetail : Type 0 where
  pub group : Group
  pub memberships : List Membership
  pub managers : List Manager
  pub editable : Bool
  pub may_delete : Bool

unfoldable pub detail : Time → Service → Caller → Text → MemoryStore → Result GroupDetail
detail now svc caller token s = readable_group svc caller token s >>= λ g. ok (record {
  group = with_source_name s g;
  memberships = Listing.list_memberships now g.id s;
  managers = Managers.list_managers g.id s;
  editable = is_local svc g;
  may_delete = caller.admin && is_local svc g;
})

-- The search of the members always answers: see Store/Members.
unfoldable pub effective_members : Time → Service → Caller → Text → MemoryStore → Result (List Text)
effective_members now svc caller token s = readable_group svc caller token s >>= λ g.
    or_fail (Members.get_all_members now g.id [] s) other >>= λ members.
    ok (filter (has_prefix user_prefix) members)

unfoldable pub history : Service → Caller → Text → ℕ → MemoryStore → Result (List Change)
history svc caller token limit s =
    readable_group svc caller token s >>= λ g. ok (History.list_changes g.id limit s)

pub record Principals : Type 0 where
  pub groups : List Group
  pub users : List Text

unfoldable pub search_principals : Time → Caller → Text → ℕ → MemoryStore → Result Principals
search_principals now caller query limit s =
    guard (caller.admin || not (is_empty (Managers.managed_groups caller.tokens s))) forbidden
    >> ok (record {
      groups = map (with_source_name s) (Groups.list_groups query none limit s);
      users = (if is_empty (trim_space query) then [] else Listing.search_users now query limit s);
    })

-- `lookup` is the function that runs before a person's tokens are resolved, if one is set; it may
-- change the store.
unfoldable pub get_user_tokens :
    Time
    → (lookup : Option (Text → MemoryStore → MemoryStore)) → Text
    → MemoryStore
    → MemoryStore × Result (List Text)
get_user_tokens now lookup email s =
    let id = normalize_id email in
    let s1 : MemoryStore = elim lookup [ some run ↦ run id s | none ↦ s ] in
    if is_empty id then (s, err other) else (s1, or_fail (Tokens.get_user_tokens now id s1) other)
