-- ===== src/Web/Groups.antt =====
-- internal/webserver/api_groups.go and api_users.go: the routes of the API tokens on groups and people.
use role_provider_service.Base.{
  ℕ, not, ℤ, pos, negsuc, atoi, List, [], ◌∷◌, Option, none, some, Text, codes, ◌==◌, nat_eq,
  list_eq, if◌then◌else◌, is_empty, ltb, ◌||◌,
}
use role_provider_service.Base.Result.{ok}
use role_provider_service.Common.Types.{Uuid, Time, Group}
use role_provider_service.Common.Strings.{trim_space}
use role_provider_service.Common.Relations.{list}
use role_provider_service.Store.State.{MemoryStore}
use role_provider_service.Store.Listing
use role_provider_service.Service.State.{Service, World, api_token_caller}
use role_provider_service.Service.Catalog
use role_provider_service.Service.Membership
use role_provider_service.Service.Reading
use role_provider_service.Web.Reply.{Answered, refuse, respond, Body, bind_json}

-- `created` and the like are the statuses of `net/http`.
abbrev pub status_ok : ℕ
status_ok = 200

abbrev pub status_created : ℕ
status_created = 201

abbrev pub status_no_content : ℕ
status_no_content = 204

unfoldable pub list_relations : Service → MemoryStore → Answered (List Text)
list_relations svc s = respond status_ok (s, ok (list svc.relations))

-- A positive number of the request, or what counts without one.
unfoldable pub positive_or : ℕ → Option ℤ → ℕ
positive_or default (some (pos n)) = if ltb 0 n then n else default
positive_or default _ = default

-- The limit of a listing: at most the configured one.
unfoldable pub list_limit : ℕ → Text → ℕ
unfolding positive_or
list_limit max_limit raw =
    let limit = if is_empty raw then max_limit else positive_or max_limit (atoi raw) in
    if ltb max_limit limit then max_limit else limit

unfoldable pub list_groups :
    (parse : Text → Option Uuid) → ℕ → Text → Text → Text → MemoryStore → Answered (List Group)
unfolding list_limit
list_groups parse max_limit query source limit s =
    respond status_ok (s, Reading.list_groups parse query source (list_limit max_limit limit) s)

pub record CreateGroupRequest : Type 0 where
  pub id : Text
  pub display_name : Text
  pub description : Text
  pub managers : List Text

-- A body without the required id is malformed to the decoder.
unfoldable pub create_group :
    World → Service → Body CreateGroupRequest → MemoryStore → Answered Group
create_group w svc body s = bind_json body s λ req. respond status_created (
    Catalog.create_group w svc api_token_caller req.id req.display_name req.description req.managers
      s)

unfoldable pub get_group : Text → MemoryStore → Answered Group
get_group token s = respond status_ok (s, Reading.get_group token s)

pub record UpdateGroupRequest : Type 0 where
  pub display_name : Text
  pub description : Text

unfoldable pub update_group :
    World → Service → Text → Body UpdateGroupRequest → MemoryStore → Answered Group
update_group w svc token body s = bind_json body s λ req.
    respond status_ok
      (Catalog.update_group w svc api_token_caller token req.display_name req.description s)

unfoldable pub delete_group : World → Service → Text → MemoryStore → Answered (Unit {0})
delete_group w svc token s =
    respond status_no_content (Catalog.delete_group w svc api_token_caller token s)

unfoldable pub list_members :
    Time → Service → Text → Text → Text → MemoryStore → Answered (List Text)
list_members now svc token relation recursive s =
    respond status_ok
      (s, Reading.get_all_members now svc token relation (not (recursive == codes "false")) s)

pub record AddMemberRequest : Type 0 where
  pub member : Text
  pub relation : Text
  pub expires_at : Option Time

unfoldable pub add_member :
    World → Service → Text → Body AddMemberRequest → MemoryStore → Answered (Unit {0})
add_member w svc token body s = bind_json body s λ req.
    respond status_no_content
      (Membership.add_member w svc api_token_caller token req.relation req.member req.expires_at s)

-- Gin puts a slash before a wildcard's value.
unfoldable pub without_slash : Text → Text
without_slash [] = []
without_slash (c ∷ s) = if c == b'/' then s else c ∷ s

unfoldable pub remove_member :
    World → Service → Text → Text → Text → MemoryStore → Answered (Unit {0})
unfolding without_slash
remove_member w svc token relation member s =
    respond status_no_content
      (Membership.remove_member w svc api_token_caller token relation (without_slash member) s)

-- `none` is a limit that is refused. An absent limit is the configured one.
unfoldable pub search_limit : ℕ → Option Text → Option ℕ
search_limit max_limit none = some max_limit
search_limit max_limit (some raw) = elim (atoi raw) [
  | none ↦ none
  | some (negsuc _) ↦ none
  | some (pos n) ↦ some (if (n == 0) || ltb max_limit n then max_limit else n)
]

unfoldable pub search_users : Time → ℕ → Text → Option Text → MemoryStore → Answered (List Text)
unfolding search_limit
search_users now max_limit query limit s = elim (search_limit max_limit limit) [
  | none ↦ (s, refuse 400)
  | some n ↦ respond status_ok (s, ok (Listing.search_users now query n s))
]

unfoldable pub get_user_tokens :
    Time
    → (lookup : Option (Text → MemoryStore → MemoryStore)) → Text
    → MemoryStore
    → Answered (List Text)
get_user_tokens now lookup email s =
    let id = trim_space email in
    if is_empty id
    then (s, refuse 400)
    else respond status_ok (Reading.get_user_tokens now lookup id s)
