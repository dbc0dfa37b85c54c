-- ===== src/Web/Manage.antt =====
-- internal/webserver/api_manage.go: the routes of the people who maintain groups. The caller is the one
-- that `personAuthMiddleware` found.
use role_provider_service.Base.{
  ℕ, Bool, not, ℤ, pos, atoi, List, [], Option, some, Text, if◌then◌else◌, is_empty, ltb, leb, ◌&&◌,
  ◌||◌,
}
use role_provider_service.Base.Result.{ok}
use role_provider_service.Common.Types.{Time, Group, Change}
use role_provider_service.Common.Relations.{list}
use role_provider_service.Store.State.{MemoryStore}
use role_provider_service.Service.State.{Caller, Service, World}
use role_provider_service.Service.Catalog
use role_provider_service.Service.Membership
use role_provider_service.Service.Managing
use role_provider_service.Service.Reading
use role_provider_service.Service.Reading.{GroupDetail, Principals}
use role_provider_service.Service.Browse
use role_provider_service.Service.Browse.{GroupPage, BrowseQuery, SourceSummary}
use role_provider_service.Web.Reply.{Answered, respond, Body, bind_json}
use role_provider_service.Web.Groups.{
  status_ok, status_created, status_no_content, CreateGroupRequest, UpdateGroupRequest,
  AddMemberRequest,
}

pub record ManageMeResponse : Type 0 where
  pub actor : Text
  pub acting_as : Text
  pub may_act_as : Bool
  pub admin : Bool
  pub manages_any : Bool
  pub relations : List Text
  pub source_name : Text

unfoldable pub manage_me : Service → Caller → Bool → Text → MemoryStore → Answered ManageMeResponse
manage_me svc caller may_act_as source_name s = respond status_ok (
  s,
  ok (record {
    actor = caller.actor;
    acting_as = caller.on_behalf_of;
    may_act_as = may_act_as;
    admin = caller.admin;
    manages_any = caller.admin || not (is_empty (Reading.managed_groups svc caller [] s));
    relations = list svc.relations;
    source_name = source_name;
  }),
)

-- A number of the request that is positive and at most `most`, or what counts without one.
unfoldable pub number_within : ℕ → ℕ → Option ℤ → ℕ
number_within most default (some (pos n)) = if ltb 0 n && leb n most then n else default
number_within most default _ = default

-- A number below the maximum, which also counts without one.
unfoldable pub principals_limit : ℕ → Text → ℕ
principals_limit max_limit raw = elim (atoi raw) [
  | some (pos n) ↦ if ltb 0 n && ltb n max_limit then n else max_limit
  | _ ↦ max_limit
]

unfoldable pub manage_search_principals :
    Time → Caller → ℕ → Text → Text → MemoryStore → Answered Principals
unfolding principals_limit
manage_search_principals now caller max_limit query limit s =
    respond status_ok
      (s, Reading.search_principals now caller query (principals_limit max_limit limit) s)

-- The parameters of a request for groups to browse.
pub record BrowseParams : Type 0 where
  pub q : Text
  pub source : Text
  pub parent : Text
  pub path_to : Text
  pub limit : Text
  pub offset : Text

unfoldable pub offset_of : Option ℤ → ℤ
offset_of (some (pos n)) = pos n
offset_of _ = pos 0

unfoldable pub browse_query : BrowseParams → BrowseQuery
unfolding number_within offset_of
browse_query p = record {
  query = p.q;
  source = p.source;
  parent = p.parent;
  path_to = p.path_to;
  limit = pos (number_within 1000 200 (atoi p.limit));
  offset = offset_of (atoi p.offset);
}

unfoldable pub manage_list_groups :
    Time → Service → Caller → BrowseParams → MemoryStore → Answered GroupPage
unfolding browse_query
manage_list_groups now svc caller p s =
    respond status_ok (s, Browse.browse now svc caller (browse_query p) s)

unfoldable pub manage_list_sources : Service → Caller → MemoryStore → Answered (List SourceSummary)
manage_list_sources svc caller s = respond status_ok (s, Browse.sources svc caller s)

unfoldable pub manage_create_group :
    World → Service → Caller → Body CreateGroupRequest → MemoryStore → Answered Group
manage_create_group w svc caller body s = bind_json body s λ req.
    respond status_created
      (Catalog.create_group w svc caller req.id req.display_name req.description req.managers s)

unfoldable pub manage_get_group :
    Time → Service → Caller → Text → MemoryStore → Answered GroupDetail
manage_get_group now svc caller group s =
    respond status_ok (s, Reading.detail now svc caller group s)

unfoldable pub manage_update_group :
    World → Service → Caller → Text → Body UpdateGroupRequest → MemoryStore → Answered Group
manage_update_group w svc caller group body s = bind_json body s λ req.
    respond status_ok (Catalog.update_group w svc caller group req.display_name req.description s)

unfoldable pub manage_delete_group :
    World → Service → Caller → Text → MemoryStore → Answered (Unit {0})
manage_delete_group w svc caller group s =
    respond status_no_content (Catalog.delete_group w svc caller group s)

unfoldable pub manage_add_member :
    World → Service → Caller → Text → Body AddMemberRequest → MemoryStore → Answered (Unit {0})
manage_add_member w svc caller group body s = bind_json body s λ req.
    respond status_no_content
      (Membership.add_member w svc caller group req.relation req.member req.expires_at s)

unfoldable pub manage_remove_member :
    World → Service → Caller → Text → Text → Text → MemoryStore → Answered (Unit {0})
manage_remove_member w svc caller group relation member s =
    respond status_no_content (Membership.remove_member w svc caller group relation member s)

pub record ChangeRelationRequest : Type 0 where
  pub member : Text
  pub relation : Text
  pub new_relation : Text

unfoldable pub manage_change_relation :
    World → Service → Caller → Text → Body ChangeRelationRequest → MemoryStore → Answered (Unit {0})
manage_change_relation w svc caller group body s = bind_json body s λ req.
    respond status_no_content
      (Membership.change_relation w svc caller group req.member req.relation req.new_relation s)

unfoldable pub manage_effective_members :
    Time → Service → Caller → Text → MemoryStore → Answered (List Text)
manage_effective_members now svc caller group s =
    respond status_ok (s, Reading.effective_members now svc caller group s)

-- The body holds one field, the manager's token.
unfoldable pub manage_add_manager :
    World → Service → Caller → Text → Body Text → MemoryStore → Answered (Unit {0})
manage_add_manager w svc caller group body s =
    bind_json body s
      λ manager. respond status_no_content (Managing.add_manager w svc caller group manager s)

unfoldable pub manage_remove_manager :
    World → Service → Caller → Text → Text → MemoryStore → Answered (Unit {0})
manage_remove_manager w svc caller group manager s =
    respond status_no_content (Managing.remove_manager w svc caller group manager s)

unfoldable pub manage_history :
    Service → Caller → Text → Text → MemoryStore → Answered (List Change)
manage_history svc caller group limit s =
    respond status_ok (s, Reading.history svc caller group (number_within 1000 100 (atoi limit)) s)
