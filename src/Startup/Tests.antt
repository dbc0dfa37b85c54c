-- ===== src/Startup/Tests.antt =====
-- Runs and instances of the theorems on the start.
use mathlib.Core.List.Memᴰ
use role_provider_service.Common.Strings.{
  cut, trim_space, trim_left, trim_right, is_space, has_prefix, cut_prefix, lower_char,
}
use role_provider_service.Web.Reply.{upload_route}
use role_provider_service.Web.Auth.{
  SourceUploadToken, AuthConfig, Request, Context, next, bearer_token, bearer_auth, new_token_set,
  upload_only, upload_source_for, method_post,
}
use role_provider_service.Startup.Config.{parse_source_upload_tokens}
use role_provider_service.Startup.Config.Confined.{parse_source_upload_tokens-Confined}
use role_provider_service.Base.{
  ◌≡◌, refl, false, List, list_beq, contains, filter, ◌+◌, inl, inr, ap, arith, [], ◌∷◌, Option,
  none, some, Text, codes,
}
use role_provider_service.Base.Result.{ok}
use role_provider_service.Common.Types.{Uuid, Group, Source}
use role_provider_service.Common.Token.{relation_member}
use role_provider_service.Store.State.{MemoryStore, new_memory_store}
use role_provider_service.Service.State.{Service, World}
use role_provider_service.Sync.Run.{source_type_local, source_type_csv}
use role_provider_service.Startup.{own_source, adopt_into_local}
use role_provider_service.Startup.Owned.{NotOwnedBy, LocalOnly, adopt_into_local-Owned}

abbrev group_of : Text → Option Uuid → Group
group_of id owner = record {
  id = id;
  token = [];
  display_name = id;
  description = [];
  source_id = owner;
  source_name = [];
  relations = [];
  created_at = 0;
  updated_at = 0;
}

abbrev service : Service
service = record { relations = record { allowed = relation_member ∷ [] }; local_id = 1 }

abbrev world : World
world = record { now = 5; fresh = λ n. 100 + n }

-- A group of nobody's, and one of a source that is to be adopted.
abbrev before_start : MemoryStore
before_start = record new_memory_store {
  groups = group_of (codes "lost") none ∷ group_of (codes "wwi") (some 2) ∷ [];
  sources =
      own_source 1 (codes "here") source_type_local [] []
      ∷ own_source 2 (codes "old") source_type_csv [] []
      ∷ [];
}

local_only : LocalOnly service before_start.sources
unfolding own_source
local_only src m same = elim (Memᴰ.cases_cons m) [
  | inl e ↦ ap (λ (x : Source). x.typ) e
  | inr n ↦ elim (Memᴰ.cases_cons n) [
    | inl e ↦ absurd (let h = ap (λ (x : Source). x.id) e in omega (arith, h, same))
    | inr k ↦ absurd (Memᴰ.not-nil k)
  ]
]

adopt_into_local-Owned_example :
    NotOwnedBy none (adopt_into_local world service (codes "old" ∷ []) before_start).0
adopt_into_local-Owned_example =
    adopt_into_local-Owned world service (codes "old" ∷ []) before_start local_only

abbrev entries : List Text
entries = codes "sis = uploader" ∷ codes "ldap=other" ∷ []

abbrev uploader : SourceUploadToken
uploader = record { source = codes "sis"; token = codes "uploader" }

abbrev config : AuthConfig
config = record {
  read_tokens = codes "reader" ∷ [];
  write_tokens = codes "writer" ∷ [];
  upload_tokens = uploader ∷ record { source = codes "ldap"; token = codes "other" } ∷ [];
}

entries_read :
    parse_source_upload_tokens entries config.read_tokens config.write_tokens
    ≡ ok config.upload_tokens
unfolding parse_source_upload_tokens cut trim_space trim_left trim_right is_space list_beq contains
entries_read = refl

abbrev upload : Request
upload = record {
  authorization = codes "uploader";
  method = method_post;
  route = upload_route;
  id = codes "1";
}

abbrev as_source : Context
as_source = record { can_write = some false; upload_source = some (codes "sis") }

presents_uploader : bearer_token upload.authorization ≡ uploader.token
unfolding bearer_token has_prefix cut_prefix trim_space trim_left trim_right is_space lower_char
presents_uploader = refl

upload_passes : bearer_auth config upload ≡ next as_source
unfolding bearer_auth bearer_token new_token_set upload_only upload_source_for list_beq contains
    filter has_prefix cut_prefix trim_space trim_left trim_right is_space lower_char
upload_passes = refl

parse_source_upload_tokens-Confined_example :
    (upload.method ≡ method_post)
    × (upload.route ≡ upload_route)
    × (as_source ≡ record { can_write = some false; upload_source = some uploader.source })
parse_source_upload_tokens-Confined_example =
    parse_source_upload_tokens-Confined entries config uploader upload as_source entries_read
      (Memᴰ.head refl) presents_uploader upload_passes
