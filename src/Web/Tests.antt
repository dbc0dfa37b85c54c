-- ===== src/Web/Tests.antt =====
-- Runs and instances of the theorems on the web server.
use role_provider_service.Base.{
  ◌+◌, ◌≢◌, ◌↔◌, ◌⊎◌, refl, true, false, List, [], ◌∷◌, Option, none, some, Text, codes, Bool,
  list_beq, contains, filter, nat_eq,
}
use role_provider_service.Common.Types.{Uuid, Source}
use role_provider_service.Common.Strings.{
  trim_space, trim_left, trim_right, is_space, lower_char, has_prefix, cut_prefix,
}
use role_provider_service.Store.State.{MemoryStore, new_memory_store}
use role_provider_service.Store.Sources.{get_source, find_source}
use role_provider_service.Store.Tokens
use role_provider_service.Service.Reading
use role_provider_service.Service.State.{Caller, World}
use role_provider_service.Sync.Scheduler.Samples.{list_cron}
use role_provider_service.Web.Reply.{upload_route}
use role_provider_service.Web.Auth.{
  AuthConfig, Request, bearer_auth, bearer_token, new_token_set, upload_only, upload_source_for,
  require_write_or_own_source, own_source, write_gate, upload_gate, method_post,
}
use role_provider_service.Web.Auth.Gates.{Passes, Holds, OwnUpload, write_gate_iff, upload_gate-Own}
use role_provider_service.Web.Sources.{CreateSourceRequest}
use role_provider_service.Web.Sources.Changes.{Scheduled}
use role_provider_service.Web.Person.{Authn, claims, acts_as, ActsAs}

abbrev config : AuthConfig
config = record {
  read_tokens = codes "reader" ∷ [];
  write_tokens = codes "writer" ∷ [];
  upload_tokens = record { source = codes "sis"; token = codes "uploader" } ∷ [];
}

abbrev request : Text → Request
request authorization = record {
  method = method_post;
  route = upload_route;
  authorization = authorization;
  id = codes "1";
}

write_gate_iff_example : Passes (write_gate config (request (codes "Bearer writer"))) ↔ (
    (codes "Bearer writer" ≢ []) × Holds config.write_tokens (bearer_token (codes "Bearer writer")))
write_gate_iff_example = write_gate_iff config (request (codes "Bearer writer"))

abbrev source : Source
source = record {
  id = 1;
  name = codes "sis";
  typ = codes "csv";
  schedule = [];
  dn_email_regexp = [];
  group_relation_regexp = [];
  file_path = [];
  last_synced_at = none;
  last_sync_status = [];
  created_at = 0;
  updated_at = 0;
  reserved_names = [];
}

abbrev one_source : MemoryStore
one_source = record new_memory_store { sources = source ∷ [] }

abbrev parse_one : Text → Option Uuid
parse_one s = some 1

uploads : Passes (upload_gate parse_one config (request (codes "Bearer uploader")) one_source)
unfolding upload_gate bearer_auth bearer_token new_token_set upload_only upload_source_for
    require_write_or_own_source own_source get_source find_source list_beq contains filter
    has_prefix cut_prefix trim_space trim_left trim_right is_space lower_char
uploads = (record { can_write = some false; upload_source = some (codes "sis") }, refl)

upload_gate-Own_example :
    Holds config.write_tokens (bearer_token (codes "Bearer uploader"))
    ⊎ OwnUpload parse_one config (request (codes "Bearer uploader")) one_source
upload_gate-Own_example =
    upload_gate-Own parse_one config (request (codes "Bearer uploader")) one_source uploads

abbrev world : World
world = record { now = 5; fresh = λ n. 100 + n }

abbrev new_request : CreateSourceRequest
new_request = record {
  name = codes "people";
  typ = codes "CSV";
  schedule = codes "@daily";
  dn_email_regexp = [];
  file_path = [];
  group_relation_regexp = [];
  reserved_names = [];
}

abbrev no_jobs : Scheduled list_cron
unfolding list_cron
no_jobs = (one_source, record { cron = []; jobs = [] })

abbrev anna : Text
anna = codes "anna@dhbw.de"

abbrev max_email : Text
max_email = codes "max@dhbw.de"

abbrev act : Text → Text → Bool → ActsAs
act header actor true = acts_as header
act header actor false = acts_as actor

-- Everybody is Anna; whoever may acts as the person of the header.
abbrev only_anna : Authn
only_anna = record {
  cut_bearer_prefix = λ header. some header;
  verify = λ raw. claims anna;
  act_as = act;
}

abbrev for_max : Caller
for_max = record {
  actor = anna;
  on_behalf_of = max_email;
  tokens = codes "user:max@dhbw.de" ∷ [];
  admin = false;
}

abbrev admins : List Text
admins = codes "user:anna@dhbw.de" ∷ []
