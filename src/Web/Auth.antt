-- ===== src/Web/Auth.antt =====
-- internal/webserver/authentication.go: which API token may do what. `ConstantTimeCompare` is the
-- equality of two texts.
pub mod Gates
use role_provider_service.Base.{
  ℕ, Bool, true, false, not, ◌&&◌, ◌||◌, List, [], ◌∷◌, Option, none, some, Text, codes, ◌==◌,
  nat_eq, list_eq, if◌then◌else◌, is_empty, contains, filter, drop,
}
use role_provider_service.Base.Result.{Result, ok, err}
use role_provider_service.Common.Types.{Uuid, Source}
use role_provider_service.Common.Strings.{trim_space, has_prefix, to_lower}
use role_provider_service.Store.State.{MemoryStore}
use role_provider_service.Store.Sources.{get_source}
use role_provider_service.Web.Reply.{upload_route}

pub record SourceUploadToken : Type 0 where
  pub source : Text
  pub token : Text

pub record AuthConfig : Type 0 where
  pub read_tokens : List Text
  pub write_tokens : List Text
  pub upload_tokens : List SourceUploadToken

-- What the middleware reads of a request; `id` is the route's parameter.
pub record Request : Type 0 where
  pub method : Text
  pub route : Text
  pub authorization : Text
  pub id : Text

-- The keys that the middleware sets.
pub record Context : Type 0 where
  pub can_write : Option Bool
  pub upload_source : Option Text

-- A middleware aborts with a status, or the next one runs.
pub data Gate : Type 0 where
  abort : ℕ → Gate
  next : Context → Gate

infixl 5 ◌then◌
abbrev pub ◌then◌ : Gate → (Context → Gate) → Gate
abort status then k = abort status
next c then k = k c

unfoldable pub bearer_token : Text → Text
bearer_token authorization =
    let token = trim_space authorization in
    if has_prefix (codes "bearer ") (to_lower token) then trim_space (drop 7 token) else token

unfoldable pub new_token_set : List Text → List Text
unfolding filter
new_token_set tokens = filter (λ t. not (is_empty t)) tokens

-- The last match counts.
unfoldable pub upload_source_for : List SourceUploadToken → Text → Option Text
upload_source_for [] token = none
upload_source_for (t ∷ ts) token = elim (upload_source_for ts token) [
  | some source ↦ some source
  | none ↦ if not (is_empty t.token) && (t.token == token) then some t.source else none
]

abbrev pub method_post : Text
method_post = codes "POST"

-- Neither a reader nor a writer.
unfoldable pub upload_only : AuthConfig → Request → Text → Gate
unfolding upload_source_for
upload_only cfg req token = elim (upload_source_for cfg.upload_tokens token) [
  | none ↦ abort 401
  | some source ↦
      if not (req.method == method_post) || not (req.route == upload_route)
      then abort 403
      else next (record { can_write = some false; upload_source = some source })
]

unfoldable pub bearer_auth : AuthConfig → Request → Gate
unfolding bearer_token new_token_set contains upload_only
bearer_auth cfg req =
    let token = bearer_token req.authorization in
    let can_write = contains (new_token_set cfg.write_tokens) token in
    if is_empty req.authorization
    then abort 401
    else (if not can_write && not (contains (new_token_set cfg.read_tokens) token)
        then upload_only cfg req token
        else next (record { can_write = some can_write; upload_source = none }))

unfoldable pub require_write_token : Context → Gate
require_write_token c = elim c.can_write [
  | none ↦ abort 403
  | some can_write ↦ if can_write then next c else abort 403
]

-- `parse` is `uuid.Parse`.
unfoldable pub own_source : (parse : Text → Option Uuid) → Request → Text → MemoryStore → Bool
own_source parse req source s = elim (parse req.id) [
  | none ↦ false
  | some id ↦ elim (get_source id s) [ err _ ↦ false | ok src ↦ src.name == source ]
]

unfoldable pub require_write_or_own_source :
    (parse : Text → Option Uuid) → Request → MemoryStore → Context → Gate
unfolding own_source require_write_token
require_write_or_own_source parse req s c = elim c.upload_source [
  | none ↦ require_write_token c
  | some source ↦ if own_source parse req source s then next c else abort 403
]

-- Every route of the API tokens, one that changes something, and the upload.
unfoldable pub write_gate : AuthConfig → Request → Gate
write_gate cfg req = bearer_auth cfg req then require_write_token

unfoldable pub upload_gate :
    (parse : Text → Option Uuid) → AuthConfig → Request → MemoryStore → Gate
upload_gate parse cfg req s = bearer_auth cfg req then require_write_or_own_source parse req s
