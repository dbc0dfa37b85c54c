-- ===== src/Web/Reply.antt =====
-- internal/webserver/errors.go: the answer to a request. The text of an error's body is not modelled.
use role_provider_service.Base.{
  ℕ, Option, none, some, Text, codes, ◌==◌, nat_eq, list_eq, if◌then◌else◌, ◌*◌,
}
use role_provider_service.Base.Result.{
  ok, err, Error, not_found, record_not_found, forbidden, already_exists, owned_by_source, reserved,
  cycle, invalid_token, invalid_relation, invalid_expiry, invalid_id,
}
use role_provider_service.Store.State.{MemoryStore}
use role_provider_service.Service.State.{Handled}

-- A status, and what the body holds besides an error.
pub record Reply (A : Type 0) : Type 0 where
  pub status : ℕ
  pub body : Option A

-- A request is answered over the store that it leaves.
abbrev pub Answered : Type 0 → Type 0
Answered A = MemoryStore × Reply A

abbrev pub refuse : {A : Type 0} → ℕ → Reply A
refuse status = record { status = status; body = none }

unfoldable pub error_status : Error → ℕ
error_status not_found = 404
error_status record_not_found = 404
error_status forbidden = 403
error_status already_exists = 409
error_status owned_by_source = 409
error_status reserved = 409
error_status cycle = 409
error_status invalid_token = 400
error_status invalid_relation = 400
error_status invalid_expiry = 400
error_status invalid_id = 400
error_status _ = 500

unfoldable pub respond_error : {A : Type 0} → Error → Reply A
unfolding error_status
respond_error e = refuse (error_status e)

-- What a handler does with its service's answer: the body of an error is the error's own.
unfoldable pub respond : {A : Type 0} → ℕ → Handled A → Answered A
unfolding respond_error
respond status (s, ok a) = (s, record { status = status; body = some a })
respond status (s, err e) = (s, respond_error e)

-- What the JSON decoder makes of a request's body.
pub data Body (A : Type 0) : Type 0 where
  too_large malformed : Body A
  decoded : A → Body A

unfoldable pub bind_json : {A B : Type 0} → Body A → MemoryStore → (A → Answered B) → Answered B
bind_json too_large s next = (s, refuse 413)
bind_json malformed s next = (s, refuse 400)
bind_json (decoded a) s next = next a

abbrev pub upload_route : Text
upload_route = codes "/v1/sync/sources/:id/upload"

-- `1 << 20` and `10 << 20`.
abbrev pub max_json_body : ℕ
max_json_body = 1048576

abbrev pub max_upload_body : ℕ
max_upload_body = 10 * 1048576

-- The limit for the body of a request on a route.
unfoldable pub limit_request_body : Text → ℕ
limit_request_body route = if route == upload_route then max_upload_body else max_json_body

-- A helper that answers the request itself when it fails, with a status, or gives what it found.
pub data Checked (A : Type 0) : Type 0 where
  stop : ℕ → Checked A
  found : A → Checked A
