-- ===== src/Service/State.antt =====
-- internal/groupmgmt/service.go: the caller, the service's own state, how a handler runs, and the
-- tokens that it reads.
use role_provider_service.Base.{
  ℕ, Bool, true, not, ◌&&◌, List, [], Text, codes, ◌==◌, nat_eq, list_eq, if◌then◌else◌, is_empty,
  contains,
}
use role_provider_service.Base.Result.{Result, ok, err, ◌>>◌, invalid_token, invalid_relation}
use role_provider_service.Common.Types.{Uuid, Time, Change}
use role_provider_service.Common.Token.{
  group_prefix, group_type, normalize_id, parse_token, join_group_relation, member_group,
}
use role_provider_service.Common.Strings.{trim_space, has_prefix, trim_prefix}
use role_provider_service.Common.Relations.{Relations, check}
use role_provider_service.Common.Validate.{validate_member}
use role_provider_service.Store.State.{MemoryStore}
use role_provider_service.Store.History.{add_change}

pub record Caller : Type 0 where
  pub actor : Text
  pub on_behalf_of : Text
  pub tokens : List Text
  pub admin : Bool

abbrev pub actor_api_token : Text
actor_api_token = codes "api-token"

abbrev pub api_token_caller : Caller
api_token_caller = record { actor = actor_api_token; on_behalf_of = []; tokens = []; admin = true }

pub record Service : Type 0 where
  pub relations : Relations
  pub local_id : Uuid

-- What one request takes from outside: the time, and the ids that `uuid.New` gives, one after another.
pub record World : Type 0 where
  pub now : Time
  pub fresh : ℕ → Uuid

-- A handler returns the store it leaves too: an error may come after a change.
abbrev pub Handled : Type 0 → Type 0
Handled A = MemoryStore × Result A

-- `if err != nil { return err }` after a call that only reads.
abbrev pub attempt : {A B : Type 0} → MemoryStore → Result A → (A → Handled B) → Handled B
attempt s (ok a) f = f a
attempt s (err e) f = (s, err e)

unfoldable pub check_relation : Service → Text → Result Text
check_relation svc relation = elim (check svc.relations relation) [
  | ok rel ↦ ok rel
  | err _ ↦ err invalid_relation
]

unfoldable pub signed : Caller → Change → Change
signed caller c = record c { actor = caller.actor; on_behalf_of = caller.on_behalf_of }

-- The store in memory never fails to add a change.
unfoldable pub record_change : World → ℕ → Caller → Change → MemoryStore → MemoryStore
record_change w n caller c = add_change w.now (w.fresh n) (signed caller c)

-- The prefix that the code returns too is always "group:".
unfoldable pub parse_group_token : Text → Result Text
parse_group_token token =
    let t = trim_space token in
    if has_prefix group_prefix t
    then ok (normalize_id (trim_prefix group_prefix t))
    else if not (is_empty t) && not (contains t b':')
    then ok (normalize_id t)
    else err invalid_token

unfoldable pub parse_member_token : Text → Result (Text × Text)
parse_member_token token =
    let (t, i) = parse_token (trim_space token) in
    if is_empty t
    then err invalid_token
    else validate_member t (normalize_id i)
      >> ok (
        t,
        if t == group_type
            then (let (g, rel) = member_group (normalize_id i) in join_group_relation g rel)
            else normalize_id i,
      )

unfoldable pub if_empty : Text → Text → Text
if_empty s fallback = if is_empty (trim_space s) then fallback else s
