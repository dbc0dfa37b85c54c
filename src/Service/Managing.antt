-- ===== src/Service/Managing.antt =====
-- internal/groupmgmt/service.go: letting others maintain a group.
use role_provider_service.Base.{Text, if◌then◌else◌, is_empty}
use role_provider_service.Base.Result.{Result, ok, ◌>>=◌}
use role_provider_service.Common.Types.{Group, Manager, manager_added, manager_removed}
use role_provider_service.Common.Token.{normalize_id, parse_token, build_token}
use role_provider_service.Common.Strings.{trim_space}
use role_provider_service.Store.State.{MemoryStore}
use role_provider_service.Store.Managers
use role_provider_service.Service.State.{Caller, Service, World, Handled, attempt, record_change}
use role_provider_service.Service.Access.{local_group}
use role_provider_service.Service.Catalog.{change, check_manager_token}

unfoldable pub check_add_manager :
    Service → Caller → Text → Text → MemoryStore → Result (Group × Text)
check_add_manager svc caller group_token manager_token s =
    local_group svc caller group_token s >>= λ g.
    check_manager_token svc manager_token s >>= λ token. ok (g, token)

unfoldable pub add_manager :
    World → Service → Caller → Text → Text → MemoryStore → Handled (Unit {0})
add_manager w svc caller group_token manager_token s =
    attempt s (check_add_manager svc caller group_token manager_token s) λ (g, token).
      let m : Manager = record { token = token; created_by = caller.actor; created_at = 0 } in
      (
        record_change w 0 caller (record (change g.id manager_added) { member = token })
            (Managers.add_manager w.now g.id m s),
        ok tt,
      )

-- The token is normalized as far as it can be read; it need not name anything.
unfoldable pub normalize_manager_token : Text → Text
normalize_manager_token manager_token =
    let token = trim_space manager_token in
    let (t, id) = parse_token token in if is_empty t then token else build_token t (normalize_id id)

unfoldable pub remove_manager :
    World → Service → Caller → Text → Text → MemoryStore → Handled (Unit {0})
remove_manager w svc caller group_token manager_token s =
    attempt s (local_group svc caller group_token s) λ g.
      let token = normalize_manager_token manager_token in
      (
        record_change w 0 caller (record (change g.id manager_removed) { member = token })
            (Managers.remove_manager g.id token s),
        ok tt,
      )
