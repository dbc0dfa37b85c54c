-- ===== src/Web/Person.antt =====
-- internal/webserver/person_auth.go: who a person is, and for whom they act. The verifier and the
-- functions of `authn` are parameters.
pub mod Admitted
use role_provider_service.Base.{
  ℕ, Bool, true, false, List, [], ◌∷◌, Option, none, some, Text, ◌==◌, nat_eq, list_eq,
  if◌then◌else◌, is_empty, any, contains,
}
use role_provider_service.Base.Result.{Result, ok, err}
use role_provider_service.Common.Types.{Time}
use role_provider_service.Store.State.{MemoryStore}
use role_provider_service.Service.State.{Caller}
use role_provider_service.Service.Reading.{get_user_tokens}

-- The verifier's answer; `claims` has the person that the token names.
pub data Verified : Type 0 where
  keys_unavailable rejected : Verified
  claims : Text → Verified

-- The answer of `authn.ActAs`.
pub data ActsAs : Type 0 where
  act_as_invalid act_as_refused : ActsAs
  acts_as : Text → ActsAs

pub record Authn : Type 0 where
  pub cut_bearer_prefix : Text → Option Text
  pub verify : Text → Verified
  -- The header, the actor, and whether the actor may act as somebody else.
  pub act_as : Text → Text → Bool → ActsAs

pub data PersonGate : Type 0 where
  denied : ℕ → PersonGate
  admitted : (caller : Caller) → (may_act_as : Bool) → PersonGate

unfoldable pub is_admin : List Text → List Text → Bool
unfolding any contains
is_admin admin_tokens tokens = any (contains admin_tokens) tokens

module _ (authn : Authn) (admin_tokens : List Text) (now : Time)
    (lookup : Option (Text → MemoryStore → MemoryStore)) where
  unfoldable pub caller_for : Text → Text → List Text → Bool → PersonGate
  unfolding is_admin
  caller_for actor on_behalf_of tokens may_act_as =
      admitted
        (record {
          actor = actor;
          on_behalf_of = on_behalf_of;
          tokens = tokens;
          admin = is_admin admin_tokens tokens;
        })
        may_act_as

  -- Once the actor's own tokens are known.
  unfoldable pub judge : Text → Text → List Text → MemoryStore → MemoryStore × PersonGate
  unfolding caller_for
  judge header actor own s =
      let may_act_as = is_admin admin_tokens own in
      elim (authn.act_as header actor may_act_as) [
        | act_as_invalid ↦ (s, denied 400)
        | act_as_refused ↦ (s, denied 403)
        | acts_as target ↦
            if target == actor
            then (s, caller_for actor [] own may_act_as)
            else (let (s1, r) = get_user_tokens now lookup target s in
                elim r [
                  | err _ ↦ (s1, denied 500)
                  | ok tokens ↦ (s1, caller_for actor target tokens may_act_as)
                ])
      ]

  -- `authorization` and `header` are the headers "Authorization" and "X-Act-As".
  unfoldable pub person_auth : Text → Text → MemoryStore → MemoryStore × PersonGate
  unfolding judge
  person_auth authorization header s = elim (authn.cut_bearer_prefix authorization) [
    | none ↦ (s, denied 401)
    | some raw ↦ elim (authn.verify raw) [
      | keys_unavailable ↦ (s, denied 503)
      | rejected ↦ (s, denied 401)
      | claims actor ↦
          if is_empty actor
          then (s, denied 401)
          else (let (s1, r) = get_user_tokens now lookup actor s in
              elim r [ err _ ↦ (s1, denied 500) | ok own ↦ judge header actor own s1 ])
    ]
  ]
