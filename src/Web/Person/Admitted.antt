-- ===== src/Web/Person/Admitted.antt =====
-- Whom the manage routes take a request to come from.
use role_provider_service.Base.{
  Bool, true, ◌≡◌, ◌≢◌, ◌⊎◌, List, [], Option, some, Text, nat_eq, list_eq,
}
use role_provider_service.Base.Result.{ok}
use role_provider_service.Common.Types.{Time}
use role_provider_service.Store.State.{MemoryStore}
use role_provider_service.Service.State.{Caller}
use role_provider_service.Service.Reading.{get_user_tokens}
use role_provider_service.Web.Person.{claims, acts_as, Authn, is_admin}

module _ (authn : Authn) (admin_tokens : List Text) (now : Time)
    (lookup : Option (Text → MemoryStore → MemoryStore)) where
  -- The tokens of a person in a store.
  abbrev pub TokensOf : MemoryStore → Text → List Text → Type 0
  TokensOf s person tokens = (get_user_tokens now lookup person s).1 ≡ ok tokens

  -- The store that resolving a person's tokens leaves: a lookup may have added the person.
  abbrev pub once_resolved : Text → MemoryStore → MemoryStore
  once_resolved person s = (get_user_tokens now lookup person s).0

  -- What is known of the caller that a request to a store runs as.
  pub record Genuine (authorization header : Text) (s : MemoryStore) (caller : Caller)
      (may_act_as : Bool) : Type 0 where
    pub raw : Text
    pub presented : authn.cut_bearer_prefix authorization ≡ some raw
    pub verified : authn.verify raw ≡ claims caller.actor
    pub named : caller.actor ≢ []
    pub own : List Text
    pub own_tokens : TokensOf s caller.actor own
    pub may : may_act_as ≡ is_admin admin_tokens own
    pub admin : caller.admin ≡ is_admin admin_tokens caller.tokens
    pub acting :
        ((caller.on_behalf_of ≡ []) × (caller.tokens ≡ own))
        ⊎ ((may_act_as ≡ true)
            × (authn.act_as header caller.actor true ≡ acts_as caller.on_behalf_of)
            × TokensOf (once_resolved caller.actor s) caller.on_behalf_of caller.tokens)
