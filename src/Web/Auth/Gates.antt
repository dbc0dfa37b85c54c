-- ===== src/Web/Auth/Gates.antt =====
-- Whom the gates before the API's routes let through.
use role_provider_service.Base.{
  true, false, not, ◌≡◌, ◌≢◌, ◌↔◌, ◌⊎◌, inl, inr, refl, arith, List, [], ◌∷◌, Option, none, some,
  Text, is_empty, is_empty_iff, contains, contains_iff, filter, mem-filter, Memᴰ, ◌==◌, ◌∙◌, sym,
  if◌then◌else◌, nat_eq, list_eq, list_beq_iff, Bool-cases, Option-cases,
}
use role_provider_service.Base.Result.{ok, Result-cases}
use role_provider_service.Common.Types.{Uuid, Source}
use role_provider_service.Store.State.{MemoryStore}
use role_provider_service.Store.Sources.{get_source}
use role_provider_service.Web.Reply.{upload_route}
use role_provider_service.Web.Auth.{
  SourceUploadToken, AuthConfig, Request, Context, Gate, next, ◌then◌, bearer_token, new_token_set,
  upload_source_for, method_post, upload_only, bearer_auth, require_write_token, own_source,
  require_write_or_own_source, write_gate, upload_gate,
}

-- A token in the list that is not blank.
abbrev pub Holds : List Text → Text → Type 0
Holds tokens token = Memᴰ token tokens × (token ≢ [])

pub mem-new_token_set :
    (tokens : List Text) (token : Text)
    → (contains (new_token_set tokens) token ≡ true) ↔ Holds tokens token
unfolding new_token_set
mem-new_token_set tokens token = ground (
  arith,
  contains_iff (filter (λ (t : Text). not (is_empty t)) tokens) token,
  mem-filter (λ (t : Text). not (is_empty t)) token tokens,
  is_empty_iff token,
)

abbrev pub Passes : Gate → Type 0
Passes g = (c : Context) × (g ≡ next c)

upload_only_refused :
    (cfg : AuthConfig) (req : Request) (token : Text) (c : Context)
    → (upload_only cfg req token then require_write_token) ≡ next c
    → ⊥
unfolding upload_only require_write_token
upload_only_refused cfg req token c h =
    elim (Option-cases (upload_source_for cfg.upload_tokens token)) [
      | inl e ↦ ground arith
      | inr (source, e) ↦ ground arith
    ]

-- A route that changes something is reached exactly with an Authorization header whose token is one of
-- the write tokens and not empty.
pub write_gate_iff :
    (cfg : AuthConfig) (req : Request)
    → Passes (write_gate cfg req)
      ↔ ((req.authorization ≢ []) × Holds cfg.write_tokens (bearer_token req.authorization))
unfolding write_gate bearer_auth require_write_token
write_gate_iff cfg req =
    let token = bearer_token req.authorization in
    (
      λ (c, h). ground (
        arith,
        is_empty_iff req.authorization,
        mem-new_token_set cfg.write_tokens token,
        upload_only_refused cfg req token c,
      ),
      λ h. (
        record { can_write = some true; upload_source = none },
        ground (arith, is_empty_iff req.authorization, mem-new_token_set cfg.write_tokens token),
      ),
    )

pub upload_source_for-mem :
    (ts : List SourceUploadToken) (token source : Text)
    → upload_source_for ts token ≡ some source
    → (t : SourceUploadToken) × Memᴰ t ts × (t.token ≡ token) × (t.token ≢ []) × (t.source ≡ source)
unfolding upload_source_for
upload_source_for-mem [] token source h = absurd (cc)
upload_source_for-mem (t ∷ ts) token source h = elim (Option-cases (upload_source_for ts token)) [
  | inr (found, e) ↦
      let (u, m, same, some_token, of) = upload_source_for-mem ts token source (e ∙ rw e at h) in
      (u, Memᴰ.tail m, same, some_token, of)
  | inl e ↦ (
    t,
    Memᴰ.head refl,
    ground (arith, list_beq_iff t.token token),
    ground (arith, is_empty_iff t.token),
    ground arith,
  )
]

own_source-name :
    (parse : Text → Option Uuid) (req : Request) (source : Text) (s : MemoryStore)
    → own_source parse req source s ≡ true
    → (id : Uuid) × (src : Source) × (parse req.id ≡ some id)
      × (get_source id s ≡ ok src)
      × (src.name ≡ source)
unfolding own_source
own_source-name parse req source s h = elim (Option-cases (parse req.id)) [
  | inl e ↦ absurd (ground arith)
  | inr (id, e) ↦ elim (Result-cases (get_source id s)) [
    | inl (src, g) ↦ (id, src, e, g, ground (arith, list_beq_iff src.name source))
    | inr (why, g) ↦ absurd (ground arith)
  ]
]

-- What lets an upload token through.
pub record OwnUpload (parse : Text → Option Uuid) (cfg : AuthConfig) (req : Request)
    (s : MemoryStore) : Type 0 where
  pub entry : SourceUploadToken
  pub listed : Memᴰ entry cfg.upload_tokens
  pub presented : entry.token ≡ bearer_token req.authorization
  pub not_blank : entry.token ≢ []
  pub method : req.method ≡ method_post
  pub route : req.route ≡ upload_route
  pub id : Uuid
  pub src : Source
  pub parsed : parse req.id ≡ some id
  pub found : get_source id s ≡ ok src
  pub own : src.name ≡ entry.source

pub upload_only-eq :
    (cfg : AuthConfig) (req : Request) (token source : Text) (k : Context → Gate) (c : Context)
    → upload_source_for cfg.upload_tokens token ≡ some source
    → (upload_only cfg req token then k) ≡ next c
    → (req.method ≡ method_post)
      × (req.route ≡ upload_route)
      × (k (record { can_write = some false; upload_source = some source }) ≡ next c)
unfolding upload_only
upload_only-eq cfg req token source k c e h =
    let h' = rw (upload_only, e) at h in
    elim (Bool-cases (req.method == method_post)) [
      | inr other ↦ absurd (ground arith)
      | inl post ↦ elim (Bool-cases (req.route == upload_route)) [
        | inr other ↦ absurd (ground arith)
        | inl upload ↦ (
          (list_beq_iff req.method method_post).0 post,
          (list_beq_iff req.route upload_route).0 upload,
          rw (post, upload) at h',
        )
      ]
    ]

own_source_gate :
    (parse : Text → Option Uuid) (req : Request) (s : MemoryStore) (source : Text) (c : Context)
    → require_write_or_own_source parse req s
        (record { can_write = some false; upload_source = some source })
      ≡ next c
    → own_source parse req source s ≡ true
unfolding require_write_or_own_source
own_source_gate parse req s source c h = elim (Bool-cases (own_source parse req source s)) [
  | inl e ↦ e
  | inr e ↦ absurd (ground arith)
]

upload_only-OwnUpload :
    (parse : Text → Option Uuid) (cfg : AuthConfig) (req : Request) (s : MemoryStore) (c : Context)
    → (upload_only cfg req (bearer_token req.authorization)
        then require_write_or_own_source parse req s)
      ≡ next c
    → OwnUpload parse cfg req s
unfolding upload_only
upload_only-OwnUpload parse cfg req s c h =
    let token = bearer_token req.authorization in
    elim (Option-cases (upload_source_for cfg.upload_tokens token)) [
      | inl e ↦ absurd (ground arith)
      | inr (source, e) ↦
          let (t, m, same, some_token, of) =
            upload_source_for-mem cfg.upload_tokens token source e in
          let (post, upload, gate) =
            upload_only-eq cfg req token source (require_write_or_own_source parse req s) c e h in
          let (id, src, parsed, found, name) =
            own_source-name parse req source s (own_source_gate parse req s source c gate) in
          record {
            entry = t;
            listed = m;
            presented = same;
            not_blank = some_token;
            method = post;
            route = upload;
            id = id;
            src = src;
            parsed = parsed;
            found = found;
            own = name ∙ sym of;
          }
    ]

-- Whoever passes the gate before an upload holds a write token, or holds a token that was issued for the
-- one source that the upload names, and posts to the upload route.
pub upload_gate-Own :
    (parse : Text → Option Uuid) (cfg : AuthConfig) (req : Request) (s : MemoryStore)
    → Passes (upload_gate parse cfg req s)
    → Holds cfg.write_tokens (bearer_token req.authorization) ⊎ OwnUpload parse cfg req s
unfolding upload_gate bearer_auth require_write_or_own_source require_write_token
upload_gate-Own parse cfg req s (c, h) =
    let token = bearer_token req.authorization in
    ground
      (arith, mem-new_token_set cfg.write_tokens token, upload_only-OwnUpload parse cfg req s c)
