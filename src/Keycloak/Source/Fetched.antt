-- ===== src/Keycloak/Source/Fetched.antt =====
-- What the full read of all users delivers.
use mathlib.Core.List.Memᴰ
use role_provider_service.Base.{
  true, ◌≡◌, ◌≢◌, ◌↔◌, ◌⊎◌, inl, inr, ⊎_elim, refl, subst, arith, List, [], ◌∷◌, Memᴰ, Memᴰ-cons,
  Memᴰ-append, is_empty_iff, ℕ, Text, ◌++◌,
}
use role_provider_service.Common.Types.{TuplePair}
use role_provider_service.Common.Token.{normalize_id}
use role_provider_service.Base.Result.{ok}
use role_provider_service.Keycloak.Mapping.{Mapping, descriptions}
use role_provider_service.Keycloak.Mapping.Derive.{derive, notes}
use role_provider_service.Keycloak.Mapping.Derived.{OfPerson, Granted, placed, derive_correct}
use role_provider_service.Keycloak.Source.{
  Users, KeycloakSource, fetch, invalid_notes, User, Fetching, is_valid_email, fetch_valid,
  fetch_user, fetch_users, nothing_fetched,
}

-- An account that counts: enabled, with an accepted address.
abbrev pub Counts : User → Type 0
Counts u =
    (u.enabled ≡ true)
    × (normalize_id u.email ≢ [])
    × (is_valid_email (normalize_id u.email) ≡ true)

-- What the account's attribute values give it.
abbrev pub Gives : Mapping → User → TuplePair → Type 0
Gives m u t =
    Counts u
    × OfPerson (normalize_id u.email) t
    × Granted (placed m (u.attributes m.attribute)) t.group_id t.relation

mem-fetch_user :
    (m : Mapping) (u : User) (f : Fetching) (t : TuplePair)
    → Memᴰ t (fetch_user m u f).tuples ↔ (Memᴰ t f.tuples ⊎ Gives m u t)
unfolding fetch_user fetch_valid
mem-fetch_user m u f t =
    let email = normalize_id u.email in
    let given = derive_correct m email (u.attributes m.attribute) f.unmapped t in
    let both = Memᴰ-append t f.tuples (derive m email (u.attributes m.attribute) f.unmapped).0 in
    ground (arith, given, both, is_empty_iff email)

mem-fetch_users :
    (m : Mapping) (us : List User) (f : Fetching) (t : TuplePair)
    → Memᴰ t (fetch_users m us f).tuples
      ↔ (Memᴰ t f.tuples ⊎ ((u : User) × Memᴰ u us × Gives m u t))
unfolding fetch_users
mem-fetch_users m [] f t = (inl, ⊎_elim (λ k. k) (λ (u, k, g). absurd (Memᴰ.not-nil k)))
mem-fetch_users m (x ∷ us) f t =
    let here = mem-fetch_user m x f t in
    let later = mem-fetch_users m us (fetch_user m x f) t in
    (
      λ k.
          ⊎_elim (λ n. ⊎_elim inl (λ g. inr (x, Memᴰ.head refl, g)) (here.0 n))
            (λ (u, n, g). inr (u, Memᴰ.tail n, g)) (later.0 k),
      ⊎_elim (λ n. later.1 (inl (here.1 (inl n))))
          (λ (u, k, g).
            ⊎_elim (λ same. later.1 (inl (here.1 (inr (subst (λ v. Gives m v t) same g)))))
              (λ n. later.1 (inr (u, n, g))) ((Memᴰ-cons u x us).0 k)),
    )

mem-nothing_fetched :
    (m : Mapping) (us : List User) (t : TuplePair)
    → Memᴰ t (fetch_users m us nothing_fetched).tuples ↔ ((u : User) × Memᴰ u us × Gives m u t)
mem-nothing_fetched m us t =
    let both = mem-fetch_users m us nothing_fetched t in
    (λ k. ⊎_elim (λ n. absurd (Memᴰ.not-nil n)) (λ g. g) (both.0 k), λ g. both.1 (inr g))

-- Where Keycloak lists its users, the full read succeeds and delivers exactly the entries that the mapping
-- derives for the enabled accounts with an accepted address, each with that account's own address, and
-- the groups' descriptions; and every look-up of an address that it tried before is forgotten.
pub fetch_correct :
    (render : Text → Text → ℕ → Text) (skipped : ℕ → Text) (users : Users) (m : Mapping)
    (src : KeycloakSource) (us : List User)
    → users.list_users ≡ ok us
    → let (src', answer) = fetch render skipped users m src in
      (ts : List TuplePair) × (log : List Text) × (answer ≡ ok (ts, (descriptions m, log)))
      × ((t : TuplePair) → Memᴰ t ts ↔ ((u : User) × Memᴰ u us × Gives m u t))
      × (src'.tried ≡ [])
unfolding fetch
fetch_correct render skipped users m src us e =
    let f = fetch_users m us nothing_fetched in
    (
      f.tuples,
      notes render f.unmapped ++ invalid_notes skipped f.invalid,
      rw (e, fetch) refl,
      mem-nothing_fetched m us,
      rw (e, fetch) refl,
    )
