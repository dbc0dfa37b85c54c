-- ===== src/Startup/Config/Confined.antt =====
-- A token that was read as an upload token opens the upload for its own source, and nothing else.
use mathlib.Core.List.Memᴰ
use role_provider_service.Base.{
  false, not, ◌≡◌, ◌≢◌, inl, inr, ⊎_elim, refl, sym, ap, ◌∙◌, subst, arith, List, [], ◌∷◌, ◌++◌,
  some, Text, Memᴰ, Memᴰ-append, Memᴰ-concat, contains, contains_iff, is_empty_iff, is_empty,
  Bool-cases, Option-cases, map, Distinct, Distinct-concat, All, All-append, All-mem, list_beq_iff,
  nat_eq, list_eq,
}
use role_provider_service.Base.Result.{ok, ◌>>◌, >>=-eq-ok, ok-inj, guard, guard_iff, other}
use role_provider_service.Common.Strings.{cut, trim_space}
use role_provider_service.Web.Auth.{
  SourceUploadToken, AuthConfig, Request, Context, Gate, ◌then◌, next, abort, bearer_token,
  new_token_set, upload_source_for, bearer_auth, upload_only, method_post,
}
use role_provider_service.Web.Auth.Gates.{mem-new_token_set, upload_only-eq, upload_source_for-mem}
use role_provider_service.Web.Reply.{upload_route}
use role_provider_service.Startup.Config.{read_entry, parse_entries, parse_source_upload_tokens}

-- A token that is not blank and none of those taken.
abbrev pub Exclusive : List Text → SourceUploadToken → Type 0
Exclusive taken t = (t.token ≢ []) × (¬ Memᴰ t.token taken)

abbrev tokens : List SourceUploadToken → List Text
tokens ts = map (λ (t : SourceUploadToken). t.token) ts

read_entry-token : (e source token : Text) → read_entry e ≡ some (source, token) → token ≢ []
unfolding read_entry
read_entry-token e source token h = elim (Option-cases (cut b'=' e)) [
  | inl none_found ↦ absurd (let h' = rw (none_found, read_entry) at h in cc)
  | inr ((a, b), found) ↦ elim (Bool-cases (is_empty (trim_space a))) [
    | inl x ↦ absurd (let h' = rw (found, read_entry, x) at h in cc)
    | inr x ↦ elim (Bool-cases (is_empty (trim_space b))) [
      | inl y ↦ absurd (let h' = rw (found, read_entry, x, y) at h in cc)
      | inr y ↦
          let h' = rw (found, read_entry, x, y) at h in
          λ blank. ground (arith, is_empty_iff (trim_space b))
    ]
  ]
]

-- What the loop keeps.
record Kept (taken seen : List Text) (out : List SourceUploadToken) : Type 0 where
  exclusive : All (Exclusive taken) out
  distinct : Distinct (tokens out)
  recorded : (x : Text) → Memᴰ x (tokens out) → Memᴰ x seen

map-concat :
    (ts : List SourceUploadToken) (t : SourceUploadToken)
    → tokens (ts ++ t ∷ []) ≡ tokens ts ++ t.token ∷ []
map-concat [] t = refl
map-concat (u ∷ ts) t = ap (λ xs. u.token ∷ xs) (map-concat ts t)

parse_entries-Kept :
    (taken seen : List Text) (out : List SourceUploadToken) (es : List Text)
    (result : List SourceUploadToken)
    → Kept taken seen out
    → parse_entries taken seen out es ≡ ok result
    → All (Exclusive taken) result × Distinct (tokens result)
unfolding parse_entries
parse_entries-Kept taken seen out [] result kept h =
    let same = ok-inj h in
    subst (λ ts. All (Exclusive taken) ts × Distinct (tokens ts)) same
      (kept.exclusive, kept.distinct)
parse_entries-Kept taken seen out (e ∷ es) result kept h = elim (Option-cases (read_entry e)) [
  | inl none_read ↦ absurd (let h' = rw (none_read, parse_entries) at h in cc)
  | inr ((source, token), found) ↦
      let h1 = rw (found, parse_entries) at h in
      let (_, both, h3) =
        >>=-eq-ok
          (guard (not (contains taken token)) other >> guard (not (contains seen token)) other) _
          h1 in
      let (_, free, first) = >>=-eq-ok (guard (not (contains taken token)) other) _ both in
      let t : SourceUploadToken = record { source = source; token = token } in
      parse_entries-Kept taken (token ∷ seen) (out ++ t ∷ []) es result
        (record {
          exclusive = All-append (Exclusive taken) out (t ∷ []) kept.exclusive (
            (
              read_entry-token e source token found,
              λ m.
                  ground
                    (arith, guard_iff (not (contains taken token)) other, contains_iff taken token),
            ),
            tt,
          );
          distinct = subst Distinct (sym (map-concat out t)) (
              Distinct-concat (tokens out) token kept.distinct (λ m.
                let m' = kept.recorded token m in
                ground
                  (arith, guard_iff (not (contains seen token)) other, contains_iff seen token)));
          recorded = λ x m.
              ⊎_elim (λ n. Memᴰ.tail (kept.recorded x n)) (λ same. Memᴰ.head same)
                ((Memᴰ-concat x token (tokens out)).0
                  (subst (λ xs. Memᴰ x xs) (map-concat out t) m));
        })
        h3
]

upload_source_for-own :
    (ts : List SourceUploadToken) (t : SourceUploadToken)
    → Distinct (tokens ts)
    → Memᴰ t ts
    → t.token ≢ []
    → upload_source_for ts t.token ≡ some t.source
unfolding upload_source_for
upload_source_for-own [] t d m n = absurd (Memᴰ.not-nil m)
upload_source_for-own (u ∷ ts) t d (Memᴰ.tail m) n =
    rw (upload_source_for-own ts t d.1 m n, upload_source_for) refl
upload_source_for-own (u ∷ ts) t d (Memᴰ.head e) n =
    elim (Option-cases (upload_source_for ts t.token)) [
      | inr (source, found) ↦
          let (v, m, same, _, _) = upload_source_for-mem ts t.token source found in
          absurd (
            d.0 (
              subst (λ x. Memᴰ x (tokens ts)) (same ∙ ap (λ w. w.token) e)
                (Memᴰ.map (λ w. w.token) m)))
      | inl none_found ↦ ground (
        arith,
        ap (λ x. x.token) e,
        ap (λ x. x.source) e,
        is_empty_iff u.token,
        list_beq_iff u.token t.token,
        none_found,
      )
    ]

then_next : (g : Gate) → (g then next) ≡ g
then_next (abort status) = refl
then_next (next c) = refl

not-new_token_set :
    (ts : List Text) (token : Text) → ¬ Memᴰ token ts → contains (new_token_set ts) token ≡ false
not-new_token_set ts token n = elim (Bool-cases (contains (new_token_set ts) token)) [
  | inl listed ↦ absurd (n ((mem-new_token_set ts token).0 listed).0)
  | inr free ↦ free
]

-- Where the upload tokens of a configuration were read from its entries: whoever presents one of them passes
-- only when posting to the upload route, and only as the source that the token was issued for, without the
-- right to write.
pub parse_source_upload_tokens-Confined :
    (entries : List Text) (cfg : AuthConfig) (t : SourceUploadToken) (req : Request) (c : Context)
    → parse_source_upload_tokens entries cfg.read_tokens cfg.write_tokens ≡ ok cfg.upload_tokens
    → Memᴰ t cfg.upload_tokens
    → bearer_token req.authorization ≡ t.token
    → bearer_auth cfg req ≡ next c
    → (req.method ≡ method_post)
      × (req.route ≡ upload_route)
      × (c ≡ record { can_write = some false; upload_source = some t.source })
unfolding parse_source_upload_tokens bearer_auth
parse_source_upload_tokens-Confined entries cfg t req c read m presented passes =
    let (exclusive, distinct) =
      parse_entries-Kept (cfg.read_tokens ++ cfg.write_tokens) [] [] entries cfg.upload_tokens
        (record { exclusive = tt; distinct = tt; recorded = λ x k. k }) read in
    let (some_token, untaken) =
      All-mem (Exclusive (cfg.read_tokens ++ cfg.write_tokens)) cfg.upload_tokens exclusive m in
    let mine = upload_source_for-own cfg.upload_tokens t distinct m some_token in
    let no_read =
      not-new_token_set cfg.read_tokens t.token
        (λ k. untaken ((Memᴰ-append t.token cfg.read_tokens cfg.write_tokens).1 (inl k))) in
    let no_write =
      not-new_token_set cfg.write_tokens t.token
        (λ k. untaken ((Memᴰ-append t.token cfg.read_tokens cfg.write_tokens).1 (inr k))) in
    elim (Bool-cases (is_empty req.authorization)) [
      | inl blank ↦ absurd (let h = rw (bearer_auth, blank) at passes in cc)
      | inr given ↦
          let h = rw (bearer_auth, given, presented, no_write, no_read) at passes in
          let (post, upload, same) =
            upload_only-eq cfg req t.token t.source (λ x. next x) c mine
              (then_next (upload_only cfg req t.token) ∙ h) in
          (post, upload, cc)
    ]
