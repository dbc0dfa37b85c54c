-- ===== src/Common/Token/RoundTrip.antt =====
-- Tokens and group relations are taken apart the way they were put together.
use mathlib.Core.List.Memᴰ
use role_provider_service.Base.{
  ℕ, ◌≡◌, ◌≢◌, refl, sym, subst, ◌⊎◌, inl, inr, none, some, [], ◌∷◌, ◌++◌, Memᴰ, Memᴰ-cons,
  Memᴰ-nil, arith, Text, Option-cases, Bool-cases, ◌==◌, nat_eq, list_eq, list_beq_iff,
}
use role_provider_service.Common.Strings.{cut_prefix, cut}
use role_provider_service.Common.Token.{
  group_prefix, user_prefix, pattern_prefix, relation_member, relation_separator, group_type,
  user_type, pattern_type, parse_token, build_token, split_group_relation, join_group_relation,
  normalize_relation, member_group,
}

pub cut_prefix-append : (p s : Text) → cut_prefix p (p ++ s) ≡ some s
unfolding cut_prefix
cut_prefix-append [] s = refl
cut_prefix-append (c ∷ p) s = ground (arith, cut_prefix-append p s)

pub append_of_cut_prefix : (p s rest : Text) → cut_prefix p s ≡ some rest → s ≡ p ++ rest
unfolding cut_prefix
append_of_cut_prefix [] s rest h = ground arith
append_of_cut_prefix (p ∷ ps) [] rest h = cc
append_of_cut_prefix (p ∷ ps) (c ∷ s) rest h = ground (arith, append_of_cut_prefix ps s rest)

-- The three kinds of token.
abbrev pub IsTokenType : Text → Type 0
IsTokenType typ = (typ ≡ group_type) ⊎ (typ ≡ user_type) ⊎ (typ ≡ pattern_type)

-- A token built of one of the three types and any id is read back as that type and id.
pub parse_token-build_token :
    (typ id : Text) → IsTokenType typ → parse_token (build_token typ id) ≡ (typ, id)
unfolding parse_token build_token
parse_token-build_token typ id (inl e) = rw e refl
parse_token-build_token typ id (inr (inl e)) = rw e refl
parse_token-build_token typ id (inr (inr e)) = rw e refl

-- A token that is read with a type that is not empty has one of the three types, and building gives the
-- token again.
pub build_token-parse_token :
    (token typ id : Text)
    → parse_token token ≡ (typ, id)
    → typ ≢ []
    → IsTokenType typ × (build_token typ id ≡ token)
unfolding parse_token build_token
build_token-parse_token token typ id h n = ground (
  arith,
  append_of_cut_prefix group_prefix token id,
  append_of_cut_prefix user_prefix token id,
  append_of_cut_prefix pattern_prefix token id,
)

pub cut-none : (sep : ℕ) (s : Text) → ¬ Memᴰ sep s → cut sep s ≡ none
unfolding cut
cut-none sep [] h = refl
cut-none sep (c ∷ s) h = ground (arith, cut-none sep s, Memᴰ-cons sep c s)

pub not-mem_of_cut : (sep : ℕ) (s : Text) → cut sep s ≡ none → ¬ Memᴰ sep s
unfolding cut
not-mem_of_cut sep [] h m = absurd (Memᴰ.not-nil m)
not-mem_of_cut sep (c ∷ s) h m = ground (arith, not-mem_of_cut sep s, Memᴰ-cons sep c s)

pub cut-append : (sep : ℕ) (a b : Text) → ¬ Memᴰ sep a → cut sep (a ++ (sep ∷ b)) ≡ some (a, b)
unfolding cut
cut-append sep [] b h = ground arith
cut-append sep (c ∷ a) b h = ground (arith, cut-append sep a b, Memᴰ-cons sep c a)

pub mem_of_cut :
    (sep : ℕ) (s a b : Text) → cut sep s ≡ some (a, b) → (¬ Memᴰ sep a) × (s ≡ a ++ (sep ∷ b))
unfolding cut
mem_of_cut sep [] a b h = ground arith
mem_of_cut sep (c ∷ s) [] b h = ground (arith, Memᴰ-nil sep)
mem_of_cut sep (c ∷ s) (x ∷ a) b h = ground (arith, mem_of_cut sep s a b, Memᴰ-cons sep x a)

-- For a group whose id has no "#": a group joined with a relation is split into the group and the
-- relation, where no relation is "member".
pub split-join :
    (group relation : Text)
    → ¬ Memᴰ relation_separator group
    → split_group_relation (join_group_relation group relation)
      ≡ (group, normalize_relation relation)
unfolding split_group_relation join_group_relation normalize_relation
split-join group relation h = ground (
  arith,
  list_beq_iff relation relation_member,
  cut-none relation_separator group h,
  cut-append relation_separator group relation h,
)

split_group_relation-group : (id : Text) → ¬ Memᴰ relation_separator (split_group_relation id).0
unfolding split_group_relation
split_group_relation-group id = elim (Option-cases (cut relation_separator id)) [
  | inl e ↦ rw (e, split_group_relation) (not-mem_of_cut relation_separator id e)
  | inr ((g, r), e) ↦ rw (e, split_group_relation) (mem_of_cut relation_separator id g r e).0
]

normalize_relation_some : (relation : Text) → normalize_relation relation ≢ []
unfolding normalize_relation
normalize_relation_some [] e = cc
normalize_relation_some (c ∷ r) e = cc

normalize_relation_idem :
    (relation : Text)
    → normalize_relation (normalize_relation relation) ≡ normalize_relation relation
unfolding normalize_relation
normalize_relation_idem [] = refl
normalize_relation_idem (c ∷ r) = refl

-- What an id says: the group alone is its members, else what stands after the first "#" is the relation,
-- and a blank relation is "member".
pub data Says : Text → Text → Text → Type 0 where
  whole : (group : Text) → Says group group relation_member
  blank : (group : Text) → Says (group ++ (relation_separator ∷ [])) group relation_member
  part :
      (group relation : Text)
      → relation ≢ []
      → Says (group ++ (relation_separator ∷ relation)) group relation

-- How the service stores it: the group alone for "member", and "<group>#<relation>" else.
pub data Stored : Text → Text → Text → Type 0 where
  plain : (group : Text) → Stored group relation_member group
  joined :
      (group relation : Text)
      → relation ≢ relation_member
      → Stored group relation (group ++ (relation_separator ∷ relation))

Says-split : (id : Text) → Says id (member_group id).0 (member_group id).1
unfolding member_group split_group_relation normalize_relation
Says-split id = elim (Option-cases (cut relation_separator id)) [
  | inl e ↦ rw (e, member_group, split_group_relation) (whole id)
  | inr ((g, []), e) ↦
      let (_, parts) = mem_of_cut relation_separator id g [] e in
      rw (e, member_group, split_group_relation)
        (subst (λ y. Says y g relation_member) (sym parts) (blank g))
  | inr ((g, c ∷ r), e) ↦
      let (_, parts) = mem_of_cut relation_separator id g (c ∷ r) e in
      rw (e, member_group, split_group_relation)
        (subst (λ y. Says y g (c ∷ r)) (sym parts) (part g (c ∷ r) (λ z. cc)))
]

join-member : (group : Text) → join_group_relation group relation_member ≡ group
unfolding join_group_relation
join-member group = ground (arith, list_beq_iff relation_member relation_member)

Stored-join :
    (group relation : Text)
    → relation ≢ []
    → Stored group relation (join_group_relation group relation)
unfolding join_group_relation
Stored-join group [] n = absurd (n refl)
Stored-join group (c ∷ r) n = elim (Bool-cases (let rel : Text = c ∷ r in rel == relation_member)) [
  | inl e ↦
      let same = (list_beq_iff (c ∷ r) relation_member).0 e in
      subst (λ z. Stored group z (join_group_relation group z)) (sym same)
        (subst (Stored group relation_member) (sym (join-member group)) (plain group))
  | inr e ↦
      rw (e, join_group_relation)
        (joined group (c ∷ r) (λ z. (let e' = (list_beq_iff (c ∷ r) relation_member).1 z in cc)))
]

-- Every id is taken apart at its first "#": the group has none, and the relation is what stands after it, or
-- "member" where nothing does. It is stored again as the group alone for "member", and as "<group>#<relation>"
-- else, and what is stored is taken apart into the same group and relation.
pub member_group-join :
    (id : Text)
    → let (group, relation) = member_group id in
      let stored = join_group_relation group relation in
      (¬ Memᴰ relation_separator group)
      × Says id group relation
      × Stored group relation stored
      × (member_group stored ≡ (group, relation))
unfolding member_group
member_group-join id =
    let (group, relation) = split_group_relation id in
    let free = split_group_relation-group id in
    (
      free,
      Says-split id,
      Stored-join group (normalize_relation relation) (normalize_relation_some relation),
      ground (
        arith,
        split-join group (normalize_relation relation) free,
        normalize_relation_idem relation,
      ),
    )
