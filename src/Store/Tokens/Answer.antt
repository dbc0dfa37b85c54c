-- ===== src/Store/Tokens/Answer.antt =====
-- The tokens that `GetUserTokens` makes of the pairs it found.
use mathlib.Core.List.Memᴰ
use role_provider_service.Base.{
  ◌≡◌, ◌≢◌, ◌↔◌, inl, inr, ⊎_elim, refl, List, [], ◌∷◌, ◌++◌, Memᴰ, Memᴰ-cons, arith, Text, some,
  contains, contains_iff, nat_eq, list_eq, list_beq_iff, Bool-cases, ◌==◌, ap,
}
use role_provider_service.Common.Types.{Time}
use role_provider_service.Common.Token.{group_prefix, relation_member, group_token}
use role_provider_service.Store.State.{MemoryStore}
use role_provider_service.Store.Tokens.{
  Pair, group_tokens, relation_tokens, tokens_of, get_user_tokens,
}
use role_provider_service.Store.Tokens.Meaning.{Holds, TokenFor, person, in_group, in_relation}
use role_provider_service.Store.Tokens.Correct.{held_pairs_correct}

of_group_tokens :
    (seen : List Text) (ps : List Pair) (tok : Text)
    → Memᴰ tok (group_tokens seen ps)
    → (p : Pair) × Memᴰ p ps × (tok ≡ group_prefix ++ p.0)
unfolding group_tokens
of_group_tokens seen [] tok m = absurd (Memᴰ.not-nil m)
of_group_tokens seen ((g, r) ∷ ps) tok m = elim (Bool-cases (contains seen g)) [
  | inl e ↦
      let (p, k, q) = of_group_tokens seen ps tok (rw (e, group_tokens) at m) in (p, Memᴰ.tail k, q)
  | inr e ↦ elim (Memᴰ.cases_cons (rw (e, group_tokens) at m)) [
    | inl q ↦ ((g, r), Memᴰ.head refl, q)
    | inr n ↦ let (p, k, q) = of_group_tokens (g ∷ seen) ps tok n in (p, Memᴰ.tail k, q)
  ]
]

mem-group_tokens :
    (seen : List Text) (ps : List Pair) (p : Pair)
    → Memᴰ p ps
    → ¬ Memᴰ p.0 seen
    → Memᴰ (group_prefix ++ p.0) (group_tokens seen ps)
unfolding group_tokens
mem-group_tokens seen [] p m n = absurd (Memᴰ.not-nil m)
mem-group_tokens seen ((g, r) ∷ ps) p m n = elim (Bool-cases (contains seen g)) [
  | inl e ↦
      rw (e, group_tokens)
        (mem-group_tokens seen ps p
          (⊎_elim
            (λ q. absurd (n (Memᴰ.cast (ap (λ (x : Pair). x.0) q) ((contains_iff seen g).0 e))))
            (λ k. k) (Memᴰ.cases_cons m))
          n)
  | inr e ↦
      rw (e, group_tokens)
        (elim (Bool-cases (p.0 == g)) [
          | inl q ↦ Memᴰ.head (ap (λ t. group_prefix ++ t) ((list_beq_iff p.0 g).0 q))
          | inr q ↦ Memᴰ.tail (
              mem-group_tokens (g ∷ seen) ps p
                (⊎_elim (λ x. absurd (cc (q, (list_beq_iff p.0 g).1 (ap (λ (y : Pair). y.0) x))))
                  (λ k. k) (Memᴰ.cases_cons m))
                (λ k. ground (arith, Memᴰ-cons p.0 g seen, list_beq_iff p.0 g)))
        ])
]

of_relation_tokens :
    (ps : List Pair) (tok : Text)
    → Memᴰ tok (relation_tokens ps)
    → (p : Pair) × Memᴰ p ps × (p.1 ≢ relation_member) × (tok ≡ group_token p.0 p.1)
unfolding relation_tokens
of_relation_tokens [] tok m = absurd (Memᴰ.not-nil m)
of_relation_tokens ((g, r) ∷ ps) tok m = elim (Bool-cases (r == relation_member)) [
  | inl e ↦
      let (p, k, n, q) = of_relation_tokens ps tok (rw (e, relation_tokens) at m) in
      (p, Memᴰ.tail k, n, q)
  | inr e ↦ elim (Memᴰ.cases_cons (rw (e, relation_tokens) at m)) [
    | inl q ↦ ((g, r), Memᴰ.head refl, ground (arith, list_beq_iff r relation_member), q)
    | inr n ↦ let (p, k, d, q) = of_relation_tokens ps tok n in (p, Memᴰ.tail k, d, q)
  ]
]

mem-relation_tokens :
    (ps : List Pair) (p : Pair)
    → Memᴰ p ps
    → p.1 ≢ relation_member
    → Memᴰ (group_token p.0 p.1) (relation_tokens ps)
unfolding relation_tokens
mem-relation_tokens [] p m n = absurd (Memᴰ.not-nil m)
mem-relation_tokens ((g, r) ∷ ps) p (Memᴰ.head e) n = ground (
  arith,
  list_beq_iff r relation_member,
  Memᴰ-cons (group_token p.0 p.1) (group_token g r) (relation_tokens ps),
)
mem-relation_tokens ((g, r) ∷ ps) p (Memᴰ.tail m) n = ground (
  arith,
  mem-relation_tokens ps p m,
  Memᴰ-cons (group_token p.0 p.1) (group_token g r) (relation_tokens ps),
)

-- `GetUserTokens` answers, and with exactly the person's tokens: their own; "group:<id>" for each group
-- in which they hold anything, by an entry that names them, by a pattern, or by a group that they hold
-- what the entry means of; and "group:<id>#<relation>" for each relation but "member" that they hold.
pub get_user_tokens_correct :
    (now : Time) (email : Text) (s : MemoryStore)
    → (out : List Text) × (get_user_tokens now email s ≡ some out)
      × ((tok : Text) → Memᴰ tok out ↔ TokenFor now email s.tuples tok)
unfolding get_user_tokens tokens_of
get_user_tokens_correct now email s =
    let (order, ends, once, holds) = held_pairs_correct now email s.tuples in
    (
      tokens_of email order,
      rw (ends, get_user_tokens) refl,
      λ tok. (sound order holds tok, full order holds tok),
    )
  where
    sound :
        (order : List Pair)
        → ((p : Pair) → Memᴰ p order ↔ Holds now email s.tuples p)
        → (tok : Text) → Memᴰ tok (tokens_of email order)
        → TokenFor now email s.tuples tok
    sound order holds tok m = elim (Memᴰ.cases_cons m) [
      | inl e ↦ person e
      | inr k ↦ elim (Memᴰ.append_cases (group_tokens [] order) k) [
        | inl n ↦ let (p, q, e) = of_group_tokens [] order tok n in in_group p ((holds p).0 q) e
        | inr n ↦
            let (p, q, d, e) = of_relation_tokens order tok n in in_relation p ((holds p).0 q) d e
      ]
    ]

    full :
        (order : List Pair)
        → ((p : Pair) → Memᴰ p order ↔ Holds now email s.tuples p)
        → (tok : Text) → TokenFor now email s.tuples tok
        → Memᴰ tok (tokens_of email order)
    full order holds tok (person e) = Memᴰ.head e
    full order holds tok (in_group p h e) = Memᴰ.tail (
        Memᴰ.cast e (
          Memᴰ.append_left (relation_tokens order)
            (mem-group_tokens [] order p ((holds p).1 h) Memᴰ.not-nil)))
    full order holds tok (in_relation p h d e) = Memᴰ.tail (
        Memᴰ.cast e (
          Memᴰ.append_right (group_tokens [] order)
            (mem-relation_tokens order p ((holds p).1 h) d)))
