-- ===== src/Store/Tokens.antt =====
-- `GetUserTokens`: what a person holds, as tokens.
pub mod Meaning
pub mod Scan
pub mod Correct
pub mod Answer
use role_provider_service.Base.{
  ℕ, zero, suc, ◌+◌, Bool, not, ◌&&◌, ◌||◌, List, [], ◌∷◌, ◌++◌, Option, none, some, Text, ◌==◌,
  nat_eq, list_eq, pair_eq, list_beq, pair_beq, if◌then◌else◌, contains, length, map, filter,
}
use role_provider_service.Common.Types.{Time}
use role_provider_service.Common.Token.{
  group_type, user_type, pattern_type, relation_member, user_prefix, group_prefix, group_token,
}
use role_provider_service.Common.Glob.{match_email_pattern}
use role_provider_service.Store.State.{Entry, MemoryStore, live}
use role_provider_service.Store.Listing.{add_new}

-- A group and a relation in it.
abbrev pub Pair : Type 0
Pair = Text × Text

-- `held` with `order` (which list the same pairs), and the queue.
abbrev pub Found : Type 0
Found = List Pair × List Pair

unfoldable pub add_pair : Found → Pair → Found
add_pair (order, queue) p =
    if contains order p then (order, queue) else (order ++ p ∷ [], queue ++ p ∷ [])

-- An entry that names the person, directly or by a pattern.
unfoldable pub names : Time → Text → Entry → Bool
names now email t =
    live now t
    && (((t.subj_type == user_type) && (t.subj_id == email))
        || ((t.subj_type == pattern_type) && match_email_pattern t.subj_id email))

-- An entry that means who holds this pair.
unfoldable pub hands_on : Time → Pair → Entry → Bool
hands_on now (group, relation) t =
    (t.subj_type == group_type)
    && (t.subj_id == group)
    && live now t
    && ((t.subj_rel == relation_member) || (t.subj_rel == relation))

-- Both loops over the entries: adds the pair of each entry that passes.
unfoldable pub add_pairs : (Entry → Bool) → List Entry → Found → Found
add_pairs p [] f = f
add_pairs p (t ∷ ts) f = add_pairs p ts (if p t then add_pair f (t.obj_id, t.relation) else f)

-- `none` means that the fuel ran out.
unfoldable pub tokens_loop : ℕ → Time → List Entry → List Pair → List Pair → Option (List Pair)
tokens_loop zero now ts order queue = none
tokens_loop (suc fuel) now ts order [] = some order
tokens_loop (suc fuel) now ts order (current ∷ queue) =
    let f = add_pairs (hands_on now current) ts (order, queue) in tokens_loop fuel now ts f.0 f.1

group_tokens : List Text → List Pair → List Text
group_tokens seen [] = []
group_tokens seen ((group, relation) ∷ ps) =
    let skip = group_tokens seen ps in
    let add = group_tokens (group ∷ seen) ps in
    if contains seen group then skip else (group_prefix ++ group) ∷ add

relation_tokens : List Pair → List Text
relation_tokens [] = []
relation_tokens ((group, relation) ∷ ps) =
    let rest = relation_tokens ps in
    if relation == relation_member then rest else group_token group relation ∷ rest

-- Membership first, one token for each group, then the relations beyond it.
unfoldable pub tokens_of : Text → List Pair → List Text
unfolding group_tokens relation_tokens
tokens_of email order = (user_prefix ++ email) ∷ (group_tokens [] order ++ relation_tokens order)

-- Each pair is queued once, and each is the pair of an entry.
abbrev pub tokens_fuel : ℕ → ℕ
tokens_fuel n = suc n

-- The pairs the person holds, in the order they are found.
unfoldable pub held_pairs : Time → Text → List Entry → Option (List Pair)
held_pairs now email ts =
    let f = add_pairs (names now email) ts ([], []) in
    tokens_loop (tokens_fuel (length ts)) now ts f.0 f.1

unfoldable pub get_user_tokens : Time → Text → MemoryStore → Option (List Text)
get_user_tokens now email s = elim (held_pairs now email s.tuples) [
  | none ↦ none
  | some order ↦ some (tokens_of email order)
]
