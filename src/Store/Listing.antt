-- ===== src/Store/Listing.antt =====
-- What a caller reads of the entries: members, memberships, edges between groups, addresses.
pub mod Edges
use role_provider_service.Base.{
  ℕ, Bool, not, ◌&&◌, ◌||◌, ◌++◌, List, [], ◌∷◌, Text, ◌==◌, nat_eq, list_eq, pair_eq, list_beq,
  pair_beq, if◌then◌else◌, is_empty, filter, contains, sort, text_leb, map,
}
use role_provider_service.Common.Types.{Time, Membership}
use role_provider_service.Common.Token.{
  normalize_relation, group_type, pattern_type, user_type, relation_member, normalize_id,
}
use role_provider_service.Common.Strings.{is_infix, to_lower}
use role_provider_service.Store.State.{
  Entry, MemoryStore, live, member_token, filter_for, relation_matches, limited,
}

-- Appends what is not there yet, as the loops with a `seen` map do.
unfoldable pub add_new : List Text → Text → List Text
add_new seen token = if contains seen token then seen else seen ++ token ∷ []

direct_step : Time → Text → Text → List Text → List Entry → List Text
direct_step now group_id flt out [] = out
direct_step now group_id flt out (t ∷ ts) =
    direct_step now group_id flt
      (if not (t.obj_id == group_id)
          || (t.subj_type == pattern_type)
          || not (live now t)
          || not (relation_matches t.relation flt)
        then out
        else add_new out (member_token t.subj_type t.subj_id t.subj_rel))
      ts

unfoldable pub get_direct_members : Time → Text → Text → MemoryStore → List Text
unfolding direct_step
get_direct_members now group_id relation s =
    direct_step now group_id (filter_for (normalize_relation relation)) [] s.tuples

membership : Time → Entry → Membership
membership now t = record {
  member = member_token t.subj_type t.subj_id t.subj_rel;
  relation = t.relation;
  expires_at = t.expires;
  expired = not (live now t);
  created_at = t.created;
}

membership_leb : Membership → Membership → Bool
membership_leb a b = text_leb (a.member ++ (b'#' ∷ a.relation)) (b.member ++ (b'#' ∷ b.relation))

unfoldable pub list_memberships : Time → Text → MemoryStore → List Membership
unfolding membership membership_leb
list_memberships now group_id s =
    sort membership_leb (map (membership now) (filter (λ t. t.obj_id == group_id) s.tuples))

abbrev pub Edge : Type 0
Edge = Text × Text

edge_step : Time → List Edge → List Entry → List Edge
edge_step now out [] = out
edge_step now out (t ∷ ts) =
    let e : Edge = (t.obj_id, t.subj_id) in
    edge_step now
      (if (t.subj_type == group_type) && live now t && not (contains out e)
        then out ++ e ∷ []
        else out)
      ts

edge_leb : Edge → Edge → Bool
edge_leb (a, b) (c, d) = if a == c then text_leb b d else text_leb a c

unfoldable pub group_edges : Time → MemoryStore → List Edge
unfolding edge_step edge_leb
group_edges now s = sort edge_leb (edge_step now [] s.tuples)

search_step : Time → Text → List Text → List Entry → List Text
search_step now needle out [] = out
search_step now needle out (t ∷ ts) =
    search_step now needle
      (if not (t.subj_type == user_type)
          || not (live now t)
          || (not (is_empty needle) && not (is_infix needle (to_lower t.subj_id)))
        then out
        else add_new out t.subj_id)
      ts

unfoldable pub search_users : Time → Text → ℕ → MemoryStore → List Text
unfolding search_step
search_users now query limit s =
    limited limit (sort text_leb (search_step now (normalize_id query) [] s.tuples))

-- The map from groups to the set of their relations besides "member".
add_relation : Text → Text → List (Text × List Text) → List (Text × List Text)
add_relation group relation [] = (group, relation ∷ []) ∷ []
add_relation group relation ((g, rels) ∷ m) =
    let rest = add_relation group relation m in
    if g == group then (g, add_new rels relation) ∷ m else (g, rels) ∷ rest

relation_step : Time → List (Text × List Text) → List Entry → List (Text × List Text)
unfolding add_relation
relation_step now m [] = m
relation_step now m (t ∷ ts) =
    relation_step now
      (if (t.relation == relation_member) || not (live now t)
        then m
        else add_relation t.obj_id t.relation m)
      ts

unfoldable pub group_relations : Time → MemoryStore → List (Text × List Text)
unfolding relation_step
group_relations now s = map (λ (g, rels). (g, sort text_leb rels)) (relation_step now [] s.tuples)
