-- ===== src/Store/Entries.antt =====
-- Adding, removing and changing the entries of a group.
pub mod Keys
pub mod Changes
pub mod Uniqueness
use role_provider_service.Base.{
  ℕ, Bool, true, false, not, ◌&&◌, ◌||◌, ◌++◌, List, [], ◌∷◌, Option, none, some, Text, ltb, ◌==◌,
  nat_eq, list_eq, pair_eq, list_beq, pair_beq, if◌then◌else◌, is_empty, any, filter, contains,
  sort, text_leb, map, codes,
}
use role_provider_service.Base.Result.{Result, ok, err, record_not_found}
use role_provider_service.Common.Types.{Uuid, Time, Membership}
use role_provider_service.Common.Token.{
  normalize_relation, group_type, pattern_type, user_type, relation_member, normalize_id,
}
use role_provider_service.Common.Strings.{is_infix, to_lower}
use role_provider_service.Store.State.{
  Entry, MemoryStore, live, subject, member_token, filter_for, relation_matches,
}

-- Group, relation, and the subject's type, id and relation: what tells two entries apart.
abbrev pub Key : Type 0
Key = Text × (Text × (Text × (Text × Text)))

abbrev pub key_of : Entry → Key
key_of t = (t.obj_id, (t.relation, (t.subj_type, (t.subj_id, t.subj_rel))))

unfoldable pub is_entry : Key → Entry → Bool
is_entry k t = key_of t == k

abbrev pub key : Text → Text → Text → Text → Key
key group_id relation member_type member_id =
    let (subj_id, subj_rel) = subject member_type member_id in
    (group_id, (relation, (member_type, (subj_id, subj_rel))))

-- Sets the expiry of the first entry with this key.
unfoldable pub set_expires : Key → Option Time → List Entry → List Entry
set_expires k expires [] = []
set_expires k expires (t ∷ ts) =
    let rest = set_expires k expires ts in
    if is_entry k t then record t { expires = expires } ∷ ts else t ∷ rest

unfoldable pub add_member :
    Time → Uuid → Text → Text → Text → Text → Option Uuid → Option Time → MemoryStore → MemoryStore
add_member now fresh group_id relation member_type member_id source_id expires_at s =
    let rel = normalize_relation relation in
    let k = key group_id rel member_type member_id in
    let (subj_id, subj_rel) = subject member_type member_id in
    if any (is_entry k) s.tuples
    then record s { tuples = set_expires k expires_at s.tuples }
    else record s {
      tuples =
          s.tuples
          ++ record {
            id = fresh;
            obj_id = group_id;
            relation = rel;
            subj_type = member_type;
            subj_id = subj_id;
            subj_rel = subj_rel;
            source_id = source_id;
            created = now;
            expires = expires_at;
          }
            ∷ [];
    }

unfoldable pub remove_member : Text → Text → Text → Text → MemoryStore → MemoryStore
remove_member group_id relation member_type member_id s =
    let k = key group_id (normalize_relation relation) member_type member_id in
    record s { tuples = filter (λ t. not (is_entry k t)) s.tuples }

-- `nil`, no end, is the longest.
unfoldable pub later_expiry : Option Time → Option Time → Option Time
later_expiry none b = none
later_expiry (some a) none = none
later_expiry (some a) (some b) = if ltb b a then some a else some b

-- The first entry with this key, as `slices.IndexFunc` finds it.
unfoldable pub find_entry : Key → List Entry → Option Entry
find_entry k [] = none
find_entry k (t ∷ ts) = let rest = find_entry k ts in if is_entry k t then some t else rest

-- What the code does at the index of the first entry with this key.
unfoldable pub set_relation : Key → Text → List Entry → List Entry
set_relation k to [] = []
set_relation k to (t ∷ ts) =
    let rest = set_relation k to ts in
    if is_entry k t then record t { relation = to } ∷ ts else t ∷ rest

unfoldable pub delete_entry : Key → List Entry → List Entry
delete_entry k [] = []
delete_entry k (t ∷ ts) = let rest = delete_entry k ts in if is_entry k t then ts else t ∷ rest

unfoldable pub change_relation : Text → Text → Text → Text → Text → MemoryStore → Result MemoryStore
change_relation group_id member_type member_id from to s =
    let from' = normalize_relation from in
    let to' = normalize_relation to in
    let old_key = key group_id from' member_type member_id in
    let target_key = key group_id to' member_type member_id in
    elim (find_entry old_key s.tuples) [
      | none ↦ err record_not_found
      | some old ↦ if from' == to' then ok s else elim (find_entry target_key s.tuples) [
        | none ↦ ok (record s { tuples = set_relation old_key to' s.tuples })
        | some target ↦ ok (record s {
          tuples =
              delete_entry old_key
                (set_expires target_key (later_expiry old.expires target.expires) s.tuples);
        })
      ]
    ]
