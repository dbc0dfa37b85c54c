-- ===== src/Store/Import.antt =====
-- `ReplaceTuples`: makes a source's entries exactly what its import says.
pub mod Keep
pub mod Exact
pub mod Foreign
use role_provider_service.Base.{
  ℕ, suc, Bool, not, ◌&&◌, ◌||◌, List, [], ◌∷◌, ◌++◌, Option, none, some, Text, ◌==◌, nat_eq,
  list_eq, pair_eq, option_eq, if◌then◌else◌, contains, length, map, filter, any, is_empty,
}
use role_provider_service.Common.Types.{Uuid, Time, Group, Manager, TuplePair}
use role_provider_service.Common.Token.{group_prefix, normalize_relation}
use role_provider_service.Store.State.{Entry, MemoryStore, subject}
use role_provider_service.Store.Entries.{Key, key_of, key}
use role_provider_service.Store.Groups.{find_group, names_group, touches, update_where}
use role_provider_service.Store.Managers.{managers_of}

-- Group descriptions by group id.
abbrev pub Descriptions : Type 0
Descriptions = List (Text × Text)

unfoldable pub describe : Text → Descriptions → Option Text
describe id [] = none
describe id ((g, d) ∷ m) = let rest = describe id m in if g == id then some d else rest

unfoldable pub of_import : Uuid → Entry → Bool
of_import source t = t.source_id == some source

-- The key under which a tuple of the import is stored.
unfoldable pub pair_key : TuplePair → Key
pair_key p = key p.group_id (normalize_relation p.relation) p.member_type p.member_id

unfoldable pub new_group : Time → Uuid → Descriptions → Text → Group
new_group now source descriptions id = record {
  id = id;
  token = group_prefix ++ id;
  display_name = id;
  description = elim (describe id descriptions) [ none ↦ [] | some d ↦ d ];
  source_id = some source;
  source_name = [];
  relations = [];
  created_at = now;
  updated_at = now;
}

-- Creates a missing group, and keeps an existing group's description in step.
unfoldable pub upsert_group : Time → Uuid → Descriptions → Text → List Group → List Group
upsert_group now source descriptions id gs = elim (find_group id gs) [
  | none ↦ gs ++ new_group now source descriptions id ∷ []
  | some g ↦ elim (describe id descriptions) [
    | none ↦ gs
    | some d ↦
        if g.description == d
        then gs
        else update_where (λ x. x.id == id) (λ x. record x { description = d; updated_at = now }) gs
  ]
]

-- What the loop over the import changes.
pub record Progress : Type 0 where
  pub groups : List Group
  pub tuples : List Entry
  pub new_set : List Key
  pub added : ℕ

new_entry : Time → (ℕ → Uuid) → Uuid → ℕ → TuplePair → Entry
new_entry now fresh source n p =
    let (subj_id, subj_rel) = subject p.member_type p.member_id in
    record {
      id = fresh n;
      obj_id = p.group_id;
      relation = normalize_relation p.relation;
      subj_type = p.member_type;
      subj_id = subj_id;
      subj_rel = subj_rel;
      source_id = some source;
      created = now;
      expires = none;
    }

-- One round: `existing` are the keys of the source's entries before the import.
unfoldable pub import_step :
    Time → (ℕ → Uuid) → Uuid → Descriptions → List Key → Progress → TuplePair → Progress
unfolding new_entry
import_step now fresh source descriptions existing g p =
    let k = pair_key p in
    if contains g.new_set k
    then g
    else (let groups = upsert_group now source descriptions p.group_id g.groups in
        if contains existing k
        then record g { groups = groups; new_set = k ∷ g.new_set }
        else record {
          groups = groups;
          tuples = g.tuples ++ new_entry now fresh source g.added p ∷ [];
          new_set = k ∷ g.new_set;
          added = suc g.added;
        })

unfoldable pub import_loop :
    Time → (ℕ → Uuid) → Uuid → Descriptions → List Key → Progress → List TuplePair → Progress
import_loop now fresh source descriptions existing g [] = g
import_loop now fresh source descriptions existing g (p ∷ ps) =
    import_loop now fresh source descriptions existing
      (import_step now fresh source descriptions existing g p) ps

-- An entry of this source that its import does not say any more.
unfoldable pub is_stale : Uuid → List Key → Entry → Bool
is_stale source new_set t = of_import source t && not (contains new_set (key_of t))

-- A group with something in it, or that something points at.
unfoldable pub is_used : Text → List Entry → List (Text × List Manager) → Bool
is_used id tuples managers =
    not (is_empty (managers_of id managers))
    || any (touches id) tuples
    || any (λ (gid, ms). any (names_group id) ms) managers

unfoldable pub replace_tuples :
    Time → (ℕ → Uuid) → Uuid → List TuplePair → Descriptions → MemoryStore → MemoryStore × ℕ × ℕ
replace_tuples now fresh source new_tuples descriptions s =
    let existing = map key_of (filter (of_import source) s.tuples) in
    let g =
      import_loop now fresh source descriptions existing
        (record { groups = s.groups; tuples = s.tuples; new_set = []; added = 0 }) new_tuples in
    let kept = filter (λ t. not (is_stale source g.new_set t)) g.tuples in
    (
      record s {
        groups =
            filter (λ x. not (x.source_id == some source) || is_used x.id kept s.managers) g.groups;
        tuples = kept;
      },
      g.added,
      length (filter (is_stale source g.new_set) g.tuples),
    )
