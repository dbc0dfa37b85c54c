-- ===== src/Store/State.antt =====
-- The state of the store in memory, and when an entry counts.
use role_provider_service.Base.{
  ℕ, Bool, true, ◌&&◌, List, [], Option, none, some, Text, ltb, ◌==◌, nat_eq, list_eq,
  if◌then◌else◌, is_empty, ◌||◌, length, take,
}
use role_provider_service.Common.Types.{Uuid, Time, Group, Source, SyncLog, Manager, Change}
use role_provider_service.Common.Token.{
  group_type, member_group, group_token, build_token, relation_member,
}

-- `memTuple`
pub record Entry : Type 0 where
  pub id : Uuid
  pub obj_id : Text
  pub relation : Text
  pub subj_type : Text
  pub subj_id : Text
  pub subj_rel : Text
  pub source_id : Option Uuid
  pub created : Time
  pub expires : Option Time

unfoldable pub live : Time → Entry → Bool
live now t = elim t.expires [ none ↦ true | some e ↦ ltb now e ]

-- `groups`, `sources` and `managers` are maps; a group and a source hold their key.
pub record MemoryStore : Type 0 where
  pub groups : List Group
  pub sources : List Source
  pub tuples : List Entry
  pub sync_logs : List SyncLog
  pub managers : List (Text × List Manager)
  pub changes : List Change

abbrev pub new_memory_store : MemoryStore
new_memory_store = record {
  groups = [];
  sources = [];
  tuples = [];
  sync_logs = [];
  managers = [];
  changes = [];
}

unfoldable pub subject : Text → Text → Text × Text
subject member_type member_id =
    if member_type == group_type then member_group member_id else (member_id, [])

unfoldable pub member_token : Text → Text → Text → Text
member_token subj_type subj_id subj_rel =
    if subj_type == group_type then group_token subj_id subj_rel else build_token subj_type subj_id

unfoldable pub filter_for : Text → Text
filter_for relation = if relation == relation_member then [] else relation

unfoldable pub relation_matches : Text → Text → Bool
relation_matches tuple_relation flt = is_empty flt || (tuple_relation == flt)

-- `if limit > 0 && len(out) > limit { out = out[:limit] }`; a negative limit is 0 here.
abbrev pub limited {ℓ} : {A : Type ℓ} → ℕ → List A → List A
limited limit out = if ltb 0 limit && ltb limit (length out) then take limit out else out
