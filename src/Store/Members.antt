-- ===== src/Store/Members.antt =====
-- `GetAllMembers`: everyone a group counts, through its sub-groups. The queue holds groups with the
-- relation asked of them.
pub mod Meaning
pub mod Scan
pub mod Invariant
pub mod Correct
use role_provider_service.Base.{
  ℕ, zero, suc, ◌+◌, ◌*◌, Bool, not, ◌&&◌, ◌||◌, List, [], ◌∷◌, ◌++◌, Option, none, some, Text,
  ◌==◌, nat_eq, list_eq, pair_eq, list_beq, pair_beq, if◌then◌else◌, contains, length,
}
use role_provider_service.Common.Types.{Time}
use role_provider_service.Common.Token.{group_type, pattern_type, normalize_relation}
use role_provider_service.Store.State.{
  Entry, MemoryStore, live, member_token, filter_for, relation_matches,
}
use role_provider_service.Store.Listing.{add_new}

abbrev pub Step : Type 0
Step = Text × Text

-- The entries that the inner loop does not skip.
unfoldable pub counts : Time → Step → Entry → Bool
counts now (group, relation) t = not (
    not (t.obj_id == group)
    || (t.subj_type == pattern_type)
    || not (live now t)
    || not (relation_matches t.relation (filter_for relation)))

-- The inner loop: the tokens seen and the queue.
unfoldable pub scan_members :
    Time → Step → List Entry → List Text → List Step → List Text × List Step
scan_members now current [] tokens queue = (tokens, queue)
scan_members now current (t ∷ ts) tokens queue =
    let take = counts now current t in
    scan_members now current ts
      (if take then add_new tokens (member_token t.subj_type t.subj_id t.subj_rel) else tokens)
      (if take && (t.subj_type == group_type) then queue ++ (t.subj_id, t.subj_rel) ∷ [] else queue)

-- The outer loop; `none` means that the fuel ran out.
unfoldable pub members_loop :
    ℕ → Time → List Entry → List Step → List Step → List Text → Option (List Text)
members_loop zero now ts visited queue tokens = none
members_loop (suc fuel) now ts visited [] tokens = some tokens
members_loop (suc fuel) now ts visited (current ∷ queue) tokens =
    let skip = members_loop fuel now ts visited queue tokens in
    let scanned = scan_members now current ts tokens queue in
    let go = members_loop fuel now ts (current ∷ visited) scanned.1 scanned.0 in
    if contains visited current then skip else go

-- Each entry is queued at most once for each step that is expanded, and the first step and the
-- entries' subjects are all that can be expanded.
abbrev pub members_fuel : ℕ → ℕ
members_fuel n = 2 + n * (n + 1)

unfoldable pub get_all_members : Time → Text → Text → MemoryStore → Option (List Text)
get_all_members now group_id relation s =
    members_loop (members_fuel (length s.tuples)) now s.tuples []
      ((group_id, normalize_relation relation) ∷ []) []
