-- ===== src/Store/Tests.antt =====
-- Runs and instances of the theorems on the store.
use mathlib.Core.List.Memᴰ
use role_provider_service.Base.{
  ℕ, ◌+◌, ◌≡◌, ◌↔◌, ◌⊎◌, inl, inr, refl, ap, List, [], ◌∷◌, ◌++◌, Memᴰ, All, not-mem_of_All,
  Distinct, arith, Text, Option, none, some, codes, list_beq, pair_beq, contains, if◌then◌else◌,
  ◌==◌, nat_eq, list_eq, pair_eq, map, ◌≢◌, true,
}
use role_provider_service.Common.Strings.{has_prefix, trim_prefix, cut_prefix, cut}
use role_provider_service.Common.Token.{split_group_relation}
use role_provider_service.Base.{filter}
use role_provider_service.Base.Result.{ok, err, record_not_found}
use role_provider_service.Common.Types.{Time, Manager}
use role_provider_service.Common.Token.{
  build_token, user_type, group_type, relation_member, user_prefix, group_token, normalize_relation,
}
use role_provider_service.Common.Glob.{match_email_pattern}
use role_provider_service.Store.State.{
  Entry, MemoryStore, new_memory_store, live, member_token, filter_for, relation_matches,
}
use role_provider_service.Store.Listing.{add_new}
use role_provider_service.Store.Entries.{
  key_of, Key, key, add_member, remove_member, change_relation,
}
use role_provider_service.Store.Entries.Keys.{Unique, validity}
use role_provider_service.Common.Types.{Uuid}
use role_provider_service.Store.Entries.Uniqueness.{entries-Unique}
use role_provider_service.Store.Entries.Changes.{
  Later, validity-add_member, validity-remove_member, validity-change_relation,
}
use role_provider_service.Common.Types.{TuplePair}
use role_provider_service.Store.Import.{of_import, pair_key, replace_tuples}
use role_provider_service.Store.Import.Keep.{Has, others}
use role_provider_service.Store.Import.Exact.{replace_tuples_exact}
use role_provider_service.Store.Groups.{find_group, delete_group, names_group}
use role_provider_service.Store.Groups.Deletion.{Mentions, IsTokenOf, delete_group_correct}
use role_provider_service.Store.Managers.{managers_of}
use role_provider_service.Store.Members.{get_all_members, members_loop, scan_members, counts}
use role_provider_service.Store.Members.Meaning.{InGroup}
use role_provider_service.Store.Members.Correct.{get_all_members_correct}
use role_provider_service.Store.Tokens.{
  Pair, get_user_tokens, held_pairs, tokens_loop, add_pairs, add_pair, names, hands_on, tokens_of,
}
use role_provider_service.Store.Tokens.Meaning.{Holds, TokenFor}
use role_provider_service.Store.Tokens.Correct.{held_pairs_correct}
use role_provider_service.Store.Tokens.Answer.{get_user_tokens_correct}
use role_provider_service.Store.Duality.{members_agree_tokens}
use role_provider_service.Store.Duality.Pairs.{Normal, NoPatternFor}

abbrev entry_of : Text → Text → Text → Text → Text → Entry
entry_of group_id relation subj_type subj_id subj_rel = record {
  id = 0;
  obj_id = group_id;
  relation = relation;
  subj_type = subj_type;
  subj_id = subj_id;
  subj_rel = subj_rel;
  source_id = some 7;
  created = 1;
  expires = none;
}

abbrev wwi : Text
wwi = codes "wwi"

abbrev staff : Text
staff = codes "staff"

abbrev anna : Text
anna = codes "anna@dhbw.de"

-- Anna is a member of wwi, and those of wwi are members of staff.
abbrev two_entries : List Entry
two_entries =
    entry_of wwi relation_member user_type anna []
    ∷ entry_of staff relation_member group_type wwi relation_member
    ∷ []

abbrev campus : MemoryStore
campus = record new_memory_store { tuples = two_entries }

members_run :
    get_all_members 5 staff [] campus ≡ some (codes "group:wwi" ∷ codes "user:anna@dhbw.de" ∷ [])
unfolding get_all_members members_loop scan_members counts live filter_for relation_matches
    member_token contains list_beq pair_beq add_new normalize_relation group_token build_token
members_run = refl

tokens_run :
    get_user_tokens 5 anna campus
    ≡ some (codes "user:anna@dhbw.de" ∷ codes "group:wwi" ∷ codes "group:staff" ∷ [])
unfolding get_user_tokens held_pairs tokens_loop add_pairs add_pair names hands_on live contains
    list_beq pair_beq tokens_of match_email_pattern group_token
tokens_run = refl

get_all_members_correct_example :
    (out : List Text) × (get_all_members 5 staff [] campus ≡ some out)
    × Distinct out
    × ((tok : Text) → Memᴰ tok out ↔ InGroup 5 two_entries (staff, normalize_relation []) tok)
get_all_members_correct_example = get_all_members_correct 5 staff [] campus

held_pairs_correct_example :
    (out : List Pair) × (held_pairs 5 anna two_entries ≡ some out)
    × Distinct out
    × ((p : Pair) → Memᴰ p out ↔ Holds 5 anna two_entries p)
held_pairs_correct_example = held_pairs_correct 5 anna two_entries

get_user_tokens_correct_example :
    (out : List Text) × (get_user_tokens 5 anna campus ≡ some out)
    × ((tok : Text) → Memᴰ tok out ↔ TokenFor 5 anna two_entries tok)
get_user_tokens_correct_example = get_user_tokens_correct 5 anna campus

two_entries-Normal : All Normal two_entries
two_entries-Normal = (
  record {
    typed = inr (inl refl);
    group_rel = λ e. cc;
    plain_id = not-mem_of_All b'#' wwi (omega arith);
  },
  (
    record {
      typed = inl refl;
      group_rel = λ e f. cc;
      plain_id = not-mem_of_All b'#' staff (omega arith);
    },
    tt,
  ),
)

two_entries-NoPatternFor : All (NoPatternFor anna) two_entries
two_entries-NoPatternFor = (λ e. cc, (λ e. cc, tt))

members_agree_tokens_example :
    Memᴰ (user_prefix ++ anna) (codes "group:wwi" ∷ codes "user:anna@dhbw.de" ∷ [])
    ↔ Memᴰ
        (group_token staff [])
        (codes "user:anna@dhbw.de" ∷ codes "group:wwi" ∷ codes "group:staff" ∷ [])
members_agree_tokens_example =
    members_agree_tokens 5 campus staff [] anna (codes "group:wwi" ∷ codes "user:anna@dhbw.de" ∷ [])
      (codes "user:anna@dhbw.de" ∷ codes "group:wwi" ∷ codes "group:staff" ∷ []) two_entries-Normal
      two_entries-NoPatternFor (not-mem_of_All b'#' staff (omega arith)) members_run tokens_run

abbrev anna_key : Text → Key
anna_key relation = key wwi relation user_type anna

validity-add_member_example :
    validity
      (anna_key relation_member)
      (add_member 5 9 wwi [] user_type anna (some 7) (some 20) campus).tuples
    ≡ (if anna_key relation_member == key wwi (normalize_relation []) user_type anna
        then some (some 20)
        else validity (anna_key relation_member) two_entries)
validity-add_member_example =
    validity-add_member 5 9 wwi [] user_type anna (some 7) (some 20) campus
      (anna_key relation_member)

validity-remove_member_example :
    validity (anna_key relation_member) (remove_member wwi [] user_type anna campus).tuples ≡ (
      if anna_key relation_member == key wwi (normalize_relation []) user_type anna
      then none
      else validity (anna_key relation_member) two_entries)
validity-remove_member_example =
    validity-remove_member wwi [] user_type anna campus (anna_key relation_member)

abbrev initial : Text → ℕ
initial [] = 0
initial (c ∷ s) = c

two_entries-Unique : Unique two_entries
two_entries-Unique = (
  λ m. elim (Memᴰ.cases_cons m) [
    | inl e ↦ omega (arith, ap (λ (k : Key). initial k.0) e)
    | inr n ↦ absurd (Memᴰ.not-nil n)
  ],
  (Memᴰ.not-nil, tt),
)

validity-change_relation_example :
    (validity (anna_key relation_member) two_entries ≡ none)
      × (change_relation wwi user_type anna relation_member (codes "dozent") campus
          ≡ err record_not_found)
    ⊎ ((old : Option Time) × (later : Option Time) × (after : MemoryStore) × (validity
            (anna_key relation_member)
            two_entries
          ≡ some old)
        × (change_relation wwi user_type anna relation_member (codes "dozent") campus ≡ ok after)
        × Later old (validity (anna_key (codes "dozent")) two_entries) later
        × ((j : Key)
            → validity j after.tuples ≡ (
                if j == anna_key (codes "dozent")
                then some later
                else (if j == anna_key relation_member then none else validity j two_entries))))
unfolding normalize_relation
validity-change_relation_example =
    validity-change_relation wwi user_type anna relation_member (codes "dozent") campus
      two_entries-Unique

-- Anna is in wwi as before, and Ben is new.
abbrev said : List TuplePair
said =
    record { group_id = wwi; relation = []; member_type = user_type; member_id = anna }
    ∷ record {
      group_id = wwi;
      relation = [];
      member_type = user_type;
      member_id = codes "ben@dhbw.de";
    }
    ∷ []

replace_tuples_exact_example :
    let after = (replace_tuples 5 (λ n. 100 + n) 7 said [] campus).0.tuples in
    ((k : Key) → Has 7 after k ↔ Memᴰ k (map pair_key said))
    × (others 7 after ≡ others 7 two_entries)
    × ((t : Entry)
        → Memᴰ t two_entries
        → of_import 7 t ≡ true
        → Memᴰ (key_of t) (map pair_key said)
        → Memᴰ t after)
replace_tuples_exact_example = replace_tuples_exact 5 (λ n. 100 + n) 7 said [] campus

abbrev manager_of : Text → Manager
manager_of token = record { token = token; created_by = codes "admin"; created_at = 1 }

-- Those who teach wwi maintain staff, and so does Anna.
abbrev maintained : List (Text × List Manager)
maintained =
    (staff, manager_of (codes "group:wwi#dozent") ∷ manager_of (codes "user:anna@dhbw.de") ∷ [])
    ∷ (wwi, manager_of (codes "group:staff") ∷ [])
    ∷ []

abbrev maintained_campus : MemoryStore
maintained_campus = record campus { managers = maintained }

deleted_managers :
    (delete_group wwi maintained_campus).managers
    ≡ ((staff, manager_of (codes "user:anna@dhbw.de") ∷ []) ∷ [])
unfolding delete_group names_group has_prefix trim_prefix cut_prefix split_group_relation cut filter
    list_beq
deleted_managers = refl

delete_group_correct_example :
    ((x : Text)
      → find_group x (delete_group wwi maintained_campus).groups
        ≡ (if x == wwi then none else find_group x []))
    × ((t : Entry)
        → Memᴰ t (delete_group wwi maintained_campus).tuples
          ↔ (Memᴰ t two_entries × ¬ Mentions wwi t))
    × ((x : Text) (m : Manager)
        → Memᴰ m (managers_of x (delete_group wwi maintained_campus).managers)
          ↔ ((x ≢ wwi) × Memᴰ m (managers_of x maintained) × (¬ IsTokenOf wwi m)))
delete_group_correct_example = delete_group_correct wwi maintained_campus

entries-Unique_example :
    ((now : Time) (fresh : Uuid) (group_id relation member_type member_id : Text)
        (source_id : Option Uuid) (expires_at : Option Time)
      → Unique
          (add_member now fresh group_id relation member_type member_id source_id expires_at
            campus).tuples)
    × ((group_id relation member_type member_id : Text)
        → Unique (remove_member group_id relation member_type member_id campus).tuples)
    × ((group_id member_type member_id from to : Text) (after : MemoryStore)
        → change_relation group_id member_type member_id from to campus ≡ ok after
        → Unique after.tuples)
entries-Unique_example = entries-Unique campus two_entries-Unique
