-- ===== src/Sync/Tests.antt =====
-- Runs and instances of the theorems on the engine.
use mathlib.Core.List.Memᴰ
use role_provider_service.Base.{
  ℕ, ◌+◌, ◌≡◌, ◌↔◌, ◌⊎◌, inl, inr, refl, ap, List, [], ◌∷◌, Memᴰ, arith, Text, none, some, codes,
  Distinct, map, insert_sorted, sort, contains, filter, any, all, list_beq, pair_beq, option_beq,
}
use role_provider_service.Base.Result.{Error, ok, err, import_error}
use role_provider_service.Common.Types.{Uuid, Group, Source, TuplePair}
use role_provider_service.Common.Token.{user_type, relation_member}
use role_provider_service.Common.Relations.{Relations}
use role_provider_service.Store.State.{MemoryStore, new_memory_store}
use role_provider_service.Store.Sources.Frame.{data_of}
use role_provider_service.Sync.Checks.{check_ownership}
use role_provider_service.Sync.Checks.Ownership.{Free, check_ownership_iff}
use role_provider_service.Sync.Run.{Readers, run_sync, source_type_csv}
use role_provider_service.Sync.Run.Exact.{Imported, Taken, run_sync_exact, run_sync-groups}
use role_provider_service.Store.Sources.{
  get_source, find_source, create_sync_log, list_sources, update_source_sync_status,
  update_sync_log,
}
use role_provider_service.Sync.Run.{
  run_logged, deliver, parse_tuples, read_content, accept, finish, or_ignore, fetch_keycloak,
}
use role_provider_service.Sync.Checks.{
  check_relations, normalize_ids, check_pair, check_import_relation, normalize_pair, group_ids,
  add_group_ids, normalize_descriptions, owned_elsewhere, owner_of, put_description,
  reserved_elsewhere,
}
use role_provider_service.Common.Relations.{check}
use role_provider_service.Common.Glob.{glob_match, match_glob}
use role_provider_service.Common.Strings.{
  is_space, lower_char, trim_left, trim_right, trim_space, cut,
}
use role_provider_service.Common.Token.{
  normalize_id, normalize_relation, join_group_relation, member_group, split_group_relation,
}
use role_provider_service.Store.Groups.{
  find_group, group_owners, update_where, names_group, touches,
}
use role_provider_service.Store.Import.{
  describe, import_loop, import_step, is_stale, is_used, new_group, of_import, pair_key,
  replace_tuples, upsert_group,
}
use role_provider_service.Store.Listing.{add_new}
use role_provider_service.Store.Managers.{managers_of}
use role_provider_service.Store.State.{subject}
use role_provider_service.Base.{text_leb}
use role_provider_service.Base.{nat_eq, ◌↔◌, All, if◌then◌else◌}
use role_provider_service.Base.Result.{Result}
use role_provider_service.Common.Validate.{
  validate_group_id, validate_email, group_id_re, email_re, domain_re,
}
use role_provider_service.Common.Strings.{trim_prefix, cut_prefix, has_prefix, split}
use role_provider_service.Sync.Csv.{Record, CsvColumns, parse_csv}
use role_provider_service.Sync.Csv
use role_provider_service.Sync.Ldif.{
  Regexp, LdifEntry, parse_ldif, compile_group_relation_regexp, read_entries, read_entry,
  is_skipped, is_group_object_class, extract_cn, until_comma, target_of, split_by_relation_regexp,
  submatch, add_members, member_dns, extract_via_regexp, describe_entry, first_value,
}
use role_provider_service.Sync.Ldif.Sound.{UserTuple, parse_ldif-UserTuple}
use role_provider_service.Sync.Scheduler.{CronEntry, Scheduler, register}
use role_provider_service.Sync.Scheduler.Jobs.{Without}
use role_provider_service.Sync.Scheduler.Runs.{Reached, new, register_scheduled}
use role_provider_service.Sync.Scheduler.Samples.{list_cron}

abbrev group_of : Text → Uuid → Group
group_of id source = record {
  id = id;
  token = [];
  display_name = id;
  description = [];
  source_id = some source;
  source_name = [];
  relations = [];
  created_at = 0;
  updated_at = 0;
}

abbrev source_of : Uuid → List Text → Source
source_of id reserved = record {
  id = id;
  name = [];
  typ = source_type_csv;
  schedule = [];
  dn_email_regexp = [];
  group_relation_regexp = [];
  file_path = [];
  last_synced_at = none;
  last_sync_status = [];
  created_at = 0;
  updated_at = 0;
  reserved_names = reserved;
}

-- Source 1 owns wwi, source 2 owns staff and has reserved what begins with "st".
abbrev campus : MemoryStore
campus = record new_memory_store {
  groups = group_of (codes "wwi") 1 ∷ group_of (codes "staff") 2 ∷ [];
  sources = source_of 1 [] ∷ source_of 2 (codes "st*" ∷ []) ∷ [];
}

-- Each upload says that Anna is in wwi.
abbrev readers : Readers
readers = record {
  open_file = λ path. err import_error;
  parse_csv = λ text. ok (
    record {
      group_id = codes "WWI";
      relation = [];
      member_type = user_type;
      member_id = codes "Anna@DHBW.de";
    }
        ∷ [],
    [],
  );
  parse_ldif = λ text dn group. err import_error;
  keycloak = none;
  message = λ e. [];
}

abbrev relations : Relations
relations = record { allowed = relation_member ∷ [] }

check_ownership_iff_example :
    (check_ownership 1 (codes "wwi" ∷ codes "wwi24" ∷ []) campus ≡ ok tt)
    ↔ ((id : Text) → Memᴰ id (codes "wwi" ∷ codes "wwi24" ∷ []) → Free 1 campus id)
check_ownership_iff_example = check_ownership_iff 1 (codes "wwi" ∷ codes "wwi24" ∷ []) campus

run_sync_exact_example :
    let (after, answer) = run_sync readers relations 5 (λ n. 100 + n) 9 1 (some []) campus in
    ((e : Error) × (answer ≡ err e) × (data_of after ≡ data_of campus))
    ⊎ ((ps : List TuplePair) × (answer ≡ ok tt)
        × Taken readers relations 1 (some []) campus ps
        × Imported 1 ps campus after)
run_sync_exact_example = run_sync_exact readers relations 5 (λ n. 100 + n) 9 1 (some []) campus

abbrev initial : Text → ℕ
initial [] = 0
initial (c ∷ s) = c

campus-Distinct : Distinct (map (λ (g : Group). g.id) campus.groups)
campus-Distinct = (
  λ m. elim (Memᴰ.cases_cons m) [
    | inl e ↦ omega (arith, ap initial e)
    | inr n ↦ absurd (Memᴰ.not-nil n)
  ],
  (Memᴰ.not-nil, tt),
)

run_sync-groups_example :
    Memᴰ
      (group_of (codes "staff") 2)
      (run_sync readers relations 5 (λ n. 100 + n) 9 1 (some []) campus).0.groups
run_sync-groups_example =
    run_sync-groups readers relations 5 (λ n. 100 + n) 9 1 (some []) campus
      (group_of (codes "staff") 2) campus-Distinct (Memᴰ.tail (Memᴰ.head refl)) (λ e. cc)

answers : (run_sync readers relations 5 (λ n. 100 + n) 9 1 (some []) campus).1 ≡ ok tt
unfolding run_sync check_ownership list_beq all option_beq pair_beq any filter contains
    insert_sorted sort get_source find_source create_sync_log list_sources update_source_sync_status
    update_sync_log run_logged deliver parse_tuples read_content accept finish or_ignore
    fetch_keycloak check_relations normalize_ids check_pair check_import_relation normalize_pair
    group_ids add_group_ids normalize_descriptions owned_elsewhere owner_of put_description
    reserved_elsewhere check glob_match match_glob is_space lower_char trim_left trim_right
    trim_space cut normalize_id normalize_relation join_group_relation member_group
    split_group_relation find_group group_owners update_where names_group touches describe
    import_loop import_step is_stale is_used new_group of_import pair_key replace_tuples
    upsert_group add_new managers_of subject text_leb
answers = refl

-- A file with a header, a member with a role, a group as member, and a row without a member.
abbrev sample_rows : List (Result Record)
sample_rows =
    ok (codes "Group" ∷ codes "member" ∷ codes "relation" ∷ [])
    ∷ ok (codes "WWI" ∷ codes "Anna@DHBW.de" ∷ codes "dozent" ∷ [])
    ∷ ok (codes "wwi" ∷ codes "group:staff" ∷ [])
    ∷ ok (codes "wwi" ∷ [])
    ∷ []

abbrev sample_columns : CsvColumns
sample_columns = record { group = some 0; member = some 1; description = none; relation = some 2 }

abbrev sample_body : List (Result Record)
sample_body =
    ok (codes "WWI" ∷ codes "Anna@DHBW.de" ∷ codes "dozent" ∷ [])
    ∷ ok (codes "wwi" ∷ codes "group:staff" ∷ [])
    ∷ ok (codes "wwi" ∷ [])
    ∷ []

abbrev sample_tuples : List TuplePair
sample_tuples =
    record {
      group_id = codes "wwi";
      relation = codes "dozent";
      member_type = user_type;
      member_id = codes "anna@dhbw.de";
    }
    ∷ record {
      group_id = codes "wwi";
      relation = relation_member;
      member_type = codes "group";
      member_id = codes "staff";
    }
    ∷ []

-- An expression that takes the text after "mail=".
abbrev mail_regexp : Regexp
mail_regexp = record {
  find_submatch = λ dn. some (dn ∷ trim_prefix (codes "mail=") dn ∷ []);
  num_subexp = 1;
  subexp_index = λ name. none;
}

abbrev sample_values : Text → List Text
sample_values attribute =
    if list_beq attribute (codes "objectClass")
    then codes "groupOfNames" ∷ []
    else if list_beq attribute (codes "member")
    then codes "mail=Anna@DHBW.de" ∷ []
    else []

abbrev sample_entry : LdifEntry
sample_entry = record { dn = codes "CN=wwi,ou=groups"; attribute_values = sample_values }

abbrev anna_in_wwi : TuplePair
anna_in_wwi = record {
  group_id = codes "wwi";
  relation = relation_member;
  member_type = user_type;
  member_id = codes "anna@dhbw.de";
}

sample_ldif :
    parse_ldif (λ expr. ok mail_regexp) (λ text. ok (some sample_entry ∷ none ∷ [])) [] [] []
    ≡ ok (anna_in_wwi ∷ [], [])
unfolding parse_ldif compile_group_relation_regexp read_entries read_entry is_skipped
    is_group_object_class extract_cn until_comma target_of split_by_relation_regexp submatch
    add_members member_dns extract_via_regexp describe_entry first_value trim_prefix cut_prefix
    trim_space trim_left trim_right is_space lower_char list_beq normalize_id has_prefix contains
    validate_group_id validate_email group_id_re email_re domain_re cut split all any
sample_ldif = refl

parse_ldif-UserTuple_example : All UserTuple (anna_in_wwi ∷ [])
parse_ldif-UserTuple_example =
    parse_ldif-UserTuple (λ expr. ok mail_regexp) (λ text. ok (some sample_entry ∷ none ∷ [])) [] []
      [] (anna_in_wwi ∷ [], []) sample_ldif

abbrev no_jobs : Scheduler list_cron
unfolding list_cron
no_jobs = record { cron = []; jobs = [] }

register_scheduled_example :
    (s' : Scheduler list_cron) × (register list_cron 1 (codes "@daily") no_jobs ≡ ok s')
    × Reached list_cron s'
    × ((id : ℕ) × ((e : CronEntry)
          → Memᴰ e (list_cron.entries s'.cron)
            ↔ ((e ≡ (id, (codes "@daily", 1))) ⊎ Without list_cron 1 no_jobs e)))
unfolding list_cron
register_scheduled_example =
    register_scheduled list_cron 1 (codes "@daily") no_jobs (new [] refl) refl
