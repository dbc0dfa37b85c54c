-- ===== src/Service/Tests.antt =====
-- Runs and instances of the theorems on the service.
use mathlib.Core.List.Memᴰ
use role_provider_service.Base.{
  All, not-mem_of_All, ℕ, List, length, min, at_least_zero, max_int, pos, ◌≤◌, ◌<◌, ◌+◌, ◌≡◌, ◌∙◌,
  sort, ◌≢◌, ◌↔◌, ◌⊎◌, inl, inr, refl, sym, ap, false, [], ◌∷◌, arith, Text, none, some, codes,
  list_beq, pair_beq, contains, insert_sorted, filter, text_leb,
}
use role_provider_service.Base.Result.{Error, ok, err, cycle}
use role_provider_service.Common.Types.{Group}
use role_provider_service.Common.Token.{group_type, relation_member}
use role_provider_service.Store.State.{Entry, MemoryStore, new_memory_store, live}
use role_provider_service.Store.Listing.{group_edges}
use role_provider_service.Store.Listing.Edges.{Contains}
use role_provider_service.Service.State.{Caller, Service, World, api_token_caller}
use role_provider_service.Service.Access.{local_group}
use role_provider_service.Service.Access.Rights.{MayChange, local_group_iff}
use role_provider_service.Service.Cycle.{check_no_cycle, search_cycle, visit, children}
use role_provider_service.Service.Cycle.Meaning.{Below, last, more}
use role_provider_service.Service.Cycle.Correct.{check_no_cycle_correct}
use role_provider_service.Service.Membership.{add_member, remove_member, change_relation}
use role_provider_service.Service.Managing.{add_manager, remove_manager}
use role_provider_service.Service.Catalog.{create_group, update_group, delete_group}
use role_provider_service.Service.Catalog.Creation.{Created, create_group_correct}
use role_provider_service.Service.Membership.Shape.{PlainId, add_member-Normal}
use role_provider_service.Store.Duality.Pairs.{Normal}
use role_provider_service.Service.Guards.{Guarded, handlers-Guarded}
use role_provider_service.Service.Membership.Nesting.{Acyclic}
use role_provider_service.Service.Membership.Adding.{add_member-Acyclic}
use role_provider_service.Service.Membership.Effect.{Added, add_member_correct}
use role_provider_service.Service.Membership.{
  check_add_member, check_member_relation, check_expiry, check_nesting, with_member,
}
use role_provider_service.Service.State.{
  check_relation, parse_member_token, parse_group_token, record_change, signed,
}
use role_provider_service.Common.Relations.{check, relation_name}
use role_provider_service.Common.Token.{
  parse_token, normalize_id, build_token, join_group_relation, member_group, normalize_relation,
  split_group_relation,
}
use role_provider_service.Common.Validate.{
  validate_member, domain_re, email_re, group_id_re, validate_email, validate_group_id,
}
use role_provider_service.Common.Strings.{
  lower_char, has_prefix, cut, cut_prefix, is_space, split, trim_left, trim_prefix, trim_right,
  trim_space,
}
use role_provider_service.Service.Access.{get_known_group, is_local, may_manage}
use role_provider_service.Store.Groups.{find_group}
use role_provider_service.Store.Managers.{list_managers, managers_of}
use role_provider_service.Base.{option_beq, all, any}
use role_provider_service.Base.{pos, List}
use role_provider_service.Service.Browse.{
  BrowseQuery, GroupPage, page, page_end, at_most, cut_out, path_down,
}
use role_provider_service.Service.Browse.Page.{IsPage, page-IsPage}
use role_provider_service.Service.Browse.Path.Down.{IsPath, path_down-IsPath}

abbrev wwi : Text
wwi = codes "wwi"

abbrev staff : Text
staff = codes "staff"

abbrev group_of : Text → Group
group_of id = record {
  id = id;
  token = codes "group:";
  display_name = id;
  description = [];
  source_id = some 7;
  source_name = [];
  relations = [];
  created_at = 0;
  updated_at = 0;
}

-- Those of wwi are members of staff.
abbrev nested_entry : Entry
nested_entry = record {
  id = 0;
  obj_id = staff;
  relation = relation_member;
  subj_type = group_type;
  subj_id = wwi;
  subj_rel = relation_member;
  source_id = some 7;
  created = 1;
  expires = none;
}

abbrev campus : MemoryStore
campus = record new_memory_store {
  groups = group_of wwi ∷ group_of staff ∷ [];
  tuples = nested_entry ∷ [];
  managers =
      (wwi, record { token = codes "user:anna@dhbw.de"; created_by = []; created_at = 0 } ∷ [])
      ∷ [];
}

abbrev anna : Caller
anna = record {
  actor = codes "anna@dhbw.de";
  on_behalf_of = [];
  tokens = codes "user:anna@dhbw.de" ∷ [];
  admin = false;
}

abbrev service : Service
service = record {
  relations = record { allowed = relation_member ∷ codes "dozent" ∷ [] };
  local_id = 7;
}

abbrev world : World
world = record { now = 5; fresh = λ n. 100 + n }

cycle_run : check_no_cycle 5 wwi staff campus ≡ err cycle
unfolding check_no_cycle group_edges live list_beq sort insert_sorted contains search_cycle visit
    children filter pair_beq text_leb
cycle_run = refl

check_no_cycle_correct_example :
    (check_no_cycle 5 wwi staff campus ≡ ok tt)
      × (wwi ≢ staff)
      × (¬ Below (Contains 5 campus.tuples) staff wwi)
    ⊎ (check_no_cycle 5 wwi staff campus ≡ err cycle)
      × ((wwi ≡ staff) ⊎ Below (Contains 5 campus.tuples) staff wwi)
check_no_cycle_correct_example = check_no_cycle_correct 5 wwi staff campus

local_group_iff_example :
    (local_group service anna (codes "group:wwi") campus ≡ ok (group_of wwi))
    ↔ MayChange service anna (codes "group:wwi") campus (group_of wwi)
local_group_iff_example = local_group_iff service anna (codes "group:wwi") campus (group_of wwi)

abbrev initial : Text → ℕ
initial [] = 0
initial (c ∷ s) = c

Contains-campus : {a b : Text} → Contains 5 campus.tuples a b → (a ≡ staff) × (b ≡ wwi)
Contains-campus (t, m, n) = elim (Memᴰ.cases_cons m) [
  | inl e ↦
      (sym n.outer ∙ ap (λ (x : Entry). x.obj_id) e, sym n.inner ∙ ap (λ (x : Entry). x.subj_id) e)
  | inr k ↦ absurd (Memᴰ.not-nil k)
]

Below-campus : {a b : Text} → Below (Contains 5 campus.tuples) a b → (a ≡ staff) × (b ≡ wwi)
Below-campus (last c) = Contains-campus c
Below-campus (more c p) = ((Contains-campus c).0, (Below-campus p).1)

campus-Acyclic : Acyclic (Contains 5 campus.tuples)
campus-Acyclic a p = let (e, f) = Below-campus p in omega (arith, ap initial e, ap initial f)

add_member-Acyclic_example : Acyclic (
    Contains 5
      (add_member world service anna
        (codes "group:wwi")
        []
        (codes "group:staff")
        none
        campus).0.tuples)
add_member-Acyclic_example =
    add_member-Acyclic world service anna (codes "group:wwi") [] (codes "group:staff") none campus
      campus-Acyclic

add_member_correct_example :
    ((e : Error) × (add_member world service anna
          (codes "wwi")
          []
          (codes "user:b@dhbw.de")
          (some 9)
          campus
        ≡ (campus, err e)))
    ⊎ ((x : Group × (Text × (Text × Text))) × (s' : MemoryStore) × (add_member world service anna
            (codes "wwi")
            []
            (codes "user:b@dhbw.de")
            (some 9)
            campus
          ≡ (s', ok tt))
        × Added world service anna (codes "wwi") [] (codes "user:b@dhbw.de") (some 9) campus s' x)
add_member_correct_example =
    add_member_correct world service anna (codes "wwi") [] (codes "user:b@dhbw.de") (some 9) campus

create_group_correct_example :
    ((e : Error) × (create_group world service api_token_caller
          (codes "tin24")
          []
          []
          (codes "group:wwi" ∷ [])
          campus
        ≡ (campus, err e)))
    ⊎ ((g : Group) × (s' : MemoryStore) × (create_group world service api_token_caller
            (codes "tin24")
            []
            []
            (codes "group:wwi" ∷ [])
            campus
          ≡ (s', ok g))
        × Created service api_token_caller (codes "tin24") [] [] campus s' g)
create_group_correct_example =
    create_group_correct world service api_token_caller (codes "tin24") [] []
      (codes "group:wwi" ∷ []) campus

handlers-Guarded_example :
    ((relation member : Text)
      → Guarded service anna
          (codes "wwi")
          campus
          (remove_member world service anna (codes "wwi") relation member campus))
    × ((member from to : Text)
        → Guarded service anna
            (codes "wwi")
            campus
            (change_relation world service anna (codes "wwi") member from to campus))
    × ((manager : Text)
        → Guarded service anna
            (codes "wwi")
            campus
            (add_manager world service anna (codes "wwi") manager campus))
    × ((manager : Text)
        → Guarded service anna
            (codes "wwi")
            campus
            (remove_manager world service anna (codes "wwi") manager campus))
    × ((name description : Text)
        → Guarded service anna
            (codes "wwi")
            campus
            (update_group world service anna (codes "wwi") name description campus))
    × Guarded service anna
        (codes "wwi")
        campus
        (delete_group world service anna (codes "wwi") campus)
handlers-Guarded_example = handlers-Guarded world service anna (codes "wwi") campus

campus-PlainId : All PlainId campus.groups
campus-PlainId =
    (not-mem_of_All b'#' wwi (omega arith), (not-mem_of_All b'#' staff (omega arith), tt))

campus-Normal : All Normal campus.tuples
campus-Normal = (
  record {
    typed = inl refl;
    group_rel = λ e f. cc;
    plain_id = not-mem_of_All b'#' staff (omega arith);
  },
  tt,
)

add_member-Normal_example :
    All Normal
      (add_member world service anna
        (codes "wwi")
        []
        (codes "user:b@dhbw.de")
        (some 9)
        campus).0.tuples
add_member-Normal_example =
    add_member-Normal world service anna (codes "wwi") [] (codes "user:b@dhbw.de") (some 9) campus
      campus-PlainId campus-Normal

-- Anna adds someone to wwi.
adds :
    (add_member world service anna (codes "wwi") [] (codes "user:b@dhbw.de") (some 9) campus).1
    ≡ ok tt
unfolding add_member local_group list_beq pair_beq filter contains insert_sorted sort text_leb
    check_add_member check_member_relation check_expiry check_nesting with_member check_relation
    parse_member_token parse_group_token record_change signed check relation_name parse_token
    normalize_id build_token join_group_relation member_group normalize_relation
    split_group_relation validate_member domain_re email_re group_id_re validate_email
    validate_group_id lower_char has_prefix cut cut_prefix is_space split trim_left trim_prefix
    trim_right trim_space get_known_group is_local may_manage find_group list_managers managers_of
    option_beq all any
adds = refl

-- One group for a page, from the second.
abbrev second_page : BrowseQuery
second_page = record {
  query = [];
  source = [];
  parent = [];
  path_to = [];
  limit = pos 1;
  offset = pos 1;
}

abbrev two_groups : List Group
two_groups = group_of wwi ∷ group_of staff ∷ []

page-IsPage_example :
    ((min (at_least_zero second_page.offset) (length two_groups) + at_least_zero second_page.limit
        ≤ max_int)
      × (p : GroupPage) × (page service ((staff, wwi) ∷ []) two_groups second_page ≡ some p)
      × IsPage service ((staff, wwi) ∷ []) two_groups second_page p)
    ⊎ ((max_int
          < min (at_least_zero second_page.offset) (length two_groups)
            + at_least_zero second_page.limit)
        × (page service ((staff, wwi) ∷ []) two_groups second_page ≡ none))
page-IsPage_example = page-IsPage service ((staff, wwi) ∷ []) two_groups second_page (omega arith)

-- The largest limit, after the first group: the end of the page is negative.
page_wraps :
    page service ((staff, wwi) ∷ []) two_groups (record second_page { limit = pos max_int }) ≡ none
unfolding page page_end at_most cut_out
page_wraps = refl

path_down-IsPath_example :
    (path : List Text) × (path_down
        (group_of wwi ∷ group_of staff ∷ [])
        ((staff, wwi) ∷ [])
        (group_of wwi)
      ≡ some path)
    × IsPath (group_of wwi ∷ group_of staff ∷ []) ((staff, wwi) ∷ []) (group_of wwi) path
path_down-IsPath_example =
    path_down-IsPath (group_of wwi ∷ group_of staff ∷ []) ((staff, wwi) ∷ []) (group_of wwi)
      (λ e. cc)
      (λ e m. elim (Memᴰ.cases_cons m) [
        | inl same ↦ λ z. cc
        | inr none_left ↦ absurd (Memᴰ.not-nil none_left)
      ])
