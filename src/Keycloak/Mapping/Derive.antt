-- ===== src/Keycloak/Mapping/Derive.antt =====
-- internal/keycloak/mapping.go: the memberships that one person's values grant, and what no rule places.
use role_provider_service.Base.{
  ℕ, suc, Bool, true, false, not, ◌&&◌, ◌||◌, List, [], ◌∷◌, ◌++◌, none, some, Text, codes, ◌==◌,
  nat_eq, list_eq, if◌then◌else◌, is_empty, contains, map, sort, text_leb, nat_beq, ltb,
}
use role_provider_service.Common.Types.{TuplePair}
use role_provider_service.Common.Token.{normalize_id, relation_member, user_type}
use role_provider_service.Common.Strings.{cut}
use role_provider_service.Keycloak.Mapping.{MappedGroup, Mapping, lookup, put}

abbrev pub Counts : Type 0
Counts = List (Text × ℕ)

pub record Unmapped : Type 0 where
  pub scopes : Counts
  pub values : Counts

abbrev pub new_unmapped : Unmapped
new_unmapped = record { scopes = []; values = [] }

-- More users first, then by key.
unfoldable pub count_leb : Text × ℕ → Text × ℕ → Bool
count_leb (a, n) (b, k) = ltb k n || (nat_beq n k && text_leb a b)

-- `render` is the format of a note: its kind, its key and its count.
unfoldable pub notes : (render : Text → Text → ℕ → Text) → Unmapped → List Text
unfolding count_leb sort
notes render u =
    map (λ (c : Text × ℕ). render (codes "unknown scope") c.0 c.1) (sort count_leb u.scopes)
    ++ map (λ (c : Text × ℕ). render (codes "unmapped value") c.0 c.1) (sort count_leb u.values)

-- The roles held in each group, in the order in which the groups were joined.
abbrev pub Held : Type 0
Held = List (Text × List Text)

unfoldable pub add_role : Text → List Text → List Text
unfolding contains
add_role role roles = if is_empty role || contains roles role then roles else roles ++ role ∷ []

unfoldable pub join : Text → Text → Held → Held
unfolding add_role
join group role [] = (group, add_role role []) ∷ []
join group role ((g, roles) ∷ held) =
    let rest = join group role held in
    if g == group then (g, add_role role roles) ∷ held else (g, roles) ∷ rest

-- What one value says: nothing, a scope that is not named or is ignored, or a location; and the role that
-- its value names, empty without one.
pub data Read : Type 0 where
  no_scope : Read
  unknown : (scope : Text) → Read
  located : (value : Text) → (scope : Text) → (location : MappedGroup) → Read

unfoldable pub read_value : Mapping → Text → Read
unfolding cut lookup
read_value m raw = elim (cut b'@' (normalize_id raw)) [
  | none ↦ no_scope
  | some (value, scope) ↦ if is_empty scope then no_scope else elim (lookup scope m.locations) [
    | none ↦ unknown scope
    | some location ↦ located value scope location
  ]
]

unfoldable pub role_of : Mapping → Text → Text
role_of m value = elim (lookup value m.roles) [ none ↦ [] | some role ↦ role ]

-- The groups that one value joins, with the role there.
unfoldable pub placements : Mapping → Read → List (Text × Text)
unfolding role_of
placements m no_scope = []
placements m (unknown scope) = []
placements m (located value scope location) =
    (location.group, role_of m value)
    ∷ elim m.all_group [ none ↦ [] | some all ↦ (all.group, role_of m value) ∷ [] ]

unfoldable pub join_all : List (Text × Text) → Held → Held
unfolding join
join_all [] held = held
join_all ((group, role) ∷ ps) held = join_all ps (join group role held)

-- A set that is one of the person's, not of the values.
unfoldable pub add_unknown : Text → List Text → List Text
unfolding contains
add_unknown k ks = if contains ks k then ks else ks ++ k ∷ []

unfoldable pub unknown_scopes : Mapping → Read → List Text → List Text
unfolding contains add_unknown
unknown_scopes m (unknown scope) ks =
    if contains m.ignored_scopes scope then ks else add_unknown scope ks
unknown_scopes m _ ks = ks

unfoldable pub is_mapped : Mapping → Text → Bool
is_mapped m value = elim (lookup value m.roles) [ none ↦ false | some _ ↦ true ]

unfoldable pub unknown_values : Mapping → Read → List Text → List Text
unfolding contains add_unknown is_mapped
unknown_values m (located value scope location) ks =
    if not (is_mapped m value) && not (contains m.ignored_values value)
    then add_unknown (value ++ (b'@' ∷ scope)) ks
    else ks
unknown_values m _ ks = ks

-- `counts[k]++` for each key.
unfoldable pub increment : Text → Counts → Counts
unfolding lookup put
increment k counts = put k (elim (lookup k counts) [ none ↦ 1 | some n ↦ suc n ]) counts

unfoldable pub increment_all : List Text → Counts → Counts
unfolding increment
increment_all [] counts = counts
increment_all (k ∷ ks) counts = increment_all ks (increment k counts)

-- The loop over a person's values.
pub record Progress : Type 0 where
  pub held : Held
  pub scopes : List Text
  pub values : List Text

unfoldable pub derive_loop : Mapping → List Text → Progress → Progress
unfolding read_value placements join_all unknown_scopes unknown_values
derive_loop m [] p = p
derive_loop m (raw ∷ raws) p =
    let r = read_value m raw in
    derive_loop m raws (record {
      held = join_all (placements m r) p.held;
      scopes = unknown_scopes m r p.scopes;
      values = unknown_values m r p.values;
    })

unfoldable pub user_tuple : Text → Text → Text → TuplePair
user_tuple email group relation = record {
  group_id = group;
  relation = relation;
  member_type = user_type;
  member_id = email;
}

-- Plain membership only where no role is.
unfoldable pub tuples_in : Text → Text × List Text → List TuplePair
unfolding user_tuple sort
tuples_in email (group, []) = user_tuple email group relation_member ∷ []
tuples_in email (group, r ∷ roles) = map (user_tuple email group) (sort text_leb (r ∷ roles))

unfoldable pub tuples_of : Text → Held → List TuplePair
unfolding tuples_in
tuples_of email [] = []
tuples_of email (h ∷ held) = tuples_in email h ++ tuples_of email held

unfoldable pub derive : Mapping → Text → List Text → Unmapped → List TuplePair × Unmapped
unfolding derive_loop tuples_of increment_all
derive m email raws unmapped =
    let p = derive_loop m raws (record { held = []; scopes = []; values = [] }) in
    (
      tuples_of email p.held,
      record {
        scopes = increment_all p.scopes unmapped.scopes;
        values = increment_all p.values unmapped.values;
      },
    )
