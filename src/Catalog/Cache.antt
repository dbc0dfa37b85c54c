-- ===== src/Catalog/Cache.antt =====
-- internal/catalog/cache.go: the snapshot of the groups, and the search in it.
pub mod Search
use role_provider_service.Base.{
  ℕ, ◌+◌, Bool, true, false, not, ◌&&◌, ◌||◌, List, [], ◌∷◌, ◌++◌, Option, none, some, Text, codes,
  ◌==◌, nat_eq, list_eq, if◌then◌else◌, is_empty, map, sort, text_leb, ltb, nat_beq, length,
}
use role_provider_service.Base.Result.{Result, ok, err}
use role_provider_service.Common.Types.{Group}
use role_provider_service.Common.Token.{relation_separator, group_token}
use role_provider_service.Common.Strings.{trim_space}
use role_provider_service.Store.State.{limited}
use role_provider_service.Store.Groups.{group_leb}
use role_provider_service.Catalog.Query.{Clauses, fold, parse_query, score, exact}

pub record GroupCache : Type 0 where
  pub groups : List Group

-- `load` is what the loader answers; an error keeps the snapshot.
unfoldable pub refresh : (load : Result (List Group)) → GroupCache → GroupCache × Result (Unit {0})
unfolding sort
refresh (err e) c = (c, err e)
refresh (ok groups) c = (record { groups = sort group_leb groups }, ok tt)

unfoldable pub size : GroupCache → ℕ
size c = length c.groups

abbrev pub role_suffix : Text
role_suffix = codes " · Rolle: "

unfoldable pub relation_entry : Group → Text → Group
relation_entry g relation =
    let id = g.id ++ (relation_separator ∷ relation) in
    let desc = if is_empty g.description then g.display_name else g.description in
    record g {
      id = id;
      token = group_token g.id relation;
      display_name = id;
      description = trim_space (desc ++ role_suffix ++ relation);
      relations = [];
    }

-- What can be found, with the fields that are searched.
abbrev pub Entry : Type 0
Entry = Group × List Text

unfoldable pub base_fields : Group → List Text
unfolding fold
base_fields g = fold g.id ∷ fold g.display_name ∷ fold g.description ∷ fold g.source_name ∷ []

unfoldable pub relation_fields : Group → Text → List Text
unfolding base_fields fold
relation_fields g relation =
    base_fields g ++ fold relation ∷ (fold g.id ++ (b'#' ∷ fold relation)) ∷ []

unfoldable pub entries_of : Group → List Entry
unfolding base_fields relation_fields relation_entry
entries_of g =
    (g, base_fields g) ∷ map (λ rel. (relation_entry g rel, relation_fields g rel)) g.relations

unfoldable pub entries : List Group → List Entry
unfolding entries_of
entries [] = []
entries (g ∷ gs) = entries_of g ++ entries gs

-- A group with its score.
abbrev pub Hit : Type 0
Hit = Group × ℕ

abbrev pub exact_bonus : ℕ
exact_bonus = 1000

unfoldable pub consider : Clauses → Entry → Option Hit
unfolding score exact fold
consider q (g, fs) = elim (score q fs) [
  | none ↦ none
  | some n ↦ some (g, if exact q (fold g.id) then n + exact_bonus else n)
]

unfoldable pub hits : Clauses → List Entry → List Hit
unfolding consider
hits q [] = []
hits q (e ∷ es) = let rest = hits q es in elim (consider q e) [ none ↦ rest | some h ↦ h ∷ rest ]

-- The higher score first, then by id.
unfoldable pub hit_leb : Hit → Hit → Bool
hit_leb (g, n) (h, k) = if nat_beq n k then text_leb g.id h.id else ltb k n

-- A limit that is not positive is 0, and is none.
unfoldable pub search : Text → ℕ → GroupCache → List Group
unfolding parse_query hits entries hit_leb sort
search raw limit c =
    let q = parse_query raw in
    if is_empty q
    then limited limit c.groups
    else map (λ (h : Hit). h.0) (limited limit (sort hit_leb (hits q (entries c.groups))))
