-- ===== src/Catalog/Tests.antt =====
-- Runs and instances of the theorems on the search.
use role_provider_service.Base.{
  true, take, ℕ, ◌≤◌, ◌≡◌, ◌↔◌, refl, false, List, [], ◌∷◌, none, Text, codes, Memᴰ, map, is_empty,
  list_beq, contains, all,
}
use role_provider_service.Common.Types.{Group}
use role_provider_service.Common.Strings.{
  cut, is_space, trim_space, trim_left, trim_right, trim_prefix, cut_prefix, lower_char,
}
use role_provider_service.Catalog.Query.{
  Term, matches, parse_query, words, words_from, fields, fields_from, cut_quoted, phrase_of,
  add_words, add_word, add_term, add_alternative, new_term, fold, replace, spelled,
}
use role_provider_service.Catalog.Query.Matching.{Matches}
use role_provider_service.Catalog.Query.Score.{Answers}
use role_provider_service.Catalog.Cache.{GroupCache, Hit, entries, search}
use role_provider_service.Catalog.Cache.Search.{InOrder, HasRank, search_correct}

abbrev group_of : Text → List Text → Group
group_of id relations = record {
  id = id;
  token = [];
  display_name = id;
  description = [];
  source_id = none;
  source_name = [];
  relations = relations;
  created_at = 0;
  updated_at = 0;
}

abbrev snapshot : GroupCache
snapshot = record {
  groups =
      group_of (codes "fak-technik") (codes "dozent" ∷ []) ∷ group_of (codes "standort-ma") [] ∷ [];
}

-- Two words of which one is enough, and a phrase.
abbrev typed : Text
typed = codes "technik ODER stand* \"ma\""

asks : is_empty (parse_query typed) ≡ false
unfolding parse_query words words_from fields fields_from cut_quoted phrase_of add_words add_word
    add_term add_alternative new_term fold replace spelled cut is_space trim_space trim_left
    trim_right trim_prefix cut_prefix lower_char contains list_beq all
asks = refl

abbrev shown : ℕ
shown = 1

search_correct_example :
    (ranked : List Hit) × (shown ≡ 0 → search typed shown snapshot ≡ map (λ (h : Hit). h.0) ranked)
    × (1 ≤ shown → search typed shown snapshot ≡ map (λ (h : Hit). h.0) (take shown ranked))
    × InOrder ranked
    × ((g : Group) (n : ℕ)
        → Memᴰ (g, n) ranked ↔ (
            (fs : List Text) × Memᴰ (g, fs) (entries snapshot.groups)
            × Answers (parse_query typed) fs
            × HasRank (parse_query typed) g fs n))
    × ((t : Term) (fs : List Text) → (matches t fs ≡ true) ↔ Matches t fs)
search_correct_example = search_correct typed shown snapshot asks
