-- ===== src/Catalog/Query.antt =====
-- internal/catalog/query.go: what a person types into the search box, and what it matches.
pub mod Words
pub mod Matching
pub mod Score
use role_provider_service.Base.{
  ℕ, zero, suc, ◌+◌, Bool, true, false, not, ◌&&◌, ◌||◌, List, [], ◌∷◌, ◌++◌, Option, none, some,
  Text, codes, ◌==◌, nat_eq, list_eq, if◌then◌else◌, is_empty, contains, map, any, all, length,
  nat_beq, filter,
}
use role_provider_service.Common.Token.{group_prefix}
use role_provider_service.Common.Glob.{glob_match}
use role_provider_service.Common.Strings.{
  is_space, trim_space, trim_prefix, to_lower, cut, is_infix,
}

-- `strings.FieldsFunc`: the pieces between separators that are not empty; `cur` is the piece so far.
unfoldable pub fields_from : (is_sep : ℕ → Bool) → Text → Text → List Text
fields_from is_sep cur [] = if is_empty cur then [] else cur ∷ []
fields_from is_sep cur (c ∷ s) =
    let fresh = fields_from is_sep [] s in
    let longer = fields_from is_sep (cur ++ c ∷ []) s in
    if is_sep c then (if is_empty cur then fresh else cur ∷ fresh) else longer

-- `strings.Fields`
unfoldable pub fields : Text → List Text
unfolding fields_from is_space
fields s = fields_from is_space [] s

pub record Word : Type 0 where
  pub text : Text
  pub phrase : Bool

-- What stands before the first quote, then the quoted text and the rest. An unclosed quote quotes the rest.
unfoldable pub cut_quoted : Text → Text × Option (Text × Text)
unfolding cut
cut_quoted s = elim (cut b'"' s) [
  | none ↦ (s, none)
  | some (before, after) ↦ elim (cut b'"' after) [
    | none ↦ (before, some (after, []))
    | some (inner, rest) ↦ (before, some (inner, rest))
  ]
]

abbrev pub plain_word : Text → Word
plain_word text = record { text = text; phrase = false }

unfoldable pub phrase_of : Text → List Word
phrase_of quoted =
    let text = trim_space quoted in
    if is_empty text then [] else record { text = text; phrase = true } ∷ []

-- The loop over the quotes; `fuel` is the rounds left.
unfoldable pub words_from : ℕ → Text → List Word
unfolding fields cut_quoted phrase_of
words_from zero s = []
words_from (suc fuel) s =
    let (before, quoted) = cut_quoted s in
    map plain_word (fields before)
    ++ elim quoted [ none ↦ [] | some (text, rest) ↦ phrase_of text ++ words_from fuel rest ]

-- Each round takes a quote off, so the text's length is enough.
unfoldable pub words : Text → List Word
unfolding words_from
words raw = words_from (suc (length raw)) raw

-- "ä", "ö", "ü" and "ß" are spelled out.
unfoldable pub spelled : ℕ → Text
spelled c =
    if nat_beq c 0xE4
    then codes "ae"
    else (if nat_beq c 0xF6
        then codes "oe"
        else (if nat_beq c 0xFC
            then codes "ue"
            else (if nat_beq c 0xDF then codes "ss" else c ∷ [])))

unfoldable pub replace : Text → Text
unfolding spelled
replace [] = []
replace (c ∷ s) = spelled c ++ replace s

unfoldable pub fold : Text → Text
unfolding replace
fold s = replace (to_lower s)

-- The expression of a term is its text with ".*" for each "*", so that only `glob` is kept.
pub record Term : Type 0 where
  pub text : Text
  pub glob : Bool

abbrev pub wildcard : ℕ
wildcard = b'*'

unfoldable pub new_term : Text → Option Term
unfolding fold all contains
new_term raw =
    let text = fold (trim_prefix group_prefix (trim_space raw)) in
    if all (λ c. nat_beq c wildcard) text
    then none
    else some (record { text = text; glob = contains text wildcard })

abbrev pub and_words : List Text
and_words = codes "und" ∷ codes "and" ∷ codes "&" ∷ []

abbrev pub or_words : List Text
or_words = codes "oder" ∷ codes "or" ∷ codes "|" ∷ []

abbrev pub Clauses : Type 0
Clauses = List (List Term)

-- The last clause gets one more alternative.
unfoldable pub add_alternative : Term → Clauses → Clauses
add_alternative t [] = (t ∷ []) ∷ []
add_alternative t (c ∷ []) = (c ++ t ∷ []) ∷ []
add_alternative t (c ∷ d ∷ cs) = c ∷ add_alternative t (d ∷ cs)

-- A word that is neither "and" nor "or".
unfoldable pub add_term : Option Term → Clauses → Bool → Clauses × Bool
unfolding add_alternative
add_term none clauses alternative = (clauses, alternative)
add_term (some t) clauses true = (add_alternative t clauses, false)
add_term (some t) clauses false = (clauses ++ (t ∷ []) ∷ [], false)

-- One word; `alternative` says that the last was "or".
unfoldable pub add_word : Word → Clauses → Bool → Clauses × Bool
unfolding contains new_term add_term
add_word w clauses alternative =
    let lower = to_lower w.text in
    if not w.phrase && contains and_words lower
    then (clauses, alternative)
    else (if not w.phrase && contains or_words lower
        then (clauses, not (is_empty clauses))
        else add_term (new_term (if w.phrase then w.text else trim_prefix (codes "+") w.text))
            clauses alternative)

unfoldable pub add_words : List Word → Clauses → Bool → Clauses
unfolding add_word
add_words [] clauses alternative = clauses
add_words (w ∷ ws) clauses alternative =
    let (clauses', alternative') = add_word w clauses alternative in
    add_words ws clauses' alternative'

unfoldable pub parse_query : Text → Clauses
unfolding words add_words
parse_query raw = add_words (words raw) [] false

unfoldable pub is_separator : ℕ → Bool
is_separator c = nat_beq c b' ' || nat_beq c b'(' || nat_beq c b')' || nat_beq c b','

unfoldable pub matches_field : Term → Text → Bool
unfolding is_infix glob_match fields_from is_separator any
matches_field t f =
    if t.glob
    then glob_match t.text f || any (glob_match t.text) (fields_from is_separator [] f)
    else is_infix t.text f

unfoldable pub matches : Term → List Text → Bool
unfolding any matches_field
matches t fs = any (matches_field t) fs

-- The terms of a clause that match.
unfoldable pub matched : List Term → List Text → ℕ
unfolding filter matches
matched clause fs = length (filter (λ t. matches t fs) clause)

-- `none` is the score -1.
unfoldable pub score : Clauses → List Text → Option ℕ
unfolding matched
score [] fs = some 0
score (clause ∷ clauses) fs =
    let rest = score clauses fs in
    let n = matched clause fs in
    if nat_beq n 0 then none else elim rest [ none ↦ none | some k ↦ some (n + k) ]

unfoldable pub exact : Clauses → Text → Bool
exact ((t ∷ []) ∷ []) id = not t.glob && (t.text == id)
exact _ id = false
