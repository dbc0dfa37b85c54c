-- ===== src/Catalog/Query/Matching.antt =====
-- When a term matches the fields of an entry.
use role_provider_service.Base.{
  true, false, ◌≡◌, ◌↔◌, ◌⊎◌, inl, inr, refl, sym, ap, subst, arith, List, [], ◌∷◌, ◌++◌, Text,
  Memᴰ, any, any-true, any_of_mem, Bool-cases, Option-cases, nat_eq,
}
use role_provider_service.Common.Strings.{cut_prefix, has_prefix, is_infix}
use role_provider_service.Common.Token.RoundTrip.{cut_prefix-append, append_of_cut_prefix}
use role_provider_service.Common.Glob.{glob_match}
use role_provider_service.Common.Glob.Meaning.{Globs, glob_match_sound, glob_match_complete}
use role_provider_service.Catalog.Query.{Term, matches, matches_field, fields_from, is_separator}

-- A text stands in another.
abbrev pub Within : Text → Text → Type 0
Within t f = (before : Text) × (after : Text) × (f ≡ before ++ t ++ after)

-- A word of a field, between its separators.
abbrev pub WordOf : Text → Text → Type 0
WordOf w f = Memᴰ w (fields_from is_separator [] f)

-- A plain term stands in the field; one with "*" describes the field or a word of it, as a whole.
abbrev pub FieldMatches : Term → Text → Type 0
FieldMatches t f =
    ((t.glob ≡ false) × Within t.text f)
    ⊎ ((t.glob ≡ true) × (Globs t.text f ⊎ ((w : Text) × WordOf w f × Globs t.text w)))

abbrev pub Matches : Term → List Text → Type 0
Matches t fs = (f : Text) × Memᴰ f fs × FieldMatches t f

prefix_rest : (p s : Text) → has_prefix p s ≡ true → (rest : Text) × (s ≡ p ++ rest)
unfolding has_prefix
prefix_rest p s h = elim (Option-cases (cut_prefix p s)) [
  | inl e ↦ absurd (let h' = rw (e, has_prefix) at h in cc)
  | inr (rest, e) ↦ (rest, append_of_cut_prefix p s rest e)
]

has_prefix-append : (p rest : Text) → has_prefix p (p ++ rest) ≡ true
unfolding has_prefix
has_prefix-append p rest = rw (cut_prefix-append p rest, has_prefix) refl

is_infix-Within : (t f : Text) → is_infix t f ≡ true → Within t f
unfolding is_infix
is_infix-Within [] [] h = ([], [], refl)
is_infix-Within (c ∷ t) [] h = absurd (cc)
is_infix-Within t (c ∷ f) h = elim (Bool-cases (has_prefix t (c ∷ f))) [
  | inl e ↦ let (rest, q) = prefix_rest t (c ∷ f) e in ([], rest, q)
  | inr e ↦
      let (before, after, q) = is_infix-Within t f (ground arith) in
      (c ∷ before, after, ap (λ x. c ∷ x) q)
]

infix_of_append : (t before after : Text) → is_infix t (before ++ t ++ after) ≡ true
unfolding is_infix
infix_of_append t (c ∷ before) after = ground (arith, infix_of_append t before after)
infix_of_append [] [] [] = refl
infix_of_append [] [] (c ∷ after) = ground (arith, has_prefix-append [] (c ∷ after))
infix_of_append (c ∷ t) [] after = ground (arith, has_prefix-append (c ∷ t) after)

is_infix_iff : (t f : Text) → (is_infix t f ≡ true) ↔ Within t f
is_infix_iff t f = (
  is_infix-Within t f,
  λ (before, after, e).
      subst (λ (x : Text). is_infix t x ≡ true) (sym e) (infix_of_append t before after),
)

glob_match_iff : (p s : Text) → (glob_match p s ≡ true) ↔ Globs p s
glob_match_iff p s = (glob_match_sound p s, λ (g : Globs p s). glob_match_complete g)

any_word_iff :
    (p : Text) (ws : List Text)
    → (any (glob_match p) ws ≡ true) ↔ ((w : Text) × Memᴰ w ws × Globs p w)
any_word_iff p ws = (
  λ h. (let (w, m, e) = any-true (glob_match p) ws h in (w, m, glob_match_sound p w e)),
  λ (w, m, g). any_of_mem (glob_match p) ws w m ((glob_match_iff p w).1 g),
)

matches_field_iff : (t : Term) (f : Text) → (matches_field t f ≡ true) ↔ FieldMatches t f
unfolding matches_field
matches_field_iff t f =
    let pieces = fields_from is_separator [] f in
    ground (arith, is_infix_iff t.text f, glob_match_iff t.text f, any_word_iff t.text pieces)

-- The matcher of a term decides whether it matches.
pub matches_iff : (t : Term) (fs : List Text) → (matches t fs ≡ true) ↔ Matches t fs
unfolding matches
matches_iff t fs = (
  λ h. (let (f, m, e) = any-true (matches_field t) fs h in (f, m, (matches_field_iff t f).0 e)),
  λ (f, m, d). any_of_mem (matches_field t) fs f m ((matches_field_iff t f).1 d),
)
