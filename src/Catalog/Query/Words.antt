-- ===== src/Catalog/Query/Words.antt =====
-- The loop over the quotes always ends.
use role_provider_service.Base.{
  ℕ, zero, suc, ◌<◌, ◌≡◌, inl, inr, refl, ap, ◌∙◌, sym, arith, List, [], ◌∷◌, ◌++◌, Option, none,
  some, Text, length, map, Bool-cases, Option-cases, ◌==◌, nat_eq,
}
use role_provider_service.Common.Strings.{cut}
use role_provider_service.Catalog.Query.{
  Word, cut_quoted, phrase_of, words_from, plain_word, fields,
}

cut_shorter :
    (sep : ℕ) (s before after : Text) → cut sep s ≡ some (before, after) → length after < length s
unfolding cut
cut_shorter sep [] before after h = absurd (cc)
cut_shorter sep (c ∷ s) before after h = elim (Bool-cases (c == sep)) [
  | inl e ↦ let h' = rw (e, cut) at h in let q : s ≡ after = cc in omega (arith, ap length q)
  | inr e ↦ elim (Option-cases (cut sep s)) [
    | inl k ↦ absurd (let h' = rw (e, k, cut) at h in cc)
    | inr ((a, b), k) ↦
        let h' = rw (e, k, cut) at h in
        let q : b ≡ after = cc in omega (arith, ap length q, cut_shorter sep s a b k)
  ]
]

-- What is left after a quoted part.
abbrev Shorter : Option (Text × Text) → Text → Type 0
Shorter none s = Unit
Shorter (some (text, rest)) s = length rest < length s

cut_quoted-Shorter : (s : Text) → Shorter (cut_quoted s).1 s
unfolding cut_quoted
cut_quoted-Shorter s = elim (Option-cases (cut b'"' s)) [
  | inl e ↦ rw (e, cut_quoted) tt
  | inr ((before, after), e) ↦
      let first = cut_shorter b'"' s before after e in
      elim (Option-cases (cut b'"' after)) [
        | inl k ↦ rw (e, k, cut_quoted) (omega (arith, first))
        | inr ((inner, rest), k) ↦
            rw (e, k, cut_quoted) (omega (arith, first, cut_shorter b'"' after inner rest k))
      ]
]

-- The words of the rest, if there is a quote.
rest_words : ℕ → Option (Text × Text) → List Word
rest_words fuel none = []
rest_words fuel (some (text, rest)) = phrase_of text ++ words_from fuel rest

words_from-step :
    (fuel : ℕ) (s : Text)
    → words_from (suc fuel) s
      ≡ map plain_word (fields (cut_quoted s).0) ++ rest_words fuel (cut_quoted s).1
unfolding words_from rest_words
words_from-step fuel s = elim (Option-cases (cut_quoted s).1) [
  | inl e ↦ rw (e, words_from, rest_words) refl
  | inr ((text, rest), e) ↦ rw (e, words_from, rest_words) refl
]

same_rest :
    (fuel more : ℕ) (s : Text) (q : Option (Text × Text))
    → Shorter q s
    → ((rest : Text) → length rest < length s → words_from fuel rest ≡ words_from more rest)
    → rest_words fuel q ≡ rest_words more q
unfolding rest_words
same_rest fuel more s none x enough = refl
same_rest fuel more s (some (text, rest)) x enough = ap (λ ws. phrase_of text ++ ws) (enough rest x)

-- Any fuel above the text's length gives the same words, so the loop that has no bound ends with them.
pub words_from_enough :
    (fuel more : ℕ) (s : Text)
    → length s < fuel
    → length s < more
    → words_from fuel s ≡ words_from more s
words_from_enough zero more s h k = absurd (omega arith)
words_from_enough (suc fuel) zero s h k = absurd (omega arith)
words_from_enough (suc fuel) (suc more) s h k =
    words_from-step fuel s
    ∙ ap (λ ws. map plain_word (fields (cut_quoted s).0) ++ ws)
        (same_rest fuel more s (cut_quoted s).1 (cut_quoted-Shorter s)
          (λ rest lt. words_from_enough fuel more rest (omega arith) (omega arith)))
    ∙ sym (words_from-step more s)
