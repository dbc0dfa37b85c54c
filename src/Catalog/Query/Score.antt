-- ===== src/Catalog/Query/Score.antt =====
-- When a query matches.
use mathlib.Core.List.Memᴰ
use role_provider_service.Base.{
  ℕ, suc, ap, if◌then◌else◌, ◌+◌, true, false, ◌≡◌, ◌↔◌, inl, inr, refl, arith, List, [], ◌∷◌, some,
  Text, Memᴰ, Memᴰ-cons, All, filter, nat_beq, Bool-cases, Option-cases,
}
use role_provider_service.Catalog.Query.{Term, Clauses, matches, matched, score}

-- Each clause has a term that matches.
abbrev pub Answers : Clauses → List Text → Type 0
Answers clauses fs =
    All (λ (clause : List Term). (t : Term) × Memᴰ t clause × (matches t fs ≡ true)) clauses

matched_some :
    (clause : List Term) (fs : List Text)
    → nat_beq (matched clause fs) 0 ≡ false
    → (t : Term) × Memᴰ t clause × (matches t fs ≡ true)
unfolding matched filter
matched_some [] fs h = absurd (ground arith)
matched_some (t ∷ clause) fs h = elim (Bool-cases (matches t fs)) [
  | inl e ↦ (t, Memᴰ.head refl, e)
  | inr e ↦
      let (u, m, k) = matched_some clause fs (rw (e, matched, filter) at h) in (u, Memᴰ.tail m, k)
]

some_matched :
    (clause : List Term) (fs : List Text) (t : Term)
    → Memᴰ t clause
    → matches t fs ≡ true
    → nat_beq (matched clause fs) 0 ≡ false
unfolding matched filter
some_matched [] fs t m h = absurd (Memᴰ.not-nil m)
some_matched (u ∷ clause) fs t m h = ground (arith, some_matched clause fs t, Memᴰ-cons t u clause)

pub score_iff :
    (clauses : Clauses) (fs : List Text)
    → ((n : ℕ) × (score clauses fs ≡ some n)) ↔ Answers clauses fs
unfolding score
score_iff [] fs = (λ h. tt, λ h. (0, refl))
score_iff (clause ∷ clauses) fs =
    let rest = score_iff clauses fs in
    elim (Bool-cases (nat_beq (matched clause fs) 0)) [
      | inl e ↦ (
        λ (n, h). absurd (let h' = rw (e, score) at h in cc),
        λ ((t, m, k), _). absurd (let h' = some_matched clause fs t m k in cc),
      )
      | inr e ↦ (
        λ (n, h). elim (Option-cases (score clauses fs)) [
          | inl x ↦ absurd (let h' = rw (e, x, score) at h in cc)
          | inr (k, x) ↦ (matched_some clause fs e, rest.0 (k, x))
        ],
        λ (here, later).
            (let (k, x) = rest.1 later in (matched clause fs + k, rw (e, x, score) refl)),
      )
    ]

-- How many terms of a clause match.
abbrev pub count : List Term → List Text → ℕ
count [] fs = 0
count (t ∷ clause) fs = if matches t fs then suc (count clause fs) else count clause fs

matched-count : (clause : List Term) (fs : List Text) → matched clause fs ≡ count clause fs
unfolding matched filter
matched-count [] fs = refl
matched-count (t ∷ clause) fs = elim (Bool-cases (matches t fs)) [
  | inl e ↦ rw (e, matched, filter) (ap suc (matched-count clause fs))
  | inr e ↦ rw (e, matched, filter) (matched-count clause fs)
]

-- How many terms of the query match.
abbrev pub total_matched : Clauses → List Text → ℕ
total_matched [] fs = 0
total_matched (clause ∷ clauses) fs = count clause fs + total_matched clauses fs

pub score-total_matched :
    (clauses : Clauses) (fs : List Text)
    → Answers clauses fs
    → score clauses fs ≡ some (total_matched clauses fs)
unfolding score
score-total_matched [] fs h = refl
score-total_matched (clause ∷ clauses) fs ((t, m, k), later) =
    let counted = matched-count clause fs in
    rw (some_matched clause fs t m k, score-total_matched clauses fs later, score)
      (ap (λ n. some (n + total_matched clauses fs)) counted)
