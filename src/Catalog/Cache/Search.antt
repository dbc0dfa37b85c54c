-- ===== src/Catalog/Cache/Search.antt =====
-- What a search finds, and in which order.
use mathlib.Core.List.Memᴰ
use role_provider_service.Base.{
  ℕ, zero, suc, ◌+◌, ◌≤◌, ◌<◌, ◌⊎◌, take, text_leb, All, ◌==◌, nat_eq, list_eq, list_beq_iff, not,
  ◌&&◌, true, false, ◌≡◌, ◌↔◌, inl, inr, refl, sym, ap, ◌∙◌, subst, arith, List, [], ◌∷◌, some,
  Text, ⊎_elim, Memᴰ, Memᴰ-cons, map, length, sort, Sorted, mem-sort, sort-Sorted, text_leb_total,
  text_leb_trans, is_empty, if◌then◌else◌, Option-cases,
}
use role_provider_service.Common.Types.{Group}
use role_provider_service.Store.State.{limited}
use role_provider_service.Catalog.Query.{Clauses, Term, fold, parse_query, matches, score, exact}
use role_provider_service.Catalog.Query.Matching.{Matches, matches_iff}
use role_provider_service.Catalog.Query.Score.{
  Answers, score_iff, total_matched, score-total_matched,
}
use role_provider_service.Catalog.Cache.{
  GroupCache, Entry, Hit, entries, consider, hits, hit_leb, exact_bonus, search,
}

-- The matching terms count, and the very id comes first.
abbrev pub rank : Clauses → Group → List Text → ℕ
rank q g fs = if exact q (fold g.id) then total_matched q fs + exact_bonus else total_matched q fs

-- The query is one plain term, and that is the id.
abbrev pub IsVeryId : Clauses → Group → Type 0
IsVeryId q g = (t : Term) × (q ≡ (t ∷ []) ∷ []) × (t.glob ≡ false) × (t.text ≡ fold g.id)

-- An entry's rank: the terms that match, and 1000 more for the very id.
abbrev pub HasRank : Clauses → Group → List Text → ℕ → Type 0
HasRank q g fs n =
    IsVeryId q g × (n ≡ total_matched q fs + 1000) ⊎ ((¬ IsVeryId q g) × (n ≡ total_matched q fs))

exact_iff : (q : Clauses) (g : Group) → (exact q (fold g.id) ≡ true) ↔ IsVeryId q g
unfolding exact
exact_iff [] g = (λ h. absurd (cc), λ (t, e, _, _). absurd (cc))
exact_iff ([] ∷ cs) g = (λ h. absurd (cc), λ (t, e, _, _). absurd (cc))
exact_iff ((t ∷ u ∷ c) ∷ cs) g = (λ h. absurd (cc), λ (x, e, _, _). absurd (cc))
exact_iff ((t ∷ []) ∷ c ∷ cs) g = (λ h. absurd (cc), λ (x, e, _, _). absurd (cc))
exact_iff ((t ∷ []) ∷ []) g = (
  λ h. (t, refl, ground arith, ground (arith, list_beq_iff t.text (fold g.id))),
  λ (x, e, plain, same).
      (let one : t ≡ x = cc in
        subst (λ (y : Term). (not y.glob && (y.text == fold g.id)) ≡ true) (sym one)
          (ground (arith, list_beq_iff x.text (fold g.id)))),
)

rank_iff : (q : Clauses) (g : Group) (fs : List Text) (n : ℕ) → (n ≡ rank q g fs) ↔ HasRank q g fs n
rank_iff q g fs n = ground (arith, exact_iff q g)

-- The order of the results: the higher rank first, then by id.
abbrev pub Before : Hit → Hit → Type 0
Before (g, n) (h, k) = (k < n) ⊎ ((n ≡ k) × (text_leb g.id h.id ≡ true))

abbrev pub InOrder : List Hit → Type 0
InOrder [] = Unit {0}
InOrder (h ∷ hs) = All (Before h) hs × InOrder hs

All-Before : (h : Hit) (hs : List Hit) → All (λ k. hit_leb h k ≡ true) hs → All (Before h) hs
unfolding hit_leb
All-Before h [] a = tt
All-Before (g, n) ((x, k) ∷ hs) (e, a) = (ground arith, All-Before (g, n) hs a)

InOrder-of_Sorted : (hs : List Hit) → Sorted hit_leb hs → InOrder hs
InOrder-of_Sorted [] s = tt
InOrder-of_Sorted (h ∷ hs) (a, s) = (All-Before h hs a, InOrder-of_Sorted hs s)

consider-some :
    (q : Clauses) (g : Group) (fs : List Text)
    → Answers q fs
    → consider q (g, fs) ≡ some (g, rank q g fs)
unfolding consider
consider-some q g fs answers = rw (score-total_matched q fs answers, consider) refl

consider_iff :
    (q : Clauses) (g : Group) (fs : List Text) (h : Hit)
    → (consider q (g, fs) ≡ some h) ↔ (Answers q fs × (h ≡ (g, rank q g fs)))
unfolding consider
consider_iff q g fs h = (
  λ e. elim (Option-cases (score q fs)) [
    | inl none_found ↦ absurd (let e' = rw (none_found, consider) at e in cc)
    | inr (n, found) ↦
        let answers = (score_iff q fs).0 (n, found) in
        let e' = consider-some q g fs answers in (answers, cc)
  ],
  λ (answers, same). consider-some q g fs answers ∙ ap some (sym same),
)

mem-hits :
    (q : Clauses) (es : List Entry) (h : Hit)
    → Memᴰ h (hits q es) ↔ ((e : Entry) × Memᴰ e es × (consider q e ≡ some h))
unfolding hits
mem-hits q [] h = (λ m. absurd (Memᴰ.not-nil m), λ (e, m, k). absurd (Memᴰ.not-nil m))
mem-hits q (x ∷ es) h =
    let later = mem-hits q es h in
    elim (Option-cases (consider q x)) [
      | inl none_found ↦
          rw (none_found, hits)
            (
              λ m. (let (e, n, k) = later.0 m in (e, Memᴰ.tail n, k)),
              λ (e, m, k).
                  ⊎_elim (λ same. absurd (let k' = rw same at k in cc)) (λ n. later.1 (e, n, k))
                    ((Memᴰ-cons e x es).0 m),
            )
      | inr (y, found) ↦
          rw (found, hits)
            (
              λ m.
                  ⊎_elim (λ same. (x, Memᴰ.head refl, found ∙ ap some (sym same)))
                    (λ n. (let (e, k, l) = later.0 n in (e, Memᴰ.tail k, l)))
                    ((Memᴰ-cons h y (hits q es)).0 m),
              λ (e, m, k).
                  ⊎_elim (λ same. Memᴰ.head (let k' = rw same at k in cc))
                    (λ n. Memᴰ.tail (later.1 (e, n, k))) ((Memᴰ-cons e x es).0 m),
            )
    ]

hit_leb_total : (a b : Hit) → hit_leb a b ≡ false → hit_leb b a ≡ true
unfolding hit_leb
hit_leb_total (g, n) (h, k) e = ground (arith, text_leb_total g.id h.id)

hit_leb_trans : (a b c : Hit) → hit_leb a b ≡ true → hit_leb b c ≡ true → hit_leb a c ≡ true
unfolding hit_leb
hit_leb_trans (g, n) (h, k) (i, l) e f = ground (arith, text_leb_trans g.id h.id i.id)

take_all {ℓ} : {A : Type ℓ} (n : ℕ) (xs : List A) → length xs ≤ n → take n xs ≡ xs
take_all zero [] h = refl
take_all (suc n) [] h = refl
take_all zero (x ∷ xs) h = absurd (omega (arith, h))
take_all (suc n) (x ∷ xs) h = ap (λ ys. x ∷ ys) (take_all n xs (omega (arith, h)))

limited-none {ℓ} : {A : Type ℓ} (limit : ℕ) (xs : List A) → limit ≡ 0 → limited limit xs ≡ xs
limited-none limit xs h = ground arith

limited-take {ℓ} :
    {A : Type ℓ} (limit : ℕ) (xs : List A) → 1 ≤ limit → limited limit xs ≡ take limit xs
limited-take limit xs h = ground (arith, take_all limit xs)

mem-rank :
    (q : Clauses) (es : List Entry) (g : Group) (n : ℕ)
    → Memᴰ (g, n) (sort hit_leb (hits q es))
      ↔ ((fs : List Text) × Memᴰ (g, fs) es × Answers q fs × (n ≡ rank q g fs))
mem-rank q es g n =
    let sorted = mem-sort hit_leb (g, n) (hits q es) in
    let found = mem-hits q es (g, n) in
    (
      λ m.
          (let ((e, fs), k, made) = found.0 (sorted.0 m) in
            let (answers, same) = (consider_iff q e fs (g, n)).0 made in
            let same_group : g ≡ e = ap (λ h. h.0) same in
            (
              fs,
              subst (λ x. Memᴰ (x, fs) es) (sym same_group) k,
              answers,
              ap (λ h. h.1) same ∙ ap (λ x. rank q x fs) (sym same_group),
            )),
      λ (fs, m, answers, same).
          sorted.1
            (found.1 ((g, fs), m, (consider_iff q g fs (g, n)).1 (answers, ap (λ x. (g, x)) same))),
    )

-- A query that asks for something finds, of all entries, the groups and their relations, exactly those of
-- which each clause has a term that matches a field: a plain term by standing in it, one with "*" by
-- describing all of it or all of one of its words. An entry's rank is the number of terms that match, and
-- 1000 more if the query is its very id; they come by rank, the higher first, and then by id; and a positive
-- limit cuts the list at that many.
pub search_correct :
    (raw : Text) (limit : ℕ) (c : GroupCache)
    → is_empty (parse_query raw) ≡ false
    → (ranked : List Hit) × (limit ≡ 0 → search raw limit c ≡ map (λ (h : Hit). h.0) ranked)
      × (1 ≤ limit → search raw limit c ≡ map (λ (h : Hit). h.0) (take limit ranked))
      × InOrder ranked
      × ((g : Group) (n : ℕ)
          → Memᴰ (g, n) ranked ↔ (
              (fs : List Text) × Memᴰ (g, fs) (entries c.groups)
              × Answers (parse_query raw) fs
              × HasRank (parse_query raw) g fs n))
      × ((t : Term) (fs : List Text) → (matches t fs ≡ true) ↔ Matches t fs)
unfolding search
search_correct raw limit c asks =
    let q = parse_query raw in
    let found = hits q (entries c.groups) in
    let ranked = sort hit_leb found in
    let shown : search raw limit c ≡ map (λ (h : Hit). h.0) (limited limit ranked) =
      rw (asks, search) refl in
    (
      ranked,
      λ none_set. shown ∙ ap (map (λ (h : Hit). h.0)) (limited-none limit ranked none_set),
      λ some_set. shown ∙ ap (map (λ (h : Hit). h.0)) (limited-take limit ranked some_set),
      InOrder-of_Sorted ranked (sort-Sorted hit_leb hit_leb_total hit_leb_trans found),
      λ g n.
          (let both = mem-rank q (entries c.groups) g n in
            (
              λ m. (let (fs, k, a, r) = both.0 m in (fs, k, a, (rank_iff q g fs n).0 r)),
              λ (fs, k, a, r). both.1 (fs, k, a, (rank_iff q g fs n).1 r),
            )),
      matches_iff,
    )
