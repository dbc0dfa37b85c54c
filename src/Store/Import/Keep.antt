-- ===== src/Store/Import/Keep.antt =====
-- What the loop over an import keeps, and what it adds.
use mathlib.Core.List.Memᴰ
use role_provider_service.Base.{
  ℕ, ◌≡◌, ◌↔◌, ◌⊎◌, inl, inr, ⊎_elim, refl, sym, ◌∙◌, true, not, List, [], ◌∷◌, ◌++◌, Memᴰ,
  Memᴰ-cons, Memᴰ-concat, arith, some, nat_eq, list_eq, pair_eq, option_eq, option_beq_iff,
  Bool-cases, map, filter, mem-filter, contains, contains_iff,
}
use role_provider_service.Common.Types.{Uuid, Time, TuplePair}
use role_provider_service.Store.State.{Entry}
use role_provider_service.Store.Entries.{Key, key_of}
use role_provider_service.Store.Import.{
  Descriptions, of_import, pair_key, Progress, new_entry, import_step, import_loop,
}

-- An entry of the source with this key is among the entries.
abbrev pub Has : Uuid → List Entry → Key → Type 0
Has source ts k = (t : Entry) × Memᴰ t ts × (of_import source t ≡ true) × (key_of t ≡ k)

abbrev pub others : Uuid → List Entry → List Entry
others source = filter (λ t. not (of_import source t))

-- Half way through the import: what has been there is there, other sources' entries are as they were, and
-- each key that the import has said so far has an entry of the source.
pub record Kept (source : Uuid) (before : List Entry) (g : Progress) : Type 0 where
  pub old : (t : Entry) → Memᴰ t before → Memᴰ t g.tuples
  pub foreign : others source g.tuples ≡ others source before
  pub has : (k : Key) → Memᴰ k g.new_set → Has source g.tuples k

others-concat :
    (source : Uuid) (ts : List Entry) (t : Entry)
    → of_import source t ≡ true
    → others source (ts ++ t ∷ []) ≡ others source ts
unfolding filter
others-concat source [] t h = rw h refl
others-concat source (x ∷ ts) t h = ground (arith, others-concat source ts t h)

Has-concat :
    (source : Uuid) (ts : List Entry) (x : Entry) (k : Key)
    → Has source ts k
    → Has source (ts ++ x ∷ []) k
Has-concat source ts x k (t, m, i, e) = (t, (Memᴰ-concat t x ts).1 (inl m), i, e)

new_entry-key :
    (now : Time) (fresh : ℕ → Uuid) (source : Uuid) (n : ℕ) (p : TuplePair)
    → (of_import source (new_entry now fresh source n p) ≡ true)
      × (key_of (new_entry now fresh source n p) ≡ pair_key p)
unfolding new_entry pair_key of_import
new_entry-key now fresh source n p = ((option_beq_iff (some source) (some source)).1 refl, refl)

module _ (now : Time) (fresh : ℕ → Uuid) (source : Uuid) (descriptions : Descriptions)
    (before : List Entry) where
  abbrev existing : List Key
  existing = map key_of (filter (of_import source) before)

  Has-existing : (k : Key) → Memᴰ k existing → Has source before k
  Has-existing k m =
      let (t, n, e) = Memᴰ.of_map key_of (filter (of_import source) before) m in
      let (a, b) = (mem-filter (of_import source) t before).0 n in (t, a, b, e)

  Kept-step :
      (g : Progress) (p : TuplePair)
      → Kept source before g
      → Kept source before (import_step now fresh source descriptions existing g p)
  unfolding import_step
  Kept-step g p h = elim (Bool-cases (contains g.new_set (pair_key p))) [
    | inl e ↦ rw (e, import_step) h
    | inr e ↦ elim (Bool-cases (contains existing (pair_key p))) [
      | inl q ↦
          let (t, m, i, w) = Has-existing (pair_key p) ((contains_iff existing (pair_key p)).0 q) in
          rw (e, q, import_step)
            (record {
              old = h.old;
              foreign = h.foreign;
              has =
                  λ k m'. ⊎_elim (λ z. (t, h.old t m, i, w ∙ sym z)) (h.has k) (Memᴰ.cases_cons m');
            })
      | inr q ↦
          let x = new_entry now fresh source g.added p in
          let (i, w) = new_entry-key now fresh source g.added p in
          rw (e, q, import_step)
            (record {
              old = λ t m. (Memᴰ-concat t x g.tuples).1 (inl (h.old t m));
              foreign = others-concat source g.tuples x i ∙ h.foreign;
              has = λ k m.
                  ⊎_elim (λ z. (x, (Memᴰ-concat x x g.tuples).1 (inr refl), i, w ∙ sym z))
                    (λ n. Has-concat source g.tuples x k (h.has k n)) (Memᴰ.cases_cons m);
            })
    ]
  ]

  new_set-step :
      (g : Progress) (p : TuplePair) (k : Key)
      → Memᴰ k (import_step now fresh source descriptions existing g p).new_set
        ↔ (Memᴰ k g.new_set ⊎ (k ≡ pair_key p))
  unfolding import_step
  new_set-step g p k =
      ground (arith, contains_iff g.new_set (pair_key p), Memᴰ-cons k (pair_key p) g.new_set)

  pub import_loop-Kept :
      (g : Progress) (ps : List TuplePair)
      → Kept source before g
      → Kept source before (import_loop now fresh source descriptions existing g ps)
  unfolding import_loop
  import_loop-Kept g [] h = h
  import_loop-Kept g (p ∷ ps) h =
      import_loop-Kept (import_step now fresh source descriptions existing g p) ps (Kept-step g p h)

  pub import_loop-new_set :
      (g : Progress) (ps : List TuplePair) (k : Key)
      → Memᴰ k (import_loop now fresh source descriptions existing g ps).new_set
        ↔ (Memᴰ k g.new_set ⊎ Memᴰ k (map pair_key ps))
  unfolding import_loop
  import_loop-new_set g [] k = (inl, λ h. ⊎_elim (λ m. m) (λ m. absurd (Memᴰ.not-nil m)) h)
  import_loop-new_set g (p ∷ ps) k = ground (
    arith,
    import_loop-new_set (import_step now fresh source descriptions existing g p) ps k,
    new_set-step g p k,
    Memᴰ-cons k (pair_key p) (map pair_key ps),
  )
