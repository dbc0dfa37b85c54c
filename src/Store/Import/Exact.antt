-- ===== src/Store/Import/Exact.antt =====
-- After `ReplaceTuples` a source's entries are what its import says.
use mathlib.Core.List.Memᴰ
use role_provider_service.Base.{
  ℕ, ◌≡◌, ◌↔◌, ◌⊎◌, inr, ⊎_elim, refl, sym, subst, ◌∙◌, true, not, List, [], ◌∷◌, Memᴰ, arith,
  nat_eq, list_eq, pair_eq, option_eq, map, filter, mem-filter, contains_iff,
}
use role_provider_service.Common.Types.{Uuid, Time, TuplePair}
use role_provider_service.Store.State.{Entry, MemoryStore}
use role_provider_service.Store.Entries.{Key, key_of}
use role_provider_service.Store.Import.{
  Descriptions, of_import, pair_key, Progress, import_loop, is_stale, replace_tuples,
}
use role_provider_service.Store.Import.Keep.{
  Has, others, Kept, import_loop-Kept, import_loop-new_set,
}

others-fresh :
    (source : Uuid) (new_set : List Key) (ts : List Entry)
    → others source (filter (λ t. not (is_stale source new_set t)) ts) ≡ others source ts
unfolding filter is_stale
others-fresh source new_set [] = refl
others-fresh source new_set (t ∷ ts) = ground (arith, others-fresh source new_set ts)

-- An entry of the source stays exactly if the import says its key.
fresh_iff :
    (source : Uuid) (new_set : List Key) (t : Entry)
    → of_import source t ≡ true
    → (not (is_stale source new_set t) ≡ true) ↔ Memᴰ (key_of t) new_set
unfolding is_stale
fresh_iff source new_set t i = ground (arith, contains_iff new_set (key_of t))

-- `ReplaceTuples` makes the keys of a source's entries exactly those of its import. The entries of other
-- sources, and those of none, are as they were, in their order; and an entry of the source that the
-- import says again is the same one as before, with its id, its expiry and when it was made.
pub replace_tuples_exact :
    (now : Time) (fresh : ℕ → Uuid) (source : Uuid) (ps : List TuplePair) (ds : Descriptions)
    (s : MemoryStore)
    → let after = (replace_tuples now fresh source ps ds s).0.tuples in
      ((k : Key) → Has source after k ↔ Memᴰ k (map pair_key ps))
      × (others source after ≡ others source s.tuples)
      × ((t : Entry)
          → Memᴰ t s.tuples
          → of_import source t ≡ true
          → Memᴰ (key_of t) (map pair_key ps)
          → Memᴰ t after)
unfolding replace_tuples
replace_tuples_exact now fresh source ps ds s = (
  λ k. (
    λ (t, m, i, e).
        let (n, f) = (mem-filter _ t g.tuples).0 m in
        tuple_said k (subst (λ j. Memᴰ j g.new_set) e ((fresh_iff source g.new_set t i).0 f)),
    λ m.
        let (t, n, i, e) = kept.has k ((said k).1 (inr m)) in
        (
          t,
          (mem-filter _ t g.tuples).1 (
            n,
            (fresh_iff source g.new_set t i).1
                (subst (λ j. Memᴰ j g.new_set) (sym e) ((said k).1 (inr m))),
          ),
          i,
          e,
        ),
  ),
  others-fresh source g.new_set g.tuples ∙ kept.foreign,
  λ t m i n.
      (mem-filter _ t g.tuples).1
        (kept.old t m, (fresh_iff source g.new_set t i).1 ((said (key_of t)).1 (inr n))),
)
  where
    start : Progress
    start = record { groups = s.groups; tuples = s.tuples; new_set = []; added = 0 }

    g : Progress
    g = import_loop now fresh source ds (map key_of (filter (of_import source) s.tuples)) start ps

    kept : Kept source s.tuples g
    kept =
        import_loop-Kept now fresh source ds s.tuples start ps
          (record { old = λ t m. m; foreign = refl; has = λ k m. absurd (Memᴰ.not-nil m) })

    said : (k : Key) → Memᴰ k g.new_set ↔ (Memᴰ k [] ⊎ Memᴰ k (map pair_key ps))
    said k = import_loop-new_set now fresh source ds s.tuples start ps k

    tuple_said : (k : Key) → Memᴰ k g.new_set → Memᴰ k (map pair_key ps)
    tuple_said k m = ⊎_elim (λ n. absurd (Memᴰ.not-nil n)) (λ n. n) ((said k).0 m)
