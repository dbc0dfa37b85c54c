-- ===== src/Store/Import/Foreign.antt =====
-- The groups that an import leaves alone.
use mathlib.Core.List.Memᴰ
use role_provider_service.Base.{
  ℕ, ◌≡◌, ◌≢◌, inl, inr, refl, subst, Bool, false, List, [], ◌∷◌, Memᴰ, Memᴰ-concat, arith, Text,
  some, nat_eq, list_eq, option_eq, pair_eq, option_beq_iff, list_beq_iff, Bool-cases, Option-cases,
  map, mem-filter, contains, ◌==◌, if◌then◌else◌,
}
use role_provider_service.Common.Types.{Uuid, Time, Group, TuplePair}
use role_provider_service.Store.State.{MemoryStore}
use role_provider_service.Store.Entries.{Key}
use role_provider_service.Store.Groups.{find_group, update_where}
use role_provider_service.Store.Import.{
  Descriptions, describe, new_group, pair_key, upsert_group, Progress, import_step, import_loop,
  replace_tuples,
}

mem-update_where :
    (p : Group → Bool) (f : Group → Group) (gs : List Group) (g : Group)
    → Memᴰ g gs
    → p g ≡ false
    → Memᴰ g (update_where p f gs)
unfolding update_where
mem-update_where p f gs g m e =
    let same : (if p g then f g else g) ≡ g = rw e refl in
    subst (λ x. Memᴰ x (map (λ y. if p y then f y else y) gs)) same
      (Memᴰ.map (λ y. if p y then f y else y) m)

mem-upsert_group :
    (now : Time) (source : Uuid) (ds : Descriptions) (id : Text) (gs : List Group) (g : Group)
    → Memᴰ g gs
    → g.id ≢ id
    → Memᴰ g (upsert_group now source ds id gs)
unfolding upsert_group
mem-upsert_group now source ds id gs g m d =
    let other : (g.id == id) ≡ false = ground (arith, list_beq_iff g.id id) in
    elim (Option-cases (find_group id gs)) [
      | inl e ↦ rw (e, upsert_group) ((Memᴰ-concat g (new_group now source ds id) gs).1 (inl m))
      | inr (x, e) ↦ elim (Option-cases (describe id ds)) [
        | inl q ↦ rw (e, q, upsert_group) m
        | inr (t, q) ↦ elim (Bool-cases (x.description == t)) [
          | inl r ↦ rw (e, q, r, upsert_group) m
          | inr r ↦ rw (e, q, r, upsert_group) (mem-update_where (λ y. y.id == id) _ gs g m other)
        ]
      ]
    ]

import_step-groups :
    (now : Time) (fresh : ℕ → Uuid) (source : Uuid) (ds : Descriptions) (existing : List Key)
    (pr : Progress) (p : TuplePair) (g : Group)
    → Memᴰ g pr.groups
    → g.id ≢ p.group_id
    → Memᴰ g (import_step now fresh source ds existing pr p).groups
unfolding import_step
import_step-groups now fresh source ds existing pr p g m d =
    let kept = mem-upsert_group now source ds p.group_id pr.groups g m d in
    elim (Bool-cases (contains pr.new_set (pair_key p))) [
      | inl e ↦ rw (e, import_step) m
      | inr e ↦ elim (Bool-cases (contains existing (pair_key p))) [
        | inl q ↦ rw (e, q, import_step) kept
        | inr q ↦ rw (e, q, import_step) kept
      ]
    ]

import_loop-groups :
    (now : Time) (fresh : ℕ → Uuid) (source : Uuid) (ds : Descriptions) (existing : List Key)
    (pr : Progress) (ps : List TuplePair) (g : Group)
    → Memᴰ g pr.groups
    → ¬ Memᴰ g.id (map (λ p. p.group_id) ps)
    → Memᴰ g (import_loop now fresh source ds existing pr ps).groups
unfolding import_loop
import_loop-groups now fresh source ds existing pr [] g m n = m
import_loop-groups now fresh source ds existing pr (p ∷ ps) g m n =
    import_loop-groups now fresh source ds existing (import_step now fresh source ds existing pr p)
      ps g (import_step-groups now fresh source ds existing pr p g m (λ e. n (Memᴰ.head e)))
      (λ k. n (Memᴰ.tail k))

-- A group that is not the source's, and that its import does not name, stays as it is.
pub replace_tuples-groups :
    (now : Time) (fresh : ℕ → Uuid) (source : Uuid) (ps : List TuplePair) (ds : Descriptions)
    (s : MemoryStore) (g : Group)
    → Memᴰ g s.groups
    → g.source_id ≢ some source
    → ¬ Memᴰ g.id (map (λ p. p.group_id) ps)
    → Memᴰ g (replace_tuples now fresh source ps ds s).0.groups
unfolding replace_tuples
replace_tuples-groups now fresh source ps ds s g m d n =
    let foreign : (g.source_id == some source) ≡ false =
      ground (arith, option_beq_iff g.source_id (some source)) in
    (mem-filter _ g _).1 (import_loop-groups now fresh source ds _ _ ps g m n, rw foreign refl)
