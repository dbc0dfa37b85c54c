-- ===== src/Store/Members/Invariant.antt =====
-- What holds between two rounds of the outer loop of `GetAllMembers`.
use mathlib.Core.List.Memᴰ
use role_provider_service.Base.{
  ◌≡◌, ◌↔◌, ◌⊎◌, inl, inr, ⊎_elim, refl, sym, subst, ◌&&◌, List, [], ◌∷◌, ◌++◌, Memᴰ, Text,
  list_beq_iff, nat_eq, list_eq, pair_eq, Distinct, &&_iff, map, mem-filter,
}
use role_provider_service.Common.Types.{Time}
use role_provider_service.Common.Token.{group_type}
use role_provider_service.Store.State.{Entry}
use role_provider_service.Store.Members.{Step, counts}
use role_provider_service.Store.Members.Meaning.{Counts, counts_iff, InGroup, entry, nested}
use role_provider_service.Store.Members.Scan.{
  token_of, step_of, is_group, counted, subgroups, add_all, mem-add_all, add_all-Distinct,
}

module _ (now : Time) (ts : List Entry) where
  mem-counted : (q : Step) (t : Entry) → Memᴰ t (counted now q ts) ↔ (Memᴰ t ts × Counts now q t)
  mem-counted q t = (
    λ m. let (k, c) = (mem-filter (counts now q) t ts).0 m in (k, (counts_iff now q t).0 c),
    λ (k, c). (mem-filter (counts now q) t ts).1 (k, (counts_iff now q t).1 c),
  )

  mem-subgroups :
      (q : Step) (t : Entry)
      → Memᴰ t (subgroups now q ts) ↔ (Memᴰ t ts × Counts now q t × (t.subj_type ≡ group_type))
  mem-subgroups q t = (
    λ m.
        let (k, b) = (mem-filter (λ (u : Entry). counts now q u && is_group u) t ts).0 m in
        let (c, g) = (&&_iff (counts now q t) (is_group t)).0 b in
        (k, (counts_iff now q t).0 c, (list_beq_iff t.subj_type group_type).0 g),
    λ (k, c, g). (mem-filter (λ (u : Entry). counts now q u && is_group u) t ts).1 (
      k,
      (&&_iff (counts now q t) (is_group t)).1
          ((counts_iff now q t).1 c, (list_beq_iff t.subj_type group_type).1 g),
    ),
  )

  module _ (start : Step) where
    -- `visited`, `queue` and `tokens` between two rounds.
    pub record Inv (visited queue : List Step) (tokens : List Text) : Type 0 where
      pub sound : (tok : Text) → Memᴰ tok tokens → InGroup now ts start tok
      pub queued :
          (q : Step) → Memᴰ q queue → (tok : Text) → InGroup now ts q tok → InGroup now ts start tok
      pub known : Memᴰ start visited ⊎ Memᴰ start queue
      pub listed :
          (q : Step)
          → Memᴰ q visited
          → (t : Entry) → Memᴰ t ts
          → Counts now q t
          → Memᴰ (token_of t) tokens
      pub closed :
          (q : Step)
          → Memᴰ q visited
          → (t : Entry) → Memᴰ t ts
          → Counts now q t
          → t.subj_type ≡ group_type
          → Memᴰ (step_of t) visited ⊎ Memᴰ (step_of t) queue
      pub distinct : Distinct tokens
      -- What is queued is the start or an entry's subject.
      pub bounded : (q : Step) → Memᴰ q queue → Memᴰ q (start ∷ map step_of ts)

    pub Inv-start : Inv [] (start ∷ []) []
    Inv-start = record {
      sound = λ tok m. absurd (Memᴰ.not-nil m);
      queued = λ q m tok i. subst (λ r. InGroup now ts r tok) (Memᴰ.eq_of_singleton m) i;
      known = inr (Memᴰ.head refl);
      listed = λ q m. absurd (Memᴰ.not-nil m);
      closed = λ q m. absurd (Memᴰ.not-nil m);
      distinct = tt;
      bounded = λ q m. Memᴰ.head (Memᴰ.eq_of_singleton m);
    }

    -- A step met again is dropped.
    pub Inv-skip :
        (visited queue : List Step) (tokens : List Text) (q : Step)
        → Memᴰ q visited
        → Inv visited (q ∷ queue) tokens
        → Inv visited queue tokens
    Inv-skip visited queue tokens q seen h = record {
      sound = h.sound;
      queued = λ r m. h.queued r (Memᴰ.tail m);
      known = still start h.known;
      listed = h.listed;
      closed = λ r m t k c g. still (step_of t) (h.closed r m t k c g);
      distinct = h.distinct;
      bounded = λ r m. h.bounded r (Memᴰ.tail m);
    }
      where
        still : (r : Step) → Memᴰ r visited ⊎ Memᴰ r (q ∷ queue) → Memᴰ r visited ⊎ Memᴰ r queue
        still r (inl m) = inl m
        still r (inr (Memᴰ.head e)) = inl (Memᴰ.cast e seen)
        still r (inr (Memᴰ.tail m)) = inr m

    -- A new step is expanded.
    pub Inv-expand :
        (visited queue : List Step) (tokens : List Text) (q : Step)
        → Inv visited (q ∷ queue) tokens
        → Inv
            (q ∷ visited)
            (queue ++ map step_of (subgroups now q ts))
            (add_all tokens (map token_of (counted now q ts)))
    Inv-expand visited queue tokens q h = record {
      sound = λ tok m. ⊎_elim (h.sound tok) (from_counted tok) ((mem-add_all tokens found tok).0 m);
      queued = λ r m tok i.
          ⊎_elim (λ old. h.queued r (Memᴰ.tail old) tok i) (λ k. from_subgroup r tok k i)
            (Memᴰ.append_cases queue m);
      known = moved start h.known;
      listed = listed;
      closed = closed;
      distinct = add_all-Distinct tokens found h.distinct;
      bounded = λ r m.
          ⊎_elim (λ old. h.bounded r (Memᴰ.tail old)) (subject_bounded r)
            (Memᴰ.append_cases queue m);
    }
      where
        found : List Text
        found = map token_of (counted now q ts)

        new : List Step
        new = map step_of (subgroups now q ts)

        moved :
            (r : Step)
            → Memᴰ r visited ⊎ Memᴰ r (q ∷ queue)
            → Memᴰ r (q ∷ visited) ⊎ Memᴰ r (queue ++ new)
        moved r (inl m) = inl (Memᴰ.tail m)
        moved r (inr (Memᴰ.head e)) = inl (Memᴰ.head e)
        moved r (inr (Memᴰ.tail m)) = inr (Memᴰ.append_left new m)

        from_counted : (tok : Text) → Memᴰ tok found → InGroup now ts start tok
        from_counted tok m =
            let (t, n, e) = Memᴰ.of_map token_of (counted now q ts) m in
            let (k, c) = (mem-counted q t).0 n in
            h.queued q (Memᴰ.head refl) tok (entry t k c (sym e))

        from_subgroup :
            (r : Step) (tok : Text) → Memᴰ r new → InGroup now ts r tok → InGroup now ts start tok
        from_subgroup r tok m i =
            let (t, n, e) = Memᴰ.of_map step_of (subgroups now q ts) m in
            let (k, c, g) = (mem-subgroups q t).0 n in
            h.queued q (Memᴰ.head refl) tok
              (nested t k c g (subst (λ s. InGroup now ts s tok) (sym e) i))

        subject_bounded : (r : Step) → Memᴰ r new → Memᴰ r (start ∷ map step_of ts)
        subject_bounded r m =
            let (t, n, e) = Memᴰ.of_map step_of (subgroups now q ts) m in
            Memᴰ.tail (Memᴰ.cast (sym e) (Memᴰ.map step_of ((mem-subgroups q t).0 n).0))

        listed :
            (r : Step)
            → Memᴰ r (q ∷ visited)
            → (t : Entry) → Memᴰ t ts
            → Counts now r t
            → Memᴰ (token_of t) (add_all tokens found)
        listed r (Memᴰ.head e) t n c =
            (mem-add_all tokens found (token_of t)).1
              (inr (Memᴰ.map token_of ((mem-counted q t).1 (n, subst (λ s. Counts now s t) e c))))
        listed r (Memᴰ.tail m) t n c =
            (mem-add_all tokens found (token_of t)).1 (inl (h.listed r m t n c))

        closed :
            (r : Step)
            → Memᴰ r (q ∷ visited)
            → (t : Entry) → Memᴰ t ts
            → Counts now r t
            → t.subj_type ≡ group_type
            → Memᴰ (step_of t) (q ∷ visited) ⊎ Memᴰ (step_of t) (queue ++ new)
        closed r (Memᴰ.head e) t n c g = inr (
            Memᴰ.append_right queue
              (Memᴰ.map step_of ((mem-subgroups q t).1 (n, subst (λ s. Counts now s t) e c, g))))
        closed r (Memᴰ.tail m) t n c g = moved (step_of t) (h.closed r m t n c g)
