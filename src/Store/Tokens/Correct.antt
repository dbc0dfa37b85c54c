-- ===== src/Store/Tokens/Correct.antt =====
-- `GetUserTokens` ends, and finds exactly what the person holds.
use mathlib.Core.List.Memᴰ
use role_provider_service.Base.{
  ℕ, zero, suc, ◌<◌, ◌≡◌, ◌↔◌, ◌⊎◌, inl, inr, ⊎_elim, refl, sym, subst, Bool, true, List, [], ◌∷◌,
  map, filter, mem-filter, Memᴰ, arith, Text, some, length, length-map, Distinct, unseen-le-length,
  nat_eq, list_eq, pair_eq,
}
use role_provider_service.Common.Types.{Time}
use role_provider_service.Store.State.{Entry}
use role_provider_service.Store.Tokens.{
  Pair, Found, names, hands_on, add_pairs, tokens_loop, tokens_fuel, held_pairs,
}
use role_provider_service.Store.Tokens.Meaning.{
  Names, names_iff, HandsOn, hands_on_iff, Holds, named, through,
}
use role_provider_service.Store.Tokens.Scan.{
  pair_of, mem-add_pairs, Grows, add_pairs-Grows, work, add_pairs-work,
}

module _ (now : Time) (email : Text) (ts : List Entry) where
  -- `order` and `queue` between two rounds of the loop.
  record Inv (f : Found) : Type 0 where
    sound : (p : Pair) → Memᴰ p f.0 → Holds now email ts p
    covered : (p : Pair) → Memᴰ p f.1 → Memᴰ p f.0
    seeds : (t : Entry) → Memᴰ t ts → Names now email t → Memᴰ (pair_of t) f.0
    closed :
        (p : Pair)
        → Memᴰ p f.0
        → Memᴰ p f.1 ⊎ ((t : Entry) → Memᴰ t ts → HandsOn now p t → Memᴰ (pair_of t) f.0)
    distinct : Distinct f.0

  from_filter :
      (c : Entry → Bool) (p : Pair)
      → Memᴰ p (map pair_of (filter c ts))
      → (t : Entry) × Memᴰ t ts × (c t ≡ true) × (p ≡ pair_of t)
  from_filter c p m =
      let (t, n, e) = Memᴰ.of_map pair_of (filter c ts) m in
      let (k, h) = (mem-filter c t ts).0 n in (t, k, h, sym e)

  to_filter :
      (c : Entry → Bool) (t : Entry)
      → Memᴰ t ts
      → c t ≡ true
      → Memᴰ (pair_of t) (map pair_of (filter c ts))
  to_filter c t m h = Memᴰ.map pair_of ((mem-filter c t ts).1 (m, h))

  Inv-start : Inv (add_pairs (names now email) ts ([], []))
  Inv-start = record {
    sound = λ p m.
        ⊎_elim (λ k. absurd (Memᴰ.not-nil k)) (holds p) ((mem-add_pairs c ts ([], []) p).0 m);
    covered = grows.covered;
    seeds = λ t m n.
        (mem-add_pairs c ts ([], []) (pair_of t)).1
          (inr (to_filter c t m ((names_iff now email t).1 n)));
    closed = λ p m. ⊎_elim (λ k. absurd (Memᴰ.not-nil k)) inl (grows.new p m);
    distinct = grows.distinct;
  }
    where
      c : Entry → Bool
      c = names now email

      grows : Grows ([], []) (add_pairs c ts ([], []))
      grows = add_pairs-Grows c ts ([], []) (λ q m. absurd (Memᴰ.not-nil m)) tt

      holds : (p : Pair) → Memᴰ p (map pair_of (filter c ts)) → Holds now email ts p
      holds p m = let (t, k, h, e) = from_filter c p m in named t k ((names_iff now email t).0 h) e

  Inv-step :
      (order : List Pair) (p : Pair) (queue : List Pair)
      → Inv (order, p ∷ queue)
      → Inv (add_pairs (hands_on now p) ts (order, queue))
  Inv-step order p queue h = record {
    sound = λ q m. ⊎_elim (h.sound q) (holds q) ((mem-add_pairs c ts (order, queue) q).0 m);
    covered = grows.covered;
    seeds = λ t m n. grows.found (pair_of t) (h.seeds t m n);
    closed = λ q m. ⊎_elim (old q) inl (grows.new q m);
    distinct = grows.distinct;
  }
    where
      c : Entry → Bool
      c = hands_on now p

      grows : Grows (order, queue) (add_pairs c ts (order, queue))
      grows = add_pairs-Grows c ts (order, queue) (λ q m. h.covered q (Memᴰ.tail m)) h.distinct

      holds : (q : Pair) → Memᴰ q (map pair_of (filter c ts)) → Holds now email ts q
      holds q m =
          let (t, k, b, e) = from_filter c q m in
          through p t k ((hands_on_iff now p t).0 b) e (h.sound p (h.covered p (Memᴰ.head refl)))

      expanded :
          (q : Pair)
          → q ≡ p
          → (t : Entry) → Memᴰ t ts
          → HandsOn now q t
          → Memᴰ (pair_of t) (add_pairs c ts (order, queue)).0
      expanded q e t m b =
          (mem-add_pairs c ts (order, queue) (pair_of t)).1
            (inr (to_filter c t m ((hands_on_iff now p t).1 (subst (λ r. HandsOn now r t) e b))))

      old :
          (q : Pair)
          → Memᴰ q order
          → Memᴰ q (add_pairs c ts (order, queue)).1
            ⊎ ((t : Entry)
                → Memᴰ t ts
                → HandsOn now q t
                → Memᴰ (pair_of t) (add_pairs c ts (order, queue)).0)
      old q m = elim (h.closed q m) [
        | inl (Memᴰ.head e) ↦ inr (expanded q e)
        | inl (Memᴰ.tail k) ↦ inl (grows.queue q k)
        | inr all ↦ inr (λ t n b. grows.found (pair_of t) (all t n b))
      ]

  tokens_loop_ends :
      (fuel : ℕ) (order queue : List Pair)
      → Inv (order, queue)
      → work (map pair_of ts) (order, queue) < fuel
      → (out : List Pair) × (tokens_loop fuel now ts order queue ≡ some out) × Inv (out, [])
  unfolding tokens_loop
  tokens_loop_ends zero order queue h w = absurd (omega arith)
  tokens_loop_ends (suc fuel) order [] h w = (order, refl, h)
  tokens_loop_ends (suc fuel) order (p ∷ queue) h w =
      let f = add_pairs (hands_on now p) ts (order, queue) in
      tokens_loop_ends fuel f.0 f.1 (Inv-step order p queue h) (
        omega (
          arith,
          add_pairs-work (hands_on now p) ts (order, queue) (map pair_of ts)
              (λ t. Memᴰ.map pair_of),
        ))

  complete : (out : List Pair) → Inv (out, []) → {p : Pair} → Holds now email ts p → Memᴰ p out
  complete out h (named t m n e) = Memᴰ.cast e (h.seeds t m n)
  complete out h (through q t m b e i) =
      Memᴰ.cast e
        (⊎_elim (λ k. absurd (Memᴰ.not-nil k)) (λ all. all t m b) (h.closed q (complete out h i)))

  -- The search for the pairs that a person holds ends, and finds each of them, once, and no other.
  pub held_pairs_correct :
      (out : List Pair) × (held_pairs now email ts ≡ some out)
      × Distinct out
      × ((p : Pair) → Memᴰ p out ↔ Holds now email ts p)
  unfolding held_pairs
  held_pairs_correct =
      let f = add_pairs (names now email) ts ([], []) in
      let (out, ends, i) = tokens_loop_ends (tokens_fuel (length ts)) f.0 f.1 Inv-start (
        omega (
          arith,
          add_pairs-work (names now email) ts ([], []) (map pair_of ts) (λ t. Memᴰ.map pair_of),
          unseen-le-length [] (map pair_of ts),
          length-map pair_of ts,
        )) in
      (out, ends, i.distinct, λ p. (i.sound p, complete out i))
