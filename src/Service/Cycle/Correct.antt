-- ===== src/Service/Cycle/Correct.antt =====
-- The search for a cycle ends, and finds one exactly if there is one.
use mathlib.Core.List.Memᴰ
use role_provider_service.Base.{
  ℕ, zero, suc, ◌+◌, ◌<◌, ◌≡◌, ◌≢◌, ◌⊎◌, inl, inr, ⊎_elim, refl, subst, List, [], ◌∷◌, Memᴰ, arith,
  Text, list_beq_iff, ◌==◌, nat_eq, list_eq, Bool-cases, length, length-map, map, unseen,
  unseen-le-length,
}
use role_provider_service.Base.Result.{ok, err, cycle}
use role_provider_service.Common.Types.{Time}
use role_provider_service.Store.State.{MemoryStore}
use role_provider_service.Store.Listing.{Edge, group_edges}
use role_provider_service.Store.Listing.Edges.{Contains, mem-group_edges}
use role_provider_service.Service.Cycle.{children, search_cycle, cycle_fuel, check_no_cycle}
use role_provider_service.Service.Cycle.Meaning.{
  Below, last, more, Below-append, Below-map, Edges, mem-children,
}
use role_provider_service.Service.Cycle.Visit.{Visited, visit-cases}

module _ (edges : List Edge) (group_id member_id : Text) where
  -- What the search has seen lies below the member, and is queued or expanded.
  record Inv (seen queue : List Text) : Type 0 where
    start : Memᴰ member_id seen
    below : (a : Text) → Memᴰ a seen → (a ≡ member_id) ⊎ Below (Edges edges) member_id a
    known : (a : Text) → Memᴰ a queue → Memᴰ a seen
    done :
        (a : Text)
        → Memᴰ a seen
        → Memᴰ a queue ⊎ ((b : Text) → Memᴰ (a, b) edges → (b ≢ group_id) × Memᴰ b seen)

  abbrev targets : List Text
  targets = map (λ (e : Edge). e.1) edges

  abbrev work : List Text → List Text → ℕ
  work seen queue = length queue + unseen seen targets

  target : (a b : Text) → Memᴰ (a, b) edges → Memᴰ b targets
  target a b m = Memᴰ.map (λ (e : Edge). e.1) m

  Below-child :
      (seen queue : List Text) (x b : Text)
      → Inv seen (x ∷ queue)
      → Memᴰ b (children edges x)
      → Below (Edges edges) member_id b
  Below-child seen queue x b h m =
      let edge = (mem-children edges x b).0 m in
      ⊎_elim (λ e. subst (λ y. Below (Edges edges) y b) e (last edge)) (λ p. Below-append p edge)
        (h.below x (h.known x (Memᴰ.head refl)))

  Inv-visit :
      (seen queue seen' queue' : List Text) (x : Text)
      → Inv seen (x ∷ queue)
      → Visited group_id (children edges x) seen queue seen' queue' targets
      → Inv seen' queue'
  Inv-visit seen queue seen' queue' x h v = record {
    start = (v.grown member_id).1 (inl h.start);
    below = λ a m. ⊎_elim (h.below a) (λ c. inr (Below-child seen queue x a h c)) ((v.grown a).0 m);
    known = λ a m.
        ⊎_elim (λ k. (v.grown a).1 (inl (h.known a (Memᴰ.tail k)))) (λ c. (v.grown a).1 (inr c))
          (v.queued a m);
    done = λ a m. ⊎_elim (λ k. expanded a k) inl (v.waiting a m);
  }
    where
      clear : (b : Text) → Memᴰ (x, b) edges → (b ≢ group_id) × Memᴰ b seen'
      clear b n =
          let child = (mem-children edges x b).1 n in
          (λ e. v.clean (subst (λ y. Memᴰ y (children edges x)) e child), (v.grown b).1 (inr child))

      expanded :
          (a : Text)
          → Memᴰ a seen
          → Memᴰ a queue' ⊎ ((b : Text) → Memᴰ (a, b) edges → (b ≢ group_id) × Memᴰ b seen')
      expanded a m = elim (h.done a m) [
        | inl k ↦ elim (Memᴰ.cases_cons k) [
          | inl e ↦ inr (λ b n. clear b (subst (λ y. Memᴰ (y, b) edges) e n))
          | inr k' ↦ inl (v.kept a k')
        ]
        | inr d ↦ inr (λ b n. ((d b n).0, (v.grown b).1 (inl (d b n).1)))
      ]

  -- With an empty queue nothing that was seen leads to the group.
  settled :
      (seen : List Text) → Inv seen [] → (a : Text) → Memᴰ a seen → ¬ Below (Edges edges) a group_id
  settled seen h a m (last n) =
      ⊎_elim (λ k. absurd (Memᴰ.not-nil k)) (λ d. (d group_id n).0 refl) (h.done a m)
  settled seen h a m (more {c = c} n p) =
      ⊎_elim (λ k. absurd (Memᴰ.not-nil k)) (λ d. settled seen h c (d c n).1 p) (h.done a m)

  search_cycle-cases :
      (fuel : ℕ) (seen queue : List Text)
      → Inv seen queue
      → work seen queue < fuel
      → (search_cycle fuel edges group_id seen queue ≡ ok tt)
          × (¬ Below (Edges edges) member_id group_id)
        ⊎ (search_cycle fuel edges group_id seen queue ≡ err cycle)
          × Below (Edges edges) member_id group_id
  unfolding search_cycle
  search_cycle-cases zero seen queue h w = absurd (omega arith)
  search_cycle-cases (suc fuel) seen [] h w = inl (refl, λ p. settled seen h member_id h.start p)
  search_cycle-cases (suc fuel) seen (x ∷ queue) h w =
      elim (visit-cases group_id (children edges x) seen queue targets) [
        | inl (seen', queue', e, v) ↦
            rw (e, search_cycle)
              (search_cycle-cases fuel seen' queue' (Inv-visit seen queue seen' queue' x h v)
                (omega (arith, v.work (λ a m. target x a ((mem-children edges x a).0 m)))))
        | inr (e, m) ↦ inr (rw (e, search_cycle) refl, Below-child seen queue x group_id h m)
      ]

  pub search_cycle_correct :
      (search_cycle (cycle_fuel edges) edges group_id (member_id ∷ []) (member_id ∷ []) ≡ ok tt)
        × (¬ Below (Edges edges) member_id group_id)
      ⊎ (search_cycle (cycle_fuel edges) edges group_id (member_id ∷ []) (member_id ∷ [])
          ≡ err cycle)
        × Below (Edges edges) member_id group_id
  search_cycle_correct =
      search_cycle-cases (cycle_fuel edges) (member_id ∷ []) (member_id ∷ [])
        (record {
          start = Memᴰ.head refl;
          below = λ a m. ⊎_elim inl (λ n. absurd (Memᴰ.not-nil n)) (Memᴰ.cases_cons m);
          known = λ a m. m;
          done = λ a m. inl m;
        })
        (omega
          (arith, unseen-le-length (member_id ∷ []) targets, length-map (λ (e : Edge). e.1) edges))

-- `checkNoCycle` refuses a group as member of another with a cycle exactly if the two are one, or live
-- entries lead from the member down to the group, whatever relation they name; otherwise it agrees.
-- It gives no other error.
pub check_no_cycle_correct :
    (now : Time) (group_id member_id : Text) (s : MemoryStore)
    → (check_no_cycle now group_id member_id s ≡ ok tt)
        × (group_id ≢ member_id)
        × (¬ Below (Contains now s.tuples) member_id group_id)
      ⊎ (check_no_cycle now group_id member_id s ≡ err cycle)
        × ((group_id ≡ member_id) ⊎ Below (Contains now s.tuples) member_id group_id)
unfolding check_no_cycle
check_no_cycle_correct now group_id member_id s =
    let edge = mem-group_edges now s in
    elim (Bool-cases (group_id == member_id)) [
      | inl e ↦ inr (rw (e, check_no_cycle) refl, inl ((list_beq_iff group_id member_id).0 e))
      | inr e ↦ elim (search_cycle_correct (group_edges now s) group_id member_id) [
        | inl (q, n) ↦ inl (
          rw (e, check_no_cycle) q,
          λ z. cc (e, (list_beq_iff group_id member_id).1 z),
          λ p. n (Below-map (λ a b. (edge a b).1) p),
        )
        | inr (q, p) ↦ inr (rw (e, check_no_cycle) q, inr (Below-map (λ a b. (edge a b).0) p))
      ]
    ]
