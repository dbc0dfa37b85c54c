-- ===== src/Service/Browse/Path/Climb.antt =====
-- The search upwards ends, at a top where there is one.
use mathlib.Core.List.Memᴰ
use role_provider_service.Base.{
  ℕ, zero, suc, ◌+◌, ◌<◌, ◌≡◌, ◌≢◌, ◌⊎◌, inl, inr, ⊎_elim, refl, sym, arith, List, [], ◌∷◌, some,
  Text, Memᴰ, Memᴰ-cons, length, is_empty, is_empty_iff, unseen, Bool-cases, subst, nat_eq, list_eq,
}
use role_provider_service.Service.Browse.{Steps, visit_ups, way_from, climb}
use role_provider_service.Service.Browse.Path.{
  keys, mem-keys, Grown, only, grow, Way, here, up, way_from-Way,
}
use role_provider_service.Service.Browse.Path.Visit.{visit_ups-Visited}

module _ (ups : Text → List Text) (g : Text) where
  -- A way down to the group from one that has no ups; or the group alone, where no way down to it starts
  -- at such a one.
  pub data Answer : List Text → Type 0 where
    from_top : {top : Text} {path : List Text} → Way ups g top path → ups top ≡ [] → Answer path
    no_top : ((id : Text) (path : List Text) → Way ups g id path → ups id ≢ []) → Answer (g ∷ [])

  pub record Inv (next : Steps) (queue : List Text) : Type 0 where
    pub grown : Grown ups g next
    pub queued : (a : Text) → Memᴰ a queue → Memᴰ a (keys next)
    pub closed :
        (a : Text)
        → Memᴰ a (keys next)
        → Memᴰ a queue ⊎ ((ups a ≢ []) × ((p : Text) → Memᴰ p (ups a) → Memᴰ p (keys next)))

  g_key : (next : Steps) → Grown ups g next → Memᴰ g (keys next)
  g_key _ only = Memᴰ.head refl
  g_key _ (grow {next} p id gr m k n) = Memᴰ.tail (g_key next gr)

  way_key :
      (next : Steps) (id : Text) (path : List Text)
      → Inv next []
      → Way ups g id path
      → Memᴰ id (keys next)
  way_key next _ _ inv here = g_key next inv.grown
  way_key next _ _ inv (up {p} {id} {path} m w) =
      ⊎_elim (λ n. absurd (Memᴰ.not-nil n)) (λ c. c.1 p m)
        (inv.closed id (way_key next id path inv w))

  module _ (g_named : g ≢ []) (ups_named : (id p : Text) → Memᴰ p (ups id) → p ≢ [])
      (cands : List Text) (within : (id p : Text) → Memᴰ p (ups id) → Memᴰ p cands) where
    visit-Inv :
        (id : Text) (next : Steps) (queue : List Text)
        → Inv next (id ∷ queue)
        → ups id ≢ []
        → Inv (visit_ups id (ups id) next queue).0 (visit_ups id (ups id) next queue).1
    visit-Inv id next queue inv some_ups =
        let known = inv.queued id (Memᴰ.head refl) in
        let v =
          visit_ups-Visited ups g id (ups id) next queue cands inv.grown
            ((mem-keys id next).0 known) (λ p m. m) in
        record {
          grown = v.grown;
          queued = λ a m.
              (v.seen a).1 (⊎_elim (λ n. inl (inv.queued a (Memᴰ.tail n))) inr (v.queued a m));
          closed = λ a m.
              ⊎_elim
                (λ old.
                  ⊎_elim
                    (λ q.
                      ⊎_elim
                        (λ same. inr (
                          subst (λ z. ups z ≢ []) (sym same) some_ups,
                          λ p n. (v.seen p).1 (inr (subst (λ z. Memᴰ p (ups z)) same n)),
                        ))
                        (λ n. inl (v.kept a n)) ((Memᴰ-cons a id queue).0 q))
                    (λ c. inr (c.0, λ p n. (v.seen p).1 (inl (c.1 p n)))) (inv.closed a old))
                inl (v.waiting a m);
        }

    pub climb-Answer :
        (fuel : ℕ) (next : Steps) (queue : List Text)
        → length queue + unseen (keys next) cands < fuel
        → Inv next queue
        → (path : List Text) × (climb ups g fuel next queue ≡ some path) × Answer path
    unfolding climb
    climb-Answer zero next queue h inv = absurd (omega arith)
    climb-Answer (suc fuel) next [] h inv = (
      g ∷ [],
      refl,
      no_top (λ id path w.
          ⊎_elim (λ n. absurd (Memᴰ.not-nil n)) (λ c. c.0)
            (inv.closed id (way_key next id path inv w))),
    )
    climb-Answer (suc fuel) next (id ∷ queue) h inv =
        let known = (mem-keys id next).0 (inv.queued id (Memᴰ.head refl)) in
        elim (Bool-cases (is_empty (ups id))) [
          | inl e ↦ (
            way_from (suc (length next)) next id,
            rw (e, climb) refl,
            from_top
                (way_from-Way ups g g_named ups_named next (length next) id inv.grown (omega arith)
                  known)
                ((is_empty_iff (ups id)).0 e),
          )
          | inr e ↦
              let v =
                visit_ups-Visited ups g id (ups id) next queue cands inv.grown known (λ p m. m) in
              let (path, found, a) = climb-Answer fuel _ _ (omega (arith, v.work (within id))) (
                visit-Inv id next queue inv
                  (λ k. absurd (ground (arith, is_empty_iff (ups id))))) in
              (path, rw (e, climb) found, a)
        ]
