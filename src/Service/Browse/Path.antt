-- ===== src/Service/Browse/Path.antt =====
-- The ways up from a group, and the record that the search keeps of them.
pub mod Visit
pub mod Climb
pub mod Down
use mathlib.Core.List.Memᴰ
use role_provider_service.Base.{
  ℕ, zero, suc, ◌≤◌, Bool, true, false, ◌≡◌, ◌≢◌, ◌↔◌, ◌⊎◌, inl, inr, ⊎_elim, refl, sym, ap, subst,
  ◌∙◌, arith, List, [], ◌∷◌, Option, none, some, Text, Memᴰ, Memᴰ-cons, map, length, ◌==◌, nat_eq,
  list_eq, list_beq_iff, is_empty, is_empty_iff, if◌then◌else◌, Bool-cases, Option-cases,
}
use role_provider_service.Service.Browse.{Steps, step_of, way_from}

abbrev pub IsKey : Text → Steps → Type 0
IsKey a next = (y : Text) × (step_of a next ≡ some y)

abbrev pub keys : Steps → List Text
keys next = map (λ (e : Text × Text). e.0) next

pub mem-keys : (a : Text) (next : Steps) → Memᴰ a (keys next) ↔ IsKey a next
unfolding step_of
mem-keys a [] = (λ m. absurd (Memᴰ.not-nil m), λ (y, e). absurd (cc))
mem-keys a ((x, y) ∷ next) =
    let later = mem-keys a next in
    elim (Bool-cases (x == a)) [
      | inl e ↦ rw (e, step_of) (λ m. (y, refl), λ h. Memᴰ.head (sym ((list_beq_iff x a).0 e)))
      | inr e ↦
          rw (e, step_of)
            (
              λ m.
                  ⊎_elim (λ same. absurd (ground (arith, list_beq_iff x a))) later.0
                    ((Memᴰ-cons a x (keys next)).0 m),
              λ h. Memᴰ.tail (later.1 h),
            )
    ]

way_end : (fuel : ℕ) (next : Steps) → way_from fuel next [] ≡ []
unfolding way_from
way_end zero next = refl
way_end (suc fuel) next = refl

way_step :
    (fuel : ℕ) (next : Steps) (at y : Text)
    → at ≢ []
    → step_of at next ≡ some y
    → way_from (suc fuel) next at ≡ at ∷ way_from fuel next y
unfolding way_from
way_step fuel next [] y n e = absurd (n refl)
way_step fuel next (c ∷ at) y n e = rw (e, way_from) refl

module _ (ups : Text → List Text) (g : Text) where
  -- A way from a group down to `g`: each id is one of the ups of the next.
  pub data Way : Text → List Text → Type 0 where
    here : Way g (g ∷ [])
    up : {p id : Text} {path : List Text} → Memᴰ p (ups id) → Way id path → Way p (p ∷ path)

  -- Each step leads to a group that was seen before.
  pub data Grown : Steps → Type 0 where
    only : Grown ((g, []) ∷ [])
    grow :
        {next : Steps} (p id : Text)
        → Grown next
        → Memᴰ p (ups id)
        → IsKey id next
        → step_of p next ≡ none
        → Grown ((p, id) ∷ next)

  IsKey-cons : (p x a : Text) (next : Steps) → IsKey a next → IsKey a ((p, x) ∷ next)
  unfolding step_of
  IsKey-cons p x a next (y, e) = elim (Bool-cases (p == a)) [
    | inl same ↦ rw (same, step_of) (x, refl)
    | inr other ↦ rw (other, step_of) (y, e)
  ]

  step_target :
      (next : Steps) (a y : Text) → Grown next → step_of a next ≡ some y → (y ≡ []) ⊎ IsKey y next
  unfolding step_of
  step_target _ a y only h = elim (Bool-cases (g == a)) [
    | inl e ↦ inl (let h' = rw (e, step_of) at h in cc)
    | inr e ↦ absurd (let h' = rw (e, step_of) at h in cc)
  ]
  step_target _ a y (grow {next} p id gr m k n) h = elim (Bool-cases (p == a)) [
    | inl e ↦
        let h' = rw (e, step_of) at h in
        let same : id ≡ y = cc in
        inr (subst (λ z. IsKey z ((p, id) ∷ next)) same (IsKey-cons p id id next k))
    | inr e ↦
        let h' = rw (e, step_of) at h in
        ⊎_elim inl (λ z. inr (IsKey-cons p id y next z)) (step_target next a y gr h')
  ]

  -- A step that was added later does not change a way that does not meet it.
  way_skip :
      (fuel : ℕ) (next : Steps) (p x at : Text)
      → Grown next
      → step_of p next ≡ none
      → (at ≡ []) ⊎ IsKey at next
      → way_from fuel ((p, x) ∷ next) at ≡ way_from fuel next at
  unfolding way_from step_of
  way_skip zero next p x at gr n h = refl
  way_skip (suc fuel) next p x at gr n (inl e) = rw e refl
  way_skip (suc fuel) next p x at gr n (inr (y, e)) = elim (Bool-cases (p == at)) [
    | inl same ↦ absurd (let n' = rw ((list_beq_iff p at).0 same) at n in cc)
    | inr other ↦
        rw (other, e, way_from, step_of)
          (ap (λ ys. if is_empty at then [] else at ∷ ys)
            (way_skip fuel next p x y gr n (step_target next at y gr e)))
  ]

  module _ (g_named : g ≢ []) (ups_named : (id p : Text) → Memᴰ p (ups id) → p ≢ []) where
    key_named : (next : Steps) (a : Text) → Grown next → IsKey a next → a ≢ []
    unfolding step_of
    key_named _ a only (y, e) = elim (Bool-cases (g == a)) [
      | inl same ↦ λ none_set. g_named ((list_beq_iff g a).0 same ∙ none_set)
      | inr other ↦ absurd (let e' = rw (other, step_of) at e in cc)
    ]
    key_named _ a (grow {next} p id gr m k n) (y, e) = elim (Bool-cases (p == a)) [
      | inl same ↦ λ none_set. ups_named id p m ((list_beq_iff p a).0 same ∙ none_set)
      | inr other ↦ key_named next a gr (y, rw (other, step_of) at e)
    ]

    only_step : (at y : Text) → step_of at ((g, []) ∷ []) ≡ some y → (at ≡ g) × (y ≡ [])
    unfolding step_of
    only_step at y e = elim (Bool-cases (g == at)) [
      | inl same ↦ (let e' = rw (same, step_of) at e in (sym ((list_beq_iff g at).0 same), cc))
      | inr other ↦ absurd (let e' = rw (other, step_of) at e in cc)
    ]

    head_step :
        (p id at y : Text) (next : Steps)
        → step_of at ((p, id) ∷ next) ≡ some y
        → ((at ≡ p) × (y ≡ id)) ⊎ (step_of at next ≡ some y)
    unfolding step_of
    head_step p id at y next e = elim (Bool-cases (p == at)) [
      | inl same ↦ inl (let e' = rw (same, step_of) at e in (sym ((list_beq_iff p at).0 same), cc))
      | inr other ↦ inr (rw (other, step_of) at e)
    ]

    pub way_from-Way :
        (next : Steps) (fuel : ℕ) (at : Text)
        → Grown next
        → length next ≤ fuel
        → IsKey at next
        → Way at (way_from (suc fuel) next at)
    way_from-Way _ zero at only h k = absurd (omega arith)
    way_from-Way _ (suc fuel) at only h (y, e) =
        let (at_g, last) = only_step at y e in
        rw (way_step (suc fuel) ((g, []) ∷ []) at y (rw at_g g_named) e, last, way_end, at_g) here
    way_from-Way _ zero at (grow p id gr m k n) h _ = absurd (omega arith)
    way_from-Way _ (suc fuel) at (grow {next} p id gr m k n) h (y, e) =
        let named = key_named ((p, id) ∷ next) at (grow p id gr m k n) (y, e) in
        ⊎_elim
          (λ (at_p, to_id).
            rw
              (
                way_step (suc fuel) ((p, id) ∷ next) at y named e,
                to_id,
                way_skip (suc fuel) next p id id gr n (inr k),
                at_p,
              )
              (up m (way_from-Way next fuel id gr (omega arith) k)))
          (λ later.
            rw (way_skip (suc (suc fuel)) next p id at gr n (inr (y, later)))
              (way_from-Way next (suc fuel) at gr (omega arith) (y, later)))
          (head_step p id at y next e)
