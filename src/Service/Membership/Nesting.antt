-- ===== src/Service/Membership/Nesting.antt =====
-- Adding a member keeps groups from containing themselves.
use role_provider_service.Base.{◌≡◌, ◌≢◌, ◌⊎◌, inl, inr, sym, subst, Text}
use role_provider_service.Service.Cycle.Meaning.{Below, last, more}

-- No group contains itself.
abbrev pub Acyclic : (Text → Text → Type 0) → Type 0
Acyclic r = (a : Text) → ¬ Below r a a

-- The one is the other, or leads to it.
abbrev Upto : (Text → Text → Type 0) → Text → Text → Type 0
Upto r a b = (a ≡ b) ⊎ Below r a b

-- The relation with one edge more.
abbrev pub With : (Text → Text → Type 0) → Text → Text → Text → Text → Type 0
With r g m a b = r a b ⊎ (a ≡ g) × (b ≡ m)

Upto-after : {r : Text → Text → Type 0} {a b c : Text} → r a b → Upto r b c → Upto r a c
Upto-after {r} {a} {b} n (inl e) = inr (last (subst (r a) e n))
Upto-after n (inr p) = inr (more n p)

-- A path that the edge makes possible goes over it.
over :
    {r : Text → Text → Type 0} {g m a b : Text}
    → Below (With r g m) a b
    → Below r a b ⊎ Upto r a g × Upto r m b
over (last (inl n)) = inl (last n)
over {r} {g} {m} {a} {b} (last (inr (e, f))) = inr (inl e, inl (sym f))
over {r} {g} {m} {a} {b} (more (inl n) p) = elim (over p) [
  | inl q ↦ inl (more n q)
  | inr (x, y) ↦ inr (Upto-after n x, y)
]
over {r} {g} {m} {a} {b} (more {c = c} (inr (e, f)) p) = elim (over p) [
  | inl q ↦ inr (inl e, inr (subst (λ z. Below r z b) f q))
  | inr (x, y) ↦ inr (inl e, y)
]

Below-trans : {r : Text → Text → Type 0} {a b c : Text} → Below r a b → Below r b c → Below r a c
Below-trans (last n) p = more n p
Below-trans (more n q) p = more n (Below-trans q p)

Upto-trans : {r : Text → Text → Type 0} {a b c : Text} → Upto r a b → Upto r b c → Upto r a c
Upto-trans {r} {a} {b} {c} (inl e) u = subst (λ x. Upto r x c) (sym e) u
Upto-trans {r} {a} {b} {c} (inr p) (inl e) = inr (subst (Below r a) e p)
Upto-trans (inr p) (inr q) = inr (Below-trans p q)

-- An edge to what does not lead back makes no cycle.
pub Acyclic-With :
    {r : Text → Text → Type 0} {g m : Text}
    → Acyclic r
    → g ≢ m
    → ¬ Below r m g
    → Acyclic (With r g m)
Acyclic-With h d n a p = elim (over p) [
  | inl q ↦ h a q
  | inr (x, y) ↦ elim (Upto-trans y x) [ inl e ↦ d (sym e) | inr q ↦ n q ]
]
