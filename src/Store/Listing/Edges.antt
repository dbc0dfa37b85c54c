-- ===== src/Store/Listing/Edges.antt =====
-- The edges between groups, seen in the entries.
use mathlib.Core.List.Memᴰ
use role_provider_service.Base.{
  ◌≡◌, ◌↔◌, ◌⊎◌, inl, inr, ⊎_elim, refl, sym, subst, ap, ap₂, if◌then◌else◌, true, ◌&&◌, not, List,
  [], ◌∷◌, ◌++◌, Memᴰ, Memᴰ-concat, arith, Text, list_beq_iff, contains, contains_iff, nat_eq,
  list_eq, pair_eq, mem-sort, ◌==◌,
}
use role_provider_service.Common.Types.{Time}
use role_provider_service.Common.Token.{group_type}
use role_provider_service.Store.State.{Entry, MemoryStore, live}
use role_provider_service.Store.Listing.{Edge, edge_step, edge_leb, group_edges}

-- A live entry that has the one group as a subject in the other.
pub record Nests (now : Time) (a b : Text) (t : Entry) : Type 0 where
  pub by_group : t.subj_type ≡ group_type
  pub is_live : live now t ≡ true
  pub outer : t.obj_id ≡ a
  pub inner : t.subj_id ≡ b

abbrev pub Contains : Time → List Entry → Text → Text → Type 0
Contains now ts a b = (t : Entry) × Memᴰ t ts × Nests now a b t

Contains-cons :
    (now : Time) (t : Entry) (ts : List Entry) (a b : Text)
    → Contains now (t ∷ ts) a b ↔ (Nests now a b t ⊎ Contains now ts a b)
Contains-cons now t ts a b = (
  λ (x, m, n).
      ⊎_elim (λ e. inl (subst (Nests now a b) e n)) (λ k. inr (x, k, n)) (Memᴰ.cases_cons m),
  λ h. ⊎_elim (λ n. (t, Memᴰ.head refl, n)) (λ (x, m, n). (x, Memᴰ.tail m, n)) h,
)

-- What one entry adds.
edges_after : Time → List Edge → Entry → List Edge
edges_after now out t =
    let e : Edge = (t.obj_id, t.subj_id) in
    if (t.subj_type == group_type) && live now t && not (contains out e) then out ++ e ∷ [] else out

Nests-iff :
    (now : Time) (t : Entry) (a b : Text)
    → Nests now a b t ↔ (
        (t.subj_type ≡ group_type)
        × ((live now t ≡ true) × (◌≡◌ {A = Edge} (a, b) (t.obj_id, t.subj_id))))
Nests-iff now t a b = (
  λ n. (
    n.by_group,
    (n.is_live, ap₂ (λ (x y : Text). (let e : Edge = (x, y) in e)) (sym n.outer) (sym n.inner)),
  ),
  λ (g, (l, e)). record {
    by_group = g;
    is_live = l;
    outer = sym (ap (λ (e : Edge). e.0) e);
    inner = sym (ap (λ (e : Edge). e.1) e);
  },
)

mem-edges_after :
    (now : Time) (out : List Edge) (t : Entry) (a b : Text)
    → Memᴰ (a, b) (edges_after now out t) ↔ (Memᴰ (a, b) out ⊎ Nests now a b t)
unfolding edges_after
mem-edges_after now out t a b = ground (
  arith,
  contains_iff out (a, b),
  contains_iff out (t.obj_id, t.subj_id),
  list_beq_iff t.subj_type group_type,
  Memᴰ-concat (a, b) (t.obj_id, t.subj_id) out,
  Nests-iff now t a b,
)

mem-edge_step :
    (now : Time) (out : List Edge) (ts : List Entry) (a b : Text)
    → Memᴰ (a, b) (edge_step now out ts) ↔ (Memᴰ (a, b) out ⊎ Contains now ts a b)
unfolding edge_step edges_after
mem-edge_step now out [] a b = (inl, λ h. ⊎_elim (λ m. m) (λ (x, m, n). absurd (Memᴰ.not-nil m)) h)
mem-edge_step now out (t ∷ ts) a b = ground (
  arith,
  mem-edge_step now (edges_after now out t) ts a b,
  mem-edges_after now out t a b,
  Contains-cons now t ts a b,
)

pub mem-group_edges :
    (now : Time) (s : MemoryStore) (a b : Text)
    → Memᴰ (a, b) (group_edges now s) ↔ Contains now s.tuples a b
unfolding group_edges
mem-group_edges now s a b =
    let pair : Edge = (a, b) in
    let empty : ¬ Memᴰ pair [] = Memᴰ.not-nil in
    ground (
      arith,
      mem-sort edge_leb (a, b) (edge_step now [] s.tuples),
      mem-edge_step now [] s.tuples a b,
      empty,
    )
