-- ===== src/Service/Browse/Path/Down.antt =====
-- The way down to a group that a group page shows.
use mathlib.Core.List.Memᴰ
use role_provider_service.Base.{
  suc, ◌≡◌, ◌≢◌, ◌↔◌, ◌⊎◌, refl, sym, subst, none, Option-cases, inl, inr, ⊎_elim, ap, arith, List,
  [], ◌∷◌, some, Text, Bool-cases, Memᴰ, Memᴰ-cons, map, filter, mem-filter, mem-sort, text_leb,
  length, length-map, list_beq_iff, unseen-le-length, ◌==◌, nat_eq, list_eq,
}
use role_provider_service.Common.Types.{Group}
use role_provider_service.Store.Groups.{find_group}
use role_provider_service.Store.Listing.{Edge}
use role_provider_service.Service.Browse.{parents_of, source_name_at, same_source, path_down}
use role_provider_service.Service.Browse.Path.{only, Way, here, up}
use role_provider_service.Service.Browse.Path.Climb.{Answer, from_top, no_top, climb-Answer}

List-cases : {A : Type 0} (xs : List A) → (xs ≡ []) ⊎ ((x : A) × (rest : List A) × (xs ≡ x ∷ rest))
List-cases [] = inl refl
List-cases (x ∷ xs) = inr (x, xs, refl)

mem-parents_of :
    (edges : List Edge) (id p : Text) → Memᴰ p (parents_of edges id) → Memᴰ (p, id) edges
unfolding parents_of filter
mem-parents_of [] id p m = absurd (Memᴰ.not-nil m)
mem-parents_of ((a, b) ∷ edges) id p m = elim (Bool-cases (b == id)) [
  | inl e ↦
      ⊎_elim (λ same. Memᴰ.head (let at = (list_beq_iff b id).0 e in cc))
        (λ later. Memᴰ.tail (mem-parents_of edges id p later))
        ((Memᴰ-cons p a (parents_of edges id)).0 (rw (e, parents_of, filter) at m))
  | inr e ↦ Memᴰ.tail (mem-parents_of edges id p (rw (e, parents_of, filter) at m))
]

-- The parents that the search takes: an edge leads from them, and their group is of the same source.
pub mem-same_source :
    (all : List Group) (edges : List Edge) (g : Group) (id p : Text)
    → Memᴰ p (same_source all edges g id)
    → Memᴰ (p, id) edges × (source_name_at all p ≡ g.source_name)
unfolding same_source
mem-same_source all edges g id p m =
    let listed = (mem-sort text_leb p _).0 m in
    let (parent, same) =
      (mem-filter (λ (x : Text). source_name_at all x == g.source_name) p (parents_of edges id)).0
        listed in
    (mem-parents_of edges id p parent, (list_beq_iff _ _).0 same)

mem-edges : (edges : List Edge) (id p : Text) → Memᴰ (p, id) edges → Memᴰ p (parents_of edges id)
unfolding parents_of filter
mem-edges [] id p m = absurd (Memᴰ.not-nil m)
mem-edges ((a, b) ∷ edges) id p m = elim (Bool-cases (b == id)) [
  | inl e ↦
      rw (e, parents_of, filter)
        (⊎_elim (λ same. Memᴰ.head (ap (λ (x : Edge). x.0) same))
          (λ later. Memᴰ.tail (mem-edges edges id p later)) ((Memᴰ-cons (p, id) (a, b) edges).0 m))
  | inr e ↦
      rw (e, parents_of, filter)
        (⊎_elim
          (λ same.
            absurd (let at = (list_beq_iff b id).1 (sym (ap (λ (x : Edge). x.1) same)) in cc))
          (mem-edges edges id p) ((Memᴰ-cons (p, id) (a, b) edges).0 m))
]

-- The name of the source of the group with this id; an id without a group has the empty name.
abbrev pub SourceOf : List Group → Text → Text → Type 0
SourceOf all id name =
    ((h : Group) × (find_group id all ≡ some h) × (h.source_name ≡ name))
    ⊎ ((find_group id all ≡ none) × (name ≡ []))

source_name_at_iff :
    (all : List Group) (id name : Text) → (source_name_at all id ≡ name) ↔ SourceOf all id name
unfolding source_name_at
source_name_at_iff all id name = elim (Option-cases (find_group id all)) [
  | inl e ↦ (
    λ h. inr (e, sym (rw (e, source_name_at) at h)),
    λ h. elim h [
      | inl (g, f, _) ↦ absurd (cc (e, f))
      | inr (_, blank) ↦ rw (e, source_name_at) (sym blank)
    ],
  )
  | inr (g, e) ↦ (
    λ h. inl (g, e, rw (e, source_name_at) at h),
    λ h. elim h [
      | inl (x, f, n) ↦
          let same : x ≡ g = cc in
          rw (e, source_name_at) (subst (λ (y : Group). y.source_name ≡ name) same n)
      | inr (f, _) ↦ absurd (cc (e, f))
    ],
  )
]

-- A group of the given group's source contains the other, by an edge.
abbrev pub ContainsFor : List Group → List Edge → Group → Text → Text → Type 0
ContainsFor all edges g p id = Memᴰ (p, id) edges × SourceOf all p g.source_name

same_source_iff :
    (all : List Group) (edges : List Edge) (g : Group) (id p : Text)
    → Memᴰ p (same_source all edges g id) ↔ ContainsFor all edges g p id
unfolding same_source
same_source_iff all edges g id p = (
  λ m.
      (let (edge, same) = mem-same_source all edges g id p m in
        (edge, (source_name_at_iff all p g.source_name).0 same)),
  λ (edge, same). (mem-sort text_leb p _).1 (
      (mem-filter (λ (x : Text). source_name_at all x == g.source_name) p (parents_of edges id)).1 (
        mem-edges edges id p edge,
        (list_beq_iff _ _).1 ((source_name_at_iff all p g.source_name).1 same),
      )),
)

module _ (all : List Group) (edges : List Edge) (g : Group) where
  -- A way from a group down to the given one, each of the group's source and containing the next.
  pub data WayDown : Text → List Text → Type 0 where
    arrived : WayDown g.id (g.id ∷ [])
    below :
        {p id : Text} {path : List Text}
        → ContainsFor all edges g p id
        → WayDown id path
        → WayDown p (p ∷ path)

  -- A way from a group that no group of the source contains; or the group alone, where each group from which
  -- a way leads is contained in another of the source.
  pub data IsPath : List Text → Type 0 where
    from_the_top :
        {top : Text} {path : List Text}
        → WayDown top path
        → ((p : Text) → ¬ ContainsFor all edges g p top)
        → IsPath path
    without_top :
        ((id : Text) (path : List Text)
          → WayDown id path
          → (p : Text) × ContainsFor all edges g p id)
        → IsPath (g.id ∷ [])

  Way-WayDown :
      (id : Text) (path : List Text) → Way (same_source all edges g) g.id id path → WayDown id path
  Way-WayDown _ _ here = arrived
  Way-WayDown _ _ (up {p} {id} {path} m w) =
      below ((same_source_iff all edges g id p).0 m) (Way-WayDown id path w)

  WayDown-Way :
      (id : Text) (path : List Text) → WayDown id path → Way (same_source all edges g) g.id id path
  WayDown-Way _ _ arrived = here
  WayDown-Way _ _ (below {p} {id} {path} c w) =
      up ((same_source_iff all edges g id p).1 c) (WayDown-Way id path w)

  container :
      (id : Text) → same_source all edges g id ≢ [] → (p : Text) × ContainsFor all edges g p id
  container id n = elim (List-cases (same_source all edges g id)) [
    | inl e ↦ absurd (n e)
    | inr (p, ps, e) ↦
        (p, (same_source_iff all edges g id p).0 (subst (Memᴰ p) (sym e) (Memᴰ.head refl)))
  ]

  Answer-IsPath : (path : List Text) → Answer (same_source all edges g) g.id path → IsPath path
  Answer-IsPath _ (from_top {top} {path} w top_free) =
      from_the_top (Way-WayDown top path w)
        (λ p c. Memᴰ.not-nil (subst (Memᴰ p) top_free ((same_source_iff all edges g top p).1 c)))
  Answer-IsPath _ (no_top h) =
      without_top (λ id path w. container id (h id path (WayDown-Way id path w)))

mem-starts :
    (edges : List Edge) (p id : Text) → Memᴰ (p, id) edges → Memᴰ p (map (λ (e : Edge). e.0) edges)
mem-starts [] p id m = absurd (Memᴰ.not-nil m)
mem-starts (e ∷ edges) p id (Memᴰ.head same) = Memᴰ.head (ap (λ x. x.0) same)
mem-starts (e ∷ edges) p id (Memᴰ.tail m) = Memᴰ.tail (mem-starts edges p id m)

-- The search for the way down to a group always ends with a way: from a group that no group of the same source
-- contains, through groups of the same source, each of which contains the next, to the group; or with
-- the group alone if no such way to it starts at a group that none of its source contains. No group may
-- have an empty id.
pub path_down-IsPath :
    (all : List Group) (edges : List Edge) (g : Group)
    → g.id ≢ []
    → ((e : Edge) → Memᴰ e edges → e.0 ≢ [])
    → (path : List Text) × (path_down all edges g ≡ some path) × IsPath all edges g path
unfolding path_down
path_down-IsPath all edges g named edges_named =
    let ups = same_source all edges g in
    let starts = map (λ (e : Edge). e.0) edges in
    let (path, found, answer) =
      climb-Answer ups g.id named
        (λ id p m. edges_named (p, id) (mem-same_source all edges g id p m).0) starts
        (λ id p m. mem-starts edges p id (mem-same_source all edges g id p m).0)
        (suc (suc (length edges))) ((g.id, []) ∷ []) (g.id ∷ [])
        (omega (arith, unseen-le-length (g.id ∷ []) starts, length-map (λ (e : Edge). e.0) edges))
        (record { grown = only; queued = λ a m. m; closed = λ a m. inl m }) in
    (path, found, Answer-IsPath all edges g path answer)
