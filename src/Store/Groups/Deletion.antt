-- ===== src/Store/Groups/Deletion.antt =====
-- What `DeleteGroup` leaves.
use mathlib.Core.List.Memᴰ
use role_provider_service.Base.{
  ◌≡◌, ◌≢◌, ◌↔◌, ◌⊎◌, true, not, ◌==◌, if◌then◌else◌, inl, inr, ⊎_elim, refl, subst, ap, ◌∙◌, ◌++◌,
  some, Option-cases, List, [], ◌∷◌, Memᴰ, arith, Text, none, nat_eq, list_eq, list_beq_iff, map,
  filter, mem-filter,
}
use role_provider_service.Common.Types.{Group, Manager}
use role_provider_service.Common.Token.{
  group_type, group_prefix, relation_separator, split_group_relation,
}
use role_provider_service.Common.Token.RoundTrip.{
  cut-none, cut-append, not-mem_of_cut, mem_of_cut, cut_prefix-append, append_of_cut_prefix,
}
use role_provider_service.Common.Strings.{cut, cut_prefix, has_prefix, trim_prefix}
use role_provider_service.Store.State.{Entry, MemoryStore}
use role_provider_service.Store.Groups.{find_group, names_group, touches, delete_group}
use role_provider_service.Store.Managers.{managers_of}

-- The entry is of the group, or is about the group as a subject.
abbrev pub Mentions : Text → Entry → Type 0
Mentions id t = (t.obj_id ≡ id) ⊎ (t.subj_type ≡ group_type) × (t.subj_id ≡ id)

touches_iff : (id : Text) (t : Entry) → (touches id t ≡ true) ↔ Mentions id t
unfolding touches
touches_iff id t = ground (
  arith,
  list_beq_iff t.obj_id id,
  list_beq_iff t.subj_type group_type,
  list_beq_iff t.subj_id id,
)

-- The manager's token is the group's, or that of a relation of it. No group's id has a "#".
abbrev pub IsTokenOf : Text → Manager → Type 0
IsTokenOf id m =
    (¬ Memᴰ relation_separator id)
    × ((m.token ≡ group_prefix ++ id)
        ⊎ ((relation : Text) × (m.token ≡ group_prefix ++ id ++ (relation_separator ∷ relation))))

split-group :
    (x id : Text)
    → ((split_group_relation x).0 ≡ id) ↔ (
        (¬ Memᴰ relation_separator id)
        × ((x ≡ id) ⊎ ((relation : Text) × (x ≡ id ++ (relation_separator ∷ relation)))))
unfolding split_group_relation
split-group x id = (
  λ e. elim (Option-cases (cut relation_separator x)) [
    | inl whole ↦
        let same : x ≡ id = rw (whole, split_group_relation) at e in
        (subst (λ y. ¬ Memᴰ relation_separator y) same (not-mem_of_cut _ x whole), inl same)
    | inr ((g, r), found) ↦
        let same : g ≡ id = rw (found, split_group_relation) at e in
        let (free, parts) = mem_of_cut relation_separator x g r found in
        (
          subst (λ y. ¬ Memᴰ relation_separator y) same free,
          inr (r, parts ∙ ap (λ y. y ++ (relation_separator ∷ r)) same),
        )
  ],
  λ (free, form). elim form [
    | inl same ↦
        ap (λ y. (split_group_relation y).0) same
        ∙ (let whole = cut-none relation_separator id free in rw (whole, split_group_relation) refl)
    | inr (r, same) ↦
        ap (λ y. (split_group_relation y).0) same
        ∙ (let found = cut-append relation_separator id r free in
            rw (found, split_group_relation) refl)
  ],
)

cut_prefix_of_append : (p s rest : Text) → s ≡ p ++ rest → cut_prefix p s ≡ some rest
cut_prefix_of_append p s rest e = ap (cut_prefix p) e ∙ cut_prefix-append p rest

names_group_iff : (id : Text) (m : Manager) → (names_group id m ≡ true) ↔ IsTokenOf id m
unfolding names_group has_prefix trim_prefix
names_group_iff id m = elim (Option-cases (cut_prefix group_prefix m.token)) [
  | inl none_found ↦ (
    λ h. absurd (let h' = rw (none_found, names_group, has_prefix, trim_prefix) at h in cc),
    λ (free, form). absurd (elim form [
      | inl e ↦ (let c = cut_prefix_of_append group_prefix m.token id e in cc)
      | inr (r, e) ↦
          (let c = cut_prefix_of_append group_prefix m.token (id ++ (relation_separator ∷ r)) e in
            cc)
    ]),
  )
  | inr (rest, found) ↦
      let parts = append_of_cut_prefix group_prefix m.token rest found in
      (
        λ h.
            (let named = rw (found, names_group, has_prefix, trim_prefix) at h in
              let (free, form) = (split-group rest id).0 ((list_beq_iff _ id).0 named) in
              (
                free,
                ⊎_elim (λ e. inl (parts ∙ ap (λ y. group_prefix ++ y) e))
                    (λ (r, e). inr (r, parts ∙ ap (λ y. group_prefix ++ y) e)) form,
              )),
        λ (free, form).
            (let rest_is : (y : Text) → m.token ≡ group_prefix ++ y → rest ≡ y =
                λ y e. (let c = cut_prefix_of_append group_prefix m.token y e in cc) in
              rw (found, names_group, has_prefix, trim_prefix)
                ((list_beq_iff _ id).1 (
                  (split-group rest id).1 (
                    free,
                    ⊎_elim (λ e. inl (rest_is id e)) (λ (r, e). inr (r, rest_is _ e)) form,
                  )))),
      )
]

find_group-filter :
    (id x : Text) (gs : List Group)
    → find_group x (filter (λ g. not (g.id == id)) gs) ≡ (if x == id then none else find_group x gs)
unfolding find_group filter
find_group-filter id x [] = ground arith
find_group-filter id x (g ∷ gs) =
    ground (
      arith,
      find_group-filter id x gs,
      list_beq_iff g.id id,
      list_beq_iff g.id x,
      list_beq_iff x id,
    )

managers_of-delete :
    (id x : Text) (m : List (Text × List Manager))
    → managers_of x (
        map {A = Text × List Manager}
          (λ (gid, ms). (gid, filter (λ m. not (names_group id m)) ms))
          (filter {A = Text × List Manager} (λ (gid, ms). not (gid == id)) m))
      ≡ (if x == id then [] else filter (λ m. not (names_group id m)) (managers_of x m))
unfolding managers_of filter
managers_of-delete id x [] = ground arith
managers_of-delete id x ((gid, ms) ∷ m) =
    ground
      (arith, managers_of-delete id x m, list_beq_iff gid id, list_beq_iff gid x, list_beq_iff x id)

-- After `DeleteGroup` the group is not found, no entry is of it or has it as a subject, nobody maintains
-- it, and it maintains nothing, with whatever relation. Every other group is found as before, every other
-- entry stays, and so does every other manager of another group.
pub delete_group_correct :
    (id : Text) (s : MemoryStore)
    → ((x : Text)
        → find_group x (delete_group id s).groups
          ≡ (if x == id then none else find_group x s.groups))
      × ((t : Entry) → Memᴰ t (delete_group id s).tuples ↔ (Memᴰ t s.tuples × ¬ Mentions id t))
      × ((x : Text) (m : Manager)
          → Memᴰ m (managers_of x (delete_group id s).managers)
            ↔ ((x ≢ id) × Memᴰ m (managers_of x s.managers) × (¬ IsTokenOf id m)))
unfolding delete_group
delete_group_correct id s = (
  λ x. find_group-filter id x s.groups,
  λ t. ground (arith, mem-filter (λ t. not (touches id t)) t s.tuples, touches_iff id t),
  λ x m. rw (managers_of-delete id x s.managers) (
      ground (
        arith,
        mem-filter (λ m. not (names_group id m)) m (managers_of x s.managers),
        list_beq_iff x id,
        names_group_iff id m,
        Memᴰ.not-nil {A = Manager} {a = m},
      )),
)
