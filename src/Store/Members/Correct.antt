-- ===== src/Store/Members/Correct.antt =====
-- The outer loop of `GetAllMembers` ends, and finds exactly who is in the group.
use mathlib.Core.List.Memᴰ
use role_provider_service.Base.{
  ℕ, zero, suc, ◌+◌, ◌*◌, ◌≤◌, ◌<◌, ◌≡◌, ◌↔◌, inl, inr, ⊎_elim, refl, false, ◌&&◌, List, [], ◌∷◌,
  ◌++◌, Memᴰ, arith, Text, some, contains_iff, contains, nat_eq, list_eq, pair_eq, length,
  length-append, Distinct, Bool-cases, map, length-filter-le, unseen, unseen-le-length, unseen-lt,
  mul_step, mul_mono, length-map,
}
use role_provider_service.Common.Types.{Time}
use role_provider_service.Common.Token.{normalize_relation}
use role_provider_service.Store.State.{Entry, MemoryStore}
use role_provider_service.Store.Members.{Step, counts, members_loop, members_fuel, get_all_members}
use role_provider_service.Store.Members.Meaning.{InGroup, entry, nested}
use role_provider_service.Store.Members.Scan.{
  token_of, step_of, is_group, counted, subgroups, add_all, scan_members-eq,
}
use role_provider_service.Store.Members.Invariant.{Inv, Inv-start, Inv-skip, Inv-expand}

module _ (now : Time) (ts : List Entry) (start : Step) where
  -- How long the loop runs at most.
  abbrev work : List Step → List Step → ℕ
  work visited queue = length queue + length ts * unseen visited (start ∷ map step_of ts)

  start_work : work [] (start ∷ []) < members_fuel (length ts)
  start_work = omega (
    arith,
    length-map step_of ts,
    unseen-le-length [] (start ∷ map step_of ts),
    mul_mono (length ts) (unseen [] (start ∷ map step_of ts)) (length ts + 1)
        (omega (arith, length-map step_of ts, unseen-le-length [] (start ∷ map step_of ts))),
  )

  expand_work :
      (visited queue : List Step) (q : Step)
      → Memᴰ q (start ∷ map step_of ts)
      → contains visited q ≡ false
      → work (q ∷ visited) (queue ++ map step_of (subgroups now q ts)) ≤ work visited queue
  expand_work visited queue q m e = omega (
    arith,
    length-append queue (map step_of (subgroups now q ts)),
    length-map step_of (subgroups now q ts),
    length-filter-le (λ (t : Entry). counts now q t && is_group t) ts,
    mul_step (length ts) (unseen (q ∷ visited) (start ∷ map step_of ts))
        (unseen visited (start ∷ map step_of ts))
        (unseen-lt visited (q ∷ visited) (start ∷ map step_of ts) q (λ a. Memᴰ.tail) m e
          (Memᴰ.head refl)),
  )

  members_loop_ends :
      (fuel : ℕ) (visited queue : List Step) (tokens : List Text)
      → Inv now ts start visited queue tokens
      → work visited queue < fuel
      → (out : List Text) × (all : List Step) × (members_loop fuel now ts visited queue tokens
          ≡ some out)
        × Inv now ts start all [] out
  unfolding members_loop
  members_loop_ends zero visited queue tokens h w = absurd (omega arith)
  members_loop_ends (suc fuel) visited [] tokens h w = (tokens, visited, refl, h)
  members_loop_ends (suc fuel) visited (q ∷ queue) tokens h w =
      elim (Bool-cases (contains visited q)) [
        | inl e ↦
            let seen = (contains_iff visited q).0 e in
            let (out, all, ends, i) =
              members_loop_ends fuel visited queue tokens
                (Inv-skip now ts start visited queue tokens q seen h) (omega arith) in
            (out, all, rw (e, members_loop) ends, i)
        | inr e ↦
            let (out, all, ends, i) =
              members_loop_ends fuel (q ∷ visited) (queue ++ map step_of (subgroups now q ts))
                (add_all tokens (map token_of (counted now q ts)))
                (Inv-expand now ts start visited queue tokens q h)
                (omega (arith, expand_work visited queue q (h.bounded q (Memᴰ.head refl)) e)) in
            (out, all, rw (e, members_loop, scan_members-eq) ends, i)
      ]

  -- With an empty queue all is found.
  complete :
      (visited : List Step) (tokens : List Text)
      → Inv now ts start visited [] tokens
      → {q : Step} {tok : Text} → InGroup now ts q tok
      → Memᴰ q visited
      → Memᴰ tok tokens
  complete visited tokens h (entry {q = q} t m c e) n = Memᴰ.cast e (h.listed q n t m c)
  complete visited tokens h (nested {q = q} t m c g i) n =
      complete visited tokens h i
        (⊎_elim (λ k. k) (λ k. absurd (Memᴰ.not-nil k)) (h.closed q n t m c g))

-- Asked for a group and a relation, `GetAllMembers` answers, names nobody twice, and names exactly who
-- is in the group: the subjects of its entries that are live, are no patterns and have the relation
-- (any for "member"), and, for each that is a group, who is in that one with the entry's relation.
pub get_all_members_correct :
    (now : Time) (group_id relation : Text) (s : MemoryStore)
    → (out : List Text) × (get_all_members now group_id relation s ≡ some out)
      × Distinct out
      × ((tok : Text)
          → Memᴰ tok out ↔ InGroup now s.tuples (group_id, normalize_relation relation) tok)
unfolding get_all_members
get_all_members_correct now group_id relation s =
    let start : Step = (group_id, normalize_relation relation) in
    let (out, all, ends, i) =
      members_loop_ends now s.tuples start (members_fuel (length s.tuples)) [] (start ∷ []) []
        (Inv-start now s.tuples start) (start_work now s.tuples start) in
    (
      out,
      ends,
      i.distinct,
      λ tok. (
        i.sound tok,
        λ g.
            complete now s.tuples start all out i g
              (⊎_elim (λ k. k) (λ k. absurd (Memᴰ.not-nil k)) i.known),
      ),
    )
