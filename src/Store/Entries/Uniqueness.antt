-- ===== src/Store/Entries/Uniqueness.antt =====
-- No two entries come to have one key.
use mathlib.Core.List.Memᴰ
use role_provider_service.Base.{
  ◌≡◌, ◌⊎◌, inl, inr, ⊎_elim, refl, sym, subst, ap, ◌∙◌, Bool, not, List, [], ◌∷◌, ◌++◌, Memᴰ, Text,
  Option, nat_eq, list_eq, pair_eq, Bool-cases, Option-cases, any, filter, map, Distinct,
  Distinct-concat, ◌==◌,
}
use role_provider_service.Base.Result.{ok, ok-inj}
use role_provider_service.Common.Types.{Uuid, Time}
use role_provider_service.Common.Token.{normalize_relation}
use role_provider_service.Store.State.{Entry, MemoryStore}
use role_provider_service.Store.Entries.{
  Key, key_of, key, is_entry, set_expires, add_member, remove_member, later_expiry, find_entry,
  set_relation, delete_entry, change_relation,
}
use role_provider_service.Store.Entries.Keys.{Unique, is_entry_iff, find_entry-none, any-is_entry}
use role_provider_service.Store.Entries.Changes.{keys-set_expires}

abbrev keys : List Entry → List Key
keys = map key_of

keys-concat : (ts : List Entry) (t : Entry) → keys (ts ++ t ∷ []) ≡ keys ts ++ key_of t ∷ []
keys-concat [] t = refl
keys-concat (x ∷ ts) t = ap (λ ks. key_of x ∷ ks) (keys-concat ts t)

Unique-concat :
    (ts : List Entry) (t : Entry) → Unique ts → ¬ Memᴰ (key_of t) (keys ts) → Unique (ts ++ t ∷ [])
Unique-concat ts t u n =
    subst Distinct (sym (keys-concat ts t)) (Distinct-concat (keys ts) (key_of t) u n)

keys-filter :
    (p : Entry → Bool) (ts : List Entry) (k : Key) → Memᴰ k (keys (filter p ts)) → Memᴰ k (keys ts)
unfolding filter
keys-filter p [] k m = m
keys-filter p (t ∷ ts) k m = elim (Bool-cases (p t)) [
  | inl e ↦
      ⊎_elim (λ z. Memᴰ.head z) (λ n. Memᴰ.tail (keys-filter p ts k n))
        (Memᴰ.cases_cons (rw e at m))
  | inr e ↦ Memᴰ.tail (keys-filter p ts k (rw e at m))
]

Unique-filter : (p : Entry → Bool) (ts : List Entry) → Unique ts → Unique (filter p ts)
unfolding filter
Unique-filter p [] u = u
Unique-filter p (t ∷ ts) u = elim (Bool-cases (p t)) [
  | inl e ↦ rw e (λ m. u.0 (keys-filter p ts (key_of t) m), Unique-filter p ts u.1)
  | inr e ↦ rw e (Unique-filter p ts u.1)
]

keys-delete_entry :
    (k : Key) (ts : List Entry) (j : Key) → Memᴰ j (keys (delete_entry k ts)) → Memᴰ j (keys ts)
unfolding delete_entry
keys-delete_entry k [] j m = m
keys-delete_entry k (t ∷ ts) j m = elim (Bool-cases (is_entry k t)) [
  | inl e ↦ Memᴰ.tail (rw (e, delete_entry) at m)
  | inr e ↦
      ⊎_elim (λ z. Memᴰ.head z) (λ n. Memᴰ.tail (keys-delete_entry k ts j n))
        (Memᴰ.cases_cons (rw (e, delete_entry) at m))
]

Unique-delete_entry : (k : Key) (ts : List Entry) → Unique ts → Unique (delete_entry k ts)
unfolding delete_entry
Unique-delete_entry k [] u = u
Unique-delete_entry k (t ∷ ts) u = elim (Bool-cases (is_entry k t)) [
  | inl e ↦ rw (e, delete_entry) u.1
  | inr e ↦
      rw (e, delete_entry)
        (λ m. u.0 (keys-delete_entry k ts (key_of t) m), Unique-delete_entry k ts u.1)
]

keys-set_relation :
    (k : Key) (to : Text) (ts : List Entry) (j : Key)
    → Memᴰ j (keys (set_relation k to ts))
    → Memᴰ j (keys ts) ⊎ (j ≡ (k.0, (to, k.1.1)))
unfolding set_relation
keys-set_relation k to [] j m = inl m
keys-set_relation k to (t ∷ ts) j m = elim (Bool-cases (is_entry k t)) [
  | inl e ↦
      ⊎_elim
        (λ z.
          inr (
            z ∙ ap (λ (x : Key). (let y : Key = (x.0, (to, x.1.1)) in y)) ((is_entry_iff k t).0 e)))
        (λ n. inl (Memᴰ.tail n)) (Memᴰ.cases_cons (rw (e, set_relation) at m))
  | inr e ↦
      ⊎_elim (λ z. inl (Memᴰ.head z))
        (λ n. ⊎_elim (λ i. inl (Memᴰ.tail i)) inr (keys-set_relation k to ts j n))
        (Memᴰ.cases_cons (rw (e, set_relation) at m))
]

Unique-set_relation :
    (k : Key) (to : Text) (ts : List Entry)
    → Unique ts
    → ¬ Memᴰ (k.0, (to, k.1.1)) (keys ts)
    → Unique (set_relation k to ts)
unfolding set_relation
Unique-set_relation k to [] u n = u
Unique-set_relation k to (t ∷ ts) u n = elim (Bool-cases (is_entry k t)) [
  | inl e ↦
      let moved =
        ap (λ (x : Key). (let y : Key = (x.0, (to, x.1.1)) in y)) ((is_entry_iff k t).0 e) in
      rw (e, set_relation) (λ m. n (Memᴰ.tail (subst (λ j. Memᴰ j (keys ts)) moved m)), u.1)
  | inr e ↦
      rw (e, set_relation)
        (
          λ m. ⊎_elim u.0 (λ z. n (Memᴰ.head (sym z))) (keys-set_relation k to ts (key_of t) m),
          Unique-set_relation k to ts u.1 (λ m. n (Memᴰ.tail m)),
        )
]

add_member-Unique :
    (now : Time) (fresh : Uuid) (group_id relation member_type member_id : Text)
    (source_id : Option Uuid) (expires_at : Option Time) (s : MemoryStore)
    → Unique s.tuples
    → Unique
        (add_member now fresh group_id relation member_type member_id source_id expires_at s).tuples
unfolding add_member
add_member-Unique now fresh group_id relation member_type member_id source_id expires_at s u =
    let k = key group_id (normalize_relation relation) member_type member_id in
    elim (Bool-cases (any (is_entry k) s.tuples)) [
      | inl e ↦ rw (e, add_member) (subst Distinct (sym (keys-set_expires k expires_at s.tuples)) u)
      | inr e ↦
          rw (e, add_member)
            (Unique-concat s.tuples _ u
              ((find_entry-none k s.tuples).0 ((any-is_entry k s.tuples).0 e)))
    ]

change_relation-Unique :
    (group_id member_type member_id from to : Text) (s after : MemoryStore)
    → change_relation group_id member_type member_id from to s ≡ ok after
    → Unique s.tuples
    → Unique after.tuples
unfolding change_relation
change_relation-Unique group_id member_type member_id from to s after h u =
    let k = key group_id (normalize_relation from) member_type member_id in
    let k' = key group_id (normalize_relation to) member_type member_id in
    elim (Option-cases (find_entry k s.tuples)) [
      | inl e ↦ absurd (cc (h, e))
      | inr (old, e) ↦ elim (Bool-cases (normalize_relation from == normalize_relation to)) [
        | inl q ↦
            subst (λ (x : MemoryStore). Unique x.tuples) (ok-inj (rw (e, q, change_relation) at h))
              u
        | inr q ↦ elim (Option-cases (find_entry k' s.tuples)) [
          | inl n ↦
              subst (λ (x : MemoryStore). Unique x.tuples)
                (ok-inj (rw (e, q, n, change_relation) at h))
                (Unique-set_relation k (normalize_relation to) s.tuples u
                  ((find_entry-none k' s.tuples).0 n))
          | inr (target, n) ↦
              let e' = later_expiry old.expires target.expires in
              subst (λ (x : MemoryStore). Unique x.tuples)
                (ok-inj (rw (e, q, n, change_relation) at h))
                (Unique-delete_entry k (set_expires k' e' s.tuples)
                  (subst Distinct (sym (keys-set_expires k' e' s.tuples)) u))
        ]
      ]
    ]

-- Where no two entries have one key (group, relation, and the subject's type, id and relation), none have
-- after a member is added or removed, or a relation is changed.
pub entries-Unique :
    (s : MemoryStore)
    → Unique s.tuples
    → ((now : Time) (fresh : Uuid) (group_id relation member_type member_id : Text)
          (source_id : Option Uuid) (expires_at : Option Time)
        → Unique
            (add_member now fresh group_id relation member_type member_id source_id expires_at
              s).tuples)
      × ((group_id relation member_type member_id : Text)
          → Unique (remove_member group_id relation member_type member_id s).tuples)
      × ((group_id member_type member_id from to : Text) (after : MemoryStore)
          → change_relation group_id member_type member_id from to s ≡ ok after
          → Unique after.tuples)
unfolding remove_member
entries-Unique s u = (
  λ now fresh group_id relation member_type member_id source_id expires_at.
      add_member-Unique now fresh group_id relation member_type member_id source_id expires_at s u,
  λ group_id relation member_type member_id.
      Unique-filter
        (λ t. not (is_entry (key group_id (normalize_relation relation) member_type member_id) t))
        s.tuples u,
  λ group_id member_type member_id from to after h.
      change_relation-Unique group_id member_type member_id from to s after h u,
)
