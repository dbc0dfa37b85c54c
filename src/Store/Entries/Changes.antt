-- ===== src/Store/Entries/Changes.antt =====
-- What adding a member, removing one and changing its relation do to the map from keys.
use mathlib.Core.Option
use role_provider_service.Base.{
  ◌≡◌, ◌≢◌, ◌↔◌, ◌<◌, ◌⊎◌, inl, inr, refl, sym, subst, ap, ◌∙◌, false, List, [], ◌∷◌, arith, Text,
  if◌then◌else◌, ◌==◌, Option, none, some, nat_eq, list_eq, pair_eq, pair_beq_iff, list_beq_iff,
  any, Bool-cases, Distinct, map, Option-cases,
}
use role_provider_service.Base.Result.{ok, err, record_not_found}
use role_provider_service.Common.Types.{Uuid, Time}
use role_provider_service.Common.Token.{normalize_relation}
use role_provider_service.Store.State.{Entry, MemoryStore}
use role_provider_service.Store.Entries.{
  Key, key_of, key, is_entry, set_expires, add_member, remove_member, later_expiry, find_entry,
  set_relation, delete_entry, change_relation,
}
use role_provider_service.Store.Entries.Keys.{
  Unique, validity, any-is_entry, validity-set_expires, validity-append, validity-filter,
  validity-delete_entry, validity-set_relation,
}

-- Adding a member sets when its entry stops counting, whether or not there was one, and changes no
-- other entry's.
pub validity-add_member :
    (now : Time) (fresh : Uuid) (group_id relation member_type member_id : Text)
    (source_id : Option Uuid) (expires_at : Option Time) (s : MemoryStore) (j : Key)
    → validity j
        (add_member now fresh group_id relation member_type member_id source_id expires_at s).tuples
      ≡ (if j == key group_id (normalize_relation relation) member_type member_id
          then some expires_at
          else validity j s.tuples)
unfolding add_member
validity-add_member now fresh group_id relation member_type member_id source_id expires_at s j =
    let k = key group_id (normalize_relation relation) member_type member_id in
    elim (Bool-cases (any (is_entry k) s.tuples)) [
      | inl e ↦
          rw (e, add_member)
            (validity-set_expires k j expires_at s.tuples
              (λ n. cc (e, (any-is_entry k s.tuples).1 n)))
      | inr e ↦ rw (e, add_member) (validity-append j _ s.tuples ((any-is_entry k s.tuples).0 e))
    ]

-- Removing a member removes its entry with this relation, if there is one, and no other.
pub validity-remove_member :
    (group_id relation member_type member_id : Text) (s : MemoryStore) (j : Key)
    → validity j (remove_member group_id relation member_type member_id s).tuples ≡ (
        if j == key group_id (normalize_relation relation) member_type member_id
        then none
        else validity j s.tuples)
unfolding remove_member
validity-remove_member group_id relation member_type member_id s j =
    validity-filter (key group_id (normalize_relation relation) member_type member_id) j s.tuples

-- Whether an entry with this expiry counts at a time.
abbrev pub CountsAt : Time → Option Time → Type 0
CountsAt t none = Unit
CountsAt t (some e) = t < e

-- The expiry of an entry that took over another's place: its own where there was no other; else one of the
-- two, such that the entry counts exactly when one of the two did.
abbrev pub Later : Option Time → Option (Option Time) → Option Time → Type 0
Later old none e = e ≡ old
Later old (some target) e =
    ((e ≡ old) ⊎ (e ≡ target)) × ((t : Time) → CountsAt t e ↔ (CountsAt t old ⊎ CountsAt t target))

later_expiry-Later : (old target : Option Time) → Later old (some target) (later_expiry old target)
unfolding later_expiry
later_expiry-Later none target = (inl refl, λ t. (inl, λ h. tt))
later_expiry-Later (some a) none = (inr refl, λ t. (inr, λ h. tt))
later_expiry-Later (some a) (some b) = (ground arith, λ t. ground arith)

-- The expiry an entry has after it took over another's place.
abbrev merged : Option Time → Option (Option Time) → Option Time
merged old none = old
merged old (some target) = later_expiry old target

merged-Later :
    (old : Option Time) (target : Option (Option Time)) → Later old target (merged old target)
merged-Later old none = refl
merged-Later old (some target) = later_expiry-Later old target

later_expiry_self : (e : Option Time) → later_expiry e e ≡ e
unfolding later_expiry
later_expiry_self none = refl
later_expiry_self (some a) = ground arith

pub keys-set_expires :
    (k : Key) (e : Option Time) (ts : List Entry) → map key_of (set_expires k e ts) ≡ map key_of ts
unfolding set_expires
keys-set_expires k e [] = refl
keys-set_expires k e (t ∷ ts) = ground (arith, keys-set_expires k e ts)

-- An entry that takes over its own place changes nothing.
stays :
    (k j : Key) (old : Entry) (ts : List Entry)
    → find_entry k ts ≡ some old
    → validity j ts ≡ (
        if j == k
        then some (merged old.expires (some old.expires))
        else (if j == k then none else validity j ts))
stays k j old ts e = elim (Bool-cases (j == k)) [
  | inl q ↦
      rw (q, later_expiry_self)
        (ap (Option.map (λ (t : Entry). t.expires))
          (subst (λ (i : Key). find_entry i ts ≡ some old) (sym ((pair_beq_iff j k).0 q)) e))
  | inr q ↦ rw q refl
]

-- Two keys that differ in the relation.
pub key-differs :
    (group_id r r' : Text) (rest : Text × (Text × Text))
    → (r == r') ≡ false
    → (let k : Key = (group_id, (r, rest)) in k) ≢ (group_id, (r', rest))
key-differs group_id r r' rest d q =
    let same = (list_beq_iff r r').1 (ap (λ (k : Key). k.1.0) q) in cc (d, same)

moves :
    (k k' j : Key) (to : Text) (old : Entry) (ts : List Entry)
    → Unique ts
    → k' ≡ (k.0, (to, k.1.1))
    → find_entry k ts ≡ some old
    → find_entry k' ts ≡ none
    → k ≢ k'
    → validity j (set_relation k to ts) ≡ (
        if j == k'
        then some (merged old.expires (validity k' ts))
        else (if j == k then none else validity j ts))
moves k k' j to old ts u q e n d =
    let held : validity k ts ≡ some old.expires = rw e refl in
    let free : validity k' ts ≡ none = rw n refl in
    validity-set_relation k k' j to ts u q (λ z. cc (z, e)) n d
    ∙ rw (held, free) (ground (arith, pair_beq_iff j k, pair_beq_iff j k'))

joins :
    (k k' j : Key) (old target : Entry) (ts : List Entry)
    → Unique ts
    → find_entry k ts ≡ some old
    → find_entry k' ts ≡ some target
    → k ≢ k'
    → validity j (delete_entry k (set_expires k' (later_expiry old.expires target.expires) ts)) ≡ (
        if j == k'
        then some (merged old.expires (validity k' ts))
        else (if j == k then none else validity j ts))
joins k k' j old target ts u e n d =
    let e' = later_expiry old.expires target.expires in
    let held : validity k' ts ≡ some target.expires = rw n refl in
    validity-delete_entry k j (set_expires k' e' ts)
      (subst Distinct (sym (keys-set_expires k' e' ts)) u)
    ∙ rw (validity-set_expires k' j e' ts (λ z. cc (z, n)), held)
        (ground (arith, pair_beq_iff j k, pair_beq_iff j k'))

module _ (group_id member_type member_id from to : Text) (s : MemoryStore) where
  abbrev from_key : Key
  from_key = key group_id (normalize_relation from) member_type member_id

  abbrev to_key : Key
  to_key = key group_id (normalize_relation to) member_type member_id

  move-validity :
      Unique s.tuples
      → (validity from_key s.tuples ≡ none)
          × (change_relation group_id member_type member_id from to s ≡ err record_not_found)
        ⊎ ((old : Option Time) × (after : MemoryStore) × (validity from_key s.tuples ≡ some old)
            × (change_relation group_id member_type member_id from to s ≡ ok after)
            × ((j : Key)
                → validity j after.tuples ≡ (
                    if j == to_key
                    then some (merged old (validity to_key s.tuples))
                    else (if j == from_key then none else validity j s.tuples))))
  unfolding change_relation
  move-validity u = elim (Option-cases (find_entry from_key s.tuples)) [
    | inl e ↦ inl (rw e refl, rw (e, change_relation) refl)
    | inr (old, e) ↦ elim (Bool-cases (normalize_relation from == normalize_relation to)) [
      | inl same ↦
          let one : from_key ≡ to_key =
            ap (λ (r : Text). (let k : Key = (group_id, (r, from_key.1.1)) in k))
              ((list_beq_iff _ _).0 same) in
          inr (
            old.expires,
            s,
            rw e refl,
            rw (e, same, change_relation) refl,
            λ j. rw (sym one, e) (stays from_key j old s.tuples e),
          )
      | inr differ ↦ elim (Option-cases (find_entry to_key s.tuples)) [
        | inl n ↦ inr (
          old.expires,
          record s { tuples = set_relation from_key (normalize_relation to) s.tuples },
          rw e refl,
          rw (e, differ, n, change_relation) refl,
          λ j.
              moves from_key to_key j _ old s.tuples u refl e n (key-differs group_id _ _ _ differ),
        )
        | inr (target, n) ↦ inr (
          old.expires,
          record s {
            tuples =
                delete_entry from_key
                  (set_expires to_key (later_expiry old.expires target.expires) s.tuples);
          },
          rw e refl,
          rw (e, differ, n, change_relation) refl,
          λ j.
              joins from_key to_key j old target s.tuples u e n (key-differs group_id _ _ _ differ),
        )
      ]
    ]
  ]

  -- Changing a relation fails exactly if the member does not hold the old one. Otherwise the entry of the
  -- new relation stops counting when the old one did, or, if the member held both, when the later of
  -- the two did: it counts exactly when one of the two would have. The old relation's entry is gone, and
  -- no other entry is changed. If the two relations are one, nothing changes.
  pub validity-change_relation :
      Unique s.tuples
      → (validity from_key s.tuples ≡ none)
          × (change_relation group_id member_type member_id from to s ≡ err record_not_found)
        ⊎ ((old : Option Time) × (later : Option Time) × (after : MemoryStore) × (validity from_key
                s.tuples
              ≡ some old)
            × (change_relation group_id member_type member_id from to s ≡ ok after)
            × Later old (validity to_key s.tuples) later
            × ((j : Key)
                → validity j after.tuples ≡ (
                    if j == to_key
                    then some later
                    else (if j == from_key then none else validity j s.tuples))))
  validity-change_relation u = elim (move-validity u) [
    | inl failed ↦ inl failed
    | inr (old, after, held, answer, moved) ↦
        let target = validity to_key s.tuples in
        inr (old, merged old target, after, held, answer, merged-Later old target, moved)
  ]
