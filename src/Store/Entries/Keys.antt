-- ===== src/Store/Entries/Keys.antt =====
-- The entries seen as a map from keys, and what the loops over them do to that map.
use mathlib.Core.List.Memᴰ
use mathlib.Core.Option
use role_provider_service.Base.{
  ◌≡◌, ◌≢◌, ◌↔◌, inl, inr, refl, sym, subst, ap, ◌∙◌, true, false, not, List, [], ◌∷◌, ◌++◌, Memᴰ,
  Memᴰ-cons, arith, Text, if◌then◌else◌, ◌==◌, Option, none, some, nat_eq, list_eq, pair_eq,
  pair_beq_iff, any, filter, Bool-cases, Distinct, map,
}
use role_provider_service.Common.Types.{Time}
use role_provider_service.Store.State.{Entry}
use role_provider_service.Store.Entries.{
  Key, key_of, is_entry, set_expires, find_entry, set_relation, delete_entry,
}

pub is_entry_iff : (k : Key) (t : Entry) → (is_entry k t ≡ true) ↔ (key_of t ≡ k)
unfolding is_entry
is_entry_iff k t = pair_beq_iff (key_of t) k

-- No two entries have one key.
abbrev pub Unique : List Entry → Type 0
Unique ts = Distinct (map key_of ts)

-- The abstract view of the entries: a map from keys to when the entry stops counting. The outer
-- `none` means that there is no entry, the inner that it has no end.
abbrev pub validity : Key → List Entry → Option (Option Time)
validity k ts = Option.map (λ t. t.expires) (find_entry k ts)

pub find_entry-some :
    (k : Key) (ts : List Entry) (t : Entry) → find_entry k ts ≡ some t → Memᴰ t ts × (key_of t ≡ k)
unfolding find_entry
find_entry-some k [] t h = absurd (cc)
find_entry-some k (x ∷ ts) t h =
    ground (arith, find_entry-some k ts t, is_entry_iff k x, Memᴰ-cons t x ts)

pub find_entry-none :
    (k : Key) (ts : List Entry) → (find_entry k ts ≡ none) ↔ (¬ Memᴰ k (map key_of ts))
unfolding find_entry
find_entry-none k [] = (λ h. Memᴰ.not-nil, λ h. refl)
find_entry-none k (x ∷ ts) =
    ground (arith, find_entry-none k ts, is_entry_iff k x, Memᴰ-cons k (key_of x) (map key_of ts))

pub any-is_entry :
    (k : Key) (ts : List Entry) → (any (is_entry k) ts ≡ false) ↔ (find_entry k ts ≡ none)
unfolding any find_entry
any-is_entry k [] = ground arith
any-is_entry k (x ∷ ts) = ground (arith, any-is_entry k ts)

pub validity-set_expires :
    (k j : Key) (e : Option Time) (ts : List Entry)
    → find_entry k ts ≢ none
    → validity j (set_expires k e ts) ≡ (if j == k then some e else validity j ts)
unfolding find_entry set_expires is_entry
validity-set_expires k j e [] h = absurd (h refl)
validity-set_expires k j e (t ∷ ts) h = ground (
  arith,
  validity-set_expires k j e ts,
  pair_beq_iff (key_of t) k,
  pair_beq_iff (key_of t) j,
  pair_beq_iff j k,
)

pub validity-append :
    (j : Key) (t : Entry) (ts : List Entry)
    → find_entry (key_of t) ts ≡ none
    → validity j (ts ++ t ∷ []) ≡ (if j == key_of t then some t.expires else validity j ts)
unfolding find_entry is_entry
validity-append j t [] h = ground (arith, pair_beq_iff (key_of t) j, pair_beq_iff j (key_of t))
validity-append j t (x ∷ ts) h = ground (
  arith,
  validity-append j t ts,
  pair_beq_iff (key_of x) j,
  pair_beq_iff (key_of x) (key_of t),
  pair_beq_iff j (key_of t),
)

pub validity-filter :
    (k j : Key) (ts : List Entry)
    → validity j (filter (λ t. not (is_entry k t)) ts) ≡ (if j == k then none else validity j ts)
unfolding find_entry filter is_entry
validity-filter k j [] = ground arith
validity-filter k j (t ∷ ts) = ground (
  arith,
  validity-filter k j ts,
  pair_beq_iff (key_of t) k,
  pair_beq_iff (key_of t) j,
  pair_beq_iff j k,
)

pub validity-delete_entry :
    (k j : Key) (ts : List Entry)
    → Unique ts
    → validity j (delete_entry k ts) ≡ (if j == k then none else validity j ts)
unfolding find_entry delete_entry is_entry
validity-delete_entry k j [] u = ground arith
validity-delete_entry k j (t ∷ ts) u = ground (
  arith,
  validity-delete_entry k j ts u.1,
  find_entry-none (key_of t) ts,
  u.0,
  pair_beq_iff (key_of t) k,
  pair_beq_iff (key_of t) j,
  pair_beq_iff j k,
)

validity-cons :
    (j : Key) (t : Entry) (ts : List Entry) (k : Key)
    → key_of t ≡ k
    → validity j (t ∷ ts) ≡ (if j == k then some t.expires else validity j ts)
unfolding find_entry is_entry
validity-cons j t ts k e =
    rw (sym e) (ground (arith, pair_beq_iff (key_of t) j, pair_beq_iff j (key_of t)))

pub validity-none : (k : Key) (ts : List Entry) → find_entry k ts ≡ none → validity k ts ≡ none
validity-none k ts e = rw e refl

pub validity-set_relation :
    (k k' j : Key) (to : Text) (ts : List Entry)
    → Unique ts
    → k' ≡ (k.0, (to, k.1.1))
    → find_entry k ts ≢ none
    → find_entry k' ts ≡ none
    → k ≢ k'
    → validity j (set_relation k to ts)
      ≡ (if j == k then none else (if j == k' then validity k ts else validity j ts))
unfolding set_relation find_entry
validity-set_relation k k' j to [] u q h n d = absurd (h refl)
validity-set_relation k k' j to (t ∷ ts) u q h n d = elim (Bool-cases (is_entry k t)) [
  | inl e ↦
      let here : key_of t ≡ k = (is_entry_iff k t).0 e in
      let moved : key_of (record t { relation = to }) ≡ k' =
        ap (λ (x : Key). (let y : Key = (x.0, (to, x.1.1)) in y)) here ∙ sym q in
      let gone =
        validity-none k ts
          ((find_entry-none k ts).1 (subst (λ x. ¬ Memᴰ x (map key_of ts)) here u.0)) in
      rw (e, set_relation)
        (ground (
          arith,
          validity-cons j (record t { relation = to }) ts k' moved,
          validity-cons j t ts k here,
          validity-cons k t ts k here,
          gone,
          pair_beq_iff j k,
          pair_beq_iff j k',
          pair_beq_iff k k,
        ))
  | inr e ↦
      let elsewhere : key_of t ≢ k = λ x. cc (e, (is_entry_iff k t).1 x) in
      rw (e, set_relation)
        (ground (
          arith,
          validity-set_relation k k' j to ts u.1 q,
          validity-cons j t (set_relation k to ts) (key_of t) refl,
          validity-cons j t ts (key_of t) refl,
          validity-cons k t ts (key_of t) refl,
          pair_beq_iff j (key_of t),
          pair_beq_iff k (key_of t),
          pair_beq_iff j k,
          pair_beq_iff j k',
          elsewhere,
        ))
]
