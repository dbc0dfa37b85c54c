-- ===== src/Store/Tokens/Scan.antt =====
-- The loops over the entries in `GetUserTokens`: which pairs they add.
use mathlib.Core.List.Memᴰ
use role_provider_service.Base.{
  ℕ, ◌+◌, ◌≤◌, ◌≡◌, ◌↔◌, ◌⊎◌, inl, inr, refl, Bool, false, List, [], ◌∷◌, ◌++◌, Memᴰ, Memᴰ-cons,
  Memᴰ-concat, Memᴰ-nil, arith, contains_iff, contains, nat_eq, list_eq, pair_eq, length,
  length-append, Bool-cases, filter, map, unseen, unseen-lt, Distinct, Distinct-concat,
}
use role_provider_service.Store.State.{Entry}
use role_provider_service.Store.Tokens.{Pair, Found, add_pair, add_pairs}

abbrev pub pair_of : Entry → Pair
pair_of t = (t.obj_id, t.relation)

pub mem-add_pair : (f : Found) (p q : Pair) → Memᴰ q (add_pair f p).0 ↔ (Memᴰ q f.0 ⊎ (q ≡ p))
unfolding add_pair
mem-add_pair (order, queue) p q = ground (arith, contains_iff order p, Memᴰ-concat q p order)

add_pair-Distinct : (f : Found) (p : Pair) → Distinct f.0 → Distinct (add_pair f p).0
unfolding add_pair
add_pair-Distinct (order, queue) p d = elim (Bool-cases (contains order p)) [
  | inl e ↦ rw e d
  | inr e ↦ rw e (Distinct-concat order p d (λ m. ground (arith, contains_iff order p)))
]

mem-add_pair_queue :
    (f : Found) (p q : Pair)
    → Memᴰ q (add_pair f p).1 ↔ (Memᴰ q f.1 ⊎ (q ≡ p) × (contains f.0 p ≡ false))
unfolding add_pair
mem-add_pair_queue (order, queue) p q = ground (arith, Memᴰ-concat q p queue)

pub mem-add_pairs :
    (c : Entry → Bool) (ts : List Entry) (f : Found) (q : Pair)
    → Memᴰ q (add_pairs c ts f).0 ↔ (Memᴰ q f.0 ⊎ Memᴰ q (map pair_of (filter c ts)))
unfolding add_pairs filter
mem-add_pairs c [] f q = ground (arith, Memᴰ-nil q)
mem-add_pairs c (t ∷ ts) f q = ground (
  arith,
  mem-add_pairs c ts f q,
  mem-add_pairs c ts (add_pair f (pair_of t)) q,
  mem-add_pair f (pair_of t) q,
  Memᴰ-cons q (pair_of t) (map pair_of (filter c ts)),
)

-- What each added pair keeps, the loop keeps.
add_pairs_rule {ℓ} :
    (P : Found → Type ℓ) (c : Entry → Bool) (ts : List Entry) (f : Found)
    → P f
    → ((g : Found) (t : Entry) → Memᴰ t ts → P g → P (add_pair g (pair_of t)))
    → P (add_pairs c ts f)
unfolding add_pairs
add_pairs_rule P c [] f h k = h
add_pairs_rule P c (t ∷ ts) f h k = elim (Bool-cases (c t)) [
  | inl e ↦
      rw (e, add_pairs)
        (add_pairs_rule P c ts (add_pair f (pair_of t)) (k f t (Memᴰ.head refl) h)
          (λ g u m. k g u (Memᴰ.tail m)))
  | inr e ↦ rw (e, add_pairs) (add_pairs_rule P c ts f h (λ g u m. k g u (Memᴰ.tail m)))
]

-- The queued pairs are found, no pair is found twice, and what was found or queued stays.
pub record Grows (f g : Found) : Type 0 where
  pub found : (q : Pair) → Memᴰ q f.0 → Memᴰ q g.0
  pub queue : (q : Pair) → Memᴰ q f.1 → Memᴰ q g.1
  pub new : (q : Pair) → Memᴰ q g.0 → Memᴰ q f.0 ⊎ Memᴰ q g.1
  pub covered : (q : Pair) → Memᴰ q g.1 → Memᴰ q g.0
  pub distinct : Distinct g.0

add_pair-Grows : (f g : Found) (p : Pair) → Grows f g → Grows f (add_pair g p)
add_pair-Grows f g p h = record {
  found = λ q m. ground (arith, h.found q m, mem-add_pair g p q);
  queue = λ q m. ground (arith, h.queue q m, mem-add_pair_queue g p q);
  new = λ q m.
      ground (arith, mem-add_pair g p q, mem-add_pair_queue g p q, h.new q, contains_iff g.0 p);
  covered = λ q m. ground (arith, mem-add_pair g p q, mem-add_pair_queue g p q, h.covered q);
  distinct = add_pair-Distinct g p h.distinct;
}

pub add_pairs-Grows :
    (c : Entry → Bool) (ts : List Entry) (f : Found)
    → ((q : Pair) → Memᴰ q f.1 → Memᴰ q f.0)
    → Distinct f.0
    → Grows f (add_pairs c ts f)
add_pairs-Grows c ts f h d =
    add_pairs_rule (Grows f) c ts f
      (record { found = λ q m. m; queue = λ q m. m; new = λ q. inl; covered = h; distinct = d })
      (λ g t m. add_pair-Grows f g (pair_of t))

-- Queued and unseen together do not grow.
abbrev pub work : List Pair → Found → ℕ
work cs f = length f.1 + unseen f.0 cs

add_pair-work :
    (cs : List Pair) (f : Found) (p : Pair) → Memᴰ p cs → work cs (add_pair f p) ≤ work cs f
unfolding add_pair
add_pair-work cs (order, queue) p m = elim (Bool-cases (contains order p)) [
  | inl e ↦ rw e (omega arith)
  | inr e ↦ rw e (
      omega (
        arith,
        length-append queue (p ∷ []),
        unseen-lt order (order ++ p ∷ []) cs p (λ a. Memᴰ.append_left (p ∷ [])) m e
            (Memᴰ.append_right order (Memᴰ.head refl)),
      ))
]

pub add_pairs-work :
    (c : Entry → Bool) (ts : List Entry) (f : Found) (cs : List Pair)
    → ((t : Entry) → Memᴰ t ts → Memᴰ (pair_of t) cs)
    → work cs (add_pairs c ts f) ≤ work cs f
add_pairs-work c ts f cs h =
    add_pairs_rule (λ g. work cs g ≤ work cs f) c ts f (omega arith)
      (λ g t m w. omega (arith, add_pair-work cs g (pair_of t) (h t m)))
