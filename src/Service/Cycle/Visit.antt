-- ===== src/Service/Cycle/Visit.antt =====
-- The inner loop of the search: what it has seen, and what it queues.
use mathlib.Core.List.Memᴰ
use role_provider_service.Base.{
  ◌+◌, ◌≤◌, ◌≡◌, ◌≢◌, ◌↔◌, ◌⊎◌, inl, inr, ⊎_elim, refl, sym, false, List, [], ◌∷◌, ◌++◌, Memᴰ,
  Memᴰ-cons, Memᴰ-concat, arith, Text, list_beq_iff, ◌==◌, contains, contains_iff, nat_eq, list_eq,
  Bool-cases, length, length-append, unseen, unseen-lt,
}
use role_provider_service.Base.Result.{ok, err, cycle}
use role_provider_service.Service.Cycle.{visit}

pub record Visited (group_id : Text) (cs seen queue seen' queue' cands : List Text) : Type 0 where
  pub clean : ¬ Memᴰ group_id cs
  pub grown : (a : Text) → Memᴰ a seen' ↔ (Memᴰ a seen ⊎ Memᴰ a cs)
  pub kept : (a : Text) → Memᴰ a queue → Memᴰ a queue'
  pub queued : (a : Text) → Memᴰ a queue' → Memᴰ a queue ⊎ Memᴰ a cs
  pub waiting : (a : Text) → Memᴰ a seen' → Memᴰ a seen ⊎ Memᴰ a queue'
  pub work :
      ((a : Text) → Memᴰ a cs → Memᴰ a cands)
      → length queue' + unseen seen' cands ≤ length queue + unseen seen cands

Visited-known :
    {group_id : Text} {cs seen queue seen' queue' cands : List Text} (c : Text)
    → Visited group_id cs seen queue seen' queue' cands
    → c ≢ group_id
    → Memᴰ c seen
    → Visited group_id (c ∷ cs) seen queue seen' queue' cands
Visited-known {group_id} {cs} {seen} {queue} {seen'} {queue'} {cands} c v d m = record {
  clean = ground (arith, v.clean, Memᴰ-cons group_id c cs);
  grown = λ a. ground (arith, v.grown a, Memᴰ-cons a c cs);
  kept = v.kept;
  queued = λ a. ground (arith, v.queued a, Memᴰ-cons a c cs);
  waiting = v.waiting;
  work = λ h. v.work (λ a n. h a (Memᴰ.tail n));
}

Visited-new :
    {group_id : Text} {cs seen queue seen' queue' cands : List Text} (c : Text)
    → Visited group_id cs (c ∷ seen) (queue ++ c ∷ []) seen' queue' cands
    → c ≢ group_id
    → contains seen c ≡ false
    → Visited group_id (c ∷ cs) seen queue seen' queue' cands
Visited-new {group_id} {cs} {seen} {queue} {seen'} {queue'} {cands} c v d k = record {
  clean = ground (arith, v.clean, Memᴰ-cons group_id c cs);
  grown = λ a. ground (arith, v.grown a, Memᴰ-cons a c cs, Memᴰ-cons a c seen);
  kept = λ a m. v.kept a ((Memᴰ-concat a c queue).1 (inl m));
  queued = λ a. ground (arith, v.queued a, Memᴰ-cons a c cs, Memᴰ-concat a c queue);
  waiting = λ a. ground (arith, v.waiting a, Memᴰ-cons a c seen, Memᴰ-concat a c queue, v.kept a);
  work = λ h. omega (
    arith,
    v.work (λ a n. h a (Memᴰ.tail n)),
    length-append queue (c ∷ []),
    unseen-lt seen (c ∷ seen) cands c (λ a. Memᴰ.tail) (h c (Memᴰ.head refl)) k (Memᴰ.head refl),
  );
}

pub visit-cases :
    (group_id : Text) (cs seen queue cands : List Text)
    → ((seen' : List Text) × (queue' : List Text) × (visit group_id cs seen queue
          ≡ ok (seen', queue'))
        × Visited group_id cs seen queue seen' queue' cands)
      ⊎ ((visit group_id cs seen queue ≡ err cycle) × Memᴰ group_id cs)
unfolding visit
visit-cases group_id [] seen queue cands = inl (
  seen,
  queue,
  refl,
  record {
    clean = Memᴰ.not-nil;
    grown = λ a. (inl, λ h. ⊎_elim (λ m. m) (λ n. absurd (Memᴰ.not-nil n)) h);
    kept = λ a m. m;
    queued = λ a. inl;
    waiting = λ a. inl;
    work = λ h. omega arith;
  },
)
visit-cases group_id (c ∷ cs) seen queue cands = elim (Bool-cases (c == group_id)) [
  | inl e ↦ inr (rw (e, visit) refl, Memᴰ.head (sym ((list_beq_iff c group_id).0 e)))
  | inr e ↦ elim (Bool-cases (contains seen c)) [
    | inl k ↦ elim (visit-cases group_id cs seen queue cands) [
      | inl (seen', queue', q, v) ↦ inl (
        seen',
        queue',
        rw (e, k, visit) q,
        Visited-known c v (λ z. cc (e, (list_beq_iff c group_id).1 z)) ((contains_iff seen c).0 k),
      )
      | inr (q, m) ↦ inr (rw (e, k, visit) q, Memᴰ.tail m)
    ]
    | inr k ↦ elim (visit-cases group_id cs (c ∷ seen) (queue ++ c ∷ []) cands) [
      | inl (seen', queue', q, v) ↦ inl (
        seen',
        queue',
        rw (e, k, visit) q,
        Visited-new c v (λ z. cc (e, (list_beq_iff c group_id).1 z)) k,
      )
      | inr (q, m) ↦ inr (rw (e, k, visit) q, Memᴰ.tail m)
    ]
  ]
]
