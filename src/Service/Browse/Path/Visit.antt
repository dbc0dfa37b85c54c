-- ===== src/Service/Browse/Path/Visit.antt =====
-- The inner loop of the search upwards: what it records, and what it queues.
use mathlib.Core.List.Memᴰ
use role_provider_service.Base.{
  ◌+◌, ◌≤◌, false, ◌≡◌, ◌↔◌, ◌⊎◌, inl, inr, ⊎_elim, refl, arith, List, [], ◌∷◌, ◌++◌, none, Text,
  Memᴰ, Memᴰ-cons, Memᴰ-concat, length, length-append, contains, contains_iff, unseen, unseen-lt,
  Bool-cases, Option-cases, nat_eq, list_eq,
}
use role_provider_service.Service.Browse.{Steps, step_of, visit_ups}
use role_provider_service.Service.Browse.Path.{IsKey, keys, mem-keys, IsKey-cons, Grown, grow}

unknown_key : (p : Text) (next : Steps) → step_of p next ≡ none → contains (keys next) p ≡ false
unknown_key p next e = elim (Bool-cases (contains (keys next) p)) [
  | inl known ↦
      absurd (let (y, e') = (mem-keys p next).0 ((contains_iff (keys next) p).0 known) in cc)
  | inr unknown ↦ unknown
]

module _ (ups : Text → List Text) (g : Text) where
  pub record Visited (ps : List Text) (next : Steps) (queue : List Text) (next' : Steps)
      (queue' cands : List Text) : Type 0 where
    pub grown : Grown ups g next'
    pub seen : (a : Text) → Memᴰ a (keys next') ↔ (Memᴰ a (keys next) ⊎ Memᴰ a ps)
    pub kept : (a : Text) → Memᴰ a queue → Memᴰ a queue'
    pub queued : (a : Text) → Memᴰ a queue' → Memᴰ a queue ⊎ Memᴰ a ps
    pub waiting : (a : Text) → Memᴰ a (keys next') → Memᴰ a (keys next) ⊎ Memᴰ a queue'
    pub work :
        ((a : Text) → Memᴰ a ps → Memᴰ a cands)
        → length queue' + unseen (keys next') cands ≤ length queue + unseen (keys next) cands

  Visited-known :
      {ps : List Text} {next : Steps} {queue : List Text} {next' : Steps} {queue' cands : List Text}
      (p : Text)
      → Visited ps next queue next' queue' cands
      → Memᴰ p (keys next)
      → Visited (p ∷ ps) next queue next' queue' cands
  Visited-known {ps} {next} {queue} {next'} {queue'} {cands} p v m = record {
    grown = v.grown;
    seen = λ a. ground (arith, v.seen a, Memᴰ-cons a p ps);
    kept = v.kept;
    queued = λ a. ground (arith, v.queued a, Memᴰ-cons a p ps);
    waiting = v.waiting;
    work = λ h. v.work (λ a n. h a (Memᴰ.tail n));
  }

  Visited-new :
      {id : Text} {ps : List Text} {next : Steps} {queue : List Text} {next' : Steps}
      {queue' cands : List Text} (p : Text)
      → Visited ps ((p, id) ∷ next) (queue ++ p ∷ []) next' queue' cands
      → contains (keys next) p ≡ false
      → Visited (p ∷ ps) next queue next' queue' cands
  Visited-new {id} {ps} {next} {queue} {next'} {queue'} {cands} p v k = record {
    grown = v.grown;
    seen = λ a. ground (arith, v.seen a, Memᴰ-cons a p ps, Memᴰ-cons a p (keys next));
    kept = λ a m. v.kept a ((Memᴰ-concat a p queue).1 (inl m));
    queued = λ a. ground (arith, v.queued a, Memᴰ-cons a p ps, Memᴰ-concat a p queue);
    waiting = λ a.
        ground (arith, v.waiting a, Memᴰ-cons a p (keys next), Memᴰ-concat a p queue, v.kept a);
    work = λ h. omega (
      arith,
      v.work (λ a n. h a (Memᴰ.tail n)),
      length-append queue (p ∷ []),
      unseen-lt (keys next) (p ∷ keys next) cands p (λ a. Memᴰ.tail) (h p (Memᴰ.head refl)) k
          (Memᴰ.head refl),
    );
  }

  pub visit_ups-Visited :
      (id : Text) (ps : List Text) (next : Steps) (queue cands : List Text)
      → Grown ups g next
      → IsKey id next
      → ((p : Text) → Memᴰ p ps → Memᴰ p (ups id))
      → Visited ps next queue (visit_ups id ps next queue).0 (visit_ups id ps next queue).1 cands
  unfolding visit_ups
  visit_ups-Visited id [] next queue cands gr k sub = record {
    grown = gr;
    seen = λ a. (inl, λ h. ⊎_elim (λ m. m) (λ n. absurd (Memᴰ.not-nil n)) h);
    kept = λ a m. m;
    queued = λ a. inl;
    waiting = λ a. inl;
    work = λ h. omega arith;
  }
  visit_ups-Visited id (p ∷ ps) next queue cands gr k sub = elim (Option-cases (step_of p next)) [
    | inr (y, e) ↦
        rw (e, visit_ups)
          (Visited-known p
            (visit_ups-Visited id ps next queue cands gr k (λ q m. sub q (Memᴰ.tail m)))
            ((mem-keys p next).1 (y, e)))
    | inl e ↦
        let unknown : contains (keys next) p ≡ false = unknown_key p next e in
        rw (e, visit_ups)
          (Visited-new {id = id} p
            (visit_ups-Visited id ps ((p, id) ∷ next) (queue ++ p ∷ []) cands
              (grow p id gr (sub p (Memᴰ.head refl)) k e) (IsKey-cons ups g p id id next k)
              (λ q m. sub q (Memᴰ.tail m)))
            unknown)
  ]
