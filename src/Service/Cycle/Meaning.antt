-- ===== src/Service/Cycle/Meaning.antt =====
-- Which group contains which, seen in the entries.
use mathlib.Core.List.Memᴰ
use role_provider_service.Base.{
  ◌↔◌, List, [], ◌∷◌, Memᴰ, Memᴰ-cons, arith, Text, list_beq_iff, nat_eq, list_eq, pair_eq, filter,
}
use role_provider_service.Store.Listing.{Edge}
use role_provider_service.Service.Cycle.{children}

-- One step of the relation or more lead from the one to the other.
pub data Below (r : Text → Text → Type 0) : Text → Text → Type 0 where
  last : {a b : Text} → r a b → Below r a b
  more : {a c b : Text} → r a c → Below r c b → Below r a b

pub Below-append : {r : Text → Text → Type 0} {a b c : Text} → Below r a b → r b c → Below r a c
Below-append (last m) n = more m (last n)
Below-append (more m p) n = more m (Below-append p n)

pub Below-map :
    {r q : Text → Text → Type 0}
    → ((a b : Text) → r a b → q a b)
    → {a b : Text} → Below r a b
    → Below q a b
Below-map f {a} {b} (last m) = last (f a b m)
Below-map f {a} {b} (more {c = c} m p) = more (f a c m) (Below-map f p)

-- The pair is among the edges.
abbrev pub Edges : List Edge → Text → Text → Type 0
Edges edges a b = Memᴰ (a, b) edges

pub mem-children : (edges : List Edge) (a b : Text) → Memᴰ b (children edges a) ↔ Memᴰ (a, b) edges
unfolding children filter
mem-children [] a b = (λ m. absurd (Memᴰ.not-nil m), λ m. absurd (Memᴰ.not-nil m))
mem-children ((x, y) ∷ edges) a b = ground (
  arith,
  mem-children edges a b,
  list_beq_iff x a,
  Memᴰ-cons (a, b) (x, y) edges,
  Memᴰ-cons b y (children edges a),
)
