-- ===== src/Store/Members/Scan.antt =====
-- The inner loop of `GetAllMembers`: what it adds to the tokens and to the queue.
use role_provider_service.Base.{
  ◌≡◌, ◌↔◌, ◌⊎◌, inl, inr, Bool, ◌&&◌, List, [], ◌∷◌, ◌++◌, Memᴰ, Memᴰ-cons, Memᴰ-concat, arith,
  Text, contains_iff, contains, nat_eq, list_eq, Distinct, Distinct-concat, Memᴰ-nil, map, filter,
  append-nil, append_assoc, Bool-cases, ◌==◌,
}
use role_provider_service.Common.Types.{Time}
use role_provider_service.Common.Token.{group_type}
use role_provider_service.Store.State.{Entry, member_token}
use role_provider_service.Store.Listing.{add_new}
use role_provider_service.Store.Members.{Step, counts, scan_members}

abbrev pub token_of : Entry → Text
token_of t = member_token t.subj_type t.subj_id t.subj_rel

pub mem-add_new :
    (seen : List Text) (a b : Text) → Memᴰ b (add_new seen a) ↔ (Memᴰ b seen ⊎ (b ≡ a))
unfolding add_new
mem-add_new seen a b = ground (arith, contains_iff seen a, Memᴰ-concat b a seen)

pub add_new-Distinct : (seen : List Text) (a : Text) → Distinct seen → Distinct (add_new seen a)
unfolding add_new
add_new-Distinct seen a d = elim (Bool-cases (contains seen a)) [
  | inl e ↦ rw e d
  | inr e ↦ rw e (Distinct-concat seen a d (λ m. ground (arith, contains_iff seen a)))
]

-- Adding a list of tokens in turn.
pub add_all : List Text → List Text → List Text
add_all seen [] = seen
add_all seen (a ∷ new) = add_all (add_new seen a) new

pub mem-add_all :
    (seen new : List Text) (b : Text) → Memᴰ b (add_all seen new) ↔ (Memᴰ b seen ⊎ Memᴰ b new)
unfolding add_all
mem-add_all seen [] b = ground (arith, Memᴰ-nil b)
mem-add_all seen (a ∷ new) b =
    ground (arith, mem-add_all (add_new seen a) new b, mem-add_new seen a b, Memᴰ-cons b a new)

pub add_all-Distinct : (seen new : List Text) → Distinct seen → Distinct (add_all seen new)
unfolding add_all
add_all-Distinct seen [] d = d
add_all-Distinct seen (a ∷ new) d =
    add_all-Distinct (add_new seen a) new (add_new-Distinct seen a d)

abbrev pub step_of : Entry → Step
step_of t = (t.subj_id, t.subj_rel)

abbrev pub is_group : Entry → Bool
is_group t = t.subj_type == group_type

-- The entries that count, and the groups among them, in their order.
abbrev pub counted : Time → Step → List Entry → List Entry
counted now q = filter (counts now q)

abbrev pub subgroups : Time → Step → List Entry → List Entry
subgroups now q = filter (λ t. counts now q t && is_group t)

pub scan_members-eq :
    (now : Time) (q : Step) (ts : List Entry) (tokens : List Text) (queue : List Step)
    → scan_members now q ts tokens queue ≡ (
      add_all tokens (map token_of (counted now q ts)),
      queue ++ map step_of (subgroups now q ts),
    )
unfolding scan_members add_all filter
scan_members-eq now q [] tokens queue = ground (arith, append-nil queue)
scan_members-eq now q (t ∷ ts) tokens queue = ground (
  arith,
  scan_members-eq now q ts tokens queue,
  scan_members-eq now q ts (add_new tokens (token_of t)) queue,
  scan_members-eq now q ts (add_new tokens (token_of t)) (queue ++ step_of t ∷ []),
  append_assoc queue (step_of t ∷ []) (map step_of (subgroups now q ts)),
)
