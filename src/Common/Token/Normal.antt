-- ===== src/Common/Token/Normal.antt =====
-- Normalizing an id: trimming and lowering commute, and both are idempotent.
use role_provider_service.Base.{ℕ, ◌≡◌, All, refl, ap, ◌∙◌, false, [], ◌∷◌, arith, Text, is_empty}
use role_provider_service.Common.Strings.{
  lower_char, to_lower, is_space, trim_left, trim_right, trim_space,
}
use role_provider_service.Common.Token.{normalize_id}

lower_char_idem : (c : ℕ) → lower_char (lower_char c) ≡ lower_char c
unfolding lower_char
lower_char_idem c = ground arith

is_space-lower_char : (c : ℕ) → is_space (lower_char c) ≡ is_space c
unfolding is_space lower_char
is_space-lower_char c = ground arith

to_lower_idem : (s : Text) → to_lower (to_lower s) ≡ to_lower s
to_lower_idem [] = refl
to_lower_idem (c ∷ s) = cc (lower_char_idem c, to_lower_idem s)

trim_left-to_lower : (s : Text) → trim_left (to_lower s) ≡ to_lower (trim_left s)
unfolding trim_left
trim_left-to_lower [] = refl
trim_left-to_lower (c ∷ s) = ground (arith, is_space-lower_char c, trim_left-to_lower s)

is_empty-to_lower : (s : Text) → is_empty (to_lower s) ≡ is_empty s
is_empty-to_lower [] = refl
is_empty-to_lower (c ∷ s) = refl

trim_right-to_lower : (s : Text) → trim_right (to_lower s) ≡ to_lower (trim_right s)
unfolding trim_right
trim_right-to_lower [] = refl
trim_right-to_lower (c ∷ s) =
    ground (arith, is_space-lower_char c, trim_right-to_lower s, is_empty-to_lower (trim_right s))

trim_left_idem : (s : Text) → trim_left (trim_left s) ≡ trim_left s
unfolding trim_left
trim_left_idem [] = refl
trim_left_idem (c ∷ s) = ground (arith, trim_left_idem s)

trim_right_idem : (s : Text) → trim_right (trim_right s) ≡ trim_right s
unfolding trim_right
trim_right_idem [] = refl
trim_right_idem (c ∷ s) = ground (arith, trim_right_idem s)

-- What trimming on the left leaves still starts with no space after trimming on the right.
trim_left-trim_right : (s : Text) → trim_left (trim_right (trim_left s)) ≡ trim_right (trim_left s)
unfolding trim_left trim_right
trim_left-trim_right [] = refl
trim_left-trim_right (c ∷ s) = ground (arith, trim_left-trim_right s)

pub trim_space_idem : (s : Text) → trim_space (trim_space s) ≡ trim_space s
unfolding trim_space
trim_space_idem s = ap trim_right (trim_left-trim_right s) ∙ trim_right_idem (trim_left s)

pub trim_space-to_lower : (s : Text) → trim_space (to_lower s) ≡ to_lower (trim_space s)
unfolding trim_space
trim_space-to_lower s = ap trim_right (trim_left-to_lower s) ∙ trim_right-to_lower (trim_left s)

-- Normalizing twice gives what normalizing once gives, for every id.
pub normalize_id_idem : (id : Text) → normalize_id (normalize_id id) ≡ normalize_id id
unfolding normalize_id
normalize_id_idem id =
    ap to_lower (trim_space-to_lower (trim_space id))
    ∙ to_lower_idem (trim_space (trim_space id))
    ∙ ap to_lower (trim_space_idem id)

-- A character that normalizing leaves alone.
abbrev pub Plain : ℕ → Type 0
Plain c = (lower_char c ≡ c) × (is_space c ≡ false)

to_lower-eq : (s : Text) → All Plain s → to_lower s ≡ s
to_lower-eq [] h = refl
to_lower-eq (c ∷ s) h = cc (h.0.0, to_lower-eq s h.1)

trim_right-eq : (s : Text) → All Plain s → trim_right s ≡ s
unfolding trim_right
trim_right-eq [] h = refl
trim_right-eq (c ∷ s) h = ground (arith, trim_right-eq s h.1)

trim_left-eq : (s : Text) → All Plain s → trim_left s ≡ s
unfolding trim_left
trim_left-eq [] h = refl
trim_left-eq (c ∷ s) h = ground arith

pub trim_space-eq : (s : Text) → All Plain s → trim_space s ≡ s
unfolding trim_space
trim_space-eq s h = ap trim_right (trim_left-eq s h) ∙ trim_right-eq s h

pub normalize_id-eq : (s : Text) → All Plain s → normalize_id s ≡ s
unfolding normalize_id
normalize_id-eq s h = ap to_lower (trim_space-eq s h) ∙ to_lower-eq s h
