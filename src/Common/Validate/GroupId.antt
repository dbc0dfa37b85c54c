-- ===== src/Common/Validate/GroupId.antt =====
-- What an accepted group id is good for: it is normalized, and safe inside a token.
use role_provider_service.Base.{
  ℕ, ◌≤◌, ◌<◌, ◌≡◌, ◌≢◌, true, false, arith, All, All-of_all, Text, length, [], ◌∷◌, nat_eq, all,
}
use role_provider_service.Base.Result.{ok}
use role_provider_service.Common.Strings.{lower_char, is_space}
use role_provider_service.Common.Token.{normalize_id}
use role_provider_service.Common.Token.Normal.{Plain, normalize_id-eq}
use role_provider_service.Common.Validate.{group_id_char, group_id_re, validate_group_id}

-- ASCII, and no separator of tokens or lists.
abbrev pub Safe : ℕ → Type 0
Safe c = (c ≢ b':') × (c ≢ b'#') × (c ≢ b',') × (is_space c ≡ false) × (c < 128)

group_id_char-Safe : (c : ℕ) → group_id_char c ≡ true → Safe c × Plain c
unfolding group_id_char is_space lower_char
group_id_char-Safe c h = ground arith

group_id_all :
    (id : Text)
    → group_id_re id ≡ true
    → (all group_id_char id ≡ true) × (0 < length id) × (length id ≤ 128)
unfolding group_id_re
group_id_all [] h = absurd (cc)
group_id_all (c ∷ s) h = ground arith

-- An accepted group id is not changed by normalizing, has between 1 and 128 characters, and each of them
-- is an ASCII character that is no space, colon, "#" or comma.
pub validate_group_id-Safe :
    (id : Text)
    → validate_group_id id ≡ ok tt
    → (normalize_id id ≡ id) × All Safe id × (0 < length id) × (length id ≤ 128)
unfolding validate_group_id
validate_group_id-Safe id h =
    let (shape, lower, upper) = group_id_all id (ground arith) in
    (
      normalize_id-eq id
          (All-of_all Plain group_id_char (λ c e. (group_id_char-Safe c e).1) id shape),
      All-of_all Safe group_id_char (λ c e. (group_id_char-Safe c e).0) id shape,
      lower,
      upper,
    )
