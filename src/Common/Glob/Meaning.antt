-- ===== src/Common/Glob/Meaning.antt =====
-- What a glob means, and that the matcher decides it.
use mathlib.Core.List.Memᴰ
use role_provider_service.Base.{
  ℕ, ◌≡◌, ◌≢◌, ◌↔◌, inl, inr, refl, Bool, true, [], ◌∷◌, ◌++◌, arith, Memᴰ, Memᴰ-cons, nat_eq, Text,
  is_empty_iff, Bool-cases,
}
use role_provider_service.Common.Strings.{to_lower, trim_space}
use role_provider_service.Common.Token.{normalize_id}
use role_provider_service.Common.Glob.{
  star, newline, star_match, literal_match, glob_match, match_glob,
}

pub data Globs : Text → Text → Type 0 where
  done : Globs [] []
  literal : {p : ℕ} {ps s t : Text} → p ≢ star → t ≡ p ∷ s → Globs ps s → Globs (p ∷ ps) t
  -- "*" stands for any run of characters without a newline.
  wild :
      {p : ℕ} {ps s t : Text}
      → p ≡ star
      → (run : Text) → ¬ Memᴰ newline run
      → t ≡ run ++ s
      → Globs ps s
      → Globs (p ∷ ps) t

star_match_sound :
    (f : Text → Bool) (s : Text)
    → star_match f s ≡ true
    → (run : Text) × (rest : Text) × (¬ Memᴰ newline run) × (s ≡ run ++ rest) × (f rest ≡ true)
unfolding star_match
star_match_sound f [] h = ([], [], Memᴰ.not-nil, refl, h)
star_match_sound f (c ∷ s) h = elim (Bool-cases (f (c ∷ s))) [
  | inl e ↦ ([], c ∷ s, Memᴰ.not-nil, refl, e)
  | inr e ↦
      let (run, rest, free, q, r) = star_match_sound f s (ground arith) in
      (c ∷ run, rest, ground (arith, Memᴰ-cons newline c run), ground arith, r)
]

star_match_complete :
    (f : Text → Bool) (run rest : Text)
    → ¬ Memᴰ newline run
    → f rest ≡ true
    → star_match f (run ++ rest) ≡ true
unfolding star_match
star_match_complete f [] [] n h = h
star_match_complete f [] (c ∷ rest) n h = ground arith
star_match_complete f (c ∷ run) rest n h =
    ground (arith, star_match_complete f run rest, Memᴰ-cons newline c run)

literal_match_sound :
    (p : ℕ) (f : Text → Bool) (s : Text)
    → literal_match p f s ≡ true
    → (rest : Text) × (s ≡ p ∷ rest) × (f rest ≡ true)
unfolding literal_match
literal_match_sound p f [] h = absurd (cc)
literal_match_sound p f (c ∷ s) h = (s, ground arith, ground arith)

pub glob_match_sound : (p s : Text) → glob_match p s ≡ true → Globs p s
unfolding glob_match
glob_match_sound [] [] h = done
glob_match_sound [] (c ∷ s) h = absurd (cc)
glob_match_sound (p ∷ ps) s h = elim (Bool-cases (nat_eq.beq p star)) [
  | inl e ↦
      let (run, rest, free, q, r) = star_match_sound (glob_match ps) s (ground arith) in
      wild (ground arith) run free q (glob_match_sound ps rest r)
  | inr e ↦
      let (rest, q, r) = literal_match_sound p (glob_match ps) s (ground arith) in
      literal (ground arith) q (glob_match_sound ps rest r)
]

pub glob_match_complete : {p s : Text} → Globs p s → glob_match p s ≡ true
unfolding glob_match
glob_match_complete done = refl
glob_match_complete (literal n e g) = ground (arith, glob_match_complete g)
glob_match_complete (wild {ps = ps} {s = s} e run n q g) =
    ground (arith, star_match_complete (glob_match ps) run s n (glob_match_complete g))

-- A glob matches exactly if neither the glob nor the text is empty once normalized, and the normalized
-- text is the normalized glob with each "*" replaced by a run of characters that are no newline.
pub match_glob_iff :
    (pattern s : Text)
    → (match_glob pattern s ≡ true) ↔ (
        (normalize_id pattern ≢ [])
        × (normalize_id s ≢ [])
        × Globs (normalize_id pattern) (normalize_id s))
unfolding match_glob normalize_id
match_glob_iff pattern s = ground (
  arith,
  is_empty_iff p,
  is_empty_iff e,
  glob_match_sound p e,
  λ (g : Globs p e). glob_match_complete g,
)
  where
    p : Text
    p = to_lower (trim_space pattern)

    e : Text
    e = to_lower (trim_space s)
