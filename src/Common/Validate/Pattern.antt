-- ===== src/Common/Validate/Pattern.antt =====
-- Whom an accepted pattern rule means.
use mathlib.Core.List.Memᴰ
use role_provider_service.Base.{
  ℕ, ◌≡◌, ◌≢◌, ◌↔◌, ◌⊎◌, inl, inr, refl, ap, true, [], ◌∷◌, ◌++◌, Memᴰ, Memᴰ-cons, arith, All,
  All-of_all, All-mem, ||_iff, ◌&&◌, All-append, Text, codes, all, contains, contains_iff,
  Option-cases, Bool-cases, nat_eq, nat_beq_iff, subst, sym, ◌∙◌,
}
use role_provider_service.Base.Result.{ok}
use role_provider_service.Common.Strings.{lower_char, is_space, split, pieces, cut, cut_prefix}
use role_provider_service.Common.Token.{normalize_id}
use role_provider_service.Common.Token.Normal.{Plain, normalize_id-eq}
use role_provider_service.Common.Token.RoundTrip.{mem_of_cut, append_of_cut_prefix}
use role_provider_service.Common.Glob.{star, newline, match_email_pattern}
use role_provider_service.Common.Glob.Meaning.{Globs, done, literal, wild, match_glob_iff}
use role_provider_service.Common.Validate.{
  is_alnum, atext, atom, ldh, label, domain_re, email_re, validate_email, validate_pattern,
}

-- What all pieces between separators hold, and what holds of the separator, holds throughout.
All-split : (P : ℕ → Type 0) (sep : ℕ) (s : Text) → P sep → All (All P) (pieces sep s) → All P s
unfolding split
All-split P sep [] q h = tt
All-split P sep (c ∷ s) q h = elim (Bool-cases (nat_eq.beq c sep)) [
  | inl e ↦
      let r = rw (e, split) at h in
      (subst P (sym ((nat_beq_iff c sep).0 e)) q, All-split P sep s q r.1)
  | inr e ↦ let r = rw (e, split) at h in (r.0.0, All-split P sep s q (r.0.1, r.1))
]

label-All :
    (P : ℕ → Type 0) → ((c : ℕ) → ldh c ≡ true → P c) → (s : Text) → label s ≡ true → All P s
unfolding label
label-All P k s h = All-of_all P ldh k s (ground arith)

atom-All :
    (P : ℕ → Type 0) → ((c : ℕ) → atext c ≡ true → P c) → (s : Text) → atom s ≡ true → All P s
unfolding atom
atom-All P k s h = All-of_all P atext k s (ground arith)

domain-All :
    (P : ℕ → Type 0)
    → ((c : ℕ) → ldh c ≡ true → P c)
    → P b'.'
    → (d : Text) → domain_re d ≡ true
    → All P d
unfolding domain_re
domain-All P k dot d h =
    All-split P b'.' d dot (All-of_all (All P) label (label-All P k) (pieces b'.' d) h)

-- A character of a domain is plain and no wildcard.
abbrev Literal : ℕ → Type 0
Literal c = Plain c × (c ≢ star)

ldh-Literal : (c : ℕ) → ldh c ≡ true → Literal c
unfolding ldh is_space lower_char
ldh-Literal c h = ground arith

Globs-literal-eq : {p s : Text} → Globs p s → ¬ Memᴰ star p → s ≡ p
Globs-literal-eq done h = refl
Globs-literal-eq (literal {p = p} n e g) h =
    e ∙ ap (λ t. p ∷ t) (Globs-literal-eq g (λ m. h (Memᴰ.tail m)))
Globs-literal-eq (wild e run n q g) h = absurd (h (Memᴰ.head (sym e)))

Globs-self : (p : Text) → ¬ Memᴰ star p → Globs p p
Globs-self [] h = done
Globs-self (c ∷ p) h =
    literal (λ e. h (Memᴰ.head (sym e))) refl (Globs-self p (λ m. h (Memᴰ.tail m)))

-- An address of the domain: any local part before the "@".
abbrev pub InDomain : Text → Text → Type 0
InDomain d email = (run : Text) × (¬ Memᴰ newline run) × (email ≡ run ++ (b'@' ∷ d))

Globs-domain-InDomain :
    {p e : Text} (d : Text) → ¬ Memᴰ star d → Globs p e → p ≡ star ∷ b'@' ∷ d → InDomain d e
Globs-domain-InDomain d h done q = absurd (cc)
Globs-domain-InDomain d h (literal n e g) q = absurd (n (ground arith))
Globs-domain-InDomain d h (wild {ps = ps} {s = s} e run n t g) q =
    let rest : ps ≡ b'@' ∷ d = cc in
    let free : ¬ Memᴰ star ps = rw rest (ground (arith, Memᴰ-cons star b'@' d)) in
    (run, n, ground (arith, Globs-literal-eq g free))

InDomain-Globs : (d e : Text) → ¬ Memᴰ star d → InDomain d e → Globs (star ∷ b'@' ∷ d) e
InDomain-Globs d e h (run, n, q) = wild refl run n q (literal (ground arith) refl (Globs-self d h))

append-cons-ne-nil : (a b : Text) (c : ℕ) → a ++ (c ∷ b) ≢ []
append-cons-ne-nil [] b c h = cc
append-cons-ne-nil (x ∷ a) b c h = cc

alnum-Plain : (c : ℕ) → is_alnum c ≡ true → Plain c
unfolding is_space lower_char
alnum-Plain c h = ground arith

dot-Literal : Literal b'.'
unfolding is_space lower_char
dot-Literal = ground arith

at-Plain : Plain b'@'
unfolding is_space lower_char
at-Plain = ground arith

star-Plain : Plain star
unfolding is_space lower_char
star-Plain = ground arith

domain-Literal : (d : Text) → domain_re d ≡ true → All Literal d
domain-Literal d h = domain-All Literal ldh-Literal dot-Literal d h

All-Plain : (s : Text) → All Literal s → All Plain s
All-Plain [] h = tt
All-Plain (c ∷ s) h = (h.0.0, All-Plain s h.1)

not-mem-star : (s : Text) → All Literal s → ¬ Memᴰ star s
not-mem-star [] h m = Memᴰ.not-nil m
not-mem-star (c ∷ s) h m = ground (arith, not-mem-star s h.1, Memᴰ-cons star c s)

atext_symbols : All Plain (codes "!#$%&'*+/=?^_`{|}~-")
unfolding is_space lower_char
atext_symbols = ground arith

atext-Plain : (c : ℕ) → atext c ≡ true → Plain c
unfolding atext
atext-Plain c h = elim ((||_iff (is_alnum c) (contains (codes "!#$%&'*+/=?^_`{|}~-") c)).0 h) [
  | inl a ↦ alnum-Plain c a
  | inr m ↦ All-mem Plain (codes "!#$%&'*+/=?^_`{|}~-") atext_symbols ((contains_iff _ c).0 m)
]

email-Plain : (e : Text) → email_re e ≡ true → (e ≢ []) × All Plain e
unfolding email_re
email-Plain e h = elim (Option-cases (cut b'@' e)) [
  | inl q ↦ absurd (cc (rw (q, email_re) at h))
  | inr ((l, d), q) ↦
      let r : (all atom (pieces b'.' l) && domain_re d) ≡ true = rw (q, email_re) at h in
      let parts = mem_of_cut b'@' e l d q in
      let local =
        All-split Plain b'.' l dot-Literal.0 (
          All-of_all (All Plain) atom (atom-All Plain atext-Plain) (pieces b'.' l)
            (ground arith)) in
      let domain = All-Plain d (domain-Literal d (ground arith)) in
      rw parts.1
        (append-cons-ne-nil l d b'@', All-append Plain l (b'@' ∷ d) local (at-Plain, domain))
]

domain_rule_iff :
    (d email : Text)
    → domain_re d ≡ true
    → (match_email_pattern (star ∷ b'@' ∷ d) email ≡ true) ↔ InDomain d (normalize_id email)
unfolding match_email_pattern
domain_rule_iff d email h =
    let literal_chars = domain-Literal d h in
    let free = not-mem-star d literal_chars in
    let same =
      normalize_id-eq (star ∷ b'@' ∷ d) (star-Plain, (at-Plain, All-Plain d literal_chars)) in
    let iff = match_glob_iff (star ∷ b'@' ∷ d) email in
    (
      λ m. Globs-domain-InDomain d free (iff.0 m).2 same,
      λ (run, n, q). iff.1 (
        rw same (λ e. cc),
        rw q (append-cons-ne-nil run d b'@'),
        rw same (InDomain-Globs d (normalize_id email) free (run, n, q)),
      ),
    )

literal_rule_iff :
    (pattern email : Text)
    → ¬ Memᴰ star pattern
    → email_re pattern ≡ true
    → (match_email_pattern pattern email ≡ true) ↔ (normalize_id email ≡ pattern)
unfolding match_email_pattern
literal_rule_iff pattern email n h =
    let (some_char, plain) = email-Plain pattern h in
    let same = normalize_id-eq pattern plain in
    let iff = match_glob_iff pattern email in
    (
      λ m. Globs-literal-eq (rw same at (iff.0 m).2) n,
      λ q. iff.1 (rw same some_char, rw q some_char, rw (same, q) (Globs-self pattern n)),
    )

email_re_of_validate : (e : Text) → validate_email e ≡ ok tt → email_re e ≡ true
unfolding validate_email
email_re_of_validate e h = ground arith

-- An accepted pattern rule is "*@" before a domain, and then matches exactly the addresses that end in
-- "@" and that domain; or it is an accepted address, and matches that address alone. Case and
-- surrounding spaces of the matched address make no difference.
pub validate_pattern_means :
    (pattern : Text)
    → validate_pattern pattern ≡ ok tt
    → ((d : Text) × (pattern ≡ codes "*@" ++ d)
        × (domain_re d ≡ true)
        × ((email : Text)
            → (match_email_pattern pattern email ≡ true) ↔ InDomain d (normalize_id email)))
      ⊎ (validate_email pattern ≡ ok tt)
        × ((email : Text)
            → (match_email_pattern pattern email ≡ true) ↔ (normalize_id email ≡ pattern))
unfolding validate_pattern
validate_pattern_means pattern h = elim (Option-cases (cut_prefix (codes "*@") pattern)) [
  | inr (d, q) ↦
      let shape = append_of_cut_prefix (codes "*@") pattern d q in
      let domain : domain_re d ≡ true = ground arith in
      inl (d, shape, domain, rw shape (λ email. domain_rule_iff d email domain))
  | inl q ↦
      let valid : validate_email pattern ≡ ok tt = ground arith in
      let free : ¬ Memᴰ star pattern = ground (arith, contains_iff pattern star) in
      inr (valid, λ email. literal_rule_iff pattern email free (email_re_of_validate pattern valid))
]
