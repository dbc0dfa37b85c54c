-- ===== src/Common/Glob.antt =====
-- internal/common/pattern.go: globs. The regular expression that the code builds is anchored, has
-- `.*` for each "*" and each other character literally; `.` takes any character but a newline.
pub mod Meaning
use role_provider_service.Base.{
  ℕ, Bool, true, false, not, ◌&&◌, ◌||◌, List, [], ◌∷◌, if◌then◌else◌, ◌==◌, nat_eq, Text, is_empty,
}
use role_provider_service.Common.Strings.{to_lower, trim_space}

abbrev pub star : ℕ
star = b'*'

abbrev pub newline : ℕ
newline = 10

-- `.*` and then what `rest` accepts.
star_match : (Text → Bool) → Text → Bool
star_match rest [] = rest []
star_match rest (c ∷ s) = rest (c ∷ s) || (not (c == newline) && star_match rest s)

literal_match : ℕ → (Text → Bool) → Text → Bool
literal_match p rest [] = false
literal_match p rest (c ∷ s) = (c == p) && rest s

-- What the compiled expression answers.
unfoldable pub glob_match : Text → Text → Bool
unfolding star_match literal_match
glob_match [] s = is_empty s
glob_match (p ∷ ps) s =
    if p == star then star_match (glob_match ps) s else literal_match p (glob_match ps) s

unfoldable pub match_glob : Text → Text → Bool
unfolding glob_match trim_space
match_glob pattern s =
    let p = to_lower (trim_space pattern) in
    let e = to_lower (trim_space s) in if is_empty p || is_empty e then false else glob_match p e

unfoldable pub match_email_pattern : Text → Text → Bool
unfolding match_glob
match_email_pattern pattern email = match_glob pattern email
