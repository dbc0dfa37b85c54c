-- ===== src/Startup/Config.antt =====
-- internal/config.go: the tokens that may only upload, as `parseSourceUploadTokens` reads them.
pub mod Confined
use role_provider_service.Base.{
  Bool, not, ◌||◌, List, [], ◌∷◌, ◌++◌, Option, none, some, Text, nat_eq, list_eq, contains,
  is_empty, if◌then◌else◌,
}
use role_provider_service.Base.Result.{Result, ok, err, ◌>>◌, guard, other}
use role_provider_service.Common.Strings.{cut, trim_space}
use role_provider_service.Web.Auth.{SourceUploadToken}

-- "<source>=<token>", neither of them blank.
unfoldable pub read_entry : Text → Option (Text × Text)
unfolding cut
read_entry e = elim (cut b'=' e) [
  | none ↦ none
  | some (source, token) ↦
      if is_empty (trim_space source) || is_empty (trim_space token)
      then none
      else some (trim_space source, trim_space token)
]

-- The loop: `taken` are the read and write tokens, `seen` the tokens of the entries before.
unfoldable pub parse_entries :
    List Text → List Text → List SourceUploadToken → List Text → Result (List SourceUploadToken)
unfolding read_entry contains
parse_entries taken seen out [] = ok out
parse_entries taken seen out (e ∷ es) = elim (read_entry e) [
  | none ↦ err other
  | some (source, token) ↦
      let rest =
        parse_entries taken (token ∷ seen) (out ++ record { source = source; token = token } ∷ [])
          es in
      guard (not (contains taken token)) other >> guard (not (contains seen token)) other >> rest
]

unfoldable pub parse_source_upload_tokens :
    List Text → List Text → List Text → Result (List SourceUploadToken)
unfolding parse_entries
parse_source_upload_tokens entries read_tokens write_tokens =
    parse_entries (read_tokens ++ write_tokens) [] [] entries
