-- ===== src/Sync/Csv.antt =====
-- internal/sync/csv_importer.go: `ParseCSV` over the records that the csv reader delivers, one after
-- another; where the reader fails, the list has its error.
pub mod Complete
use role_provider_service.Base.{
  ℕ, zero, suc, Bool, true, false, not, ◌&&◌, ◌||◌, List, [], ◌∷◌, ◌++◌, Option, none, some, Text,
  codes, ◌==◌, nat_eq, list_eq, if◌then◌else◌, is_empty, contains,
}
use role_provider_service.Base.Result.{Result, Error, ok, err, ◌>>=◌, ◌>>◌, guard, other}
use role_provider_service.Common.Types.{TuplePair}
use role_provider_service.Common.Token.{
  group_prefix, user_prefix, pattern_prefix, group_type, user_type, pattern_type, normalize_id,
  normalize_relation,
}
use role_provider_service.Common.Strings.{trim_space, trim_prefix, to_lower, has_prefix}
use role_provider_service.Common.Validate.{validate_tuple}
use role_provider_service.Store.Import.{Descriptions}
use role_provider_service.Sync.Checks.{put_description}

abbrev pub Record : Type 0
Record = List Text

-- `none` is the index -1: the column is absent.
pub record CsvColumns : Type 0 where
  pub group : Option ℕ
  pub member : Option ℕ
  pub description : Option ℕ
  pub relation : Option ℕ

unfoldable pub nth_cell : Record → ℕ → Text
nth_cell [] i = []
nth_cell (x ∷ xs) zero = x
nth_cell (x ∷ xs) (suc i) = nth_cell xs i

unfoldable pub cell : Record → Option ℕ → Text
unfolding nth_cell
cell r none = []
cell r (some i) = nth_cell r i

-- `strings.EqualFold` with a text of lower-case ASCII letters.
unfoldable pub equal_fold : Text → Text → Bool
equal_fold s t = to_lower s == t

unfoldable pub is_header : Record → Bool
unfolding equal_fold
is_header [] = false
is_header (x ∷ xs) =
    let first = trim_space x in
    equal_fold first (codes "group") || equal_fold first (codes "group_id")

-- One case of the switch on a column's name; `none` is the default case.
unfoldable pub set_column : ℕ → Text → CsvColumns → Option CsvColumns
set_column i name cols =
    if (name == codes "group") || (name == codes "group_id")
    then some (record cols { group = some i })
    else (if (name == codes "member") || (name == codes "user") || (name == codes "user_email")
        then some (record cols { member = some i })
        else (if name == codes "description"
            then some (record cols { description = some i })
            else (if name == codes "relation"
                then some (record cols { relation = some i })
                else (if (name == codes "name") || (name == codes "note") || is_empty name
                    then some cols
                    else none))))

unfoldable pub header_from : ℕ → CsvColumns → Record → Result CsvColumns
unfolding set_column
header_from i cols [] = ok cols
header_from i cols (name ∷ names) = elim (set_column i (to_lower (trim_space name)) cols) [
  | none ↦ err other
  | some cols' ↦ header_from (suc i) cols' names
]

unfoldable pub is_present : Option ℕ → Bool
is_present none = false
is_present (some _) = true

unfoldable pub header_columns : Record → Result CsvColumns
unfolding header_from is_present
header_columns r =
    header_from 0 (record { group = none; member = none; description = none; relation = none }) r
    >>= λ cols. guard (is_present cols.group && is_present cols.member) other >> ok cols

unfoldable pub resolve_member : Text → Text × Text
resolve_member member =
    if has_prefix user_prefix member
    then (user_type, trim_prefix user_prefix member)
    else (if has_prefix group_prefix member
        then (group_type, trim_prefix group_prefix member)
        else (if has_prefix pattern_prefix member
            then (pattern_type, trim_prefix pattern_prefix member)
            else (if contains member b'@' then (user_type, member) else (group_type, member))))

-- The columns of a file without a header.
abbrev pub plain_columns : CsvColumns
plain_columns = record { group = some 0; member = some 1; description = some 2; relation = none }

unfoldable pub tuple_of : CsvColumns → Record → TuplePair
tuple_of cols r =
    let (typ, id) = resolve_member (trim_space (cell r cols.member)) in
    record {
      group_id = normalize_id (trim_prefix group_prefix (trim_space (cell r cols.group)));
      relation = normalize_relation (trim_space (cell r cols.relation));
      member_type = typ;
      member_id = normalize_id id;
    }

-- A row without a group or without a member is skipped.
unfoldable pub names_both : CsvColumns → Record → Bool
names_both cols r =
    not (is_empty (trim_space (cell r cols.group)) || is_empty (trim_space (cell r cols.member)))

unfoldable pub describe_row : CsvColumns → Record → Descriptions → Descriptions
describe_row cols r ds =
    let desc = trim_space (cell r cols.description) in
    if is_empty desc then ds else put_description (tuple_of cols r).group_id desc ds

abbrev pub Imported : Type 0
Imported = List TuplePair × Descriptions

-- The loop, with the tuples and the descriptions so far.
unfoldable pub parse_rows : CsvColumns → List (Result Record) → Imported → Result Imported
parse_rows cols [] (ts, ds) = ok (ts, ds)
parse_rows cols (err _ ∷ rows) (ts, ds) = err other
parse_rows cols (ok r ∷ rows) (ts, ds) =
    let skip = parse_rows cols rows (ts, ds) in
    let add = parse_rows cols rows (ts ++ tuple_of cols r ∷ [], describe_row cols r ds) in
    if names_both cols r then validate_tuple (tuple_of cols r) >> add else skip

-- Excel's byte-order mark.
abbrev pub byte_order_mark : Text
byte_order_mark = 0xFEFF ∷ []

unfoldable pub without_mark : Record → Record
without_mark [] = []
without_mark (x ∷ xs) = trim_prefix byte_order_mark x ∷ xs

-- The first record: it names the columns, or is a row like the others.
unfoldable pub start : List (Result Record) → Result (CsvColumns × List (Result Record))
unfolding without_mark is_header header_columns
start [] = ok (plain_columns, [])
start (err _ ∷ rows) = err other
start (ok r ∷ rows) =
    let first = without_mark r in
    if is_header first
    then (header_columns first >>= λ cols. ok (cols, rows))
    else ok (plain_columns, ok first ∷ rows)

unfoldable pub parse_csv : List (Result Record) → Result Imported
unfolding start parse_rows
parse_csv rows = start rows >>= λ (cols, body). parse_rows cols body ([], [])
