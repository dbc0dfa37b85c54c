-- ===== src/Sync/Csv/Complete.antt =====
-- What `ParseCSV` delivers, and which files it refuses.
use role_provider_service.Base.{◌≡◌, true, List, ◌++◌, map, nat_eq, list_eq, All, filter}
use role_provider_service.Base.Result.{Result, ok, err}
use role_provider_service.Common.Types.{TuplePair}
use role_provider_service.Common.Validate.{validate_tuple}
use role_provider_service.Sync.Csv.{Record, CsvColumns, tuple_of, names_both, Imported}

abbrev pub Valid : TuplePair → Type 0
Valid t = validate_tuple t ≡ ok tt

-- A record that can be read, and is skipped or valid.
abbrev pub Good : CsvColumns → Result Record → Type 0
Good cols (err _) = ⊥
Good cols (ok r) = names_both cols r ≡ true → Valid (tuple_of cols r)

-- The tuples of the records that name a group and a member, in their order.
abbrev pub tuples_of : CsvColumns → List Record → List TuplePair
tuples_of cols rs = map (tuple_of cols) (filter (names_both cols) rs)

record Parsed (cols : CsvColumns) (rows : List (Result Record)) (before after : Imported)
    : Type 0 where
  records : List Record
  readable : rows ≡ map ok records
  tuples : after.0 ≡ before.0 ++ tuples_of cols records
  valid : All Valid (tuples_of cols records)
