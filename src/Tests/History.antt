-- ===== src/Tests/History.antt =====
-- Two migrations, of which the first is applied in the source database.
use rehearsal_db.Common.{
  true, is_sha256, inl, inr, ◌<◌, ◌≡◌, refl, ◌↔◌, List, [], ◌∷◌, map, Option, none, some, ok, err,
  Text, codes, arith, All, take, drop, length, text_eq, text_lt,
}
use rehearsal_db.Migrations.History.{
  duplicate_migration, not_increasing, MigrationHistoryEntry, MigrationFileEntry,
  MigrationLedgerEntry, MigrationReplayEntry, MigrationReplayReceipt, Comparison,
  assert_ordered_unique_history, file_version, ledger_version, create_migration_replay_receipt,
  compare_source_to_replay, read_migration_source_bundle,
  assert_no_cross_database_migration_versions, is_version, same_entry, same_statements,
  replay_entries, replay_entry, compare_loop, last_version, bundle_loop, snapshot_ok,
}
use rehearsal_db.Migrations.History.Rows.{
  LedgerRow, build_migration_ledger_inventory, normalize_newlines, normalize_statements,
}
use rehearsal_db.Migrations.History.Order.{IsIncreasing, assert_ordered_unique_history_iff}
use rehearsal_db.Migrations.History.Replay.{
  IsPairing, create_migration_replay_receipt_sound, create_migration_replay_receipt_total, file_key,
  ledger_key,
}
use rehearsal_db.Migrations.History.Compare.{
  IsComparison, compare_source_to_replay_sound, compare_source_to_replay_total,
}
use rehearsal_db.Migrations.History.Bundle.{
  IsAbsent, WithContent, bundle_file, version_of, read_migration_source_bundle_sound,
  read_migration_source_bundle_total, assert_no_cross_database_migration_versions_iff,
}
use rehearsal_db.Migrations.History.Newlines.{encode_newlines, normalize-encode_newlines}
use rehearsal_db.Migrations.History.Ledger.{RecordsAll, build_migration_ledger_inventory_sound}

abbrev first : MigrationHistoryEntry
first = record { version = codes "20260101000000"; name = codes "init" }

abbrev second : MigrationHistoryEntry
second = record { version = codes "20260102000000"; name = codes "users" }

abbrev files : List MigrationFileEntry
files =
    record { entry = first; filename = codes "1.sql"; file_sha256 = codes "aa" }
    ∷ record { entry = second; filename = codes "2.sql"; file_sha256 = codes "bb" }
    ∷ []

abbrev row1 : MigrationLedgerEntry
row1 = record { entry = first; statement_count = 1; statement_sha256 = codes "cc" }

abbrev row2 : MigrationLedgerEntry
row2 = record { entry = second; statement_count = 2; statement_sha256 = codes "dd" }

abbrev ledger : List MigrationLedgerEntry
ledger = row1 ∷ row2 ∷ []

abbrev entries : List MigrationReplayEntry
entries =
    record {
      entry = first;
      filename = codes "1.sql";
      file_sha256 = codes "aa";
      statement_count = 1;
      statement_sha256 = codes "cc";
    }
    ∷ record {
      entry = second;
      filename = codes "2.sql";
      file_sha256 = codes "bb";
      statement_count = 2;
      statement_sha256 = codes "dd";
    }
    ∷ []

abbrev digest : List MigrationReplayEntry → Text
digest es = codes "ff"

abbrev receipt : MigrationReplayReceipt
receipt = record { entries = entries; history_sha256 = codes "ff" }

files-IsIncreasing : IsIncreasing (map file_version files)
unfolding is_version text_lt
files-IsIncreasing = (refl, (refl, tt), (refl, tt, tt))

ledger-IsIncreasing : IsIncreasing (map ledger_version ledger)
unfolding is_version text_lt
ledger-IsIncreasing = (refl, (refl, tt), (refl, tt, tt))

row-IsIncreasing : IsIncreasing (map ledger_version (row1 ∷ []))
unfolding is_version
row-IsIncreasing = (refl, tt, tt)

assert_ordered_unique_history_iff_example :
    (assert_ordered_unique_history file_version files ≡ ok files)
    ↔ IsIncreasing (map file_version files)
assert_ordered_unique_history_iff_example = assert_ordered_unique_history_iff file_version files

order_tests :
    (assert_ordered_unique_history ledger_version (row2 ∷ row1 ∷ [])
      ≡ err (not_increasing first.version))
    × (assert_ordered_unique_history ledger_version (row1 ∷ row1 ∷ [])
        ≡ err (duplicate_migration first.version))
unfolding assert_ordered_unique_history is_version text_eq text_lt
order_tests = (refl, refl)

receipt_test : create_migration_replay_receipt digest files ledger ≡ ok receipt
unfolding create_migration_replay_receipt assert_ordered_unique_history is_version text_eq text_lt
    replay_entries replay_entry same_entry
receipt_test = refl

create_migration_replay_receipt_sound_example :
    IsPairing files ledger entries
    × IsIncreasing (map file_version files)
    × (codes "ff" ≡ digest entries)
create_migration_replay_receipt_sound_example =
    create_migration_replay_receipt_sound digest files ledger receipt receipt_test

create_migration_replay_receipt_total_example :
    (r : MigrationReplayReceipt) × (create_migration_replay_receipt digest files ledger ≡ ok r)
create_migration_replay_receipt_total_example =
    create_migration_replay_receipt_total digest files ledger files-IsIncreasing ledger-IsIncreasing
      refl

abbrev comparison : Comparison
comparison = record {
  cutoff = first.version;
  candidates = drop 1 entries;
  candidate_sha256 = codes "ff";
  historical_statement_differences = 0;
  snapshot_schema_sha256 = none;
}

compare_test : compare_source_to_replay digest (row1 ∷ []) receipt none ≡ ok comparison
unfolding compare_source_to_replay assert_ordered_unique_history is_version text_eq text_lt
    compare_loop same_entry same_statements last_version snapshot_ok
compare_test = refl

compare_source_to_replay_sound_example : IsComparison (row1 ∷ []) receipt none comparison
compare_source_to_replay_sound_example =
    compare_source_to_replay_sound digest (row1 ∷ []) receipt none comparison compare_test

abbrev schema_sha256 : Text
schema_sha256 = codes "0123456789abcdef0123456789abcdef0123456789abcdef0123456789abcdef"

schema_valid : snapshot_ok (some schema_sha256) ≡ true
unfolding snapshot_ok is_sha256
schema_valid = refl

compare_source_to_replay_total_example :
    (c : Comparison) × (compare_source_to_replay digest (row1 ∷ []) receipt (some schema_sha256)
      ≡ ok c)
    × (c.historical_statement_differences ≡ 0)
    × (c.candidates ≡ drop 1 entries)
    × (c.candidate_sha256 ≡ codes "ff")
    × (c.snapshot_schema_sha256 ≡ some schema_sha256)
compare_source_to_replay_total_example =
    compare_source_to_replay_total digest row1 [] receipt (some schema_sha256) row-IsIncreasing
      (omega arith) schema_valid refl

abbrev content : Text → Text
content name = codes "select 1"

abbrev bundle : List (MigrationFileEntry × Text)
bundle =
    (record { entry = first; filename = codes "1.sql"; file_sha256 = codes "aa" }, codes "select 1")
    ∷ []

bundle_test : read_migration_source_bundle content files (row1 ∷ []) ≡ ok bundle
unfolding read_migration_source_bundle assert_ordered_unique_history is_version text_eq text_lt
    bundle_loop same_entry
bundle_test = refl

read_migration_source_bundle_sound_example :
    (map bundle_file bundle ≡ take 1 files)
    × (map ledger_key (row1 ∷ []) ≡ map file_key (map bundle_file bundle))
    × All (WithContent content) bundle
    × IsIncreasing (map ledger_version (row1 ∷ []))
read_migration_source_bundle_sound_example =
    read_migration_source_bundle_sound content files (row1 ∷ []) bundle bundle_test

read_migration_source_bundle_total_example :
    (b : List (MigrationFileEntry × Text)) × (read_migration_source_bundle content files (row1 ∷ [])
      ≡ ok b)
read_migration_source_bundle_total_example =
    read_migration_source_bundle_total content files (row1 ∷ []) row-IsIncreasing refl

assert_no_cross_database_migration_versions_iff_example :
    (assert_no_cross_database_migration_versions (first ∷ []) (second ∷ []) ≡ ok tt)
    ↔ All (IsAbsent (map version_of (first ∷ []))) (map version_of (second ∷ []))
assert_no_cross_database_migration_versions_iff_example =
    assert_no_cross_database_migration_versions_iff (first ∷ []) (second ∷ [])

abbrev hash : List Text → Text
hash ts = codes "cc"

abbrev rows : List (Option LedgerRow)
rows =
    some (record {
      version = codes "20260101000000";
      name = some (codes "init");
      statements = some (some (codes "select 1") ∷ []);
    })
    ∷ []

inventory_test : build_migration_ledger_inventory hash (some rows) ≡ ok (row1 ∷ [])
unfolding build_migration_ledger_inventory assert_ordered_unique_history is_version text_eq text_lt
    normalize_statements
inventory_test = refl

build_migration_ledger_inventory_sound_example :
    (given : List (Option LedgerRow)) × (some rows ≡ some given)
    × (0 < length given)
    × RecordsAll hash given (row1 ∷ [])
    × IsIncreasing (map ledger_version (row1 ∷ []))
build_migration_ledger_inventory_sound_example =
    build_migration_ledger_inventory_sound hash (some rows) (row1 ∷ []) inventory_test

-- A lone carriage return ends each line, one of them empty.
normalize-encode_newlines_example :
    normalize_newlines (encode_newlines (13 ∷ []) ((1 ∷ []) ∷ [] ∷ (2 ∷ []) ∷ []))
    ≡ encode_newlines (10 ∷ []) ((1 ∷ []) ∷ [] ∷ (2 ∷ []) ∷ [])
normalize-encode_newlines_example =
    normalize-encode_newlines (13 ∷ []) ((1 ∷ []) ∷ [] ∷ (2 ∷ []) ∷ []) (inr (inl refl))
      (omega arith)
