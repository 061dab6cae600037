-- ===== src/Migrations/History.antt =====
-- src/runtime/migrations/migration_history.mts: ordered migration histories, the replay receipt
-- and its comparison with the source database. Hashing (node:crypto over the JSON text) is the
-- parameter `digest`; labels that only name the list in a message are left out of the errors.
pub mod Rows
pub mod Order
pub mod Replay
pub mod Compare
pub mod Newlines
pub mod Ledger
pub mod Bundle
use rehearsal_db.Common.{
  ℕ, suc, ◌+◌, ◌≡◌, Bool, true, false, not, ◌&&◌, ◌||◌, Option, none, some, List, [], ◌∷◌, ◌++◌,
  map, Result, ok, err, ◌>>=◌, ◌>>◌, guard, Text, text_eq, text_lt, length, any, all, drop, keep,
  leb, ltb, ◌==◌, is_digit, is_sha256, if◌then◌else◌,
}

pub data HistoryError : Type 0 where
  invalid_version : Text → HistoryError
  duplicate_migration : Text → HistoryError
  not_increasing : Text → HistoryError
  absent_from_source : HistoryError
  source_mismatch : Text → Text → HistoryError
  ledger_empty : HistoryError
  invalid_row : HistoryError
  no_statements : HistoryError
  statement_not_text : HistoryError
  length_mismatch : HistoryError
  replay_mismatch : Text → HistoryError
  receipt_invalid : HistoryError
  absent_from_replay : HistoryError
  snapshot_invalid : HistoryError
  not_replay_prefix : Text → HistoryError
  statement_content_differs : Text → HistoryError
  -- The `TypeError` of `sourceLedger.at(-1)!.version` on an empty ledger.
  no_last_entry : HistoryError
  versions_collide : List Text → HistoryError

pub record MigrationHistoryEntry : Type 0 where
  pub version : Text
  pub name : Text

pub record MigrationFileEntry : Type 0 where
  pub entry : MigrationHistoryEntry
  pub open entry use *
  pub filename : Text
  pub file_sha256 : Text

pub record MigrationLedgerEntry : Type 0 where
  pub entry : MigrationHistoryEntry
  pub open entry use *
  pub statement_count : ℕ
  pub statement_sha256 : Text

pub record MigrationReplayEntry : Type 0 where
  pub entry : MigrationHistoryEntry
  pub open entry use *
  pub filename : Text
  pub file_sha256 : Text
  pub statement_count : ℕ
  pub statement_sha256 : Text

pub record MigrationReplayReceipt : Type 0 where
  pub entries : List MigrationReplayEntry
  pub history_sha256 : Text

-- `/^\d{14}$/u`
unfoldable pub is_version : Text → Bool
unfolding is_digit
is_version v = (length v == 14) && all is_digit v

-- `previous !== null && entry.version <= previous`
abbrev pub not_after : Option Text → Text → Bool
not_after none v = false
not_after (some p) v = text_lt v p || text_eq v p

-- The loop of `assertOrderedUniqueHistory`, over the versions of the entries.
unfoldable pub ordered_from : List Text → Option Text → List Text → Result HistoryError (Unit {0})
ordered_from seen previous [] = ok tt
ordered_from seen previous (v ∷ vs) =
    let rest = ordered_from (v ∷ seen) (some v) vs in
    if not (is_version v)
    then err (invalid_version v)
    else if any (text_eq v) seen
    then err (duplicate_migration v)
    else if not_after previous v
    then err (not_increasing v)
    else rest

abbrev pub file_version : MigrationFileEntry → Text
file_version f = f.version

abbrev pub ledger_version : MigrationLedgerEntry → Text
ledger_version l = l.version

unfoldable pub assert_ordered_unique_history {ℓ} :
    {A : Type ℓ} → (A → Text) → List A → Result HistoryError (List A)
unfolding ordered_from
assert_ordered_unique_history version entries =
    ordered_from [] none (map version entries) >> ok entries

-- `source.version !== file.version || source.name !== file.name`, negated.
unfoldable pub same_entry : MigrationHistoryEntry → MigrationHistoryEntry → Bool
same_entry a b = text_eq a.version b.version && text_eq a.name b.name

-- The loop of `readMigrationSourceBundle`; `content` is what `readFile` gives for a file name.
unfoldable pub bundle_loop :
    (Text → Text)
    → List MigrationLedgerEntry
    → List MigrationFileEntry
    → Result HistoryError (List (MigrationFileEntry × Text))
bundle_loop content [] files = ok []
bundle_loop content (s ∷ ss) [] = err absent_from_source
bundle_loop content (s ∷ ss) (f ∷ fs) =
    if same_entry s.entry f.entry
    then (bundle_loop content ss fs >>= (λ rest. ok ((f, content f.filename) ∷ rest)))
    else err (source_mismatch s.version f.filename)

unfoldable pub read_migration_source_bundle :
    (Text → Text)
    → List MigrationFileEntry
    → List MigrationLedgerEntry
    → Result HistoryError (List (MigrationFileEntry × Text))
unfolding bundle_loop
read_migration_source_bundle content inventory source_ledger = do
  _ ← assert_ordered_unique_history ledger_version source_ledger
  guard (leb (length source_ledger) (length inventory)) absent_from_source
  bundle_loop content source_ledger inventory

unfoldable pub replay_entry : MigrationFileEntry → MigrationLedgerEntry → MigrationReplayEntry
replay_entry f l = record {
  entry = f.entry;
  filename = f.filename;
  file_sha256 = f.file_sha256;
  statement_count = l.statement_count;
  statement_sha256 = l.statement_sha256;
}

-- The `files.map` of `createMigrationReplayReceipt`, whose lists have one length by then.
unfoldable pub replay_entries :
    List MigrationFileEntry
    → List MigrationLedgerEntry
    → Result HistoryError (List MigrationReplayEntry)
replay_entries [] ledger = ok []
replay_entries (f ∷ fs) [] = err length_mismatch
replay_entries (f ∷ fs) (l ∷ ls) =
    if same_entry f.entry l.entry
    then (replay_entries fs ls >>= (λ rest. ok (replay_entry f l ∷ rest)))
    else err (replay_mismatch f.filename)

module _ (digest : List MigrationReplayEntry → Text) where
  unfoldable pub create_migration_replay_receipt :
      List MigrationFileEntry
      → List MigrationLedgerEntry
      → Result HistoryError MigrationReplayReceipt
  create_migration_replay_receipt files ledger = do
    _ ← assert_ordered_unique_history file_version files
    _ ← assert_ordered_unique_history ledger_version ledger
    guard (length files == length ledger) length_mismatch
    entries ← replay_entries files ledger
    ok (record { entries = entries; history_sha256 = digest entries })

-- `source.statementCount !== … || source.statementSha256 !== …`, negated.
unfoldable pub same_statements : MigrationLedgerEntry → MigrationReplayEntry → Bool
same_statements s r =
    (s.statement_count == r.statement_count) && text_eq s.statement_sha256 r.statement_sha256

-- The loop of `compareSourceToReplay`: the number of historical differences.
unfoldable pub compare_loop :
    Bool → List MigrationLedgerEntry → List MigrationReplayEntry → Result HistoryError ℕ
compare_loop snapshot_backed [] replayed = ok 0
compare_loop snapshot_backed (s ∷ ss) [] = err absent_from_replay
compare_loop snapshot_backed (s ∷ ss) (r ∷ rs) =
    let rest = compare_loop snapshot_backed ss rs in
    if same_entry s.entry r.entry
    then (if same_statements s r
        then rest
        else if snapshot_backed
        then (rest >>= (λ n. ok (suc n)))
        else err (statement_content_differs s.version))
    else err (not_replay_prefix s.version)

-- `sourceLedger.at(-1)!.version`
unfoldable pub last_version : List MigrationLedgerEntry → Option Text
last_version [] = none
last_version (s ∷ []) = some s.version
last_version (s ∷ t ∷ ss) = last_version (t ∷ ss)

unfoldable pub snapshot_ok : Option Text → Bool
snapshot_ok none = true
snapshot_ok (some s) = is_sha256 s

abbrev pub is_given : Option Text → Bool
is_given none = false
is_given (some s) = true

abbrev pub or_fail {ℓ} : {A : Type ℓ} → HistoryError → Option A → Result HistoryError A
or_fail e none = err e
or_fail e (some a) = ok a

pub record Comparison : Type 0 where
  pub cutoff : Text
  pub candidates : List MigrationReplayEntry
  pub candidate_sha256 : Text
  pub historical_statement_differences : ℕ
  pub snapshot_schema_sha256 : Option Text

module _ (digest : List MigrationReplayEntry → Text) where
  unfoldable pub compare_source_to_replay :
      List MigrationLedgerEntry
      → MigrationReplayReceipt
      → Option Text
      → Result HistoryError Comparison
  compare_source_to_replay source_ledger receipt snapshot = do
    _ ← assert_ordered_unique_history ledger_version source_ledger
    guard (ltb 0 (length receipt.entries) && ltb 0 (length receipt.history_sha256)) receipt_invalid
    guard (leb (length source_ledger) (length receipt.entries)) absent_from_replay
    guard (snapshot_ok snapshot) snapshot_invalid
    differences ← compare_loop (is_given snapshot) source_ledger receipt.entries
    cutoff ← or_fail no_last_entry (last_version source_ledger)
    ok (record {
      cutoff = cutoff;
      candidates = drop (length source_ledger) receipt.entries;
      candidate_sha256 = digest (drop (length source_ledger) receipt.entries);
      historical_statement_differences = differences;
      snapshot_schema_sha256 = snapshot;
    })

-- The versions of both databases; a collision is an API version that the application has too.
unfoldable pub collisions : List Text → List Text → List Text
collisions application api = keep (λ v. any (text_eq v) application) api

unfoldable pub assert_no_cross_database_migration_versions :
    List MigrationHistoryEntry → List MigrationHistoryEntry → Result HistoryError (Unit {0})
unfolding collisions
assert_no_cross_database_migration_versions application api =
    let found = collisions (map (λ e. e.version) application) (map (λ e. e.version) api) in
    guard (length found == 0) (versions_collide found)
