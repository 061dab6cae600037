-- ===== src/Migrations/History/Rows.antt =====
-- The rows of a ledger query: migration_history.mts, normalizeStatement and
-- buildMigrationLedgerInventory. Hashing the JSON text of the statements is a parameter.
use rehearsal_db.Common.{
  ◌&&◌, Option, none, some, List, [], ◌∷◌, Result, ok, err, ◌>>=◌, Text, length, ◌==◌,
  if◌then◌else◌,
}
use rehearsal_db.Migrations.History.{
  HistoryError, statement_not_text, no_statements, invalid_row, ledger_empty, MigrationLedgerEntry,
  ledger_version, assert_ordered_unique_history,
}

-- `statement.replaceAll("\r\n", "\n").replaceAll("\r", "\n")`; 13 is "\r" and 10 is "\n".
unfoldable pub replace_crlf : Text → Text
replace_crlf [] = []
replace_crlf (c ∷ []) = c ∷ []
replace_crlf (c ∷ d ∷ s) =
    let short = replace_crlf s in
    let long = replace_crlf (d ∷ s) in if c == 13 && d == 10 then 10 ∷ short else c ∷ long

unfoldable pub replace_cr : Text → Text
replace_cr [] = []
replace_cr (c ∷ s) = (if c == 13 then 10 else c) ∷ replace_cr s

unfoldable pub normalize_newlines : Text → Text
unfolding replace_crlf replace_cr
normalize_newlines s = replace_cr (replace_crlf s)

-- A statement of a ledger row, `none` where it is not a string.
unfoldable pub normalize_statement : Option Text → Result HistoryError Text
unfolding normalize_newlines
normalize_statement none = err statement_not_text
normalize_statement (some s) = ok (normalize_newlines s)

unfoldable pub normalize_statements : List (Option Text) → Result HistoryError (List Text)
unfolding normalize_statement
normalize_statements [] = ok []
normalize_statements (s ∷ ss) = do
  t ← normalize_statement s
  ts ← normalize_statements ss
  ok (t ∷ ts)

-- A row of the ledger query. `name` is `none` where the row has no text of that key, `statements`
-- where it has no array, and `version` is `String(row.version)` or the empty text.
pub record LedgerRow : Type 0 where
  pub version : Text
  pub name : Option Text
  pub statements : Option (List (Option Text))

abbrev pub filled : Option (List (Option Text)) → Result HistoryError (List (Option Text))
filled none = err no_statements
filled (some []) = err no_statements
filled (some (s ∷ ss)) = ok (s ∷ ss)

abbrev pub named : Option Text → Result HistoryError Text
named none = err invalid_row
named (some n) = ok n

module _ (hash_statements : List Text → Text) where
  -- The callback of `rows.map`; a row that is no object is `none`.
  unfoldable pub ledger_entry : Option LedgerRow → Result HistoryError MigrationLedgerEntry
  ledger_entry none = err invalid_row
  ledger_entry (some row) = do
    name ← named row.name
    given ← filled row.statements
    statements ← normalize_statements given
    ok (record {
      entry = record { version = row.version; name = name };
      statement_count = length statements;
      statement_sha256 = hash_statements statements;
    })

  unfoldable pub ledger_entries :
      List (Option LedgerRow) → Result HistoryError (List MigrationLedgerEntry)
  unfolding ledger_entry
  ledger_entries [] = ok []
  ledger_entries (r ∷ rs) = do e ← ledger_entry r; es ← ledger_entries rs; ok (e ∷ es)

  -- `rows` is `none` where the result is no array.
  unfoldable pub build_migration_ledger_inventory :
      Option (List (Option LedgerRow)) → Result HistoryError (List MigrationLedgerEntry)
  unfolding ledger_entries
  build_migration_ledger_inventory none = err ledger_empty
  build_migration_ledger_inventory (some []) = err ledger_empty
  build_migration_ledger_inventory (some (r ∷ rs)) = do
    entries ← ledger_entries (r ∷ rs)
    assert_ordered_unique_history ledger_version entries
