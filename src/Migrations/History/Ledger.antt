-- ===== src/Migrations/History/Ledger.antt =====
-- The ledger of applied migrations: migration_history.mts, buildMigrationLedgerInventory.
use rehearsal_db.Common.{
  suc, ◌<◌, ◌≡◌, refl, ap, Option, none, some, List, [], ◌∷◌, map, ok, Text, arith, >>=-eq-ok,
  length, subst,
}
use rehearsal_db.Migrations.History.{MigrationLedgerEntry, ledger_version}
use rehearsal_db.Migrations.History.Rows.{
  LedgerRow, normalize_statement, normalize_statements, ledger_entry, ledger_entries,
  build_migration_ledger_inventory, filled, named,
}
use rehearsal_db.Migrations.History.Order.{IsIncreasing, ordered_of_ok}

-- A row, read without its errors: what the entry made of it must hold.
pub record Records (hash : List Text → Text) (row : LedgerRow) (e : MigrationLedgerEntry)
    : Type 0 where
  pub version : row.version ≡ e.version
  pub name : row.name ≡ some e.name
  pub statements : List Text
  pub applied :
      (given : List (Option Text)) × (row.statements ≡ some given)
      × (normalize_statements given ≡ ok statements)
  pub some_applied : 0 < length statements
  pub count : e.statement_count ≡ length statements
  pub hashed : e.statement_sha256 ≡ hash statements

abbrev pub RecordsRow : (List Text → Text) → Option LedgerRow → MigrationLedgerEntry → Type 0
RecordsRow hash none e = ⊥
RecordsRow hash (some row) e = Records hash row e

abbrev pub RecordsAll :
    (List Text → Text) → List (Option LedgerRow) → List MigrationLedgerEntry → Type 0
RecordsAll hash [] [] = Unit
RecordsAll hash (r ∷ rs) (e ∷ es) = RecordsRow hash r e × RecordsAll hash rs es
RecordsAll hash _ _ = ⊥

filled-eq-ok :
    (o : Option (List (Option Text))) {l : List (Option Text)}
    → filled o ≡ ok l
    → (o ≡ some l) × (0 < length l)
filled-eq-ok none h = cc
filled-eq-ok (some []) h = cc
filled-eq-ok (some (s ∷ ss)) h =
    let e : s ∷ ss ≡ _ = ground arith in (ap some e, subst (λ l. 0 < length l) e (omega arith))

length-normalize_statements :
    (given : List (Option Text)) (out : List Text)
    → normalize_statements given ≡ ok out
    → length out ≡ length given
unfolding normalize_statements
length-normalize_statements [] out h = let e : out ≡ [] = cc in rw e
length-normalize_statements (s ∷ ss) out h =
    let (t, _, h1) = >>=-eq-ok (normalize_statement s) _ h in
    let (ts, ets, h2) = >>=-eq-ok (normalize_statements ss) _ h1 in
    let e : out ≡ t ∷ ts = cc in rw e (ap suc (length-normalize_statements ss ts ets))

module _ (hash : List Text → Text) where
  ledger_entry-Records :
      (row : LedgerRow) (e : MigrationLedgerEntry)
      → ledger_entry hash (some row) ≡ ok e
      → Records hash row e
  unfolding ledger_entry
  ledger_entry-Records row e h =
      let (name, en, h1) = >>=-eq-ok (named row.name) _ h in
      let (given, eg, h2) = >>=-eq-ok (filled row.statements) _ h1 in
      let (statements, es, h3) = >>=-eq-ok (normalize_statements given) _ h2 in
      let (given_eq, given_pos) = filled-eq-ok row.statements eg in
      record {
        version = ground arith;
        name = ground arith;
        statements = statements;
        applied = (given, given_eq, es);
        some_applied = omega (arith, length-normalize_statements given statements es);
        count = ground arith;
        hashed = ground arith;
      }

  ledger_entries-Records :
      (rows : List (Option LedgerRow)) (es : List MigrationLedgerEntry)
      → ledger_entries hash rows ≡ ok es
      → RecordsAll hash rows es
  unfolding ledger_entries
  ledger_entries-Records [] es h = let e : es ≡ [] = cc in rw e tt
  ledger_entries-Records (none ∷ rs) es h = unfold ledger_entry in cc
  ledger_entries-Records (some row ∷ rs) es h =
      let (e, ee, h1) = >>=-eq-ok (ledger_entry hash (some row)) _ h in
      let (rest, er, h2) = >>=-eq-ok (ledger_entries hash rs) _ h1 in
      let same : es ≡ e ∷ rest = cc in
      rw same (ledger_entry-Records row e ee, ledger_entries-Records rs rest er)

  -- An accepted inventory is nonempty, records each row in order (its version, name, the number of
  -- its statements, at least one, and the hash of their normalized texts), and is increasing.
  pub build_migration_ledger_inventory_sound :
      (rows : Option (List (Option LedgerRow))) (es : List MigrationLedgerEntry)
      → build_migration_ledger_inventory hash rows ≡ ok es
      → (given : List (Option LedgerRow)) × (rows ≡ some given)
        × (0 < length given)
        × RecordsAll hash given es
        × IsIncreasing (map ledger_version es)
  unfolding build_migration_ledger_inventory
  build_migration_ledger_inventory_sound none es h = cc
  build_migration_ledger_inventory_sound (some []) es h = cc
  build_migration_ledger_inventory_sound (some (r ∷ rs)) es h =
      let (found, ef, h1) = >>=-eq-ok (ledger_entries hash (r ∷ rs)) _ h in
      let (same, increasing) = ordered_of_ok ledger_version found es h1 in
      (
        r ∷ rs,
        refl,
        omega arith,
        rw same (ledger_entries-Records (r ∷ rs) found ef),
        rw same increasing,
      )
