-- ===== src/Migrations/History/Replay.antt =====
-- Receipts: migration_history.mts, createMigrationReplayReceipt.
use rehearsal_db.Common.{
  ℕ, suc, ◌≡◌, refl, ap, inl, inr, true, List, [], ◌∷◌, map, ok, Text, text_eq_iff, arith,
  Bool-cases, >>-eq-ok, >>=-eq-ok, guard, guard-eq-ok, length, and-eq-true, subst, ◌==◌, ==_iff,
}
use rehearsal_db.Migrations.History.{
  HistoryError, MigrationHistoryEntry, MigrationFileEntry, MigrationLedgerEntry,
  MigrationReplayEntry, MigrationReplayReceipt, assert_ordered_unique_history, file_version,
  ledger_version, same_entry, replay_entry, replay_entries, create_migration_replay_receipt,
}
use rehearsal_db.Migrations.History.Order.{
  IsIncreasing, ordered_of_ok, assert_ordered_unique_history_iff,
}

pub same_entry_sound : (a b : MigrationHistoryEntry) → same_entry a b ≡ true → a ≡ b
unfolding same_entry
same_entry_sound a b h =
    let (v, n) = and-eq-true _ _ h in
    let ev = (text_eq_iff a.version b.version).0 v in
    let en = (text_eq_iff a.name b.name).0 n in λ i. record { version = ev i; name = en i }

pub same_entry_self : (a : MigrationHistoryEntry) → same_entry a a ≡ true
unfolding same_entry
same_entry_self a = ground (arith, text_eq_iff a.version a.version, text_eq_iff a.name a.name)

abbrev pub file_key : MigrationFileEntry → MigrationHistoryEntry
file_key f = f.entry

abbrev pub ledger_key : MigrationLedgerEntry → MigrationHistoryEntry
ledger_key l = l.entry

abbrev pub replay_key : MigrationReplayEntry → MigrationHistoryEntry
replay_key r = r.entry

abbrev pub replay_file : MigrationReplayEntry → Text × Text
replay_file r = (r.filename, r.file_sha256)

abbrev pub file_file : MigrationFileEntry → Text × Text
file_file f = (f.filename, f.file_sha256)

abbrev pub replay_statements : MigrationReplayEntry → ℕ × Text
replay_statements r = (r.statement_count, r.statement_sha256)

abbrev pub ledger_statements : MigrationLedgerEntry → ℕ × Text
ledger_statements l = (l.statement_count, l.statement_sha256)

-- The entries pair each file with the ledger row of the same version and name.
pub record IsPairing (files : List MigrationFileEntry) (ledger : List MigrationLedgerEntry)
    (entries : List MigrationReplayEntry) : Type 0 where
  pub keys_of_files : map replay_key entries ≡ map file_key files
  pub keys_of_ledger : map replay_key entries ≡ map ledger_key ledger
  pub contents_of_files : map replay_file entries ≡ map file_file files
  pub statements_of_ledger : map replay_statements entries ≡ map ledger_statements ledger

replay_entries-IsPairing :
    (files : List MigrationFileEntry) (ledger : List MigrationLedgerEntry)
    (entries : List MigrationReplayEntry)
    → length files ≡ length ledger
    → replay_entries files ledger ≡ ok entries
    → IsPairing files ledger entries
unfolding replay_entries replay_entry
replay_entries-IsPairing [] [] entries n h =
    let e : entries ≡ [] = cc in
    rw e (record {
      keys_of_files = refl;
      keys_of_ledger = refl;
      contents_of_files = refl;
      statements_of_ledger = refl;
    })
replay_entries-IsPairing [] (l ∷ ls) entries n h = absurd (omega arith)
replay_entries-IsPairing (f ∷ fs) [] entries n h = cc
replay_entries-IsPairing (f ∷ fs) (l ∷ ls) entries n h =
    elim (Bool-cases (same_entry f.entry l.entry)) [
      | inl same ↦
          let (rest, er, eo) = >>=-eq-ok (replay_entries fs ls) _ (rw same at h) in
          let p = replay_entries-IsPairing fs ls rest (omega arith) er in
          let key = same_entry_sound f.entry l.entry same in
          let e : entries ≡ replay_entry f l ∷ rest = cc in
          rw e (record {
            keys_of_files = cc (p.keys_of_files);
            keys_of_ledger = cc (p.keys_of_ledger);
            contents_of_files = cc (p.contents_of_files);
            statements_of_ledger = cc (p.statements_of_ledger);
          })
      | inr other ↦ ground arith
    ]

replay_entries_total :
    (files : List MigrationFileEntry) (ledger : List MigrationLedgerEntry)
    → map file_key files ≡ map ledger_key ledger
    → (entries : List MigrationReplayEntry) × (replay_entries files ledger ≡ ok entries)
      × (length files ≡ length ledger)
unfolding replay_entries
replay_entries_total [] [] e = ([], refl, refl)
replay_entries_total [] (l ∷ ls) e = cc
replay_entries_total (f ∷ fs) [] e = cc
replay_entries_total (f ∷ fs) (l ∷ ls) e =
    let same : same_entry f.entry l.entry ≡ true =
      subst (λ k. same_entry f.entry k ≡ true) (cc) (same_entry_self f.entry) in
    let (rest, er, n) = replay_entries_total fs ls (cc) in
    (replay_entry f l ∷ rest, rw (same, er), ap suc n)

module _ (digest : List MigrationReplayEntry → Text) where
  -- A receipt is made only of two strictly increasing histories, and pairs them entry by entry:
  -- versions and names are those of both lists, file names and hashes those of the files,
  -- statement counts and hashes those of the ledger; its hash is the digest of these entries.
  pub create_migration_replay_receipt_sound :
      (files : List MigrationFileEntry) (ledger : List MigrationLedgerEntry)
      (r : MigrationReplayReceipt)
      → create_migration_replay_receipt digest files ledger ≡ ok r
      → IsPairing files ledger r.entries
        × IsIncreasing (map file_version files)
        × (r.history_sha256 ≡ digest r.entries)
  unfolding create_migration_replay_receipt
  create_migration_replay_receipt_sound files ledger r h =
      let (fs, e1, h1) = >>=-eq-ok (assert_ordered_unique_history file_version files) _ h in
      let (ls, e2, h2) = >>=-eq-ok (assert_ordered_unique_history ledger_version ledger) _ h1 in
      let (g, h3) =
        >>-eq-ok (guard (length files == length ledger) HistoryError.length_mismatch) _ h2 in
      let (entries, e4, h4) = >>=-eq-ok (replay_entries files ledger) _ h3 in
      let n = (==_iff (length files) (length ledger)).0 (guard-eq-ok _ _ g) in
      let er : r ≡ record { entries = entries; history_sha256 = digest entries } = cc in
      rw er (
        replay_entries-IsPairing files ledger entries n e4,
        (ordered_of_ok file_version files fs e1).1,
        refl,
      )

  -- Two strictly increasing histories with the same versions and names are always accepted.
  pub create_migration_replay_receipt_total :
      (files : List MigrationFileEntry) (ledger : List MigrationLedgerEntry)
      → IsIncreasing (map file_version files)
      → IsIncreasing (map ledger_version ledger)
      → map file_key files ≡ map ledger_key ledger
      → (r : MigrationReplayReceipt) × (create_migration_replay_receipt digest files ledger ≡ ok r)
  unfolding create_migration_replay_receipt
  create_migration_replay_receipt_total files ledger i j e =
      let (entries, er, n) = replay_entries_total files ledger e in
      (
        record { entries = entries; history_sha256 = digest entries },
        rw (
          (assert_ordered_unique_history_iff file_version files).1 i,
          (assert_ordered_unique_history_iff ledger_version ledger).1 j,
          (==_iff (length files) (length ledger)).1 n,
          er,
        ),
      )
