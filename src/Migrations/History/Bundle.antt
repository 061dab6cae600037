-- ===== src/Migrations/History/Bundle.antt =====
-- Local files against the source ledger, and against a second database: migration_history.mts,
-- readMigrationSourceBundle and assertNoCrossDatabaseMigrationVersions.
use rehearsal_db.Common.{
  ◌≤◌, ◌≡◌, refl, ◌↔◌, inl, inr, true, List, [], ◌∷◌, map, ok, Text, any-text_eq_iff, All, In,
  arith, Bool-cases, >>-eq-ok, >>=-eq-ok, guard, guard-eq-ok, length, take, leb, subst, le→leb, any,
  ==_iff, text_eq,
}
use rehearsal_db.Migrations.History.{
  HistoryError, MigrationHistoryEntry, MigrationFileEntry, MigrationLedgerEntry,
  assert_ordered_unique_history, ledger_version, same_entry, bundle_loop,
  read_migration_source_bundle, collisions, assert_no_cross_database_migration_versions,
}
use rehearsal_db.Migrations.History.Order.{
  IsIncreasing, ordered_of_ok, assert_ordered_unique_history_iff,
}
use rehearsal_db.Migrations.History.Replay.{same_entry_sound, same_entry_self, ledger_key, file_key}

abbrev pub bundle_file : MigrationFileEntry × Text → MigrationFileEntry
bundle_file b = b.0

abbrev pub WithContent : (Text → Text) → MigrationFileEntry × Text → Type 0
WithContent content b = b.1 ≡ content b.0.filename

bundle_loop_sound :
    (content : Text → Text) (ss : List MigrationLedgerEntry) (fs : List MigrationFileEntry)
    (bundle : List (MigrationFileEntry × Text))
    → bundle_loop content ss fs ≡ ok bundle
    → (map bundle_file bundle ≡ take (length ss) fs)
      × (map ledger_key ss ≡ map file_key (map bundle_file bundle))
      × All (WithContent content) bundle
unfolding bundle_loop
bundle_loop_sound content [] fs bundle h = let e : bundle ≡ [] = cc in rw e (refl, refl, tt)
bundle_loop_sound content (s ∷ ss) [] bundle h = cc
bundle_loop_sound content (s ∷ ss) (f ∷ fs) bundle h =
    elim (Bool-cases (same_entry s.entry f.entry)) [
      | inl same ↦
          let (rest, er, eo) = >>=-eq-ok (bundle_loop content ss fs) _ (rw same at h) in
          let (files, keys, contents) = bundle_loop_sound content ss fs rest er in
          let key = same_entry_sound s.entry f.entry same in
          let e : bundle ≡ (f, content f.filename) ∷ rest = cc in
          rw e (cc files, cc (key, keys), (refl, contents))
      | inr other ↦ ground arith
    ]

bundle_loop_total :
    (content : Text → Text) (ss : List MigrationLedgerEntry) (fs : List MigrationFileEntry)
    → map ledger_key ss ≡ map file_key (take (length ss) fs)
    → (bundle : List (MigrationFileEntry × Text)) × (bundle_loop content ss fs ≡ ok bundle)
      × (length ss ≤ length fs)
unfolding bundle_loop
bundle_loop_total content [] fs h = ([], refl, omega arith)
bundle_loop_total content (s ∷ ss) [] h = cc
bundle_loop_total content (s ∷ ss) (f ∷ fs) h =
    let same : same_entry s.entry f.entry ≡ true =
      subst (λ k. same_entry s.entry k ≡ true) (cc) (same_entry_self s.entry) in
    let (rest, er, n) = bundle_loop_total content ss fs (cc) in
    ((f, content f.filename) ∷ rest, rw (same, er), omega arith)

-- A bundle holds the first local files, as many as the source ledger has rows, each with the
-- content read under its file name; their versions and names are the ledger's in order, and
-- strictly increasing.
pub read_migration_source_bundle_sound :
    (content : Text → Text) (inventory : List MigrationFileEntry) (ss : List MigrationLedgerEntry)
    (bundle : List (MigrationFileEntry × Text))
    → read_migration_source_bundle content inventory ss ≡ ok bundle
    → (map bundle_file bundle ≡ take (length ss) inventory)
      × (map ledger_key ss ≡ map file_key (map bundle_file bundle))
      × All (WithContent content) bundle
      × IsIncreasing (map ledger_version ss)
unfolding read_migration_source_bundle
read_migration_source_bundle_sound content inventory ss bundle h =
    let (out, eo, h1) = >>=-eq-ok (assert_ordered_unique_history ledger_version ss) _ h in
    let (_, h2) =
      >>-eq-ok (guard (leb (length ss) (length inventory)) HistoryError.absent_from_source) _ h1 in
    let (files, keys, contents) = bundle_loop_sound content ss inventory bundle h2 in
    (files, keys, contents, (ordered_of_ok ledger_version ss out eo).1)

-- An increasing ledger whose rows are the versions and names of the first local files is bundled.
pub read_migration_source_bundle_total :
    (content : Text → Text) (inventory : List MigrationFileEntry) (ss : List MigrationLedgerEntry)
    → IsIncreasing (map ledger_version ss)
    → map ledger_key ss ≡ map file_key (take (length ss) inventory)
    → (bundle : List (MigrationFileEntry × Text)) × (read_migration_source_bundle content inventory
          ss
        ≡ ok bundle)
unfolding read_migration_source_bundle
read_migration_source_bundle_total content inventory ss i h =
    let (bundle, eb, n) = bundle_loop_total content ss inventory h in
    (
      bundle,
      rw
          (
            (assert_ordered_unique_history_iff ledger_version ss).1 i,
            le→leb (length ss) (length inventory) n,
          )
          eb,
    )

abbrev pub IsAbsent : List Text → Text → Type 0
IsAbsent vs v = ¬ In v vs

collisions_none : (vs ws : List Text) → length (collisions vs ws) ≡ 0 → All (IsAbsent vs) ws
unfolding collisions
collisions_none vs [] h = tt
collisions_none vs (w ∷ ws) h = elim (Bool-cases (any (text_eq w) vs)) [
  | inl hit ↦ absurd (ground arith)
  | inr free ↦ ((λ i. cc ((any-text_eq_iff w vs).1 i)), collisions_none vs ws (ground arith))
]

collisions_absent : (vs ws : List Text) → All (IsAbsent vs) ws → collisions vs ws ≡ []
unfolding collisions
collisions_absent vs [] h = refl
collisions_absent vs (w ∷ ws) (a, h) = elim (Bool-cases (any (text_eq w) vs)) [
  | inl hit ↦ absurd (a ((any-text_eq_iff w vs).0 hit))
  | inr free ↦ ground (arith, collisions_absent vs ws h)
]

abbrev pub version_of : MigrationHistoryEntry → Text
version_of e = e.version

-- Two databases are accepted together exactly when no API version is an application version.
pub assert_no_cross_database_migration_versions_iff :
    (application api : List MigrationHistoryEntry)
    → (assert_no_cross_database_migration_versions application api ≡ ok tt)
      ↔ All (IsAbsent (map version_of application)) (map version_of api)
unfolding assert_no_cross_database_migration_versions
assert_no_cross_database_migration_versions_iff application api = (
  (λ h.
      collisions_none (map version_of application) (map version_of api)
        ((==_iff _ 0).0 (guard-eq-ok _ _ h))),
  λ a. rw (collisions_absent (map version_of application) (map version_of api) a),
)
