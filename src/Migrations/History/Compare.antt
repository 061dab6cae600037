-- ===== src/Migrations/History/Compare.antt =====
-- The source database against a receipt: migration_history.mts, compareSourceToReplay.
use rehearsal_db.Common.{
  ℕ, suc, ◌<◌, ◌≤◌, ◌≡◌, refl, ap, ◌∙◌, inl, inr, Bool, true, false, Option, none, some, List, [],
  ◌∷◌, ◌++◌, map, ok, Text, text_eq_iff, All, arith, Bool-cases, >>-eq-ok, >>=-eq-ok, guard, ◌>>=◌,
  length, drop, ◌&&◌, leb, ltb, subst, lt→ltb, le→leb, if◌then◌else◌,
}
use rehearsal_db.Migrations.History.{
  HistoryError, MigrationHistoryEntry, MigrationLedgerEntry, MigrationReplayEntry,
  MigrationReplayReceipt, Comparison, assert_ordered_unique_history, ledger_version, same_entry,
  same_statements, compare_loop, compare_source_to_replay, last_version, or_fail, snapshot_ok,
  is_given,
}
use rehearsal_db.Migrations.History.Order.{
  IsIncreasing, IsBefore, assert_ordered_unique_history_iff,
}
use rehearsal_db.Migrations.History.Replay.{
  same_entry_sound, same_entry_self, ledger_key, replay_key,
}

or_fail-eq-ok {ℓ} :
    {A : Type ℓ} (e : HistoryError) (o : Option A) {a : A} → or_fail e o ≡ ok a → o ≡ some a
or_fail-eq-ok e none h = cc
or_fail-eq-ok e (some b) h = cc

-- The positions at which the statements of the two histories differ, counted.
abbrev pub differences : List MigrationLedgerEntry → List MigrationReplayEntry → ℕ
differences [] rs = 0
differences (s ∷ ss) [] = 0
differences (s ∷ ss) (r ∷ rs) =
    if same_statements s r then differences ss rs else suc (differences ss rs)

compare_loop_sound :
    (backed : Bool) (ss : List MigrationLedgerEntry) (rs : List MigrationReplayEntry) (n : ℕ)
    → compare_loop backed ss rs ≡ ok n
    → (map ledger_key ss ++ map replay_key (drop (length ss) rs) ≡ map replay_key rs)
      × (n ≡ differences ss rs)
unfolding compare_loop
compare_loop_sound backed [] rs n h = (refl, cc)
compare_loop_sound backed (s ∷ ss) [] n h = cc
compare_loop_sound backed (s ∷ ss) (r ∷ rs) n h = elim (Bool-cases (same_entry s.entry r.entry)) [
  | inl same ↦
      let key = same_entry_sound s.entry r.entry same in
      elim (Bool-cases (same_statements s r)) [
        | inl equal ↦
            let (prefix, count) = compare_loop_sound backed ss rs n (ground arith) in
            (cc (key, prefix), rw equal count)
        | inr differ ↦ elim (Bool-cases backed) [
          | inl snapshot ↦
              let counting : (compare_loop backed ss rs >>= (λ k. ok (suc k))) ≡ ok n =
                ground arith in
              let (m, em, en) = >>=-eq-ok (compare_loop backed ss rs) (λ k. ok (suc k)) counting in
              let (prefix, count) = compare_loop_sound backed ss rs m em in
              (cc (key, prefix), ground arith)
          | inr strict ↦ ground arith
        ]
      ]
  | inr other ↦ ground arith
]

-- Without a snapshot a difference is refused.
compare_loop_strict :
    (ss : List MigrationLedgerEntry) (rs : List MigrationReplayEntry) (n : ℕ)
    → compare_loop false ss rs ≡ ok n
    → n ≡ 0
unfolding compare_loop
compare_loop_strict [] rs n h = cc
compare_loop_strict (s ∷ ss) [] n h = cc
compare_loop_strict (s ∷ ss) (r ∷ rs) n h = ground (arith, compare_loop_strict ss rs n)

abbrev ledger_pair : MigrationLedgerEntry → MigrationHistoryEntry × ℕ × Text
ledger_pair s = (s.entry, s.statement_count, s.statement_sha256)

abbrev replay_pair : MigrationReplayEntry → MigrationHistoryEntry × ℕ × Text
replay_pair r = (r.entry, r.statement_count, r.statement_sha256)

-- The source history, statements included, is an initial part of the replay.
abbrev pub IsReplayPrefix : List MigrationLedgerEntry → List MigrationReplayEntry → Type 0
IsReplayPrefix ss rs =
    map ledger_pair ss ++ map replay_pair (drop (length ss) rs) ≡ map replay_pair rs

same_statements_of_eq :
    (s : MigrationLedgerEntry) (r : MigrationReplayEntry)
    → s.statement_count ≡ r.statement_count
    → s.statement_sha256 ≡ r.statement_sha256
    → same_statements s r ≡ true
unfolding same_statements
same_statements_of_eq s r n t = ground (arith, text_eq_iff s.statement_sha256 r.statement_sha256)

compare_loop_total :
    (backed : Bool) (ss : List MigrationLedgerEntry) (rs : List MigrationReplayEntry)
    → IsReplayPrefix ss rs
    → (compare_loop backed ss rs ≡ ok 0) × (length ss ≤ length rs)
unfolding compare_loop
compare_loop_total backed [] rs h = (refl, omega arith)
compare_loop_total backed (s ∷ ss) [] h = cc
compare_loop_total backed (s ∷ ss) (r ∷ rs) h =
    let same : same_entry s.entry r.entry ≡ true =
      subst (λ k. same_entry s.entry k ≡ true) (cc) (same_entry_self s.entry) in
    let equal = same_statements_of_eq s r (cc) (cc) in
    let (rest, n) = compare_loop_total backed ss rs (cc) in (rw (same, equal) rest, omega arith)

abbrev pub replay_version : MigrationReplayEntry → Text
replay_version r = r.version

last_version_of_cons :
    (s : MigrationLedgerEntry) (ss : List MigrationLedgerEntry)
    → (v : Text) × (last_version (s ∷ ss) ≡ some v)
unfolding last_version
last_version_of_cons s [] = (s.version, refl)
last_version_of_cons s (t ∷ ss) = last_version_of_cons t ss

All-append_right : (P : Text → Type 0) (xs ys : List Text) → All P (xs ++ ys) → All P ys
All-append_right P [] ys h = h
All-append_right P (x ∷ xs) ys (p, h) = All-append_right P xs ys h

after_last :
    (ss : List MigrationLedgerEntry) (vs : List Text) (cutoff : Text)
    → last_version ss ≡ some cutoff
    → IsIncreasing (map ledger_version ss ++ vs)
    → All (IsBefore cutoff) vs
unfolding last_version
after_last [] vs cutoff e i = cc
after_last (s ∷ []) vs cutoff e (valid, later, i) =
    let same : s.version ≡ cutoff = ground arith in subst (λ v. All (IsBefore v) vs) same later
after_last (s ∷ t ∷ ss) vs cutoff e (valid, later, i) = after_last (t ∷ ss) vs cutoff e i

versions_of_keys :
    (ss : List MigrationLedgerEntry) (cs rs : List MigrationReplayEntry)
    → map ledger_key ss ++ map replay_key cs ≡ map replay_key rs
    → map ledger_version ss ++ map replay_version cs ≡ map replay_version rs
versions_of_keys [] [] [] e = refl
versions_of_keys [] [] (r ∷ rs) e = cc
versions_of_keys [] (c ∷ cs) [] e = cc
versions_of_keys [] (c ∷ cs) (r ∷ rs) e =
    let k : c.entry ≡ r.entry = cc in
    cc (ap (λ (x : MigrationHistoryEntry). x.version) k, versions_of_keys [] cs rs (cc))
versions_of_keys (s ∷ ss) cs [] e = cc
versions_of_keys (s ∷ ss) cs (r ∷ rs) e =
    let k : s.entry ≡ r.entry = cc in
    cc (ap (λ (x : MigrationHistoryEntry). x.version) k, versions_of_keys ss cs rs (cc))

pub record IsComparison (ss : List MigrationLedgerEntry) (r : MigrationReplayReceipt)
    (snapshot : Option Text) (c : Comparison) : Type 0 where
  pub prefix : map ledger_key ss ++ map replay_key c.candidates ≡ map replay_key r.entries
  pub cutoff_last : last_version ss ≡ some c.cutoff
  pub after_cutoff :
      IsIncreasing (map replay_version r.entries)
      → All (IsBefore c.cutoff) (map replay_version c.candidates)
  pub counted : c.historical_statement_differences ≡ differences ss r.entries
  pub strict : snapshot ≡ none → c.historical_statement_differences ≡ 0

module _ (digest : List MigrationReplayEntry → Text) where
  -- An accepted comparison splits the replay at the cutoff: the source history followed by the
  -- candidates is the whole replay, the cutoff is the last source version, all candidates of an
  -- increasing replay are later than it, the differences are counted exactly, and without a
  -- snapshot there are none.
  pub compare_source_to_replay_sound :
      (ss : List MigrationLedgerEntry) (r : MigrationReplayReceipt) (snapshot : Option Text)
      (c : Comparison)
      → compare_source_to_replay digest ss r snapshot ≡ ok c
      → IsComparison ss r snapshot c
  unfolding compare_source_to_replay
  compare_source_to_replay_sound ss r snapshot c h =
      let (_, _, h1) = >>=-eq-ok (assert_ordered_unique_history ledger_version ss) _ h in
      let (_, h2) =
        >>-eq-ok
          (guard (ltb 0 (length r.entries) && ltb 0 (length r.history_sha256))
            HistoryError.receipt_invalid)
          _ h1 in
      let (_, h3) =
        >>-eq-ok (guard (leb (length ss) (length r.entries)) HistoryError.absent_from_replay) _
          h2 in
      let (_, h4) = >>-eq-ok (guard (snapshot_ok snapshot) HistoryError.snapshot_invalid) _ h3 in
      let (n, en, h5) = >>=-eq-ok (compare_loop (is_given snapshot) ss r.entries) _ h4 in
      let (v, ev, h6) = >>=-eq-ok (or_fail HistoryError.no_last_entry (last_version ss)) _ h5 in
      let last = or_fail-eq-ok HistoryError.no_last_entry (last_version ss) ev in
      let (prefix, count) = compare_loop_sound (is_given snapshot) ss r.entries n en in
      let cutoff : c.cutoff ≡ v = ground arith in
      let cands : c.candidates ≡ drop (length ss) r.entries = ground arith in
      let diff : c.historical_statement_differences ≡ n = ground arith in
      record {
        prefix = rw cands prefix;
        cutoff_last = rw cutoff last;
        after_cutoff = λ i.
            rw (cutoff, cands)
              (after_last ss _ v last
                (rw (versions_of_keys ss (drop (length ss) r.entries) r.entries prefix) i));
        counted = diff ∙ count;
        strict = λ none_given.
            diff
            ∙ compare_loop_strict ss r.entries n
                (subst (λ o. compare_loop (is_given o) ss r.entries ≡ ok n) none_given en);
      }

  -- A nonempty increasing source history that is an initial part of the replay, statements
  -- included, is accepted with no difference, where the receipt has a history hash and the snapshot
  -- is not given or is a SHA-256; the rest of the replay are the candidates, with their digest.
  pub compare_source_to_replay_total :
      (s : MigrationLedgerEntry) (ss : List MigrationLedgerEntry) (r : MigrationReplayReceipt)
      (snapshot : Option Text)
      → IsIncreasing (map ledger_version (s ∷ ss))
      → 0 < length r.history_sha256
      → snapshot_ok snapshot ≡ true
      → IsReplayPrefix (s ∷ ss) r.entries
      → (c : Comparison) × (compare_source_to_replay digest (s ∷ ss) r snapshot ≡ ok c)
        × (c.historical_statement_differences ≡ 0)
        × (c.candidates ≡ drop (length (s ∷ ss)) r.entries)
        × (c.candidate_sha256 ≡ digest c.candidates)
        × (c.snapshot_schema_sha256 ≡ snapshot)
  unfolding compare_source_to_replay
  compare_source_to_replay_total s ss r snapshot i hash valid h =
      let (v, ev) = last_version_of_cons s ss in
      let (loop, n) = compare_loop_total (is_given snapshot) (s ∷ ss) r.entries h in
      (
        record {
          cutoff = v;
          candidates = drop (length (s ∷ ss)) r.entries;
          candidate_sha256 = digest (drop (length (s ∷ ss)) r.entries);
          historical_statement_differences = 0;
          snapshot_schema_sha256 = snapshot;
        },
        rw (
          (assert_ordered_unique_history_iff ledger_version (s ∷ ss)).1 i,
          lt→ltb 0 (length r.entries) (omega arith),
          lt→ltb 0 (length r.history_sha256) hash,
          le→leb (length (s ∷ ss)) (length r.entries) n,
          valid,
          loop,
          ev,
        ),
        refl,
        refl,
        refl,
        refl,
      )
