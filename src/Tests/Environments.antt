-- ===== src/Tests/Environments.antt =====
-- Actions of an environment, its receipt, its rollback and its review.
use rehearsal_db.Common.{
  Number, max_safe_integer, nat, other, ℕ, ◌≡◌, refl, ◌⊎◌, ◌↔◌, true, false, List, [], ◌∷◌, Option,
  none, some, Result, ok, err, Bool, ◌&&◌, Text, text_eq, codes, All, ◌==◌, any, ◌≤◌, if◌then◌else◌,
}
use rehearsal_db.Environments.Lifecycle.{
  Operation, reset, migrate, failed, is_destructive, operations_of, replaces_data,
  run_runtime_lifecycle, run_runtime_lifecycle-protected, run_runtime_lifecycle-eq-ok_iff,
}
use rehearsal_db.Environments.Markers.{
  has_matching_runtime_marker, has_matching_runtime_marker_iff, with_owned_runtime_rollback,
  with_owned_runtime_rollback_lem, IsRolledBack, operate, checkpoint, rollback, both,
  assert_candidate_confirmation, mismatch,
}
use rehearsal_db.Environments.Review.{
  Observed, due, evaluate_observable_environment_review, EnvironmentProvenance,
  EnvironmentClassification, classify_configured_environment, observable_container_time, is_running,
  observable_cutoff_exceeded,
}
use rehearsal_db.Environments.Review.Times.{IsOld}
use rehearsal_db.Environments.Review.Cutoff.{
  IsKnown, evaluate_observable_environment_review-due_iff,
}

-- The second operation of a run throws 7.
abbrev perform : Operation → Result ℕ (Unit {0})
perform migrate = err 7
perform _ = ok tt

run_test :
    run_runtime_lifecycle perform false (codes "run") ≡ (reset ∷ migrate ∷ [], err (failed 7))
unfolding run_runtime_lifecycle text_eq
run_test = refl

run_runtime_lifecycle-protected_example :
    All (λ o. is_destructive o ≡ false) (run_runtime_lifecycle perform true (codes "start")).0
run_runtime_lifecycle-protected_example = run_runtime_lifecycle-protected perform (codes "start")

run_runtime_lifecycle-eq-ok_iff_example :
    ((run_runtime_lifecycle perform true (codes "verify")).1 ≡ ok tt) ↔ (
      (os : List Operation) × (operations_of (codes "verify") ≡ some os)
      × ((true && replaces_data (codes "verify")) ≡ false)
      × All (λ o. perform o ≡ ok tt) os)
run_runtime_lifecycle-eq-ok_iff_example =
    run_runtime_lifecycle-eq-ok_iff perform true (codes "verify")

abbrev marker : Text → ℕ
marker k = if text_eq k (codes "port") then 5432 else 0

abbrev read : Result ℕ (Option (Text → ℕ))
read = ok (some marker)

abbrev expected : List (Text × ℕ)
expected = (codes "port", 5432) ∷ []

abbrev accept : (Text → ℕ) → Result ℕ Bool
accept m = ok true

marker_test : has_matching_runtime_marker (λ m n. m == n) read expected accept ≡ true
unfolding has_matching_runtime_marker text_eq
marker_test = refl

has_matching_runtime_marker_iff_example :
    (has_matching_runtime_marker (λ m n. m == n) read expected accept ≡ true) ↔ (
      (m : Text → ℕ) × (read ≡ ok (some m))
      × All (λ e. (m e.0 == e.1) ≡ true) expected
      × (accept m ≡ ok true))
has_matching_runtime_marker_iff_example =
    has_matching_runtime_marker_iff (λ m n. m == n) read expected accept

confirmation_test : assert_candidate_confirmation 2 (codes "ab") none true ≡ err mismatch
unfolding assert_candidate_confirmation
confirmation_test = refl

abbrev operation : Result ℕ Bool
operation = ok true

abbrev cancelled : Result ℕ (Unit {0})
cancelled = err 1

abbrev rolled : Result ℕ (Unit {0})
rolled = err 2

rollback_test :
    with_owned_runtime_rollback operation cancelled rolled
    ≡ (operate ∷ checkpoint ∷ rollback ∷ [], err (both 1 2))
unfolding with_owned_runtime_rollback
rollback_test = refl

with_owned_runtime_rollback_lem_example :
    ((a : Bool) × (operation ≡ ok a)
      × (cancelled ≡ ok tt)
      × (with_owned_runtime_rollback operation cancelled rolled
          ≡ (operate ∷ checkpoint ∷ [], ok a)))
    ⊎ ((e : ℕ) × ((operation ≡ err e) ⊎ (((a : Bool) × (operation ≡ ok a)) × (cancelled ≡ err e)))
        × IsRolledBack e rolled (with_owned_runtime_rollback operation cancelled rolled))
with_owned_runtime_rollback_lem_example = with_owned_runtime_rollback_lem operation cancelled rolled

-- A time is written as one unit, its milliseconds.
abbrev pub parse : Text → Option ℕ
parse [] = none
parse (c ∷ s) = some c

abbrev containers : List Observed
containers =
    record { running = some true; started_at = some (4000 ∷ []); finished_at = none }
    ∷ record { running = some false; started_at = some (1000 ∷ []); finished_at = some (3000 ∷ []) }
    ∷ []

abbrev cutoff : Option Number
cutoff = some (nat 5)

abbrev today : Option ℕ
today = some 9000

due_test : evaluate_observable_environment_review parse true cutoff containers today ≡ record {
  state = due;
  reason = observable_cutoff_exceeded;
  stale_after_seconds = cutoff;
  last_observable_activity_at = some (4000 ∷ []);
}
unfolding evaluate_observable_environment_review observable_container_time
due_test = refl

evaluate_observable_environment_review-due_iff_example :
    ((evaluate_observable_environment_review parse true cutoff containers today).state ≡ due) ↔ (
      (true ≡ true)
      × (c : ℕ) × (cutoff ≡ some (nat c))
      × (1 ≤ c)
      × (c ≤ max_safe_integer)
      × (t : ℕ) × (today ≡ some t)
      × (any (λ (x : Observed). is_running x.running) containers ≡ true)
      × All (IsKnown parse t) containers
      × All (λ x. IsOld parse t c x.started_at × IsOld parse t c x.finished_at) containers)
evaluate_observable_environment_review-due_iff_example =
    evaluate_observable_environment_review-due_iff parse true cutoff containers today

abbrev provenance : EnvironmentProvenance
provenance = record { is_invalid = false; runtime = some false }

-- The volumes were not counted.
abbrev classified : EnvironmentClassification
classified =
    classify_configured_environment parse true (nat 2) other provenance true cutoff containers today
