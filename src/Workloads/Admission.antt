-- ===== src/Workloads/Admission.antt =====
-- src/runtime/resources/workload_queue.mts, withWorkloadAdmission and withWorkloadDiagnostics: a
-- runtime phase runs between the acquisition and the release of the queue. What acquireWorkload,
-- the abort signal, the phase and lease.release come to are inputs; the trace lists the calls.
use rehearsal_db.Common.{
  ◌≡◌, refl, ◌≢◌, ◌⊎◌, inl, inr, ◌↔◌, Bool, true, false, Option, none, some, List, [], ◌∷◌, Result,
  ok, err, Text, arith, ◌++◌, codes,
}

-- What is thrown: a RehearsalError, any other error, the refusal that wraps one, or both errors.
pub data Thrown : Type 0 where
  rehearsal plain refused : Text → Thrown
  both : Thrown → Thrown → Thrown

pub data Call : Type 0 where
  acquire execute release : Call

-- The message of the AggregateError.
abbrev pub both_failed : Text
both_failed = codes "The runtime phase and its workload metadata release both failed."

-- `withWorkloadDiagnostics`, of the error that its task throws.
unfoldable pub with_workload_diagnostics {ℓ} : {A : Type ℓ} → Result Thrown A → Result Thrown A
with_workload_diagnostics (ok a) = ok a
with_workload_diagnostics (err (rehearsal m)) = err (rehearsal m)
with_workload_diagnostics (err (refused m)) = err (refused m)
with_workload_diagnostics (err (plain m)) = err (refused m)
with_workload_diagnostics (err (both e f)) = err (refused both_failed)

module _ {ℓ} {A : Type ℓ} where
  -- The `catch` of the phase: the lease is released, and its own failure is reported beside.
  abbrev pub failed : Thrown → Result Thrown (Unit {0}) → Result Thrown A
  failed e (ok u) = err e
  failed e (err f) = err (both e f)

  -- After the phase.
  abbrev pub finish : A → Result Thrown (Unit {0}) → Result Thrown A
  finish a (ok u) = ok a
  finish a (err f) = err f

  -- The phase, unless the signal has been aborted.
  abbrev pub phase : Option Thrown → Result Thrown A → List Call × Result Thrown A
  phase (some reason) executed = ([], err reason)
  phase none executed = (execute ∷ [], executed)

  abbrev pub leased :
      List Call × Result Thrown A → Result Thrown (Unit {0}) → List Call × Result Thrown A
  leased (calls, ok a) released =
      (acquire ∷ (calls ++ release ∷ []), finish a (with_workload_diagnostics released))
  leased (calls, err e) released = (acquire ∷ (calls ++ release ∷ []), failed e released)

  abbrev pub admitted :
      Result Thrown (Unit {0})
      → Option Thrown
      → Result Thrown A
      → Result Thrown (Unit {0})
      → List Call × Result Thrown A
  admitted (err e) aborted executed released = (acquire ∷ [], err e)
  admitted (ok u) aborted executed released = leased (phase aborted executed) released

  unfoldable pub with_workload_admission :
      Bool
      → Result Thrown (Unit {0})
      → Option Thrown
      → Result Thrown A
      → Result Thrown (Unit {0})
      → List Call × Result Thrown A
  unfolding with_workload_diagnostics
  with_workload_admission false acquired aborted executed released = (execute ∷ [], executed)
  with_workload_admission true acquired aborted executed released =
      admitted (with_workload_diagnostics acquired) aborted executed released

  -- With admission enabled, the phase runs only after the queue was acquired and at most once; the
  -- queue is released exactly when it was acquired, once, and last, whatever the phase did.
  pub with_workload_admission_released :
      (acquired : Result Thrown (Unit {0})) (aborted : Option Thrown) (executed : Result Thrown A)
      (released : Result Thrown (Unit {0}))
      → (((e : Thrown) × (acquired ≡ err e))
          × ((with_workload_admission true acquired aborted executed released).0 ≡ acquire ∷ []))
        ⊎ ((acquired ≡ ok tt)
            × (((with_workload_admission true acquired aborted executed released).0
                  ≡ acquire ∷ execute ∷ release ∷ [])
                ⊎ ((aborted ≢ none)
                    × ((with_workload_admission true acquired aborted executed released).0
                        ≡ acquire ∷ release ∷ []))))
  unfolding with_workload_admission
  with_workload_admission_released (err (rehearsal m)) aborted executed released =
      inl ((rehearsal m, refl), refl)
  with_workload_admission_released (err (refused m)) aborted executed released =
      inl ((refused m, refl), refl)
  with_workload_admission_released (err (plain m)) aborted executed released =
      inl ((plain m, refl), refl)
  with_workload_admission_released (err (both e f)) aborted executed released =
      inl ((both e f, refl), refl)
  with_workload_admission_released (ok tt) (some r) executed released =
      inr (refl, inr ((λ q. cc), refl))
  with_workload_admission_released (ok tt) none (ok a) released = inr (refl, inl refl)
  with_workload_admission_released (ok tt) none (err e) released = inr (refl, inl refl)

  -- A result is returned exactly when every step succeeds, and it is the result of the phase.
  pub with_workload_admission-eq-ok_iff :
      (acquired : Result Thrown (Unit {0})) (aborted : Option Thrown) (executed : Result Thrown A)
      (released : Result Thrown (Unit {0})) (a : A)
      → ((with_workload_admission true acquired aborted executed released).1 ≡ ok a)
        ↔ ((acquired ≡ ok tt) × (aborted ≡ none) × (executed ≡ ok a) × (released ≡ ok tt))
  unfolding with_workload_admission
  with_workload_admission-eq-ok_iff acquired aborted executed released a = ground arith
