-- ===== src/Tests/Admission.antt =====
-- A phase whose release fails, and one that succeeds.
use rehearsal_db.Common.{
  ℕ, ◌≡◌, refl, ◌≢◌, ◌⊎◌, true, [], ◌∷◌, Option, none, Result, ok, err, codes,
}
use rehearsal_db.Workloads.Admission.{
  Thrown, plain, both, acquire, execute, release, with_workload_admission,
  with_workload_diagnostics, with_workload_admission_released,
}

abbrev succeeded : Result Thrown (Unit {0})
succeeded = ok tt

abbrev not_aborted : Option Thrown
not_aborted = none

abbrev returned : Result Thrown ℕ
returned = ok 3

-- The phase and the release both fail: both are reported.
both_test :
    with_workload_admission {A = ℕ} true
      (ok tt)
      none
      (err (plain (codes "x")))
      (err (plain (codes "y")))
    ≡ (acquire ∷ execute ∷ release ∷ [], err (both (plain (codes "x")) (plain (codes "y"))))
unfolding with_workload_admission with_workload_diagnostics
both_test = refl

with_workload_admission_released_example :
    (((e : Thrown) × (succeeded ≡ err e))
      × ((with_workload_admission {A = ℕ} true (ok tt) none (ok 3) (err (plain []))).0
          ≡ acquire ∷ []))
    ⊎ ((succeeded ≡ ok tt)
        × (((with_workload_admission {A = ℕ} true (ok tt) none (ok 3) (err (plain []))).0
              ≡ acquire ∷ execute ∷ release ∷ [])
            ⊎ ((not_aborted ≢ none)
                × ((with_workload_admission {A = ℕ} true (ok tt) none (ok 3) (err (plain []))).0
                    ≡ acquire ∷ release ∷ []))))
with_workload_admission_released_example =
    with_workload_admission_released (ok tt) none (ok 3) (err (plain []))
