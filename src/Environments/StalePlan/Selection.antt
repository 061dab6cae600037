-- ===== src/Environments/StalePlan/Selection.antt =====
-- createStopStalePlan: what holds of the plan.
use rehearsal_db.Common.{ℕ, ◌+◌, ◌≡◌, Bool, Option, List, Text, length, All, In}
use rehearsal_db.Environments.StalePlan.{RuntimeTarget, Container, StopStaleTarget, Skipped}
use rehearsal_db.Environments.StalePlan.Stale.{IsStale}

module _ (parse : Text → Option ℕ) (before : Text → Text → Bool) where
  -- What the loop gives for the targets: one entry each, and each selected one is stale.
  abbrev pub AllReviewed :
      ℕ → List Container → List RuntimeTarget → List StopStaleTarget × List Skipped → Type 0
  AllReviewed now cs ts p =
      (length p.0 + length p.1 ≡ length ts)
      × All (λ s. (t : RuntimeTarget) × In t ts × IsStale parse before now cs t s) p.0
