-- ===== src/Environments/ResourcePolicy.antt =====
-- src/runtime/resources/resource_policy.mts: the byte quota and the review schedule of a project.
-- Times are milliseconds; `previous` is the parsed last review, `none` where there is none.
pub mod Startup
use rehearsal_db.Common.{
  ℕ, zero, suc, ◌+◌, ◌*◌, ◌≤◌, ◌<◌, ◌≡◌, refl, ◌≢◌, ◌⊎◌, inl, inr, ◌↔◌, Bool, true, false, not,
  ◌&&◌, ◌||◌, Option, none, some, List, [], ◌∷◌, ◌++◌, Result, ok, err, length, keep, all, ltb, leb,
  ◌==◌, arith, if◌then◌else◌, All, Bool-cases, max_safe_integer,
}

-- An environment of the inventory: `is_available` is `state !== "unavailable"`.
pub record Environment : Type 0 where
  pub is_available : Bool
  pub container_count : ℕ
  pub volume_count : ℕ
  pub disk_usage_bytes : Option ℕ

pub record Inventory : Type 0 where
  pub engine_running : Bool
  pub environments : List Environment

pub data CleanupSchedule : Type 0 where
  manual daily_preview weekly_preview : CleanupSchedule

pub record ResourcePolicy : Type 0 where
  pub retained_environment_count : ℕ
  pub maximum_bytes : Option ℕ
  pub cleanup_schedule : CleanupSchedule

pub data Quota : Type 0 where
  disabled within_limit exceeded unavailable : Quota

pub data CleanupReview : Type 0 where
  manual_review due scheduled : CleanupReview

pub data Warning : Type 0 where
  too_many_retained quota_unavailable quota_exceeded review_due : Warning

pub record ResourcePolicyStatus : Type 0 where
  pub retained : Option ℕ
  pub owned_volume_bytes : Option ℕ
  pub quota : Quota
  pub cleanup_review : CleanupReview
  pub next_review_at : Option ℕ
  pub warnings : List Warning

abbrev pub is_measured : Environment → Bool
is_measured e = elim e.disk_usage_bytes [ none ↦ e.volume_count == 0 | some b ↦ true ]

abbrev pub usage : Environment → ℕ
usage e = elim e.disk_usage_bytes [ none ↦ 0 | some b ↦ b ]

unfoldable pub sum_usage : List Environment → ℕ
sum_usage [] = 0
sum_usage (e ∷ es) = usage e + sum_usage es

unfoldable pub is_known : Inventory → Bool
is_known i = i.engine_running && all (λ e. e.is_available) i.environments

unfoldable pub retained_of : Inventory → Option ℕ
unfolding is_known
retained_of i =
    if is_known i
    then some (length (keep (λ e. ltb 0 e.container_count || ltb 0 e.volume_count) i.environments))
    else none

unfoldable pub owned_bytes : Inventory → Option ℕ
unfolding is_known sum_usage
owned_bytes i =
    if is_known i
      && all is_measured i.environments
      && leb (sum_usage i.environments) max_safe_integer
    then some (sum_usage i.environments)
    else none

abbrev pub quota_of : Option ℕ → Option ℕ → Quota
quota_of none bytes = disabled
quota_of (some m) none = unavailable
quota_of (some m) (some b) = if ltb m b then exceeded else within_limit

abbrev pub interval_of : CleanupSchedule → Option ℕ
interval_of manual = none
interval_of daily_preview = some 86400000
interval_of weekly_preview = some 604800000

abbrev pub is_due : ℕ → ℕ → Option ℕ → Bool
is_due now interval none = true
is_due now interval (some p) = ltb now p || leb (p + interval) now

abbrev pub or_zero : Option ℕ → ℕ
or_zero none = 0
or_zero (some n) = n

-- `cleanupReview` and `nextReviewAt`
abbrev pub schedule : ℕ → Option ℕ → Option ℕ → CleanupReview × Option ℕ
schedule now previous none = (manual_review, none)
schedule now previous (some interval) =
    if is_due now interval previous
    then (due, some now)
    else (scheduled, some (or_zero previous + interval))

abbrev pub retained_warning : ℕ → Option ℕ → List Warning
retained_warning limit none = []
retained_warning limit (some n) = if ltb limit n then too_many_retained ∷ [] else []

abbrev pub quota_warning : Quota → List Warning
quota_warning unavailable = quota_unavailable ∷ []
quota_warning exceeded = quota_exceeded ∷ []
quota_warning _ = []

abbrev pub review_warning : CleanupReview → List Warning
review_warning due = review_due ∷ []
review_warning _ = []

unfoldable pub evaluate_resource_policy :
    Inventory → ResourcePolicy → Option ℕ → ℕ → ResourcePolicyStatus
unfolding retained_of owned_bytes
evaluate_resource_policy i p previous now =
    let quota = quota_of p.maximum_bytes (owned_bytes i) in
    let review = schedule now previous (interval_of p.cleanup_schedule) in
    record {
      retained = retained_of i;
      owned_volume_bytes = owned_bytes i;
      quota = quota;
      cleanup_review = review.0;
      next_review_at = review.1;
      warnings =
          retained_warning p.retained_environment_count (retained_of i)
          ++ (quota_warning quota ++ review_warning review.0);
    }

abbrev pub allows : Quota → Result Quota (Unit {0})
allows unavailable = err unavailable
allows exceeded = err exceeded
allows _ = ok tt

unfoldable pub assert_resource_policy_allows_startup :
    ResourcePolicyStatus → Result Quota (Unit {0})
assert_resource_policy_allows_startup s = allows s.quota
