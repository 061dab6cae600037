-- ===== src/Environments/Review.antt =====
-- src/runtime/resources/environment_classification.mts: whether a long-running environment is due
-- for review. A value of a container that is not a string is `none`. `parse` is Date.parse, `none`
-- where it is not finite or not after 1970, and `now` is `none` where the date is invalid.
pub mod Times
pub mod Cutoff
use rehearsal_db.Common.{
  Number, max_safe_integer, nat, other, ℕ, zero, suc, ◌+◌, ◌*◌, ◌≤◌, ◌<◌, ◌≡◌, refl, ◌≢◌, ◌⊎◌, inl,
  inr, ◌↔◌, Bool, true, false, not, ◌&&◌, ◌||◌, Option, none, some, List, [], ◌∷◌, map, Result, ok,
  err, Text, ltb, leb, ◌==◌, arith, if◌then◌else◌, All, In, any, all, Bool-cases,
}

pub data State : Type 0 where
  due not_due disabled unknown : State

pub data Reason : Type 0 where
  observable_cutoff_exceeded recent_observable_activity not_running cutoff_disabled : Reason
  ownership_inspection_unavailable observable_activity_unavailable : Reason

pub record ObservableEnvironmentReview : Type 0 where
  pub state : State
  pub reason : Reason
  pub stale_after_seconds : Option Number
  pub last_observable_activity_at : Option Text

-- An entry of `containers`.
pub record Observed : Type 0 where
  pub running : Option Bool
  pub started_at : Option Text
  pub finished_at : Option Text

abbrev pub is_running : Option Bool → Bool
is_running none = false
is_running (some b) = b

abbrev pub is_boolean : Option Bool → Bool
is_boolean none = false
is_boolean (some b) = true

abbrev pub is_null {ℓ} : {A : Type ℓ} → Option A → Bool
is_null none = true
is_null (some a) = false

-- `Number.isSafeInteger(staleAfterSeconds) && staleAfterSeconds >= 1`
abbrev pub is_cutoff : Number → Bool
is_cutoff (nat n) = leb 1 n && leb n max_safe_integer
is_cutoff other = false

abbrev pub seconds : Number → ℕ
seconds (nat n) = n
seconds other = 0

abbrev pub parsed : Option ℕ → ℕ
parsed none = 0
parsed (some t) = t

abbrev pub add_time : Option Text → List Text → List Text
add_time none ts = ts
add_time (some t) ts = t ∷ ts

abbrev pub review : State → Reason → Option Number → Option Text → ObservableEnvironmentReview
review s r stale last = record {
  state = s;
  reason = r;
  stale_after_seconds = stale;
  last_observable_activity_at = last;
}

module _ (parse : Text → Option ℕ) where
  abbrev pub observable : Text → ℕ → Option ℕ → Option Text
  observable v now none = none
  observable v now (some t) = if ltb 0 t && leb t now then some v else none

  unfoldable pub observable_container_time : Option Text → ℕ → Option Text
  observable_container_time none now = none
  observable_container_time (some v) now = observable v now (parse v)

  -- `Date.parse` of a time that has been observed.
  abbrev pub millis : Text → ℕ
  millis v = parsed (parse v)

  -- `flatMap` and `filter`: the observable times, container by container.
  unfoldable pub observed_times : List Observed → ℕ → List Text
  unfolding observable_container_time
  observed_times [] now = []
  observed_times (c ∷ cs) now =
      add_time (observable_container_time c.started_at now)
        (add_time (observable_container_time c.finished_at now) (observed_times cs now))

  abbrev pub later : Text → Option Text → Option Text
  later t none = some t
  later t (some u) = if leb (millis u) (millis t) then some t else some u

  -- `sort((left, right) => Date.parse(right) - Date.parse(left))[0]`: the first of the latest.
  unfoldable pub latest : List Text → Option Text
  latest [] = none
  latest (t ∷ ts) = later t (latest ts)

  abbrev pub by_last : Number → ℕ → Option Text → ObservableEnvironmentReview
  by_last stale now none = review unknown observable_activity_unavailable (some stale) none
  by_last stale now (some last) =
      if leb (millis last + seconds stale * 1000) now
      then review due observable_cutoff_exceeded (some stale) (some last)
      else review not_due recent_observable_activity (some stale) (some last)

  -- Some running container has no observable start.
  abbrev pub lacks_start : List Observed → ℕ → Bool
  lacks_start cs now =
      any (λ c. is_running c.running && is_null (observable_container_time c.started_at now)) cs

  abbrev pub by_activity : Number → List Observed → ℕ → ObservableEnvironmentReview
  by_activity stale cs now =
      if not (any (λ c. is_running c.running) cs)
      then review not_due not_running (some stale) none
      else if lacks_start cs now
      then review unknown observable_activity_unavailable (some stale) none
      else by_last stale now (latest (observed_times cs now))

  abbrev pub by_date : Number → List Observed → Option ℕ → ObservableEnvironmentReview
  by_date stale cs none = review unknown observable_activity_unavailable (some stale) none
  by_date stale cs (some now) =
      if not (is_cutoff stale) || any (λ c. not (is_boolean c.running)) cs
      then review unknown observable_activity_unavailable (some stale) none
      else by_activity stale cs now

  abbrev pub by_cutoff : Option Number → List Observed → Option ℕ → ObservableEnvironmentReview
  by_cutoff none cs now = review disabled cutoff_disabled none none
  by_cutoff (some stale) cs now = by_date stale cs now

  unfoldable pub evaluate_observable_environment_review :
      Bool → Option Number → List Observed → Option ℕ → ObservableEnvironmentReview
  unfolding observed_times latest
  evaluate_observable_environment_review false stale cs now =
      review unknown ownership_inspection_unavailable stale none
  evaluate_observable_environment_review true stale cs now = by_cutoff stale cs now

pub data PresenceState : Type 0 where
  created not_created presence_unknown : PresenceState

pub data ReceiptState : Type 0 where
  compatible incompatible receipt_unknown : ReceiptState

pub data ReceiptReason : Type 0 where
  supported_receipt_format_and_provider receipt_invalid receipt_unavailable : ReceiptReason
  provider_not_recorded receipt_binding_mismatch : ReceiptReason

-- EnvironmentProvenance, as far as it is looked at: whether `runtimeReason` is "receipt-invalid",
-- and of a runtime whether its `migrationReason` is "receipt-does-not-match-baseline".
pub record EnvironmentProvenance : Type 0 where
  pub is_invalid : Bool
  pub runtime : Option Bool

pub record EnvironmentClassification : Type 0 where
  pub presence : PresenceState
  pub receipt : ReceiptState × ReceiptReason
  pub observed : ObservableEnvironmentReview

-- `Number.isSafeInteger(count) && count >= 0`
abbrev pub is_count : Number → Bool
is_count (nat n) = leb n max_safe_integer
is_count other = false

unfoldable pub presence_of : Bool → Number → Number → PresenceState
presence_of available containers volumes =
    if not available
    then presence_unknown
    else if ltb 0 (seconds containers) || ltb 0 (seconds volumes)
    then created
    else not_created

abbrev pub runtime_receipt : Bool → Option Bool → ReceiptState × ReceiptReason
runtime_receipt provider none = (receipt_unknown, receipt_unavailable)
runtime_receipt provider (some true) = (incompatible, receipt_binding_mismatch)
runtime_receipt false (some false) = (receipt_unknown, provider_not_recorded)
runtime_receipt true (some false) = (compatible, supported_receipt_format_and_provider)

unfoldable pub receipt_of : EnvironmentProvenance → Bool → ReceiptState × ReceiptReason
receipt_of p provider =
    if p.is_invalid then (incompatible, receipt_invalid) else runtime_receipt provider p.runtime

module _ (parse : Text → Option ℕ) where
  unfoldable pub classify_configured_environment :
      Bool
      → Number
      → Number
      → EnvironmentProvenance
      → Bool
      → Option Number
      → List Observed
      → Option ℕ
      → EnvironmentClassification
  unfolding presence_of receipt_of evaluate_observable_environment_review
  classify_configured_environment inspected containers volumes provenance provider stale cs now =
      let available = inspected && (is_count containers && is_count volumes) in
      record {
        presence = presence_of available containers volumes;
        receipt = receipt_of provenance provider;
        observed = evaluate_observable_environment_review parse available stale cs now;
      }
