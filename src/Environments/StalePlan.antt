-- ===== src/Environments/StalePlan.antt =====
-- src/runtime/recovery/stale_environment_plan.mts: which configured environments are stale, and
-- stopping them after an exact confirmation. Labels and fields of a container that are missing or
-- of another type are `none`. The hashes and localeCompare are parameters, as is Date.parse.
pub mod Stale
pub mod Selection
pub mod Apply
use rehearsal_db.Common.{
  Number, ℕ, zero, suc, ◌+◌, ◌*◌, ◌≤◌, ◌<◌, ◌≡◌, refl, ◌≢◌, ◌⊎◌, inl, inr, ◌↔◌, Bool, true, false,
  not, ◌&&◌, ◌||◌, Option, none, some, List, [], ◌∷◌, ◌++◌, map, Result, ok, err, ◌>>=◌, ◌>>◌,
  guard, Text, text_eq, is_sha256, length, keep, ltb, leb, ◌==◌, arith, if◌then◌else◌, All, In, any,
  all, Bool-cases,
}
use rehearsal_db.Environments.Review.{
  Observed, is_running, is_boolean, observable_container_time,
  evaluate_observable_environment_review, ObservableEnvironmentReview, due, not_due, disabled,
  unknown, State,
}

pub data TargetKind : Type 0 where
  postgresql supabase sqlite : TargetKind

-- RuntimeTopologyTarget, with the parts of its configuration that the plan reads; the whole
-- configuration stands for itself in its hash.
pub record RuntimeTarget : Type 0 where
  pub name : Text
  pub kind : TargetKind
  pub project_id : Text
  pub display_name : Text
  pub config_path : Text
  pub config_sha256 : Text
  pub stale_after_seconds : Option Number

-- `com.supabase.cli.project` and `com.rehearsal-db.project`.
pub record Container : Type 0 where
  pub id : Option Text
  pub supabase_label : Option Text
  pub rehearsal_label : Option Text
  pub running : Option Bool
  pub started_at : Option Text
  pub finished_at : Option Text

pub record Binding : Type 0 where
  pub id : Text
  pub running : Bool
  pub started_at : Option Text
  pub finished_at : Option Text

pub record StopStaleTarget : Type 0 where
  pub target : Text
  pub project_id : Text
  pub provider : TargetKind
  pub display_name : Text
  pub config_path : Text
  pub configuration_sha256 : Text
  pub stale_after_seconds : Number
  pub last_observable_activity_at : Text
  pub containers : List Binding

pub data SkipReason : Type 0 where
  no_cutoff conflicting_labels already_stopped activity_unknown too_recent : SkipReason

pub record Skipped : Type 0 where
  pub target : Text
  pub reason : SkipReason

pub record StopStalePlan : Type 0 where
  pub context : Text
  pub engine_identity : Text
  pub project_root_sha256 : Text
  pub targets : List StopStaleTarget
  pub skipped : List Skipped
  pub digest : Text

pub data PlanError : Type 0 where
  inventory_not_verified : PlanError
  incomplete_evidence : PlanError
  not_a_container_target : PlanError

abbrev pub label_is : Text → Option Text → Bool
label_is p none = false
label_is p (some l) = text_eq l p

abbrev pub label_differs : Text → Option Text → Bool
label_differs p none = false
label_differs p (some l) = not (text_eq l p)

abbrev pub own_label : TargetKind → Container → Option Text
own_label supabase c = c.supabase_label
own_label _ c = c.rehearsal_label

-- `owned`, and `conflict`.
unfoldable pub owned_by : RuntimeTarget → List Container → List Container
owned_by t cs = keep (λ c. label_is t.project_id (own_label t.kind c)) cs

unfoldable pub conflicts : Text → List Container → Bool
conflicts p owned =
    any (λ c. label_differs p c.supabase_label || label_differs p c.rehearsal_label) owned

abbrev pub valid_id : Option Text → Bool
valid_id none = false
valid_id (some i) = is_sha256 i

abbrev pub id_of : Option Text → Text
id_of none = []
id_of (some i) = i

-- `new Set(owned.map((container) => container.Id)).size === owned.length`
unfoldable pub all_distinct : List Text → Bool
all_distinct [] = true
all_distinct (i ∷ is) = not (any (text_eq i) is) && all_distinct is

unfoldable pub complete_evidence : List Container → Bool
unfolding all_distinct
complete_evidence owned =
    not (any (λ c. not (valid_id c.id) || not (is_boolean c.running)) owned)
    && all_distinct (map (λ c. id_of c.id) owned)

-- `reason`, for a target that is not reviewed.
unfoldable pub skip_reason : Option Number → Bool → List Container → Option SkipReason
skip_reason none conflict owned = some no_cutoff
skip_reason (some c) conflict owned =
    if conflict
    then some conflicting_labels
    else if any (λ x. is_running x.running) owned
    then none
    else some already_stopped

-- `sort`; `before a b` is `a.localeCompare(b) < 0`.
unfoldable pub insert : (Text → Text → Bool) → Binding → List Binding → List Binding
insert before b [] = b ∷ []
insert before b (c ∷ cs) =
    let rest = insert before b cs in if before c.id b.id then c ∷ rest else b ∷ c ∷ cs

unfoldable pub sort_bindings : (Text → Text → Bool) → List Binding → List Binding
unfolding insert
sort_bindings before [] = []
sort_bindings before (b ∷ bs) = insert before b (sort_bindings before bs)

abbrev pub observed_of : Binding → Observed
observed_of b = record {
  running = some b.running;
  started_at = b.started_at;
  finished_at = b.finished_at;
}

-- `requireContainerTarget`
abbrev pub require_container_target : TargetKind → Result PlanError TargetKind
require_container_target sqlite = err not_a_container_target
require_container_target postgresql = ok postgresql
require_container_target supabase = ok supabase

module _ (parse : Text → Option ℕ) (before : Text → Text → Bool) where
  unfoldable pub binding : ℕ → Container → Binding
  binding now c = record {
    id = id_of c.id;
    running = is_running c.running;
    started_at = observable_container_time parse c.started_at now;
    finished_at = observable_container_time parse c.finished_at now;
  }

  abbrev pub skip : RuntimeTarget → SkipReason → Skipped ⊎ StopStaleTarget
  skip t r = inl (record { target = t.name; reason = r })

  abbrev pub by_review :
      RuntimeTarget
      → Number
      → List Binding
      → State
      → Option Text
      → Result PlanError (Skipped ⊎ StopStaleTarget)
  by_review t cutoff bs unknown last = ok (skip t activity_unknown)
  by_review t cutoff bs not_due last = ok (skip t too_recent)
  by_review t cutoff bs disabled last = ok (skip t too_recent)
  by_review t cutoff bs due none = ok (skip t too_recent)
  by_review t cutoff bs due (some last) = do
    provider ← require_container_target t.kind
    ok (
        inr (record {
          target = t.name;
          project_id = t.project_id;
          provider = provider;
          display_name = t.display_name;
          config_path = t.config_path;
          configuration_sha256 = t.config_sha256;
          stale_after_seconds = cutoff;
          last_observable_activity_at = last;
          containers = bs;
        }))

  abbrev pub reviewed :
      RuntimeTarget
      → Number
      → List Binding
      → ObservableEnvironmentReview
      → Result PlanError (Skipped ⊎ StopStaleTarget)
  reviewed t cutoff bs r = by_review t cutoff bs r.state r.last_observable_activity_at

  abbrev pub by_reason :
      ℕ
      → RuntimeTarget
      → List Container
      → Option Number
      → Option SkipReason
      → Result PlanError (Skipped ⊎ StopStaleTarget)
  by_reason now t owned stale (some r) = ok (skip t r)
  by_reason now t owned none none = ok (skip t no_cutoff)
  by_reason now t owned (some cutoff) none = do
    guard (complete_evidence owned) incomplete_evidence
    let bs = sort_bindings before (map (binding now) owned)
    reviewed t cutoff bs (
        evaluate_observable_environment_review parse true (some cutoff) (map observed_of bs)
          (some now))

  -- One round of the loop over targets.
  unfoldable pub review_target :
      ℕ → List Container → RuntimeTarget → Result PlanError (Skipped ⊎ StopStaleTarget)
  unfolding owned_by conflicts skip_reason complete_evidence sort_bindings binding
  review_target now cs t =
      by_reason now t (owned_by t cs) t.stale_after_seconds
        (skip_reason t.stale_after_seconds (conflicts t.project_id (owned_by t cs)) (owned_by t cs))

  abbrev pub add :
      Skipped ⊎ StopStaleTarget
      → List StopStaleTarget × List Skipped
      → List StopStaleTarget × List Skipped
  add (inl s) p = (p.0, s ∷ p.1)
  add (inr t) p = (t ∷ p.0, p.1)

  unfoldable pub review_targets :
      ℕ
      → List Container
      → List RuntimeTarget
      → Result PlanError (List StopStaleTarget × List Skipped)
  unfolding review_target
  review_targets now cs [] = ok ([], [])
  review_targets now cs (t ∷ ts) = do
    one ← review_target now cs t
    more ← review_targets now cs ts
    ok (add one more)

  module _ (hash_identity : Text → Text → Text → List StopStaleTarget → Text) where
    -- `project_root_sha256` is the hash of the resolved root.
    unfoldable pub create_stop_stale_plan :
        ℕ
        → Text
        → Text
        → Text
        → List RuntimeTarget
        → List Container
        → Result PlanError StopStalePlan
    unfolding review_targets
    create_stop_stale_plan now context engine_identity project_root_sha256 ts cs = do
      guard (is_sha256 engine_identity && leb (length cs) 1000) inventory_not_verified
      (selected, skipped) ← review_targets now cs ts
      ok (record {
        context = context;
        engine_identity = engine_identity;
        project_root_sha256 = project_root_sha256;
        targets = selected;
        skipped = skipped;
        digest = hash_identity context engine_identity project_root_sha256 selected;
      })
