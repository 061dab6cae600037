-- ===== src/Workloads/Capacity.antt =====
-- src/runtime/resources/workload_capacity.mts, activePolicy and evaluateWorkloadCapacity: does the
-- measured headroom cover the reviewed budgets of the selected targets? A number of the source is
-- `nat n`, or `other` where it is negative, fractional or not a number. A sum of at most 32 budgets
-- is exact up to 2 ^ 53, and beyond it stays beyond, which is all that the tests ask.
pub mod Budget
use rehearsal_db.Common.{
  Number, max_safe_integer, nat, other, ℕ, ◌+◌, ◌≡◌, Bool, true, false, not, ◌&&◌, ◌||◌, Option,
  none, some, List, [], ◌∷◌, Result, ok, err, ◌>>=◌, ◌>>◌, guard, length, ltb, leb, ◌==◌,
  if◌then◌else◌,
}

pub data Refusal : Type 0 where
  budgets_required demand_unbounded no_budget not_fresh inconsistent host_reserve engine_reserve
        container_budget :
      Refusal

abbrev pub maximum_containers : ℕ
maximum_containers = 1024

unfoldable pub valid_bytes : Number → Bool
valid_bytes (nat n) = leb n max_safe_integer
valid_bytes other = false

unfoldable pub positive_bytes : Number → Bool
positive_bytes (nat n) = leb n max_safe_integer && ltb 0 n
positive_bytes other = false

-- The value of a number that was found valid.
abbrev pub value : Number → ℕ
value (nat n) = n
value other = 0

pub record TargetMemory : Type 0 where
  pub postgresql : Number
  pub supabase_application : Number
  pub supabase_full : Number

pub record Policy : Type 0 where
  pub enabled : Bool
  pub host_reserve_bytes : Number
  pub engine_reserve_bytes : Number
  pub maximum_running_containers : Number
  pub target_memory_bytes : Option TargetMemory

abbrev budgets_ok : Option TargetMemory → Bool
budgets_ok none = false
budgets_ok (some m) =
    positive_bytes m.postgresql
    && (positive_bytes m.supabase_application && positive_bytes m.supabase_full)

unfoldable pub policy_ok : Policy → Bool
unfolding positive_bytes
policy_ok p =
    p.enabled
    && (positive_bytes p.host_reserve_bytes
        && (positive_bytes p.engine_reserve_bytes
            && (positive_bytes p.maximum_running_containers
                && (leb (value p.maximum_running_containers) maximum_containers
                    && budgets_ok p.target_memory_bytes))))

abbrev reviewed : Option TargetMemory → Result Refusal TargetMemory
reviewed none = err budgets_required
reviewed (some m) = ok m

unfoldable pub active_policy : Policy → Result Refusal TargetMemory
unfolding policy_ok
active_policy p = do guard (policy_ok p) budgets_required; reviewed p.target_memory_bytes

-- `config.runtime.target` with the Supabase service profile, as far as the demand looks at them.
pub data TargetKind : Type 0 where
  postgresql supabase_application supabase_full unbudgeted : TargetKind

pub record Demand : Type 0 where
  pub memory : ℕ
  pub containers : ℕ

abbrev pub add_demand : ℕ → ℕ → Demand → Demand
add_demand m c d = record { memory = m + d.memory; containers = c + d.containers }

unfoldable pub demand_of : TargetMemory → TargetKind → Result Refusal Demand
demand_of m postgresql = ok (record { memory = value m.postgresql; containers = 1 })
demand_of m supabase_application =
    ok (record { memory = value m.supabase_application; containers = 6 })
demand_of m supabase_full = ok (record { memory = value m.supabase_full; containers = 13 })
demand_of m unbudgeted = err no_budget

-- The loop over the targets.
unfoldable pub demand : TargetMemory → List TargetKind → Result Refusal Demand
unfolding demand_of
demand m [] = ok (record { memory = 0; containers = 0 })
demand m (t ∷ ts) = do
  d ← demand_of m t
  rest ← demand m ts
  ok (add_demand d.memory d.containers rest)

pub data Measurement : Type 0 where
  linux_memavailable macos_free_speculative : Measurement

pub data Pressure : Type 0 where
  normal not_measured : Pressure

pub record Snapshot : Type 0 where
  pub schema_version : Number
  -- `Date.parse(snapshot.measuredAt)` in milliseconds, `none` where it is not a number.
  pub measured_at : Option ℕ
  pub host_available : Number
  pub measurement : Measurement
  pub pressure : Pressure
  pub total_bytes : Number
  pub engine_available : Number
  pub running_containers : Number
  pub standing_bytes : Number

-- `ageMs` is a number from -1000 to 30000.
abbrev is_recent : ℕ → Option ℕ → Bool
is_recent now none = false
is_recent now (some at) = leb at (now + 1000) && leb now (at + 30000)

abbrev pressure_ok : Measurement → Pressure → Bool
pressure_ok linux_memavailable p = true
pressure_ok macos_free_speculative normal = true
pressure_ok macos_free_speculative not_measured = false

-- `schemaVersion === 1`
abbrev is_schema_one : Number → Bool
is_schema_one (nat n) = n == 1
is_schema_one other = false

unfoldable pub is_fresh : ℕ → Snapshot → Bool
is_fresh now s =
    is_schema_one s.schema_version
    && (is_recent now s.measured_at && pressure_ok s.measurement s.pressure)

unfoldable pub is_consistent : ℕ → Snapshot → Bool
unfolding valid_bytes positive_bytes
is_consistent required s =
    leb required max_safe_integer
    && (valid_bytes s.host_available
        && (positive_bytes s.total_bytes
            && (valid_bytes s.engine_available
                && (leb (value s.engine_available) (value s.total_bytes)
                    && (valid_bytes s.running_containers
                        && (valid_bytes s.standing_bytes
                            && leb (value s.standing_bytes) (value s.total_bytes)))))))

-- The three comparisons; `available - required < reserve` is written without the subtraction.
unfoldable pub fits : Policy → Snapshot → Demand → Result Refusal (Unit {0})
fits p s d = do
  guard (leb (value p.host_reserve_bytes + d.memory) (value s.host_available)) host_reserve
  guard (leb (value p.engine_reserve_bytes + d.memory) (value s.engine_available)) engine_reserve
  guard (leb (value s.running_containers + d.containers) (value p.maximum_running_containers))
      container_budget

unfoldable pub evaluate_workload_capacity :
    ℕ → Policy → List TargetKind → Snapshot → Result Refusal Demand
evaluate_workload_capacity now p targets s = do
  m ← active_policy p
  guard (ltb 0 (length targets) && leb (length targets) 32) demand_unbounded
  d ← demand m targets
  guard (is_fresh now s) not_fresh
  guard (is_consistent d.memory s) inconsistent
  fits p s d
  ok d
