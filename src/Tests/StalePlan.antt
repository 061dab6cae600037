-- ===== src/Tests/StalePlan.antt =====
-- One PostgreSQL environment that is due, planned and stopped.
use rehearsal_db.Common.{
  nat, ℕ, ◌≡◌, ◌≢◌, refl, true, List, [], ◌∷◌, none, some, Result, ok, Text, text_eq, codes, length,
}
use rehearsal_db.Environments.StalePlan.{
  RuntimeTarget, postgresql, Container, StopStaleTarget, StopStalePlan,
}
use rehearsal_db.Environments.StalePlan.Apply.{
  apply_stop_stale_plan, apply_stop_stale_plan_sound, Ran, reversed,
}

abbrev id64 : Text
id64 = codes "0123456789abcdef0123456789abcdef0123456789abcdef0123456789abcdef"

abbrev project : RuntimeTarget
project = record {
  name = codes "app";
  kind = postgresql;
  project_id = codes "p";
  display_name = codes "App";
  config_path = codes "c";
  config_sha256 = codes "h";
  stale_after_seconds = some (nat 5);
}

abbrev container : Container
container = record {
  id = some id64;
  supabase_label = none;
  rehearsal_label = some (codes "p");
  running = some true;
  started_at = some (4000 ∷ []);
  finished_at = none;
}

abbrev stale : StopStaleTarget
stale = record {
  target = codes "app";
  project_id = codes "p";
  provider = postgresql;
  display_name = codes "App";
  config_path = codes "c";
  configuration_sha256 = codes "h";
  stale_after_seconds = nat 5;
  last_observable_activity_at = 4000 ∷ [];
  containers =
      record { id = id64; running = true; started_at = some (4000 ∷ []); finished_at = none } ∷ [];
}

abbrev hash : Text → Text → Text → List StopStaleTarget → Text
hash c e r ts = length ts ∷ []

abbrev plan : StopStalePlan
plan = record {
  context = codes "default";
  engine_identity = id64;
  project_root_sha256 = codes "r";
  targets = stale ∷ [];
  skipped = [];
  digest = 1 ∷ [];
}

abbrev hash_target : StopStaleTarget → Text
hash_target t = t.last_observable_activity_at

abbrev refresh : ℕ → Result ℕ StopStalePlan
refresh k = ok plan

abbrev stop_target : StopStaleTarget → Result ℕ (Unit {0})
stop_target t = ok tt

apply_test :
    apply_stop_stale_plan hash_target refresh stop_target plan (1 ∷ [])
    ≡ ((plan, stale) ∷ [], ok (codes "app" ∷ []))
unfolding apply_stop_stale_plan text_eq
apply_test = refl

apply_stop_stale_plan_sound_example :
    ((apply_stop_stale_plan hash_target refresh stop_target plan (1 ∷ [])).0 ≢ []
      → (1 ∷ [] ≡ plan.digest)
        × (current : StopStalePlan) × (refresh 0 ≡ ok current)
        × (current.digest ≡ plan.digest))
    × Ran hash_target refresh stop_target plan 1
        (reversed plan.targets)
        (apply_stop_stale_plan hash_target refresh stop_target plan (1 ∷ []))
apply_stop_stale_plan_sound_example =
    apply_stop_stale_plan_sound hash_target refresh stop_target plan (1 ∷ [])
