-- ===== src/Tests/Capacity.antt =====
-- Two PostgreSQL targets on an idle engine.
use rehearsal_db.Common.{nat, ◌≡◌, refl, true, [], ◌∷◌, some, ok, err}
use rehearsal_db.Workloads.Capacity.{
  host_reserve, Policy, postgresql, supabase_full, Demand, Snapshot, macos_free_speculative, normal,
  evaluate_workload_capacity, active_policy, demand, is_fresh, is_consistent, fits,
}
use rehearsal_db.Workloads.Capacity.Budget.{IsAdmitted, evaluate_workload_capacity_sound}

abbrev policy : Policy
policy = record {
  enabled = true;
  host_reserve_bytes = nat 1000;
  engine_reserve_bytes = nat 500;
  maximum_running_containers = nat 10;
  target_memory_bytes =
      some
        (record { postgresql = nat 200; supabase_application = nat 700; supabase_full = nat 1500 });
}

abbrev snapshot : Snapshot
snapshot = record {
  schema_version = nat 1;
  measured_at = some 50000;
  host_available = nat 1400;
  measurement = macos_free_speculative;
  pressure = normal;
  total_bytes = nat 4000;
  engine_available = nat 2000;
  running_containers = nat 3;
  standing_bytes = nat 100;
}

abbrev needed : Demand
needed = record { memory = 400; containers = 2 }

capacity_test :
    evaluate_workload_capacity 60000 policy (postgresql ∷ postgresql ∷ []) snapshot ≡ ok needed
unfolding evaluate_workload_capacity active_policy demand is_fresh is_consistent fits
capacity_test = refl

capacity_refused :
    evaluate_workload_capacity 60000 policy (supabase_full ∷ []) snapshot ≡ err host_reserve
unfolding evaluate_workload_capacity active_policy demand is_fresh is_consistent fits
capacity_refused = refl

evaluate_workload_capacity_sound_example :
    IsAdmitted 60000 policy (postgresql ∷ postgresql ∷ []) snapshot needed
evaluate_workload_capacity_sound_example =
    evaluate_workload_capacity_sound 60000 policy (postgresql ∷ postgresql ∷ []) snapshot needed
      capacity_test
