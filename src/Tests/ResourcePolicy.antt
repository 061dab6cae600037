-- ===== src/Tests/ResourcePolicy.antt =====
-- Two environments under a quota, last reviewed within the week.
use rehearsal_db.Common.{ℕ, ◌+◌, ◌≤◌, ◌≡◌, refl, ◌⊎◌, ◌↔◌, true, [], ◌∷◌, none, some, ok, err}
use rehearsal_db.Environments.ResourcePolicy.{
  Inventory, ResourcePolicy, weekly_preview, exceeded, due, sum_usage, evaluate_resource_policy,
  assert_resource_policy_allows_startup,
}
use rehearsal_db.Environments.ResourcePolicy.Startup.{
  IsMeasured, assert_resource_policy_allows_startup_iff, next_review_at_lem,
}

abbrev inventory : Inventory
inventory = record {
  engine_running = true;
  environments =
      record {
        is_available = true;
        container_count = 2;
        volume_count = 1;
        disk_usage_bytes = some 700;
      }
      ∷ record {
        is_available = true;
        container_count = 0;
        volume_count = 0;
        disk_usage_bytes = none;
      }
      ∷ [];
}

abbrev next_review : ℕ
next_review = 604801000

abbrev policy : ResourcePolicy
policy = record {
  retained_environment_count = 2;
  maximum_bytes = some 600;
  cleanup_schedule = weekly_preview;
}

exceeded_test :
    assert_resource_policy_allows_startup
      (evaluate_resource_policy inventory policy (some 1000) 5000)
    ≡ err exceeded
unfolding assert_resource_policy_allows_startup evaluate_resource_policy
exceeded_test = refl

assert_resource_policy_allows_startup_iff_example :
    (assert_resource_policy_allows_startup
        (evaluate_resource_policy inventory policy (some 1000) 5000)
      ≡ ok tt)
    ↔ ((policy.maximum_bytes ≡ none)
        ⊎ ((m : ℕ) × (policy.maximum_bytes ≡ some m)
            × IsMeasured inventory
            × (sum_usage inventory.environments ≤ m)))
assert_resource_policy_allows_startup_iff_example =
    assert_resource_policy_allows_startup_iff inventory policy (some 1000) 5000

next_test :
    (evaluate_resource_policy inventory policy (some 1000) 5000).next_review_at ≡ some 604801000
unfolding evaluate_resource_policy
next_test = refl

next_review_at_lem_example :
    (5000 ≤ 604801000)
    × (604801000 ≤ 5000 + 604800000)
    × (((evaluate_resource_policy inventory policy (some 1000) 5000).cleanup_review ≡ due)
        ↔ (next_review ≡ 5000))
next_review_at_lem_example =
    next_review_at_lem inventory policy (some 1000) 5000 604801000 604800000 refl next_test
