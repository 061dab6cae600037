-- ===== src/Environments/ResourcePolicy/Startup.antt =====
-- When the quota lets a runtime start, and when the next review is.
use rehearsal_db.Common.{
  ℕ, ◌+◌, ◌≤◌, ◌≡◌, refl, ◌⊎◌, inl, inr, ◌↔◌, true, ◌&&◌, ◌||◌, Option, none, some, List, [], ◌∷◌,
  ok, all, ltb, leb, arith, All, Bool-cases, max_safe_integer,
}
use rehearsal_db.Environments.ResourcePolicy.{
  Environment, Inventory, ResourcePolicy, due, is_measured, sum_usage, is_known, owned_bytes,
  quota_of, interval_of, schedule, evaluate_resource_policy, allows,
  assert_resource_policy_allows_startup,
}

-- A complete measurement: the engine runs, every environment is available, every one with volumes
-- has a size, and the sum is a safe integer.
abbrev pub IsMeasured : Inventory → Type 0
IsMeasured i =
    (i.engine_running ≡ true)
    × All (λ e. (e.is_available ≡ true) × (is_measured e ≡ true)) i.environments
    × (sum_usage i.environments ≤ max_safe_integer)

all_measured :
    (es : List Environment)
    → ((all (λ (e : Environment). e.is_available) es && all is_measured es) ≡ true)
      ↔ All (λ e. (e.is_available ≡ true) × (is_measured e ≡ true)) es
all_measured [] = ((λ h. tt), (λ h. refl))
all_measured (e ∷ es) = ground (arith, all_measured es)

owned_bytes_iff :
    (i : Inventory) (b : ℕ)
    → (owned_bytes i ≡ some b) ↔ (IsMeasured i × (b ≡ sum_usage i.environments))
unfolding owned_bytes is_known
owned_bytes_iff i b = ground (arith, all_measured i.environments)

-- A runtime may start exactly when no quota is set, or the volumes of all environments are completely
-- measured and their sum is within the quota.
pub assert_resource_policy_allows_startup_iff :
    (i : Inventory) (p : ResourcePolicy) (previous : Option ℕ) (now : ℕ)
    → (assert_resource_policy_allows_startup (evaluate_resource_policy i p previous now) ≡ ok tt)
      ↔ ((p.maximum_bytes ≡ none)
          ⊎ ((m : ℕ) × (p.maximum_bytes ≡ some m) × IsMeasured i × (sum_usage i.environments ≤ m)))
unfolding assert_resource_policy_allows_startup evaluate_resource_policy
assert_resource_policy_allows_startup_iff i p previous now =
    by_quota p.maximum_bytes (owned_bytes i) refl
  where
    by_quota :
        (maximum bytes : Option ℕ)
        → owned_bytes i ≡ bytes
        → (allows (quota_of maximum bytes) ≡ ok tt) ↔ (
            (maximum ≡ none)
            ⊎ ((m : ℕ) × (maximum ≡ some m) × IsMeasured i × (sum_usage i.environments ≤ m)))
    by_quota none bytes e = ((λ h. inl refl), (λ h. refl))
    by_quota (some m) none e = (
      (λ h. cc),
      (λ h. elim h [
        | inl x ↦ cc
        | inr (n, q, measured, within) ↦
            let found = (owned_bytes_iff i (sum_usage i.environments)).1 (measured, refl) in cc
      ]),
    )
    by_quota (some m) (some b) e =
        let (measured, sum) = (owned_bytes_iff i b).0 e in
        elim (Bool-cases (ltb m b)) [
          | inl over ↦ rw over (
            (λ h. cc),
            (λ h. elim h [
              | inl x ↦ cc
              | inr (n, q, _, within) ↦ let same : m ≡ n = cc in absurd (ground arith)
            ]),
          )
          | inr fits ↦ rw fits ((λ h. inr (m, refl, measured, ground arith)), (λ h. refl))
        ]

-- The next review lies at most one interval ahead, never in the past, and it is now exactly when
-- the review is due.
pub next_review_at_lem :
    (i : Inventory) (p : ResourcePolicy) (previous : Option ℕ) (now next interval : ℕ)
    → interval_of p.cleanup_schedule ≡ some interval
    → (evaluate_resource_policy i p previous now).next_review_at ≡ some next
    → (now ≤ next)
      × (next ≤ now + interval)
      × (((evaluate_resource_policy i p previous now).cleanup_review ≡ due) ↔ (next ≡ now))
unfolding evaluate_resource_policy
next_review_at_lem i p previous now next interval e h =
    by_interval (interval_of p.cleanup_schedule) e h
  where
    by_previous :
        (n : ℕ)
        → n ≡ interval
        → (last : Option ℕ) → (schedule now last (some n)).1 ≡ some next
        → (now ≤ next)
          × (next ≤ now + interval)
          × (((schedule now last (some n)).0 ≡ due) ↔ (next ≡ now))
    by_previous n same none k = ground arith
    by_previous n same (some l) k = elim (Bool-cases (ltb now l || leb (l + n) now)) [
      | inl passed ↦ rw passed (let k' : now ≡ next = ground arith in ground arith)
      | inr later ↦ rw later (let k' : l + n ≡ next = ground arith in ground arith)
    ]

    by_interval :
        (s : Option ℕ)
        → s ≡ some interval
        → (schedule now previous s).1 ≡ some next
        → (now ≤ next)
          × (next ≤ now + interval)
          × (((schedule now previous s).0 ≡ due) ↔ (next ≡ now))
    by_interval none q k = cc
    by_interval (some n) q k = let same : n ≡ interval = cc in by_previous n same previous k
