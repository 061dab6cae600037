-- ===== src/Shaping/Profiling.antt =====
-- src/source/shaping/shape_profiles.mts: the buckets of all rows under all goals, and their sizes. The maps
-- by goal are functions of its id, and a record is known by its content.
use rehearsal_db.Common.{
  ℕ, ◌+◌, ◌*◌, ◌&&◌, Option, none, some, List, [], ◌∷◌, Result, ok, err, ◌>>=◌, ◌>>◌, guard, Text,
  text_eq, length, ltb, leb, if◌then◌else◌,
}
use rehearsal_db.Shaping.Keys.{ShapeError, type_error, profile_cells, no_component}
use rehearsal_db.Shaping.Policy.{
  ShapeGoal, ShapeDistribution, ShapeJointDistribution, ShapeRecord, BaselineShapePolicy,
  ShapeKeyContext, record_table,
}
use rehearsal_db.Shaping.Index.{Primitives}
use rehearsal_db.Shaping.Buckets.{Bucket, joint, same_bucket, Measures, is_extrema}
use rehearsal_db.Shaping.Classify.{distribution_bucket_names, position}
use rehearsal_db.Shaping.Measuring.{
  rows_in, goal_table, find_relation, relation_of, scalar_cells, joint_cells, Extremes, extremes,
  fan_outs, fan_outs_of, classify_record, classify_records,
}

-- `counts` and `assignments`, as functions of the goal's id; a bucket without an entry has no rows.
pub record ShapeProfiles : Type 0 where
  pub counts : Text → Bucket → ℕ
  pub assignments : Text → ShapeRecord → Option Bucket

-- `counts.set(bucket, (counts.get(bucket) ?? 0) + 1)` for each of the buckets.
unfoldable pub tally : (Bucket → ℕ) → List Bucket → Bucket → ℕ
tally counts [] b = counts b
tally counts (c ∷ cs) b = let rest = tally counts cs b in if same_bucket c b then rest + 1 else rest

abbrev pub value_of {ℓ κ} : {E : Type ℓ} {A : Type κ} → Result E A → Option A
value_of (err e) = none
value_of (ok a) = some a

-- The entries of a goal: its counts, and the bucket of each of its rows.
abbrev pub profiled :
    ShapeGoal → List Bucket → (ShapeRecord → Option Bucket) → ShapeProfiles → ShapeProfiles
profiled g bs assigned s = record {
  counts = λ id b. if text_eq g.id id then tally (s.counts id) bs b else s.counts id b;
  assignments = λ id r.
      if text_eq g.id id && text_eq (record_table r) (goal_table g)
      then assigned r
      else s.assignments id r;
}

abbrev pub no_extremes : Extremes
no_extremes = record { minimum = none; maximum = none }

-- `declarations.get(component)`: of two with one id, the later one counts.
unfoldable pub scalar_goal : Text → List ShapeDistribution → Option ShapeDistribution
scalar_goal id [] = none
scalar_goal id (d ∷ ds) =
    let here = if text_eq d.goal.id id then some d else none in
    elim (scalar_goal id ds) [ some e ↦ some e | none ↦ here ]

-- `names.indexOf(value)` and the number of names.
abbrev pub place_in : List Bucket → Option Bucket → Result ShapeError (ℕ × ℕ)
place_in names none = err no_component
place_in names (some b) =
    let at = position (λ n. same_bucket n b) names in
    do guard (ltb at (length names)) no_component; ok (at, length names)

abbrev pub named_place :
    ShapeProfiles → ShapeRecord → Text → Option ShapeDistribution → Result ShapeError (ℕ × ℕ)
named_place s r id none = err type_error
named_place s r id (some d) = place_in (distribution_bucket_names d) (s.assignments id r)

-- The places of the components of a joint goal.
unfoldable pub places :
    ShapeProfiles
    → List ShapeDistribution
    → ShapeRecord
    → List Text
    → Result ShapeError (List (ℕ × ℕ))
unfolding scalar_goal distribution_bucket_names same_bucket
places s ds r [] = ok []
places s ds r (id ∷ ids) = do
  q ← named_place s r id (scalar_goal id ds)
  qs ← places s ds r ids
  ok (q ∷ qs)

-- `index * names.length + position`
unfoldable pub joint_index : ℕ → List (ℕ × ℕ) → ℕ
joint_index index [] = index
joint_index index ((at, size) ∷ qs) = joint_index (index * size + at) qs

unfoldable pub joint_bucket :
    ShapeProfiles → List ShapeDistribution → List Text → ShapeRecord → Result ShapeError Bucket
unfolding places joint_index
joint_bucket s ds ids r = do qs ← places s ds r ids; ok (joint (joint_index 0 qs))

unfoldable pub joint_buckets :
    ShapeProfiles
    → List ShapeDistribution
    → List Text
    → List ShapeRecord
    → Result ShapeError (List Bucket)
unfolding joint_bucket
joint_buckets s ds ids [] = ok []
joint_buckets s ds ids (r ∷ rs) = do
  b ← joint_bucket s ds ids r
  bs ← joint_buckets s ds ids rs
  ok (b ∷ bs)

module _ (x : Measures) (p : Primitives) (policy : BaselineShapePolicy)
    (context : ShapeKeyContext) where
  -- One round of the loop over the scalar goals.
  unfoldable pub profile_scalar :
      List ShapeRecord → ShapeProfiles → ShapeDistribution → Result ShapeError ShapeProfiles
  unfolding extremes fan_outs find_relation classify_records tally
  profile_scalar records s d =
      let rows = rows_in (goal_table d.goal) records in
      let relation = relation_of d.relationship policy.relationships in
      do
        e ← (if is_extrema d.kind then extremes x p context d no_extremes rows else ok no_extremes)
        f ← fan_outs_of x p context d relation records
        bs ← classify_records x p context d e relation f rows
        ok (profiled d.goal bs (λ r. value_of (classify_record x p context d e relation f r)) s)

  unfoldable pub profile_scalars :
      List ShapeRecord → ShapeProfiles → List ShapeDistribution → Result ShapeError ShapeProfiles
  unfolding profile_scalar
  profile_scalars records s [] = ok s
  profile_scalars records s (d ∷ ds) = do
    t ← profile_scalar records s d
    profile_scalars records t ds

  -- The loop over the joint goals.
  unfoldable pub profile_joints :
      List ShapeRecord
      → ShapeProfiles
      → List ShapeJointDistribution
      → Result ShapeError ShapeProfiles
  unfolding joint_buckets tally
  profile_joints records s [] = ok s
  profile_joints records s (j ∷ js) = do
    bs ← joint_buckets s policy.distributions j.goals (rows_in (goal_table j.goal) records)
    profile_joints records
        (profiled j.goal bs (λ r. value_of (joint_bucket s policy.distributions j.goals r)) s) js

  unfoldable pub profile_shape_records : List ShapeRecord → Result ShapeError ShapeProfiles
  unfolding scalar_cells joint_cells profile_scalars profile_joints
  profile_shape_records records = do
    guard
        (leb
          (scalar_cells records policy.relationships policy.distributions
            + joint_cells records policy.joint_distributions)
          1000000)
        profile_cells
    s ←
        profile_scalars records (record { counts = λ id b. 0; assignments = λ id r. none })
          policy.distributions
    profile_joints records s policy.joint_distributions
