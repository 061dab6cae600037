-- ===== src/Shaping/Measuring.antt =====
-- src/source/shaping/shape_profiles.mts: the rows of a goal, their extremes and fan-outs, and the bucket of
-- each.
use rehearsal_db.Common.{
  ℕ, ◌+◌, Bool, true, false, Option, none, some, List, [], ◌∷◌, Result, ok, err, ◌>>=◌, Text,
  text_eq, length, keep, ◌==◌, if◌then◌else◌,
}
use rehearsal_db.Shaping.Keys.{
  ShapeError, Value, null, Row, column_value, shape_key_tuple, missing_edge_field,
  undeclared_fan_out,
}
use rehearsal_db.Shaping.Policy.{
  ShapeGoal, ShapeDistribution, ShapeJointDistribution, ShapeRelationship, ShapeEndpoint,
  ShapeRecord, ShapeKeyContext, shape_key_formats, table_identity, endpoint_identity, record_table,
}
use rehearsal_db.Shaping.Index.{Primitives}
use rehearsal_db.Shaping.Buckets.{Bucket, Measures, measure, is_extrema}
use rehearsal_db.Shaping.Classify.{ClassContext, classify_shape_bucket, is_fan_out}

-- The rows of a table, `rowsByTable.get(table) ?? []`.
abbrev pub rows_in : Text → List ShapeRecord → List ShapeRecord
rows_in table records = keep (λ r. text_eq (record_table r) table) records

abbrev pub goal_table : ShapeGoal → Text
goal_table g = table_identity g.schema g.table

-- `goal.relationship ? policy.relationships.find(...) : undefined`
unfoldable pub find_relation : Text → List ShapeRelationship → Option ShapeRelationship
find_relation id [] = none
find_relation id (r ∷ rs) = elim (text_eq r.id id) [ true ↦ some r | false ↦ find_relation id rs ]

abbrev pub relation_of : Option Text → List ShapeRelationship → Option ShapeRelationship
relation_of none rs = none
relation_of (some id) rs = if length id == 0 then none else find_relation id rs

abbrev pub child_count : List ShapeRecord → Option ShapeRelationship → ℕ
child_count records none = 0
child_count records (some r) = length (rows_in (endpoint_identity r.child) records)

-- The cells of a scalar goal.
abbrev pub goal_cells : List ShapeRecord → List ShapeRelationship → ShapeDistribution → ℕ
goal_cells records relations d =
    let rows = length (rows_in (goal_table d.goal) records) in
    rows
    + child_count records (relation_of d.relationship relations)
    + (if is_extrema d.kind then rows else 0)

unfoldable pub scalar_cells : List ShapeRecord → List ShapeRelationship → List ShapeDistribution → ℕ
unfolding find_relation
scalar_cells records relations [] = 0
scalar_cells records relations (d ∷ ds) =
    goal_cells records relations d + scalar_cells records relations ds

unfoldable pub joint_cells : List ShapeRecord → List ShapeJointDistribution → ℕ
joint_cells records [] = 0
joint_cells records (j ∷ js) = length (rows_in (goal_table j.goal) records) + joint_cells records js

-- `Math.min(context.minimum ?? value, value)`, and the maximum.
abbrev pub lower : (Text → Text → Bool) → Option Text → Text → Text
lower below none v = v
lower below (some m) v = if below v m then v else m

abbrev pub upper : (Text → Text → Bool) → Option Text → Text → Text
upper below none v = v
upper below (some m) v = if below m v then v else m

-- `context`: the smallest and the largest measure.
pub record Extremes : Type 0 where
  pub minimum : Option Text
  pub maximum : Option Text

abbrev pub edge_field : Option Text → Row → Result ShapeError Value
edge_field none r = err missing_edge_field
edge_field (some column) r = elim (if length column == 0 then none else column_value column r) [
  | none ↦ err missing_edge_field
  | some v ↦ ok v
]

abbrev pub or_zero : Option ℕ → ℕ
or_zero none = 0
or_zero (some n) = n

module _ (x : Measures) (p : Primitives) (context : ShapeKeyContext) where
  abbrev pub extended : ShapeDistribution → Extremes → Value → Result ShapeError Extremes
  extended d e null = ok e
  extended d e v =
      (measure x d.kind v >>= (λ m. ok (record {
        minimum = some (lower x.below e.minimum m);
        maximum = some (upper x.below e.maximum m);
      })))

  -- The loop over the rows of an extremal goal.
  unfoldable pub extremes :
      ShapeDistribution → Extremes → List ShapeRecord → Result ShapeError Extremes
  unfolding measure column_value
  extremes d e [] = ok e
  extremes d e (r ∷ rs) = do v ← edge_field d.column r.row; f ← extended d e v; extremes d f rs

  abbrev pub tuple : ShapeEndpoint → Bool → ShapeRecord → Result ShapeError (Option Text)
  tuple e nullable r =
      shape_key_tuple p.stringify r.row e.columns nullable
        (shape_key_formats context e.schema e.table e.columns)

  abbrev pub counted_once : (Text → ℕ) → Option Text → Text → ℕ
  counted_once counts none k = counts k
  counted_once counts (some key) k = if text_eq key k then counts k + 1 else counts k

  -- The loop over the rows of the child.
  unfoldable pub fan_outs :
      ShapeRelationship → (Text → ℕ) → List ShapeRecord → Result ShapeError (Text → ℕ)
  unfolding shape_key_tuple
  fan_outs relation counts [] = ok counts
  fan_outs relation counts (r ∷ rs) = do
    k ← tuple relation.child relation.nullable r
    fan_outs relation (counted_once counts k) rs

  abbrev pub fan_outs_of :
      ShapeDistribution → Option ShapeRelationship → List ShapeRecord → Result ShapeError (Text → ℕ)
  fan_outs_of d none records = if is_fan_out d.kind then err undeclared_fan_out else ok (λ k. 0)
  fan_outs_of d (some relation) records =
      if is_fan_out d.kind
      then fan_outs relation (λ k. 0) (rows_in (endpoint_identity relation.child) records)
      else ok (λ k. 0)

  abbrev pub row_context :
      Extremes
      → Option ShapeRelationship
      → (Text → ℕ)
      → ShapeRecord
      → Result ShapeError ClassContext
  row_context e none counts r =
      ok (record { minimum = e.minimum; maximum = e.maximum; fanout = none })
  row_context e (some relation) counts r =
      (tuple relation.parent false r >>= (λ k. ok (record {
        minimum = e.minimum;
        maximum = e.maximum;
        fanout = some (elim k [ none ↦ 0 | some key ↦ counts key ]);
      })))

  -- The bucket of a row.
  unfoldable pub classify_record :
      ShapeDistribution
      → Extremes
      → Option ShapeRelationship
      → (Text → ℕ)
      → ShapeRecord
      → Result ShapeError Bucket
  unfolding shape_key_tuple classify_shape_bucket
  classify_record d e relation counts r = do
    c ← row_context e relation counts r
    classify_shape_bucket x d r.row c

  unfoldable pub classify_records :
      ShapeDistribution
      → Extremes
      → Option ShapeRelationship
      → (Text → ℕ)
      → List ShapeRecord
      → Result ShapeError (List Bucket)
  unfolding classify_record
  classify_records d e relation counts [] = ok []
  classify_records d e relation counts (r ∷ rs) = do
    b ← classify_record d e relation counts r
    bs ← classify_records d e relation counts rs
    ok (b ∷ bs)
