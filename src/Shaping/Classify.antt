-- ===== src/Shaping/Classify.antt =====
-- src/source/shaping/shape_profiles.mts: the bucket of a row under a scalar goal.
use rehearsal_db.Common.{
  ℕ, zero, suc, ◌+◌, Bool, true, false, not, ◌&&◌, ◌||◌, Option, none, some, List, [], ◌∷◌, ◌++◌,
  Result, ok, err, ◌>>=◌, Text, codes, text_eq, length, ltb, ◌==◌, if◌then◌else◌,
}
use rehearsal_db.Shaping.Keys.{
  ShapeError, Value, null, string, number, boolean, array, plain_object, Row, column_value,
  unmeasured_fan_out, missing_field, unknown_category, not_an_empty_class, not_boolean,
  unmeasured_extremum,
}
use rehearsal_db.Shaping.Policy.{
  ShapeDistribution, ShapeDistributionKind, of_null, of_boolean, of_enum, of_empty,
  relationship_fanout, number_extrema, timestamp_extrema, string_length_extrema,
  array_length_extrema,
}
use rehearsal_db.Shaping.Buckets.{
  Bucket, null_class, non_null, false_class, true_class, empty_class, non_empty, other_class,
  minimum_class, maximum_class, minimum_maximum, interior, zero_class, one_class, many_class,
  category, bucket, Measures, measure, is_extrema,
}

-- `Array.from({ length }, (_, index) => ...)`
abbrev pub numbered : (ℕ → Bucket) → ℕ → List Bucket
numbered f zero = []
numbered f (suc n) = numbered f n ++ f n ∷ []

-- `goal.boundaries.join(",") === "1,2"`
abbrev pub is_zero_one_many : List Text → Bool
is_zero_one_many (a ∷ b ∷ []) = text_eq a (codes "1") && text_eq b (codes "2")
is_zero_one_many bs = false

abbrev pub fan_out_names : Bool → ℕ → List Bucket
fan_out_names true n = zero_class ∷ one_class ∷ many_class ∷ []
fan_out_names false n = numbered bucket (n + 1)

abbrev pub other_names : Bool → List Bucket
other_names true = other_class ∷ []
other_names false = []

abbrev pub kind_names : ShapeDistributionKind → ShapeDistribution → List Bucket
kind_names of_null g = null_class ∷ non_null ∷ []
kind_names of_boolean g = null_class ∷ false_class ∷ true_class ∷ []
kind_names of_empty g = null_class ∷ empty_class ∷ non_empty ∷ []
kind_names of_enum g =
    null_class ∷ numbered category (length g.values) ++ other_names g.include_other
kind_names number_extrema g =
    null_class ∷ minimum_class ∷ maximum_class ∷ minimum_maximum ∷ interior ∷ []
kind_names timestamp_extrema g =
    null_class ∷ minimum_class ∷ maximum_class ∷ minimum_maximum ∷ interior ∷ []
kind_names string_length_extrema g =
    null_class ∷ minimum_class ∷ maximum_class ∷ minimum_maximum ∷ interior ∷ []
kind_names array_length_extrema g =
    null_class ∷ minimum_class ∷ maximum_class ∷ minimum_maximum ∷ interior ∷ []
kind_names relationship_fanout g =
    fan_out_names (is_zero_one_many g.boundaries) (length g.boundaries)
kind_names _ g = null_class ∷ numbered bucket (length g.boundaries + 1)

unfoldable pub distribution_bucket_names : ShapeDistribution → List Bucket
distribution_bucket_names g = kind_names g.kind g

-- `findIndex`, with the length where there is none.
abbrev pub position {ℓ} : {A : Type ℓ} → (A → Bool) → List A → ℕ
position p [] = 0
position p (x ∷ xs) = elim (p x) [ true ↦ 0 | false ↦ suc (position p xs) ]

-- `context` of classifyShapeBucket.
pub record ClassContext : Type 0 where
  pub minimum : Option Text
  pub maximum : Option Text
  pub fanout : Option ℕ

-- `===` on the values of a category; NaN is not the same as itself.
abbrev pub is_same : Value → Value → Bool
is_same (string s) (string t) = text_eq s t
is_same (number f a s) (number g b t) = not (text_eq s (codes "NaN")) && text_eq s t
is_same (boolean a) (boolean b) = (a && b) || (not a && not b)
is_same a b = false

abbrev pub fan_out_class : Bool → ℕ → Bucket
fan_out_class true zero = zero_class
fan_out_class true (suc zero) = one_class
fan_out_class true (suc (suc n)) = many_class
fan_out_class false n = bucket n

abbrev pub empty_part : ℕ → Bucket
empty_part zero = empty_class
empty_part (suc n) = non_empty

abbrev pub empty_bucket : Value → Result ShapeError Bucket
empty_bucket (string s) = ok (empty_part (length s))
empty_bucket (array n) = ok (empty_part n)
empty_bucket (plain_object n) = ok (empty_part n)
empty_bucket _ = err not_an_empty_class

abbrev pub boolean_bucket : Value → Result ShapeError Bucket
boolean_bucket (boolean b) = ok (if b then true_class else false_class)
boolean_bucket _ = err not_boolean

abbrev pub extremum : Option Text → Option Text → Text → Result ShapeError Bucket
extremum (some a) (some b) m = ok (
    if text_eq m a
    then (if text_eq m b then minimum_maximum else minimum_class)
    else (if text_eq m b then maximum_class else interior))
extremum _ _ m = err unmeasured_extremum

abbrev pub field : Option Text → Row → Result ShapeError Value
field none r = err missing_field
field (some column) r = elim (if length column == 0 then none else column_value column r) [
  | none ↦ err missing_field
  | some v ↦ ok v
]

abbrev pub is_fan_out : ShapeDistributionKind → Bool
is_fan_out relationship_fanout = true
is_fan_out _ = false

module _ (x : Measures) where
  abbrev pub fan_out_bucket : ShapeDistribution → Option ℕ → Result ShapeError Bucket
  fan_out_bucket g none = err unmeasured_fan_out
  fan_out_bucket g (some n) = ok (
      fan_out_class (is_zero_one_many g.boundaries)
        (position (λ b. x.below (x.spelled n) b) g.boundaries))

  abbrev pub category_bucket : ShapeDistribution → Value → Result ShapeError Bucket
  category_bucket g v =
      let at = position (λ member. is_same member v) g.values in
      if ltb at (length g.values)
      then ok (category at)
      else (if g.include_other then ok other_class else err unknown_category)

  abbrev pub measured_bucket : ShapeDistribution → ClassContext → Value → Result ShapeError Bucket
  measured_bucket g c v = do
    m ← measure x g.kind v
    (if is_extrema g.kind
        then extremum c.minimum c.maximum m
        else ok (bucket (position (λ b. x.below m b) g.boundaries)))

  -- A value that is not null.
  abbrev pub value_bucket :
      ShapeDistributionKind → ShapeDistribution → ClassContext → Value → Result ShapeError Bucket
  value_bucket of_null g c v = ok non_null
  value_bucket of_enum g c v = category_bucket g v
  value_bucket of_empty g c v = empty_bucket v
  value_bucket of_boolean g c v = boolean_bucket v
  value_bucket relationship_fanout g c v = fan_out_bucket g c.fanout
  value_bucket _ g c v = measured_bucket g c v

  abbrev pub of_value : ShapeDistribution → ClassContext → Value → Result ShapeError Bucket
  of_value g c null = ok null_class
  of_value g c v = value_bucket g.kind g c v

  unfoldable pub classify_shape_bucket :
      ShapeDistribution → Row → ClassContext → Result ShapeError Bucket
  unfolding measure column_value
  classify_shape_bucket g r c =
      if is_fan_out g.kind
      then fan_out_bucket g c.fanout
      else (field g.column r >>= (λ v. of_value g c v))
