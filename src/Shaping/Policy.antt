-- ===== src/Shaping/Policy.antt =====
-- src/source/shaping/shape_contract.mts: the reviewed declarations of a sample, as far as the sampler
-- reads them. A record has its table and its row.
use rehearsal_db.Common.{
  ℕ, Bool, Option, none, some, List, [], ◌∷◌, ◌++◌, map, Text, codes, text_eq, if◌then◌else◌,
}
use rehearsal_db.Shaping.Keys.{Row, Format, exact, Value}

pub record ShapeTable : Type 0 where
  pub schema : Text
  pub name : Text
  pub key : List Text
  pub maximum_rows : ℕ
  pub root_rows : ℕ
  pub required_key_sha256 : List Text

pub record ShapeEndpoint : Type 0 where
  pub schema : Text
  pub table : Text
  pub columns : List Text

pub record ShapeRelationship : Type 0 where
  pub id : Text
  pub parent : ShapeEndpoint
  pub child : ShapeEndpoint
  pub nullable : Bool
  pub include_children : Bool
  pub maximum_children_per_parent : ℕ
  pub maximum_rows : ℕ

pub data ShapeDistributionKind : Type 0 where
  of_null of_boolean of_number of_timestamp of_string_length of_array_length : ShapeDistributionKind
  of_enum of_empty relationship_fanout number_extrema timestamp_extrema : ShapeDistributionKind
  string_length_extrema array_length_extrema : ShapeDistributionKind

-- What a joint and a scalar distribution share.
pub record ShapeGoal : Type 0 where
  pub id : Text
  pub schema : Text
  pub table : Text
  pub minimum_bucket_rows : ℕ

-- The boundaries are numbers by their spelling.
pub record ShapeDistribution : Type 0 where
  pub goal : ShapeGoal
  pub column : Option Text
  pub kind : ShapeDistributionKind
  pub boundaries : List Text
  pub values : List Value
  pub include_other : Bool
  pub relationship : Option Text

pub record ShapeJointDistribution : Type 0 where
  pub goal : ShapeGoal
  pub goals : List Text
  pub bucket_count : ℕ

pub record BaselineShapePolicy : Type 0 where
  pub maximum_source_rows : ℕ
  pub maximum_source_bytes : ℕ
  pub maximum_rows : ℕ
  pub maximum_depth : ℕ
  pub minimum_cohort_size : ℕ
  pub tables : List ShapeTable
  pub relationships : List ShapeRelationship
  pub distributions : List ShapeDistribution
  pub joint_distributions : List ShapeJointDistribution

pub record ShapeRecord : Type 0 where
  pub schema : Option Text
  pub table : Text
  pub row : Row

-- `shapeTableIdentity`
abbrev pub table_identity : Text → Text → Text
table_identity schema table = schema ++ b'.' ∷ table

abbrev pub endpoint_identity : ShapeEndpoint → Text
endpoint_identity e = table_identity e.schema e.table

-- `tableDeclarations.get(table)`: of two declarations of one table, the later one counts.
unfoldable pub declaration_of : Text → List ShapeTable → Option ShapeTable
declaration_of t [] = none
declaration_of t (d ∷ ds) =
    let here = if text_eq (table_identity d.schema d.name) t then some d else none in
    elim (declaration_of t ds) [ some e ↦ some e | none ↦ here ]

abbrev pub schema_of : ShapeRecord → Text
schema_of r = elim r.schema [ none ↦ codes "public" | some s ↦ s ]

abbrev pub record_table : ShapeRecord → Text
record_table r = table_identity (schema_of r) r.table

-- `context?.get(table)?.get(column) ?? "exact"` for each column, by the context as a function.
abbrev pub ShapeKeyContext : Type 0
ShapeKeyContext = Text → Text → Option Format

abbrev pub or_exact : Option Format → Format
or_exact none = exact
or_exact (some f) = f

abbrev pub shape_key_formats : ShapeKeyContext → Text → Text → List Text → List Format
shape_key_formats context schema table columns =
    map (λ c. or_exact (context (table_identity schema table) c)) columns

-- `[...policy.jointDistributions, ...policy.distributions]`, as far as they are goals.
abbrev pub joint_first : BaselineShapePolicy → List ShapeGoal
joint_first policy =
    map (λ j. j.goal) policy.joint_distributions ++ map (λ d. d.goal) policy.distributions
