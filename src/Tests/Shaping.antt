-- ===== src/Tests/Shaping.antt =====
-- A sample of orders with their customers: one order is a root, and its customer comes with it.
use rehearsal_db.Shaping.Origins.{IsRowOf}
use rehearsal_db.Shaping.Members.{IsRecordsOf, IsSampled}
use rehearsal_db.Common.{
  keep, All, inr, zero, suc, ◌≤◌, ◌≡◌, refl, true, false, none, some, List, [], ◌∷◌, ◌++◌, Result,
  ok, Text, codes, text_eq, text_lt, length, In, byte_length, sort_by, ℕ, inl,
}
use rehearsal_db.Shaping.Keys.{string, KeyPart, plain, decimal, ShapeError, shape_key_tuple}
use rehearsal_db.Shaping.Policy.{
  table_identity, record_table, declaration_of, shape_key_formats, ShapeDistribution, of_null,
  ShapeTable, ShapeRelationship, BaselineShapePolicy, ShapeRecord, ShapeKeyContext,
  endpoint_identity,
}
use rehearsal_db.Shaping.Index.{Primitives, IndexedRow, ChildEntry}
use rehearsal_db.Shaping.Selection.{identity, Selection}
use rehearsal_db.Shaping.Budgets.{IsBounded}
use rehearsal_db.Shaping.Reach.{IsClosureOf}
use rehearsal_db.Shaping.Contexts.{
  SourceColumn, SourceSchemaTable, context_of, shape_key_context, shape_key_context-formats,
}
use rehearsal_db.Shaping.Roots.{find_goal, buckets_of}
use rehearsal_db.Shaping.Buckets.{Measures}
use rehearsal_db.Shaping.Closure.{Walk, sample_of, ShapeSample, prepare, sample_shape_graph}
use rehearsal_db.Shaping.Sample.{IsRun, sample_shape_graph-returns}
use rehearsal_db.Shaping.Promise.{
  sample_shape_graph-IsClosureOf, sample_shape_graph-IsBounded, sample_shape_graph-references,
}
use rehearsal_db.Shaping.Required.{sample_shape_graph-IsRequiredMet}

abbrev part_text : KeyPart → Text
part_text (plain (string t)) = t
part_text (decimal t) = t
part_text k = []

abbrev stringify : List KeyPart → Text
stringify [] = []
stringify (k ∷ ks) = part_text k ++ b',' ∷ stringify ks

abbrev primitives : Primitives
primitives = record {
  key_bytes = 32;
  stringify = stringify;
  record_bytes = λ r. 10;
  rank_of = λ table key. key;
  sha256 = λ key. key;
  before = text_lt;
}

abbrev tens : ℕ → Text
tens zero = []
tens (suc n) = b'1' ∷ tens n

abbrev measures : Measures
measures = record {
  to_number = λ t. (true, true, t);
  parse_date = λ t. some t;
  below = text_lt;
  spelled = tens;
}

abbrev exact_keys : ShapeKeyContext
exact_keys table column = none

abbrev customers : ShapeTable
customers = record {
  schema = codes "public";
  name = codes "customers";
  key = codes "id" ∷ [];
  maximum_rows = 2;
  root_rows = 0;
  required_key_sha256 = [];
}

abbrev orders : ShapeTable
orders = record {
  schema = codes "public";
  name = codes "orders";
  key = codes "id" ∷ [];
  maximum_rows = 2;
  root_rows = 1;
  required_key_sha256 = codes "o2," ∷ [];
}

abbrev ordered_by : ShapeRelationship
ordered_by = record {
  id = codes "ordered_by";
  parent = record { schema = codes "public"; table = codes "customers"; columns = codes "id" ∷ [] };
  child = record {
    schema = codes "public";
    table = codes "orders";
    columns = codes "customer" ∷ [];
  };
  nullable = true;
  include_children = false;
  maximum_children_per_parent = 2;
  maximum_rows = 2;
}

abbrev with_customer : ShapeDistribution
with_customer = record {
  goal = record {
    id = codes "with_customer";
    schema = codes "public";
    table = codes "orders";
    minimum_bucket_rows = 1;
  };
  column = some (codes "customer");
  kind = of_null;
  boundaries = [];
  values = [];
  include_other = false;
  relationship = none;
}

abbrev policy : BaselineShapePolicy
policy = record {
  maximum_source_rows = 10;
  maximum_source_bytes = 1000;
  maximum_rows = 3;
  maximum_depth = 1;
  minimum_cohort_size = 1;
  tables = customers ∷ orders ∷ [];
  relationships = ordered_by ∷ [];
  distributions = with_customer ∷ [];
  joint_distributions = [];
}

abbrev customer : Text → ShapeRecord
customer id = record {
  schema = none;
  table = codes "customers";
  row = (codes "id", string id) ∷ [];
}

abbrev order : Text → Text → ShapeRecord
order id by = record {
  schema = none;
  table = codes "orders";
  row = (codes "id", string id) ∷ (codes "customer", string by) ∷ [];
}

abbrev source_records : List ShapeRecord
source_records =
    customer (codes "c1")
    ∷ customer (codes "c2")
    ∷ order (codes "o1") (codes "c1")
    ∷ order (codes "o2") (codes "c2")
    ∷ []

abbrev sample : ShapeSample
sample = record {
  records = customer (codes "c2") ∷ order (codes "o2") (codes "c2") ∷ [];
  relationship_counts = (codes "ordered_by", 1) ∷ [];
}

run : sample_shape_graph primitives measures policy exact_keys source_records ≡ some (ok sample)
unfolding sample_shape_graph text_eq shape_key_tuple byte_length sort_by text_lt find_goal
    buckets_of
run = refl

sample_shape_graph-returns_example :
    (result : Result ShapeError ShapeSample) × (sample_shape_graph primitives measures policy
        exact_keys source_records
      ≡ some result)
sample_shape_graph-returns_example =
    sample_shape_graph-returns primitives measures policy exact_keys source_records

sample_shape_graph-IsClosureOf_example :
    (rows : List IndexedRow) × (entries : List ChildEntry) × (roots : Selection)
    × (chosen : Selection) × (prepare primitives measures policy exact_keys source_records
        ≡ ok (rows, (entries, roots)))
    × IsClosureOf primitives policy exact_keys rows entries roots.selected chosen
    × IsRecordsOf chosen.selected sample.records
sample_shape_graph-IsClosureOf_example =
    sample_shape_graph-IsClosureOf primitives measures policy exact_keys source_records sample run

sample_shape_graph-IsBounded_example :
    (rows : List IndexedRow) × (entries : List ChildEntry) × (roots : Selection) × (end : Walk)
    × IsRun primitives measures policy exact_keys source_records rows entries roots end
    × (sample_of primitives policy exact_keys rows entries end ≡ sample)
    × All (IsRowOf primitives policy exact_keys) end.selection.selected
    × IsBounded policy end.selection
    × (length sample.records ≤ policy.maximum_rows)
    × ((t : Text) (d : ShapeTable)
        → declaration_of t policy.tables ≡ some d
        → length (keep (λ r. text_eq (record_table r) t) sample.records) ≤ d.maximum_rows)
sample_shape_graph-IsBounded_example =
    sample_shape_graph-IsBounded primitives measures policy exact_keys source_records sample run

reference_key :
    shape_key_tuple stringify
      ((codes "id", string (codes "o2")) ∷ (codes "customer", string (codes "c2")) ∷ [])
      (codes "customer" ∷ [])
      true
      (shape_key_formats exact_keys (codes "public") (codes "orders") (codes "customer" ∷ []))
    ≡ ok (some (codes "c2,"))
unfolding shape_key_tuple text_eq byte_length
reference_key = refl

-- The order of the sample refers to customer `c2`.
sample_shape_graph-references_example :
    IsSampled primitives policy exact_keys sample.records
      (endpoint_identity ordered_by.parent ++ 0 ∷ codes "c2,")
unfolding text_eq
sample_shape_graph-references_example =
    sample_shape_graph-references primitives measures policy exact_keys source_records sample
      (order (codes "o2") (codes "c2")) ordered_by (codes "c2,") run (inr (inl refl)) (inl refl)
      refl reference_key

sample_shape_graph-IsRequiredMet_example :
    (r : IndexedRow) × In r.original source_records
    × IsRowOf primitives policy exact_keys r
    × (r.table ≡ table_identity (codes "public") (codes "orders"))
    × (r.key ≡ codes "o2,")
    × IsSampled primitives policy exact_keys sample.records (identity r)
sample_shape_graph-IsRequiredMet_example =
    sample_shape_graph-IsRequiredMet primitives measures policy exact_keys source_records sample
      orders (codes "o2,") run (inr (inl refl)) (inl refl)

abbrev integer_column : Text → SourceColumn
integer_column name = record { name = name; underlying_type = codes "int4" }

abbrev source_schema : List SourceSchemaTable
source_schema =
    record {
      schema = codes "public";
      name = codes "customers";
      columns = integer_column (codes "id") ∷ [];
    }
    ∷ record {
      schema = codes "public";
      name = codes "orders";
      columns = integer_column (codes "id") ∷ integer_column (codes "customer") ∷ [];
    }
    ∷ []

context_accepted : shape_key_context policy source_schema ≡ ok (context_of source_schema)
unfolding shape_key_context text_eq
context_accepted = refl

shape_key_context-formats_example :
    shape_key_formats
      (context_of source_schema)
      (codes "public")
      (codes "customers")
      (codes "id" ∷ [])
    ≡ shape_key_formats
        (context_of source_schema)
        (codes "public")
        (codes "orders")
        (codes "customer" ∷ [])
shape_key_context-formats_example =
    shape_key_context-formats policy source_schema (context_of source_schema) ordered_by
      context_accepted (inl refl) refl
