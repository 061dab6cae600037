-- ===== src/Tests/Policies.antt =====
-- A policy file with a table of customers and one of their orders.
use rehearsal_db.Common.{
  nat, ℕ, ◌≡◌, refl, true, false, List, [], ◌∷◌, ok, err, Text, codes, text_eq,
}
use rehearsal_db.Shaping.Policy.{ShapeTable, ShapeRelationship}
use rehearsal_db.Shaping.Declarations.{
  Unknown, boolean, number, string, array, object, Items, end, item, Members, empty, member,
  duplicated,
}
use rehearsal_db.Shaping.Validation.{ShapeGraph, validate_shape_graph}
use rehearsal_db.Shaping.Accepted.{IsWellFormed, validate_shape_graph-IsWellFormed}

abbrev fields : List (Text × Unknown) → Members
fields [] = empty
fields ((n, v) ∷ r) = member n v (fields r)

abbrev texts : List Text → Items
texts [] = end
texts (t ∷ ts) = item (string t) (texts ts)

abbrev table_of : Text → ℕ → Unknown
table_of name roots = object (
    fields (
      (codes "name", string name)
      ∷ (codes "key", array (texts (codes "id" ∷ [])))
      ∷ (codes "maximumRows", number (nat 10))
      ∷ (codes "rootRows", number (nat roots))
      ∷ []))

abbrev endpoint_of : Text → Text → Unknown
endpoint_of table column =
    object
      (fields ((codes "table", string table) ∷ (codes "columns", array (texts (column ∷ []))) ∷ []))

abbrev relation : Unknown
relation = object (
    fields (
      (codes "id", string (codes "ordered_by"))
      ∷ (codes "parent", endpoint_of (codes "customers") (codes "id"))
      ∷ (codes "child", endpoint_of (codes "orders") (codes "customer"))
      ∷ (codes "nullable", boolean true)
      ∷ (codes "includeChildren", boolean false)
      ∷ (codes "maximumChildrenPerParent", number (nat 5))
      ∷ (codes "maximumRows", number (nat 20))
      ∷ []))

abbrev policy_file : Items → Unknown
policy_file relations = object (
    fields (
      (codes "shapeVersion", number (nat 1))
      ∷ (codes "seed", string (codes "spring"))
      ∷ (codes "maximumRows", number (nat 50))
      ∷ (
        codes "tables",
        array (item (table_of (codes "customers") 0) (item (table_of (codes "orders") 3) end)),
      )
      ∷ (codes "relationships", array relations)
      ∷ []))

abbrev table_named : Text → ℕ → ShapeTable
table_named name roots = record {
  schema = codes "public";
  name = name;
  key = codes "id" ∷ [];
  maximum_rows = 10;
  root_rows = roots;
  required_key_sha256 = [];
}

abbrev ordered_by : ShapeRelationship
ordered_by = record {
  id = codes "ordered_by";
  parent = record { schema = codes "public"; table = codes "customers"; columns = codes "id" ∷ [] };
  child = record {
    schema = codes "public";
    table = codes "orders";
    columns = codes "customer" ∷ [];
  };
  nullable = true;
  include_children = false;
  maximum_children_per_parent = 5;
  maximum_rows = 20;
}

abbrev graph : ShapeGraph
graph = record {
  maximum_source_rows = 10000;
  maximum_rows = 50;
  tables = table_named (codes "customers") 0 ∷ table_named (codes "orders") 3 ∷ [];
  relationships = ordered_by ∷ [];
}

graph_accepted : validate_shape_graph (policy_file (item relation end)) ≡ ok graph
unfolding validate_shape_graph text_eq
graph_accepted = refl

-- Two relationships with one id.
graph_refused :
    validate_shape_graph (policy_file (item relation (item relation end))) ≡ err duplicated
unfolding validate_shape_graph text_eq
graph_refused = refl

validate_shape_graph-IsWellFormed_example : IsWellFormed graph
validate_shape_graph-IsWellFormed_example =
    validate_shape_graph-IsWellFormed (policy_file (item relation end)) graph graph_accepted
