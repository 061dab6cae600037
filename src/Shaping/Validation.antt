-- ===== src/Shaping/Validation.antt =====
-- src/source/shaping/shape_policy.mts: the validation of a policy, up to its relationships.
use rehearsal_db.Common.{
  nat, ℕ, Bool, false, ◌&&◌, ◌||◌, Option, some, List, [], ◌∷◌, ◌++◌, map, Result, ok, err, ◌>>=◌,
  ◌>>◌, guard, Text, codes, text_eq, length, ltb, leb, ◌==◌, any, all, is_sha256, is_digit,
}
use rehearsal_db.Shaping.Policy.{
  ShapeTable, ShapeEndpoint, ShapeRelationship, table_identity, endpoint_identity, declaration_of,
}
use rehearsal_db.Shaping.Declarations.{
  PolicyError, Unknown, number, string, array, end, Members, field, names_of, size_of, or_else,
  plain_object, known_fields, identifier, integer, flag, items, each, are_distinct, columns,
  endpoint, distinct, unsupported_version, bad_seed, bad_receipt, no_root, bad_endpoints,
}

-- What the sampler reads of the accepted policy, less its distributions and its outer bounds.
pub record ShapeGraph : Type 0 where
  pub maximum_source_rows : ℕ
  pub maximum_rows : ℕ
  pub tables : List ShapeTable
  pub relationships : List ShapeRelationship

abbrev pub policy_fields : List Text
policy_fields =
    codes "shapeVersion"
    ∷ codes "seed"
    ∷ codes "maximumSourceRows"
    ∷ codes "maximumSourceBytes"
    ∷ codes "maximumRows"
    ∷ codes "maximumDepth"
    ∷ codes "minimumCohortSize"
    ∷ codes "tables"
    ∷ codes "relationships"
    ∷ codes "distributions"
    ∷ codes "jointDistributions"
    ∷ []

abbrev pub table_fields : List Text
table_fields =
    codes "schema"
    ∷ codes "name"
    ∷ codes "key"
    ∷ codes "maximumRows"
    ∷ codes "rootRows"
    ∷ codes "requiredKeySha256"
    ∷ []

abbrev pub relation_fields : List Text
relation_fields =
    codes "id"
    ∷ codes "parent"
    ∷ codes "child"
    ∷ codes "nullable"
    ∷ codes "includeChildren"
    ∷ codes "maximumChildrenPerParent"
    ∷ codes "maximumRows"
    ∷ []

abbrev pub is_version_one : Unknown → Bool
is_version_one (number (nat n)) = n == 1
is_version_one _ = false

-- A unit of `/^[a-zA-Z0-9_.-]{1,128}$/u`
abbrev pub is_seed_unit : ℕ → Bool
is_seed_unit c =
    (leb b'a' c && leb c b'z')
    || ((leb b'A' c && leb c b'Z') || (is_digit c || (c == b'_' || (c == b'.' || c == b'-'))))

abbrev pub is_seed : Unknown → Bool
is_seed (string s) = all is_seed_unit s && (ltb 0 (length s) && leb (length s) 128)
is_seed _ = false

abbrev pub receipt : Unknown → Result PolicyError Text
receipt (string s) = do guard (is_sha256 s) bad_receipt; ok s
receipt _ = err bad_receipt

-- The callback on tables.
unfoldable pub shape_table : ℕ → Unknown → Result PolicyError ShapeTable
unfolding field names_of size_of each are_distinct columns text_eq is_digit is_sha256
shape_table maximum v = do
  ms ← plain_object v
  known_fields table_fields ms
  most ← integer (field (codes "maximumRows") ms) 1 maximum
  receipts ← items (or_else (field (codes "requiredKeySha256") ms) (array end)) 100
  required ← each receipt receipts
  distinct required
  schema ← identifier (or_else (field (codes "schema") ms) (string (codes "public")))
  name ← identifier (field (codes "name") ms)
  key ← columns (field (codes "key") ms)
  roots ← integer (or_else (field (codes "rootRows") ms) (number (nat 0))) 0 most
  ok (record {
    schema = schema;
    name = name;
    key = key;
    maximum_rows = most;
    root_rows = roots;
    required_key_sha256 = required;
  })

abbrev pub has_root : ShapeTable → Bool
has_root d = ltb 0 d.root_rows || ltb 0 (length d.required_key_sha256)

-- `join("\0")`
unfoldable pub joined : List Text → Text
joined [] = []
joined (x ∷ []) = x
joined (x ∷ y ∷ xs) = x ++ 0 ∷ joined (y ∷ xs)

abbrev pub fits_key : ShapeEndpoint → ShapeEndpoint → Option ShapeTable → Option ShapeTable → Bool
fits_key parent child (some p) (some c) =
    (length parent.columns == length child.columns)
    && text_eq (joined parent.columns) (joined p.key)
fits_key parent child _ _ = false

-- The callback on relationships.
unfoldable pub shape_relationship :
    ℕ → List ShapeTable → Unknown → Result PolicyError ShapeRelationship
unfolding field names_of endpoint joined text_eq declaration_of is_digit
shape_relationship maximum tables v = do
  ms ← plain_object v
  known_fields relation_fields ms
  parent ← endpoint (field (codes "parent") ms)
  child ← endpoint (field (codes "child") ms)
  guard
      (fits_key parent child (declaration_of (endpoint_identity parent) tables)
        (declaration_of (endpoint_identity child) tables))
      bad_endpoints
  id ← identifier (field (codes "id") ms)
  nullable ← flag (field (codes "nullable") ms)
  include ← flag (field (codes "includeChildren") ms)
  children ← integer (field (codes "maximumChildrenPerParent") ms) 0 maximum
  most ← integer (field (codes "maximumRows") ms) 1 maximum
  ok (record {
    id = id;
    parent = parent;
    child = child;
    nullable = nullable;
    include_children = include;
    maximum_children_per_parent = children;
    maximum_rows = most;
  })

-- The relationships, of declared tables.
unfoldable pub with_relationships :
    ℕ → ℕ → List ShapeTable → Members → Result PolicyError ShapeGraph
unfolding field size_of each are_distinct shape_relationship text_eq
with_relationships source most tables ms = do
  rs ← items (or_else (field (codes "relationships") ms) (array end)) 200
  relationships ← each (shape_relationship most tables) rs
  distinct (map (λ r. r.id) relationships)
  ok (record {
    maximum_source_rows = source;
    maximum_rows = most;
    tables = tables;
    relationships = relationships;
  })

-- The tables, and what follows.
unfoldable pub with_tables : ℕ → ℕ → Members → Result PolicyError ShapeGraph
unfolding field size_of each are_distinct shape_table text_eq with_relationships
with_tables source most ms = do
  ts ← items (field (codes "tables") ms) 100
  tables ← each (shape_table most) ts
  guard (any has_root tables) no_root
  distinct (map (λ d. table_identity d.schema d.name) tables)
  with_relationships source most tables ms

-- validateBaselineShapePolicy, to its relationships.
unfoldable pub validate_shape_graph : Unknown → Result PolicyError ShapeGraph
unfolding field names_of text_eq is_digit with_tables
validate_shape_graph v = do
  ms ← plain_object v
  known_fields policy_fields ms
  guard (is_version_one (field (codes "shapeVersion") ms)) unsupported_version
  guard (is_seed (field (codes "seed") ms)) bad_seed
  source ← integer (or_else (field (codes "maximumSourceRows") ms) (number (nat 10000))) 1 100000
  most ← integer (field (codes "maximumRows") ms) 1 source
  with_tables source most ms
