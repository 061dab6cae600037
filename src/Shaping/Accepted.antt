-- ===== src/Shaping/Accepted.antt =====
-- src/source/shaping/shape_policy.mts, validateBaselineShapePolicy: accepted policies.
use rehearsal_db.Common.{
  nat, other, max_safe_integer, ℕ, ◌≤◌, ◌≡◌, refl, subst, true, not, ◌&&◌, Option, none, some, List,
  [], ◌∷◌, map, Result, ok, guard, guard-eq-ok, >>=-eq-ok, >>-eq-ok, Text, codes, text_eq, ==_iff,
  length, leb, ◌==◌, arith, All, In, any, any-text_eq_iff, and-eq-true, text_eq_sound, ok-injective,
}
use rehearsal_db.Shaping.Policy.{
  ShapeTable, ShapeEndpoint, ShapeRelationship, table_identity, endpoint_identity, declaration_of,
}
use rehearsal_db.Shaping.Declarations.{
  PolicyError, Unknown, undefined, null, other_value, boolean, number, string, array, object, Items,
  end, item, Members, field, or_else, plain_object, known_fields, identifier, integer, flag, items,
  each, are_distinct, columns, endpoint, distinct, unsupported_version, bad_seed, no_root,
  bad_endpoints, duplicated, out_of_bounds,
}
use rehearsal_db.Shaping.Validation.{
  ShapeGraph, policy_fields, table_fields, relation_fields, is_version_one, is_seed, receipt,
  shape_table, has_root, joined, fits_key, shape_relationship, validate_shape_graph, with_tables,
  with_relationships,
}

-- No text twice.
abbrev pub IsUnique : List Text → Type 0
IsUnique [] = Unit {0}
IsUnique (x ∷ xs) = (¬ In x xs) × IsUnique xs

are_distinct_sound : (xs : List Text) → are_distinct xs ≡ true → IsUnique xs
unfolding are_distinct
are_distinct_sound [] h = tt
are_distinct_sound (x ∷ xs) h =
    let (new, rest) = and-eq-true (not (any (text_eq x) xs)) (are_distinct xs) h in
    ((λ i. let there = (any-text_eq_iff x xs).1 i in cc), are_distinct_sound xs rest)

each-All :
    {A : Type 0} (P : A → Type 0) (f : Unknown → Result PolicyError A) (vs : Items)
    (as_read : List A)
    → ((v : Unknown) (a : A) → f v ≡ ok a → P a)
    → each f vs ≡ ok as_read
    → All P as_read
unfolding each
each-All P f end l every h = let same : [] ≡ l = cc in subst (All P) same tt
each-All P f (item v vs) l every h =
    let (a, e, h') = >>=-eq-ok (f v) _ h in
    let (rest, e', h'') = >>=-eq-ok (each f vs) _ h' in
    let same : a ∷ rest ≡ l = cc in subst (All P) same (every v a e, each-All P f vs rest every e')

integer-eq-ok : (v : Unknown) (low high n : ℕ) → integer v low high ≡ ok n → (low ≤ n) × (n ≤ high)
integer-eq-ok (number (nat m)) low high n h =
    let (test, e) =
      >>-eq-ok (guard (leb m max_safe_integer && (leb low m && leb m high)) out_of_bounds) _ h in
    let fits =
      guard-eq-ok (leb m max_safe_integer && (leb low m && leb m high)) out_of_bounds test in
    let same : m ≡ n = cc in subst (λ n. (low ≤ n) × (n ≤ high)) same (ground arith, ground arith)
integer-eq-ok (number other) low high n h = cc
integer-eq-ok undefined low high n h = cc
integer-eq-ok null low high n h = cc
integer-eq-ok other_value low high n h = cc
integer-eq-ok (boolean b) low high n h = cc
integer-eq-ok (string s) low high n h = cc
integer-eq-ok (array vs) low high n h = cc
integer-eq-ok (object ms) low high n h = cc

-- The roots of a table are within its rows, those within the maximum, and the required receipts differ.
abbrev pub IsBudgeted : ℕ → ShapeTable → Type 0
IsBudgeted maximum d =
    (d.root_rows ≤ d.maximum_rows)
    × (1 ≤ d.maximum_rows)
    × (d.maximum_rows ≤ maximum)
    × IsUnique d.required_key_sha256

-- Both ends are declared, and the parent's columns are, joined, the key of its table.
abbrev pub IsKeyed : ℕ → List ShapeTable → ShapeRelationship → Type 0
IsKeyed maximum tables r =
    (parent : ShapeTable) × (child : ShapeTable) × (declaration_of (endpoint_identity r.parent)
        tables
      ≡ some parent)
    × (declaration_of (endpoint_identity r.child) tables ≡ some child)
    × (joined r.parent.columns ≡ joined parent.key)
    × (length r.parent.columns ≡ length r.child.columns)
    × (r.maximum_children_per_parent ≤ maximum)
    × (1 ≤ r.maximum_rows)
    × (r.maximum_rows ≤ maximum)

fits_key_sound :
    (a b : ShapeEndpoint) (o o' : Option ShapeTable)
    → fits_key a b o o' ≡ true
    → (parent : ShapeTable) × (child : ShapeTable) × (o ≡ some parent)
      × (o' ≡ some child)
      × (joined a.columns ≡ joined parent.key)
      × (length a.columns ≡ length b.columns)
fits_key_sound a b none o' h = cc
fits_key_sound a b (some p) none h = cc
fits_key_sound a b (some p) (some c) h =
    let (sizes, keys) =
      and-eq-true (length a.columns == length b.columns) (text_eq (joined a.columns) (joined p.key))
        h in
    (
      p,
      c,
      refl,
      refl,
      text_eq_sound (joined a.columns) (joined p.key) keys,
      (==_iff (length a.columns) (length b.columns)).0 sizes,
    )

shape_table-IsBudgeted :
    (maximum : ℕ) (v : Unknown) (d : ShapeTable)
    → shape_table maximum v ≡ ok d
    → IsBudgeted maximum d
unfolding shape_table
shape_table-IsBudgeted maximum v d h =
    let (ms, e0, h0) = >>=-eq-ok (plain_object v) _ h in
    let (e1, h1) = >>-eq-ok (known_fields table_fields ms) _ h0 in
    let (most, e2, h2) = >>=-eq-ok (integer (field (codes "maximumRows") ms) 1 maximum) _ h1 in
    let (receipts, e3, h3) =
      >>=-eq-ok (items (or_else (field (codes "requiredKeySha256") ms) (array end)) 100) _ h2 in
    let (required, e4, h4) = >>=-eq-ok (each receipt receipts) _ h3 in
    let (e5, h5) = >>-eq-ok (distinct required) _ h4 in
    let (schema, e6, h6) =
      >>=-eq-ok (identifier (or_else (field (codes "schema") ms) (string (codes "public")))) _ h5 in
    let (name, e7, h7) = >>=-eq-ok (identifier (field (codes "name") ms)) _ h6 in
    let (key, e8, h8) = >>=-eq-ok (columns (field (codes "key") ms)) _ h7 in
    let (roots, e9, h9) =
      >>=-eq-ok (integer (or_else (field (codes "rootRows") ms) (number (nat 0))) 0 most) _ h8 in
    let (low, high) = integer-eq-ok (field (codes "maximumRows") ms) 1 maximum most e2 in
    let (zero_low, root_high) =
      integer-eq-ok (or_else (field (codes "rootRows") ms) (number (nat 0))) 0 most roots e9 in
    subst (IsBudgeted maximum) (ok-injective _ refl h9) (
      root_high,
      low,
      high,
      are_distinct_sound required (guard-eq-ok (are_distinct required) duplicated e5),
    )

shape_relationship-IsKeyed :
    (maximum : ℕ) (tables : List ShapeTable) (v : Unknown) (r : ShapeRelationship)
    → shape_relationship maximum tables v ≡ ok r
    → IsKeyed maximum tables r
unfolding shape_relationship
shape_relationship-IsKeyed maximum tables v r h =
    let (ms, e0, h0) = >>=-eq-ok (plain_object v) _ h in
    let (e1, h1) = >>-eq-ok (known_fields relation_fields ms) _ h0 in
    let (parent, e2, h2) = >>=-eq-ok (endpoint (field (codes "parent") ms)) _ h1 in
    let (child, e3, h3) = >>=-eq-ok (endpoint (field (codes "child") ms)) _ h2 in
    let fits =
      fits_key parent child (declaration_of (endpoint_identity parent) tables)
        (declaration_of (endpoint_identity child) tables) in
    let (e4, h4) = >>-eq-ok (guard fits bad_endpoints) _ h3 in
    let (id, e5, h5) = >>=-eq-ok (identifier (field (codes "id") ms)) _ h4 in
    let (nullable, e6, h6) = >>=-eq-ok (flag (field (codes "nullable") ms)) _ h5 in
    let (include, e7, h7) = >>=-eq-ok (flag (field (codes "includeChildren") ms)) _ h6 in
    let (children, e8, h8) =
      >>=-eq-ok (integer (field (codes "maximumChildrenPerParent") ms) 0 maximum) _ h7 in
    let (most, e9, h9) = >>=-eq-ok (integer (field (codes "maximumRows") ms) 1 maximum) _ h8 in
    let (p, c, known, known', keys, sizes) =
      fits_key_sound parent child _ _ (guard-eq-ok fits bad_endpoints e4) in
    let (zero_low, children_high) =
      integer-eq-ok (field (codes "maximumChildrenPerParent") ms) 0 maximum children e8 in
    let (low, high) = integer-eq-ok (field (codes "maximumRows") ms) 1 maximum most e9 in
    subst (IsKeyed maximum tables) (ok-injective _ refl h9)
      (p, c, known, known', keys, sizes, children_high, low, high)

-- An accepted policy: its bounds, its tables, and its relationships.
pub record IsWellFormed (g : ShapeGraph) : Type 0 where
  pub limited :
      (1 ≤ g.maximum_rows)
      × (g.maximum_rows ≤ g.maximum_source_rows)
      × (g.maximum_source_rows ≤ 100000)
  pub tables_unique : IsUnique (map (λ d. table_identity d.schema d.name) g.tables)
  pub budgeted : All (IsBudgeted g.maximum_rows) g.tables
  pub rooted : any has_root g.tables ≡ true
  pub relationships_unique : IsUnique (map (λ r. r.id) g.relationships)
  pub keyed : All (IsKeyed g.maximum_rows g.tables) g.relationships

with_relationships-IsWellFormed :
    (source most : ℕ) (tables : List ShapeTable) (ms : Members) (g : ShapeGraph)
    → (1 ≤ most) × (most ≤ source) × (source ≤ 100000)
    → IsUnique (map (λ d. table_identity d.schema d.name) tables)
    → All (IsBudgeted most) tables
    → any has_root tables ≡ true
    → with_relationships source most tables ms ≡ ok g
    → IsWellFormed g
unfolding with_relationships
with_relationships-IsWellFormed source most tables ms g limited unique budgeted rooted h =
    let (rs, e0, h0) =
      >>=-eq-ok (items (or_else (field (codes "relationships") ms) (array end)) 200) _ h in
    let (relationships, e1, h1) = >>=-eq-ok (each (shape_relationship most tables) rs) _ h0 in
    let (e2, h2) = >>-eq-ok (distinct (map (λ r. r.id) relationships)) _ h1 in
    subst IsWellFormed (ok-injective _ refl h2) (record {
      limited = limited;
      tables_unique = unique;
      budgeted = budgeted;
      rooted = rooted;
      relationships_unique =
          are_distinct_sound (map (λ r. r.id) relationships)
            (guard-eq-ok (are_distinct (map (λ r. r.id) relationships)) duplicated e2);
      keyed =
          each-All (IsKeyed most tables) (shape_relationship most tables) rs relationships
            (shape_relationship-IsKeyed most tables) e1;
    })

with_tables-IsWellFormed :
    (source most : ℕ) (ms : Members) (g : ShapeGraph)
    → (1 ≤ most) × (most ≤ source) × (source ≤ 100000)
    → with_tables source most ms ≡ ok g
    → IsWellFormed g
unfolding with_tables
with_tables-IsWellFormed source most ms g limited h =
    let (ts, e0, h0) = >>=-eq-ok (items (field (codes "tables") ms) 100) _ h in
    let (tables, e1, h1) = >>=-eq-ok (each (shape_table most) ts) _ h0 in
    let (e2, h2) = >>-eq-ok (guard (any has_root tables) no_root) _ h1 in
    let (e3, h3) = >>-eq-ok (distinct (map (λ d. table_identity d.schema d.name) tables)) _ h2 in
    with_relationships-IsWellFormed source most tables ms g limited
      (are_distinct_sound (map (λ d. table_identity d.schema d.name) tables) (
        guard-eq-ok (are_distinct (map (λ d. table_identity d.schema d.name) tables)) duplicated
          e3))
      (each-All (IsBudgeted most) (shape_table most) ts tables (shape_table-IsBudgeted most) e1)
      (guard-eq-ok (any has_root tables) no_root e2) h3

-- A policy file that is accepted is well formed: its row bounds nest, no two tables and no two
-- relationships have one name, some table has a root, the roots of a table are within its rows, and a
-- relationship joins declared tables on the key of its parent.
pub validate_shape_graph-IsWellFormed :
    (v : Unknown) (g : ShapeGraph) → validate_shape_graph v ≡ ok g → IsWellFormed g
unfolding validate_shape_graph
validate_shape_graph-IsWellFormed v g h =
    let (ms, e0, h0) = >>=-eq-ok (plain_object v) _ h in
    let (e1, h1) = >>-eq-ok (known_fields policy_fields ms) _ h0 in
    let (e2, h2) =
      >>-eq-ok (guard (is_version_one (field (codes "shapeVersion") ms)) unsupported_version) _
        h1 in
    let (e3, h3) = >>-eq-ok (guard (is_seed (field (codes "seed") ms)) bad_seed) _ h2 in
    let (source, e4, h4) =
      >>=-eq-ok
        (integer (or_else (field (codes "maximumSourceRows") ms) (number (nat 10000))) 1 100000) _
        h3 in
    let (most, e5, h5) = >>=-eq-ok (integer (field (codes "maximumRows") ms) 1 source) _ h4 in
    let (low, high) = integer-eq-ok (field (codes "maximumRows") ms) 1 source most e5 in
    let (source_low, source_high) =
      integer-eq-ok (or_else (field (codes "maximumSourceRows") ms) (number (nat 10000))) 1 100000
        source e4 in
    with_tables-IsWellFormed source most ms g (low, high, source_high) h5
