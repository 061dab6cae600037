-- ===== src/Shaping/Contexts.antt =====
-- src/source/shaping/shape_keys.mts: the formats of the key columns, from the schema of the source.
use rehearsal_db.Common.{
  ◌≡◌, refl, ap, subst, ◌∙◌, inl, inr, Bool, true, false, ◌&&◌, Option, none, some, List, [], ◌∷◌,
  map, Result, ok, ◌>>◌, guard, guard-eq-ok, >>-eq-ok, Text, codes, text_eq, length, arith,
  if◌then◌else◌, In, any, all, and-eq-true, ok-injective,
}
use rehearsal_db.Shaping.Keys.{Format, exact, numeric}
use rehearsal_db.Shaping.Policy.{
  ShapeTable, ShapeRelationship, ShapeKeyContext, BaselineShapePolicy, table_identity,
  endpoint_identity, or_exact, shape_key_formats,
}

pub data ContextError : Type 0 where
  missing_key_column incompatible_key_types : ContextError

pub record SourceColumn : Type 0 where
  pub name : Text
  pub underlying_type : Text

pub record SourceSchemaTable : Type 0 where
  pub schema : Text
  pub name : Text
  pub columns : List SourceColumn

abbrev pub numeric_types : List Text
numeric_types = codes "int2" ∷ codes "int4" ∷ codes "int8" ∷ codes "numeric" ∷ []

unfoldable pub format_of_type : Text → Format
unfolding text_eq
format_of_type t = if any (text_eq t) numeric_types then numeric else exact

-- `columns.get(column)`: of two columns with one name, the later one counts.
unfoldable pub column_format : Text → List SourceColumn → Option Format
unfolding format_of_type
column_format c [] = none
column_format c (d ∷ ds) =
    let here = if text_eq d.name c then some (format_of_type d.underlying_type) else none in
    elim (column_format c ds) [ some f ↦ some f | none ↦ here ]

-- `context.get(table)`, the later table of two.
unfoldable pub context_table : Text → List SourceSchemaTable → Option SourceSchemaTable
context_table t [] = none
context_table t (d ∷ ds) =
    let here = if text_eq (table_identity d.schema d.name) t then some d else none in
    elim (context_table t ds) [ some e ↦ some e | none ↦ here ]

-- `context.get(table)?.get(column)`
unfoldable pub context_of : List SourceSchemaTable → ShapeKeyContext
unfolding column_format context_table
context_of source table column = elim (context_table table source) [
  | none ↦ none
  | some d ↦ column_format column d.columns
]

abbrev pub has_columns : ShapeKeyContext → Text → List Text → Bool
has_columns context table key =
    all (λ c. elim (context table c) [ none ↦ false | some f ↦ true ]) key

-- The loop over tables; a table that is missing has no columns.
unfoldable pub check_tables :
    List SourceSchemaTable → List ShapeTable → Result ContextError (Unit {0})
unfolding context_of context_table
check_tables source [] = ok tt
check_tables source (d ∷ ds) =
    let table = table_identity d.schema d.name in
    (guard
        (elim (context_table table source) [
          | none ↦ false
          | some t ↦ has_columns (context_of source) table d.key
        ])
        missing_key_column
      >> check_tables source ds)

abbrev pub is_same_format : Option Format → Option Format → Bool
is_same_format (some exact) (some exact) = true
is_same_format (some numeric) (some numeric) = true
is_same_format a b = false

-- The columns of the parent against those of the child at the same places; a place without one has none.
unfoldable pub agree :
    (Text → Option Format) → (Text → Option Format) → List Text → List Text → Bool
agree parent child [] cs = true
agree parent child (a ∷ ps) [] = false
agree parent child (a ∷ ps) (b ∷ cs) =
    let rest = agree parent child ps cs in is_same_format (parent a) (child b) && rest

-- The loop over relationships.
unfoldable pub check_relations :
    ShapeKeyContext → List ShapeRelationship → Result ContextError (Unit {0})
unfolding agree
check_relations context [] = ok tt
check_relations context (r ∷ rs) =
    (guard
        (agree (context (endpoint_identity r.parent)) (context (endpoint_identity r.child))
          r.parent.columns r.child.columns)
        incompatible_key_types
      >> check_relations context rs)

unfoldable pub shape_key_context :
    BaselineShapePolicy → List SourceSchemaTable → Result ContextError ShapeKeyContext
unfolding check_tables check_relations context_of
shape_key_context policy source = do
  check_tables source policy.tables
  check_relations (context_of source) policy.relationships
  ok (context_of source)

is_same_format_sound : (o o' : Option Format) → is_same_format o o' ≡ true → o ≡ o'
is_same_format_sound none o' h = cc
is_same_format_sound (some exact) none h = cc
is_same_format_sound (some numeric) none h = cc
is_same_format_sound (some exact) (some exact) h = refl
is_same_format_sound (some exact) (some numeric) h = cc
is_same_format_sound (some numeric) (some exact) h = cc
is_same_format_sound (some numeric) (some numeric) h = refl

agree-formats :
    (parent child : Text → Option Format) (ps cs : List Text)
    → agree parent child ps cs ≡ true
    → length ps ≡ length cs
    → map (λ c. or_exact (parent c)) ps ≡ map (λ c. or_exact (child c)) cs
unfolding agree
agree-formats parent child [] [] h l = refl
agree-formats parent child [] (b ∷ cs) h l = let never : ⊥ = omega arith in elim never [ ]
agree-formats parent child (a ∷ ps) [] h l = cc
agree-formats parent child (a ∷ ps) (b ∷ cs) h l =
    let (here, rest) =
      and-eq-true (is_same_format (parent a) (child b)) (agree parent child ps cs) h in
    let same = is_same_format_sound (parent a) (child b) here in
    let tail = agree-formats parent child ps cs rest (omega arith) in
    ap (λ o. or_exact o ∷ map (λ c. or_exact (parent c)) ps) same
    ∙ ap (λ l. or_exact (child b) ∷ l) tail

check_relations-agree :
    (context : ShapeKeyContext) (rs : List ShapeRelationship) (r : ShapeRelationship)
    → check_relations context rs ≡ ok tt
    → In r rs
    → agree
        (context (endpoint_identity r.parent))
        (context (endpoint_identity r.child))
        r.parent.columns
        r.child.columns
      ≡ true
unfolding check_relations
check_relations-agree context [] r h i = elim i [ ]
check_relations-agree context (q ∷ rs) r h i =
    let fits =
      agree (context (endpoint_identity q.parent)) (context (endpoint_identity q.child))
        q.parent.columns q.child.columns in
    let (first, rest) = >>-eq-ok (guard fits incompatible_key_types) _ h in
    elim i [
      | inl same ↦
          subst
            (λ r.
              agree (context (endpoint_identity r.parent)) (context (endpoint_identity r.child))
                r.parent.columns r.child.columns
              ≡ true)
            same (guard-eq-ok fits incompatible_key_types first)
      | inr later ↦ check_relations-agree context rs r rest later
    ]

-- Under an accepted context the columns of a relationship are written in the same formats at its parent and
-- at its child, if they are equally many.
pub shape_key_context-formats :
    (policy : BaselineShapePolicy) (source : List SourceSchemaTable) (context : ShapeKeyContext)
    (r : ShapeRelationship)
    → shape_key_context policy source ≡ ok context
    → In r policy.relationships
    → length r.parent.columns ≡ length r.child.columns
    → shape_key_formats context r.parent.schema r.parent.table r.parent.columns
      ≡ shape_key_formats context r.child.schema r.child.table r.child.columns
unfolding shape_key_context
shape_key_context-formats policy source context r h i l =
    let (e0, h0) = >>-eq-ok (check_tables source policy.tables) _ h in
    let (e1, h1) = >>-eq-ok (check_relations (context_of source) policy.relationships) _ h0 in
    subst
      (λ context.
        shape_key_formats context r.parent.schema r.parent.table r.parent.columns
        ≡ shape_key_formats context r.child.schema r.child.table r.child.columns)
      (ok-injective _ refl h1)
      (agree-formats (context_of source (endpoint_identity r.parent))
        (context_of source (endpoint_identity r.child)) r.parent.columns r.child.columns
        (check_relations-agree (context_of source) policy.relationships r e1 i) l)
