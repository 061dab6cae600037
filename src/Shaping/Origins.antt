-- ===== src/Shaping/Origins.antt =====
-- src/source/shaping/shape_sampler.mts: the rows of the index and the records that they stand for.
use mathlib.Core.List.{append-nil, append_assoc}
use rehearsal_db.Common.{
  ℕ, ◌≡◌, refl, sym, ap, subst, ◌∙◌, ◌+◌, ◌&&◌, false, not, byte_length, Option, none, some, List,
  [], ◌∷◌, ◌++◌, map, ok, Text, All, >>=-eq-ok, >>-eq-ok, guard, ok-injective, map-append,
  All-append, arith, length, leb,
}
use rehearsal_db.Shaping.Keys.{shape_key_tuple, capacity, index_bytes, duplicate_key, short_key}
use rehearsal_db.Shaping.Policy.{
  ShapeTable, BaselineShapePolicy, ShapeRecord, ShapeKeyContext, shape_key_formats, record_table,
  declaration_of,
}
use rehearsal_db.Shaping.Index.{
  IndexedRow, Primitives, ChildEntry, Indexing, declared, required_key, indexed, index_record,
  index_records, index_relations, maximum_index_bytes, is_present, find_row,
}
use rehearsal_db.Shaping.Selection.{Selection}
use rehearsal_db.Shaping.Buckets.{Measures}
use rehearsal_db.Shaping.Profiling.{profile_shape_records}
use rehearsal_db.Shaping.Roots.{select_roots}
use rehearsal_db.Shaping.Closure.{prepare, nothing_indexed, nothing_selected}

-- A row of the index: it has the table of its record, which is declared, and the key that the
-- declared columns of the record give.
pub record IsRowOf (p : Primitives) (policy : BaselineShapePolicy) (context : ShapeKeyContext)
    (x : IndexedRow) : Type 0 where
  pub table : x.table ≡ record_table x.original
  pub declaration : ShapeTable
  pub declared_as : declaration_of (record_table x.original) policy.tables ≡ some declaration
  pub keyed :
      shape_key_tuple p.stringify x.original.row declaration.key false
        (shape_key_formats context declaration.schema declaration.name declaration.key)
      ≡ ok (some x.key)

module _ (p : Primitives) (policy : BaselineShapePolicy) (context : ShapeKeyContext) where
  -- The rows so far, with the records that they were made of.
  abbrev pub IsIndexOf : List ShapeRecord → List IndexedRow → Type 0
  IsIndexOf records rows =
      (map (λ x. x.original) rows ≡ records) × All (IsRowOf p policy context) rows

  declared-eq-ok :
      (o : Option ShapeTable) (d : ShapeTable) → declared p policy context o ≡ ok d → o ≡ some d
  declared-eq-ok none d h = cc
  declared-eq-ok (some e) d h = ap some (ok-injective _ refl h)

  required_key-eq-ok :
      (o : Option Text) (k : Text) → required_key p policy context o ≡ ok k → o ≡ some k
  required_key-eq-ok none k h = cc
  required_key-eq-ok (some e) k h = ap some (ok-injective _ refl h)

  index_record-IsIndexOf :
      (count : ℕ) (s t : Indexing) (r : ShapeRecord) (before : List ShapeRecord)
      → index_record p policy context count s r ≡ ok t
      → IsIndexOf before s.rows
      → IsIndexOf (before ++ r ∷ []) t.rows
  unfolding index_record
  index_record-IsIndexOf count s t r before h (same, all) =
      let (_, h1) =
        >>-eq-ok
          (guard
            (leb count policy.maximum_source_rows
              && leb (s.bytes + p.record_bytes r) policy.maximum_source_bytes)
            capacity)
          _ h in
      let (d, ed, h2) =
        >>=-eq-ok (declared p policy context (declaration_of (record_table r) policy.tables)) _
          h1 in
      let (tuple, et, h3) =
        >>=-eq-ok
          (shape_key_tuple p.stringify r.row d.key false
            (shape_key_formats context d.schema d.name d.key))
          _ h2 in
      let (key, ek, h4) = >>=-eq-ok (required_key p policy context tuple) _ h3 in
      let (_, h5) =
        >>-eq-ok (guard (leb (s.index_bytes + byte_length key) maximum_index_bytes) index_bytes) _
          h4 in
      let (_, h6) =
        >>-eq-ok (guard (not (is_present (find_row (record_table r) key s.rows))) duplicate_key) _
          h5 in
      let x = indexed p policy context r (record_table r) key in
      let row : IsRowOf p policy context x = record {
        table = refl;
        declaration = d;
        declared_as = declared-eq-ok _ d ed;
        keyed = et ∙ ap ok (required_key-eq-ok tuple key ek);
      } in
      let rows : s.rows ++ x ∷ [] ≡ t.rows = ground arith in
      subst (IsIndexOf (before ++ r ∷ [])) rows (
        map-append (λ x. x.original) s.rows (x ∷ []) ∙ ap (λ rs. rs ++ r ∷ []) same,
        All-append (IsRowOf p policy context) s.rows (x ∷ []) all (row, tt),
      )

  index_records-IsIndexOf :
      (count : ℕ) (s t : Indexing) (rs before : List ShapeRecord)
      → index_records p policy context count s rs ≡ ok t
      → IsIndexOf before s.rows
      → IsIndexOf (before ++ rs) t.rows
  unfolding index_records
  index_records-IsIndexOf count s t [] before h i =
      let same : s.rows ≡ t.rows = ground arith in
      subst (λ l. IsIndexOf l t.rows) (sym (append-nil before)) (subst (IsIndexOf before) same i)
  index_records-IsIndexOf count s t (r ∷ rs) before h i =
      let (u, e, h') = >>=-eq-ok (index_record p policy context count s r) _ h in
      subst (λ l. IsIndexOf l t.rows) (append_assoc before (r ∷ []) rs)
        (index_records-IsIndexOf count u t rs (before ++ r ∷ []) h'
          (index_record-IsIndexOf count s u r before e i))

-- The rows that are prepared are the records, one by one, each with its table and key.
pub prepare-IsIndexOf :
    (p : Primitives) (measures : Measures) (policy : BaselineShapePolicy)
    (context : ShapeKeyContext) (records : List ShapeRecord) (rows : List IndexedRow)
    (entries : List ChildEntry) (s : Selection)
    → prepare p measures policy context records ≡ ok (rows, (entries, s))
    → IsIndexOf p policy context records rows
unfolding prepare
prepare-IsIndexOf p measures policy context records rows entries s h =
    let (key, h0) = >>-eq-ok (guard (leb 32 p.key_bytes) short_key) _ h in
    let (i, e, h') =
      >>=-eq-ok (index_records p policy context (length records) nothing_indexed records) _ h0 in
    let (c, e', h'') =
      >>=-eq-ok
        (index_relations p policy context i.rows
          (record { cells = 0; index_bytes = i.index_bytes; entries = [] }) policy.relationships)
        _ h' in
    let (profiles, e3, h3) =
      >>=-eq-ok (profile_shape_records measures p policy context records) _ h'' in
    let (t, e4, h4) =
      >>=-eq-ok (select_roots p profiles policy i.rows policy.tables nothing_selected) _ h3 in
    let same : i.rows ≡ rows = ap (λ q. q.0) (ok-injective _ refl h4) in
    subst (IsIndexOf p policy context records) same (
      index_records-IsIndexOf p policy context (length records) nothing_indexed i records [] e
        (refl, tt))
