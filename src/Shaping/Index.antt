-- ===== src/Shaping/Index.antt =====
-- src/source/shaping/shape_sampler.mts: the indexes of the rows by table and key, and of the children by
-- relationship. The rank is the keyed hash of a row; record_bytes is the size of its JSON.
use rehearsal_db.Common.{
  ℕ, ◌+◌, Bool, true, false, not, ◌&&◌, Option, none, some, List, [], ◌∷◌, ◌++◌, Result, ok, err,
  ◌>>=◌, ◌>>◌, guard, Text, text_eq, keep, leb, if◌then◌else◌, byte_length,
}
use rehearsal_db.Shaping.Keys.{
  ShapeError, KeyPart, shape_key_tuple, not_primitive, capacity, undeclared_table, index_bytes,
  duplicate_key, orphan, relationship_cells,
}
use rehearsal_db.Shaping.Policy.{
  ShapeTable, ShapeRelationship, BaselineShapePolicy, ShapeRecord, endpoint_identity,
  declaration_of, record_table, ShapeKeyContext, shape_key_formats,
}

pub record IndexedRow : Type 0 where
  pub original : ShapeRecord
  pub table : Text
  pub key : Text
  pub rank : Text

-- The size of the privacy key, and what the code calls that is not its own: JSON.stringify on keys, the
-- size of a record's JSON, the rank under the privacy key, the hash of a key, and localeCompare as a strict order.
pub record Primitives : Type 0 where
  pub key_bytes : ℕ
  pub stringify : List KeyPart → Text
  pub record_bytes : ShapeRecord → ℕ
  pub rank_of : Text → Text → Text
  pub sha256 : Text → Text
  pub before : Text → Text → Bool

-- `indexed.get(key)` of a table; `tables` is one list, in the order of insertion.
unfoldable pub find_row : Text → Text → List IndexedRow → Option IndexedRow
find_row table key [] = none
find_row table key (r ∷ rs) =
    if text_eq r.table table && text_eq r.key key then some r else find_row table key rs

abbrev pub rows_of : Text → List IndexedRow → List IndexedRow
rows_of table rows = keep (λ r. text_eq r.table table) rows

abbrev pub is_present {ℓ} : {A : Type ℓ} → Option A → Bool
is_present none = false
is_present (some a) = true

-- 32 MiB
abbrev pub maximum_index_bytes : ℕ
maximum_index_bytes = 33554432

abbrev pub maximum_cells : ℕ
maximum_cells = 1000000

-- The bytes of the records and of the keys so far, and the rows in the order of insertion.
pub record Indexing : Type 0 where
  pub bytes : ℕ
  pub index_bytes : ℕ
  pub rows : List IndexedRow

-- A row of the child indexes: its relationship, the key of its parent, and the row.
pub record ChildEntry : Type 0 where
  pub relation : Text
  pub parent : Text
  pub row : IndexedRow

pub record ChildIndexing : Type 0 where
  pub cells : ℕ
  pub index_bytes : ℕ
  pub entries : List ChildEntry

-- `childIndexes.get(relation.id)!.get(key) ?? []`
unfoldable pub child_rows : Text → Text → List ChildEntry → List IndexedRow
child_rows relation key [] = []
child_rows relation key (e ∷ es) =
    let rest = child_rows relation key es in
    if text_eq e.relation relation && text_eq e.parent key then e.row ∷ rest else rest

-- `childIndexes.set(relation.id, new Map())`
abbrev pub without_relation : Text → List ChildEntry → List ChildEntry
without_relation relation es = keep (λ e. not (text_eq e.relation relation)) es

module _ (p : Primitives) (policy : BaselineShapePolicy) (context : ShapeKeyContext) where
  abbrev pub required_key : Option Text → Result ShapeError Text
  required_key none = err not_primitive
  required_key (some k) = ok k

  abbrev pub declared : Option ShapeTable → Result ShapeError ShapeTable
  declared none = err undeclared_table
  declared (some d) = ok d

  abbrev pub indexed : ShapeRecord → Text → Text → IndexedRow
  indexed r table key = record {
    original = r;
    table = table;
    key = key;
    rank = p.rank_of table key;
  }

  -- One round of the loop over records; `count` is `records.length`.
  unfoldable pub index_record : ℕ → Indexing → ShapeRecord → Result ShapeError Indexing
  unfolding find_row declaration_of
  index_record count s r = do
    guard
        (leb count policy.maximum_source_rows
          && leb (s.bytes + p.record_bytes r) policy.maximum_source_bytes)
        capacity
    d ← declared (declaration_of (record_table r) policy.tables)
    tuple ←
        shape_key_tuple p.stringify r.row d.key false
          (shape_key_formats context d.schema d.name d.key)
    key ← required_key tuple
    guard (leb (s.index_bytes + byte_length key) maximum_index_bytes) index_bytes
    guard (not (is_present (find_row (record_table r) key s.rows))) duplicate_key
    ok (record {
      bytes = s.bytes + p.record_bytes r;
      index_bytes = s.index_bytes + byte_length key;
      rows = s.rows ++ indexed r (record_table r) key ∷ [];
    })

  unfoldable pub index_records : ℕ → Indexing → List ShapeRecord → Result ShapeError Indexing
  unfolding index_record
  index_records count s [] = ok s
  index_records count s (r ∷ rs) = do t ← index_record count s r; index_records count t rs

  -- The key of the parent that a row of the child's table refers to.
  unfoldable pub parent_key : ShapeRelationship → IndexedRow → Result ShapeError (Option Text)
  parent_key relation r =
      shape_key_tuple p.stringify r.original.row relation.child.columns relation.nullable (
        shape_key_formats context relation.child.schema relation.child.table relation.child.columns)

  abbrev pub with_key :
      ShapeRelationship
      → List IndexedRow
      → IndexedRow
      → ChildIndexing
      → Option Text
      → Result ShapeError ChildIndexing
  with_key relation rows r s none = ok (record s { cells = s.cells + 1 })
  with_key relation rows r s (some key) = do
    guard (leb (s.index_bytes + byte_length key) maximum_index_bytes) index_bytes
    guard (is_present (find_row (endpoint_identity relation.parent) key rows)) orphan
    ok (record {
      cells = s.cells + 1;
      index_bytes = s.index_bytes + byte_length key;
      entries = s.entries ++ record { relation = relation.id; parent = key; row = r } ∷ [];
    })

  unfoldable pub index_child :
      ShapeRelationship
      → List IndexedRow
      → ChildIndexing
      → IndexedRow
      → Result ShapeError ChildIndexing
  unfolding find_row parent_key
  index_child relation rows s r = do
    guard (leb (s.cells + 1) maximum_cells) relationship_cells
    k ← parent_key relation r
    with_key relation rows r s k

  -- The loop over the rows of the child's table; `rows` are all of the rows.
  unfoldable pub index_relation_rows :
      ShapeRelationship
      → List IndexedRow
      → ChildIndexing
      → List IndexedRow
      → Result ShapeError ChildIndexing
  unfolding index_child
  index_relation_rows relation rows s [] = ok s
  index_relation_rows relation rows s (r ∷ rs) = do
    t ← index_child relation rows s r
    index_relation_rows relation rows t rs

  -- The loop over relationships.
  unfoldable pub index_relations :
      List IndexedRow → ChildIndexing → List ShapeRelationship → Result ShapeError ChildIndexing
  unfolding index_relation_rows declaration_of
  index_relations rows s [] = ok s
  index_relations rows s (relation ∷ relations) = do
    _ ← declared (declaration_of (endpoint_identity relation.child) policy.tables)
    t ←
        index_relation_rows relation rows
          (record s { entries = without_relation relation.id s.entries })
          (rows_of (endpoint_identity relation.child) rows)
    index_relations rows t relations
