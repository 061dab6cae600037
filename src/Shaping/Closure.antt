-- ===== src/Shaping/Closure.antt =====
-- src/source/shaping/shape_sampler.mts: the closure of the roots under the reviewed relationships, and the
-- sample as a whole. The loop over the queue runs on fuel.
use rehearsal_db.Common.{
  ℕ, zero, suc, ◌+◌, Bool, not, ◌&&◌, ◌||◌, Option, none, some, List, [], ◌∷◌, ◌++◌, map, Result,
  ok, err, ◌>>=◌, ◌>>◌, guard, Text, text_eq, length, leb, if◌then◌else◌, any, sort_by,
}
use rehearsal_db.Shaping.Keys.{ShapeError, type_error, fan_out, edge_budget, short_key}
use rehearsal_db.Shaping.Policy.{
  ShapeRelationship, BaselineShapePolicy, ShapeRecord, ShapeKeyContext, endpoint_identity,
}
use rehearsal_db.Shaping.Index.{
  IndexedRow, Primitives, Indexing, ChildEntry, find_row, child_rows, parent_key, index_records,
  index_relations,
}
use rehearsal_db.Shaping.Selection.{Selection, identity, add, add_all}
use rehearsal_db.Shaping.Buckets.{Measures}
use rehearsal_db.Shaping.Profiling.{profile_shape_records}
use rehearsal_db.Shaping.Roots.{select_roots}

-- The selection, `checkedEdges` and `selectedFanOut`, the maps as functions of the relationship's id.
pub record Walk : Type 0 where
  pub selection : Selection
  pub edges : Text → List Text
  pub fan_out_of : Text → Text → ℕ

pub record ShapeSample : Type 0 where
  pub records : List ShapeRecord
  pub relationship_counts : List (Text × ℕ)

-- `Set.add`
abbrev pub put_new : Text → List Text → List Text
put_new i is = if any (text_eq i) is then is else is ++ i ∷ []

abbrev pub put_edge : Text → Text → (Text → List Text) → Text → List Text
put_edge id i edges u = if text_eq id u then put_new i (edges u) else edges u

abbrev pub put_fan_out : Text → Text → ℕ → (Text → Text → ℕ) → Text → Text → ℕ
put_fan_out id key n f u k = if text_eq id u && text_eq key k then n else f u k

-- The row that `tables.get(...)!.get(parentKey)!` gives; `add` reads its fields.
abbrev pub found : Option IndexedRow → Result ShapeError IndexedRow
found none = err type_error
found (some q) = ok q

-- The edge from a row to its parent is recorded and counted.
unfoldable pub record_edge :
    ShapeRelationship → IndexedRow → Text → Selection → Walk → Result ShapeError Walk
record_edge relation r key t w =
    let n = w.fan_out_of relation.id key + 1 in
    let edges = put_edge relation.id (identity r) w.edges in
    do
      guard (leb n relation.maximum_children_per_parent) fan_out
      guard (leb (length (edges relation.id)) relation.maximum_rows) edge_budget
      ok (record {
        selection = t;
        edges = edges;
        fan_out_of = put_fan_out relation.id key n w.fan_out_of;
      })

abbrev pub popped : List (IndexedRow × ℕ) → Walk → Walk
popped rest w = record w { selection = record w.selection { pending = rest } }

module _ (p : Primitives) (policy : BaselineShapePolicy) (context : ShapeKeyContext)
    (rows : List IndexedRow) (entries : List ChildEntry) where
  abbrev pub to_parent :
      ShapeRelationship → IndexedRow → ℕ → Walk → Option Text → Result ShapeError Walk
  to_parent relation r depth w none = ok w
  to_parent relation r depth w (some key) = do
    q ← found (find_row (endpoint_identity relation.parent) key rows)
    t ← add policy q (depth + 1) w.selection
    record_edge relation r key t w

  unfoldable pub visit_parent : ShapeRelationship → IndexedRow → ℕ → Walk → Result ShapeError Walk
  unfolding add record_edge find_row parent_key
  visit_parent relation r depth w =
      if text_eq r.table (endpoint_identity relation.child)
      then (parent_key p policy context relation r >>= (λ k. to_parent relation r depth w k))
      else ok w

  unfoldable pub visit_children : ShapeRelationship → IndexedRow → ℕ → Walk → Result ShapeError Walk
  unfolding add_all child_rows
  visit_children relation r depth w =
      if relation.include_children && text_eq r.table (endpoint_identity relation.parent)
      then (guard
            (leb (length (child_rows relation.id r.key entries))
              relation.maximum_children_per_parent)
            fan_out
          >> (add_all policy (child_rows relation.id r.key entries) (depth + 1) w.selection
              >>= (λ t. ok (record w { selection = t }))))
      else ok w

  -- The loop over relationships.
  unfoldable pub visit : List ShapeRelationship → IndexedRow → ℕ → Walk → Result ShapeError Walk
  unfolding visit_parent visit_children
  visit [] r depth w = ok w
  visit (relation ∷ relations) r depth w = do
    u ← visit_parent relation r depth w
    v ← visit_children relation r depth u
    visit relations r depth v

  -- The loop over the queue, whose head is the next row; none stands for a want of fuel.
  unfoldable pub close_graph : ℕ → Walk → Option (Result ShapeError Walk)
  unfolding visit
  close_graph zero w = none
  close_graph (suc fuel) w = elim w.selection.pending [
    | [] ↦ some (ok w)
    | (r, depth) ∷ rest ↦ elim (visit policy.relationships r depth (popped rest w)) [
      | err e ↦ some (err e)
      | ok v ↦ close_graph fuel v
    ]
  ]

  -- `localeCompare` of the tables, and of the ranks in one table.
  abbrev pub by_table : IndexedRow → IndexedRow → Bool
  by_table a b =
      p.before a.table b.table || (not (p.before b.table a.table) && p.before a.rank b.rank)

  -- The map of counts has an entry for each relationship; their ids differ in an accepted policy.
  abbrev pub sample_of : Walk → ShapeSample
  sample_of w = record {
    records = map (λ r. r.original) (sort_by by_table w.selection.selected);
    relationship_counts =
        map (λ relation. (relation.id, length (w.edges relation.id))) policy.relationships;
  }

abbrev pub nothing_indexed : Indexing
nothing_indexed = record { bytes = 0; index_bytes = 0; rows = [] }

abbrev pub nothing_selected : Selection
nothing_selected = record { selected = []; counts = λ t. 0; pending = [] }

abbrev pub start : Selection → Walk
start s = record { selection = s; edges = λ id. []; fan_out_of = λ id key. 0 }

-- The rows, the children and the roots, before the walk.
unfoldable pub prepare :
    Primitives
    → Measures
    → BaselineShapePolicy
    → ShapeKeyContext
    → List ShapeRecord
    → Result ShapeError (List IndexedRow × (List ChildEntry × Selection))
unfolding index_records index_relations profile_shape_records select_roots
prepare p measures policy context records = do
  guard (leb 32 p.key_bytes) short_key
  i ← index_records p policy context (length records) nothing_indexed records
  c ←
      index_relations p policy context i.rows
        (record { cells = 0; index_bytes = i.index_bytes; entries = [] }) policy.relationships
  profiles ← profile_shape_records measures p policy context records
  s ← select_roots p profiles policy i.rows policy.tables nothing_selected
  ok (i.rows, (c.entries, s))

-- As many rounds as there may be rows, and one that finds the queue empty.
unfoldable pub sample_shape_graph :
    Primitives
    → Measures
    → BaselineShapePolicy
    → ShapeKeyContext
    → List ShapeRecord
    → Option (Result ShapeError ShapeSample)
unfolding prepare close_graph
sample_shape_graph p measures policy context records =
    elim (prepare p measures policy context records) [
      | err e ↦ some (err e)
      | ok (rows, (entries, s)) ↦
          elim (close_graph p policy context rows entries (suc policy.maximum_rows) (start s)) [
            | none ↦ none
            | some (err e) ↦ some (err e)
            | some (ok w) ↦ some (ok (sample_of p policy context rows entries w))
          ]
    ]
