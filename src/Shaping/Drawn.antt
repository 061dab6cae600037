-- ===== src/Shaping/Drawn.antt =====
-- src/source/shaping/shape_sampler.mts: the children, the roots and the selected rows as rows of the index.
use rehearsal_db.Common.{
  ℕ, ◌≡◌, refl, subst, ◌+◌, ◌&&◌, inl, inr, Option, none, some, List, [], ◌∷◌, ◌++◌, ok, Text,
  text_eq, All, true, false, if◌then◌else◌, All-In, All-append, >>=-eq-ok, >>-eq-ok, guard,
  ok-injective, length, leb, In, if-cases, not, byte_length, All_of_In, In-keep_cases, arith,
}
use rehearsal_db.Shaping.Keys.{index_bytes, orphan, relationship_cells, short_key}
use rehearsal_db.Shaping.Policy.{
  ShapeRelationship, BaselineShapePolicy, ShapeRecord, ShapeKeyContext, declaration_of,
  endpoint_identity,
}
use rehearsal_db.Shaping.Index.{
  IndexedRow, Primitives, ChildEntry, ChildIndexing, declared, find_row, rows_of, child_rows,
  parent_key, with_key, index_child, index_relation_rows, without_relation, index_records,
  index_relations, maximum_index_bytes, maximum_cells, is_present,
}
use rehearsal_db.Shaping.Selection.{Selection, add}
use rehearsal_db.Shaping.Buckets.{Measures}
use rehearsal_db.Shaping.Profiling.{profile_shape_records}
use rehearsal_db.Shaping.Roots.{select_roots}
use rehearsal_db.Shaping.Rooting.{select_roots-kept}
use rehearsal_db.Shaping.Growth.{add-brings}
use rehearsal_db.Shaping.Closure.{prepare, nothing_indexed, nothing_selected}
use rehearsal_db.Shaping.Reach.{IsReachable, root, linked}

find_row-In :
    (table key : Text) (rows : List IndexedRow) (q : IndexedRow)
    → find_row table key rows ≡ some q
    → In q rows
unfolding find_row
find_row-In table key [] q h = cc
find_row-In table key (r ∷ rs) q h =
    elim (if-cases (text_eq r.table table && text_eq r.key key) _ _ _ h) [
      | inl (here, e) ↦ inl (cc)
      | inr (apart, e) ↦ inr (find_row-In table key rs q e)
    ]

-- The row of each entry is one of the rows.
abbrev pub AllIndexed : List IndexedRow → List ChildEntry → Type 0
AllIndexed rows entries = All (λ e. In e.row rows) entries

child_rows-In :
    (relation key : Text) (rows : List IndexedRow) (entries : List ChildEntry) (q : IndexedRow)
    → AllIndexed rows entries
    → In q (child_rows relation key entries)
    → In q rows
unfolding child_rows
child_rows-In relation key rows [] q a = λ i. elim i [ ]
child_rows-In relation key rows (e ∷ es) q (here, a) =
    elim (text_eq e.relation relation && text_eq e.parent key)
      as (λ test.
        In q (if test then e.row ∷ child_rows relation key es else child_rows relation key es)
        → In q rows) [
          | true ↦ λ i. elim i [
            | inl same ↦ subst (λ q. In q rows) same here
            | inr later ↦ child_rows-In relation key rows es q a later
          ]
          | false ↦ λ i. child_rows-In relation key rows es q a i
        ]

module _ (p : Primitives) (policy : BaselineShapePolicy) (context : ShapeKeyContext)
    (rows : List IndexedRow) where
  with_key-AllIndexed :
      (relation : ShapeRelationship) (r : IndexedRow) (s t : ChildIndexing) (k : Option Text)
      → In r rows
      → with_key p policy context relation rows r s k ≡ ok t
      → AllIndexed rows s.entries
      → AllIndexed rows t.entries
  with_key-AllIndexed relation r s t none i h a =
      let same : s.entries ≡ t.entries = ground arith in subst (AllIndexed rows) same a
  with_key-AllIndexed relation r s t (some key) i h a =
      let (_, h1) =
        >>-eq-ok (guard (leb (s.index_bytes + byte_length key) maximum_index_bytes) index_bytes) _
          h in
      let (_, h2) =
        >>-eq-ok (guard (is_present (find_row (endpoint_identity relation.parent) key rows)) orphan)
          _ h1 in
      let new : ChildEntry = record { relation = relation.id; parent = key; row = r } in
      let same : s.entries ++ new ∷ [] ≡ t.entries = ground arith in
      subst (AllIndexed rows) same (All-append (λ e. In e.row rows) s.entries (new ∷ []) a (i, tt))

  index_relation_rows-AllIndexed :
      (relation : ShapeRelationship) (s t : ChildIndexing) (rs : List IndexedRow)
      → All (λ r. In r rows) rs
      → index_relation_rows p policy context relation rows s rs ≡ ok t
      → AllIndexed rows s.entries
      → AllIndexed rows t.entries
  unfolding index_relation_rows index_child
  index_relation_rows-AllIndexed relation s t [] is h a =
      let same : s.entries ≡ t.entries = ground arith in subst (AllIndexed rows) same a
  index_relation_rows-AllIndexed relation s t (r ∷ rs) (i, is) h a =
      let (u, e, h') = >>=-eq-ok (index_child p policy context relation rows s r) _ h in
      let (_, e1) = >>-eq-ok (guard (leb (s.cells + 1) maximum_cells) relationship_cells) _ e in
      let (k, ek, e2) = >>=-eq-ok (parent_key p policy context relation r) _ e1 in
      index_relation_rows-AllIndexed relation u t rs is h'
        (with_key-AllIndexed relation r s u k i e2 a)

  index_relations-AllIndexed :
      (relations : List ShapeRelationship) (s t : ChildIndexing)
      → index_relations p policy context rows s relations ≡ ok t
      → AllIndexed rows s.entries
      → AllIndexed rows t.entries
  unfolding index_relations
  index_relations-AllIndexed [] s t h a =
      let same : s.entries ≡ t.entries = ground arith in subst (AllIndexed rows) same a
  index_relations-AllIndexed (relation ∷ relations) s t h a =
      let table = endpoint_identity relation.child in
      let (d, _, h1) =
        >>=-eq-ok (declared p policy context (declaration_of table policy.tables)) _ h in
      let cleared = record s { entries = without_relation relation.id s.entries } in
      let (u, e, h2) =
        >>=-eq-ok (index_relation_rows p policy context relation rows cleared (rows_of table rows))
          _ h1 in
      let rest =
        All_of_In (λ e. In e.row rows) (without_relation relation.id s.entries)
          (λ e i.
            let (j, test) =
              In-keep_cases (λ e. not (text_eq e.relation relation.id)) e s.entries i in
            All-In (λ e. In e.row rows) e s.entries a j) in
      let own =
        All_of_In (λ r. In r rows) (rows_of table rows)
          (λ r i. (In-keep_cases (λ r. text_eq r.table table) r rows i).0) in
      index_relations-AllIndexed relations u t h2
        (index_relation_rows-AllIndexed relation cleared u (rows_of table rows) own e rest)

add-drawn :
    (policy : BaselineShapePolicy) (rows : List IndexedRow) (r : IndexedRow) (depth : ℕ)
    (s t : Selection)
    → In r rows
    → add policy r depth s ≡ ok t
    → ((x : IndexedRow) → In x s.selected → In x rows)
    → (x : IndexedRow) → In x t.selected
    → In x rows
add-drawn policy rows r depth s t drawn h all x i = elim (add-brings policy x r depth s t h i) [
  | inl old ↦ all x old
  | inr (same, new) ↦ subst (λ x. In x rows) same drawn
]

-- What the walk starts from are rows of the index.
pub prepare-drawn :
    (p : Primitives) (measures : Measures) (policy : BaselineShapePolicy)
    (context : ShapeKeyContext) (records : List ShapeRecord) (rows : List IndexedRow)
    (entries : List ChildEntry) (s : Selection)
    → prepare p measures policy context records ≡ ok (rows, (entries, s))
    → AllIndexed rows entries × ((x : IndexedRow) → In x s.selected → In x rows)
unfolding prepare
prepare-drawn p measures policy context records rows entries s h =
    let (key, h0) = >>-eq-ok (guard (leb 32 p.key_bytes) short_key) _ h in
    let (i, e, h') =
      >>=-eq-ok (index_records p policy context (length records) nothing_indexed records) _ h0 in
    let nothing : ChildIndexing = record { cells = 0; index_bytes = i.index_bytes; entries = [] } in
    let (c, e', h'') =
      >>=-eq-ok (index_relations p policy context i.rows nothing policy.relationships) _ h' in
    let (profiles, e3, h3) =
      >>=-eq-ok (profile_shape_records measures p policy context records) _ h'' in
    let (t, e4, h4) =
      >>=-eq-ok (select_roots p profiles policy i.rows policy.tables nothing_selected) _ h3 in
    let same = ok-injective _ refl h4 in
    subst (λ q. AllIndexed q.0 q.1.0 × ((x : IndexedRow) → In x q.1.1.selected → In x q.0)) same
      (
        index_relations-AllIndexed p policy context i.rows policy.relationships nothing c e' tt,
        select_roots-kept p profiles policy (λ s. (x : IndexedRow) → In x s.selected → In x i.rows)
            (λ r. In r i.rows) (add-drawn policy i.rows) i.rows policy.tables nothing_selected t
            (All_of_In (λ r. In r i.rows) i.rows (λ x j. j)) e4 (λ x j. elim j [ ]),
      )

module _ (p : Primitives) (policy : BaselineShapePolicy) (context : ShapeKeyContext)
    (rows : List IndexedRow) (entries : List ChildEntry) (roots : List IndexedRow)
    (indexed : AllIndexed rows entries) (drawn : (x : IndexedRow) → In x roots → In x rows) where
  -- What a root leads to is a row of the index.
  pub IsReachable-drawn :
      {x : IndexedRow} → IsReachable p policy context rows entries roots x → In x rows
  IsReachable-drawn (root x i) = drawn x i
  IsReachable-drawn (linked r q reached (relation, j, inl (here, key, k, found))) =
      find_row-In (endpoint_identity relation.parent) key rows q found
  IsReachable-drawn (linked r q reached (relation, j, inr (test, i))) =
      child_rows-In relation.id r.key rows entries q indexed i
