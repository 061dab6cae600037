-- ===== src/Shaping/Promise.antt =====
-- src/source/shaping/shape_sampler.mts: the closure, the references and the budgets of a sample.
use rehearsal_db.Shaping.Keys.{ShapeError, shape_key_tuple}
use rehearsal_db.Shaping.Origins.{IsRowOf}
use rehearsal_db.Shaping.Members.{
  IsRecordsOf, IsSampled, sort_by-IsRecordsOf, IsRun-records, IsRun-drawn, IsRun-IsRowOf,
  IsRun-IsSampled,
}
use rehearsal_db.Common.{
  keep, All, All_of_In, All-map, length-keep-map, length-keep-sort_by, length-keep-agree, Option,
  Result, sym, suc, ◌≤◌, ◌≡◌, ap, subst, ◌∙◌, inl, inr, Bool, true, ◌&&◌, some, List, [], ◌∷◌, ◌++◌,
  map, ok, Text, text_eq, length, arith, In, sort_by, length-map, length-sort_by, if-cases,
  and-eq-true, text_eq_sound,
}
use rehearsal_db.Shaping.Policy.{
  ShapeTable, record_table, declaration_of, shape_key_formats, ShapeRelationship,
  BaselineShapePolicy, ShapeRecord, ShapeKeyContext, endpoint_identity,
}
use rehearsal_db.Shaping.Index.{IndexedRow, rows_of, Primitives, ChildEntry, find_row, parent_key}
use rehearsal_db.Shaping.Selection.{Selection, is_selected}
use rehearsal_db.Shaping.Buckets.{Measures}
use rehearsal_db.Shaping.Budgets.{IsBounded}
use rehearsal_db.Shaping.Closure.{
  Walk, sample_of, ShapeSample, start, prepare, sample_shape_graph, by_table,
}
use rehearsal_db.Shaping.Reach.{close_graph-rule, IsClosureOf, close_graph-IsClosureOf}
use rehearsal_db.Shaping.Sample.{
  IsRun, sample_shape_graph-eq-ok, prepare-selection, round-IsBounded,
}

find_row-eq-some :
    (table key : Text) (rows : List IndexedRow) (q : IndexedRow)
    → find_row table key rows ≡ some q
    → (q.table ≡ table) × (q.key ≡ key)
unfolding find_row
find_row-eq-some table key [] q h = cc
find_row-eq-some table key (r ∷ rs) q h =
    elim (if-cases (text_eq r.table table && text_eq r.key key) _ _ _ h) [
      | inl (both, e) ↦
          let (t, k) = and-eq-true (text_eq r.table table) (text_eq r.key key) both in
          let same : r ≡ q = cc in
          subst (λ q. (q.table ≡ table) × (q.key ≡ key)) same
            (text_eq_sound r.table table t, text_eq_sound r.key key k)
      | inr (other_row, e) ↦ find_row-eq-some table key rs q e
    ]

-- The records of a table are as many as its rows, sorted or not.
sorted-count :
    (p : Primitives) (policy : BaselineShapePolicy) (context : ShapeKeyContext)
    (before : IndexedRow → IndexedRow → Bool) (t : Text) (rows : List IndexedRow)
    → All (IsRowOf p policy context) rows
    → length (
        keep
          (λ r. text_eq (record_table r) t)
          (map (λ (x : IndexedRow). x.original) (sort_by before rows)))
      ≡ length (rows_of t rows)
sorted-count p policy context before t rows genuine =
    let of_table = λ (r : ShapeRecord). text_eq (record_table r) t in
    length-keep-map of_table (λ (x : IndexedRow). x.original) (sort_by before rows)
    ∙ length-keep-sort_by (λ (x : IndexedRow). of_table x.original) before rows
    ∙ length-keep-agree (λ (x : IndexedRow). of_table x.original)
        (λ (x : IndexedRow). text_eq x.table t) rows
        (All-map (IsRowOf p policy context)
          (λ x. text_eq (record_table x.original) t ≡ text_eq x.table t) rows
          (λ x row. ap (λ u. text_eq u t) (sym row.table)) genuine)

module _ (p : Primitives) (measures : Measures) (policy : BaselineShapePolicy)
    (context : ShapeKeyContext) (records : List ShapeRecord) where
  -- The sample has the records of the rows that the roots lead to: the set of the rows has the roots, is
  -- closed under the relationships, and every row of it is reached from a root.
  pub sample_shape_graph-IsClosureOf :
      (sample : ShapeSample)
      → sample_shape_graph p measures policy context records ≡ some (ok sample)
      → (rows : List IndexedRow) × (entries : List ChildEntry) × (roots : Selection)
        × (chosen : Selection) × (prepare p measures policy context records
            ≡ ok (rows, (entries, roots)))
        × IsClosureOf p policy context rows entries roots.selected chosen
        × IsRecordsOf chosen.selected sample.records
  sample_shape_graph-IsClosureOf sample h =
      let (rows, entries, roots, w, run, e) =
        sample_shape_graph-eq-ok p measures policy context records sample h in
      let (bounded, step) =
        prepare-selection p measures policy context records rows entries roots run.prepared in
      (
        rows,
        entries,
        roots,
        w.selection,
        run.prepared,
        close_graph-IsClosureOf p policy context rows entries (suc policy.maximum_rows) roots w step
            run.walked,
        subst (λ s. IsRecordsOf w.selection.selected s.records) e
            (sort_by-IsRecordsOf (by_table p policy context rows entries) w.selection.selected),
      )

  -- A reference of a record of the sample leads to a record of the sample: where the record is of the
  -- child's table and its reference has a key, a record of the sample has the parent's table and that
  -- key, as the source gives them to it, joined by a zero.
  pub sample_shape_graph-references :
      (sample : ShapeSample) (r : ShapeRecord) (relation : ShapeRelationship) (key : Text)
      → sample_shape_graph p measures policy context records ≡ some (ok sample)
      → In r sample.records
      → In relation policy.relationships
      → text_eq (record_table r) (endpoint_identity relation.child) ≡ true
      → shape_key_tuple p.stringify r.row relation.child.columns relation.nullable (
          shape_key_formats context relation.child.schema relation.child.table
            relation.child.columns)
        ≡ ok (some key)
      → IsSampled p policy context sample.records (endpoint_identity relation.parent ++ 0 ∷ key)
  unfolding parent_key
  sample_shape_graph-references sample r relation key h i j here k =
      let (rows, entries, roots, end, run, e) =
        sample_shape_graph-eq-ok p measures policy context records sample h in
      let (bounded, step) =
        prepare-selection p measures policy context records rows entries roots run.prepared in
      let closure =
        close_graph-IsClosureOf p policy context rows entries (suc policy.maximum_rows) roots end
          step run.walked in
      let (into, out) =
        IsRun-records p measures policy context records rows entries roots end run sample e r in
      let (x, selected, same) = into i in
      let drawn =
        IsRun-drawn p measures policy context records rows entries roots end run x selected in
      let row =
        IsRun-IsRowOf p measures policy context records rows entries roots end run x drawn in
      let settled = closure.closed x selected relation j in
      let of_child : text_eq x.table (endpoint_identity relation.child) ≡ true =
        ap (λ t. text_eq t (endpoint_identity relation.child))
          (row.table ∙ ap (λ (r : ShapeRecord). record_table r) same)
        ∙ here in
      let keyed : parent_key p policy context relation x ≡ ok (some key) =
        subst (λ r. key_of r ≡ ok (some key)) (sym same) k in
      let (q, found_q) = settled.resolved of_child key keyed in
      let (table, named) =
        find_row-eq-some (endpoint_identity relation.parent) key rows q found_q in
      let there = settled.followed q (inl (of_child, key, keyed, found_q)) in
      IsRun-IsSampled p measures policy context records rows entries roots end run sample
        (endpoint_identity relation.parent ++ 0 ∷ key) e
        (subst (λ i. is_selected i end.selection.selected ≡ true)
          (ap (λ t. t ++ 0 ∷ q.key) table
            ∙ ap (λ k. endpoint_identity relation.parent ++ 0 ∷ k) named)
          there)
    where
      key_of : ShapeRecord → Result ShapeError (Option Text)
      key_of r = shape_key_tuple p.stringify r.row relation.child.columns relation.nullable (
          shape_key_formats context relation.child.schema relation.child.table
            relation.child.columns)

  -- The budgets of a sample: at most `maximum_rows` records, and of each declared table at most its own
  -- maximum. The rows that the run ends with, each with the table and the key of its record, keep the
  -- budgets of the policy, and no two of them have the same table and key.
  pub sample_shape_graph-IsBounded :
      (sample : ShapeSample)
      → sample_shape_graph p measures policy context records ≡ some (ok sample)
      → (rows : List IndexedRow) × (entries : List ChildEntry) × (roots : Selection) × (end : Walk)
        × IsRun p measures policy context records rows entries roots end
        × (sample_of p policy context rows entries end ≡ sample)
        × All (IsRowOf p policy context) end.selection.selected
        × IsBounded policy end.selection
        × (length sample.records ≤ policy.maximum_rows)
        × ((t : Text) (d : ShapeTable)
            → declaration_of t policy.tables ≡ some d
            → length (keep (λ r. text_eq (record_table r) t) sample.records) ≤ d.maximum_rows)
  sample_shape_graph-IsBounded sample h =
      let (rows, entries, roots, w, run, e) =
        sample_shape_graph-eq-ok p measures policy context records sample h in
      let (bounded, step) =
        prepare-selection p measures policy context records rows entries roots run.prepared in
      let (b, done) =
        close_graph-rule p policy context rows entries (λ w. IsBounded policy w.selection)
          (round-IsBounded p policy context rows entries) (suc policy.maximum_rows) (start roots) w
          run.walked bounded in
      let before = by_table p policy context rows entries in
      let size =
        length-map (λ x. x.original) (sort_by before w.selection.selected)
        ∙ length-sort_by before w.selection.selected in
      let most = b.total in
      let genuine = All_of_In (IsRowOf p policy context) w.selection.selected (λ x i.
        IsRun-IsRowOf p measures policy context records rows entries roots w run x
          (IsRun-drawn p measures policy context records rows entries roots w run x i)) in
      (
        rows,
        entries,
        roots,
        w,
        run,
        e,
        genuine,
        b,
        subst (λ s. length s.records ≤ policy.maximum_rows) e (omega arith),
        λ t d k.
            let own = sorted-count p policy context before t w.selection.selected genuine in
            let counted = b.counted t in
            let within = b.by_declaration t d k in
            subst (λ s. length (keep (λ r. text_eq (record_table r) t) s.records) ≤ d.maximum_rows)
              e (omega arith),
      )
