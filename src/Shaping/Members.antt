-- ===== src/Shaping/Members.antt =====
-- src/source/shaping/shape_sampler.mts: the records of a sample and the selected rows that they stand for.
use rehearsal_db.Common.{
  ◌≡◌, refl, subst, inl, inr, ◌↔◌, Bool, true, List, [], ◌∷◌, map, Text, In, sort_by,
  In-sort_by_iff, In-map, In-map_cases, All-In, if-cases, text_eq, text_eq_sound, arith, suc,
}
use rehearsal_db.Shaping.Policy.{BaselineShapePolicy, ShapeRecord, ShapeKeyContext}
use rehearsal_db.Shaping.Index.{IndexedRow, Primitives, ChildEntry}
use rehearsal_db.Shaping.Selection.{Selection, is_selected, identity}
use rehearsal_db.Shaping.Buckets.{Measures}
use rehearsal_db.Shaping.Closure.{ShapeSample, Walk, by_table, sample_of}
use rehearsal_db.Shaping.Reach.{close_graph-IsClosureOf}
use rehearsal_db.Shaping.Sample.{IsRun, prepare-selection}
use rehearsal_db.Shaping.Origins.{IsRowOf, prepare-IsIndexOf}
use rehearsal_db.Shaping.Drawn.{prepare-drawn, IsReachable-drawn}

-- The records are those of the rows, in whatever order.
abbrev pub IsRecordsOf : List IndexedRow → List ShapeRecord → Type 0
IsRecordsOf rows records =
    (r : ShapeRecord) → In r records ↔ ((x : IndexedRow) × In x rows × (x.original ≡ r))

pub sort_by-IsRecordsOf :
    (before : IndexedRow → IndexedRow → Bool) (rows : List IndexedRow)
    → IsRecordsOf rows (map (λ x. x.original) (sort_by before rows))
sort_by-IsRecordsOf before rows r = (
  (λ i.
      let (x, j, e) = In-map_cases (λ x. x.original) r (sort_by before rows) i in
      let (into, out) = In-sort_by_iff before x rows in (x, into j, e)),
  (λ (x, j, e).
      let (into, out) = In-sort_by_iff before x rows in
      subst (λ r. In r (map (λ x. x.original) (sort_by before rows))) e
        (In-map (λ x. x.original) x (sort_by before rows) (out j))),
)

is_selected-In :
    (i : Text) (rows : List IndexedRow)
    → is_selected i rows ≡ true
    → (q : IndexedRow) × In q rows × (identity q ≡ i)
unfolding is_selected
is_selected-In i [] h = cc
is_selected-In i (r ∷ rs) h =
    elim (if-cases (text_eq (identity r) i) true (is_selected i rs) true (ground arith)) [
      | inl (here, e) ↦ (r, inl refl, text_eq_sound (identity r) i here)
      | inr (apart, e) ↦ let (q, j, same) = is_selected-In i rs e in (q, inr j, same)
    ]

-- A record of the sample, with the table and the key that the source gives it, joined by a zero.
abbrev pub IsSampled :
    Primitives → BaselineShapePolicy → ShapeKeyContext → List ShapeRecord → Text → Type 0
IsSampled p policy context records i =
    (q : IndexedRow) × In q.original records × IsRowOf p policy context q × (identity q ≡ i)

module _ (p : Primitives) (measures : Measures) (policy : BaselineShapePolicy)
    (context : ShapeKeyContext) (records : List ShapeRecord) (rows : List IndexedRow)
    (entries : List ChildEntry) (roots : Selection) (end : Walk)
    (run : IsRun p measures policy context records rows entries roots end) where
  -- A row of the index stands for a record, by its table and its key.
  pub IsRun-IsRowOf : (x : IndexedRow) → In x rows → IsRowOf p policy context x
  IsRun-IsRowOf x i =
      let (same, all) =
        prepare-IsIndexOf p measures policy context records rows entries roots run.prepared in
      All-In (IsRowOf p policy context) x rows all i

  -- The selected rows are rows of the index.
  pub IsRun-drawn : (x : IndexedRow) → In x end.selection.selected → In x rows
  IsRun-drawn x i =
      let (bounded, step) =
        prepare-selection p measures policy context records rows entries roots run.prepared in
      let closure =
        close_graph-IsClosureOf p policy context rows entries (suc policy.maximum_rows) roots end
          step run.walked in
      let (indexed, drawn) =
        prepare-drawn p measures policy context records rows entries roots run.prepared in
      IsReachable-drawn p policy context rows entries roots.selected indexed drawn
        (closure.least x i)

  pub IsRun-records :
      (sample : ShapeSample)
      → sample_of p policy context rows entries end ≡ sample
      → IsRecordsOf end.selection.selected sample.records
  IsRun-records sample e =
      subst (λ s. IsRecordsOf end.selection.selected s.records) e
        (sort_by-IsRecordsOf (by_table p policy context rows entries) end.selection.selected)

  -- What is selected is in the sample.
  pub IsRun-IsSampled :
      (sample : ShapeSample) (i : Text)
      → sample_of p policy context rows entries end ≡ sample
      → is_selected i end.selection.selected ≡ true
      → IsSampled p policy context sample.records i
  IsRun-IsSampled sample i e h =
      let (q, j, same) = is_selected-In i end.selection.selected h in
      let (into, out) = IsRun-records sample e q.original in
      (q, out (q, j, refl), IsRun-IsRowOf q (IsRun-drawn q j), same)
