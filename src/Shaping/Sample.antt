-- ===== src/Shaping/Sample.antt =====
-- src/source/shaping/shape_sampler.mts: sampleShapeGraph as a whole, from its preparation to its result.
use rehearsal_db.Common.{
  ℕ, zero, suc, ◌+◌, ◌≤◌, ◌<◌, ◌≡◌, refl, sym, ap, subst, ◌∙◌, inl, inr, some, List, [], ◌∷◌, map,
  Result, ok, err, guard, >>=-eq-ok, >>-eq-ok, Result-cases, length, leb, arith, All, Option-cases,
  List-cases, length-map,
}
use rehearsal_db.Shaping.Keys.{ShapeError, short_key}
use rehearsal_db.Shaping.Policy.{BaselineShapePolicy, ShapeRecord, ShapeKeyContext}
use rehearsal_db.Shaping.Index.{IndexedRow, Primitives, ChildEntry, index_records, index_relations}
use rehearsal_db.Shaping.Selection.{Selection}
use rehearsal_db.Shaping.Roots.{select_roots}
use rehearsal_db.Shaping.Buckets.{Measures}
use rehearsal_db.Shaping.Profiling.{ShapeProfiles, profile_shape_records}
use rehearsal_db.Shaping.Steps.{All_of}
use rehearsal_db.Shaping.Rooting.{select_roots-kept}
use rehearsal_db.Shaping.Budgets.{IsBounded, add-IsBounded}
use rehearsal_db.Shaping.Closure.{
  Walk, ShapeSample, visit, close_graph, popped, start, prepare, sample_shape_graph, sample_of,
  nothing_indexed, nothing_selected,
}
use rehearsal_db.Shaping.Walks.{visit-kept}
use rehearsal_db.Shaping.Growth.{add-balanced, add-in_step}

nothing_selected-IsBounded : (policy : BaselineShapePolicy) → IsBounded policy nothing_selected
nothing_selected-IsBounded policy = record {
  total = omega arith;
  counted = λ t. refl;
  by_declaration = λ t d e. omega arith;
  shallow = tt;
  distinct = tt;
}

popped-IsBounded :
    (policy : BaselineShapePolicy) (r : IndexedRow) (depth : ℕ) (rest : List (IndexedRow × ℕ))
    (w : Walk)
    → w.selection.pending ≡ (r, depth) ∷ rest
    → IsBounded policy w.selection
    → IsBounded policy (popped rest w).selection
popped-IsBounded policy r depth rest w e b = record {
  total = b.total;
  counted = b.counted;
  by_declaration = b.by_declaration;
  shallow = (subst (λ ps. All (λ q. q.1 ≤ policy.maximum_depth) ps) e b.shallow).1;
  distinct = b.distinct;
}

module _ (p : Primitives) (policy : BaselineShapePolicy) (context : ShapeKeyContext)
    (rows : List IndexedRow) (entries : List ChildEntry) where
  pub round-IsBounded :
      (r : IndexedRow) (depth : ℕ) (rest : List (IndexedRow × ℕ)) (w v : Walk)
      → w.selection.pending ≡ (r, depth) ∷ rest
      → visit p policy context rows entries policy.relationships r depth (popped rest w) ≡ ok v
      → IsBounded policy w.selection
      → IsBounded policy v.selection
  round-IsBounded r depth rest w v e h b =
      visit-kept p policy context rows entries (IsBounded policy) (λ x. Unit {0})
        (λ q d s t u. add-IsBounded policy q d s t) policy.relationships r depth (popped rest w) v
        (λ q l. tt) h (popped-IsBounded policy r depth rest w e b)

  close_graph-returns :
      (fuel n : ℕ) (w : Walk)
      → IsBounded policy w.selection
      → n + length w.selection.pending ≡ length w.selection.selected
      → policy.maximum_rows < n + fuel
      → (result : Result ShapeError Walk) × (close_graph p policy context rows entries fuel w
          ≡ some result)
  unfolding close_graph
  close_graph-returns zero n w b balanced enough = let most = b.total in ground arith
  close_graph-returns (suc fuel) n w b balanced enough = elim (List-cases w.selection.pending) [
    | inl e ↦ (ok w, ground arith)
    | inr ((r, depth), rest, e) ↦
        elim (Result-cases
          (visit p policy context rows entries policy.relationships r depth (popped rest w))) [
            | inl (v, k) ↦
                let shorter = ap length e in
                let balanced' =
                  visit-kept p policy context rows entries
                    (λ s. suc n + length s.pending ≡ length s.selected) (λ x. Unit {0})
                    (λ q d s t u. add-balanced policy (suc n) q d s t) policy.relationships r depth
                    (popped rest w) v (λ q l. tt) k (ground arith) in
                let (result, f) =
                  close_graph-returns fuel (suc n) v (round-IsBounded r depth rest w v e k b)
                    balanced' (omega arith) in
                (result, ground arith)
            | inr (thrown, k) ↦ (err thrown, ground arith)
          ]
  ]

ok-parts :
    (rows rows' : List IndexedRow) (entries entries' : List ChildEntry) (s s' : Selection)
    (r : Result ShapeError (List IndexedRow × (List ChildEntry × Selection)))
    → ok (rows, (entries, s)) ≡ r
    → r ≡ ok (rows', (entries', s'))
    → (rows ≡ rows') × (s ≡ s')
ok-parts rows rows' entries entries' s s' r e h = (cc, cc)

pub prepare-roots :
    (p : Primitives) (measures : Measures) (policy : BaselineShapePolicy)
    (context : ShapeKeyContext) (records : List ShapeRecord) (rows : List IndexedRow)
    (entries : List ChildEntry) (s : Selection)
    → prepare p measures policy context records ≡ ok (rows, (entries, s))
    → (profiles : ShapeProfiles) × (select_roots p profiles policy rows policy.tables
          nothing_selected
        ≡ ok s)
unfolding prepare
prepare-roots p measures policy context records rows entries s h =
    let (key, h0) = >>-eq-ok (guard (leb 32 p.key_bytes) short_key) _ h in
    let (i, e, h') =
      >>=-eq-ok (index_records p policy context (length records) nothing_indexed records) _ h0 in
    let (c, e', h'') =
      >>=-eq-ok
        (index_relations p policy context i.rows
          (record { cells = 0; index_bytes = i.index_bytes; entries = [] }) policy.relationships)
        _ h' in
    let (profiles, e3, h3) =
      >>=-eq-ok (profile_shape_records measures p policy context records) _ h'' in
    let (t, e4, h4) =
      >>=-eq-ok (select_roots p profiles policy i.rows policy.tables nothing_selected) _ h3 in
    let (same_rows, same) = ok-parts i.rows rows c.entries entries t s _ refl h4 in
    (
      profiles,
      subst (λ rows. select_roots p profiles policy rows policy.tables nothing_selected ≡ ok s)
          same_rows (e4 ∙ ap (λ t. ok t) same),
    )

pub prepare-selection :
    (p : Primitives) (measures : Measures) (policy : BaselineShapePolicy)
    (context : ShapeKeyContext) (records : List ShapeRecord) (rows : List IndexedRow)
    (entries : List ChildEntry) (s : Selection)
    → prepare p measures policy context records ≡ ok (rows, (entries, s))
    → IsBounded policy s × (map (λ q. q.0) s.pending ≡ s.selected)
prepare-selection p measures policy context records rows entries s h =
    let (profiles, e) = prepare-roots p measures policy context records rows entries s h in
    (
      select_roots-kept p profiles policy (IsBounded policy) (λ x. Unit {0})
          (λ r depth t u x. add-IsBounded policy r depth t u) rows policy.tables nothing_selected s
          (All_of (λ x. Unit {0}) (λ x. tt) rows) e (nothing_selected-IsBounded policy),
      select_roots-kept p profiles policy (λ s. map (λ q. q.0) s.pending ≡ s.selected)
          (λ x. Unit {0}) (λ r depth t u x. add-in_step policy r depth t u) rows policy.tables
          nothing_selected s (All_of (λ x. Unit {0}) (λ x. tt) rows) e refl,
    )

module _ (p : Primitives) (measures : Measures) (policy : BaselineShapePolicy)
    (context : ShapeKeyContext) (records : List ShapeRecord) where
  -- A run that got to its sample: the rows and the children, the roots, and the walk's end.
  pub record IsRun (rows : List IndexedRow) (entries : List ChildEntry) (roots : Selection)
      (end : Walk) : Type 0 where
    pub prepared : prepare p measures policy context records ≡ ok (rows, (entries, roots))
    pub walked :
        close_graph p policy context rows entries (suc policy.maximum_rows) (start roots)
        ≡ some (ok end)

  pub sample_shape_graph-eq-ok :
      (sample : ShapeSample)
      → sample_shape_graph p measures policy context records ≡ some (ok sample)
      → (rows : List IndexedRow) × (entries : List ChildEntry) × (roots : Selection) × (end : Walk)
        × IsRun rows entries roots end
        × (sample_of p policy context rows entries end ≡ sample)
  unfolding sample_shape_graph
  sample_shape_graph-eq-ok sample h =
      elim (Result-cases (prepare p measures policy context records)) [
        | inl ((rows, (entries, roots)), e) ↦
            elim (Option-cases
              (close_graph p policy context rows entries (suc policy.maximum_rows) (start roots))) [
                | inl k ↦ ground arith
                | inr (result, k) ↦ elim (Result-cases result) [
                  | inl (w, l) ↦
                      let walked : close_graph p policy context rows entries
                            (suc policy.maximum_rows) (start roots)
                          ≡ some (ok w) =
                        cc in
                      (
                        rows,
                        entries,
                        roots,
                        w,
                        record { prepared = e; walked = walked },
                        ground arith,
                      )
                  | inr (b, l) ↦ ground arith
                ]
              ]
        | inr (b, e) ↦ ground arith
      ]

  -- The sampler always comes to an end: with the sample, or with an error.
  pub sample_shape_graph-returns :
      (result : Result ShapeError ShapeSample) × (sample_shape_graph p measures policy context
          records
        ≡ some result)
  unfolding sample_shape_graph
  sample_shape_graph-returns = elim (Result-cases (prepare p measures policy context records)) [
    | inl ((rows, (entries, roots)), e) ↦
        let (bounded, step) =
          prepare-selection p measures policy context records rows entries roots e in
        let (result, k) =
          close_graph-returns p policy context rows entries (suc policy.maximum_rows) 0
            (start roots) bounded
            (let even = sym (length-map (λ q. q.0) roots.pending) ∙ ap length step in omega arith)
            (omega arith) in
        elim (Result-cases result) [
          | inl (w, l) ↦
              let walked : close_graph p policy context rows entries (suc policy.maximum_rows)
                    (start roots)
                  ≡ some (ok w) =
                cc in
              (ok (sample_of p policy context rows entries w), ground arith)
          | inr (b, l) ↦
              let walked : close_graph p policy context rows entries (suc policy.maximum_rows)
                    (start roots)
                  ≡ some (err b) =
                cc in
              (err b, ground arith)
        ]
    | inr (b, e) ↦ (err b, ground arith)
  ]
