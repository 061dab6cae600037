-- ===== src/Shaping/Required.antt =====
-- src/source/shaping/shape_sampler.mts: the required rows of a table, in the choice of roots and in the sample.
use rehearsal_db.Shaping.Origins.{IsRowOf, prepare-IsIndexOf}
use rehearsal_db.Shaping.Members.{IsSampled, IsRun-IsRowOf, IsRun-IsSampled}
use rehearsal_db.Shaping.Reach.{close_graph-IsClosureOf}
use rehearsal_db.Common.{
  In-keep_cases, In-map, suc, ℕ, ◌≡◌, refl, ap, subst, ◌⊎◌, inl, inr, not, some, List, [], ◌∷◌, ok,
  >>=-eq-ok, Text, text_eq, keep, In, In-sort_by_iff, any, Bool-cases, if-cases, text_eq_sound,
  In-keep,
}
use rehearsal_db.Shaping.Policy.{
  ShapeTable, BaselineShapePolicy, ShapeRecord, ShapeKeyContext, table_identity,
}
use rehearsal_db.Shaping.Index.{IndexedRow, Primitives, rows_of}
use rehearsal_db.Shaping.Selection.{Selection, identity, add, add_required}
use rehearsal_db.Shaping.Buckets.{Measures}
use rehearsal_db.Shaping.Profiling.{ShapeProfiles}
use rehearsal_db.Shaping.Roots.{select_roots, add_roots, by_rank}
use rehearsal_db.Shaping.Steps.{
  add_required-kept, add_until-kept, All_of, ranked, budget, add_roots-stages,
}
use rehearsal_db.Shaping.Rooting.{add_goal-kept, select_roots-kept}
use rehearsal_db.Shaping.Growth.{IsSelected, add-keeps, add-selects}
use rehearsal_db.Shaping.Closure.{ShapeSample, sample_shape_graph, nothing_selected}
use rehearsal_db.Shaping.Sample.{prepare-roots, prepare-selection, sample_shape_graph-eq-ok}

module _ (p : Primitives) where
  -- A row of these that has the digest, and is selected.
  abbrev pub IsMet : Text → List IndexedRow → Selection → Type 0
  IsMet digest rows s = (r : IndexedRow) × In r rows × (p.sha256 r.key ≡ digest) × IsSelected r s

  -- Every digest that a table requires is met by a selected row of that table.
  abbrev pub IsRequiredMet : List IndexedRow → List ShapeTable → Selection → Type 0
  IsRequiredMet rows tables s =
      (d : ShapeTable) (digest : Text)
      → In d tables
      → In digest d.required_key_sha256
      → IsMet digest (rows_of (table_identity d.schema d.name) rows) s

module _ (p : Primitives) (profiles : ShapeProfiles) (policy : BaselineShapePolicy) where
  keeps' :
      (q r : IndexedRow) (depth : ℕ) (s t : Selection)
      → Unit {0}
      → add policy r depth s ≡ ok t
      → IsSelected q s
      → IsSelected q t
  keeps' q r depth s t u h i = add-keeps policy (identity q) r depth s t h i

  IsMet-later :
      (digest : Text) (r : IndexedRow) (rs : List IndexedRow) (t : Selection)
      → IsMet p digest rs t
      → IsMet p digest (r ∷ rs) t
  IsMet-later digest r rs t (q, i, e, k) = (q, inr i, e, k)

  add_required-IsMet :
      (digest : Text) (rs : List IndexedRow) (required left : List Text) (s t : Selection)
      → add_required policy p.sha256 required rs s ≡ ok (left, t)
      → In digest required
      → In digest left ⊎ IsMet p digest rs t
  unfolding add_required
  add_required-IsMet digest [] required left s t h i =
      let same : required ≡ left = cc in inl (subst (λ l. In digest l) same i)
  add_required-IsMet digest (r ∷ rs) required left s t h i =
      elim (if-cases (any (text_eq (p.sha256 r.key)) required) _ _ _ h) [
        | inl (known, e) ↦
            let still = keep (λ d. not (text_eq (p.sha256 r.key) d)) required in
            let (u, e', h') = >>=-eq-ok (add policy r 0 s) _ e in
            elim (Bool-cases (text_eq (p.sha256 r.key) digest)) [
              | inl met ↦ inr (
                r,
                inl refl,
                text_eq_sound (p.sha256 r.key) digest met,
                add_required-kept policy (IsSelected r) (λ x. Unit {0}) (keeps' r) p.sha256 rs still
                    u t left (All_of (λ x. Unit {0}) (λ x. tt) rs) h'
                    (add-selects policy r 0 s u e'),
              )
              | inr apart ↦
                  elim (add_required-IsMet digest rs still left u t h' (
                    In-keep (λ d. not (text_eq (p.sha256 r.key) d)) digest required i
                      (ap not apart))) [ inl j ↦ inl j | inr m ↦ inr (IsMet-later digest r rs t m) ]
            ]
        | inr (unknown, e) ↦ elim (add_required-IsMet digest rs required left s t e i) [
          | inl j ↦ inl j
          | inr m ↦ inr (IsMet-later digest r rs t m)
        ]
      ]

  add_roots-IsMet :
      (rows : List IndexedRow) (d : ShapeTable) (s t : Selection) (digest : Text)
      → add_roots p profiles policy rows d s ≡ ok t
      → In digest d.required_key_sha256
      → IsMet p digest (rows_of (table_identity d.schema d.name) rows) t
  add_roots-IsMet rows d s t digest h i =
      let table = table_identity d.schema d.name in
      let ranked = ranked p profiles policy rows d in
      let budget = budget p profiles policy rows d in
      let (u, v, e, e', e3) = add_roots-stages p profiles policy rows d s t h in
      elim (add_required-IsMet digest ranked d.required_key_sha256 [] s u e i) [
        | inl never ↦ elim never [ ]
        | inr (r, j, k, l) ↦
            let (into, out) = In-sort_by_iff (by_rank p profiles policy) r (rows_of table rows) in
            (
              r,
              into j,
              k,
              add_until-kept policy (IsSelected r) (λ x. Unit {0}) (keeps' r) table budget ranked v
                  t (All_of (λ x. Unit {0}) (λ x. tt) ranked) e3
                  (add_goal-kept p profiles policy (IsSelected r) (λ x. Unit {0}) (keeps' r) table _
                    budget ranked u v (All_of (λ x. Unit {0}) (λ x. tt) ranked) e' l),
            )
      ]

  select_roots-IsRequiredMet :
      (rows : List IndexedRow) (ds : List ShapeTable) (s t : Selection)
      → select_roots p profiles policy rows ds s ≡ ok t
      → IsRequiredMet p rows ds t
  unfolding select_roots
  select_roots-IsRequiredMet rows [] s t h = λ d digest i j. elim i [ ]
  select_roots-IsRequiredMet rows (c ∷ ds) s t h =
      let (u, e, h') = >>=-eq-ok (add_roots p profiles policy rows c s) _ h in
      λ d digest i j. elim i [
        | inl same ↦
            let (r, k, l, m) =
              add_roots-IsMet rows d s u digest
                (subst (λ c. add_roots p profiles policy rows c s ≡ ok u) same e) j in
            (
              r,
              k,
              l,
              select_roots-kept p profiles policy (IsSelected r) (λ x. Unit {0}) (keeps' r) rows ds
                  u t (All_of (λ x. Unit {0}) (λ x. tt) rows) h' m,
            )
        | inr later ↦ select_roots-IsRequiredMet rows ds u t h' d digest later j
      ]

module _ (p : Primitives) (measures : Measures) (policy : BaselineShapePolicy)
    (context : ShapeKeyContext) (records : List ShapeRecord) where
  -- Each digest that a table requires is met by a record of the source: it is of this table, its key has
  -- the digest, and a record of the sample has the same table and key, joined by a zero.
  pub sample_shape_graph-IsRequiredMet :
      (sample : ShapeSample) (d : ShapeTable) (digest : Text)
      → sample_shape_graph p measures policy context records ≡ some (ok sample)
      → In d policy.tables
      → In digest d.required_key_sha256
      → (r : IndexedRow) × In r.original records
        × IsRowOf p policy context r
        × (r.table ≡ table_identity d.schema d.name)
        × (p.sha256 r.key ≡ digest)
        × IsSampled p policy context sample.records (identity r)
  sample_shape_graph-IsRequiredMet sample d digest h i j =
      let (rows, entries, roots, end, run, e) =
        sample_shape_graph-eq-ok p measures policy context records sample h in
      let (profiles, selected) =
        prepare-roots p measures policy context records rows entries roots run.prepared in
      let (bounded, step) =
        prepare-selection p measures policy context records rows entries roots run.prepared in
      let closure =
        close_graph-IsClosureOf p policy context rows entries (suc policy.maximum_rows) roots end
          step run.walked in
      let (same, all) =
        prepare-IsIndexOf p measures policy context records rows entries roots run.prepared in
      let table = table_identity d.schema d.name in
      let (r, k, l, m) =
        select_roots-IsRequiredMet p profiles policy rows policy.tables nothing_selected roots
          selected d digest i j in
      let (drawn, of_table) = In-keep_cases (λ r. text_eq r.table table) r rows k in
      (
        r,
        subst (λ rs. In r.original rs) same (In-map (λ x. x.original) r rows drawn),
        IsRun-IsRowOf p measures policy context records rows entries roots end run r drawn,
        text_eq_sound r.table table of_table,
        l,
        IsRun-IsSampled p measures policy context records rows entries roots end run sample
            (identity r) e (closure.rooted r m),
      )
