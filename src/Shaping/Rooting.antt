-- ===== src/Shaping/Rooting.antt =====
-- src/source/shaping/shape_sampler.mts: the choice of roots as additions of rows of the index.
use rehearsal_db.Common.{
  ◌++◌, true, false, All-take, All-append, All_of_In, In-sort_by_iff, In-keep_cases, All-In,
  text_eq, ℕ, ◌≡◌, subst, inl, inr, Option, none, some, List, [], ◌∷◌, ok, >>=-eq-ok, Text, length,
  take, leb, All, if-cases,
}
use rehearsal_db.Shaping.Policy.{
  ShapeRecord, ShapeTable, ShapeGoal, BaselineShapePolicy, table_identity,
}
use rehearsal_db.Shaping.Buckets.{Bucket}
use rehearsal_db.Shaping.Profiling.{ShapeProfiles}
use rehearsal_db.Shaping.Index.{IndexedRow, Primitives, rows_of}
use rehearsal_db.Shaping.Selection.{Selection, add, add_until}
use rehearsal_db.Shaping.Roots.{
  put_bucket, buckets_of, is_bucket, allocation, source_count, by_rank, add_buckets, add_goal,
  add_roots, select_roots,
}
use rehearsal_db.Shaping.Steps.{add_until-kept, add_required-kept, ranked, budget, add_roots-stages}

-- The rows of the buckets.
abbrev AllBuckets : (IndexedRow → Type 0) → List (Option Bucket × List IndexedRow) → Type 0
AllBuckets P bs = All (λ b. All P b.1) bs

put_bucket-AllBuckets :
    (P : IndexedRow → Type 0) (b : Option Bucket) (r : IndexedRow)
    (bs : List (Option Bucket × List IndexedRow))
    → P r
    → AllBuckets P bs
    → AllBuckets P (put_bucket b r bs)
unfolding put_bucket
put_bucket-AllBuckets P b r [] h a = ((h, tt), tt)
put_bucket-AllBuckets P b r ((c, rs) ∷ bs) h (a, all) =
    elim (is_bucket c b)
      as (λ test.
        AllBuckets P
          (elim test [ true ↦ (c, rs ++ r ∷ []) ∷ bs | false ↦ (c, rs) ∷ put_bucket b r bs ])) [
            | true ↦ (All-append P rs (r ∷ []) a (h, tt), all)
            | false ↦ (a, put_bucket-AllBuckets P b r bs h all)
          ]

buckets_of-AllBuckets :
    (P : IndexedRow → Type 0) (assigned : ShapeRecord → Option Bucket)
    (bs : List (Option Bucket × List IndexedRow)) (rs : List IndexedRow)
    → All P rs
    → AllBuckets P bs
    → AllBuckets P (buckets_of assigned bs rs)
unfolding buckets_of
buckets_of-AllBuckets P assigned bs [] a all = all
buckets_of-AllBuckets P assigned bs (r ∷ rs) (h, a) all =
    buckets_of-AllBuckets P assigned (put_bucket (assigned r.original) r bs) rs a
      (put_bucket-AllBuckets P (assigned r.original) r bs h all)

-- The roots: what every addition of a row with `P` keeps.
module _ (p : Primitives) (profiles : ShapeProfiles) (policy : BaselineShapePolicy)
    (I : Selection → Type 0) (P : IndexedRow → Type 0)
    (kept : (r : IndexedRow) (depth : ℕ) (s t : Selection)
      → P r
      → add policy r depth s ≡ ok t
      → I s
      → I t) where
  All-ranked :
      (rows : List IndexedRow) (d : ShapeTable)
      → All P rows
      → All P (ranked p profiles policy rows d)
  All-ranked rows d a = All_of_In P (ranked p profiles policy rows d) (λ x i.
      let own = rows_of (table_identity d.schema d.name) rows in
      let (into, out) = In-sort_by_iff (by_rank p profiles policy) x own in
      let (j, test) =
        In-keep_cases (λ r. text_eq r.table (table_identity d.schema d.name)) x rows (into i) in
      All-In P x rows a j)

  add_buckets-kept :
      (table : Text) (goal : ShapeGoal) (budget ranked : ℕ)
      (bs : List (Option Bucket × List IndexedRow)) (s t : Selection)
      → AllBuckets P bs
      → add_buckets p profiles policy table goal budget ranked bs s ≡ ok t
      → I s
      → I t
  unfolding add_buckets
  add_buckets-kept table goal budget ranked [] s t a h i = let same : s ≡ t = cc in subst I same i
  add_buckets-kept table goal budget ranked ((b, members) ∷ bs) s t (a, all) h i =
      let size =
        allocation p profiles policy goal budget ranked (source_count (profiles.counts goal.id) b)
          (length members) in
      let (u, e, h') = >>=-eq-ok (add_until policy table budget (take size members) s) _ h in
      add_buckets-kept table goal budget ranked bs u t all h' (
        add_until-kept policy I P kept table budget (take size members) s u
          (All-take P size members a) e i)

  pub add_goal-kept :
      (table : Text) (goal : Option ShapeGoal) (budget : ℕ) (ranked : List IndexedRow)
      (s t : Selection)
      → All P ranked
      → add_goal p profiles policy table goal budget ranked s ≡ ok t
      → I s
      → I t
  add_goal-kept table none budget ranked s t a h i = let same : s ≡ t = cc in subst I same i
  add_goal-kept table (some goal) budget ranked s t a h i = elim (if-cases (leb budget 0) _ _ _ h) [
    | inl (zeroed, e) ↦ let same : s ≡ t = cc in subst I same i
    | inr (positive, e) ↦
        add_buckets-kept table goal budget _ _ s t
          (buckets_of-AllBuckets P (profiles.assignments goal.id) [] ranked a tt) e i
  ]

  add_roots-kept :
      (rows : List IndexedRow) (d : ShapeTable) (s t : Selection)
      → All P rows
      → add_roots p profiles policy rows d s ≡ ok t
      → I s
      → I t
  add_roots-kept rows d s t a h i =
      let (u, v, e, e', e3) = add_roots-stages p profiles policy rows d s t h in
      let own = ranked p profiles policy rows d in
      let all = All-ranked rows d a in
      let i' =
        add_required-kept policy I P kept p.sha256 own d.required_key_sha256 s u [] all e i in
      add_until-kept policy I P kept (table_identity d.schema d.name)
        (budget p profiles policy rows d) own v t all e3
        (add_goal-kept (table_identity d.schema d.name) _ (budget p profiles policy rows d) own u v
          all e' i')

  pub select_roots-kept :
      (rows : List IndexedRow) (ds : List ShapeTable) (s t : Selection)
      → All P rows
      → select_roots p profiles policy rows ds s ≡ ok t
      → I s
      → I t
  unfolding select_roots
  select_roots-kept rows [] s t a h i = let same : s ≡ t = cc in subst I same i
  select_roots-kept rows (d ∷ ds) s t a h i =
      let (u, e, h') = >>=-eq-ok (add_roots p profiles policy rows d s) _ h in
      select_roots-kept rows ds u t a h' (add_roots-kept rows d s u a e i)
