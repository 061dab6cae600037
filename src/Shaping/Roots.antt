-- ===== src/Shaping/Roots.antt =====
-- src/source/shaping/shape_sampler.mts: the choice of the roots of each table, from the profiles of the rows.
use rehearsal_db.Common.{
  ℕ, ◌*◌, ◌/◌, Bool, true, false, ◌&&◌, Option, none, some, List, [], ◌∷◌, ◌++◌, Result, ok, ◌>>=◌,
  ◌>>◌, guard, Text, text_eq, length, take, ltb, leb, if◌then◌else◌, sort_by,
}
use rehearsal_db.Shaping.Keys.{ShapeError, required_absent}
use rehearsal_db.Shaping.Policy.{
  ShapeTable, ShapeGoal, BaselineShapePolicy, ShapeRecord, table_identity, joint_first,
}
use rehearsal_db.Shaping.Buckets.{Bucket, same_bucket}
use rehearsal_db.Shaping.Profiling.{ShapeProfiles}
use rehearsal_db.Shaping.Index.{IndexedRow, Primitives, rows_of}
use rehearsal_db.Shaping.Selection.{Selection, add_until, add_required}

abbrev pub min : ℕ → ℕ → ℕ
min a b = if leb a b then a else b

abbrev pub max : ℕ → ℕ → ℕ
max a b = if leb a b then b else a

-- `get(row.record)!`, with the names of buckets as Map keys, undefined among them.
abbrev pub is_bucket : Option Bucket → Option Bucket → Bool
is_bucket none none = true
is_bucket (some a) (some b) = same_bucket a b
is_bucket a b = false

abbrev pub source_count : (Bucket → ℕ) → Option Bucket → ℕ
source_count counts none = 0
source_count counts (some b) = counts b

-- `buckets.set(bucket, matching)`: the buckets stand in the order of their first rows.
unfoldable pub put_bucket :
    Option Bucket
    → IndexedRow
    → List (Option Bucket × List IndexedRow)
    → List (Option Bucket × List IndexedRow)
put_bucket b r [] = (b, r ∷ []) ∷ []
put_bucket b r ((c, rs) ∷ bs) = elim (is_bucket c b) [
  | true ↦ (c, rs ++ r ∷ []) ∷ bs
  | false ↦ (c, rs) ∷ put_bucket b r bs
]

unfoldable pub buckets_of :
    (ShapeRecord → Option Bucket)
    → List (Option Bucket × List IndexedRow)
    → List IndexedRow
    → List (Option Bucket × List IndexedRow)
unfolding put_bucket
buckets_of assigned bs [] = bs
buckets_of assigned bs (r ∷ rs) = buckets_of assigned (put_bucket (assigned r.original) r bs) rs

abbrev pub is_goal_of : ShapeTable → ShapeGoal → Bool
is_goal_of d g = text_eq g.schema d.schema && text_eq g.table d.name

-- `find`
unfoldable pub find_goal : ShapeTable → List ShapeGoal → Option ShapeGoal
find_goal d [] = none
find_goal d (g ∷ gs) = elim (is_goal_of d g) [ true ↦ some g | false ↦ find_goal d gs ]

module _ (p : Primitives) (profiles : ShapeProfiles) (policy : BaselineShapePolicy) where
  -- The rows that a bucket may give, of `ranked` rows in all; `count` is of the source.
  unfoldable pub allocation : ShapeGoal → (budget ranked count members : ℕ) → ℕ
  allocation goal budget ranked count members =
      if ltb count policy.minimum_cohort_size
      then 0
      else min members (max goal.minimum_bucket_rows ((budget * count) / ranked))

  -- The loop over buckets.
  unfoldable pub add_buckets :
      Text
      → ShapeGoal
      → (budget ranked : ℕ) → List (Option Bucket × List IndexedRow)
      → Selection
      → Result ShapeError Selection
  unfolding add_until allocation
  add_buckets table goal budget ranked [] s = ok s
  add_buckets table goal budget ranked ((b, members) ∷ bs) s = do
    t ←
        add_until policy table budget
          (take
            (allocation goal budget ranked (source_count (profiles.counts goal.id) b)
              (length members))
            members)
          s
    add_buckets table goal budget ranked bs t

  abbrev pub add_goal :
      Text → Option ShapeGoal → ℕ → List IndexedRow → Selection → Result ShapeError Selection
  add_goal table none budget ranked s = ok s
  add_goal table (some goal) budget ranked s =
      if leb budget 0
      then ok s
      else add_buckets table goal budget (length ranked)
          (buckets_of (profiles.assignments goal.id) [] ranked) s

  abbrev pub by_rank : IndexedRow → IndexedRow → Bool
  by_rank a b = p.before a.rank b.rank

  -- `new Set(declaration.requiredKeySha256)`: as only membership and emptiness are read, the list serves.
  unfoldable pub add_roots : List IndexedRow → ShapeTable → Selection → Result ShapeError Selection
  unfolding add_required add_until add_buckets
  add_roots rows d s =
      let table = table_identity d.schema d.name in
      let ranked = sort_by by_rank (rows_of table rows) in
      let budget = min d.root_rows (length ranked) in
      do
        w ← add_required policy p.sha256 d.required_key_sha256 ranked s
        guard (leb (length w.0) 0) required_absent
        t ← add_goal table (find_goal d (joint_first policy)) budget ranked w.1
        add_until policy table budget ranked t

  -- The loop over tables.
  unfoldable pub select_roots :
      List IndexedRow → List ShapeTable → Selection → Result ShapeError Selection
  unfolding add_roots
  select_roots rows [] s = ok s
  select_roots rows (d ∷ ds) s = do t ← add_roots rows d s; select_roots rows ds t
