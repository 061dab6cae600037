-- ===== src/Shaping/Selection.antt =====
-- src/source/shaping/shape_sampler.mts: the selected rows, and the steps that add to them within the
-- reviewed budgets.
use rehearsal_db.Common.{
  ℕ, ◌+◌, Bool, false, not, ◌&&◌, Option, none, some, List, [], ◌∷◌, ◌++◌, Result, ok, ◌>>=◌, ◌>>◌,
  guard, Text, text_eq, length, keep, leb, if◌then◌else◌, any,
}
use rehearsal_db.Shaping.Keys.{ShapeError, depth_exceeded, row_budget}
use rehearsal_db.Shaping.Policy.{ShapeTable, BaselineShapePolicy, declaration_of}
use rehearsal_db.Shaping.Index.{IndexedRow}

-- `selected` in the order of insertion, `selectedCounts`, and what is left of `queue`.
pub record Selection : Type 0 where
  pub selected : List IndexedRow
  pub counts : Text → ℕ
  pub pending : List (IndexedRow × ℕ)

-- `${row.table}\0${row.key}`
abbrev pub identity : IndexedRow → Text
identity r = r.table ++ 0 ∷ r.key

unfoldable pub is_selected : Text → List IndexedRow → Bool
is_selected i rs = any (λ r. text_eq (identity r) i) rs

abbrev pub put_count : Text → ℕ → (Text → ℕ) → Text → ℕ
put_count t n counts u = if text_eq t u then n else counts u

abbrev pub within : ℕ → Option ShapeTable → Bool
within n none = false
within n (some d) = leb n d.maximum_rows

module _ (policy : BaselineShapePolicy) where
  abbrev pub inserted : IndexedRow → ℕ → Selection → Selection
  inserted r depth s = record {
    selected = s.selected ++ r ∷ [];
    counts = put_count r.table (s.counts r.table + 1) s.counts;
    pending = s.pending ++ (r, depth) ∷ [];
  }

  unfoldable pub add : IndexedRow → ℕ → Selection → Result ShapeError Selection
  unfolding is_selected declaration_of
  add r depth s =
      if is_selected (identity r) s.selected
      then ok s
      else (guard (leb depth policy.maximum_depth) depth_exceeded
          >> (guard
                (leb (length s.selected + 1) policy.maximum_rows
                  && within (s.counts r.table + 1) (declaration_of r.table policy.tables))
                row_budget
              >> ok (inserted r depth s)))

  unfoldable pub add_all : List IndexedRow → ℕ → Selection → Result ShapeError Selection
  unfolding add
  add_all [] depth s = ok s
  add_all (r ∷ rs) depth s = do t ← add r depth s; add_all rs depth t

  -- The loops that stop once the table has its root budget.
  unfoldable pub add_until : Text → ℕ → List IndexedRow → Selection → Result ShapeError Selection
  unfolding add
  add_until table budget [] s = ok s
  add_until table budget (r ∷ rs) s =
      if leb budget (s.counts table)
      then ok s
      else (add r 0 s >>= (λ t. add_until table budget rs t))

  -- `required.delete(digest)`, and then `add`; the digests that are left come with the selection.
  unfoldable pub add_required :
      (Text → Text)
      → List Text
      → List IndexedRow
      → Selection
      → Result ShapeError (List Text × Selection)
  unfolding add
  add_required sha256 required [] s = ok (required, s)
  add_required sha256 required (r ∷ rs) s =
      if any (text_eq (sha256 r.key)) required
      then (add r 0 s
          >>= (λ t. add_required sha256 (keep (λ d. not (text_eq (sha256 r.key) d)) required) rs t))
      else add_required sha256 required rs s
