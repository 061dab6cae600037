-- ===== src/Shaping/Budgets.antt =====
-- src/source/shaping/shape_sampler.mts: the budgets that an addition checks, and the counts that they are
-- checked on.
use rehearsal_db.Common.{
  ℕ, ◌+◌, ◌≤◌, ◌≡◌, refl, sym, ap, subst, ◌∙◌, inl, inr, true, false, ◌||◌, Option, none, some,
  List, [], ◌∷◌, ◌++◌, ok, Text, text_eq, length, arith, if◌then◌else◌, All, Bool-cases,
  length-append, All-append, leb→le, text_eq_sound,
}
use rehearsal_db.Shaping.Policy.{ShapeTable, BaselineShapePolicy, declaration_of}
use rehearsal_db.Shaping.Index.{IndexedRow, rows_of}
use rehearsal_db.Shaping.Selection.{
  Selection, identity, is_selected, within, inserted, add, put_count,
}
use rehearsal_db.Shaping.Steps.{add-cases, IsInserted}

-- No two rows with one identity.
abbrev pub IsDistinct : List IndexedRow → Type 0
IsDistinct [] = Unit {0}
IsDistinct (r ∷ rs) = (is_selected (identity r) rs ≡ false) × IsDistinct rs

pub record IsBounded (policy : BaselineShapePolicy) (s : Selection) : Type 0 where
  pub total : length s.selected ≤ policy.maximum_rows
  pub counted : (t : Text) → s.counts t ≡ length (rows_of t s.selected)
  pub by_declaration :
      (t : Text) (d : ShapeTable)
      → declaration_of t policy.tables ≡ some d
      → s.counts t ≤ d.maximum_rows
  pub shallow : All (λ q. q.1 ≤ policy.maximum_depth) s.pending
  pub distinct : IsDistinct s.selected

pub text_eq_sym : (s t : Text) → text_eq s t ≡ text_eq t s
unfolding text_eq
text_eq_sym [] [] = refl
text_eq_sym [] (d ∷ t) = refl
text_eq_sym (c ∷ s) [] = refl
text_eq_sym (c ∷ s) (d ∷ t) = let rest = text_eq_sym s t in ground arith

pub is_selected-append :
    (i : Text) (rs : List IndexedRow) (r : IndexedRow)
    → is_selected i (rs ++ r ∷ []) ≡ (is_selected i rs || text_eq (identity r) i)
unfolding is_selected
is_selected-append i [] r = ground arith
is_selected-append i (q ∷ rs) r = let rest = is_selected-append i rs r in ground arith

pub IsDistinct-append :
    (rs : List IndexedRow) (r : IndexedRow)
    → IsDistinct rs
    → is_selected (identity r) rs ≡ false
    → IsDistinct (rs ++ r ∷ [])
unfolding is_selected
IsDistinct-append [] r d new = (refl, tt)
IsDistinct-append (q ∷ rs) r (e, d) new =
    let old = is_selected-append (identity q) rs r in
    let apart = text_eq_sym (identity r) (identity q) in
    (ground arith, IsDistinct-append rs r d (ground arith))

keep-append_lem :
    (t : Text) (rs : List IndexedRow) (r : IndexedRow)
    → length (rows_of t (rs ++ r ∷ []))
      ≡ (if text_eq r.table t then length (rows_of t rs) + 1 else length (rows_of t rs))
keep-append_lem t [] r = ground arith
keep-append_lem t (q ∷ rs) r = let rest = keep-append_lem t rs r in ground arith

within_lem :
    (n : ℕ) (o : Option ShapeTable) (d : ShapeTable)
    → o ≡ some d
    → within n o ≡ true
    → n ≤ d.maximum_rows
within_lem n (some c) d e h =
    let same : c ≡ d = cc in subst (λ d. n ≤ d.maximum_rows) same (leb→le _ _ h)
within_lem n none d e h = cc

counted-inserted :
    (policy : BaselineShapePolicy) (r : IndexedRow) (depth : ℕ) (s : Selection) (u : Text)
    → ((t : Text) → s.counts t ≡ length (rows_of t s.selected))
    → put_count r.table (s.counts r.table + 1) s.counts u
      ≡ length (rows_of u (s.selected ++ r ∷ []))
counted-inserted policy r depth s u counted =
    let more = keep-append_lem u s.selected r in
    let before = counted u in
    elim (Bool-cases (text_eq r.table u)) [
      | inl same ↦
          let known : r.table ≡ u = text_eq_sound r.table u same in
          let there = counted r.table in let moved = ap s.counts known in ground arith
      | inr apart ↦ ground arith
    ]

inserted-by_declaration :
    (policy : BaselineShapePolicy) (r : IndexedRow) (s : Selection) (u : Text) (d : ShapeTable)
    → within (s.counts r.table + 1) (declaration_of r.table policy.tables) ≡ true
    → declaration_of u policy.tables ≡ some d
    → s.counts u ≤ d.maximum_rows
    → put_count r.table (s.counts r.table + 1) s.counts u ≤ d.maximum_rows
inserted-by_declaration policy r s u d here h before = elim (Bool-cases (text_eq r.table u)) [
  | inl same ↦
      let known : r.table ≡ u = text_eq_sound r.table u same in
      let fits =
        within_lem (s.counts r.table + 1) (declaration_of r.table policy.tables) d
          (ap (λ t. declaration_of t policy.tables) known ∙ h) here in
      ground arith
  | inr apart ↦ ground arith
]

inserted-IsBounded :
    (policy : BaselineShapePolicy) (r : IndexedRow) (depth : ℕ) (s t : Selection)
    → IsInserted policy r depth s t
    → IsBounded policy s
    → IsBounded policy (inserted policy r depth s)
inserted-IsBounded policy r depth s t (new, deep, room, here, e) b = record {
  total =
      let more = length-append s.selected (r ∷ []) in
      let fits = leb→le (length s.selected + 1) policy.maximum_rows room in ground arith;
  counted = λ u. counted-inserted policy r depth s u b.counted;
  by_declaration = λ u d h. inserted-by_declaration policy r s u d here h (b.by_declaration u d h);
  shallow =
      All-append (λ q. q.1 ≤ policy.maximum_depth) s.pending ((r, depth) ∷ []) b.shallow
        (leb→le depth policy.maximum_depth deep, tt);
  distinct = IsDistinct-append s.selected r b.distinct new;
}

pub add-IsBounded :
    (policy : BaselineShapePolicy) (r : IndexedRow) (depth : ℕ) (s t : Selection)
    → add policy r depth s ≡ ok t
    → IsBounded policy s
    → IsBounded policy t
add-IsBounded policy r depth s t h b = elim (add-cases policy r depth s t h) [
  | inl (old, e) ↦ subst (IsBounded policy) (sym e) b
  | inr i ↦ subst (IsBounded policy) (sym i.4) (inserted-IsBounded policy r depth s t i b)
]
