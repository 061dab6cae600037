-- ===== src/Shaping/Walks.antt =====
-- src/source/shaping/shape_sampler.mts: the rows that a row leads to, in one round of the walk.
use rehearsal_db.Common.{
  ℕ, ◌+◌, ◌≡◌, refl, sym, ap, subst, ◌∙◌, ◌⊎◌, inl, inr, true, ◌&&◌, Option, none, some, List, [],
  ◌∷◌, ok, guard, >>=-eq-ok, >>-eq-ok, Text, text_eq, length, leb, arith, In, Bool-cases, if-true,
  if-cases, All_of_In, if-false,
}
use rehearsal_db.Shaping.Keys.{fan_out}
use rehearsal_db.Shaping.Policy.{
  ShapeRelationship, BaselineShapePolicy, ShapeKeyContext, endpoint_identity,
}
use rehearsal_db.Shaping.Index.{
  IndexedRow, Primitives, ChildEntry, find_row, child_rows, parent_key,
}
use rehearsal_db.Shaping.Selection.{Selection, add, add_all}
use rehearsal_db.Shaping.Steps.{add_all-kept}
use rehearsal_db.Shaping.Closure.{
  Walk, found, record_edge, to_parent, visit_parent, visit_children, visit,
}

pub record_edge-selection :
    (relation : ShapeRelationship) (r : IndexedRow) (key : Text) (t : Selection) (w v : Walk)
    → record_edge relation r key t w ≡ ok v
    → v.selection ≡ t
unfolding record_edge
record_edge-selection relation r key t w v h = ground arith

pub found-eq-ok : (o : Option IndexedRow) (q : IndexedRow) → found o ≡ ok q → o ≡ some q
found-eq-ok none q h = cc
found-eq-ok (some r) q h = cc

module _ (p : Primitives) (policy : BaselineShapePolicy) (context : ShapeKeyContext)
    (rows : List IndexedRow) (entries : List ChildEntry) where
  -- The row that the relationship gives as the parent.
  abbrev pub IsParentOf : ShapeRelationship → IndexedRow → IndexedRow → Type 0
  IsParentOf relation r q =
      (text_eq r.table (endpoint_identity relation.child) ≡ true)
      × (key : Text) × (parent_key p policy context relation r ≡ ok (some key))
      × (find_row (endpoint_identity relation.parent) key rows ≡ some q)

  -- A row that the relationship gives as a child, where it includes the children.
  abbrev pub IsChildOf : ShapeRelationship → IndexedRow → IndexedRow → Type 0
  IsChildOf relation r q =
      ((relation.include_children && text_eq r.table (endpoint_identity relation.parent)) ≡ true)
      × In q (child_rows relation.id r.key entries)

  abbrev pub IsLinked : List ShapeRelationship → IndexedRow → IndexedRow → Type 0
  IsLinked relations r q =
      (relation : ShapeRelationship) × In relation relations
      × (IsParentOf relation r q ⊎ IsChildOf relation r q)

  -- The parent is added, and nothing else.
  pub to_parent-eq-ok :
      (relation : ShapeRelationship) (r : IndexedRow) (depth : ℕ) (w : Walk) (key : Text) (v : Walk)
      → to_parent p policy context rows entries relation r depth w (some key) ≡ ok v
      → (q : IndexedRow) × (find_row (endpoint_identity relation.parent) key rows ≡ some q)
        × (add policy q (depth + 1) w.selection ≡ ok v.selection)
  to_parent-eq-ok relation r depth w key v h =
      let (q, e, h') =
        >>=-eq-ok (found (find_row (endpoint_identity relation.parent) key rows)) _ h in
      let (t, e', h'') = >>=-eq-ok (add policy q (depth + 1) w.selection) _ h' in
      let same = record_edge-selection relation r key t w v h'' in
      (q, found-eq-ok _ q e, e' ∙ ap (λ t. ok t) (sym same))

  to_parent-cases :
      (relation : ShapeRelationship) (r : IndexedRow) (depth : ℕ) (w v : Walk) (o : Option Text)
      → to_parent p policy context rows entries relation r depth w o ≡ ok v
      → ((o ≡ none) × (w ≡ v))
        ⊎ ((key : Text) × (o ≡ some key)
            × (q : IndexedRow) × (find_row (endpoint_identity relation.parent) key rows ≡ some q)
            × (add policy q (depth + 1) w.selection ≡ ok v.selection))
  to_parent-cases relation r depth w v none h = inl (refl, cc)
  to_parent-cases relation r depth w v (some key) h =
      let (q, known, a) = to_parent-eq-ok relation r depth w key v h in inr (key, refl, q, known, a)

  -- A round adds the one parent that the relationship gives, or there is none and nothing changes.
  pub visit_parent-cases :
      (relation : ShapeRelationship) (r : IndexedRow) (depth : ℕ) (w v : Walk)
      → visit_parent p policy context rows entries relation r depth w ≡ ok v
      → ((w ≡ v) × ((q : IndexedRow) → ¬ IsParentOf relation r q))
        ⊎ ((q : IndexedRow) × IsParentOf relation r q
            × (add policy q (depth + 1) w.selection ≡ ok v.selection)
            × ((q' : IndexedRow) → IsParentOf relation r q' → q ≡ q'))
  unfolding visit_parent
  visit_parent-cases relation r depth w v h =
      elim (if-cases (text_eq r.table (endpoint_identity relation.child)) _ _ _ h) [
        | inl (here, e) ↦
            let (o, e', h') = >>=-eq-ok (parent_key p policy context relation r) _ e in
            elim (to_parent-cases relation r depth w v o h') [
              | inl (empty, same) ↦ inl (same, λ q (there, key, k, l). cc)
              | inr (key, full, q, known, a) ↦
                  inr (
                    q,
                    (here, key, e' ∙ ap (λ o. ok o) full, known),
                    a,
                    λ q' (there, key', k, l). cc,
                  )
            ]
        | inr (apart, e) ↦ inl (cc, λ q (there, key, k, l). cc)
      ]

  pub visit_children-eq-ok :
      (relation : ShapeRelationship) (r : IndexedRow) (depth : ℕ) (w v : Walk)
      → (relation.include_children && text_eq r.table (endpoint_identity relation.parent)) ≡ true
      → visit_children p policy context rows entries relation r depth w ≡ ok v
      → add_all policy (child_rows relation.id r.key entries) (depth + 1) w.selection
        ≡ ok v.selection
  unfolding visit_children
  visit_children-eq-ok relation r depth w v test h =
      let children = child_rows relation.id r.key entries in
      let h' = if-true _ _ _ _ test h in
      let h'' =
        >>-eq-ok (guard (leb (length children) relation.maximum_children_per_parent) fan_out) _
          h' in
      let (t, e, h3) = >>=-eq-ok (add_all policy children (depth + 1) w.selection) _ h''.1 in
      let same : record w { selection = t } ≡ v = cc in e ∙ ap (λ u. ok u.selection) same

-- What the additions of the rows that a row leads to keep, a round keeps.
module _ (p : Primitives) (policy : BaselineShapePolicy) (context : ShapeKeyContext)
    (rows : List IndexedRow) (entries : List ChildEntry) (I : Selection → Type 0)
    (P : IndexedRow → Type 0)
    (kept : (r : IndexedRow) (depth : ℕ) (s t : Selection)
      → P r
      → add policy r depth s ≡ ok t
      → I s
      → I t) where
  pub visit_parent-kept :
      (relation : ShapeRelationship) (r : IndexedRow) (depth : ℕ) (w v : Walk)
      → ((q : IndexedRow) → IsParentOf p policy context rows entries relation r q → P q)
      → visit_parent p policy context rows entries relation r depth w ≡ ok v
      → I w.selection
      → I v.selection
  visit_parent-kept relation r depth w v every h i =
      elim (visit_parent-cases p policy context rows entries relation r depth w v h) [
        | inl (same, only) ↦ subst (λ v. I v.selection) same i
        | inr (q, l, a, only) ↦ kept q (depth + 1) w.selection v.selection (every q l) a i
      ]

  pub visit_children-kept :
      (relation : ShapeRelationship) (r : IndexedRow) (depth : ℕ) (w v : Walk)
      → ((q : IndexedRow) → IsChildOf p policy context rows entries relation r q → P q)
      → visit_children p policy context rows entries relation r depth w ≡ ok v
      → I w.selection
      → I v.selection
  unfolding visit_children
  visit_children-kept relation r depth w v every h i =
      elim (Bool-cases
        (relation.include_children && text_eq r.table (endpoint_identity relation.parent))) [
          | inl here ↦
              let children = child_rows relation.id r.key entries in
              add_all-kept policy I P kept children (depth + 1) w.selection v.selection
                (All_of_In P children (λ q j. every q (here, j)))
                (visit_children-eq-ok p policy context rows entries relation r depth w v here h) i
          | inr apart ↦
              let same : w ≡ v = let h' = if-false _ _ _ _ apart h in cc in
              subst (λ v. I v.selection) same i
        ]

  pub visit-kept :
      (relations : List ShapeRelationship) (r : IndexedRow) (depth : ℕ) (w v : Walk)
      → ((q : IndexedRow) → IsLinked p policy context rows entries relations r q → P q)
      → visit p policy context rows entries relations r depth w ≡ ok v
      → I w.selection
      → I v.selection
  unfolding visit
  visit-kept [] r depth w v every h i = let same : w ≡ v = cc in subst (λ v. I v.selection) same i
  visit-kept (relation ∷ relations) r depth w v every h i =
      let (a, e, h') =
        >>=-eq-ok (visit_parent p policy context rows entries relation r depth w) _ h in
      let (b, e', h'') =
        >>=-eq-ok (visit_children p policy context rows entries relation r depth a) _ h' in
      visit-kept relations r depth b v (λ q (found, j, l). every q (found, inr j, l)) h''
        (visit_children-kept relation r depth a b (λ q l. every q (relation, inl refl, inr l)) e'
          (visit_parent-kept relation r depth w a (λ q l. every q (relation, inl refl, inl l)) e i))
