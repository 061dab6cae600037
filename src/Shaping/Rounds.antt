-- ===== src/Shaping/Rounds.antt =====
-- src/source/shaping/shape_sampler.mts: one round of the loop over the queue.
use rehearsal_db.Common.{
  ℕ, ◌+◌, ◌≡◌, subst, ◌⊎◌, inl, inr, true, some, List, [], ◌∷◌, ok, >>=-eq-ok, Text, text_eq, In,
  All_of_In, if-true,
}
use rehearsal_db.Shaping.Policy.{
  ShapeRelationship, BaselineShapePolicy, ShapeKeyContext, endpoint_identity,
}
use rehearsal_db.Shaping.Index.{
  IndexedRow, Primitives, ChildEntry, find_row, child_rows, parent_key,
}
use rehearsal_db.Shaping.Selection.{Selection, identity, add, add_all}
use rehearsal_db.Shaping.Steps.{add_all-kept}
use rehearsal_db.Shaping.Closure.{Walk, visit_parent, visit_children, visit, to_parent}
use rehearsal_db.Shaping.Walks.{
  IsParentOf, IsChildOf, visit-kept, visit_children-kept, visit_parent-cases, visit_children-eq-ok,
  to_parent-eq-ok,
}
use rehearsal_db.Shaping.Growth.{IsSelected, add-keeps, add-selects}

module _ (policy : BaselineShapePolicy) where
  keeps' :
      (q r : IndexedRow) (depth : ℕ) (s t : Selection)
      → Unit {0}
      → add policy r depth s ≡ ok t
      → IsSelected q s
      → IsSelected q t
  keeps' q r depth s t u h i = add-keeps policy (identity q) r depth s t h i

  pub add_all-selects :
      (q : IndexedRow) (rs : List IndexedRow) (depth : ℕ) (s t : Selection)
      → add_all policy rs depth s ≡ ok t
      → In q rs
      → IsSelected q t
  unfolding add_all
  add_all-selects q [] depth s t h i = elim i [ ]
  add_all-selects q (r ∷ rs) depth s t h (inl e) =
      let (u, e', h') = >>=-eq-ok (add policy r depth s) _ h in
      let there = subst (λ r. IsSelected r u) e (add-selects policy r depth s u e') in
      add_all-kept policy (IsSelected q) (λ x. Unit {0}) (keeps' q) rs depth u t
        (All_of_In (λ x. Unit {0}) rs (λ x j. tt)) h' there
  add_all-selects q (r ∷ rs) depth s t h (inr i) =
      let (u, e', h') = >>=-eq-ok (add policy r depth s) _ h in add_all-selects q rs depth u t h' i

module _ (p : Primitives) (policy : BaselineShapePolicy) (context : ShapeKeyContext)
    (rows : List IndexedRow) (entries : List ChildEntry) where
  -- The row that the key names is there, and every row that the relationship leads to is selected.
  pub record IsSettledFor (relation : ShapeRelationship) (x : IndexedRow) (s : Selection)
      : Type 0 where
    pub resolved :
        text_eq x.table (endpoint_identity relation.child) ≡ true
        → (key : Text) → parent_key p policy context relation x ≡ ok (some key)
        → (q : IndexedRow) × (find_row (endpoint_identity relation.parent) key rows ≡ some q)
    pub followed :
        (q : IndexedRow)
        → IsParentOf p policy context rows entries relation x q
          ⊎ IsChildOf p policy context rows entries relation x q
        → IsSelected q s

  abbrev pub IsSettled : List ShapeRelationship → IndexedRow → Selection → Type 0
  IsSettled relations x s =
      (relation : ShapeRelationship) → In relation relations → IsSettledFor relation x s

  IsSettledFor-grows :
      (relation : ShapeRelationship) (x : IndexedRow) (s t : Selection)
      → ((q : IndexedRow) → IsSelected q s → IsSelected q t)
      → IsSettledFor relation x s
      → IsSettledFor relation x t
  IsSettledFor-grows relation x s t grows settled = record {
    resolved = settled.resolved;
    followed = λ q l. grows q (settled.followed q l);
  }

  pub IsSettled-grows :
      (relations : List ShapeRelationship) (x : IndexedRow) (s t : Selection)
      → ((q : IndexedRow) → IsSelected q s → IsSelected q t)
      → IsSettled relations x s
      → IsSettled relations x t
  IsSettled-grows relations x s t grows settled =
      λ relation i. IsSettledFor-grows relation x s t grows (settled relation i)

  visit_parent-resolves :
      (relation : ShapeRelationship) (r : IndexedRow) (depth : ℕ) (w u : Walk) (key : Text)
      → visit_parent p policy context rows entries relation r depth w ≡ ok u
      → text_eq r.table (endpoint_identity relation.child) ≡ true
      → parent_key p policy context relation r ≡ ok (some key)
      → (q : IndexedRow) × (find_row (endpoint_identity relation.parent) key rows ≡ some q)
  unfolding visit_parent
  visit_parent-resolves relation r depth w u key h here k =
      let e = if-true _ _ _ _ here h in
      let (o, e', h') = >>=-eq-ok (parent_key p policy context relation r) _ e in
      let named : o ≡ some key = cc in
      let h'' =
        subst (λ o. to_parent p policy context rows entries relation r depth w o ≡ ok u) named h' in
      let (q, known, a) =
        to_parent-eq-ok p policy context rows entries relation r depth w key u h'' in
      (q, known)

  visit-grows :
      (relations : List ShapeRelationship) (r : IndexedRow) (depth : ℕ) (w v : Walk)
      (q : IndexedRow)
      → visit p policy context rows entries relations r depth w ≡ ok v
      → IsSelected q w.selection
      → IsSelected q v.selection
  visit-grows relations r depth w v q h =
      visit-kept p policy context rows entries (IsSelected q) (λ x. Unit {0}) (keeps' policy q)
        relations r depth w v (λ x l. tt) h

  visit-one :
      (relation : ShapeRelationship) (r : IndexedRow) (depth : ℕ) (w u v : Walk)
      → visit_parent p policy context rows entries relation r depth w ≡ ok u
      → visit_children p policy context rows entries relation r depth u ≡ ok v
      → IsSettledFor relation r v.selection
  visit-one relation r depth w u v h h' = record {
    resolved = λ here key k. visit_parent-resolves relation r depth w u key h here k;
    followed = λ q l. elim l [
      | inl parent ↦
          elim (visit_parent-cases p policy context rows entries relation r depth w u h) [
            | inl (same, only) ↦ elim (only q parent) [ ]
            | inr (q', l', a, only) ↦
                visit_children-kept p policy context rows entries (IsSelected q) (λ x. Unit {0})
                  (keeps' policy q) relation r depth u v (λ x l. tt) h'
                  (subst (λ q. IsSelected q u.selection) (only q parent)
                    (add-selects policy q' (depth + 1) w.selection u.selection a))
          ]
      | inr (test, i) ↦
          add_all-selects policy q (child_rows relation.id r.key entries) (depth + 1) u.selection
            v.selection
            (visit_children-eq-ok p policy context rows entries relation r depth u v test h') i
    ];
  }

  pub visit-IsSettled :
      (relations : List ShapeRelationship) (r : IndexedRow) (depth : ℕ) (w v : Walk)
      → visit p policy context rows entries relations r depth w ≡ ok v
      → IsSettled relations r v.selection
  unfolding visit
  visit-IsSettled [] r depth w v h = λ relation i. elim i [ ]
  visit-IsSettled (relation ∷ relations) r depth w v h =
      let (a, e, h') =
        >>=-eq-ok (visit_parent p policy context rows entries relation r depth w) _ h in
      let (b, e', h'') =
        >>=-eq-ok (visit_children p policy context rows entries relation r depth a) _ h' in
      λ other_relation i. elim i [
        | inl same ↦
            subst (λ c. IsSettledFor c r v.selection) same
              (IsSettledFor-grows relation r b.selection v.selection
                (λ q. visit-grows relations r depth b v q h'')
                (visit-one relation r depth w a b e e'))
        | inr j ↦ visit-IsSettled relations r depth b v h'' other_relation j
      ]
