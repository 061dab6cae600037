-- ===== src/Shaping/Growth.antt =====
-- src/source/shaping/shape_sampler.mts: the selection and the queue before and after an addition.
use rehearsal_db.Common.{
  ℕ, ◌+◌, ◌≡◌, sym, ap, subst, ◌∙◌, ◌⊎◌, inl, inr, true, [], ◌∷◌, ◌++◌, map, ok, Text, length,
  arith, In, In-append_left, In-append_right, length-append, text_eq_self, In-append_cases,
  map-append,
}
use rehearsal_db.Shaping.Policy.{BaselineShapePolicy}
use rehearsal_db.Shaping.Index.{IndexedRow}
use rehearsal_db.Shaping.Selection.{Selection, identity, is_selected, add}
use rehearsal_db.Shaping.Steps.{add-cases}
use rehearsal_db.Shaping.Budgets.{is_selected-append}

-- The row is in the queue.
abbrev pub IsQueued : IndexedRow → Selection → Type 0
IsQueued x s = In x (map (λ q. q.0) s.pending)

-- The row, by its identity, is selected.
abbrev pub IsSelected : IndexedRow → Selection → Type 0
IsSelected q s = is_selected (identity q) s.selected ≡ true

module _ (policy : BaselineShapePolicy) where
  pub add-keeps :
      (i : Text) (r : IndexedRow) (depth : ℕ) (s t : Selection)
      → add policy r depth s ≡ ok t
      → is_selected i s.selected ≡ true
      → is_selected i t.selected ≡ true
  add-keeps i r depth s t h old = elim (add-cases policy r depth s t h) [
    | inl (known, e) ↦ subst (λ t. is_selected i t.selected ≡ true) (sym e) old
    | inr (new, deep, room, here, e) ↦
        let more = is_selected-append i s.selected r in
        subst (λ t. is_selected i t.selected ≡ true) (sym e) (ground arith)
  ]

  pub add-selects :
      (r : IndexedRow) (depth : ℕ) (s t : Selection) → add policy r depth s ≡ ok t → IsSelected r t
  add-selects r depth s t h = elim (add-cases policy r depth s t h) [
    | inl (known, e) ↦ subst (IsSelected r) (sym e) known
    | inr (new, deep, room, here, e) ↦
        let more = is_selected-append (identity r) s.selected r in
        let self = text_eq_self (identity r) in subst (IsSelected r) (sym e) (ground arith)
  ]

  pub add-before :
      (x r : IndexedRow) (depth : ℕ) (s t : Selection)
      → add policy r depth s ≡ ok t
      → IsQueued x s
      → IsQueued x t
  add-before x r depth s t h i = elim (add-cases policy r depth s t h) [
    | inl (known, e) ↦ subst (IsQueued x) (sym e) i
    | inr (new, deep, room, here, e) ↦ subst (IsQueued x) (sym e) (
        subst (λ l. In x l) (sym (map-append (λ q. q.0) s.pending ((r, depth) ∷ [])))
          (In-append_left x _ _ i))
  ]

  -- A row that an addition brings is the one that was asked for, and it is in the queue.
  pub add-brings :
      (x r : IndexedRow) (depth : ℕ) (s t : Selection)
      → add policy r depth s ≡ ok t
      → In x t.selected
      → In x s.selected ⊎ ((r ≡ x) × IsQueued x t)
  add-brings x r depth s t h i = elim (add-cases policy r depth s t h) [
    | inl (known, e) ↦ inl (subst (λ t. In x t.selected) e i)
    | inr (new, deep, room, here, e) ↦
        elim (In-append_cases x s.selected (r ∷ []) (subst (λ t. In x t.selected) e i)) [
          | inl j ↦ inl j
          | inr (inl same) ↦ inr (
            same,
            subst (IsQueued x) (sym e) (
                subst (λ l. In x l) (sym (map-append (λ q. q.0) s.pending ((r, depth) ∷ [])))
                  (In-append_right x (map (λ q. q.0) s.pending) (r ∷ []) (inl same))),
          )
          | inr (inr never) ↦ elim never [ ]
        ]
  ]

  -- The rows of the queue are old, or the one that was asked for.
  pub add-queues :
      (x r : IndexedRow) (depth : ℕ) (s t : Selection)
      → add policy r depth s ≡ ok t
      → IsQueued x t
      → IsQueued x s ⊎ (r ≡ x)
  add-queues x r depth s t h i = elim (add-cases policy r depth s t h) [
    | inl (known, e) ↦ inl (subst (IsQueued x) e i)
    | inr (new, deep, room, here, e) ↦
        elim (In-append_cases x (map (λ q. q.0) s.pending) (r ∷ []) (
          subst (λ l. In x l) (map-append (λ q. q.0) s.pending ((r, depth) ∷ []))
            (subst (IsQueued x) e i))) [
              | inl j ↦ inl j
              | inr (inl same) ↦ inr same
              | inr (inr never) ↦ elim never [ ]
            ]
  ]

  -- At first the queue holds the selected rows, in their order.
  pub add-in_step :
      (r : IndexedRow) (depth : ℕ) (s t : Selection)
      → add policy r depth s ≡ ok t
      → map (λ q. q.0) s.pending ≡ s.selected
      → map (λ q. q.0) t.pending ≡ t.selected
  add-in_step r depth s t h same = elim (add-cases policy r depth s t h) [
    | inl (known, e) ↦ subst (λ t. map (λ q. q.0) t.pending ≡ t.selected) (sym e) same
    | inr (new, deep, room, here, e) ↦
        subst (λ t. map (λ q. q.0) t.pending ≡ t.selected) (sym e)
          (map-append (λ q. q.0) s.pending ((r, depth) ∷ []) ∙ ap (λ l. l ++ r ∷ []) same)
  ]

  -- The rows behind the head of the queue and before it make up the selected ones.
  pub add-balanced :
      (n : ℕ) (r : IndexedRow) (depth : ℕ) (s t : Selection)
      → add policy r depth s ≡ ok t
      → n + length s.pending ≡ length s.selected
      → n + length t.pending ≡ length t.selected
  add-balanced n r depth s t h same = elim (add-cases policy r depth s t h) [
    | inl (known, e) ↦ subst (λ t. n + length t.pending ≡ length t.selected) (sym e) same
    | inr (new, deep, room, here, e) ↦
        subst (λ t. n + length t.pending ≡ length t.selected) (sym e)
          (let more = length-append s.pending ((r, depth) ∷ []) in
            let longer = length-append s.selected (r ∷ []) in ground arith)
  ]
