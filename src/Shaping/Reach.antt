-- ===== src/Shaping/Reach.antt =====
-- src/source/shaping/shape_sampler.mts: the loop over the queue, round by round.
use rehearsal_db.Common.{
  ℕ, zero, suc, ◌≡◌, refl, sym, subst, ◌⊎◌, inl, inr, true, some, List, [], ◌∷◌, map, ok,
  Result-cases, arith, In, List-cases,
}
use rehearsal_db.Shaping.Policy.{BaselineShapePolicy, ShapeKeyContext}
use rehearsal_db.Shaping.Index.{IndexedRow, Primitives, ChildEntry}
use rehearsal_db.Shaping.Selection.{Selection, identity, is_selected, add}
use rehearsal_db.Shaping.Closure.{Walk, visit, close_graph, popped, start}
use rehearsal_db.Shaping.Walks.{IsLinked, visit-kept}
use rehearsal_db.Shaping.Growth.{
  IsQueued, IsSelected, add-keeps, add-before, add-brings, add-queues,
}
use rehearsal_db.Shaping.Rounds.{IsSettled, IsSettled-grows, visit-IsSettled}

-- A root, or a row that a relationship leads to from such a row.
pub data IsReachable (p : Primitives) (policy : BaselineShapePolicy) (context : ShapeKeyContext)
    (rows : List IndexedRow) (entries : List ChildEntry) (roots : List IndexedRow)
    : IndexedRow → Type 0 where
  root : (r : IndexedRow) → In r roots → IsReachable p policy context rows entries roots r
  linked :
      (r q : IndexedRow)
      → IsReachable p policy context rows entries roots r
      → IsLinked p policy context rows entries policy.relationships r q
      → IsReachable p policy context rows entries roots q

module _ (p : Primitives) (policy : BaselineShapePolicy) (context : ShapeKeyContext)
    (rows : List IndexedRow) (entries : List ChildEntry) where
  -- What every round keeps holds at the end, and there the queue is empty.
  pub close_graph-rule :
      (J : Walk → Type 0)
      → ((r : IndexedRow) (depth : ℕ) (rest : List (IndexedRow × ℕ)) (w v : Walk)
          → w.selection.pending ≡ (r, depth) ∷ rest
          → visit p policy context rows entries policy.relationships r depth (popped rest w) ≡ ok v
          → J w
          → J v)
      → (fuel : ℕ) (w v : Walk) → close_graph p policy context rows entries fuel w ≡ some (ok v)
      → J w
      → J v × (v.selection.pending ≡ [])
  unfolding close_graph
  close_graph-rule J round zero w v h j = cc
  close_graph-rule J round (suc fuel) w v h j = elim (List-cases w.selection.pending) [
    | inl e ↦
        let same : w ≡ v = ground arith in
        (subst J same j, subst (λ v. v.selection.pending ≡ []) same e)
    | inr ((r, depth), rest, e) ↦
        elim (Result-cases
          (visit p policy context rows entries policy.relationships r depth (popped rest w))) [
            | inl (u, k) ↦
                close_graph-rule J round fuel u v (ground arith) (round r depth rest w u e k j)
            | inr (b, k) ↦ ground arith
          ]
  ]

  -- Every selected row waits in the queue, or is the row of the round, or has been followed.
  abbrev pub IsAccounted : (IndexedRow → Type 0) → Selection → Type 0
  IsAccounted Now s =
      (x : IndexedRow)
      → In x s.selected
      → IsQueued x s ⊎ (Now x ⊎ IsSettled p policy context rows entries policy.relationships x s)

  add-IsAccounted :
      (Now : IndexedRow → Type 0) (r : IndexedRow) (depth : ℕ) (s t : Selection)
      → add policy r depth s ≡ ok t
      → IsAccounted Now s
      → IsAccounted Now t
  add-IsAccounted Now r depth s t h account = λ x i. elim (add-brings policy x r depth s t h i) [
    | inl old ↦ elim (account x old) [
      | inl queued ↦ inl (add-before policy x r depth s t h queued)
      | inr (inl now) ↦ inr (inl now)
      | inr (inr settled) ↦ inr (
          inr (
            IsSettled-grows p policy context rows entries policy.relationships x s t
              (λ q. add-keeps policy (identity q) r depth s t h) settled))
    ]
    | inr (same, queued) ↦ inl queued
  ]

  round-IsAccounted :
      (r : IndexedRow) (depth : ℕ) (rest : List (IndexedRow × ℕ)) (w v : Walk)
      → w.selection.pending ≡ (r, depth) ∷ rest
      → visit p policy context rows entries policy.relationships r depth (popped rest w) ≡ ok v
      → IsAccounted (λ x. ⊥) w.selection
      → IsAccounted (λ x. ⊥) v.selection
  round-IsAccounted r depth rest w v e h account =
      let before : IsAccounted (λ x. r ≡ x) (popped rest w).selection = λ x i. elim (account x i) [
        | inl queued ↦ elim (subst (λ ps. In x (map (λ q. q.0) ps)) e queued) [
          | inl same ↦ inr (inl same)
          | inr later ↦ inl later
        ]
        | inr (inl never) ↦ elim never [ ]
        | inr (inr settled) ↦ inr (
            inr (
              IsSettled-grows p policy context rows entries policy.relationships x w.selection
                (popped rest w).selection (λ q k. k) settled))
      ] in
      let after =
        visit-kept p policy context rows entries (IsAccounted (λ x. r ≡ x)) (λ x. Unit {0})
          (λ q d s t u. add-IsAccounted (λ x. r ≡ x) q d s t) policy.relationships r depth
          (popped rest w) v (λ q l. tt) h before in
      λ x i. elim (after x i) [
        | inl queued ↦ inl queued
        | inr (inl now) ↦ inr (
            inr (
              subst
                (λ x. IsSettled p policy context rows entries policy.relationships x v.selection)
                now
                (visit-IsSettled p policy context rows entries policy.relationships r depth
                  (popped rest w) v h)))
        | inr (inr settled) ↦ inr (inr settled)
      ]

  abbrev IsReached : List IndexedRow → Selection → Type 0
  IsReached roots s =
      ((x : IndexedRow) → In x s.selected → IsReachable p policy context rows entries roots x)
      × ((x : IndexedRow) → IsQueued x s → IsReachable p policy context rows entries roots x)

  add-IsReached :
      (roots : List IndexedRow) (r : IndexedRow) (depth : ℕ) (s t : Selection)
      → IsReachable p policy context rows entries roots r
      → add policy r depth s ≡ ok t
      → IsReached roots s
      → IsReached roots t
  add-IsReached roots r depth s t reached h (selected, queued) = (
    (λ x i. elim (add-brings policy x r depth s t h i) [
      | inl old ↦ selected x old
      | inr (same, new) ↦ subst (IsReachable p policy context rows entries roots) same reached
    ]),
    (λ x i. elim (add-queues policy x r depth s t h i) [
      | inl old ↦ queued x old
      | inr same ↦ subst (IsReachable p policy context rows entries roots) same reached
    ]),
  )

  round-IsReached :
      (roots : List IndexedRow) (r : IndexedRow) (depth : ℕ) (rest : List (IndexedRow × ℕ))
      (w v : Walk)
      → w.selection.pending ≡ (r, depth) ∷ rest
      → visit p policy context rows entries policy.relationships r depth (popped rest w) ≡ ok v
      → IsReached roots w.selection
      → IsReached roots v.selection
  round-IsReached roots r depth rest w v e h (selected, queued) =
      let onto : (x : IndexedRow)
          → In x (map (λ q. q.0) ((r, depth) ∷ rest))
          → IsQueued x w.selection =
        λ x i. subst (λ ps. In x (map (λ q. q.0) ps)) (sym e) i in
      let here = queued r (onto r (inl refl)) in
      visit-kept p policy context rows entries (IsReached roots)
        (IsReachable p policy context rows entries roots) (add-IsReached roots) policy.relationships
        r depth (popped rest w) v (λ q l. linked r q here l) h
        (selected, λ x i. queued x (onto x (inr i)))

  keeps' :
      (q r : IndexedRow) (depth : ℕ) (s t : Selection)
      → Unit {0}
      → add policy r depth s ≡ ok t
      → IsSelected q s
      → IsSelected q t
  keeps' q r depth s t u h i = add-keeps policy (identity q) r depth s t h i

  -- The rows of the selection: with the roots, closed under the relationships, and no more than that.
  pub record IsClosureOf (roots : List IndexedRow) (s : Selection) : Type 0 where
    pub rooted : (x : IndexedRow) → is_selected (identity x) roots ≡ true → IsSelected x s
    pub closed :
        (x : IndexedRow)
        → In x s.selected
        → IsSettled p policy context rows entries policy.relationships x s
    pub least :
        (x : IndexedRow) → In x s.selected → IsReachable p policy context rows entries roots x

  pub close_graph-IsClosureOf :
      (fuel : ℕ) (s : Selection) (v : Walk)
      → map (λ q. q.0) s.pending ≡ s.selected
      → close_graph p policy context rows entries fuel (start s) ≡ some (ok v)
      → IsClosureOf s.selected v.selection
  close_graph-IsClosureOf fuel s v step h =
      let (account, done) =
        close_graph-rule (λ w. IsAccounted (λ x. ⊥) w.selection) round-IsAccounted fuel (start s) v
          h (λ x i. inl (subst (λ l. In x l) (sym step) i)) in
      let ((reached, q), done') =
        close_graph-rule (λ w. IsReached s.selected w.selection) (round-IsReached s.selected) fuel
          (start s) v h ((λ x i. root x i), (λ x i. root x (subst (λ l. In x l) step i))) in
      record {
        rooted = λ x i.
            (close_graph-rule (λ w. IsSelected x w.selection)
              (λ r depth rest w v e k j.
                visit-kept p policy context rows entries (IsSelected x) (λ x. Unit {0}) (keeps' x)
                  policy.relationships r depth (popped rest w) v (λ q l. tt) k j)
              fuel (start s) v h i).0;
        closed = λ x i. elim (account x i) [
          | inl queued ↦ elim (subst (λ ps. In x (map (λ q. q.0) ps)) done queued) [ ]
          | inr (inl never) ↦ elim never [ ]
          | inr (inr settled) ↦ settled
        ];
        least = reached;
      }
