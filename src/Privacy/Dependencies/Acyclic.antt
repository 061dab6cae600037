-- ===== src/Privacy/Dependencies/Acyclic.antt =====
-- src/baseline/privacy/privacy_dependency_graph.mts: a visit that succeeds.
use rehearsal_db.Common.{
  ℕ, zero, suc, ◌≡◌, refl, inl, inr, List, [], ◌∷◌, Result, ok, ◌>>=◌, >>=-eq-ok, Text,
  any-text_eq_iff, In, All, arith, Bool-cases, subst,
}
use rehearsal_db.Privacy.Dependencies.{GraphError, has, visit_each, visit_dependency}

module _ (inputs : Text → List Text) where
  -- Each column stands in front of all its inputs.
  abbrev pub IsOrder : List Text → Type 0
  IsOrder [] = Unit
  IsOrder (n ∷ r) = All (λ i. In i r) (inputs n) × IsOrder r

  -- What a successful visit of `n` makes of the resolved columns.
  pub record Extends (n : Text) (r s : List Text) : Type 0 where
    pub order : IsOrder s
    pub visited : In n s
    pub kept : (x : Text) → In x r → In x s

  All-kept :
      (r s is : List Text)
      → ((x : Text) → In x r → In x s)
      → All (λ i. In i r) is
      → All (λ i. In i s) is
  All-kept r s [] k h = tt
  All-kept r s (i ∷ is) k (p, h) = (k i p, All-kept r s is k h)

  pub visit_each_sound :
      (visit : Text → List Text → Result GraphError (List Text))
      → ((i : Text) (r s : List Text) → visit i r ≡ ok s → IsOrder r → Extends i r s)
      → (is r s : List Text) → visit_each visit is r ≡ ok s
      → IsOrder r
      → IsOrder s × All (λ i. In i s) is × ((x : Text) → In x r → In x s)
  unfolding visit_each
  visit_each_sound visit v [] r s h o =
      let same : r ≡ s = cc in (subst IsOrder same o, tt, (λ x i. subst (In x) same i))
  visit_each_sound visit v (i ∷ is) r s h o =
      let (m, em, eh) = >>=-eq-ok (visit i r) _ h in
      let e = v i r m em o in
      let (order, all_in, kept) = visit_each_sound visit v is m s eh e.order in
      (order, (kept i e.visited, all_in), (λ x x_in. kept x (e.kept x x_in)))

  pub visit_dependency_sound :
      (fuel : ℕ) (n : Text) (path r s : List Text)
      → visit_dependency inputs fuel n path r ≡ ok s
      → IsOrder r
      → Extends n r s
  unfolding visit_dependency
  visit_dependency_sound zero n path r s h o = cc
  visit_dependency_sound (suc fuel) n path r s h o = elim (Bool-cases (has n r)) [
    | inl known ↦
        let same : r ≡ s = ground arith in
        subst (Extends n r) same
          (record { order = o; visited = (any-text_eq_iff n r).0 known; kept = λ x i. i })
    | inr fresh ↦ elim (Bool-cases (has n path)) [
      | inl loop ↦ ground arith
      | inr apart ↦
          let below =
            visit_each (λ i r'. visit_dependency inputs fuel i (n ∷ path) r') (inputs n) r in
          let chain : (below >>= (λ m. ok (n ∷ m))) ≡ ok s = ground arith in
          let (m, em, eh) = >>=-eq-ok below _ chain in
          let (order, all_in, kept) =
            visit_each_sound (λ i r'. visit_dependency inputs fuel i (n ∷ path) r')
              (λ i r' s' e o'. visit_dependency_sound fuel i (n ∷ path) r' s' e o') (inputs n) r m
              em o in
          let same : n ∷ m ≡ s = cc in
          subst (Extends n r) same
            (record { order = (all_in, order); visited = inl refl; kept = λ x i. inr (kept x i) })
    ]
  ]
