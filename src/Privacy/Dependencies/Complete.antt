-- ===== src/Privacy/Dependencies/Complete.antt =====
-- src/baseline/privacy/privacy_dependency_graph.mts: a visit of columns that have an order.
use rehearsal_db.Common.{
  ℕ, zero, suc, ◌≡◌, ◌∙◌, ◌≢◌, inl, inr, false, List, [], ◌∷◌, Result, ok, err, ◌>>=◌, Result-cases,
  Text, text_eq_iff, In, In-cases, All, arith, Bool-cases, subst,
}
use rehearsal_db.Privacy.Dependencies.{GraphError, cyclic, has, visit_each, visit_dependency}
use rehearsal_db.Privacy.Dependencies.Acyclic.{IsOrder}

module _ (inputs : Text → List Text) where
  abbrev pub Apart : List Text → List Text → Type 0
  Apart order path = All (λ n. has n path ≡ false) order

  Apart-cons :
      (n : Text) (order path : List Text)
      → (¬ In n order)
      → Apart order path
      → Apart order (n ∷ path)
  Apart-cons n [] path m a = tt
  Apart-cons n (k ∷ order) path m (p, a) =
      (ground (arith, text_eq_iff k n, m), Apart-cons n order path (λ i. m (inr i)) a)

  pub visit_each-ne-cyclic :
      (visit : Text → List Text → Result GraphError (List Text)) (order : List Text)
      → ((i : Text) (r : List Text) → In i order → visit i r ≢ err cyclic)
      → (is r : List Text) → All (λ i. In i order) is
      → visit_each visit is r ≢ err cyclic
  unfolding visit_each
  visit_each-ne-cyclic visit order v [] r a h = cc
  visit_each-ne-cyclic visit order v (i ∷ is) r (p, a) h = elim (Result-cases (visit i r)) [
    | inl (m, em) ↦ visit_each-ne-cyclic visit order v is m a (rw em at h)
    | inr (f, ef) ↦ v i r p (ef ∙ (rw ef at h))
  ]

  -- Induction on the order: the inputs of a column stand behind it.
  pub visit_dependency-ne-cyclic :
      (order : List Text) (fuel : ℕ) (n : Text) (path r : List Text)
      → IsOrder inputs order
      → Apart order path
      → In n order
      → visit_dependency inputs fuel n path r ≢ err cyclic
  unfolding visit_dependency
  visit_dependency-ne-cyclic [] fuel n path r o a i h = absurd i
  visit_dependency-ne-cyclic (k ∷ order) zero n path r o a i h = cc
  visit_dependency-ne-cyclic (k ∷ order) (suc fuel) n path r (needs, o) (p, a) i h =
      elim (In-cases n order) [
        | inl later ↦ visit_dependency-ne-cyclic order (suc fuel) n path r o a later h
        | inr only ↦
            let same : k ≡ n = ground (arith, only) in
            let apart : has n path ≡ false = subst (λ t. has t path ≡ false) same p in
            let needs' = subst (λ t. All (λ i. In i order) (inputs t)) same needs in
            elim (Bool-cases (has n r)) [
              | inl known ↦ ground arith
              | inr fresh ↦
                  let below =
                    visit_each (λ j r'. visit_dependency inputs fuel j (n ∷ path) r') (inputs n)
                      r in
                  let chain : (below >>= (λ m. ok (n ∷ m))) ≡ err cyclic = ground arith in
                  elim (Result-cases below) [
                    | inl (m, em) ↦ cc (rw em at chain)
                    | inr (g, eg) ↦
                        visit_each-ne-cyclic (λ j r'. visit_dependency inputs fuel j (n ∷ path) r')
                          order
                          (λ j r' in_order h'.
                            visit_dependency-ne-cyclic order fuel j (n ∷ path) r' o
                              (Apart-cons n order path only a) in_order h')
                          (inputs n) r needs' (eg ∙ (rw eg at chain))
                  ]
            ]
      ]
