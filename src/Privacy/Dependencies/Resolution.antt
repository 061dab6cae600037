-- ===== src/Privacy/Dependencies/Resolution.antt =====
-- src/baseline/privacy/privacy_dependency_graph.mts: the fuel of a visit, and the columns under way.
use rehearsal_db.Common.{
  ℕ, zero, suc, ◌<◌, ◌≤◌, ◌≡◌, sym, ◌∙◌, inl, inr, false, List, [], ◌∷◌, Result, ok, err, ◌>>=◌,
  Result-cases, Text, text_eq_iff, In, All, length, arith, Bool-cases, if◌then◌else◌, subst,
}
use rehearsal_db.Privacy.Dependencies.{GraphError, cyclic, has, visit_each, visit_dependency}

-- The names that are not under way.
abbrev pub free : List Text → List Text → ℕ
free path [] = 0
free path (n ∷ ns) = if has n path then free path ns else suc (free path ns)

pub free-le : (path ns : List Text) → free path ns ≤ length ns
free-le path [] = omega arith
free-le path (n ∷ ns) = ground (arith, free-le path ns)

free-cons-le : (v : Text) (path ns : List Text) → free (v ∷ path) ns ≤ free path ns
free-cons-le v path [] = omega arith
free-cons-le v path (n ∷ ns) = ground (arith, free-cons-le v path ns)

free-cons-lt :
    (v : Text) (path ns : List Text)
    → has v path ≡ false
    → In v ns
    → free (v ∷ path) ns < free path ns
free-cons-lt v path [] h i = absurd i
free-cons-lt v path (n ∷ ns) h (inl e) =
    ground
      (arith, free-cons-le v path ns, text_eq_iff n v, subst (λ t. has t path ≡ false) (sym e) h)
free-cons-lt v path (n ∷ ns) h (inr i) = ground (arith, free-cons-lt v path ns h i)

module _ (inputs : Text → List Text) (names : List Text)
    (closed : (n : Text) → In n names → All (λ i. In i names) (inputs n)) where
  pub visit_each-err :
      (visit : Text → List Text → Result GraphError (List Text))
      → ((i : Text) (r : List Text) (e : GraphError) → In i names → visit i r ≡ err e → e ≡ cyclic)
      → (is r : List Text) (e : GraphError) → All (λ i. In i names) is
      → visit_each visit is r ≡ err e
      → e ≡ cyclic
  unfolding visit_each
  visit_each-err visit v [] r e a h = cc
  visit_each-err visit v (i ∷ is) r e (p, a) h = elim (Result-cases (visit i r)) [
    | inl (m, em) ↦ visit_each-err visit v is m e a (rw em at h)
    | inr (f, ef) ↦ let same : f ≡ e = cc (rw ef at h) in sym same ∙ v i r f p ef
  ]

  -- With more fuel than columns that are not under way, a visit fails only by a cycle.
  pub visit_dependency-err :
      (fuel : ℕ) (n : Text) (path r : List Text) (e : GraphError)
      → In n names
      → free path names < fuel
      → visit_dependency inputs fuel n path r ≡ err e
      → e ≡ cyclic
  unfolding visit_dependency
  visit_dependency-err zero n path r e i f h = absurd (omega arith)
  visit_dependency-err (suc fuel) n path r e i f h = elim (Bool-cases (has n r)) [
    | inl known ↦ ground arith
    | inr fresh ↦ elim (Bool-cases (has n path)) [
      | inl loop ↦ ground arith
      | inr apart ↦
          let below =
            visit_each (λ j r'. visit_dependency inputs fuel j (n ∷ path) r') (inputs n) r in
          let chain : (below >>= (λ m. ok (n ∷ m))) ≡ err e = ground arith in
          elim (Result-cases below) [
            | inl (m, em) ↦ cc (rw em at chain)
            | inr (g, eg) ↦
                let same : g ≡ e = cc (rw eg at chain) in
                sym same
                ∙ visit_each-err (λ j r'. visit_dependency inputs fuel j (n ∷ path) r')
                    (λ j r' e' in_names h'.
                      visit_dependency-err fuel j (n ∷ path) r' e' in_names
                        (omega (arith, free-cons-lt n path names apart i)) h')
                    (inputs n) r g (closed n i) eg
          ]
    ]
  ]
