-- ===== src/Privacy/Dependencies/Shifts.antt =====
-- src/baseline/privacy/privacy_dependency_graph.mts, validatePrivacyDependencyGraph: groups of date shifts.
use rehearsal_db.Common.{
  ◌≡◌, sym, ◌∙◌, ◌↔◌, inl, inr, true, List, [], ◌∷◌, ok, guard, guard-eq-ok, >>=-eq-ok, >>-eq-ok,
  Text, text_eq, text_eq_iff, All, arith, Bool-cases,
}
use rehearsal_db.Privacy.Dependencies.{
  PrivacyTable, validate_table_dependencies, same_days, agrees, group_days, check_shifts,
  table_shifts, validate_tables, shift_group, validate_privacy_dependency_graph,
}
use rehearsal_db.Privacy.Recipes.{Days}
use rehearsal_db.Privacy.Dependencies.Verdict.{IsValidTable, validate_table_dependencies_sound}

same_days_iff : (d e : Days) → (same_days d e ≡ true) ↔ (d ≡ e)
same_days_iff d e = ground arith

-- Shifts of one group have one number of days.
abbrev pub Agree : Text × Days → Text × Days → Type 0
Agree (g, d) (k, e) = g ≡ k → d ≡ e

abbrev pub AllAgree : List (Text × Days) → Type 0
AllAgree [] = Unit
AllAgree (x ∷ xs) = All (Agree x) xs × AllAgree xs

group_days-Agree :
    (g : Text) (d : Days) (known : List (Text × Days))
    → AllAgree known
    → agrees d (group_days g known) ≡ true
    → All (λ x. Agree x (g, d)) known
unfolding group_days
group_days-Agree g d [] a h = tt
group_days-Agree g d ((k, e) ∷ known) (p, a) h = elim (Bool-cases (text_eq k g)) [
  | inl same ↦
      let ek = (text_eq_iff k g).0 same in
      let ed : e ≡ d = (same_days_iff e d).0 (ground arith) in ((λ _. ed), others known p ek ed)
  | inr other ↦
      ((λ q. ground (arith, text_eq_iff k g)), group_days-Agree g d known a (ground arith))
]
  where
    others :
        (xs : List (Text × Days))
        → All (Agree (k, e)) xs
        → k ≡ g
        → e ≡ d
        → All (λ x. Agree x (g, d)) xs
    others [] h ek ed = tt
    others ((j, f) ∷ xs) (r, h) ek ed = ((λ q. sym (r (ek ∙ sym q)) ∙ ed), others xs h ek ed)

-- From the known groups on: the known ones, last first, and then the rest.
abbrev AllAcross : List (Text × Days) → List (Text × Days) → Type 0
AllAcross known [] = Unit
AllAcross known (y ∷ ys) = All (λ x. Agree x y) known × AllAcross known ys

check_shifts_sound :
    (known rest : List (Text × Days))
    → AllAgree known
    → check_shifts known rest ≡ ok tt
    → AllAcross known rest × AllAgree rest
unfolding check_shifts
check_shifts_sound known [] a h = (tt, tt)
check_shifts_sound known ((g, d) ∷ rest) a h =
    let (one, more) =
      >>-eq-ok (guard (agrees d (group_days g known)) (shift_group g))
        (check_shifts ((g, d) ∷ known) rest) h in
    let here = group_days-Agree g d known a (guard-eq-ok _ _ one) in
    let (across, later) = check_shifts_sound ((g, d) ∷ known) rest (flip known here, a) more in
    ((here, drop_head rest across), (heads rest across, later))
  where
    flip : (xs : List (Text × Days)) → All (λ x. Agree x (g, d)) xs → All (Agree (g, d)) xs
    flip [] h' = tt
    flip (x ∷ xs) (p, h') = ((λ q. sym (p (sym q))), flip xs h')

    drop_head : (ys : List (Text × Days)) → AllAcross ((g, d) ∷ known) ys → AllAcross known ys
    drop_head [] h' = tt
    drop_head (y ∷ ys) ((p, q), h') = (q, drop_head ys h')

    heads : (ys : List (Text × Days)) → AllAcross ((g, d) ∷ known) ys → All (Agree (g, d)) ys
    heads [] h' = tt
    heads (y ∷ ys) ((p, q), h') = (p, heads ys h')

validate_tables_sound :
    (bindings mappings : List Text) (ts : List PrivacyTable)
    → validate_tables bindings mappings ts ≡ ok tt
    → All (λ t. (r : List Text) × IsValidTable bindings mappings t r) ts
unfolding validate_tables
validate_tables_sound bindings mappings [] h = tt
validate_tables_sound bindings mappings (t ∷ ts) h =
    let (r, er, more) = >>=-eq-ok (validate_table_dependencies bindings mappings t) _ h in
    (
      (r, validate_table_dependencies_sound bindings mappings t r er),
      validate_tables_sound bindings mappings ts more,
    )

-- An accepted policy has only valid tables, and all date shifts of one group, in whatever table
-- and however deep in a recipe, have one number of days.
pub validate_privacy_dependency_graph_sound :
    (bindings mappings : List Text) (ts : List PrivacyTable)
    → validate_privacy_dependency_graph bindings mappings ts ≡ ok tt
    → All (λ t. (r : List Text) × IsValidTable bindings mappings t r) ts
      × AllAgree (table_shifts ts)
unfolding validate_privacy_dependency_graph
validate_privacy_dependency_graph_sound bindings mappings ts h =
    let (tables, groups) =
      >>-eq-ok (validate_tables bindings mappings ts) (check_shifts [] (table_shifts ts)) h in
    (
      validate_tables_sound bindings mappings ts tables,
      (check_shifts_sound [] (table_shifts ts) tt groups).1,
    )
