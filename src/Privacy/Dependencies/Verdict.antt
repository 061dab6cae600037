-- ===== src/Privacy/Dependencies/Verdict.antt =====
-- What the validation of one table decides: validateTableDependencies.
use rehearsal_db.Common.{
  suc, ◌≡◌, refl, ap, ◌∙◌, ◌⊎◌, inl, inr, false, not, ◌&&◌, Option, none, some, List, [], ◌∷◌,
  Result, ok, err, guard, guard-eq-ok, >>-eq-ok, Result-cases, Text, text_eq, text_eq_iff,
  any-text_eq_iff, In, All, length, any, arith, Bool-cases, subst,
}
use rehearsal_db.Privacy.Dependencies.{
  PrivacyColumn, PrivacyTable, GraphError, cyclic, has, inputs_of, find_column, check_inputs,
  check_columns, dependencies, visit_each, visit_dependency, column_names, resolve_columns,
  check_references, validate_table_dependencies, owner_without_binding, input_error, recipe_error,
  is_excluded, check_recipes,
}
use rehearsal_db.Privacy.Recipes.{
  uses_approved_owner, Recipe, path_map, binding_substitute, visited, no_recipe, pseudonym,
  constant, date_shift, enumeration, validated_string, digest, approved_owner, json_array,
  json_object, json_union, json_dictionary,
}
use rehearsal_db.Privacy.Dependencies.Acyclic.{IsOrder, Extends, visit_dependency_sound}
use rehearsal_db.Privacy.Dependencies.Acyclic
use rehearsal_db.Privacy.Dependencies.Resolution.{free-le, visit_dependency-err, visit_each-err}
use rehearsal_db.Privacy.Dependencies.Complete.{visit_dependency-ne-cyclic, visit_each-ne-cyclic}

-- `i` names a column of the table, and that column is not excluded.
abbrev pub IsInput : List PrivacyColumn → Text → Type 0
IsInput columns i =
    (c : PrivacyColumn) × (find_column i columns ≡ some c) × (is_excluded c.action ≡ false)

check_inputs_sound :
    (columns : List PrivacyColumn) (is : List Text)
    → check_inputs columns is ≡ ok tt
    → All (IsInput columns) is
unfolding check_inputs
check_inputs_sound columns [] h = tt
check_inputs_sound columns (i ∷ is) h =
    let (one, more) =
      >>-eq-ok (input_error i (find_column i columns)) (check_inputs columns is) h in
    (by_column (find_column i columns) refl one, check_inputs_sound columns is more)
  where
    by_column :
        (o : Option PrivacyColumn)
        → find_column i columns ≡ o
        → input_error i o ≡ ok tt
        → IsInput columns i
    by_column none e k = cc
    by_column (some c) e k = (c, e, ground arith)

check_columns_sound :
    (columns cs : List PrivacyColumn)
    → check_columns columns cs ≡ ok tt
    → All (λ c. All (IsInput columns) (inputs_of c)) cs
unfolding check_columns
check_columns_sound columns [] h = tt
check_columns_sound columns (c ∷ cs) h =
    let (one, more) = >>-eq-ok (check_inputs columns (inputs_of c)) (check_columns columns cs) h in
    (check_inputs_sound columns (inputs_of c) one, check_columns_sound columns cs more)

find_column-In :
    (i : Text) (columns : List PrivacyColumn) (c : PrivacyColumn)
    → find_column i columns ≡ some c
    → In i (column_names columns)
unfolding find_column
find_column-In i [] c h = cc
find_column-In i (d ∷ ds) c h = ground (arith, find_column-In i ds c, text_eq_iff d.name i)

IsInput-In :
    (columns : List PrivacyColumn) (is : List Text)
    → All (IsInput columns) is
    → All (λ i. In i (column_names columns)) is
IsInput-In columns [] h = tt
IsInput-In columns (i ∷ is) ((c, e, x), h) = (find_column-In i columns c e, IsInput-In columns is h)

dependencies-closed :
    (columns cs : List PrivacyColumn) (n : Text)
    → All (λ c. All (IsInput columns) (inputs_of c)) cs
    → All (λ i. In i (column_names columns)) (dependencies cs n)
unfolding dependencies
dependencies-closed columns [] n h = tt
dependencies-closed columns (c ∷ cs) n (p, h) =
    elim (Bool-cases (any (λ (d : PrivacyColumn). text_eq d.name n) cs)) [
      | inl again ↦ rw again (dependencies-closed columns cs n h)
      | inr last ↦ elim (Bool-cases (text_eq c.name n)) [
        | inl here ↦ rw (last, here) (IsInput-In columns (inputs_of c) p)
        | inr other ↦ rw (last, other) tt
      ]
    ]

All-self :
    (names : List Text) (sub : List Text)
    → ((x : Text) → In x sub → In x names)
    → All (λ i. In i names) sub
All-self names [] k = tt
All-self names (n ∷ sub) k = (k n (inl refl), All-self names sub (λ x i. k x (inr i)))

length-column_names :
    (columns : List PrivacyColumn) → length (column_names columns) ≡ length columns
length-column_names [] = refl
length-column_names (c ∷ cs) = ap suc (length-column_names cs)

-- Once every digest input is known to be a column of the table, the resolution decides whether the
-- columns can be ordered: it returns an order in which each column stands in front of its inputs
-- and that holds every column, or it refuses the table as cyclic and no such order exists.
pub resolve_columns_decides :
    (columns : List PrivacyColumn)
    → check_columns columns columns ≡ ok tt
    → ((r : List Text) × (resolve_columns columns ≡ ok r)
        × IsOrder (dependencies columns) r
        × All (λ n. In n r) (column_names columns))
      ⊎ ((resolve_columns columns ≡ err cyclic)
          × ((order : List Text)
              → IsOrder (dependencies columns) order
              → ¬ All (λ n. In n order) (column_names columns)))
unfolding resolve_columns
resolve_columns_decides columns h = elim (Result-cases (visit_each visit names [])) [
  | inl (r, e) ↦
      let (order, all_in, _) =
        Acyclic.visit_each_sound inputs visit
          (λ i r s q o. visit_dependency_sound inputs (suc (length columns)) i [] r s q o) names []
          r e tt in
      inl (r, e, order, all_in)
  | inr (f, e) ↦
      let only_cyclic : f ≡ cyclic =
        visit_each-err inputs names closed visit
          (λ i r g in_names q.
            visit_dependency-err inputs names closed (suc (length columns)) i [] r g in_names
              (omega (arith, free-le [] names, length-column_names columns)) q)
          names [] f (All-self names names (λ x i. i)) e in
      inr (
        e ∙ ap err only_cyclic,
        (λ order o a.
            visit_each-ne-cyclic inputs visit order
              (λ i r in_order.
                visit_dependency-ne-cyclic inputs order (suc (length columns)) i [] r o
                  (apart order) in_order)
              names [] a (e ∙ ap err only_cyclic)),
      )
]
  where
    inputs : Text → List Text
    inputs = dependencies columns

    names : List Text
    names = column_names columns

    visit : Text → List Text → Result GraphError (List Text)
    visit = λ name r. visit_dependency inputs (suc (length columns)) name [] r

    closed : (n : Text) → In n names → All (λ i. In i names) (inputs n)
    closed n i = dependencies-closed columns columns n (check_columns_sound columns columns h)

    apart : (order : List Text) → All (λ n. has n [] ≡ false) order
    apart [] = tt
    apart (n ∷ order) = (refl, apart order)

-- Every reference of a recipe is declared.
abbrev pub IsReferenced : List Text → List Text → Recipe → Type 0
IsReferenced bindings mappings (path_map m) = In m mappings
IsReferenced bindings mappings (binding_substitute b) = In b bindings
IsReferenced bindings mappings _ = Unit

recipe_error_sound :
    (bindings mappings : List Text) (r : Recipe)
    → recipe_error bindings mappings r ≡ ok tt
    → IsReferenced bindings mappings r
recipe_error_sound bindings mappings (path_map m) h =
    (any-text_eq_iff m mappings).0 (guard-eq-ok _ _ h)
recipe_error_sound bindings mappings (binding_substitute b) h =
    (any-text_eq_iff b bindings).0 (guard-eq-ok _ _ h)
recipe_error_sound bindings mappings no_recipe h = tt
recipe_error_sound bindings mappings pseudonym h = tt
recipe_error_sound bindings mappings constant h = tt
recipe_error_sound bindings mappings (date_shift d g) h = tt
recipe_error_sound bindings mappings enumeration h = tt
recipe_error_sound bindings mappings validated_string h = tt
recipe_error_sound bindings mappings (digest is) h = tt
recipe_error_sound bindings mappings (approved_owner a o) h = tt
recipe_error_sound bindings mappings (json_array d) h = tt
recipe_error_sound bindings mappings (json_object ds) h = tt
recipe_error_sound bindings mappings (json_union ds) h = tt
recipe_error_sound bindings mappings (json_dictionary d) h = tt

check_recipes_sound :
    (bindings mappings : List Text) (rs : List Recipe)
    → check_recipes bindings mappings rs ≡ ok tt
    → All (IsReferenced bindings mappings) rs
unfolding check_recipes
check_recipes_sound bindings mappings [] h = tt
check_recipes_sound bindings mappings (r ∷ rs) h =
    let (one, more) =
      >>-eq-ok (recipe_error bindings mappings r) (check_recipes bindings mappings rs) h in
    (recipe_error_sound bindings mappings r one, check_recipes_sound bindings mappings rs more)

check_references_sound :
    (bindings mappings : List Text) (cs : List PrivacyColumn)
    → check_references bindings mappings cs ≡ ok tt
    → All (λ c. All (IsReferenced bindings mappings) (visited c.recipe)) cs
unfolding check_references
check_references_sound bindings mappings [] h = tt
check_references_sound bindings mappings (c ∷ cs) h =
    let (one, more) =
      >>-eq-ok (check_recipes bindings mappings (visited c.recipe))
        (check_references bindings mappings cs) h in
    (
      check_recipes_sound bindings mappings (visited c.recipe) one,
      check_references_sound bindings mappings cs more,
    )

pub record IsValidTable (bindings mappings : List Text) (t : PrivacyTable) (r : List Text)
    : Type 0 where
  pub owner :
      t.has_owner_binding ≡ false → All (λ c. uses_approved_owner c.recipe ≡ false) t.columns
  pub references : All (λ c. All (IsReferenced bindings mappings) (visited c.recipe)) t.columns
  pub inputs : All (λ c. All (IsInput t.columns) (inputs_of c)) t.columns
  pub order : IsOrder (dependencies t.columns) r
  pub covered : All (λ n. In n r) (column_names t.columns)

owner_sound :
    (cs : List PrivacyColumn)
    → any (λ (c : PrivacyColumn). uses_approved_owner c.recipe) cs ≡ false
    → All (λ c. uses_approved_owner c.recipe ≡ false) cs
owner_sound [] h = tt
owner_sound (c ∷ cs) h = (ground arith, owner_sound cs (ground arith))

-- An accepted table uses approved owners only with an owner binding, every mapping and binding
-- that a recipe names is declared, all digest inputs are columns of it that are not excluded, and its columns have an order in which each stands in front of the
-- columns that its digest reads.
pub validate_table_dependencies_sound :
    (bindings mappings : List Text) (t : PrivacyTable) (r : List Text)
    → validate_table_dependencies bindings mappings t ≡ ok r
    → IsValidTable bindings mappings t r
unfolding validate_table_dependencies
validate_table_dependencies_sound bindings mappings t r h =
    let (eo, h1) =
      >>-eq-ok
        (guard
          (not (
            any (λ (c : PrivacyColumn). uses_approved_owner c.recipe) t.columns
            && not t.has_owner_binding))
          owner_without_binding)
        _ h in
    let (ef, h2) = >>-eq-ok (check_references bindings mappings t.columns) _ h1 in
    let (ec, er) = >>-eq-ok (check_columns t.columns t.columns) (resolve_columns t.columns) h2 in
    let fine = guard-eq-ok _ _ eo in
    elim (resolve_columns_decides t.columns ec) [
      | inl (s, es, order, covered) ↦
          let same : s ≡ r = cc in
          record {
            owner = λ missing. owner_sound t.columns (ground arith);
            references = check_references_sound bindings mappings t.columns ef;
            inputs = check_columns_sound t.columns t.columns ec;
            order = subst (IsOrder (dependencies t.columns)) same order;
            covered = subst (λ l. All (λ n. In n l) (column_names t.columns)) same covered;
          }
      | inr (es, _) ↦ cc
    ]
