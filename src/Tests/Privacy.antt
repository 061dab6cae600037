-- ===== src/Tests/Privacy.antt =====
-- A table whose column `c` is a digest of `a` and `b`, with a date shift beside it.
use rehearsal_db.Common.{
  ◌≡◌, refl, ◌⊎◌, false, List, [], ◌∷◌, some, ok, err, Text, text_eq, codes, All, In,
}
use rehearsal_db.Privacy.Dependencies.{
  PrivacyColumn, PrivacyTable, cyclic, check_columns, resolve_columns, column_names, dependencies,
  validate_table_dependencies, validate_privacy_dependency_graph, inputs_of, table_shifts,
}
use rehearsal_db.Privacy.Recipes.{keep, Recipe, no_recipe, digest, date_shift, pos}
use rehearsal_db.Privacy.Dependencies.Acyclic.{IsOrder}
use rehearsal_db.Privacy.Dependencies.Verdict.{
  resolve_columns_decides, validate_table_dependencies_sound, IsValidTable,
}
use rehearsal_db.Privacy.Dependencies.Shifts.{AllAgree, validate_privacy_dependency_graph_sound}

abbrev named : Text → Recipe → PrivacyColumn
named n r = record { name = n; action = keep; recipe = r }

abbrev columns : List PrivacyColumn
columns =
    named (codes "c") (digest (codes "a" ∷ codes "b" ∷ codes "a" ∷ []))
    ∷ named (codes "a") no_recipe
    ∷ named (codes "b") (date_shift (pos 3) (some (codes "g")))
    ∷ []

abbrev table : PrivacyTable
table = record { has_owner_binding = false; columns = columns }

-- The last column to be completed stands first.
abbrev order : List Text
order = codes "c" ∷ codes "b" ∷ codes "a" ∷ []

columns_test : check_columns columns columns ≡ ok tt
unfolding check_columns text_eq
columns_test = refl

resolve_test : resolve_columns columns ≡ ok order
unfolding resolve_columns inputs_of text_eq
resolve_test = refl

cyclic_test :
    resolve_columns (
      named (codes "a") (digest (codes "b" ∷ []))
      ∷ named (codes "b") (digest (codes "a" ∷ []))
      ∷ [])
    ≡ err cyclic
unfolding resolve_columns inputs_of text_eq
cyclic_test = refl

table_test : validate_table_dependencies [] [] table ≡ ok order
unfolding validate_table_dependencies inputs_of text_eq
table_test = refl

graph_test : validate_privacy_dependency_graph [] [] (table ∷ []) ≡ ok tt
unfolding validate_privacy_dependency_graph validate_table_dependencies inputs_of text_eq
graph_test = refl

resolve_columns_decides_example :
    ((r : List Text) × (resolve_columns columns ≡ ok r)
      × IsOrder (dependencies columns) r
      × All (λ n. In n r) (column_names columns))
    ⊎ ((resolve_columns columns ≡ err cyclic)
        × ((o : List Text)
            → IsOrder (dependencies columns) o
            → ¬ All (λ n. In n o) (column_names columns)))
resolve_columns_decides_example = resolve_columns_decides columns columns_test

validate_table_dependencies_sound_example : IsValidTable [] [] table order
validate_table_dependencies_sound_example =
    validate_table_dependencies_sound [] [] table order table_test

validate_privacy_dependency_graph_sound_example :
    All (λ t. (r : List Text) × IsValidTable [] [] t r) (table ∷ [])
    × AllAgree (table_shifts (table ∷ []))
validate_privacy_dependency_graph_sound_example =
    validate_privacy_dependency_graph_sound [] [] (table ∷ []) graph_test
