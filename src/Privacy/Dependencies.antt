-- ===== src/Privacy/Dependencies.antt =====
-- src/baseline/privacy/privacy_dependency_graph.mts, over the declarations of privacy_contract.mts:
-- bindings, the digest dependencies of a table's columns, and the groups of date shifts.
pub mod Resolution
pub mod Acyclic
pub mod Complete
pub mod Verdict
pub mod Shifts
use rehearsal_db.Common.{
  ℕ, zero, suc, ◌+◌, ◌≡◌, Bool, true, false, not, ◌&&◌, ◌||◌, Option, none, some, List, [], ◌∷◌,
  ◌++◌, map, Result, ok, err, ◌>>=◌, ◌>>◌, guard, Text, text_eq, length, any, ◌==◌, if◌then◌else◌,
}
use rehearsal_db.Privacy.Recipes.{
  Days, PrivacyAction, Recipe, binding_substitute, digest_inputs, exclude, negsuc, path_map, pos,
  shifts, uses_approved_owner, visited,
}

pub record PrivacyColumn : Type 0 where
  pub name : Text
  pub action : PrivacyAction
  pub recipe : Recipe

pub record PrivacyTable : Type 0 where
  pub has_owner_binding : Bool
  pub columns : List PrivacyColumn

pub data GraphError : Type 0 where
  owner_without_binding : GraphError
  unknown_mapping : Text → GraphError
  unknown_binding : Text → GraphError
  unknown_input : Text → GraphError
  excluded_input : Text → GraphError
  cyclic : GraphError
  shift_group : Text → GraphError
  out_of_fuel : GraphError

abbrev pub has : Text → List Text → Bool
has v vs = any (text_eq v) vs

-- `[...new Set(inputs)]`: the first of equal texts stays.
unfoldable pub unique_from : List Text → List Text → List Text
unique_from seen [] = []
unique_from seen (v ∷ vs) =
    let rest = unique_from seen vs in
    let kept = unique_from (v ∷ seen) vs in if has v seen then rest else v ∷ kept

unfoldable pub inputs_of : PrivacyColumn → List Text
unfolding unique_from digest_inputs
inputs_of c = unique_from [] (digest_inputs c.recipe)

-- `table.columns.find((entry) => entry.name === name)`
unfoldable pub find_column : Text → List PrivacyColumn → Option PrivacyColumn
find_column name [] = none
find_column name (c ∷ cs) = if text_eq c.name name then some c else find_column name cs

abbrev pub is_excluded : PrivacyAction → Bool
is_excluded exclude = true
is_excluded _ = false

abbrev pub input_error : Text → Option PrivacyColumn → Result GraphError (Unit {0})
input_error input none = err (unknown_input input)
input_error input (some c) = guard (not (is_excluded c.action)) (excluded_input input)

unfoldable pub check_inputs : List PrivacyColumn → List Text → Result GraphError (Unit {0})
unfolding find_column
check_inputs columns [] = ok tt
check_inputs columns (i ∷ is) = do input_error i (find_column i columns); check_inputs columns is

unfoldable pub check_columns :
    List PrivacyColumn → List PrivacyColumn → Result GraphError (Unit {0})
unfolding check_inputs inputs_of
check_columns columns [] = ok tt
check_columns columns (c ∷ cs) = do check_inputs columns (inputs_of c); check_columns columns cs

-- `dependencies.get(name) ?? []`: of two columns with one name, the later one counts.
unfoldable pub dependencies : List PrivacyColumn → Text → List Text
unfolding inputs_of
dependencies [] name = []
dependencies (c ∷ cs) name =
    let later = dependencies cs name in
    if any (λ d. text_eq d.name name) cs
    then later
    else if text_eq c.name name
    then inputs_of c
    else []

-- The `for` over the inputs of a column, by the visit of one.
unfoldable pub visit_each :
    (Text → List Text → Result GraphError (List Text))
    → List Text
    → List Text
    → Result GraphError (List Text)
visit_each visit [] resolved = ok resolved
visit_each visit (i ∷ is) resolved = do r ← visit i resolved; visit_each visit is r

-- `visitDependency`, on fuel. `resolving` are the columns whose visit is under way; `resolved` has
-- the last column to be completed at its head.
unfoldable pub visit_dependency :
    (Text → List Text) → ℕ → Text → List Text → List Text → Result GraphError (List Text)
unfolding visit_each
visit_dependency inputs zero name resolving resolved = err out_of_fuel
visit_dependency inputs (suc fuel) name resolving resolved =
    let below =
      visit_each (λ i r. visit_dependency inputs fuel i (name ∷ resolving) r) (inputs name)
        resolved in
    if has name resolved
    then ok resolved
    else if has name resolving
    then err cyclic
    else (below >>= (λ r. ok (name ∷ r)))

abbrev pub column_names : List PrivacyColumn → List Text
column_names columns = map (λ c. c.name) columns

-- `table.columns.forEach((column) => visitDependency(column.name))`. The columns under way are
-- distinct columns, so one round more than there are columns is fuel enough.
unfoldable pub resolve_columns : List PrivacyColumn → Result GraphError (List Text)
unfolding visit_dependency dependencies
resolve_columns columns =
    visit_each (λ name r. visit_dependency (dependencies columns) (suc (length columns)) name [] r)
      (column_names columns) []

abbrev pub recipe_error : List Text → List Text → Recipe → Result GraphError (Unit {0})
recipe_error bindings mappings (path_map m) = guard (has m mappings) (unknown_mapping m)
recipe_error bindings mappings (binding_substitute b) = guard (has b bindings) (unknown_binding b)
recipe_error bindings mappings _ = ok tt

unfoldable pub check_recipes : List Text → List Text → List Recipe → Result GraphError (Unit {0})
check_recipes bindings mappings [] = ok tt
check_recipes bindings mappings (r ∷ rs) = do
  recipe_error bindings mappings r
  check_recipes bindings mappings rs

unfoldable pub check_references :
    List Text → List Text → List PrivacyColumn → Result GraphError (Unit {0})
unfolding check_recipes visited
check_references bindings mappings [] = ok tt
check_references bindings mappings (c ∷ cs) = do
  check_recipes bindings mappings (visited c.recipe)
  check_references bindings mappings cs

-- `bindings` and `mappings` are the names that the policy declares.
unfoldable pub validate_table_dependencies :
    List Text → List Text → PrivacyTable → Result GraphError (List Text)
unfolding uses_approved_owner check_references check_columns resolve_columns
validate_table_dependencies bindings mappings t = do
  guard (not (any (λ c. uses_approved_owner c.recipe) t.columns && not t.has_owner_binding))
      owner_without_binding
  check_references bindings mappings t.columns
  check_columns t.columns t.columns
  resolve_columns t.columns

abbrev pub same_days : Days → Days → Bool
same_days (pos m) (pos n) = m == n
same_days (negsuc m) (negsuc n) = m == n
same_days _ _ = false

-- `dateShiftGroups.get(group)`; the map has its last entry at the head.
unfoldable pub group_days : Text → List (Text × Days) → Option Days
group_days g [] = none
group_days g ((k, d) ∷ m) = if text_eq k g then some d else group_days g m

abbrev pub agrees : Days → Option Days → Bool
agrees d none = true
agrees d (some e) = same_days e d

unfoldable pub check_shifts : List (Text × Days) → List (Text × Days) → Result GraphError (Unit {0})
unfolding group_days
check_shifts known [] = ok tt
check_shifts known ((g, d) ∷ rest) = do
  guard (agrees d (group_days g known)) (shift_group g)
  check_shifts ((g, d) ∷ known) rest

abbrev pub column_shifts : List PrivacyColumn → List (Text × Days)
column_shifts [] = []
column_shifts (c ∷ cs) = shifts c.recipe ++ column_shifts cs

abbrev pub table_shifts : List PrivacyTable → List (Text × Days)
table_shifts [] = []
table_shifts (t ∷ ts) = column_shifts t.columns ++ table_shifts ts

unfoldable pub validate_tables :
    List Text → List Text → List PrivacyTable → Result GraphError (Unit {0})
unfolding validate_table_dependencies
validate_tables bindings mappings [] = ok tt
validate_tables bindings mappings (t ∷ ts) = do
  _ ← validate_table_dependencies bindings mappings t
  validate_tables bindings mappings ts

unfoldable pub validate_privacy_dependency_graph :
    List Text → List Text → List PrivacyTable → Result GraphError (Unit {0})
unfolding validate_tables check_shifts shifts
validate_privacy_dependency_graph bindings mappings tables = do
  validate_tables bindings mappings tables
  check_shifts [] (table_shifts tables)
