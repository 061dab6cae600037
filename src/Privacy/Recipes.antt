-- ===== src/Privacy/Recipes.antt =====
-- src/baseline/privacy/privacy_contract.mts and privacy_dependency_graph.mts: the normalized recipes
-- of a privacy policy, and the walks over them.
use rehearsal_db.Common.{ℕ, Bool, true, false, ◌||◌, Option, none, some, List, [], ◌∷◌, ◌++◌, Text}

pub data PrivacyAction : Type 0 where
  keep pseudonymize replace exclude derive : PrivacyAction

-- The whole number of days of a shift.
pub data Days : Type 0 where
  pos : ℕ → Days
  negsuc : ℕ → Days

-- The recipes as far as the graph looks at them; `no_recipe` is null. The fields of an object and
-- the variants of a union are their values in order.
mutual
  pub data Recipe : Type 0 where
    no_recipe : Recipe
    pseudonym : Recipe
    constant : Recipe
    date_shift : (days : Days) (group : Option Text) → Recipe
    enumeration : Recipe
    validated_string : Recipe
    digest : (inputs : List Text) → Recipe
    binding_substitute : (binding : Text) → Recipe
    path_map : (mapping : Text) → Recipe
    approved_owner : (approved otherwise : Declaration) → Recipe
    json_array : Declaration → Recipe
    json_object : Declarations → Recipe
    json_union : Declarations → Recipe
    json_dictionary : Declaration → Recipe

  pub data Declaration : Type 0 where
    declaration : PrivacyAction → Recipe → Declaration

  pub data Declarations : Type 0 where
    nil : Declarations
    cons : Declaration → Declarations → Declarations

-- `usesApprovedOwner`
unfoldable mutual
  pub uses_approved_owner : Recipe → Bool
  uses_approved_owner (approved_owner a o) = true
  uses_approved_owner (json_array d) = declared_uses d
  uses_approved_owner (json_object ds) = any_uses ds
  uses_approved_owner (json_union ds) = any_uses ds
  uses_approved_owner (json_dictionary d) = declared_uses d
  uses_approved_owner _ = false

  pub declared_uses : Declaration → Bool
  declared_uses (declaration action r) = uses_approved_owner r

  pub any_uses : Declarations → Bool
  any_uses nil = false
  any_uses (cons d ds) = declared_uses d || any_uses ds

-- `visitRecipes`, as the list of the recipes in the order of the visit.
unfoldable mutual
  pub visited : Recipe → List Recipe
  visited (approved_owner a o) = approved_owner a o ∷ (declared_visited a ++ declared_visited o)
  visited (json_array d) = json_array d ∷ declared_visited d
  visited (json_object ds) = json_object ds ∷ all_visited ds
  visited (json_union ds) = json_union ds ∷ all_visited ds
  visited (json_dictionary d) = json_dictionary d ∷ declared_visited d
  visited r = r ∷ []

  pub declared_visited : Declaration → List Recipe
  declared_visited (declaration action r) = visited r

  pub all_visited : Declarations → List Recipe
  all_visited nil = []
  all_visited (cons d ds) = declared_visited d ++ all_visited ds

-- `digestInputs`
unfoldable mutual
  pub digest_inputs : Recipe → List Text
  digest_inputs (digest inputs) = inputs
  digest_inputs (approved_owner a o) = declared_inputs a ++ declared_inputs o
  digest_inputs (json_array d) = declared_inputs d
  digest_inputs (json_object ds) = all_inputs ds
  digest_inputs (json_union ds) = all_inputs ds
  digest_inputs (json_dictionary d) = declared_inputs d
  digest_inputs _ = []

  pub declared_inputs : Declaration → List Text
  declared_inputs (declaration action r) = digest_inputs r

  pub all_inputs : Declarations → List Text
  all_inputs nil = []
  all_inputs (cons d ds) = declared_inputs d ++ all_inputs ds

-- What one recipe adds for `validateDateShiftGroup`; an empty group is no group.
abbrev pub grouped : Days → Option Text → List (Text × Days)
grouped d none = []
grouped d (some []) = []
grouped d (some (c ∷ g)) = (c ∷ g, d) ∷ []

unfoldable mutual
  pub shifts : Recipe → List (Text × Days)
  shifts (date_shift d g) = grouped d g
  shifts (approved_owner a o) = declared_shifts a ++ declared_shifts o
  shifts (json_array d) = declared_shifts d
  shifts (json_object ds) = all_shifts ds
  shifts (json_union ds) = all_shifts ds
  shifts (json_dictionary d) = declared_shifts d
  shifts _ = []

  pub declared_shifts : Declaration → List (Text × Days)
  declared_shifts (declaration action r) = shifts r

  pub all_shifts : Declarations → List (Text × Days)
  all_shifts nil = []
  all_shifts (cons d ds) = declared_shifts d ++ all_shifts ds
