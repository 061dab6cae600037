-- ===== src/Environments/Topology.antt =====
-- src/runtime/lifecycle/topology.mts and topology_application_ports.mts: the primary runtime of a
-- project with its dependents, and the selection of targets. Loading a configuration, the port of a
-- URL (`none` where it is invalid), and path.relative and path.isAbsolute are parameters.
pub mod Validity
pub mod Selecting
use rehearsal_db.Common.{
  ℕ, zero, suc, ◌+◌, ◌≡◌, Bool, true, false, not, ◌&&◌, ◌||◌, Option, none, some, List, [], ◌∷◌,
  ◌++◌, map, Result, ok, err, ◌>>=◌, ◌>>◌, guard, Text, text_eq, codes, length, any, all, keep, ltb,
  ◌==◌, if◌then◌else◌,
}

pub record DependentDeclaration : Type 0 where
  pub name : Text
  pub config_path : Text

-- The parts of a loaded configuration that the topology reads.
pub record Config : Type 0 where
  pub is_sqlite : Bool
  pub project_id : Text
  pub protected : Bool
  pub ports : List (Text × ℕ)
  pub application_url : Text
  pub readiness_url : Option Text
  pub profile_urls : List (Option Text)
  pub dependent_targets : List DependentDeclaration
  pub application_environment : Text
  pub rehearsal_config : Option Text
  pub artifact_directory : Text

pub record Loaded : Type 0 where
  pub config_path : Text
  pub config : Config

pub record RuntimeTopologyTarget : Type 0 where
  pub name : Text
  pub primary : Bool
  pub config_path : Text
  pub config : Config

pub data TopologyError : Type 0 where
  load_failed : TopologyError
  nested_dependents : Text → TopologyError
  mixed_sqlite : TopologyError
  not_unique : Text → TopologyError
  invalid_url : Text → TopologyError
  port_conflict : Text → TopologyError
  nested_artifacts : Text → Text → TopologyError
  not_configured : TopologyError
  protected_target : TopologyError

-- `assertUnique`, over the values of the entries.
unfoldable pub assert_unique {ℓ} :
    {A : Type ℓ} → (A → A → Bool) → Text → List A → List A → Result TopologyError (Unit {0})
assert_unique same label seen [] = ok tt
assert_unique same label seen (v ∷ vs) = do
  guard (not (any (same v) seen)) (not_unique label)
  assert_unique same label (v ∷ seen) vs

abbrev pub target_from : Text → Bool → Loaded → RuntimeTopologyTarget
target_from name primary l = record {
  name = name;
  primary = primary;
  config_path = l.config_path;
  config = l.config;
}

-- The loop over `dependentTargets`.
unfoldable pub load_dependents :
    (Text → Result TopologyError Loaded)
    → List DependentDeclaration
    → Result TopologyError (List RuntimeTopologyTarget)
load_dependents load [] = ok []
load_dependents load (d ∷ ds) = do
  l ← load d.config_path
  guard (length l.config.dependent_targets == 0) (nested_dependents d.name)
  rest ← load_dependents load ds
  ok (target_from d.name false l ∷ rest)

unfoldable pub all_ports : List RuntimeTopologyTarget → List ℕ
all_ports [] = []
all_ports (t ∷ ts) = map (λ p. p.1) t.config.ports ++ all_ports ts

abbrev pub given {ℓ} : {A : Type ℓ} → List (Option A) → List A
given [] = []
given (none ∷ vs) = given vs
given (some v ∷ vs) = v ∷ given vs

-- `endpoints`
unfoldable pub endpoints : Config → List Text
endpoints c = c.application_url ∷ given (c.readiness_url ∷ c.profile_urls)

abbrev pub check_port : List ℕ → Text → Option ℕ → Result TopologyError (Unit {0})
check_port services url none = err (invalid_url url)
check_port services url (some p) = guard (not (any (λ q. q == p) services)) (port_conflict url)

unfoldable pub check_endpoints :
    (Text → Option ℕ) → List ℕ → List Text → Result TopologyError (Unit {0})
check_endpoints url_port services [] = ok tt
check_endpoints url_port services (u ∷ us) = do
  check_port services u (url_port u)
  check_endpoints url_port services us

unfoldable pub check_application_ports :
    (Text → Option ℕ) → List ℕ → List RuntimeTopologyTarget → Result TopologyError (Unit {0})
unfolding check_endpoints endpoints
check_application_ports url_port services [] = ok tt
check_application_ports url_port services (t ∷ ts) = do
  check_endpoints url_port services (endpoints t.config)
  check_application_ports url_port services ts

unfoldable pub assert_runtime_topology_application_ports :
    (Text → Option ℕ) → List RuntimeTopologyTarget → Result TopologyError (Unit {0})
unfolding check_application_ports all_ports
assert_runtime_topology_application_ports url_port ts =
    check_application_ports url_port (all_ports ts) ts

-- `path.startsWith("..")`
abbrev pub starts_with_dots : Text → Bool
starts_with_dots (c ∷ d ∷ s) = c == b'.' && d == b'.'
starts_with_dots _ = false

abbrev pub is_empty : Text → Bool
is_empty [] = true
is_empty (c ∷ s) = false

module _ (relative : Text → Text → Text) (is_absolute : Text → Bool) where
  unfoldable pub is_inside : Text → Text → Bool
  is_inside parent candidate =
      is_empty (relative parent candidate)
      || not (starts_with_dots (relative parent candidate))
        && not (is_absolute (relative parent candidate))

  unfoldable pub overlap : RuntimeTopologyTarget → RuntimeTopologyTarget → Bool
  unfolding is_inside
  overlap l r =
      is_inside l.config.artifact_directory r.config.artifact_directory
      || is_inside r.config.artifact_directory l.config.artifact_directory

  unfoldable pub check_apart_from :
      RuntimeTopologyTarget → List RuntimeTopologyTarget → Result TopologyError (Unit {0})
  unfolding overlap
  check_apart_from l [] = ok tt
  check_apart_from l (r ∷ rs) = do
    guard (not (overlap l r)) (nested_artifacts l.name r.name)
    check_apart_from l rs

  -- The two nested loops over indices.
  unfoldable pub check_artifacts : List RuntimeTopologyTarget → Result TopologyError (Unit {0})
  unfolding check_apart_from
  check_artifacts [] = ok tt
  check_artifacts (t ∷ ts) = do check_apart_from t ts; check_artifacts ts

  -- The checks of the targets, primary and dependents.
  unfoldable pub check_targets :
      (Text → Option ℕ) → List RuntimeTopologyTarget → Result TopologyError (Unit {0})
  unfolding assert_unique assert_runtime_topology_application_ports check_artifacts
  check_targets url_port ts = do
    guard (not (ltb 1 (length ts) && any (λ t. t.config.is_sqlite) ts)) mixed_sqlite
    assert_unique text_eq (codes "target name") [] (map (λ t. t.name) ts)
    assert_unique text_eq (codes "config path") [] (map (λ t. t.config_path) ts)
    assert_unique text_eq (codes "runtime project ID") [] (map (λ t. t.config.project_id) ts)
    assert_unique (λ p q. p == q) (codes "runtime port") [] (all_ports ts)
    assert_runtime_topology_application_ports url_port ts
    assert_unique text_eq (codes "application environment file") []
        (map (λ t. t.config.application_environment) ts)
    assert_unique text_eq (codes "Supabase runtime config") []
        (given (map (λ t. t.config.rehearsal_config) ts))
    check_artifacts ts

  -- The targets of the topology: the primary one first, then the dependents.
  unfoldable pub load_runtime_topology :
      (Text → Option ℕ)
      → Result TopologyError Loaded
      → (Text → Result TopologyError Loaded)
      → Result TopologyError (List RuntimeTopologyTarget)
  unfolding load_dependents check_targets
  load_runtime_topology url_port load_primary load = do
    p ← load_primary
    dependents ← load_dependents load p.config.dependent_targets
    let ts = target_from (codes "primary") true p ∷ dependents
    check_targets url_port ts
    ok ts

abbrev pub named : Option Text → List RuntimeTopologyTarget → List RuntimeTopologyTarget
named none ts = ts
named (some n) ts = keep (λ t. text_eq t.name n) ts

abbrev pub replaces : Option Text → Bool
replaces none = false
replaces (some a) =
    text_eq a (codes "reset")
    || text_eq a (codes "run")
    || text_eq a (codes "migrate")
    || text_eq a (codes "discard")

unfoldable pub select_runtime_targets :
    List RuntimeTopologyTarget
    → Option Text
    → Option Text
    → Result TopologyError (List RuntimeTopologyTarget)
select_runtime_targets ts name action = do
  guard (ltb 0 (length (named name ts))) not_configured
  guard (not (replaces action && any (λ t. t.config.protected) (named name ts))) protected_target
  ok (named name ts)
