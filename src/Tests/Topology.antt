-- ===== src/Tests/Topology.antt =====
-- A primary PostgreSQL runtime with one dependent.
use rehearsal_db.Common.{
  ℕ, ◌≡◌, ◌<◌, refl, ◌⊎◌, true, false, List, [], ◌∷◌, Option, none, some, Result, ok, err, Bool,
  Text, text_eq, codes, All, In, length, if◌then◌else◌,
}
use rehearsal_db.Environments.Topology.{
  DependentDeclaration, Config, Loaded, RuntimeTopologyTarget, TopologyError, load_failed,
  not_unique, target_from, load_runtime_topology, assert_unique, select_runtime_targets, replaces,
}
use rehearsal_db.Environments.Topology.Validity.{IsTopology, load_runtime_topology_sound}
use rehearsal_db.Environments.Topology.Selecting.{select_runtime_targets_sound}

abbrev config : Text → ℕ → List DependentDeclaration → Config
config id port ds = record {
  is_sqlite = false;
  project_id = id;
  protected = false;
  ports = (codes "database", port) ∷ [];
  application_url = 80 ∷ [];
  readiness_url = none;
  profile_urls = none ∷ [];
  dependent_targets = ds;
  application_environment = id;
  rehearsal_config = none;
  artifact_directory = id;
}

abbrev main_loaded : Loaded
main_loaded = record {
  config_path = codes "main.json";
  config =
      config (codes "m") 5432
        (record { name = codes "jobs"; config_path = codes "jobs.json" } ∷ []);
}

abbrev jobs : Loaded
jobs = record { config_path = codes "jobs.json"; config = config (codes "j") 5433 [] }

abbrev load : Text → Result TopologyError Loaded
load path = if text_eq path (codes "jobs.json") then ok jobs else err load_failed

-- The port of a URL is its first unit; every other directory is beside, not inside.
abbrev url_port : Text → Option ℕ
url_port [] = none
url_port (c ∷ s) = some c

abbrev relative : Text → Text → Text
relative a b = if text_eq a b then [] else codes "../x"

abbrev is_absolute : Text → Bool
is_absolute p = false

abbrev targets : List RuntimeTopologyTarget
targets =
    target_from (codes "primary") true main_loaded ∷ target_from (codes "jobs") false jobs ∷ []

topology_test :
    load_runtime_topology relative is_absolute url_port (ok main_loaded) load ≡ ok targets
unfolding load_runtime_topology text_eq
topology_test = refl

load_runtime_topology_sound_example : IsTopology relative is_absolute url_port main_loaded targets
load_runtime_topology_sound_example =
    load_runtime_topology_sound relative is_absolute url_port main_loaded load targets topology_test

abbrev selected : List RuntimeTopologyTarget
selected = target_from (codes "jobs") false jobs ∷ []

selection_test :
    select_runtime_targets targets (some (codes "jobs")) (some (codes "reset")) ≡ ok selected
unfolding select_runtime_targets text_eq
selection_test = refl

distinct_test :
    assert_unique text_eq [] [] (codes "primary" ∷ codes "jobs" ∷ codes "primary" ∷ [])
    ≡ err (not_unique [])
unfolding assert_unique text_eq
distinct_test = refl

select_runtime_targets_sound_example :
    (0 < 1)
    × (replaces (some (codes "reset")) ≡ true → All (λ t. t.config.protected ≡ false) selected)
    × (((some (codes "jobs") ≡ none) × (selected ≡ targets))
        ⊎ ((n : Text) × (some (codes "jobs") ≡ some n)
            × (length selected ≡ 1)
            × All (λ t. In t targets × (t.name ≡ n)) selected))
select_runtime_targets_sound_example =
    select_runtime_targets_sound targets (some (codes "jobs")) (some (codes "reset")) selected
      load_runtime_topology_sound_example.valid.names selection_test
