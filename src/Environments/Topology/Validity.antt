-- ===== src/Environments/Topology/Validity.antt =====
-- What holds of the targets that loadRuntimeTopology accepts, and of a selection of them.
use rehearsal_db.Common.{
  ℕ, ◌≤◌, ◌≡◌, refl, sym, ap, subst, ◌≢◌, ◌⊎◌, inl, inr, ◌↔◌, Bool, true, false, not, ◌&&◌, Option,
  none, some, List, [], ◌∷◌, map, Result, ok, guard, guard-eq-ok, >>=-eq-ok, >>-eq-ok, Text,
  text_eq, text_eq_iff, ==_iff, codes, length, any, ltb, ◌==◌, arith, All, All-map, Bool-cases,
  any-eq-false_iff,
}
use rehearsal_db.Environments.Topology.{
  DependentDeclaration, Loaded, RuntimeTopologyTarget, TopologyError, assert_unique, target_from,
  load_dependents, all_ports, given, endpoints, check_port, check_endpoints,
  check_application_ports, assert_runtime_topology_application_ports, overlap, check_apart_from,
  check_artifacts, load_runtime_topology, check_targets, not_unique, nested_dependents,
  mixed_sqlite, nested_artifacts,
}

-- No value occurs twice.
abbrev pub AllDistinct {ℓ} : {A : Type ℓ} → List A → Type ℓ
AllDistinct [] = Unit
AllDistinct (v ∷ vs) = All (λ u. v ≢ u) vs × AllDistinct vs

module _ {A : Type 0} (same : A → A → Bool) (iff : (u v : A) → (same u v ≡ true) ↔ (u ≡ v)) where
  All-nothing : (seen : List A) → All (λ s. All (λ v. s ≢ v) []) seen
  All-nothing [] = tt
  All-nothing (s ∷ seen) = (tt, All-nothing seen)

  All-apart :
      (v : A) (vs seen : List A)
      → All (λ s. same v s ≡ false) seen
      → All (λ s. All (λ u. s ≢ u) vs) seen
      → All (λ s. All (λ u. s ≢ u) (v ∷ vs)) seen
  All-apart v vs [] n l = tt
  All-apart v vs (s ∷ seen) (p, n) (q, l) =
      (((λ e. let both = (iff v s).1 (sym e) in cc), q), All-apart v vs seen n l)

  assert_unique_sound :
      (label : Text) (seen vs : List A)
      → assert_unique same label seen vs ≡ ok tt
      → All (λ s. All (λ v. s ≢ v) vs) seen × AllDistinct vs
  unfolding assert_unique
  assert_unique_sound label seen [] h = (All-nothing seen, tt)
  assert_unique_sound label seen (v ∷ vs) h =
      let (new, more) =
        >>-eq-ok (guard (not (any (same v) seen)) (not_unique label))
          (assert_unique same label (v ∷ seen) vs) h in
      let unseen = guard-eq-ok _ _ new in
      let ((apart, later), distinct) = assert_unique_sound label (v ∷ seen) vs more in
      let fresh = (any-eq-false_iff (same v) seen).0 (ground arith) in
      (All-apart v vs seen fresh later, (apart, distinct))

-- The endpoints of all targets are apart from all of the ports.
abbrev pub IsFree : (Text → Option ℕ) → List ℕ → Text → Type 0
IsFree url_port services u = (p : ℕ) × (url_port u ≡ some p) × All (λ q. q ≢ p) services

check_port_sound :
    (url_port : Text → Option ℕ) (services : List ℕ) (u : Text) (o : Option ℕ)
    → url_port u ≡ o
    → check_port services u o ≡ ok tt
    → IsFree url_port services u
check_port_sound url_port services u none e h = cc
check_port_sound url_port services u (some p) e h =
    let none_same = guard-eq-ok _ _ h in
    (
      p,
      e,
      All-map (λ q. (q == p) ≡ false) (λ q. q ≢ p) services
          (λ q n same. let yes = (==_iff q p).1 same in cc)
          ((any-eq-false_iff (λ q. q == p) services).0 (ground arith)),
    )

check_endpoints_sound :
    (url_port : Text → Option ℕ) (services : List ℕ) (us : List Text)
    → check_endpoints url_port services us ≡ ok tt
    → All (IsFree url_port services) us
unfolding check_endpoints
check_endpoints_sound url_port services [] h = tt
check_endpoints_sound url_port services (u ∷ us) h =
    let (one, more) =
      >>-eq-ok (check_port services u (url_port u)) (check_endpoints url_port services us) h in
    (
      check_port_sound url_port services u (url_port u) refl one,
      check_endpoints_sound url_port services us more,
    )

check_application_ports_sound :
    (url_port : Text → Option ℕ) (services : List ℕ) (ts : List RuntimeTopologyTarget)
    → check_application_ports url_port services ts ≡ ok tt
    → All (λ t. All (IsFree url_port services) (endpoints t.config)) ts
unfolding check_application_ports
check_application_ports_sound url_port services [] h = tt
check_application_ports_sound url_port services (t ∷ ts) h =
    let (one, more) =
      >>-eq-ok (check_endpoints url_port services (endpoints t.config))
        (check_application_ports url_port services ts) h in
    (
      check_endpoints_sound url_port services (endpoints t.config) one,
      check_application_ports_sound url_port services ts more,
    )

-- The targets of the dependents have their names, and no dependents of their own.
load_dependents_sound :
    (load : Text → Result TopologyError Loaded) (ds : List DependentDeclaration)
    (ts : List RuntimeTopologyTarget)
    → load_dependents load ds ≡ ok ts
    → (map (λ t. t.name) ts ≡ map (λ d. d.name) ds)
      × All (λ t. (t.primary ≡ false) × (length t.config.dependent_targets ≡ 0)) ts
unfolding load_dependents
load_dependents_sound load [] ts h =
    let same : [] ≡ ts = cc in
    subst
      (λ l.
        (map (λ (t : RuntimeTopologyTarget). t.name) l ≡ [])
        × All (λ t. (t.primary ≡ false) × (length t.config.dependent_targets ≡ 0)) l)
      same (refl, tt)
load_dependents_sound load (d ∷ ds) ts h =
    let (l, e, h1) = >>=-eq-ok (load d.config_path) _ h in
    let (none_nested, h2) =
      >>-eq-ok (guard (length l.config.dependent_targets == 0) (nested_dependents d.name)) _ h1 in
    let (rest, f, h3) = >>=-eq-ok (load_dependents load ds) _ h2 in
    let same : target_from d.name false l ∷ rest ≡ ts = cc in
    let (names, all_fine) = load_dependents_sound load ds rest f in
    let no_nested =
      (==_iff (length l.config.dependent_targets) 0).0 (guard-eq-ok _ _ none_nested) in
    subst
      (λ k.
        (map (λ (t : RuntimeTopologyTarget). t.name) k ≡ map (λ c. c.name) (d ∷ ds))
        × All (λ t. (t.primary ≡ false) × (length t.config.dependent_targets ≡ 0)) k)
      same (ap (λ m. d.name ∷ m) names, ((refl, no_nested), all_fine))

module _ (relative : Text → Text → Text) (is_absolute : Text → Bool) where
  -- Of any two targets, neither keeps its artifacts inside the directory of the other.
  abbrev pub AllSeparate : List RuntimeTopologyTarget → Type 0
  AllSeparate [] = Unit
  AllSeparate (t ∷ ts) = All (λ u. overlap relative is_absolute t u ≡ false) ts × AllSeparate ts

  check_apart_from_sound :
      (t : RuntimeTopologyTarget) (us : List RuntimeTopologyTarget)
      → check_apart_from relative is_absolute t us ≡ ok tt
      → All (λ u. overlap relative is_absolute t u ≡ false) us
  unfolding check_apart_from
  check_apart_from_sound t [] h = tt
  check_apart_from_sound t (u ∷ us) h =
      let (one, more) =
        >>-eq-ok (guard (not (overlap relative is_absolute t u)) (nested_artifacts t.name u.name))
          (check_apart_from relative is_absolute t us) h in
      let clear = guard-eq-ok _ _ one in (ground arith, check_apart_from_sound t us more)

  check_artifacts_sound :
      (ts : List RuntimeTopologyTarget)
      → check_artifacts relative is_absolute ts ≡ ok tt
      → AllSeparate ts
  unfolding check_artifacts
  check_artifacts_sound [] h = tt
  check_artifacts_sound (t ∷ ts) h =
      let (one, more) =
        >>-eq-ok (check_apart_from relative is_absolute t ts)
          (check_artifacts relative is_absolute ts) h in
      (check_apart_from_sound t ts one, check_artifacts_sound ts more)

  pub record IsValid (url_port : Text → Option ℕ) (ts : List RuntimeTopologyTarget) : Type 0 where
    pub alone : (length ts ≤ 1) ⊎ All (λ t. t.config.is_sqlite ≡ false) ts
    pub names : AllDistinct (map (λ t. t.name) ts)
    pub config_paths : AllDistinct (map (λ t. t.config_path) ts)
    pub project_ids : AllDistinct (map (λ t. t.config.project_id) ts)
    pub ports : AllDistinct (all_ports ts)
    pub free : All (λ t. All (IsFree url_port (all_ports ts)) (endpoints t.config)) ts
    pub environments : AllDistinct (map (λ t. t.config.application_environment) ts)
    pub rehearsal_configs : AllDistinct (given (map (λ t. t.config.rehearsal_config) ts))
    pub separate : AllSeparate ts

  pub record IsTopology (url_port : Text → Option ℕ) (p : Loaded) (ts : List RuntimeTopologyTarget)
      : Type 0 where
    pub dependents : List RuntimeTopologyTarget
    pub primary_first : ts ≡ target_from (codes "primary") true p ∷ dependents
    pub declared : map (λ t. t.name) dependents ≡ map (λ d. d.name) p.config.dependent_targets
    pub flat : All (λ t. (t.primary ≡ false) × (length t.config.dependent_targets ≡ 0)) dependents
    pub valid : IsValid url_port ts

  sqlite_alone :
      (ts : List RuntimeTopologyTarget)
      → not (ltb 1 (length ts) && any (λ (t : RuntimeTopologyTarget). t.config.is_sqlite) ts) ≡ true
      → (length ts ≤ 1) ⊎ All (λ t. t.config.is_sqlite ≡ false) ts
  sqlite_alone ts h = elim (Bool-cases (ltb 1 (length ts))) [
    | inl several ↦
        inr (
          (any-eq-false_iff (λ (t : RuntimeTopologyTarget). t.config.is_sqlite) ts).0
            (ground arith))
    | inr single ↦ inl (ground arith)
  ]

  distinct_texts :
      (label : Text) (vs : List Text) → assert_unique text_eq label [] vs ≡ ok tt → AllDistinct vs
  distinct_texts label vs h = (assert_unique_sound text_eq text_eq_iff label [] vs h).1

  check_targets_sound :
      (url_port : Text → Option ℕ) (ts : List RuntimeTopologyTarget)
      → check_targets relative is_absolute url_port ts ≡ ok tt
      → IsValid url_port ts
  unfolding check_targets assert_runtime_topology_application_ports
  check_targets_sound url_port ts h =
      let names = map (λ (t : RuntimeTopologyTarget). t.name) ts in
      let paths = map (λ (t : RuntimeTopologyTarget). t.config_path) ts in
      let ids = map (λ (t : RuntimeTopologyTarget). t.config.project_id) ts in
      let environments = map (λ (t : RuntimeTopologyTarget). t.config.application_environment) ts in
      let configs = given (map (λ (t : RuntimeTopologyTarget). t.config.rehearsal_config) ts) in
      let (c1, h1) =
        >>-eq-ok
          (guard
            (not (ltb 1 (length ts) && any (λ (t : RuntimeTopologyTarget). t.config.is_sqlite) ts))
            mixed_sqlite)
          _ h in
      let (c2, h2) = >>-eq-ok (assert_unique text_eq (codes "target name") [] names) _ h1 in
      let (c3, h3) = >>-eq-ok (assert_unique text_eq (codes "config path") [] paths) _ h2 in
      let (c4, h4) = >>-eq-ok (assert_unique text_eq (codes "runtime project ID") [] ids) _ h3 in
      let (c5, h5) =
        >>-eq-ok (assert_unique (λ (p q : ℕ). p == q) (codes "runtime port") [] (all_ports ts)) _
          h4 in
      let (c6, h6) = >>-eq-ok (check_application_ports url_port (all_ports ts) ts) _ h5 in
      let (c7, h7) =
        >>-eq-ok (assert_unique text_eq (codes "application environment file") [] environments) _
          h6 in
      let (c8, c9) =
        >>-eq-ok (assert_unique text_eq (codes "Supabase runtime config") [] configs)
          (check_artifacts relative is_absolute ts) h7 in
      record {
        alone = sqlite_alone ts (guard-eq-ok _ _ c1);
        names = distinct_texts (codes "target name") names c2;
        config_paths = distinct_texts (codes "config path") paths c3;
        project_ids = distinct_texts (codes "runtime project ID") ids c4;
        ports =
            (assert_unique_sound (λ (p q : ℕ). p == q) ==_iff (codes "runtime port") []
              (all_ports ts) c5).1;
        free = check_application_ports_sound url_port (all_ports ts) ts c6;
        environments = distinct_texts (codes "application environment file") environments c7;
        rehearsal_configs = distinct_texts (codes "Supabase runtime config") configs c8;
        separate = check_artifacts_sound ts c9;
      }

  -- An accepted topology has the primary target first and one target for each declared dependent,
  -- none of which nests further; SQLite stands alone. Names, configuration paths, project ids, ports, environment files
  -- and Supabase configurations are all distinct, every application endpoint is a valid URL whose
  -- port is none of the services', and no artifact directory contains another.
  pub load_runtime_topology_sound :
      (url_port : Text → Option ℕ) (p : Loaded) (load : Text → Result TopologyError Loaded)
      (ts : List RuntimeTopologyTarget)
      → load_runtime_topology relative is_absolute url_port (ok p) load ≡ ok ts
      → IsTopology url_port p ts
  unfolding load_runtime_topology
  load_runtime_topology_sound url_port p load ts h =
      let (ds, eds, h1) = >>=-eq-ok (load_dependents load p.config.dependent_targets) _ h in
      let (declared, flat) = load_dependents_sound load p.config.dependent_targets ds eds in
      let us = target_from (codes "primary") true p ∷ ds in
      let (ok_targets, h2) = >>-eq-ok (check_targets relative is_absolute url_port us) (ok us) h1 in
      let same : us ≡ ts = cc in
      subst (IsTopology url_port p) same (record {
        dependents = ds;
        primary_first = refl;
        declared = declared;
        flat = flat;
        valid = check_targets_sound url_port us ok_targets;
      })
