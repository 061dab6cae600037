-- ===== src/Environments/StalePlan/Apply.antt =====
-- applyStopStalePlan: stopping the reviewed targets, each after a fresh plan that still shows it.
use rehearsal_db.Common.{
  ◌∙◌, guard, guard-eq-ok, ◌>>=◌, ◌>>◌, >>=-eq-ok, >>-eq-ok, and-eq-true, ok-injective,
  text_eq_sound, ℕ, suc, ◌≡◌, refl, ap, ◌≢◌, inl, inr, ◌&&◌, Option, none, some, List, [], ◌∷◌,
  ◌++◌, map, Result, ok, err, Text, text_eq, text_eq_iff, arith, if◌then◌else◌, Bool-cases,
}
use rehearsal_db.Environments.StalePlan.{StopStaleTarget, StopStalePlan}

pub data ApplyError (E : Type 0) : Type 0 where
  failed : E → ApplyError E
  not_confirmed : ApplyError E
  changed no_target : ApplyError E

-- `fresh.targets.find((entry) => entry.target === target.target)`
unfoldable pub find_target : Text → List StopStaleTarget → Option StopStaleTarget
find_target name [] = none
find_target name (t ∷ ts) = if text_eq t.target name then some t else find_target name ts

-- `[...preview.targets].reverse()`
unfoldable pub reversed : List StopStaleTarget → List StopStaleTarget
reversed [] = []
reversed (t ∷ ts) = reversed ts ++ t ∷ []

-- The calls of `stop`, each with the plan that was refreshed before it, and the result.
abbrev pub Outcome : Type 0 → Type 0
Outcome E = List (StopStalePlan × StopStaleTarget) × Result (ApplyError E) (List Text)

-- `refresh k` is what the refresh comes to that `k` others precede.
module _ {E : Type 0} (hash : StopStaleTarget → Text) (refresh : ℕ → Result E StopStalePlan)
    (stop : StopStaleTarget → Result E (Unit {0})) where
  -- `hash(undefined)` throws: there is no text to hash.
  abbrev pub hash_found : Option StopStaleTarget → Result (ApplyError E) Text
  hash_found none = err no_target
  hash_found (some u) = ok (hash u)

  -- The test before a stop, which throws or passes.
  unfoldable pub unchanged :
      StopStalePlan → StopStalePlan → StopStaleTarget → Result (ApplyError E) (Unit {0})
  unfolding find_target
  unchanged preview fresh t = do
    guard
        (text_eq fresh.engine_identity preview.engine_identity
          && text_eq fresh.project_root_sha256 preview.project_root_sha256)
        changed
    h ← hash_found (find_target t.target fresh.targets)
    guard (text_eq h (hash t)) changed

  abbrev pub add_stopped :
      StopStaleTarget → Result (ApplyError E) (List Text) → Result (ApplyError E) (List Text)
  add_stopped t (err e) = err e
  add_stopped t (ok names) = ok (t.target ∷ names)

  abbrev pub after_stop :
      StopStalePlan → StopStaleTarget → Result E (Unit {0}) → Outcome E → Outcome E
  after_stop fresh t (err e) rest = ((fresh, t) ∷ [], err (failed e))
  after_stop fresh t (ok u) rest = ((fresh, t) ∷ rest.0, add_stopped t rest.1)

  abbrev pub after_test :
      StopStalePlan → StopStaleTarget → Result (ApplyError E) (Unit {0}) → Outcome E → Outcome E
  after_test fresh t (err e) rest = ([], err e)
  after_test fresh t (ok u) rest = after_stop fresh t (stop t) rest

  abbrev pub after_refresh :
      StopStalePlan → StopStaleTarget → Result E StopStalePlan → Outcome E → Outcome E
  after_refresh preview t (err e) rest = ([], err (failed e))
  after_refresh preview t (ok fresh) rest = after_test fresh t (unchanged preview fresh t) rest

  unfoldable pub apply_loop : StopStalePlan → ℕ → List StopStaleTarget → Outcome E
  unfolding unchanged
  apply_loop preview k [] = ([], ok [])
  apply_loop preview k (t ∷ ts) =
      after_refresh preview t (refresh k) (apply_loop preview (suc k) ts)

  abbrev pub confirmed : StopStalePlan → Text → Result E StopStalePlan → Outcome E
  confirmed preview confirmation (err e) = ([], err (failed e))
  confirmed preview confirmation (ok current) =
      if text_eq confirmation preview.digest && text_eq current.digest preview.digest
      then apply_loop preview 1 (reversed preview.targets)
      else ([], err not_confirmed)

  unfoldable pub apply_stop_stale_plan : StopStalePlan → Text → Outcome E
  unfolding apply_loop reversed
  apply_stop_stale_plan preview confirmation = confirmed preview confirmation (refresh 0)

  -- The plan has a target of this name with the same hash.
  abbrev pub IsFound : StopStaleTarget → StopStalePlan → Type 0
  IsFound t fresh =
      (u : StopStaleTarget) × (find_target t.target fresh.targets ≡ some u) × (hash u ≡ hash t)

  -- The stopped targets were, just before, what the refresh after `k` others still shows.
  abbrev pub AllFresh : StopStalePlan → ℕ → List (StopStalePlan × StopStaleTarget) → Type 0
  AllFresh preview k [] = Unit
  AllFresh preview k ((fresh, t) ∷ calls) =
      ((refresh k ≡ ok fresh)
        × (fresh.engine_identity ≡ preview.engine_identity)
        × (fresh.project_root_sha256 ≡ preview.project_root_sha256)
        × IsFound t fresh)
      × AllFresh preview (suc k) calls

  -- The calls are an initial part of `ts`, and all of it when the names are returned.
  pub record Ran (preview : StopStalePlan) (k : ℕ) (ts : List StopStaleTarget) (o : Outcome E)
      : Type 0 where
    pub fresh : AllFresh preview k o.0
    pub rest : List StopStaleTarget
    pub initial : ts ≡ map (λ c. c.1) o.0 ++ rest
    pub complete :
        (names : List Text) → o.1 ≡ ok names → (rest ≡ []) × (names ≡ map (λ t. t.target) ts)

  -- Nothing is stopped where an error comes first.
  err-Ran :
      (preview : StopStalePlan) (k : ℕ) (ts : List StopStaleTarget) (e : ApplyError E)
      → Ran preview k ts ([], err e)
  err-Ran preview k ts e = record {
    fresh = tt;
    rest = ts;
    initial = refl;
    complete = λ names h. cc;
  }

  hash_found-eq-ok :
      (o : Option StopStaleTarget) (h : Text)
      → hash_found o ≡ ok h
      → (u : StopStaleTarget) × (o ≡ some u) × (hash u ≡ h)
  hash_found-eq-ok none h e = cc
  hash_found-eq-ok (some u) h e = (u, refl, ok-injective _ refl e)

  unchanged_sound :
      (preview fresh : StopStalePlan) (t : StopStaleTarget)
      → unchanged preview fresh t ≡ ok tt
      → (fresh.engine_identity ≡ preview.engine_identity)
        × (fresh.project_root_sha256 ≡ preview.project_root_sha256)
        × IsFound t fresh
  unfolding unchanged
  unchanged_sound preview fresh t e =
      let (tested, e1) =
        >>-eq-ok
          (guard
            (text_eq fresh.engine_identity preview.engine_identity
              && text_eq fresh.project_root_sha256 preview.project_root_sha256)
            changed)
          _ e in
      let (h, eh, e2) = >>=-eq-ok (hash_found (find_target t.target fresh.targets)) _ e1 in
      let (u, found, same) = hash_found-eq-ok (find_target t.target fresh.targets) h eh in
      let (engine, root) =
        and-eq-true (text_eq fresh.engine_identity preview.engine_identity)
          (text_eq fresh.project_root_sha256 preview.project_root_sha256)
          (guard-eq-ok _ changed tested) in
      (
        text_eq_sound fresh.engine_identity preview.engine_identity engine,
        text_eq_sound fresh.project_root_sha256 preview.project_root_sha256 root,
        (u, found, same ∙ text_eq_sound h (hash t) (guard-eq-ok _ changed e2)),
      )

  after_stop-Ran :
      (preview fresh : StopStalePlan) (k : ℕ) (t : StopStaleTarget) (ts : List StopStaleTarget)
      (s : Result E (Unit {0})) (o : Outcome E)
      → refresh k ≡ ok fresh
      → unchanged preview fresh t ≡ ok tt
      → Ran preview (suc k) ts o
      → Ran preview k (t ∷ ts) (after_stop fresh t s o)
  after_stop-Ran preview fresh k t ts (err e) o q u r =
      let (engine, root, same) = unchanged_sound preview fresh t u in
      record {
        fresh = ((q, engine, root, same), tt);
        rest = ts;
        initial = refl;
        complete = λ names h. cc;
      }
  after_stop-Ran preview fresh k t ts (ok done) (calls, r) q u ran =
      let (engine, root, same) = unchanged_sound preview fresh t u in
      record {
        fresh = ((q, engine, root, same), ran.fresh);
        rest = ran.rest;
        initial = ap (λ l. t ∷ l) ran.initial;
        complete = by_names r ran.complete;
      }
    where
      by_names :
          (r : Result (ApplyError E) (List Text))
          → ((names : List Text)
              → r ≡ ok names
              → (ran.rest ≡ []) × (names ≡ map (λ x. x.target) ts))
          → (names : List Text) → add_stopped t r ≡ ok names
          → (ran.rest ≡ []) × (names ≡ map (λ x. x.target) (t ∷ ts))
      by_names (err e) c names h = cc
      by_names (ok ns) c names h = let (e, n) = c ns refl in (e, cc)

  after_refresh-Ran :
      (preview : StopStalePlan) (k : ℕ) (t : StopStaleTarget) (ts : List StopStaleTarget)
      (r : Result E StopStalePlan) (o : Outcome E)
      → refresh k ≡ r
      → Ran preview (suc k) ts o
      → Ran preview k (t ∷ ts) (after_refresh preview t r o)
  after_refresh-Ran preview k t ts (err e) o q ran = err-Ran preview k (t ∷ ts) (failed e)
  after_refresh-Ran preview k t ts (ok fresh) o q ran = by_test (unchanged preview fresh t) refl
    where
      by_test :
          (test : Result (ApplyError E) (Unit {0}))
          → unchanged preview fresh t ≡ test
          → Ran preview k (t ∷ ts) (after_test fresh t test o)
      by_test (err e) f = err-Ran preview k (t ∷ ts) e
      by_test (ok u) f = after_stop-Ran preview fresh k t ts (stop t) o q f ran

  apply_loop-Ran :
      (preview : StopStalePlan) (k : ℕ) (ts : List StopStaleTarget)
      → Ran preview k ts (apply_loop preview k ts)
  unfolding apply_loop
  apply_loop-Ran preview k [] = record {
    fresh = tt;
    rest = [];
    initial = refl;
    complete = λ names h. (refl, cc);
  }
  apply_loop-Ran preview k (t ∷ ts) =
      after_refresh-Ran preview k t ts (refresh k) (apply_loop preview (suc k) ts) refl
        (apply_loop-Ran preview (suc k) ts)

  -- Nothing is stopped unless the digest of the preview was confirmed and a first refresh gives it
  -- again. Targets are stopped in reverse order, each just after a refresh in which the engine, the
  -- project root and the hash of that target are unchanged, and all of them are when names are returned.
  pub apply_stop_stale_plan_sound :
      (preview : StopStalePlan) (confirmation : Text)
      → ((apply_stop_stale_plan preview confirmation).0 ≢ []
          → (confirmation ≡ preview.digest)
            × (current : StopStalePlan) × (refresh 0 ≡ ok current)
            × (current.digest ≡ preview.digest))
        × Ran preview 1 (reversed preview.targets) (apply_stop_stale_plan preview confirmation)
  unfolding apply_stop_stale_plan
  apply_stop_stale_plan_sound preview confirmation = by_refresh (refresh 0) refl
    where
      by_refresh :
          (r : Result E StopStalePlan)
          → refresh 0 ≡ r
          → ((confirmed preview confirmation r).0 ≢ []
              → (confirmation ≡ preview.digest)
                × (current : StopStalePlan) × (refresh 0 ≡ ok current)
                × (current.digest ≡ preview.digest))
            × Ran preview 1 (reversed preview.targets) (confirmed preview confirmation r)
      by_refresh (err e) q =
          ((λ h. absurd (h refl)), err-Ran preview 1 (reversed preview.targets) (failed e))
      by_refresh (ok current) q =
          elim (Bool-cases
            (text_eq confirmation preview.digest && text_eq current.digest preview.digest)) [
              | inl same ↦ rw same (
                (λ h. (
                  (text_eq_iff confirmation preview.digest).0 (ground arith),
                  current,
                  q,
                  (text_eq_iff current.digest preview.digest).0 (ground arith),
                )),
                apply_loop-Ran preview 1 (reversed preview.targets),
              )
              | inr differs ↦ rw differs (
                (λ h. absurd (h refl)),
                err-Ran preview 1 (reversed preview.targets) not_confirmed,
              )
            ]
