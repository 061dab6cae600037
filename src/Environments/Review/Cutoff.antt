-- ===== src/Environments/Review/Cutoff.antt =====
-- When an environment is due: evaluateObservableEnvironmentReview against all observable times.
use rehearsal_db.Common.{
  Number, max_safe_integer, nat, other, ℕ, ◌+◌, ◌*◌, ◌≤◌, ◌≡◌, refl, inl, inr, ◌↔◌, Bool, true,
  false, not, ◌&&◌, Option, none, some, List, [], ◌∷◌, Text, leb, arith, All, any, Bool-cases,
  subst, sym,
}
use rehearsal_db.Environments.Review.{
  due, unknown, Observed, is_running, is_boolean, is_null, observable_container_time, millis,
  observed_times, latest, by_last, lacks_start, evaluate_observable_environment_review,
  EnvironmentProvenance, presence_unknown, compatible, presence_of, classify_configured_environment,
  is_count,
}
use rehearsal_db.Environments.Review.Times.{
  IsOld, by_last-due_iff, observed_times_iff, observed_times_pos,
}

module _ (parse : Text → Option ℕ) where
  -- Every state of a container is known, and every running one has an observable start.
  abbrev pub IsKnown : ℕ → Observed → Type 0
  IsKnown now c =
      (is_boolean c.running ≡ true)
      × ((is_running c.running && is_null (observable_container_time parse c.started_at now))
          ≡ false)

  IsKnown-iff :
      (now : ℕ) (cs : List Observed)
      → All (IsKnown now) cs
        ↔ ((any (λ x. not (is_boolean x.running)) cs ≡ false) × (lacks_start parse cs now ≡ false))
  IsKnown-iff now [] = ((λ h. (refl, refl)), (λ h. tt))
  IsKnown-iff now (c ∷ cs) = ground (arith, IsKnown-iff now cs)

  nat-injective : {c x : ℕ} → some (nat c) ≡ some (nat x) → c ≡ x
  nat-injective e = cc

  some-injective : {t u : ℕ} → some t ≡ some u → t ≡ u
  some-injective e = cc

  known_of :
      {t u : ℕ} (cs : List Observed)
      → t ≡ u
      → All (IsKnown u) cs
      → (any (λ x. not (is_boolean x.running)) cs ≡ false) × (lacks_start parse cs t ≡ false)
  known_of {t} cs e h = (IsKnown-iff t cs).0 (subst (λ v. All (IsKnown v) cs) (sym e) h)

  IsOld-of :
      {c x t u : ℕ} (cs : List Observed)
      → c ≡ x
      → t ≡ u
      → All (λ v. IsOld parse u x v.started_at × IsOld parse u x v.finished_at) cs
      → All (λ v. IsOld parse t c v.started_at × IsOld parse t c v.finished_at) cs
  IsOld-of {c} {x} {t} {u} cs ec et h =
      subst (λ d. All (λ v. IsOld parse t d v.started_at × IsOld parse t d v.finished_at) cs)
        (sym ec)
        (subst (λ w. All (λ v. IsOld parse w x v.started_at × IsOld parse w x v.finished_at) cs)
          (sym et) h)

  -- The verdict on the last observed time is one on all of them.
  verdict_iff :
      (c t : ℕ) (cs : List Observed) (u : Text) (us : List Text)
      → observed_times parse cs t ≡ u ∷ us
      → ((by_last parse (nat c) t (latest parse (observed_times parse cs t))).state ≡ due)
        ↔ All (λ v. IsOld parse t c v.started_at × IsOld parse t c v.finished_at) cs
  verdict_iff c t cs u us e =
      let verdict =
        subst
          (λ l.
            ((by_last parse (nat c) t (latest parse l)).state ≡ due)
            ↔ All (λ v. millis parse v + c * 1000 ≤ t) l)
          (sym e) (by_last-due_iff parse c t u us) in
      let times = observed_times_iff parse cs t c in
      ((λ h. times.0 (verdict.0 h)), (λ h. verdict.1 (times.1 h)))

  -- An environment is due exactly when it was inspected with a cutoff of whole seconds at a valid
  -- date, some container runs, the state of all is known, and no start or stop that can be observed
  -- is younger than the cutoff.
  pub evaluate_observable_environment_review-due_iff :
      (available : Bool) (stale : Option Number) (cs : List Observed) (now : Option ℕ)
      → ((evaluate_observable_environment_review parse available stale cs now).state ≡ due) ↔ (
          (available ≡ true)
          × (c : ℕ) × (stale ≡ some (nat c))
          × (1 ≤ c)
          × (c ≤ max_safe_integer)
          × (t : ℕ) × (now ≡ some t)
          × (any (λ x. is_running x.running) cs ≡ true)
          × All (IsKnown t) cs
          × All (λ x. IsOld parse t c x.started_at × IsOld parse t c x.finished_at) cs)
  unfolding evaluate_observable_environment_review
  evaluate_observable_environment_review-due_iff false stale cs now =
      ((λ h. cc), (λ w. let e : false ≡ true = w.0 in cc))
  evaluate_observable_environment_review-due_iff true none cs now =
      ((λ h. cc), (λ w. let q = w.2 in cc))
  evaluate_observable_environment_review-due_iff true (some other) cs none =
      ((λ h. cc), (λ w. let q = w.2 in cc))
  evaluate_observable_environment_review-due_iff true (some other) cs (some t) =
      ((λ h. cc), (λ w. let q = w.2 in cc))
  evaluate_observable_environment_review-due_iff true (some (nat c)) cs none =
      ((λ h. cc), (λ w. let q = w.6 in cc))
  evaluate_observable_environment_review-due_iff true (some (nat c)) cs (some t) =
      elim (Bool-cases (leb 1 c && leb c max_safe_integer)) [
        | inr bad ↦ rw bad (
          (λ h. cc),
          (λ w.
              let same = nat-injective w.2 in
              let low = w.3 in let high = w.4 in absurd (ground arith)),
        )
        | inl good ↦ elim (Bool-cases (any (λ (x : Observed). not (is_boolean x.running)) cs)) [
          | inl vague ↦
              rw (good, vague)
                ((λ h. cc), (λ w. let known = (known_of cs (some-injective w.6) w.8).0 in cc))
          | inr clear ↦ elim (Bool-cases (any (λ (x : Observed). is_running x.running) cs)) [
            | inr idle ↦ rw (good, clear, idle) ((λ h. cc), (λ w. let q = w.7 in cc))
            | inl runs ↦ elim (Bool-cases (lacks_start parse cs t)) [
              | inl lacks ↦
                  rw (good, clear, runs, lacks)
                    ((λ h. cc), (λ w. let known = (known_of cs (some-injective w.6) w.8).1 in cc))
              | inr fine ↦
                  let (u, us, e) = observed_times_pos parse cs t runs fine in
                  rw (good, clear, runs, fine)
                    (
                      (λ h. (
                        refl,
                        c,
                        refl,
                        ground arith,
                        ground arith,
                        t,
                        refl,
                        refl,
                        (IsKnown-iff t cs).1 (clear, fine),
                        (verdict_iff c t cs u us e).0 h,
                      )),
                      (λ w.
                          (verdict_iff c t cs u us e).1
                            (IsOld-of cs (nat-injective w.2) (some-injective w.6) w.9)),
                    )
            ]
          ]
        ]
      ]

  -- An environment whose presence is unknown is not reviewed, and a receipt is compatible exactly
  -- when it is valid, bound to the baseline, and records a provider.
  pub classify_configured_environment_lem :
      (inspected : Bool) (containers volumes : Number) (p : EnvironmentProvenance) (provider : Bool)
      (stale : Option Number) (cs : List Observed) (now : Option ℕ)
      → ((classify_configured_environment parse inspected containers volumes p provider stale cs
              now).presence
            ≡ presence_unknown
          → (classify_configured_environment parse inspected containers volumes p provider stale cs
              now).observed.state
            ≡ unknown)
        × (((classify_configured_environment parse inspected containers volumes p provider stale cs
                now).receipt.0
              ≡ compatible)
            ↔ ((p.is_invalid ≡ false) × (p.runtime ≡ some false) × (provider ≡ true)))
  unfolding classify_configured_environment
  classify_configured_environment_lem inspected containers volumes p provider stale cs now =
      (by_available (inspected && (is_count containers && is_count volumes)), ground arith)
    where
      by_available :
          (available : Bool)
          → presence_of available containers volumes ≡ presence_unknown
          → (evaluate_observable_environment_review parse available stale cs now).state ≡ unknown
      by_available false h = refl
      by_available true h = ground arith
