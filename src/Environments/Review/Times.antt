-- ===== src/Environments/Review/Times.antt =====
-- environment_classification.mts: the observable times of containers, and the last of them.
use rehearsal_db.Common.{
  nat, ℕ, ◌+◌, ◌*◌, ◌≤◌, ◌≡◌, refl, inl, inr, ◌↔◌, Bool, true, false, ◌&&◌, ◌||◌, Option, none,
  some, List, [], ◌∷◌, Text, leb, arith, All, In, any, Bool-cases, All-map, All-In, ap, subst,
}
use rehearsal_db.Environments.Review.{
  due, Observed, is_running, is_null, observable_container_time, millis, observed_times, latest,
  by_last, lacks_start, add_time,
}

add_time_iff :
    (P : Text → Type 0) (v : Option Text) (ts : List Text)
    → All P (add_time v ts) ↔ (((u : Text) → v ≡ some u → P u) × All P ts)
add_time_iff P none ts = ((λ h. ((λ u q. cc), h)), (λ h. h.1))
add_time_iff P (some t) ts =
    ((λ h. ((λ u q. subst P (some-injective q) h.0), h.1)), (λ h. (h.0 t refl, h.1)))
  where
    some-injective : {u : Text} → some t ≡ some u → t ≡ u
    some-injective q = cc

module _ (parse : Text → Option ℕ) where
  -- A start or stop, if it can be observed, is at least `c` seconds old.
  abbrev pub IsOld : ℕ → ℕ → Option Text → Type 0
  IsOld now c v =
      (u : Text) → observable_container_time parse v now ≡ some u → millis parse u + c * 1000 ≤ now

  pub observed_times_iff :
      (cs : List Observed) (now c : ℕ)
      → All (λ u. millis parse u + c * 1000 ≤ now) (observed_times parse cs now)
        ↔ All (λ x. IsOld now c x.started_at × IsOld now c x.finished_at) cs
  unfolding observed_times
  observed_times_iff [] now c = ((λ h. tt), (λ h. tt))
  observed_times_iff (y ∷ ys) now c =
      let P : Text → Type 0 = λ u. millis parse u + c * 1000 ≤ now in
      let started = add_time_iff P (observable_container_time parse y.started_at now) (
        add_time (observable_container_time parse y.finished_at now)
          (observed_times parse ys now)) in
      let finished =
        add_time_iff P (observable_container_time parse y.finished_at now)
          (observed_times parse ys now) in
      let more = observed_times_iff ys now c in
      (
        (λ h. let (a, k) = started.0 h in let (b, l) = finished.0 k in ((a, b), more.0 l)),
        (λ h. started.1 (h.0.0, finished.1 (h.0.1, more.1 h.1))),
      )

  -- The last time is one of them, and none is later.
  latest_lem :
      (t : Text) (ts : List Text)
      → (l : Text) × (latest parse (t ∷ ts) ≡ some l)
        × In l (t ∷ ts)
        × All (λ u. millis parse u ≤ millis parse l) (t ∷ ts)
  unfolding latest
  latest_lem t [] = (t, refl, inl refl, (omega arith, tt))
  latest_lem t (u ∷ ts) =
      let (l, e, i, a) = latest_lem u ts in
      elim (Bool-cases (leb (millis parse l) (millis parse t))) [
        | inl first ↦ (
          t,
          rw (e, first) refl,
          inl refl,
          (
            omega arith,
            All-map (λ v. millis parse v ≤ millis parse l) (λ v. millis parse v ≤ millis parse t)
                (u ∷ ts) (λ v h. ground arith) a,
          ),
        )
        | inr rest ↦ (l, rw (e, rest) refl, inr i, (ground arith, a))
      ]

  pub by_last-due_iff :
      (c now : ℕ) (t : Text) (ts : List Text)
      → ((by_last parse (nat c) now (latest parse (t ∷ ts))).state ≡ due)
        ↔ All (λ u. millis parse u + c * 1000 ≤ now) (t ∷ ts)
  by_last-due_iff c now t ts =
      let (l, e, i, a) = latest_lem t ts in
      rw e (elim (Bool-cases (leb (millis parse l + c * 1000) now)) [
        | inl old ↦ rw old (
          (λ _.
              All-map (λ u. millis parse u ≤ millis parse l) (λ u. millis parse u + c * 1000 ≤ now)
                (t ∷ ts) (λ u h. ground arith) a),
          (λ _. refl),
        )
        | inr young ↦ rw young (
          (λ h. cc),
          (λ h.
              let last = All-In (λ u. millis parse u + c * 1000 ≤ now) l (t ∷ ts) h i in
              absurd (ground arith)),
        )
      ])

  -- A running container that has an observable start gives a time.
  pub observed_times_pos :
      (cs : List Observed) (now : ℕ)
      → any (λ c. is_running c.running) cs ≡ true
      → lacks_start parse cs now ≡ false
      → (t : Text) × (ts : List Text) × (observed_times parse cs now ≡ t ∷ ts)
  unfolding observed_times
  observed_times_pos [] now r h = cc
  observed_times_pos (c ∷ cs) now r h =
      by_times (observable_container_time parse c.started_at now) refl
        (observable_container_time parse c.finished_at now) (λ e k. observed_times_pos cs now e k)
    where
      runs :
          (b : Option Bool)
          → observable_container_time parse c.started_at now ≡ none
          → (is_running b || any (λ x. is_running x.running) cs) ≡ true
          → (is_running b && is_null (observable_container_time parse c.started_at now)
              || lacks_start parse cs now)
            ≡ false
          → any (λ x. is_running x.running) cs ≡ true
      runs none e k l = k
      runs (some false) e k l = k
      runs (some true) e k l = let seen = ap is_null e in ground arith

      by_times :
          (started : Option Text)
          → observable_container_time parse c.started_at now ≡ started
          → (finished : Option Text)
          → (any (λ x. is_running x.running) cs ≡ true
              → lacks_start parse cs now ≡ false
              → (t : Text) × (ts : List Text) × (observed_times parse cs now ≡ t ∷ ts))
          → (t : Text) × (ts : List Text) × (add_time started
                (add_time finished (observed_times parse cs now))
              ≡ t ∷ ts)
      by_times (some t) e f again = (t, _, refl)
      by_times none e (some t) again = (t, _, refl)
      by_times none e none again = again (runs c.running e r h) (ground arith)
