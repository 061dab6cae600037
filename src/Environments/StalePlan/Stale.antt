-- ===== src/Environments/StalePlan/Stale.antt =====
-- createStopStalePlan: what holds of a target that one round of the loop selects.
use rehearsal_db.Common.{
  ◌↔◌, insert_by, sort_by, In-sort_by_iff, In-map, In-map_cases, length, length-sort_by, length-map,
  Number, nat, ℕ, ◌≤◌, ◌≡◌, refl, sym, ap, subst, ◌∙◌, ◌⊎◌, inl, inr, Bool, true, false, ◌||◌,
  Option, none, some, List, [], ◌∷◌, map, Result, ok, err, guard, guard-eq-ok, >>=-eq-ok, >>-eq-ok,
  Text, arith, All, In, any, any-eq-false_iff, All-In,
}
use rehearsal_db.Environments.Review.{
  is_running, observable_container_time, State, due, not_due, disabled, unknown,
  evaluate_observable_environment_review, observable,
}
use rehearsal_db.Environments.Review.Times.{IsOld}
use rehearsal_db.Environments.Review.Cutoff.{evaluate_observable_environment_review-due_iff}
use rehearsal_db.Environments.StalePlan.{
  RuntimeTarget, Container, Binding, StopStaleTarget, Skipped, SkipReason, PlanError, label_differs,
  owned_by, conflicts, complete_evidence, skip_reason, insert, sort_bindings, observed_of,
  require_container_target, binding, by_review, by_reason, review_target, incomplete_evidence,
}

-- The order of bindings, that of their ids.
abbrev by_id : (Text → Text → Bool) → Binding → Binding → Bool
by_id before b c = before b.id c.id

insert_lem :
    (before : Text → Text → Bool) (b : Binding) (bs : List Binding)
    → insert before b bs ≡ insert_by (by_id before) b bs
unfolding insert insert_by
insert_lem before b [] = refl
insert_lem before b (c ∷ cs) = ground (arith, insert_lem before b cs)

sort_bindings_lem :
    (before : Text → Text → Bool) (bs : List Binding)
    → sort_bindings before bs ≡ sort_by (by_id before) bs
unfolding sort_bindings sort_by
sort_bindings_lem before [] = refl
sort_bindings_lem before (b ∷ bs) =
    insert_lem before b (sort_bindings before bs)
    ∙ ap (insert_by (by_id before) b) (sort_bindings_lem before bs)

In-sort_bindings_iff :
    (before : Text → Text → Bool) (bs : List Binding) (x : Binding)
    → In x (sort_bindings before bs) ↔ In x bs
In-sort_bindings_iff before bs x =
    subst (λ l. In x l ↔ In x bs) (sym (sort_bindings_lem before bs))
      (In-sort_by_iff (by_id before) x bs)

-- A reason is missing only when there is a cutoff, no conflict, and a running container.
skip_reason-eq-none :
    (stale : Option Number) (conflict : Bool) (owned : List Container)
    → skip_reason stale conflict owned ≡ none
    → (c : Number) × (stale ≡ some c)
      × (conflict ≡ false)
      × (any (λ x. is_running x.running) owned ≡ true)
unfolding skip_reason
skip_reason-eq-none none conflict owned h = cc
skip_reason-eq-none (some c) true owned h = cc
skip_reason-eq-none (some c) false owned h = (c, refl, refl, ground arith)

-- The selected target of a result, or `b`.
abbrev of_selected {ℓ} :
    {B : Type ℓ} → (StopStaleTarget → B) → B → Result PlanError (Skipped ⊎ StopStaleTarget) → B
of_selected f b (err e) = b
of_selected f b (ok (inl s)) = b
of_selected f b (ok (inr s)) = f s

module _ (parse : Text → Option ℕ) (before : Text → Text → Bool) where
  observable-eq-some :
      (w : Text) (now : ℕ) (o : Option ℕ) (u : Text) → observable parse w now o ≡ some u → w ≡ u
  observable-eq-some w now none u h = cc
  observable-eq-some w now (some t) u h = ground arith

  -- `observableContainerTime` leaves an observable time as it is.
  observable_container_time-again :
      (v : Option Text) (now : ℕ) (u : Text)
      → observable_container_time parse v now ≡ some u
      → observable_container_time parse (some u) now ≡ some u
  unfolding observable_container_time
  observable_container_time-again none now u h = cc
  observable_container_time-again (some w) now u h =
      subst (λ v. observable_container_time parse (some v) now ≡ some u)
        (observable-eq-some w now (parse w) u h) h

  by_review_sound :
      (t : RuntimeTarget) (cutoff : Number) (bs : List Binding) (st : State) (last : Option Text)
      (s : StopStaleTarget)
      → by_review parse before t cutoff bs st last ≡ ok (inr s)
      → (st ≡ due)
        × (s.target ≡ t.name)
        × (s.project_id ≡ t.project_id)
        × (s.stale_after_seconds ≡ cutoff)
        × (s.containers ≡ bs)
  by_review_sound t cutoff bs unknown last s h = cc
  by_review_sound t cutoff bs not_due last s h = cc
  by_review_sound t cutoff bs disabled last s h = cc
  by_review_sound t cutoff bs due none s h = cc
  by_review_sound t cutoff bs due (some l) s h =
      let (p, ep, e) = >>=-eq-ok (require_container_target t.kind) _ h in
      (
        refl,
        sym (ap (of_selected (λ z. z.target) []) e),
        sym (ap (of_selected (λ z. z.project_id) []) e),
        sym (ap (of_selected (λ z. z.stale_after_seconds) cutoff) e),
        sym (ap (of_selected (λ z. z.containers) []) e),
      )

  IsOld-again :
      (now c : ℕ) (v : Option Text)
      → IsOld parse now c (observable_container_time parse v now)
      → IsOld parse now c v
  IsOld-again now c v h u e = h u (rw e (observable_container_time-again v now u e))

  -- What is true of a selected target `s` that comes from `t`.
  pub record IsStale (now : ℕ) (cs : List Container) (t : RuntimeTarget) (s : StopStaleTarget)
      : Type 0 where
    pub name : s.target ≡ t.name
    pub project : s.project_id ≡ t.project_id
    pub cutoff : ℕ
    pub given : t.stale_after_seconds ≡ some (nat cutoff)
    pub positive : 1 ≤ cutoff
    pub agreed :
        All
          (λ c.
            (label_differs t.project_id c.supabase_label
              || label_differs t.project_id c.rehearsal_label)
            ≡ false)
          (owned_by t cs)
    pub evidence : complete_evidence (owned_by t cs) ≡ true
    pub runs : any (λ c. is_running c.running) (owned_by t cs) ≡ true
    pub old :
        (c : Container)
        → In c (owned_by t cs)
        → IsOld parse now cutoff c.started_at × IsOld parse now cutoff c.finished_at
    pub bound :
        (b : Binding)
        → In b s.containers
          ↔ ((c : Container) × In c (owned_by t cs) × (binding parse before now c ≡ b))
    pub counted : length s.containers ≡ length (owned_by t cs)

  by_reason_sound :
      (now : ℕ) (cs : List Container) (t : RuntimeTarget) (s : StopStaleTarget)
      (stale : Option Number) (reason : Option SkipReason)
      → t.stale_after_seconds ≡ stale
      → skip_reason stale (conflicts t.project_id (owned_by t cs)) (owned_by t cs) ≡ reason
      → by_reason parse before now t (owned_by t cs) stale reason ≡ ok (inr s)
      → IsStale now cs t s
  unfolding binding conflicts
  by_reason_sound now cs t s stale (some r) es er h = cc
  by_reason_sound now cs t s none none es er h = cc
  by_reason_sound now cs t s (some c) none es er h =
      let owned = owned_by t cs in
      let bs = sort_bindings before (map (binding parse before now) owned) in
      let (ce, selected) = >>-eq-ok (guard (complete_evidence owned) incomplete_evidence) _ h in
      let (_, _, conflict, runs) =
        skip_reason-eq-none (some c) (conflicts t.project_id owned) owned er in
      let r =
        evaluate_observable_environment_review parse true (some c) (map observed_of bs)
          (some now) in
      let (d, en, ep, _, eb) =
        by_review_sound t c bs r.state r.last_observable_activity_at s selected in
      let (_, n, q, low, _, at, same_now, _, _, times) =
        (evaluate_observable_environment_review-due_iff parse true (some c) (map observed_of bs)
            (some now)).0
          d in
      let today : at ≡ now = cc in
      let old =
        subst
          (λ w.
            All (λ x. IsOld parse w n x.started_at × IsOld parse w n x.finished_at)
              (map observed_of bs))
          today times in
      record {
        name = en;
        project = ep;
        cutoff = n;
        given = es ∙ q;
        positive = low;
        agreed =
            (any-eq-false_iff
                (λ (x : Container).
                  label_differs t.project_id x.supabase_label
                  || label_differs t.project_id x.rehearsal_label)
                owned).0
              conflict;
        evidence = guard-eq-ok _ _ ce;
        runs = runs;
        old = λ x i.
            let (a, b) =
              All-In (λ y. IsOld parse now n y.started_at × IsOld parse now n y.finished_at)
                (observed_of (binding parse before now x)) (map observed_of bs) old
                (In-map observed_of (binding parse before now x) bs (member x i)) in
            (IsOld-again now n x.started_at a, IsOld-again now n x.finished_at b);
        bound = λ b.
            let (into, out) =
              In-sort_bindings_iff before (map (binding parse before now) owned) b in
            subst (λ l. In b l ↔ IsBindingOf b) (sym eb)
              (
                (λ i. In-map_cases (binding parse before now) b owned (into i)),
                (λ (c, i, same). out (
                    subst (λ b. In b (map (binding parse before now) owned)) same
                      (In-map (binding parse before now) c owned i))),
              );
        counted =
            ap length (eb ∙ sort_bindings_lem before (map (binding parse before now) owned))
            ∙ length-sort_by (by_id before) (map (binding parse before now) owned)
            ∙ length-map (binding parse before now) owned;
      }
    where
      member :
          (x : Container)
          → In x (owned_by t cs)
          → In
              (binding parse before now x)
              (sort_bindings before (map (binding parse before now) (owned_by t cs)))
      member x i =
          (In-sort_bindings_iff before (map (binding parse before now) (owned_by t cs))
              (binding parse before now x)).1
            (In-map (binding parse before now) x (owned_by t cs) i)

      IsBindingOf : Binding → Type 0
      IsBindingOf b = (c : Container) × In c (owned_by t cs) × (binding parse before now c ≡ b)

  pub review_target_sound :
      (now : ℕ) (cs : List Container) (t : RuntimeTarget) (s : StopStaleTarget)
      → review_target parse before now cs t ≡ ok (inr s)
      → IsStale now cs t s
  unfolding review_target
  review_target_sound now cs t s h =
      by_reason_sound now cs t s t.stale_after_seconds
        (skip_reason t.stale_after_seconds (conflicts t.project_id (owned_by t cs)) (owned_by t cs))
        refl refl h
