-- ===== src/Environments/Lifecycle.antt =====
-- src/runtime/lifecycle/lifecycle_engine.mts: the operations that an action runs, the rollback of a
-- runtime that fails, and the confirmation of candidates. `perform` is what each operation comes to;
-- a run calls none of them twice. The list beside a result is what was called, in order.
use rehearsal_db.Common.{
  ◌≡◌, refl, ◌⊎◌, inl, inr, ◌↔◌, Bool, true, false, ◌&&◌, ◌||◌, Option, none, some, List, [], ◌∷◌,
  ◌++◌, ap, Result, ok, err, Text, text_eq, codes, arith, if◌then◌else◌, All, Bool-cases, All-In,
  subst, In-append_right,
}

pub data Operation : Type 0 where
  reset start status candidates migrate verify stop discard : Operation

pub data LifecycleError (E : Type 0) : Type 0 where
  protected_environment : LifecycleError E
  unknown_action : LifecycleError E
  failed : E → LifecycleError E

-- The switch of `runRuntimeLifecycle`.
unfoldable pub operations_of : Text → Option (List Operation)
operations_of a =
    if text_eq a (codes "reset")
    then some (reset ∷ [])
    else if text_eq a (codes "start")
    then some (start ∷ [])
    else if text_eq a (codes "status")
    then some (status ∷ [])
    else if text_eq a (codes "candidates")
    then some (candidates ∷ [])
    else if text_eq a (codes "migrate")
    then some (migrate ∷ [])
    else if text_eq a (codes "verify")
    then some (verify ∷ [])
    else if text_eq a (codes "run")
    then some (reset ∷ migrate ∷ verify ∷ [])
    else if text_eq a (codes "stop")
    then some (stop ∷ [])
    else if text_eq a (codes "discard")
    then some (discard ∷ [])
    else none

-- `["reset", "run", "migrate", "discard"].includes(action)`
unfoldable pub replaces_data : Text → Bool
replaces_data a =
    text_eq a (codes "reset")
    || text_eq a (codes "run")
    || text_eq a (codes "migrate")
    || text_eq a (codes "discard")

module _ {E : Type 0} (perform : Operation → Result E (Unit {0})) where
  -- A call, by what it comes to and what comes after it.
  abbrev pub then_run :
      Operation
      → Result E (Unit {0})
      → List Operation × Result (LifecycleError E) (Unit {0})
      → List Operation × Result (LifecycleError E) (Unit {0})
  then_run o (ok u) rest = (o ∷ rest.0, rest.1)
  then_run o (err e) rest = (o ∷ [], err (failed e))

  -- One operation after the other, until one throws.
  unfoldable pub run_all : List Operation → List Operation × Result (LifecycleError E) (Unit {0})
  run_all [] = ([], ok tt)
  run_all (o ∷ os) = then_run o (perform o) (run_all os)

  abbrev pub run_switch :
      Option (List Operation) → List Operation × Result (LifecycleError E) (Unit {0})
  run_switch none = ([], err unknown_action)
  run_switch (some os) = run_all os

  unfoldable pub run_runtime_lifecycle :
      Bool → Text → List Operation × Result (LifecycleError E) (Unit {0})
  unfolding operations_of replaces_data run_all
  run_runtime_lifecycle protected action =
      if protected && replaces_data action
      then ([], err protected_environment)
      else run_switch (operations_of action)

-- The operations that replace or delete data.
abbrev pub is_destructive : Operation → Bool
is_destructive reset = true
is_destructive migrate = true
is_destructive discard = true
is_destructive _ = false

harmless-operations_of :
    (a : Text)
    → replaces_data a ≡ false
    → (operations_of a ≡ none)
      ⊎ ((o : Operation) × (operations_of a ≡ some (o ∷ [])) × (is_destructive o ≡ false))
unfolding operations_of replaces_data
harmless-operations_of a r = ground arith

module _ {E : Type 0} (perform : Operation → Result E (Unit {0})) where
  -- Either all operations are called and succeed, or they are called up to the first that throws.
  abbrev pub Ran : List Operation → List Operation × Result (LifecycleError E) (Unit {0}) → Type 0
  Ran os r =
      ((r ≡ (os, ok tt)) × All (λ o. perform o ≡ ok tt) os)
      ⊎ ((before : List Operation) × (o : Operation) × (after : List Operation) × (e : E) × (os
            ≡ before ++ o ∷ after)
          × (r ≡ (before ++ o ∷ [], err (failed e)))
          × All (λ p. perform p ≡ ok tt) before
          × (perform o ≡ err e))

  pub run_all_lem : (os : List Operation) → Ran os (run_all perform os)
  unfolding run_all
  run_all_lem [] = inl (refl, tt)
  run_all_lem (o ∷ os) = by_result (perform o) refl (run_all_lem os)
    where
      by_result :
          (r : Result E (Unit {0}))
          → perform o ≡ r
          → Ran os (run_all perform os)
          → Ran (o ∷ os) (run_all perform (o ∷ os))
      by_result (err e) q h = inr ([], o, os, e, refl, rw (run_all, q) refl, tt, q)
      by_result (ok u) q (inl (e, a)) = inl (rw (run_all, q, e) refl, (q, a))
      by_result (ok u) q (inr (before, p, after, f, es, er, a, n)) =
          inr (o ∷ before, p, after, f, ap (λ l. o ∷ l) es, rw (run_all, q, er) refl, (q, a), n)

  -- In a protected environment no action, whatever its name, resets, migrates or discards.
  pub run_runtime_lifecycle-protected :
      (action : Text)
      → All (λ o. is_destructive o ≡ false) (run_runtime_lifecycle perform true action).0
  unfolding run_runtime_lifecycle run_all
  run_runtime_lifecycle-protected action = elim (Bool-cases (replaces_data action)) [
    | inl refused ↦ rw refused tt
    | inr other ↦ elim (harmless-operations_of action other) [
      | inl unknown ↦ rw (other, unknown) tt
      | inr (o, e, h) ↦ rw (other, e) (one o (perform o) h)
    ]
  ]
    where
      one :
          (o : Operation) (r : Result E (Unit {0}))
          → is_destructive o ≡ false
          → All (λ p. is_destructive p ≡ false) (then_run perform o r ([], ok tt)).0
      one o (ok u) h = (h, tt)
      one o (err e) h = (h, tt)

  -- An action succeeds exactly when it is one of the known ones, is not refused by the protection,
  -- and each of its operations succeeds.
  pub run_runtime_lifecycle-eq-ok_iff :
      (protected : Bool) (action : Text)
      → ((run_runtime_lifecycle perform protected action).1 ≡ ok tt) ↔ (
          (os : List Operation) × (operations_of action ≡ some os)
          × ((protected && replaces_data action) ≡ false)
          × All (λ o. perform o ≡ ok tt) os)
  unfolding run_runtime_lifecycle
  run_runtime_lifecycle-eq-ok_iff protected action =
      elim (Bool-cases (protected && replaces_data action)) [
        | inl refused ↦ rw refused ((λ h. cc), (λ (os, e, n, a). cc))
        | inr allowed ↦ rw allowed (by_switch (operations_of action))
      ]
    where
      clash :
          (before : List Operation) (o : Operation) (after : List Operation) (f : E)
          (qs : List Operation) {os : List Operation}
          → os ≡ before ++ o ∷ after
          → some os ≡ some qs
          → All (λ p. perform p ≡ ok tt) qs
          → perform o ≡ err f
          → ⊥
      clash before o after f qs {os} es e all_ok n =
          let same : qs ≡ before ++ o ∷ after = cc in
          let called =
            All-In (λ p. perform p ≡ ok tt) o (before ++ o ∷ after)
              (subst (All (λ p. perform p ≡ ok tt)) same all_ok)
              (In-append_right o before (o ∷ after) (inl refl)) in
          cc

      by_switch :
          (known : Option (List Operation))
          → ((run_switch perform known).1 ≡ ok tt) ↔ (
              (os : List Operation) × (known ≡ some os)
              × (false ≡ false)
              × All (λ o. perform o ≡ ok tt) os)
      by_switch none = ((λ h. cc), (λ (os, e, n, a). cc))
      by_switch (some os) = elim (run_all_lem os) [
        | inl (e, a) ↦ rw e ((λ h. (os, refl, refl, a)), (λ h. refl))
        | inr (before, o, after, f, es, er, a, n) ↦
            rw er
              ((λ h. cc), (λ (qs, e, x, all_ok). absurd (clash before o after f qs es e all_ok n)))
      ]
