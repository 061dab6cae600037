-- ===== src/Environments/Markers.antt =====
-- src/runtime/lifecycle/lifecycle_engine.mts: the receipt of a runtime, its rollback, and the
-- confirmation of candidate migrations. A marker maps each key to its value, which is `undefined`
-- where the key is missing; `none` is null, an array or no object.
use rehearsal_db.Common.{
  ℕ, ◌≡◌, refl, ◌⊎◌, inl, inr, ◌↔◌, Bool, true, false, ◌&&◌, Option, none, some, List, [], ◌∷◌,
  Result, ok, err, guard, Text, text_eq, ◌==◌, arith, if◌then◌else◌, All, all, Bool-cases, ap, In,
  subst,
}

pub data MarkerError : Type 0 where
  mismatch : MarkerError

module _ {V : Type 0} (object_is : V → V → Bool) where
  -- `Object.entries(expected).some(…)`, negated.
  unfoldable pub matches : List (Text × V) → (Text → V) → Bool
  matches expected marker = all (λ e. object_is (marker e.0) e.1) expected

  abbrev pub checked : List (Text × V) → Option (Text → V) → Result MarkerError (Text → V)
  checked expected none = err mismatch
  checked expected (some marker) = if matches expected marker then ok marker else err mismatch

  -- `read` is what reading, parsing and normalizing the file comes to, `err` where it throws.
  unfoldable pub read_matching_runtime_marker :
      {E : Type 0} → Result E (Option (Text → V)) → List (Text × V) → Result MarkerError (Text → V)
  unfolding matches
  read_matching_runtime_marker (err e) expected = err mismatch
  read_matching_runtime_marker (ok m) expected = checked expected m

  -- `validated` is what `validate` comes to on the marker, `err` where it throws.
  abbrev pub validated_marker :
      {E : Type 0} → Result MarkerError (Text → V) → ((Text → V) → Result E Bool) → Bool
  validated_marker (err e) validate = false
  validated_marker (ok m) validate = elim (validate m) [ ok b ↦ b | err e ↦ false ]

  unfoldable pub has_matching_runtime_marker :
      {E : Type 0}
      → Result E (Option (Text → V))
      → List (Text × V)
      → ((Text → V) → Result E Bool)
      → Bool
  unfolding read_matching_runtime_marker
  has_matching_runtime_marker read expected validate =
      validated_marker (read_matching_runtime_marker read expected) validate

  matches_iff :
      (expected : List (Text × V)) (marker : Text → V)
      → (matches expected marker ≡ true) ↔ All (λ e. object_is (marker e.0) e.1 ≡ true) expected
  unfolding matches
  matches_iff [] marker = ((λ h. tt), (λ h. refl))
  matches_iff (e ∷ es) marker = ground (arith, matches_iff es marker)

  -- A receipt matches exactly when it was read as an object that has each expected value, and the
  -- validation accepts it; an error on the way is no match.
  pub has_matching_runtime_marker_iff :
      {E : Type 0} (read : Result E (Option (Text → V))) (expected : List (Text × V))
      (validate : (Text → V) → Result E Bool)
      → (has_matching_runtime_marker read expected validate ≡ true) ↔ (
          (m : Text → V) × (read ≡ ok (some m))
          × All (λ e. object_is (m e.0) e.1 ≡ true) expected
          × (validate m ≡ ok true))
  unfolding has_matching_runtime_marker
  has_matching_runtime_marker_iff (err e) expected validate = ((λ h. cc), (λ (m, h, k, v). cc))
  has_matching_runtime_marker_iff (ok none) expected validate = ((λ h. cc), (λ (m, h, k, v). cc))
  has_matching_runtime_marker_iff {E} (ok (some m)) expected validate =
      elim (Bool-cases (matches expected m)) [
        | inl fits ↦ rw fits (
          (λ h. (m, refl, (matches_iff expected m).0 fits, by_validation (validate m) h)),
          (λ (n, e, k, v).
              let same : n ≡ m = cc in
              let accepted : validate m ≡ ok true = subst (λ q. validate q ≡ ok true) same v in
              rw accepted refl),
        )
        | inr differs ↦ rw differs (
          (λ h. cc),
          (λ (n, e, k, v).
              let same : n ≡ m = cc in
              let fits =
                (matches_iff expected m).1
                  (subst (λ q. All (λ x. object_is (q x.0) x.1 ≡ true) expected) same k) in
              cc),
        )
      ]
    where
      by_validation : (r : Result E Bool) → elim r [ ok b ↦ b | err e ↦ false ] ≡ true → r ≡ ok true
      by_validation (ok b) h = ap ok h
      by_validation (err e) h = cc

-- `assertCandidateConfirmation`; the confirmation is `none` where it is undefined.
abbrev pub confirms : Option Text → Text → Bool
confirms none digest = false
confirms (some c) digest = text_eq c digest

unfoldable pub assert_candidate_confirmation :
    ℕ → Text → Option Text → Bool → Result MarkerError (Unit {0})
assert_candidate_confirmation candidates digest confirmation allow_unconfirmed_empty =
    if allow_unconfirmed_empty && candidates == 0
    then ok tt
    else guard (confirms confirmation digest) mismatch

-- What is thrown by a runtime operation or its rollback: one error, or both of them.
pub data RuntimeError (E : Type 0) : Type 0 where
  thrown : E → RuntimeError E
  both : E → E → RuntimeError E

pub data Call : Type 0 where
  operate checkpoint rollback : Call

module _ {E A : Type 0} where
  abbrev pub rolled_back : E → Result E (Unit {0}) → List Call × Result (RuntimeError E) A
  rolled_back e (ok u) = (rollback ∷ [], err (thrown e))
  rolled_back e (err f) = (rollback ∷ [], err (both e f))

  -- The operation, the cancellation checkpoint and the rollback come to their arguments.
  unfoldable pub with_owned_runtime_rollback :
      Result E A → Result E (Unit {0}) → Result E (Unit {0}) → List Call × Result (RuntimeError E) A
  with_owned_runtime_rollback (ok a) (ok u) rolled = (operate ∷ checkpoint ∷ [], ok a)
  with_owned_runtime_rollback (ok a) (err e) rolled =
      (operate ∷ checkpoint ∷ (rolled_back e rolled).0, (rolled_back e rolled).1)
  with_owned_runtime_rollback (err e) c rolled =
      (operate ∷ (rolled_back e rolled).0, (rolled_back e rolled).1)

  -- What was called and thrown when the operation or the checkpoint threw `e`.
  abbrev pub IsRolledBack : E → Result E (Unit {0}) → List Call × Result (RuntimeError E) A → Type 0
  IsRolledBack e rolled r =
      In rollback r.0
      × (((rolled ≡ ok tt) × (r.1 ≡ err (thrown e)))
          ⊎ ((f : E) × (rolled ≡ err f) × (r.1 ≡ err (both e f))))

  -- The result is returned, and nothing rolled back, exactly when operation and checkpoint succeed;
  -- otherwise the runtime is rolled back, and the first error is reported, with that of the
  -- rollback beside it when the rollback throws as well.
  pub with_owned_runtime_rollback_lem :
      (operation : Result E A) (c rolled : Result E (Unit {0}))
      → ((a : A) × (operation ≡ ok a)
          × (c ≡ ok tt)
          × (with_owned_runtime_rollback operation c rolled ≡ (operate ∷ checkpoint ∷ [], ok a)))
        ⊎ ((e : E) × ((operation ≡ err e) ⊎ (((a : A) × (operation ≡ ok a)) × (c ≡ err e)))
            × IsRolledBack e rolled (with_owned_runtime_rollback operation c rolled))
  unfolding with_owned_runtime_rollback
  with_owned_runtime_rollback_lem (ok a) (ok tt) rolled = inl (a, refl, refl, refl)
  with_owned_runtime_rollback_lem (ok a) (err e) (ok tt) =
      inr (e, inr ((a, refl), refl), (inr (inr (inl refl)), inl (refl, refl)))
  with_owned_runtime_rollback_lem (ok a) (err e) (err f) =
      inr (e, inr ((a, refl), refl), (inr (inr (inl refl)), inr (f, refl, refl)))
  with_owned_runtime_rollback_lem (err e) c (ok tt) =
      inr (e, inl refl, (inr (inl refl), inl (refl, refl)))
  with_owned_runtime_rollback_lem (err e) c (err f) =
      inr (e, inl refl, (inr (inl refl), inr (f, refl, refl)))
