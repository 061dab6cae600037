-- ===== src/Environments/Topology/Selecting.antt =====
-- What selectRuntimeTargets returns.
use rehearsal_db.Common.{
  ◌≤◌, ◌<◌, ◌≡◌, refl, sym, ap, subst, ◌∙◌, ◌≢◌, ◌⊎◌, inl, inr, true, false, not, ◌&&◌, Option,
  none, some, List, [], ◌∷◌, map, ok, guard, guard-eq-ok, >>-eq-ok, Text, text_eq, text_eq_iff,
  length, any, ltb, arith, All, All-map, In, Bool-cases, any-eq-false_iff,
}
use rehearsal_db.Environments.Topology.{
  RuntimeTopologyTarget, named, replaces, select_runtime_targets, not_configured, protected_target,
}
use rehearsal_db.Environments.Topology.Validity.{AllDistinct}

abbrev names : List RuntimeTopologyTarget → List Text
names ts = map (λ t. t.name) ts

named_here :
    (n : Text) (t : RuntimeTopologyTarget) (ts : List RuntimeTopologyTarget)
    → text_eq t.name n ≡ true
    → named (some n) (t ∷ ts) ≡ t ∷ named (some n) ts
named_here n t ts h = ground arith

named_past :
    (n : Text) (t : RuntimeTopologyTarget) (ts : List RuntimeTopologyTarget)
    → text_eq t.name n ≡ false
    → named (some n) (t ∷ ts) ≡ named (some n) ts
named_past n t ts h = ground arith

-- The targets of one name.
abbrev AllNamed : Text → List RuntimeTopologyTarget → List RuntimeTopologyTarget → Type 0
AllNamed n ts r = All (λ t. In t ts × (t.name ≡ n)) r

AllNamed-named : (n : Text) (ts : List RuntimeTopologyTarget) → AllNamed n ts (named (some n) ts)
AllNamed-named n [] = tt
AllNamed-named n (t ∷ ts) =
    let wider =
      All-map (λ u. In u ts × (u.name ≡ n)) (λ u. In u (t ∷ ts) × (u.name ≡ n)) (named (some n) ts)
        (λ u (i, e). (inr i, e)) (AllNamed-named n ts) in
    elim (Bool-cases (text_eq t.name n)) [
      | inl same ↦
          subst (AllNamed n (t ∷ ts)) (sym (named_here n t ts same))
            ((inl refl, (text_eq_iff t.name n).0 same), wider)
      | inr differs ↦ subst (AllNamed n (t ∷ ts)) (sym (named_past n t ts differs)) wider
    ]

-- Where no target has the name, none is selected.
named_none :
    (n : Text) (ts : List RuntimeTopologyTarget)
    → All (λ u. n ≢ u) (names ts)
    → named (some n) ts ≡ []
named_none n [] h = refl
named_none n (t ∷ ts) (p, h) = elim (Bool-cases (text_eq t.name n)) [
  | inl same ↦ absurd (p (sym ((text_eq_iff t.name n).0 same)))
  | inr differs ↦ named_past n t ts differs ∙ named_none n ts h
]

named_one :
    (n : Text) (ts : List RuntimeTopologyTarget)
    → AllDistinct (names ts)
    → length (named (some n) ts) ≤ 1
named_one n [] h = omega arith
named_one n (t ∷ ts) (p, h) = elim (Bool-cases (text_eq t.name n)) [
  | inl same ↦
      let others = subst (λ m. All (λ u. m ≢ u) (names ts)) ((text_eq_iff t.name n).0 same) p in
      let single = named_here n t ts same ∙ ap (λ l. t ∷ l) (named_none n ts others) in
      subst (λ l. length l ≤ 1) (sym single) (omega arith)
  | inr differs ↦ subst (λ l. length l ≤ 1) (sym (named_past n t ts differs)) (named_one n ts h)
]

-- The selected targets of a topology are some of its targets, at least one; none of them is
-- protected when the action replaces data; and a name selects exactly the one target that has it.
pub select_runtime_targets_sound :
    (ts : List RuntimeTopologyTarget) (name action : Option Text) (r : List RuntimeTopologyTarget)
    → AllDistinct (names ts)
    → select_runtime_targets ts name action ≡ ok r
    → (0 < length r)
      × (replaces action ≡ true → All (λ t. t.config.protected ≡ false) r)
      × (((name ≡ none) × (r ≡ ts))
          ⊎ ((n : Text) × (name ≡ some n) × (length r ≡ 1) × All (λ t. In t ts × (t.name ≡ n)) r))
unfolding select_runtime_targets
select_runtime_targets_sound ts name action r d h =
    let (some_left, h1) = >>-eq-ok (guard (ltb 0 (length (named name ts))) not_configured) _ h in
    let (open_targets, h2) =
      >>-eq-ok
        (guard
          (not (
            replaces action
            && any (λ (t : RuntimeTopologyTarget). t.config.protected) (named name ts)))
          protected_target)
        (ok (named name ts)) h1 in
    let same : named name ts ≡ r = cc in
    let positive = guard-eq-ok _ _ some_left in
    let fine = guard-eq-ok _ _ open_targets in
    subst (IsSelection ts name action) same (
      ground arith,
      (λ replacing.
          (any-eq-false_iff (λ (t : RuntimeTopologyTarget). t.config.protected) (named name ts)).0
            (ground arith)),
      by_name name positive,
    )
  where
    IsSelection :
        List RuntimeTopologyTarget → Option Text → Option Text → List RuntimeTopologyTarget → Type 0
    IsSelection ts name action r =
        (0 < length r)
        × (replaces action ≡ true → All (λ t. t.config.protected ≡ false) r)
        × (((name ≡ none) × (r ≡ ts))
            ⊎ ((n : Text) × (name ≡ some n) × (length r ≡ 1) × AllNamed n ts r))

    by_name :
        (name : Option Text)
        → ltb 0 (length (named name ts)) ≡ true
        → ((name ≡ none) × (named name ts ≡ ts))
          ⊎ ((n : Text) × (name ≡ some n)
              × (length (named name ts) ≡ 1)
              × AllNamed n ts (named name ts))
    by_name none positive = inl (refl, refl)
    by_name (some n) positive =
        let most = named_one n ts d in inr (n, refl, ground arith, AllNamed-named n ts)
