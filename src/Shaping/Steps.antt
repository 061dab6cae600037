-- ===== src/Shaping/Steps.antt =====
-- src/source/shaping/shape_sampler.mts: the steps of the sampler as additions of rows.
use rehearsal_db.Common.{
  true, false, text_eq, ℕ, ◌+◌, ◌≡◌, refl, ap, subst, ◌∙◌, ◌⊎◌, inl, inr, not, List, [], ◌∷◌, ok,
  guard, guard-eq-ok, >>=-eq-ok, >>-eq-ok, Text, length, keep, leb, arith, All, any, if-cases,
  sort_by,
}
use rehearsal_db.Shaping.Keys.{required_absent}
use rehearsal_db.Shaping.Policy.{
  ShapeTable, BaselineShapePolicy, declaration_of, table_identity, joint_first,
}
use rehearsal_db.Shaping.Profiling.{ShapeProfiles}
use rehearsal_db.Shaping.Index.{IndexedRow, Primitives, rows_of}
use rehearsal_db.Shaping.Selection.{
  Selection, identity, is_selected, within, inserted, add, add_all, add_until, add_required,
}
use rehearsal_db.Shaping.Roots.{find_goal, min, by_rank, add_goal, add_roots}

-- What an insertion was checked against.
abbrev pub IsInserted : BaselineShapePolicy → IndexedRow → ℕ → Selection → Selection → Type 0
IsInserted policy r depth s t =
    (is_selected (identity r) s.selected ≡ false)
    × (leb depth policy.maximum_depth ≡ true)
    × (leb (length s.selected + 1) policy.maximum_rows ≡ true)
    × (within (s.counts r.table + 1) (declaration_of r.table policy.tables) ≡ true)
    × (t ≡ inserted policy r depth s)

pub add-cases :
    (policy : BaselineShapePolicy) (r : IndexedRow) (depth : ℕ) (s t : Selection)
    → add policy r depth s ≡ ok t
    → ((is_selected (identity r) s.selected ≡ true) × (t ≡ s)) ⊎ IsInserted policy r depth s t
unfolding add
add-cases policy r depth s t h = ground arith

module _ (policy : BaselineShapePolicy) (I : Selection → Type 0) (P : IndexedRow → Type 0)
    (kept : (r : IndexedRow) (depth : ℕ) (s t : Selection)
      → P r
      → add policy r depth s ≡ ok t
      → I s
      → I t) where
  pub add_all-kept :
      (rs : List IndexedRow) (depth : ℕ) (s t : Selection)
      → All P rs
      → add_all policy rs depth s ≡ ok t
      → I s
      → I t
  unfolding add_all
  add_all-kept [] depth s t ps h i = let same : s ≡ t = cc in subst I same i
  add_all-kept (r ∷ rs) depth s t (q, ps) h i =
      let (u, e, h') = >>=-eq-ok (add policy r depth s) _ h in
      add_all-kept rs depth u t ps h' (kept r depth s u q e i)

  pub add_until-kept :
      (table : Text) (budget : ℕ) (rs : List IndexedRow) (s t : Selection)
      → All P rs
      → add_until policy table budget rs s ≡ ok t
      → I s
      → I t
  unfolding add_until
  add_until-kept table budget [] s t ps h i = let same : s ≡ t = cc in subst I same i
  add_until-kept table budget (r ∷ rs) s t (q, ps) h i =
      elim (if-cases (leb budget (s.counts table)) _ _ _ h) [
        | inl (full, e) ↦ let same : s ≡ t = cc in subst I same i
        | inr (short, e) ↦
            let (u, e', h') = >>=-eq-ok (add policy r 0 s) _ e in
            add_until-kept table budget rs u t ps h' (kept r 0 s u q e' i)
      ]

  pub add_required-kept :
      (sha256 : Text → Text) (rs : List IndexedRow) (required : List Text) (s t : Selection)
      (left : List Text)
      → All P rs
      → add_required policy sha256 required rs s ≡ ok (left, t)
      → I s
      → I t
  unfolding add_required
  add_required-kept sha256 [] required s t left ps h i = let same : s ≡ t = cc in subst I same i
  add_required-kept sha256 (r ∷ rs) required s t left (q, ps) h i =
      elim (if-cases (any (text_eq (sha256 r.key)) required) _ _ _ h) [
        | inl (known, e) ↦
            let (u, e', h') = >>=-eq-ok (add policy r 0 s) _ e in
            add_required-kept sha256 rs (keep (λ d. not (text_eq (sha256 r.key) d)) required) u t
              left ps h' (kept r 0 s u q e' i)
        | inr (unknown, e) ↦ add_required-kept sha256 rs required s t left ps e i
      ]

pub All_of : {A : Type 0} (P : A → Type 0) → ((a : A) → P a) → (xs : List A) → All P xs
All_of P every [] = tt
All_of P every (x ∷ xs) = (every x, All_of P every xs)

nothing_left : (l : List Text) → leb (length l) 0 ≡ true → l ≡ []
nothing_left [] h = refl
nothing_left (x ∷ l) h = ground arith

module _ (p : Primitives) (profiles : ShapeProfiles) (policy : BaselineShapePolicy) where
  abbrev pub ranked : List IndexedRow → ShapeTable → List IndexedRow
  ranked rows d =
      sort_by (by_rank p profiles policy) (rows_of (table_identity d.schema d.name) rows)

  abbrev pub budget : List IndexedRow → ShapeTable → ℕ
  budget rows d = min d.root_rows (length (ranked rows d))

  -- The required rows, which leave no digest, those of a goal, and the rest of the budget.
  pub add_roots-stages :
      (rows : List IndexedRow) (d : ShapeTable) (s t : Selection)
      → add_roots p profiles policy rows d s ≡ ok t
      → (u : Selection) × (v : Selection) × (add_required policy p.sha256 d.required_key_sha256
            (ranked rows d)
            s
          ≡ ok ([], u))
        × (add_goal p profiles policy
              (table_identity d.schema d.name)
              (find_goal d (joint_first policy))
              (budget rows d)
              (ranked rows d)
              u
            ≡ ok v)
        × (add_until policy (table_identity d.schema d.name) (budget rows d) (ranked rows d) v
            ≡ ok t)
  unfolding add_roots
  add_roots-stages rows d s t h =
      let (w, e, h') =
        >>=-eq-ok (add_required policy p.sha256 d.required_key_sha256 (ranked rows d) s) _ h in
      let (empty, h'') = >>-eq-ok (guard (leb (length w.0) 0) required_absent) _ h' in
      let (v, e', h3) =
        >>=-eq-ok
          (add_goal p profiles policy (table_identity d.schema d.name)
            (find_goal d (joint_first policy)) (budget rows d) (ranked rows d) w.1)
          _ h'' in
      let none_left = nothing_left w.0 (guard-eq-ok (leb (length w.0) 0) required_absent empty) in
      (w.1, v, e ∙ ap (λ l. ok (l, w.1)) none_left, e', h3)
