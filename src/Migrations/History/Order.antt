-- ===== src/Migrations/History/Order.antt =====
-- When a history is accepted: migration_history.mts, assertOrderedUniqueHistory.
use rehearsal_db.Common.{
  ◌≡◌, refl, sym, ◌↔◌, ◌⊎◌, inl, inr, true, false, Option, none, some, List, [], ◌∷◌, map, ok, Text,
  text_eq, text_lt, text_eq_iff, text_lt_irrefl, text_lt_trans, text_trichotomy, All, any, arith,
  Bool-cases, >>-eq-ok, subst,
}
use rehearsal_db.Migrations.History.{
  is_version, ordered_from, not_after, assert_ordered_unique_history,
}

abbrev pub IsVersion : Text → Type 0
IsVersion v = is_version v ≡ true

abbrev pub IsBefore : Text → Text → Type 0
IsBefore v w = text_lt v w ≡ true

-- Each version has fourteen digits and is smaller than every later one.
abbrev pub IsIncreasing : List Text → Type 0
IsIncreasing [] = Unit
IsIncreasing (v ∷ vs) = IsVersion v × All (IsBefore v) vs × IsIncreasing vs

abbrev AllAfter : Option Text → List Text → Type 0
AllAfter none vs = Unit
AllAfter (some p) vs = All (IsBefore p) vs

IsBefore-of_not_after : (p v : Text) → not_after (some p) v ≡ false → IsBefore p v
IsBefore-of_not_after p v h = elim (text_trichotomy p v) [
  | inl b ↦ b
  | inr (inl e) ↦ ground (arith, text_eq_iff v p)
  | inr (inr a) ↦ ground arith
]

All-IsBefore_trans :
    (p v : Text) (vs : List Text) → IsBefore p v → All (IsBefore v) vs → All (IsBefore p) vs
All-IsBefore_trans p v [] b h = tt
All-IsBefore_trans p v (w ∷ vs) b (c, h) = (text_lt_trans p v w b c, All-IsBefore_trans p v vs b h)

AllAfter-cons :
    (previous : Option Text) (v : Text) (vs : List Text)
    → not_after previous v ≡ false
    → All (IsBefore v) vs
    → AllAfter previous (v ∷ vs)
AllAfter-cons none v vs n h = tt
AllAfter-cons (some p) v vs n h =
    let b = IsBefore-of_not_after p v n in (b, All-IsBefore_trans p v vs b h)

ordered_from_sound :
    (seen : List Text) (previous : Option Text) (vs : List Text)
    → ordered_from seen previous vs ≡ ok tt
    → AllAfter previous vs × IsIncreasing vs
unfolding ordered_from
ordered_from_sound seen none [] h = (tt, tt)
ordered_from_sound seen (some p) [] h = (tt, tt)
ordered_from_sound seen previous (v ∷ vs) h =
    let rest : ordered_from (v ∷ seen) (some v) vs ≡ ok tt = ground arith in
    let valid : is_version v ≡ true = ground arith in
    let after : not_after previous v ≡ false = ground arith in
    let (all_after, increasing) = ordered_from_sound (v ∷ seen) (some v) vs rest in
    (AllAfter-cons previous v vs after all_after, (valid, all_after, increasing))

-- What has been seen is not larger than the previous version.
abbrev SeenBelow : List Text → Option Text → Type 0
SeenBelow [] none = Unit
SeenBelow (s ∷ seen) none = ⊥
SeenBelow seen (some p) = All (λ s. (s ≡ p) ⊎ IsBefore s p) seen

not-seen :
    (seen : List Text) (p v : Text)
    → All (λ s. (s ≡ p) ⊎ IsBefore s p) seen
    → IsBefore p v
    → any (text_eq v) seen ≡ false
not-seen [] p v h b = refl
not-seen (s ∷ seen) p v (inl e, h) b =
    ground (arith, not-seen seen p v h b, text_eq_iff v s, text_lt_irrefl v)
not-seen (s ∷ seen) p v (inr c, h) b =
    ground
      (arith, not-seen seen p v h b, text_eq_iff v s, text_lt_irrefl v, text_lt_trans s p v c b)

seen-step :
    (seen : List Text) (p v : Text)
    → All (λ s. (s ≡ p) ⊎ IsBefore s p) seen
    → IsBefore p v
    → All (λ s. (s ≡ v) ⊎ IsBefore s v) seen
seen-step [] p v h b = tt
seen-step (s ∷ seen) p v (inl e, h) b =
    (inr (subst (λ t. IsBefore t v) (sym e) b), seen-step seen p v h b)
seen-step (s ∷ seen) p v (inr c, h) b = (inr (text_lt_trans s p v c b), seen-step seen p v h b)

before→not_after : (p v : Text) → IsBefore p v → not_after (some p) v ≡ false
before→not_after p v b = elim (Bool-cases (not_after (some p) v)) [
  | inl y ↦
      ground (arith, text_lt_trans p v p b, text_lt_irrefl p, text_lt_irrefl v, text_eq_iff v p)
  | inr n ↦ n
]

ordered_from_step :
    (seen : List Text) (p v : Text) (vs : List Text)
    → IsVersion v
    → any (text_eq v) seen ≡ false
    → not_after (some p) v ≡ false
    → ordered_from (v ∷ seen) (some v) vs ≡ ok tt
    → ordered_from seen (some p) (v ∷ vs) ≡ ok tt
unfolding ordered_from
ordered_from_step seen p v vs valid fresh after rest = ground arith

ordered_from_complete :
    (seen : List Text) (p : Text) (vs : List Text)
    → All (λ s. (s ≡ p) ⊎ IsBefore s p) seen
    → All (IsBefore p) vs
    → IsIncreasing vs
    → ordered_from seen (some p) vs ≡ ok tt
unfolding ordered_from
ordered_from_complete seen p [] s a i = refl
ordered_from_complete seen p (v ∷ vs) s (b, a) (valid, later, i) =
    let s' = seen-step seen p v s b in
    let rest = ordered_from_complete (v ∷ seen) v vs (inl refl, s') later i in
    ordered_from_step seen p v vs valid (not-seen seen p v s b) (before→not_after p v b) rest

first_complete : (vs : List Text) → IsIncreasing vs → ordered_from [] none vs ≡ ok tt
unfolding ordered_from
first_complete [] i = refl
first_complete (v ∷ vs) (valid, later, i) =
    ground (arith, ordered_from_complete (v ∷ []) v vs (inl refl, tt) later i)

-- A list of entries is accepted, and then returned unchanged, exactly when every version has
-- fourteen digits and is smaller than every later version of the list.
pub assert_ordered_unique_history_iff {ℓ} :
    {A : Type ℓ} (version : A → Text) (entries : List A)
    → (assert_ordered_unique_history version entries ≡ ok entries)
      ↔ IsIncreasing (map version entries)
unfolding assert_ordered_unique_history
assert_ordered_unique_history_iff version entries = (
  λ h. (ordered_from_sound [] none (map version entries) (>>-eq-ok _ _ h).0).1,
  λ i. rw (first_complete (map version entries) i),
)

-- Whatever is accepted is returned as it is.
pub ordered_of_ok {ℓ} :
    {A : Type ℓ} (version : A → Text) (entries out : List A)
    → assert_ordered_unique_history version entries ≡ ok out
    → (out ≡ entries) × IsIncreasing (map version entries)
unfolding assert_ordered_unique_history
ordered_of_ok version entries out h =
    let (a, b) = >>-eq-ok (ordered_from [] none (map version entries)) (ok entries) h in
    (sym (cc b), (ordered_from_sound [] none (map version entries) a).1)
