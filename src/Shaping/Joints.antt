-- ===== src/Shaping/Joints.antt =====
-- src/source/shaping/shape_profiles.mts, jointShapeBucket: the joint index of the buckets of a row.
use rehearsal_db.Common.{
  ℕ, ◌+◌, ◌*◌, ◌/◌, ◌%◌, ◌<◌, ◌≡◌, refl, sym, ap, subst, ◌∙◌, inl, inr, ◌↔◌, true, Option, none,
  some, List, [], ◌∷◌, ok, ◌>>=◌, guard, guard-eq-ok, >>=-eq-ok, >>-eq-ok, Text, length, ltb, arith,
  All, Bool-cases, ltb→lt,
}
use native.Mathlib.Nat.{mul-add-mod_self_right, mod-eq_of_lt, mul-add-div_right, div-eq_of_lt}
use rehearsal_db.Shaping.Keys.{no_component}
use rehearsal_db.Shaping.Policy.{ShapeDistribution, ShapeRecord}
use rehearsal_db.Shaping.Buckets.{Bucket, joint, same_bucket, same_bucket_sound}
use rehearsal_db.Shaping.Classify.{position, distribution_bucket_names}
use rehearsal_db.Shaping.Profiling.{
  ShapeProfiles, places, joint_index, joint_bucket, scalar_goal, place_in, named_place,
}

-- Each place is among the names of its component.
abbrev pub IsPlaced : List (ℕ × ℕ) → Type 0
IsPlaced qs = All (λ q. q.0 < q.1) qs

-- The sizes of two lists of places are the same.
abbrev pub IsAlike : List (ℕ × ℕ) → List (ℕ × ℕ) → Type 0
IsAlike [] [] = Unit {0}
IsAlike (q ∷ qs) (r ∷ rs) = (q.1 ≡ r.1) × IsAlike qs rs
IsAlike _ _ = ⊥

mixed_unique : (i j a b n : ℕ) → a < n → b < n → i * n + a ≡ j * n + b → (i ≡ j) × (a ≡ b)
mixed_unique i j a b n h k e =
    let inner = ap (λ m. m % n) e in
    let outer = ap (λ m. m / n) e in
    let left = mul-add-mod_self_right i n a ∙ mod-eq_of_lt h in
    let right = mul-add-mod_self_right j n b ∙ mod-eq_of_lt k in
    let up = mul-add-div_right {m = n} (omega arith) i a in
    let down = mul-add-div_right {m = n} (omega arith) j b in
    let nothing = div-eq_of_lt h in let naught = div-eq_of_lt k in (omega arith, omega arith)

joint_index_unique :
    (i j : ℕ) (qs rs : List (ℕ × ℕ))
    → IsPlaced qs
    → IsPlaced rs
    → IsAlike qs rs
    → joint_index i qs ≡ joint_index j rs
    → (i ≡ j) × (qs ≡ rs)
unfolding joint_index
joint_index_unique i j [] [] p r alike e = (e, refl)
joint_index_unique i j [] (c ∷ rs) p r alike e = elim alike [ ]
joint_index_unique i j (q ∷ qs) [] p r alike e = elim alike [ ]
joint_index_unique i j ((a, n) ∷ qs) ((b, m) ∷ rs) (p, ps) (r, rest) (same, alike) e =
    let (front, back) = joint_index_unique (i * n + a) (j * m + b) qs rs ps rest alike e in
    let (high, low) =
      mixed_unique i j a b n p (subst (λ m. b < m) (sym same) r)
        (front ∙ ap (λ m. j * m + b) (sym same)) in
    (high, cc)

place_in-IsPlaced :
    (names : List Bucket) (o : Option Bucket) (q : ℕ × ℕ)
    → place_in names o ≡ ok q
    → (q.0 < q.1) × (q.1 ≡ length names)
place_in-IsPlaced names none q h = cc
place_in-IsPlaced names (some b) q h =
    let at = position (λ n. same_bucket n b) names in
    let (test, e) = >>-eq-ok (guard (ltb at (length names)) no_component) _ h in
    let less = ltb→lt at (length names) (guard-eq-ok (ltb at (length names)) no_component test) in
    let same : (at, length names) ≡ q = cc in
    subst (λ q. (q.0 < q.1) × (q.1 ≡ length names)) same (less, refl)

position-found :
    (b c : Bucket) (names : List Bucket)
    → position (λ n. same_bucket n b) names < length names
    → position (λ n. same_bucket n b) names ≡ position (λ n. same_bucket n c) names
    → (n : Bucket) × (same_bucket n b ≡ true) × (same_bucket n c ≡ true)
position-found b c [] h e = let never : ⊥ = omega arith in elim never [ ]
position-found b c (n ∷ names) h e = elim (Bool-cases (same_bucket n b)) [
  | inl one ↦ (n, one, ground arith)
  | inr two ↦ position-found b c names (ground arith) (ground arith)
]

place_in-same :
    (names : List Bucket) (o o' : Option Bucket) (q : ℕ × ℕ)
    → place_in names o ≡ ok q
    → place_in names o' ≡ ok q
    → o ≡ o'
place_in-same names none o' q h h' = cc
place_in-same names (some b) none q h h' = cc
place_in-same names (some b) (some c) q h h' =
    let (test, e) =
      >>-eq-ok (guard (ltb (position (λ n. same_bucket n b) names) (length names)) no_component) _
        h in
    let (test', e') =
      >>-eq-ok (guard (ltb (position (λ n. same_bucket n c) names) (length names)) no_component) _
        h' in
    let less = ltb→lt (position (λ n. same_bucket n b) names) (length names) (
      guard-eq-ok (ltb (position (λ n. same_bucket n b) names) (length names)) no_component test) in
    let same : position (λ n. same_bucket n b) names ≡ position (λ n. same_bucket n c) names = cc in
    let (n, one, two) = position-found b c names less same in
    ap some (sym (same_bucket_sound n b one) ∙ same_bucket_sound n c two)

module _ (s : ShapeProfiles) (ds : List ShapeDistribution) where
  named_place-IsPlaced :
      (r : ShapeRecord) (id : Text) (o : Option ShapeDistribution) (q : ℕ × ℕ)
      → named_place s r id o ≡ ok q
      → q.0 < q.1
  named_place-IsPlaced r id none q h = cc
  named_place-IsPlaced r id (some d) q h =
      (place_in-IsPlaced (distribution_bucket_names d) (s.assignments id r) q h).0

  named_place-same_size :
      (r r' : ShapeRecord) (id : Text) (o : Option ShapeDistribution) (q q' : ℕ × ℕ)
      → named_place s r id o ≡ ok q
      → named_place s r' id o ≡ ok q'
      → q.1 ≡ q'.1
  named_place-same_size r r' id none q q' h h' = cc
  named_place-same_size r r' id (some d) q q' h h' =
      let one = (place_in-IsPlaced (distribution_bucket_names d) (s.assignments id r) q h).1 in
      let two = (place_in-IsPlaced (distribution_bucket_names d) (s.assignments id r') q' h').1 in
      one ∙ sym two

  named_place-same :
      (r r' : ShapeRecord) (id : Text) (o : Option ShapeDistribution) (q : ℕ × ℕ)
      → named_place s r id o ≡ ok q
      → named_place s r' id o ≡ ok q
      → s.assignments id r ≡ s.assignments id r'
  named_place-same r r' id none q h h' = cc
  named_place-same r r' id (some d) q h h' =
      place_in-same (distribution_bucket_names d) (s.assignments id r) (s.assignments id r') q h h'

  named_place-determined :
      (r r' : ShapeRecord) (id : Text) (o : Option ShapeDistribution)
      → s.assignments id r ≡ s.assignments id r'
      → named_place s r id o ≡ named_place s r' id o
  named_place-determined r r' id none e = refl
  named_place-determined r r' id (some d) e = ap (place_in (distribution_bucket_names d)) e

  places-IsPlaced :
      (r : ShapeRecord) (ids : List Text) (qs : List (ℕ × ℕ))
      → places s ds r ids ≡ ok qs
      → IsPlaced qs
  unfolding places
  places-IsPlaced r [] qs h = let same : [] ≡ qs = cc in subst IsPlaced same tt
  places-IsPlaced r (id ∷ ids) qs h =
      let (q, e, h') = >>=-eq-ok (named_place s r id (scalar_goal id ds)) _ h in
      let (rest, e', h'') = >>=-eq-ok (places s ds r ids) _ h' in
      let same : q ∷ rest ≡ qs = cc in
      subst IsPlaced same
        (named_place-IsPlaced r id (scalar_goal id ds) q e, places-IsPlaced r ids rest e')

  places-IsAlike :
      (r r' : ShapeRecord) (ids : List Text) (qs qs' : List (ℕ × ℕ))
      → places s ds r ids ≡ ok qs
      → places s ds r' ids ≡ ok qs'
      → IsAlike qs qs'
  unfolding places
  places-IsAlike r r' [] qs qs' h h' =
      let one : [] ≡ qs = cc in
      let two : [] ≡ qs' = cc in subst (λ l. IsAlike l qs') one (subst (λ l. IsAlike [] l) two tt)
  places-IsAlike r r' (id ∷ ids) qs qs' h h' =
      let (q, e, k) = >>=-eq-ok (named_place s r id (scalar_goal id ds)) _ h in
      let (rest, e', k') = >>=-eq-ok (places s ds r ids) _ k in
      let (q', f, l) = >>=-eq-ok (named_place s r' id (scalar_goal id ds)) _ h' in
      let (rest', f', l') = >>=-eq-ok (places s ds r' ids) _ l in
      let one : q ∷ rest ≡ qs = cc in
      let two : q' ∷ rest' ≡ qs' = cc in
      subst (λ l. IsAlike l qs') one
        (subst (λ l. IsAlike (q ∷ rest) l) two
          (
            named_place-same_size r r' id (scalar_goal id ds) q q' e f,
            places-IsAlike r r' ids rest rest' e' f',
          ))

  -- The rows are in the same bucket of each component.
  abbrev pub IsSameIn : List Text → ShapeRecord → ShapeRecord → Type 0
  IsSameIn ids r r' = All (λ id. s.assignments id r ≡ s.assignments id r') ids

  places-IsSameIn :
      (r r' : ShapeRecord) (ids : List Text) (qs : List (ℕ × ℕ))
      → places s ds r ids ≡ ok qs
      → places s ds r' ids ≡ ok qs
      → IsSameIn ids r r'
  unfolding places
  places-IsSameIn r r' [] qs h h' = tt
  places-IsSameIn r r' (id ∷ ids) qs h h' =
      let (q, e, k) = >>=-eq-ok (named_place s r id (scalar_goal id ds)) _ h in
      let (rest, e', k') = >>=-eq-ok (places s ds r ids) _ k in
      let (q', f, l) = >>=-eq-ok (named_place s r' id (scalar_goal id ds)) _ h' in
      let (rest', f', l') = >>=-eq-ok (places s ds r' ids) _ l in
      let one : q ≡ q' = cc in
      let two : rest ≡ rest' = cc in
      (
        named_place-same r r' id (scalar_goal id ds) q e
            (subst (λ q. named_place s r' id (scalar_goal id ds) ≡ ok q) (sym one) f),
        places-IsSameIn r r' ids rest e' (subst (λ l. places s ds r' ids ≡ ok l) (sym two) f'),
      )

  places-determined :
      (r r' : ShapeRecord) (ids : List Text)
      → IsSameIn ids r r'
      → places s ds r ids ≡ places s ds r' ids
  unfolding places
  places-determined r r' [] same = refl
  places-determined r r' (id ∷ ids) (e, rest) =
      let one = named_place-determined r r' id (scalar_goal id ds) e in
      let two = places-determined r r' ids rest in
      ap (λ m. m >>= (λ q. places s ds r ids >>= (λ qs. ok (q ∷ qs)))) one
      ∙ ap (λ m. named_place s r' id (scalar_goal id ds) >>= (λ q. m >>= (λ qs. ok (q ∷ qs)))) two

  -- Two rows that a joint goal classifies are in one joint bucket exactly when they are in the same bucket
  -- of every component.
  pub joint_bucket-eq_iff :
      (ids : List Text) (r r' : ShapeRecord) (b b' : Bucket)
      → joint_bucket s ds ids r ≡ ok b
      → joint_bucket s ds ids r' ≡ ok b'
      → (b ≡ b') ↔ IsSameIn ids r r'
  unfolding joint_bucket
  joint_bucket-eq_iff ids r r' b b' h h' =
      let (qs, e, k) = >>=-eq-ok (places s ds r ids) _ h in
      let (qs', e', k') = >>=-eq-ok (places s ds r' ids) _ h' in
      let one : joint (joint_index 0 qs) ≡ b = cc in
      let two : joint (joint_index 0 qs') ≡ b' = cc in
      (
        (λ same.
            let index : joint_index 0 qs ≡ joint_index 0 qs' = cc in
            let (zeros, all_same) =
              joint_index_unique 0 0 qs qs' (places-IsPlaced r ids qs e)
                (places-IsPlaced r' ids qs' e') (places-IsAlike r r' ids qs qs' e e') index in
            places-IsSameIn r r' ids qs e
              (subst (λ l. places s ds r' ids ≡ ok l) (sym all_same) e')),
        (λ same.
            let again = places-determined r r' ids same in
            let alike : qs ≡ qs' = cc in sym one ∙ ap (λ l. joint (joint_index 0 l)) alike ∙ two),
      )
