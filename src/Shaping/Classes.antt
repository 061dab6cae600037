-- ===== src/Shaping/Classes.antt =====
-- src/source/shaping/shape_profiles.mts, classifyShapeBucket: the bucket of a row and the declared names.
use rehearsal_db.Common.{
  ℕ, zero, suc, ◌+◌, ◌≤◌, ◌<◌, ◌≡◌, refl, sym, ap, subst, inl, inr, Bool, true, false, Option, none,
  some, List, [], ◌∷◌, ◌++◌, Result, ok, >>=-eq-ok, Text, text_eq, length, ltb, arith,
  if◌then◌else◌, In, In-append_left, In-append_right, Bool-cases, ltb→lt, if-false, if-cases,
  if-true,
}
use rehearsal_db.Shaping.Keys.{
  ShapeError, Value, null, string, number, boolean, array, plain_object, date, object, Row,
}
use rehearsal_db.Shaping.Policy.{
  ShapeDistribution, ShapeDistributionKind, of_null, of_boolean, of_number, of_timestamp,
  of_string_length, of_array_length, of_enum, of_empty, relationship_fanout, number_extrema,
  timestamp_extrema, string_length_extrema, array_length_extrema,
}
use rehearsal_db.Shaping.Buckets.{
  Bucket, null_class, false_class, true_class, empty_class, non_empty, other_class, minimum_class,
  maximum_class, minimum_maximum, interior, category, bucket, Measures, measure, is_extrema,
}
use rehearsal_db.Shaping.Classify.{
  numbered, position, ClassContext, is_zero_one_many, is_same, fan_out_class, fan_out_names,
  other_names, kind_names, distribution_bucket_names, empty_bucket, boolean_bucket, extremum,
  fan_out_bucket, category_bucket, measured_bucket, value_bucket, of_value, field, is_fan_out,
  classify_shape_bucket, empty_part,
}

abbrev r_of : Bucket → Result ShapeError Bucket
r_of b = ok b

position-le {ℓ} : {A : Type ℓ} (p : A → Bool) (xs : List A) → position p xs ≤ length xs
position-le p [] = omega arith
position-le p (x ∷ xs) = let rest = position-le p xs in ground arith

In-numbered : (f : ℕ → Bucket) (i n : ℕ) → i < n → In (f i) (numbered f n)
In-numbered f i zero h = omega arith
In-numbered f i (suc n) h = elim (Bool-cases (ltb i n)) [
  | inl less ↦ In-append_left (f i) (numbered f n) (f n ∷ []) (In-numbered f i n (ltb→lt i n less))
  | inr last ↦
      let same : n ≡ i = ground arith in
      In-append_right (f i) (numbered f n) (f n ∷ []) (inl (ap f same))
]

empty_part-In :
    (n : ℕ) (b : Bucket)
    → ok (empty_part n) ≡ r_of b
    → In b (null_class ∷ empty_class ∷ non_empty ∷ [])
empty_part-In zero b h = inr (inl cc)
empty_part-In (suc n) b h = inr (inr (inl cc))

empty_bucket-In :
    (v : Value) (b : Bucket)
    → empty_bucket v ≡ ok b
    → In b (null_class ∷ empty_class ∷ non_empty ∷ [])
empty_bucket-In (string s) b h = empty_part-In (length s) b h
empty_bucket-In (array n) b h = empty_part-In n b h
empty_bucket-In (plain_object n) b h = empty_part-In n b h
empty_bucket-In null b h = cc
empty_bucket-In (number f s t) b h = cc
empty_bucket-In (boolean t) b h = cc
empty_bucket-In (date t) b h = cc
empty_bucket-In object b h = cc

boolean_bucket-In :
    (v : Value) (b : Bucket)
    → boolean_bucket v ≡ ok b
    → In b (null_class ∷ false_class ∷ true_class ∷ [])
boolean_bucket-In (boolean true) b h = inr (inr (inl cc))
boolean_bucket-In (boolean false) b h = inr (inl cc)
boolean_bucket-In null b h = cc
boolean_bucket-In (string s) b h = cc
boolean_bucket-In (number f s t) b h = cc
boolean_bucket-In (array n) b h = cc
boolean_bucket-In (plain_object n) b h = cc
boolean_bucket-In (date t) b h = cc
boolean_bucket-In object b h = cc

extreme-In :
    (low high : Bool) (b : Bucket)
    → (if low
        then (if high then minimum_maximum else minimum_class)
        else (if high then maximum_class else interior))
      ≡ b
    → In b (null_class ∷ minimum_class ∷ maximum_class ∷ minimum_maximum ∷ interior ∷ [])
extreme-In true true b h = inr (inr (inr (inl h)))
extreme-In true false b h = inr (inl h)
extreme-In false true b h = inr (inr (inl h))
extreme-In false false b h = inr (inr (inr (inr (inl h))))

extremum-In :
    (x y : Option Text) (m : Text) (b : Bucket)
    → extremum x y m ≡ ok b
    → In b (null_class ∷ minimum_class ∷ maximum_class ∷ minimum_maximum ∷ interior ∷ [])
extremum-In none y m b h = cc
extremum-In (some s) none m b h = cc
extremum-In (some s) (some t) m b h = extreme-In (text_eq m s) (text_eq m t) b cc

fan_out_class-In :
    (short : Bool) (n at : ℕ) → at < n + 1 → In (fan_out_class short at) (fan_out_names short n)
fan_out_class-In true n zero h = inl refl
fan_out_class-In true n (suc zero) h = inr (inl refl)
fan_out_class-In true n (suc (suc at)) h = inr (inr (inl refl))
fan_out_class-In false n at h = In-numbered bucket at (n + 1) h

module _ (x : Measures) where
  category_bucket-In :
      (g : ShapeDistribution) (v : Value) (b : Bucket)
      → category_bucket x g v ≡ ok b
      → In b (null_class ∷ numbered category (length g.values) ++ other_names g.include_other)
  category_bucket-In g v b h =
      elim (if-cases (ltb (position (λ member. is_same member v) g.values) (length g.values)) _ _ _
        h) [
          | inl (less, e) ↦
              let same : category (position (λ member. is_same member v) g.values) ≡ b = cc in
              inr (
                In-append_left b (numbered category (length g.values)) (other_names g.include_other)
                  (subst (λ b. In b (numbered category (length g.values))) same
                    (In-numbered category _ _ (ltb→lt _ _ less))))
          | inr (past, e) ↦ elim (if-cases g.include_other _ _ _ e) [
            | inl (include, e') ↦
                let same : other_class ≡ b = cc in
                inr (
                  In-append_right b (numbered category (length g.values))
                    (other_names g.include_other)
                    (subst (λ i. In b (other_names i)) (sym include) (inl same)))
            | inr (exclude, e') ↦ cc
          ]
        ]

  fan_out_bucket-In :
      (g : ShapeDistribution) (n : Option ℕ) (b : Bucket)
      → fan_out_bucket x g n ≡ ok b
      → In b (fan_out_names (is_zero_one_many g.boundaries) (length g.boundaries))
  fan_out_bucket-In g none b h = cc
  fan_out_bucket-In g (some n) b h =
      let at = position (λ c. x.below (x.spelled n) c) g.boundaries in
      let same : fan_out_class (is_zero_one_many g.boundaries) at ≡ b = cc in
      let most = position-le (λ c. x.below (x.spelled n) c) g.boundaries in
      subst (λ b. In b (fan_out_names (is_zero_one_many g.boundaries) (length g.boundaries))) same
        (fan_out_class-In (is_zero_one_many g.boundaries) (length g.boundaries) at (omega arith))

  -- A kind that is measured without extremes.
  plain_bucket-In :
      (g : ShapeDistribution) (c : ClassContext) (v : Value) (b : Bucket)
      → is_extrema g.kind ≡ false
      → measured_bucket x g c v ≡ ok b
      → In b (null_class ∷ numbered bucket (length g.boundaries + 1))
  plain_bucket-In g c v b plain h =
      let (m, e, h') = >>=-eq-ok (measure x g.kind v) _ h in
      let h'' = if-false _ _ _ _ plain h' in
      let same : bucket (position (λ c. x.below m c) g.boundaries) ≡ b = cc in
      let most = position-le (λ c. x.below m c) g.boundaries in
      inr (
        subst (λ b. In b (numbered bucket (length g.boundaries + 1))) same
          (In-numbered bucket (position (λ c. x.below m c) g.boundaries) (length g.boundaries + 1)
            (omega arith)))

  extreme_bucket-In :
      (g : ShapeDistribution) (c : ClassContext) (v : Value) (b : Bucket)
      → is_extrema g.kind ≡ true
      → measured_bucket x g c v ≡ ok b
      → In b (null_class ∷ minimum_class ∷ maximum_class ∷ minimum_maximum ∷ interior ∷ [])
  extreme_bucket-In g c v b extreme h =
      let (m, e, h') = >>=-eq-ok (measure x g.kind v) _ h in
      extremum-In c.minimum c.maximum m b (if-true _ _ _ _ extreme h')

  value_bucket-In :
      (k : ShapeDistributionKind) (g : ShapeDistribution) (c : ClassContext) (v : Value)
      (b : Bucket)
      → g.kind ≡ k
      → value_bucket x k g c v ≡ ok b
      → In b (kind_names k g)
  value_bucket-In of_null g c v b e h = inr (inl cc)
  value_bucket-In of_boolean g c v b e h = boolean_bucket-In v b h
  value_bucket-In of_number g c v b e h = plain_bucket-In g c v b (ap is_extrema e) h
  value_bucket-In of_timestamp g c v b e h = plain_bucket-In g c v b (ap is_extrema e) h
  value_bucket-In of_string_length g c v b e h = plain_bucket-In g c v b (ap is_extrema e) h
  value_bucket-In of_array_length g c v b e h = plain_bucket-In g c v b (ap is_extrema e) h
  value_bucket-In of_enum g c v b e h = category_bucket-In g v b h
  value_bucket-In of_empty g c v b e h = empty_bucket-In v b h
  value_bucket-In number_extrema g c v b e h = extreme_bucket-In g c v b (ap is_extrema e) h
  value_bucket-In timestamp_extrema g c v b e h = extreme_bucket-In g c v b (ap is_extrema e) h
  value_bucket-In string_length_extrema g c v b e h = extreme_bucket-In g c v b (ap is_extrema e) h
  value_bucket-In array_length_extrema g c v b e h = extreme_bucket-In g c v b (ap is_extrema e) h
  value_bucket-In relationship_fanout g c v b e h = fan_out_bucket-In g c.fanout b h

  null_class-In :
      (k : ShapeDistributionKind) (g : ShapeDistribution)
      → is_fan_out k ≡ false
      → In null_class (kind_names k g)
  null_class-In of_null g h = inl refl
  null_class-In of_boolean g h = inl refl
  null_class-In of_number g h = inl refl
  null_class-In of_timestamp g h = inl refl
  null_class-In of_string_length g h = inl refl
  null_class-In of_array_length g h = inl refl
  null_class-In of_enum g h = inl refl
  null_class-In of_empty g h = inl refl
  null_class-In number_extrema g h = inl refl
  null_class-In timestamp_extrema g h = inl refl
  null_class-In string_length_extrema g h = inl refl
  null_class-In array_length_extrema g h = inl refl
  null_class-In relationship_fanout g h = cc

  of_value-In :
      (g : ShapeDistribution) (c : ClassContext) (v : Value) (b : Bucket)
      → is_fan_out g.kind ≡ false
      → of_value x g c v ≡ ok b
      → In b (kind_names g.kind g)
  of_value-In g c null b plain h =
      let same : null_class ≡ b = cc in
      subst (λ b. In b (kind_names g.kind g)) same (null_class-In g.kind g plain)
  of_value-In g c (string s) b plain h = value_bucket-In g.kind g c (string s) b refl h
  of_value-In g c (number f s t) b plain h = value_bucket-In g.kind g c (number f s t) b refl h
  of_value-In g c (boolean t) b plain h = value_bucket-In g.kind g c (boolean t) b refl h
  of_value-In g c (array n) b plain h = value_bucket-In g.kind g c (array n) b refl h
  of_value-In g c (plain_object n) b plain h = value_bucket-In g.kind g c (plain_object n) b refl h
  of_value-In g c (date t) b plain h = value_bucket-In g.kind g c (date t) b refl h
  of_value-In g c object b plain h = value_bucket-In g.kind g c object b refl h

  fan_out_names-In :
      (k : ShapeDistributionKind) (g : ShapeDistribution) (b : Bucket)
      → is_fan_out k ≡ true
      → In b (fan_out_names (is_zero_one_many g.boundaries) (length g.boundaries))
      → In b (kind_names k g)
  fan_out_names-In of_null g b h i = cc
  fan_out_names-In of_boolean g b h i = cc
  fan_out_names-In of_number g b h i = cc
  fan_out_names-In of_timestamp g b h i = cc
  fan_out_names-In of_string_length g b h i = cc
  fan_out_names-In of_array_length g b h i = cc
  fan_out_names-In of_enum g b h i = cc
  fan_out_names-In of_empty g b h i = cc
  fan_out_names-In number_extrema g b h i = cc
  fan_out_names-In timestamp_extrema g b h i = cc
  fan_out_names-In string_length_extrema g b h i = cc
  fan_out_names-In array_length_extrema g b h i = cc
  fan_out_names-In relationship_fanout g b h i = i

  -- Whatever bucket a row is put in, under whatever extremes and fan-out, is one of the declared buckets
  -- of the goal.
  pub classify_shape_bucket-In :
      (g : ShapeDistribution) (r : Row) (c : ClassContext) (b : Bucket)
      → classify_shape_bucket x g r c ≡ ok b
      → In b (distribution_bucket_names g)
  unfolding classify_shape_bucket distribution_bucket_names
  classify_shape_bucket-In g r c b h = elim (if-cases (is_fan_out g.kind) _ _ _ h) [
    | inl (fan, e) ↦ fan_out_names-In g.kind g b fan (fan_out_bucket-In g c.fanout b e)
    | inr (plain, e) ↦
        let (v, e', h') = >>=-eq-ok (field g.column r) _ e in of_value-In g c v b plain h'
  ]
