-- ===== src/Shaping/Buckets.antt =====
-- src/source/shaping/shape_profiles.mts: the buckets of a scalar goal, and the bucket of a row. A bucket is a
-- constructor in place of its name, and a number its spelling; below compares two numbers.
use rehearsal_db.Common.{
  ℕ, suc, ◌≡◌, refl, sym, ap, ◌∙◌, Bool, true, false, ◌&&◌, ◌||◌, Option, none, some, [], ◌∷◌,
  Result, ok, err, ◌>>=◌, ◌>>◌, guard, Text, codes, text_eq, ==_iff, length, take, drop, leb, ◌==◌,
  if◌then◌else◌, all, is_digit, is_high, is_low, and-eq-true,
}
use rehearsal_db.Shaping.Keys.{
  ShapeError, Value, string, number, array, date, Decimal, parse_decimal, normalized, expanded,
  not_canonical_field, not_lossless, unzoned_timestamp, invalid_timestamp, not_text, not_array,
}
use rehearsal_db.Shaping.Policy.{
  ShapeDistributionKind, of_number, of_timestamp, of_string_length, number_extrema,
  timestamp_extrema, string_length_extrema, array_length_extrema,
}

pub data Bucket : Type 0 where
  null_class non_null false_class true_class empty_class non_empty other_class : Bucket
  minimum_class maximum_class minimum_maximum interior zero_class one_class many_class : Bucket
  category bucket joint : ℕ → Bucket

abbrev pub bucket_code : Bucket → ℕ
bucket_code null_class = 0
bucket_code non_null = 1
bucket_code false_class = 2
bucket_code true_class = 3
bucket_code empty_class = 4
bucket_code non_empty = 5
bucket_code other_class = 6
bucket_code minimum_class = 7
bucket_code maximum_class = 8
bucket_code minimum_maximum = 9
bucket_code interior = 10
bucket_code zero_class = 11
bucket_code one_class = 12
bucket_code many_class = 13
bucket_code (category n) = 14
bucket_code (bucket n) = 15
bucket_code (joint n) = 16

abbrev pub bucket_index : Bucket → ℕ
bucket_index (category n) = n
bucket_index (bucket n) = n
bucket_index (joint n) = n
bucket_index _ = 0

-- `===` on the names of two buckets.
unfoldable pub same_bucket : Bucket → Bucket → Bool
same_bucket a b = bucket_code a == bucket_code b && bucket_index a == bucket_index b

-- The bucket of a code and an index.
abbrev of_code : ℕ → ℕ → Bucket
of_code c n =
    if c == 0
    then null_class
    else if c == 1
    then non_null
    else if c == 2
    then false_class
    else if c == 3
    then true_class
    else if c == 4
    then empty_class
    else if c == 5
    then non_empty
    else if c == 6
    then other_class
    else if c == 7
    then minimum_class
    else if c == 8
    then maximum_class
    else if c == 9
    then minimum_maximum
    else if c == 10
    then interior
    else if c == 11
    then zero_class
    else if c == 12
    then one_class
    else if c == 13
    then many_class
    else if c == 14
    then category n
    else if c == 15
    then bucket n
    else joint n

of_code_lem : (b : Bucket) → of_code (bucket_code b) (bucket_index b) ≡ b
of_code_lem null_class = refl
of_code_lem non_null = refl
of_code_lem false_class = refl
of_code_lem true_class = refl
of_code_lem empty_class = refl
of_code_lem non_empty = refl
of_code_lem other_class = refl
of_code_lem minimum_class = refl
of_code_lem maximum_class = refl
of_code_lem minimum_maximum = refl
of_code_lem interior = refl
of_code_lem zero_class = refl
of_code_lem one_class = refl
of_code_lem many_class = refl
of_code_lem (category n) = refl
of_code_lem (bucket n) = refl
of_code_lem (joint n) = refl

pub same_bucket_sound : (a b : Bucket) → same_bucket a b ≡ true → a ≡ b
unfolding same_bucket
same_bucket_sound a b h =
    let (codes_same, index_same) =
      and-eq-true (bucket_code a == bucket_code b) (bucket_index a == bucket_index b) h in
    let c = (==_iff (bucket_code a) (bucket_code b)).0 codes_same in
    let i = (==_iff (bucket_index a) (bucket_index b)).0 index_same in
    sym (of_code_lem a)
    ∙ ap (λ n. of_code n (bucket_index a)) c
    ∙ ap (λ n. of_code (bucket_code b) n) i
    ∙ of_code_lem b

-- What is not the code's own: Number of a text (finite, of a safe magnitude, and its spelling), Date.parse
-- where it gives a time, the order of numbers, and the spelling of a natural one.
pub record Measures : Type 0 where
  pub to_number : Text → (Bool × Bool × Text)
  pub parse_date : Text → Option Text
  pub below : Text → Text → Bool
  pub spelled : ℕ → Text

-- `decimalSpelling`: the spellings that it is given have no leading zeros.
abbrev pub spelling_of : Option Decimal → Result ShapeError Text
spelling_of none = err not_canonical_field
spelling_of (some d) =
    let n = normalized (expanded d.whole d.fraction d.exponent) in
    ok (if d.negative then b'-' ∷ n else n)

unfoldable pub decimal_spelling : Text → Result ShapeError Text
unfolding parse_decimal
decimal_spelling s = spelling_of (parse_decimal s)

-- `/^-?(?:0|[1-9]\d*)(?:\.\d+)?$/u`
abbrev pub is_plain_decimal : Option Decimal → Bool
is_plain_decimal none = false
is_plain_decimal (some d) = elim d.exponent [ none ↦ true | some e ↦ false ]

abbrev pub lossless : Text → (Bool × Bool × Text) → Result ShapeError Text
lossless s (finite, safe, converted) = do
  guard (finite && safe) not_lossless
  a ← decimal_spelling s
  b ← decimal_spelling converted
  guard (text_eq a b) not_lossless
  ok converted

unfoldable pub measured_number : Measures → Value → Result ShapeError Text
unfolding decimal_spelling parse_decimal
measured_number x (number finite safe spelling) = do guard finite not_lossless; ok spelling
measured_number x (string s) = do
  guard (leb (length s) 256 && is_plain_decimal (parse_decimal s)) not_lossless
  lossless s (x.to_number s)
measured_number x _ = err not_lossless

-- A template, in which `d` stands for a digit.
unfoldable pub matches_template : Text → Text → Bool
unfolding is_digit
matches_template [] s = length s == 0
matches_template (c ∷ t) [] = false
matches_template (c ∷ t) (d ∷ s) =
    (if c == b'd' then is_digit d else c == d) && matches_template t s

-- `(?:Z|[+-]\d{2}:\d{2})$`
abbrev pub is_zone : Text → Bool
is_zone s =
    matches_template (codes "Z") s
    || matches_template (codes "+dd:dd") s
    || matches_template (codes "-dd:dd") s

abbrev pub has_fraction : ℕ → Text → Bool
has_fraction n [] = false
has_fraction n (c ∷ s) = c == b'.' && all is_digit (take n s) && is_zone (drop n s)

unfoldable pub is_zoned : Text → Bool
unfolding matches_template is_digit
is_zoned s =
    let rest = drop 19 s in
    matches_template (codes "dddd-dd-ddTdd:dd:dd") (take 19 s)
    && (is_zone rest || has_fraction 1 rest || has_fraction 2 rest || has_fraction 3 rest)

abbrev pub timed : Option Text → Result ShapeError Text
timed none = err invalid_timestamp
timed (some t) = ok t

unfoldable pub measured_timestamp : Measures → Value → Result ShapeError Text
unfolding is_zoned
measured_timestamp x (date t) = timed t
measured_timestamp x (string s) = do guard (is_zoned s) unzoned_timestamp; timed (x.parse_date s)
measured_timestamp x _ = err unzoned_timestamp

-- The characters of a text: a pair of surrogates is one.
unfoldable pub characters : Text → ℕ
characters [] = 0
characters (c ∷ []) = 1
characters (c ∷ d ∷ s) =
    let rest = characters (d ∷ s) in if is_high c && is_low d then rest else suc rest

abbrev pub measured_text : Measures → Value → Result ShapeError Text
measured_text x (string s) = ok (x.spelled (characters s))
measured_text x _ = err not_text

abbrev pub measured_array : Measures → Value → Result ShapeError Text
measured_array x (array n) = ok (x.spelled n)
measured_array x _ = err not_array

unfoldable pub measure : Measures → ShapeDistributionKind → Value → Result ShapeError Text
unfolding measured_number measured_timestamp characters
measure x of_number v = measured_number x v
measure x number_extrema v = measured_number x v
measure x of_timestamp v = measured_timestamp x v
measure x timestamp_extrema v = measured_timestamp x v
measure x of_string_length v = measured_text x v
measure x string_length_extrema v = measured_text x v
measure x _ v = measured_array x v

abbrev pub is_extrema : ShapeDistributionKind → Bool
is_extrema number_extrema = true
is_extrema timestamp_extrema = true
is_extrema string_length_extrema = true
is_extrema array_length_extrema = true
is_extrema _ = false
